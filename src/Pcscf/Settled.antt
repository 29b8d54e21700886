-- ===== src/Pcscf/Settled.antt =====
-- The media sessions of the P-CSCF: what a handler gives up is gone when it ends.
use sim_ims.Prelude.{
  ◌≡◌, refl, sym, subst, Bool, true, false, Option, none, some, List, [], ◌∷◌, if_both,
}
use sim_ims.Prelude.Text.{Text, text_instance}
use sim_ims.Prelude.Table.{find}
use sim_ims.Media.{MediaSessionKey, key_instance}
use sim_ims.Media.Invite.{mark_terminating, begin_invite_response, commit_invite_response}
use sim_ims.Media.Calls.{marks, begins, commits, final_failure, final_success}
use sim_ims.Media.Plans.{terminating_at}
use sim_ims.Message.{SipMessage}
use sim_ims.Proxy.{is_loop_detected}
use sim_ims.Pcscf.{
  PcscfService, PcscfState, RtpengineClient, proxy, media_key_for, sanitize_for_ue_egress,
}
use sim_ims.Pcscf.Cases.{
  to_ue-both, stateless_to_ue-both, relayed-both, on_ack-both, on_invite-both, dispatch-each,
  response-each,
}
use sim_ims.Media.{MediaTerminationPlan, Sessions}
use sim_ims.Media.Calls.{Signal, signal, plan_list}
use sim_ims.Pcscf.Anchoring.{
  ended, complete_media_terminations, terminate_media_for_request, on_invite_response,
}
use sim_ims.Pcscf.Handlers.{
  offer_media, Passed, RequestArrival, Incoming, arrives, replies, relayed, on_ack, dispatch,
  receive, receive_all, on_register, on_bye, on_prack, on_subscribe, forward_stateful_to_core,
  forward_stateless_to_core,
}
use sim_ims.Pcscf.Completed.{
  IsSettled, silent-IsSettled, completed-IsSettled, marked-signal, begins-signal, commits-signal,
  failure-signal, success-signal, offered-IsSettled, create-IsSettled,
}

module _ {ℓ} {E : Type ℓ} (s : PcscfService E) where
  ended-IsSettled :
      (c : Signal) (r : Option MediaTerminationPlan × Sessions) (st : PcscfState E)
      → signal c st.media ≡ (plan_list r.0, r.1)
      → IsSettled st.media
      → IsSettled (ended s r st).media
  unfolding complete_media_terminations
  ended-IsSettled c (none, media) st e h = silent-IsSettled c st.media media e h
  ended-IsSettled c (some plan, media) st e h =
      completed-IsSettled s c st.media (plan ∷ [], media) st e h

  terminated-IsSettled :
      (m : SipMessage) (st : PcscfState E)
      → IsSettled st.media
      → IsSettled (terminate_media_for_request s m st).media
  unfolding terminate_media_for_request
  terminated-IsSettled m st h =
      let key = media_key_for m in
      ended-IsSettled (marks key) (mark_terminating key st.media) st (marked-signal key st.media) h

  offer-IsSettled :
      (o : Option (RtpengineClient E)) (sdp : Option Text) (a : RequestArrival) (st : PcscfState E)
      → IsSettled st.media
      → IsSettled (offer_media s o sdp a st).1.media
  offer-IsSettled none sdp a st h = create-IsSettled a.now _ st.media h
  offer-IsSettled (some r) none a st h = create-IsSettled a.now _ st.media h
  offer-IsSettled (some r) (some sdp) a st h =
      offered-IsSettled _ (media_key_for a.request) sdp a.request _
        (create-IsSettled a.now _ st.media h)

  abbrev Settles : Passed × PcscfState E → Type 0
  Settles r = IsSettled r.1.media

  relayed-Settles :
      (b c : Bool) (a : RequestArrival) (st : PcscfState E)
      → IsSettled st.media
      → Settles (relayed s b c a st)
  unfolding forward_stateful_to_core
  relayed-Settles b c a st h =
      relayed-both s Settles a b c st (to_ue-both s Settles a b a.request st (λ r. h) (λ r. h)) h

  on_ack-Settles :
      (a : RequestArrival) (st : PcscfState E) → IsSettled st.media → Settles (on_ack s a st)
  unfolding forward_stateless_to_core
  on_ack-Settles a st h =
      on_ack-both s Settles a st (stateless_to_ue-both s Settles a a.request st (λ r. h) (λ r. h))
        (if_both Settles (is_loop_detected (proxy s) a.request) h h)

  dispatch-Settles :
      (a : RequestArrival) (st : PcscfState E) → IsSettled st.media → Settles (dispatch s a st)
  unfolding on_register on_bye on_prack on_subscribe forward_stateful_to_core
  dispatch-Settles a st h =
      let ended = terminate_media_for_request s a.request st in
      dispatch-each s Settles a st h
        (on_invite-both s Settles a st (to_ue-both s Settles a true a.request st (λ r. h) (λ r. h))
          (offer-IsSettled s.rtpengine a.request.body a st h))
        (relayed-Settles true false a ended (terminated-IsSettled a.request st h))
        (on_ack-Settles a st h) (relayed-Settles true false a st h)
        (relayed-Settles true true a st h) h

  response-IsSettled :
      (m : SipMessage) (st : PcscfState E)
      → IsSettled st.media
      → IsSettled (on_invite_response s m st).1.media
  response-IsSettled m st h =
      let key = media_key_for (sanitize_for_ue_egress m) in
      let begun = (begin_invite_response key st.media).1 in
      let b = silent-IsSettled (begins key) st.media begun (begins-signal key st.media) h in
      let c : (k : MediaSessionKey) (sdp : Text) (final : Bool)
          → IsSettled (commit_invite_response k sdp final begun) =
        λ k sdp final.
          silent-IsSettled (commits k sdp final) begun _ (commits-signal k sdp final begun) b in
      response-each s (λ (r : SipMessage × PcscfState E). IsSettled r.1.media) m st (λ x. h)
        (completed-IsSettled s (final_failure key) st.media _ st (failure-signal key st.media) h)
        (completed-IsSettled s (final_success key) st.media _ st (success-signal key st.media) h)
        (λ x e. b) (λ x e k sdp. c k sdp false)
        (λ x e k sdp.
          let committed = commit_invite_response k sdp true begun in
          completed-IsSettled s (final_success k) committed _
            (record st { media = committed; outside = e }) (success-signal k committed)
            (c k sdp true))

  receive_all-IsSettled :
      (is : List Incoming) (st : PcscfState E)
      → IsSettled st.media
      → IsSettled (receive_all s is st).media
  unfolding receive_all receive
  receive_all-IsSettled [] st h = h
  receive_all-IsSettled (arrives a ∷ is) st h = receive_all-IsSettled is _ (dispatch-Settles a st h)
  receive_all-IsSettled (replies m ∷ is) st h =
      receive_all-IsSettled is _ (response-IsSettled m st h)

-- Whatever requests and responses the P-CSCF has handled since it started, no session is left
-- terminating: what a handler gives up is out of the table when the handler ends.
pub receive_all-terminating_at {ℓ} :
    {E : Type ℓ} (s : PcscfService E) (is : List Incoming) (st : PcscfState E) (k : MediaSessionKey)
    → st.media ≡ []
    → terminating_at k (receive_all s is st).media ≡ 0
unfolding find
receive_all-terminating_at s is st k h =
    (receive_all-IsSettled s is st
        (subst IsSettled (sym h) (record { keyed = tt; quiet = λ k. refl }))).quiet
      k
