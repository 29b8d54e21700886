-- ===== src/Pcscf/Cases.antt =====
-- The ways through the P-CSCF's handlers: what holds of each holds of all.
use sim_ims.Prelude.{
  Bool, true, false, Option, inl, inr, none, some, if_both, Bool-cases, Option-cases,
}
use sim_ims.Prelude.Text.{Text}
use sim_ims.Common.{Result, ok, err}
use sim_ims.Media.{MediaSessionKey, Sessions}
use sim_ims.Media.Invite.{
  begin_invite_response, commit_invite_response, mark_invite_final_success,
  mark_invite_final_failure,
}
use sim_ims.Message.{SipMessage, status_code}
use sim_ims.Pcscf.{
  PcscfService, PcscfState, RtpengineClient, RtpengineResult, sanitize_for_ue_egress, media_key_for,
  is_core_facing_request, resolve_ue_destination,
}
use sim_ims.Pcscf.Anchoring.{
  on_invite_response, completed, after_answer, is_2xx, with_sdp, update_media, without_media,
  with_media, flags,
}
use sim_ims.Pcscf.Handlers.{
  RequestArrival, Passed, dropped, relayed, remembered, forward_stateful_to_ue,
  forward_stateful_to_core, forward_stateless_to_ue, forward_stateless_to_core, on_register,
  on_invite, on_bye, on_ack, on_prack, on_subscribe, offer_media, dispatch,
}

module _ {ℓ κ} {E : Type ℓ} (s : PcscfService E) (P : Passed × PcscfState E → Type κ)
    (a : RequestArrival) where
  pub to_ue-both :
      (b : Bool) (m : SipMessage) (st : PcscfState E)
      → ((r : Passed) → P (r, st))
      → ((r : Passed) → P (r, remembered s a m st))
      → P (forward_stateful_to_ue s b a m st)
  unfolding forward_stateful_to_ue
  to_ue-both b m st h k = elim (Option-cases (resolve_ue_destination s m)) [
    | inl e ↦ rw (forward_stateful_to_ue, e) (h _)
    | inr (ue, e) ↦ rw (forward_stateful_to_ue, e) (k _)
  ]

  pub stateless_to_ue-both :
      (m : SipMessage) (st : PcscfState E)
      → ((r : Passed) → P (r, st))
      → ((r : Passed) → P (r, remembered s a m st))
      → P (forward_stateless_to_ue s a m st)
  unfolding forward_stateless_to_ue
  stateless_to_ue-both m st h k = elim (Option-cases (resolve_ue_destination s m)) [
    | inl e ↦ rw (forward_stateless_to_ue, e) (h _)
    | inr (ue, e) ↦ rw (forward_stateless_to_ue, e) (k _)
  ]

  pub relayed-both :
      (b c : Bool) (st : PcscfState E)
      → P (forward_stateful_to_ue s b a a.request st)
      → P (forward_stateful_to_core s c a a.request st)
      → P (relayed s b c a st)
  relayed-both b c st h k = if_both P (is_core_facing_request s a.source) h k

  pub on_ack-both :
      (st : PcscfState E)
      → P (forward_stateless_to_ue s a a.request st)
      → P (forward_stateless_to_core s a a.request st)
      → P (on_ack s a st)
  unfolding on_ack
  on_ack-both st h k = if_both P (is_core_facing_request s a.source) h k

  pub on_invite-both :
      (st : PcscfState E)
      → P (forward_stateful_to_ue s true a a.request st)
      → P (
          forward_stateful_to_core s true a
            (offer_media s s.rtpengine a.request.body a st).0
            (offer_media s s.rtpengine a.request.body a st).1)
      → P (on_invite s a st)
  unfolding on_invite
  on_invite-both st h k = if_both P (is_core_facing_request s a.source) h k

  pub dispatch-each :
      (st : PcscfState E)
      → P (on_register s a st)
      → P (on_invite s a st)
      → P (on_bye s a st)
      → P (on_ack s a st)
      → P (on_prack s a st)
      → P (on_subscribe s a st)
      → P (dropped, st)
      → P (dispatch s a st)
  unfolding dispatch
  dispatch-each st register invite bye ack prack subscribe other = if_both P _ register (
      if_both P _ invite
        (if_both P _ bye (if_both P _ ack (if_both P _ prack (if_both P _ subscribe other)))))

-- The ways through the response to an INVITE.
module _ {ℓ κ} {E : Type ℓ} (s : PcscfService E) (P : SipMessage × PcscfState E → Type κ) where
  abbrev begun : SipMessage → PcscfState E → Sessions
  begun n st = (begin_invite_response (media_key_for n) st.media).1

  abbrev pub HoldsBegun : SipMessage → PcscfState E → Type (ℓ ⊔ κ)
  HoldsBegun n st = (x : SipMessage) (e : E) → P (x, record st { media = begun n st; outside = e })

  abbrev pub HoldsCommitted : SipMessage → PcscfState E → Type (ℓ ⊔ κ)
  HoldsCommitted n st =
      (x : SipMessage) (e : E) (k : MediaSessionKey) (sdp : Text)
      → P (x, record st { media = commit_invite_response k sdp false (begun n st); outside = e })

  abbrev pub HoldsFinal : SipMessage → PcscfState E → Type (ℓ ⊔ κ)
  HoldsFinal n st =
      (x : SipMessage) (e : E) (k : MediaSessionKey) (sdp : Text)
      → let committed = commit_invite_response k sdp true (begun n st) in
        P (
          x,
          completed s (mark_invite_final_success k committed)
              (record st { media = committed; outside = e }),
        )

  after_answer-each :
      (r : Result RtpengineResult) (k : MediaSessionKey) (sdp : Text) (n : SipMessage)
      (st : PcscfState E) (e : E)
      → HoldsBegun n st
      → HoldsCommitted n st
      → HoldsFinal n st
      → P (after_answer s r k sdp n (record st { media = begun n st; outside = e }))
  after_answer-each (err x) k sdp n st e b c f = b n e
  after_answer-each (ok r) k sdp n st e b c f = elim (Bool-cases (is_2xx (status_code n))) [
    | inl q ↦ rw q (f (with_sdp r.sdp n) e k sdp)
    | inr q ↦ rw q (c (with_sdp r.sdp n) e k sdp)
  ]

  update_media-each :
      (r : RtpengineClient E) (sdp : Text) (n : SipMessage) (st : PcscfState E)
      → HoldsBegun n st
      → HoldsCommitted n st
      → HoldsFinal n st
      → P (update_media s r sdp n st)
  update_media-each r sdp n st b c f =
      elim (Option-cases (begin_invite_response (media_key_for n) st.media).0) [
        | inl q ↦ rw (update_media, q) (b n st.outside)
        | inr (u, q) ↦
            rw (update_media, q)
              (let a = r.answer u.session sdp flags st.outside in
                after_answer-each a.0 u.key sdp n st a.1 b c f)
      ]

  abbrev pub HoldsSuccess : SipMessage → PcscfState E → Type κ
  HoldsSuccess n st = P (n, completed s (mark_invite_final_success (media_key_for n) st.media) st)

  without_media-each :
      (n : SipMessage) (st : PcscfState E)
      → P (n, st)
      → HoldsSuccess n st
      → P (without_media s n st)
  without_media-each n st h k = if_both P (is_2xx (status_code n)) k h

  with_media-each :
      (o : Option (RtpengineClient E)) (sdp : Option Text) (n : SipMessage) (st : PcscfState E)
      → P (n, st)
      → HoldsSuccess n st
      → HoldsBegun n st
      → HoldsCommitted n st
      → HoldsFinal n st
      → P (with_media s o sdp n st)
  with_media-each (some r) (some sdp) n st h k b c f = update_media-each r sdp n st b c f
  with_media-each none sdp n st h k b c f = without_media-each n st h k
  with_media-each (some r) none n st h k b c f = without_media-each n st h k

  pub response-each :
      (m : SipMessage) (st : PcscfState E)
      → ((x : SipMessage) → P (x, st))
      → let n = sanitize_for_ue_egress m in
        P (n, completed s (mark_invite_final_failure (media_key_for n) st.media) st)
        → HoldsSuccess (sanitize_for_ue_egress m) st
        → HoldsBegun (sanitize_for_ue_egress m) st
        → HoldsCommitted (sanitize_for_ue_egress m) st
        → HoldsFinal (sanitize_for_ue_egress m) st
        → P (on_invite_response s m st)
  unfolding on_invite_response
  response-each m st h l k b c f =
      let n = sanitize_for_ue_egress m in
      if_both P _
        (if_both P _ l (if_both P _ (h n) (with_media-each s.rtpengine m.body n st (h n) k b c f)))
        (h m)
