-- ===== src/Pcscf/Endings.antt =====
-- How sessions of the P-CSCF end: by a BYE or a CANCEL, and by the failure of an INVITE.
use sim_ims.Prelude.{
  ℕ, ◌≡◌, refl, sym, ap, ◌∙◌, subst, inl, inr, true, false, ◌&&◌, Option, none, some, arith, leb,
  is_empty, ltb, if◌then◌else◌, ◌==◌, ==-refl, Bool-cases,
}
use sim_ims.Prelude.Text.{Text, codes, text_instance}
use sim_ims.Prelude.Table.{find, insert, find-insert, IsKeyed, insert-IsKeyed}
use sim_ims.Common.{Result, ok, err}
use sim_ims.Message.{SipMessage, is_response, from_tag_of, to_tag_of, cseq_method, status_code}
use sim_ims.Media.{
  MediaSessionKey, MediaTerminationPlan, key_instance, MediaSessionState, Sessions, is_terminating,
  early, create_session, update_caller_sdp, update,
}
use sim_ims.Media.Invite.{
  find_terminating_key, mark_terminating, plan_termination, complete_termination, terminate,
  make_termination_plan_locked, mark_invite_final_failure, is_spared,
}
use sim_ims.Media.Plans.{
  plans_for, terminating_at, after_others, find-terminate_others, others-Accounts,
}
use sim_ims.Pcscf.{
  PcscfService, PcscfState, RtpengineClient, PcfClient, RtpengineResult, media_key_for,
  sanitize_for_ue_egress, is_core_facing_request,
}
use sim_ims.Pcscf.Anchoring.{
  ended, release, terminate_media_for_request, completed, on_invite_response,
}
use sim_ims.Pcscf.Handlers.{
  RequestArrival, Passed, offer_media, offered, on_invite, on_bye, forward_stateful_to_core,
}
use sim_ims.Pcscf.Cases.{relayed-both, to_ue-both}
use sim_ims.Pcscf.Completed.{find_complete, find-complete_all, live}

marked :
    (j k : MediaSessionKey) (media : Sessions) (x : MediaSessionState)
    → find_terminating_key j media ≡ some k
    → find media k ≡ some x
    → is_terminating x.lifecycle ≡ false
    → mark_terminating j media
      ≡ (some (make_termination_plan_locked k x), insert media k (terminate x))
unfolding mark_terminating plan_termination
marked j k media x f e q = rw (mark_terminating, f, plan_termination, e, q) refl

find-ended :
    (k i : MediaSessionKey) (media : Sessions) (x : MediaSessionState)
    → find (complete_termination k (insert media k (terminate x))) i
      ≡ (if k == i then none else find media i)
find-ended k i media x =
    find_complete k i (insert media k (terminate x)) ∙ elim (Bool-cases (k == i)) [
      | inl here ↦ rw (here, find-insert, here) refl
      | inr other ↦ rw (other, find-insert, other) refl
    ]

module _ {ℓ} {E : Type ℓ} (s : PcscfService E) where
  terminated :
      (m : SipMessage) (st : PcscfState E) (k : MediaSessionKey) (x : MediaSessionState)
      → find_terminating_key (media_key_for m) st.media ≡ some k
      → find st.media k ≡ some x
      → is_terminating x.lifecycle ≡ false
      → terminate_media_for_request s m st ≡ record st {
        media = complete_termination k (insert st.media k (terminate x));
        outside = release s (make_termination_plan_locked k x) st.outside;
      }
  unfolding terminate_media_for_request
  terminated m st k x f e q = ap (λ r. ended s r st) (marked (media_key_for m) k st.media x f e q)

  abbrev Ends :
      MediaSessionKey
      → MediaSessionKey
      → MediaSessionState
      → PcscfState E
      → Passed × PcscfState E
      → Type ℓ
  Ends k i x st r =
      (find r.1.media i ≡ (if k == i then none else find st.media i))
      × (r.1.outside ≡ release s (make_termination_plan_locked k x) st.outside)

on_bye-calls {ℓ} :
    {E : Type ℓ} (s : PcscfService E) (a : RequestArrival) (st : PcscfState E)
    (k i : MediaSessionKey) (x : MediaSessionState)
    → find_terminating_key (media_key_for a.request) st.media ≡ some k
    → find st.media k ≡ some x
    → is_terminating x.lifecycle ≡ false
    → (find (on_bye s a st).1.media i ≡ (if k == i then none else find st.media i))
      × ((on_bye s a st).1.outside ≡ release s (make_termination_plan_locked k x) st.outside)
unfolding on_bye forward_stateful_to_core
on_bye-calls s a st k i x f e q =
    let after = terminate_media_for_request s a.request st in
    let done = terminated s a.request st k x f e q in
    let ends : (find after.media i ≡ (if k == i then none else find st.media i))
        × (after.outside ≡ release s (make_termination_plan_locked k x) st.outside) =
      (ap (λ t. find t.media i) done ∙ find-ended k i st.media x, ap (λ t. t.outside) done) in
    relayed-both s (Ends s k i x st) a true false after
      (to_ue-both s (Ends s k i x st) a true a.request after (λ r. ends) (λ r. ends)) ends

release_lem {ℓ} :
    {E : Type ℓ} (s : PcscfService E) (r : RtpengineClient E) (p : PcfClient E)
    (plan : MediaTerminationPlan) (e : E)
    → s.rtpengine ≡ some r
    → s.pcf ≡ some p
    → release s plan e ≡ (
        let deleted = (r.delete_session plan.session e).1 in
        if is_empty plan.rx_session_id
        then deleted
        else (p.terminate_session
            (record { session_id = plan.rx_session_id; termination_cause = 1 })
            deleted).1)
unfolding release
release_lem s r p plan e engine policy = rw (release, engine, policy) refl

-- Where rtpengine and the PCF are configured, a BYE or a CANCEL that finds a live session deletes it at
-- rtpengine, then terminates its Rx session at the PCF if it has one, and makes no other call; the
-- session is out of the table, and the others are as they were.
pub on_bye-release {ℓ} :
    {E : Type ℓ} (s : PcscfService E) (a : RequestArrival) (st : PcscfState E)
    (k i : MediaSessionKey) (x : MediaSessionState) (r : RtpengineClient E) (p : PcfClient E)
    → s.rtpengine ≡ some r
    → s.pcf ≡ some p
    → find_terminating_key (media_key_for a.request) st.media ≡ some k
    → find st.media k ≡ some x
    → is_terminating x.lifecycle ≡ false
    → let after = (on_bye s a st).1 in
      (find after.media i ≡ (if k == i then none else find st.media i))
      × (after.outside ≡ (
          let deleted = (r.delete_session x.session st.outside).1 in
          if is_empty x.rx_session_id
          then deleted
          else (p.terminate_session
              (record { session_id = x.rx_session_id; termination_cause = 1 })
              deleted).1))
on_bye-release s a st k i x r p engine policy f e q =
    let (gone, called) = on_bye-calls s a st k i x f e q in
    (gone, called ∙ release_lem s r p (make_termination_plan_locked k x) st.outside engine policy)

not_spared :
    (answered key : MediaSessionKey) (x : MediaSessionState)
    → answered.call_id ≡ key.call_id
    → answered.from_tag ≡ key.from_tag
    → x.lifecycle ≡ early
    → is_spared none answered key x ≡ false
not_spared answered key x same_call same_from e =
    let call = ==-refl key.call_id in
    let from = ==-refl key.from_tag in rw (same_call, same_from, call, from, e) (ground arith)

given_up :
    (n : ℕ) (x : MediaSessionState)
    → n ≡ 1
    → is_terminating x.lifecycle ≡ true
    → (if ltb 0 n then live (some x) else some x) ≡ none
given_up n x one over = rw (one, live, over) refl

-- A session that is early, in the failure of the INVITE that it is for.
failed-gone {ℓ} :
    {E : Type ℓ} (s : PcscfService E) (answered key : MediaSessionKey) (st : PcscfState E)
    (x : MediaSessionState)
    → IsKeyed st.media
    → answered.call_id ≡ key.call_id
    → answered.from_tag ≡ key.from_tag
    → find st.media key ≡ some x
    → x.lifecycle ≡ early
    → find (completed s (mark_invite_final_failure answered st.media) st).media key ≡ none
unfolding mark_invite_final_failure
failed-gone s answered key st x keyed same_call same_from here is_early =
    let r = mark_invite_final_failure answered st.media in
    let count = (others-Accounts key st.media keyed none answered).count in
    let over : find r.1 key ≡ some (terminate x) =
      find-terminate_others none answered key st.media
      ∙ ap (after_others none answered key) here
      ∙ rw (not_spared answered key x same_call same_from is_early) refl in
    let before : terminating_at key st.media ≡ 0 = rw (here, is_early) refl in
    let after : terminating_at key r.1 ≡ 1 = rw over refl in
    find-complete_all s r.0 r.1 st.outside key
    ∙ ap (λ o. if ltb 0 (plans_for key r.0) then live o else o) over
    ∙ given_up (plans_for key r.0) (terminate x) (omega (arith, count, before, after)) refl

response_failed {ℓ} :
    {E : Type ℓ} (s : PcscfService E) (n : SipMessage) (st : PcscfState E)
    → is_response n && cseq_method n == codes "INVITE" ≡ true
    → leb 300 (status_code n) && leb (status_code n) 699 ≡ true
    → on_invite_response s n st ≡ (
      sanitize_for_ue_egress n,
      completed s (mark_invite_final_failure (media_key_for n) st.media) st,
    )
unfolding on_invite_response status_code from_tag_of to_tag_of
response_failed s n st response failed = rw (on_invite_response, response, failed) refl

abbrev IsEarly : MediaSessionKey → Sessions → Type 0
IsEarly key media =
    (x : MediaSessionState) × (find media key ≡ some x) × (x.lifecycle ≡ early) × IsKeyed media

written-IsEarly :
    (key : MediaSessionKey) (x : MediaSessionState) (media : Sessions)
    → x.lifecycle ≡ early
    → IsKeyed media
    → IsEarly key (insert media key x)
written-IsEarly key x media e h =
    (x, rw find-insert (rw (==-refl key) refl), e, insert-IsKeyed media key x h)

created-IsEarly :
    (now : ℕ) (key : MediaSessionKey) (media : Sessions)
    → IsKeyed media
    → IsEarly key (create_session now key media).1
unfolding create_session
created-IsEarly now key media h = written-IsEarly key _ media refl h

offered-IsEarly :
    (o : Result RtpengineResult) (key : MediaSessionKey) (sdp : Text) (m : SipMessage)
    (media : Sessions)
    → IsEarly key media
    → IsEarly key (offered o key sdp m media).1
unfolding update_caller_sdp
offered-IsEarly (err x) key sdp m media h = h
offered-IsEarly (ok r) key sdp m media (x, here, is_early, keyed) =
    let new : MediaSessionState = record x { caller_sdp = sdp } in
    let updated : update_caller_sdp key sdp media ≡ insert media key new =
      rw (update_caller_sdp, update, here) refl in
    subst (IsEarly key) (sym updated) (written-IsEarly key new media is_early keyed)

offer-IsEarly {ℓ} :
    {E : Type ℓ} (s : PcscfService E) (o : Option (RtpengineClient E)) (sdp : Option Text)
    (a : RequestArrival) (st : PcscfState E)
    → IsKeyed st.media
    → IsEarly (media_key_for a.request) (offer_media s o sdp a st).1.media
offer-IsEarly s none sdp a st h = created-IsEarly a.now _ st.media h
offer-IsEarly s (some r) none a st h = created-IsEarly a.now _ st.media h
offer-IsEarly s (some r) (some sdp) a st h =
    offered-IsEarly _ (media_key_for a.request) sdp a.request _ (created-IsEarly a.now _ st.media h)

invited {ℓ} :
    {E : Type ℓ} (s : PcscfService E) (a : RequestArrival) (st : PcscfState E)
    → IsKeyed st.media
    → is_core_facing_request s a.source ≡ false
    → IsEarly (media_key_for a.request) (on_invite s a st).1.media
unfolding on_invite forward_stateful_to_core
invited s a st h ue = rw (on_invite, ue) (offer-IsEarly s s.rtpengine a.request.body a st h)

-- An INVITE from a UE and a failure response to it, with its Call-ID and From tag and any To tag: the
-- response leaves no session at the INVITE's key, also where an established one was there before.
pub on_invite-refused {ℓ} :
    {E : Type ℓ} (s : PcscfService E) (a : RequestArrival) (st : PcscfState E) (n : SipMessage)
    → IsKeyed st.media
    → is_core_facing_request s a.source ≡ false
    → is_response n && cseq_method n == codes "INVITE" ≡ true
    → leb 300 (status_code n) && leb (status_code n) 699 ≡ true
    → (media_key_for n).call_id ≡ (media_key_for a.request).call_id
    → (media_key_for n).from_tag ≡ (media_key_for a.request).from_tag
    → find (on_invite_response s n (on_invite s a st).1).1.media (media_key_for a.request) ≡ none
on_invite-refused s a st n h ue response failed same_call same_from =
    let key = media_key_for a.request in
    let st1 = (on_invite s a st).1 in
    let (x, here, is_early, keyed) = invited s a st h ue in
    ap (λ r. find r.1.media key) (response_failed s n st1 response failed)
    ∙ failed-gone s (media_key_for n) key st1 x keyed same_call same_from here is_early
