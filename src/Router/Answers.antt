-- ===== src/Router/Answers.antt =====
-- handleInviteResponseState against the specification of a call.
use sim_ims.Prelude.{ℕ, ◌≡◌, ◌∙◌, true, false, not, Option-cases, inl, inr, arith, is_empty}
use sim_ims.Prelude.Text.{Text, text_instance}
use sim_ims.Prelude.Table.{find, IsKeyed, find-filter, filter-IsKeyed}
use sim_ims.Router.{
  SessionMap, dialog_key_eq, dialog_key, has_expired, record_invite_response_dialog,
  purge_expired_sessions, response_state, handle_invite_response_state,
}
use sim_ims.Router.Calls.{
  Call, call_of, answered, established_dialog, record-phase, record-pending, ended-pending,
  ended-dialog, rejected-pending, rejected-dialog,
}

-- The same call, at the tags that a callee may have.
abbrev pub AreSame : Call → Call → Type 0
AreSame c d = (c.pending ≡ d.pending) × ((t : Text) → is_empty t ≡ false → c.dialog t ≡ d.dialog t)

purge-IsKeyed : (now : ℕ) (s : SessionMap) → IsKeyed s → IsKeyed (purge_expired_sessions now s)
unfolding purge_expired_sessions
purge-IsKeyed now s keyed = filter-IsKeyed (λ x. not (has_expired now x)) s keyed

purge-established :
    (call_id caller_tag t : Text) (now : ℕ) (s : SessionMap)
    → IsKeyed s
    → (call_of call_id caller_tag s).dialog t ≡ established_dialog
    → (call_of call_id caller_tag (purge_expired_sessions now s)).dialog t ≡ established_dialog
unfolding purge_expired_sessions
purge-established call_id caller_tag t now s keyed here =
    let at = dialog_key call_id caller_tag t in
    let found = find-filter (λ x. not (has_expired now x)) s at keyed in
    elim (Option-cases (find s at)) [
      | inl e ↦ ground (arith, found, e, here)
      | inr (i, e) ↦ ground (arith, found, e, here)
    ]

module _ (call_id caller_tag : Text) (status : ℕ) (tag : Text) (now : ℕ) where
  response_state-pending :
      (s : SessionMap)
      → IsKeyed s
      → (call_of call_id caller_tag (response_state call_id caller_tag status tag now s)).pending
        ≡ (answered status tag (call_of call_id caller_tag s)).pending
  response_state-pending s keyed =
      let made = record_invite_response_dialog call_id caller_tag tag true now s in
      ground (
        arith,
        record-pending call_id caller_tag tag false now s,
        ended-pending call_id caller_tag made,
        ended-pending call_id caller_tag s,
        rejected-pending call_id caller_tag s keyed,
      )

  response_state-dialog :
      (s : SessionMap) (t : Text)
      → IsKeyed s
      → is_empty t ≡ false
      → (call_of call_id caller_tag (response_state call_id caller_tag status tag now s)).dialog t
        ≡ (answered status tag (call_of call_id caller_tag s)).dialog t
  response_state-dialog s t keyed named =
      let made = record_invite_response_dialog call_id caller_tag tag true now s in
      ground (
        arith,
        record-phase call_id caller_tag tag t false now s,
        record-phase call_id caller_tag tag t true now s,
        ended-dialog call_id caller_tag t made named,
        ended-dialog call_id caller_tag t s named,
        rejected-dialog call_id caller_tag t s keyed named,
      )

  -- The table refines the specification: for every response to an INVITE, the call of the INVITE
  -- afterwards, its pending flag and every dialog with a tag, is what the specification makes of the
  -- call that the purge of expired entries leaves, where the table has no key twice.
  pub handle_invite_response_state-answered :
      (s : SessionMap)
      → IsKeyed s
      → AreSame
          (call_of call_id caller_tag
            (handle_invite_response_state call_id caller_tag status tag now s))
          (answered status tag (call_of call_id caller_tag (purge_expired_sessions now s)))
  unfolding handle_invite_response_state
  handle_invite_response_state-answered s keyed =
      let kept = purge-IsKeyed now s keyed in
      let purged = purge_expired_sessions now s in
      (response_state-pending purged kept, λ t named. response_state-dialog purged t kept named)

  answered-established :
      (c : Call) (t : Text)
      → c.dialog t ≡ established_dialog
      → (answered status tag c).dialog t ≡ established_dialog
  answered-established c t here = ground (arith, here)

  -- No response to an INVITE, of any status and at any time, ends an established dialog of the call.
  pub handle_invite_response_state-established :
      (s : SessionMap) (t : Text)
      → IsKeyed s
      → is_empty t ≡ false
      → (call_of call_id caller_tag s).dialog t ≡ established_dialog
      → (call_of call_id caller_tag
            (handle_invite_response_state call_id caller_tag status tag now s)).dialog
          t
        ≡ established_dialog
  handle_invite_response_state-established s t keyed named here =
      let purged = purge_expired_sessions now s in
      (handle_invite_response_state-answered s keyed).1 t named
      ∙ answered-established (call_of call_id caller_tag purged) t
          (purge-established call_id caller_tag t now s keyed here)
