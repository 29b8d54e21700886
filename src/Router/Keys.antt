-- ===== src/Router/Keys.antt =====
-- What stays true of the router's table: a key once, and entries that carry their key's names; the
-- entry of an INVITE is not established.
use sim_ims.Prelude.{
  ℕ, ◌≡◌, refl, Bool, true, false, not, ◌&&◌, some, arith, leb, ltb, eqb, is_empty, filter,
  if◌then◌else◌, ==-iff, Option-cases, Bool-cases, inl, inr,
}
use sim_ims.Prelude.Text.{Text, text_instance}
use sim_ims.Prelude.Table.{
  find, insert, erase, find-insert, find-erase, find-filter, IsKeyed, insert-IsKeyed, erase-IsKeyed,
  filter-IsKeyed,
}
use sim_ims.Router.{
  DialogKey, SessionInfo, SessionMap, dialog_key_eq, invite_key, dialog_key, updated, copied,
  has_expired, is_of_invite, record_invite_response_dialog, erase_invite_sessions,
  purge_expired_sessions, erase_canceled_sessions, response_state, handle_invite_response_state,
}

abbrev pub IsEntry : DialogKey → SessionInfo → Type 0
IsEntry key i =
    (i.call_id ≡ key.call_id)
    × (i.caller_tag ≡ key.caller_tag)
    × (i.callee_tag ≡ key.callee_tag)
    × (is_empty key.callee_tag ≡ true → i.established ≡ false)

abbrev pub IsConsistent : SessionMap → Type 0
IsConsistent s =
    IsKeyed s × ((key : DialogKey) (i : SessionInfo) → find s key ≡ some i → IsEntry key i)

pub insert-IsConsistent :
    (s : SessionMap) (key : DialogKey) (i : SessionInfo)
    → IsEntry key i
    → IsConsistent s
    → IsConsistent (insert s key i)
insert-IsConsistent s key i entry (keyed, matches) = (
  insert-IsKeyed s key i keyed,
  λ k j found. ground (arith, entry, found, find-insert s key k i, ==-iff key k, matches k j),
)

pub erase-IsConsistent :
    (s : SessionMap) (key : DialogKey) → IsConsistent s → IsConsistent (erase s key)
erase-IsConsistent s key (keyed, matches) = (
  erase-IsKeyed s key keyed,
  λ k j found. matches k j (ground (arith, found, find-erase s key k)),
)

filter-IsConsistent :
    (p : DialogKey × SessionInfo → Bool) (s : SessionMap)
    → IsConsistent s
    → IsConsistent (filter p s)
filter-IsConsistent p s (keyed, matches) = (
  filter-IsKeyed p s keyed,
  λ k j found. matches k j (ground (arith, found, find-filter p s k keyed)),
)

pub purge-IsConsistent :
    (now : ℕ) (s : SessionMap) → IsConsistent s → IsConsistent (purge_expired_sessions now s)
unfolding purge_expired_sessions
purge-IsConsistent now s h = filter-IsConsistent (λ x. not (has_expired now x)) s h

erase_invite-IsConsistent :
    (call_id caller_tag : Text) (s : SessionMap)
    → IsConsistent s
    → IsConsistent (erase_invite_sessions call_id caller_tag s)
unfolding erase_invite_sessions
erase_invite-IsConsistent call_id caller_tag s h =
    filter-IsConsistent (λ x. not (is_of_invite call_id caller_tag x)) s h

pub erase_canceled-IsConsistent :
    (key : DialogKey) (s : SessionMap)
    → IsConsistent s
    → IsConsistent (erase_canceled_sessions key s)
unfolding erase_canceled_sessions
erase_canceled-IsConsistent key s h =
    let one =
      erase-IsConsistent s
        (invite_key key.call_id
          (if is_empty key.caller_tag then key.callee_tag else key.caller_tag))
        h in
    elim (Bool-cases (is_empty key.callee_tag)) [
      | inl e ↦ rw e one
      | inr e ↦ rw e (erase-IsConsistent _ key one)
    ]

record-IsConsistent :
    (call_id caller_tag tag : Text) (established : Bool) (now : ℕ) (s : SessionMap)
    → is_empty tag ≡ false
    → IsConsistent s
    → IsConsistent (record_invite_response_dialog call_id caller_tag tag established now s)
unfolding record_invite_response_dialog
record-IsConsistent call_id caller_tag tag established now s named h =
    let key = dialog_key call_id caller_tag tag in
    let initial = invite_key call_id caller_tag in
    elim (Option-cases (find s key)) [
      | inr (i, e) ↦
          rw (record_invite_response_dialog, e)
            (insert-IsConsistent s key (updated established now i)
              (ground (arith, named, h.1 key i e)) h)
      | inl e ↦ elim (Option-cases (find s initial)) [
        | inl f ↦ rw (record_invite_response_dialog, e, f) h
        | inr (i, f) ↦
            rw (record_invite_response_dialog, e, f)
              (insert-IsConsistent s key (copied tag established now i)
                (ground (arith, named, h.1 initial i f)) h)
      ]
    ]

either-IsConsistent :
    (b : Bool) (s t : SessionMap)
    → (b ≡ true → IsConsistent s)
    → (b ≡ false → IsConsistent t)
    → IsConsistent (if b then s else t)
either-IsConsistent true s t h k = h refl
either-IsConsistent false s t h k = k refl

response-IsConsistent :
    (call_id caller_tag : Text) (status : ℕ) (tag : Text) (now : ℕ) (s : SessionMap)
    → IsConsistent s
    → IsConsistent (response_state call_id caller_tag status tag now s)
response-IsConsistent call_id caller_tag status tag now s h =
    let provisional = record_invite_response_dialog call_id caller_tag tag false now s in
    let made = record_invite_response_dialog call_id caller_tag tag true now s in
    let named = if is_empty tag then s else made in
    let initial = invite_key call_id caller_tag in
    let rejected = erase_invite_sessions call_id caller_tag s in
    let is_early = ltb 100 status && ltb status 200 && not (is_empty tag) in
    let is_final = leb 200 status && ltb status 300 in
    let is_failure = leb 300 status && leb status 699 in
    let on_failure = if is_failure then rejected else s in
    let on_final = if is_final then erase named initial else on_failure in
    let on_early = if is_early then provisional else on_final in
    either-IsConsistent (eqb status 100) s on_early (λ _. h)
      (λ _.
        either-IsConsistent is_early provisional on_final
          (λ e. record-IsConsistent call_id caller_tag tag false now s (ground (arith, e)) h)
          (λ _.
            either-IsConsistent is_final (erase named initial) on_failure
              (λ _. erase-IsConsistent named initial (
                either-IsConsistent (is_empty tag) s made (λ _. h)
                  (λ e. record-IsConsistent call_id caller_tag tag true now s e h)))
              (λ _.
                either-IsConsistent is_failure rejected s
                  (λ _. erase_invite-IsConsistent call_id caller_tag s h) (λ _. h))))

pub handle_invite_response_state-IsConsistent :
    (call_id caller_tag : Text) (status : ℕ) (tag : Text) (now : ℕ) (s : SessionMap)
    → IsConsistent s
    → IsConsistent (handle_invite_response_state call_id caller_tag status tag now s)
unfolding handle_invite_response_state
handle_invite_response_state-IsConsistent call_id caller_tag status tag now s h =
    response-IsConsistent call_id caller_tag status tag now (purge_expired_sessions now s)
      (purge-IsConsistent now s h)
