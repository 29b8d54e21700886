-- ===== src/Router/Calls.antt =====
-- The dialogs of a call, as the responses to its INVITE make and end them: an abstract view of the
-- table, and a specification of the responses on it.
use sim_ims.Prelude.{
  ℕ, ◌≡◌, Bool, true, false, not, ◌&&◌, Option, none, some, [], ◌∷◌, arith, leb, ltb, is_empty,
  is_some, if◌then◌else◌, ◌==◌, ==-iff, ==-refl, Option-cases, inl, inr,
}
use sim_ims.Prelude.Text.{Text, text_instance}
use sim_ims.Prelude.Table.{find, erase, find-insert, find-erase, find-filter, IsKeyed}
use sim_ims.Router.{
  SessionInfo, SessionMap, dialog_key_eq, invite_key, dialog_key, record_invite_response_dialog,
  updated, copied, is_of_invite, erase_invite_sessions,
}

-- A dialog of a call.
pub data Phase : Type 0 where
  absent early established_dialog : Phase

abbrev pub phase_of : Option SessionInfo → Phase
phase_of none = absent
phase_of (some i) = if i.established then established_dialog else early

-- A call: whether its INVITE still waits for a final answer, and its dialogs by the callee's tag.
pub record Call : Type 0 where
  pub pending : Bool
  pub dialog : Text → Phase

abbrev pub call_of : Text → Text → SessionMap → Call
call_of call_id caller_tag s = record {
  pending = is_some (find s (invite_key call_id caller_tag));
  dialog = λ tag. phase_of (find s (dialog_key call_id caller_tag tag));
}

-- A provisional answer makes a dialog of a call that is pending.
abbrev pub progresses : Bool → Phase → Phase
progresses true absent = early
progresses _ phase = phase

-- A 2xx answer makes or establishes it.
abbrev pub establishes : Bool → Phase → Phase
establishes false absent = absent
establishes _ phase = established_dialog

-- A rejection ends the dialogs that are not established.
abbrev pub rejects : Phase → Phase
rejects established_dialog = established_dialog
rejects _ = absent

-- What an answer with a status and a tag means for a call.
abbrev pub answered : ℕ → Text → Call → Call
answered status tag c =
    let at_tag : (Phase → Phase) → Text → Phase =
      λ f t. if tag == t then f (c.dialog t) else c.dialog t in
    if ltb 100 status && ltb status 200 && not (is_empty tag)
    then record c { dialog = at_tag (progresses c.pending) }
    else if leb 200 status && ltb status 300
    then record {
      pending = false;
      dialog = if is_empty tag then c.dialog else at_tag (establishes c.pending);
    }
    else if leb 300 status && leb status 699
    then record { pending = false; dialog = λ t. rejects (c.dialog t) }
    else c

pub key_test :
    (call_id caller_tag t u : Text)
    → (dialog_key call_id caller_tag t == dialog_key call_id caller_tag u) ≡ (t == u)
key_test call_id caller_tag t u = ground (arith, ==-refl call_id, ==-refl caller_tag)

-- What a recorded answer does to the phase of a dialog.
abbrev pub records : Bool → Bool → Phase → Phase
records established pending phase =
    if established then establishes pending phase else progresses pending phase

pub record-phase :
    (call_id caller_tag tag t : Text) (established : Bool) (now : ℕ) (s : SessionMap)
    → let c = call_of call_id caller_tag s in
      (call_of call_id caller_tag
          (record_invite_response_dialog call_id caller_tag tag established now s)).dialog
        t
      ≡ (if tag == t then records established c.pending (c.dialog t) else c.dialog t)
unfolding record_invite_response_dialog
record-phase call_id caller_tag tag t established now s =
    let key = dialog_key call_id caller_tag tag in
    let at = dialog_key call_id caller_tag t in
    let test = key_test call_id caller_tag tag t in
    let tags = ==-iff tag t in
    elim (Option-cases (find s key)) [
      | inr (i, e) ↦ ground (arith, e, test, tags, find-insert s key at (updated established now i))
      | inl e ↦ elim (Option-cases (find s (invite_key call_id caller_tag))) [
        | inl f ↦ ground (arith, e, f, tags)
        | inr (i, f) ↦
            ground (arith, e, f, test, tags, find-insert s key at (copied tag established now i))
      ]
    ]

initial_test :
    (call_id caller_tag tag : Text)
    → is_empty tag ≡ false
    → (dialog_key call_id caller_tag tag == invite_key call_id caller_tag) ≡ false
initial_test call_id caller_tag [] h = absurd (ground (arith, h))
initial_test call_id caller_tag (b ∷ tag) h = ground (arith, ==-refl call_id, ==-refl caller_tag)

pub initial_other :
    (call_id caller_tag tag : Text)
    → is_empty tag ≡ false
    → (invite_key call_id caller_tag == dialog_key call_id caller_tag tag) ≡ false
initial_other call_id caller_tag [] h = absurd (ground (arith, h))
initial_other call_id caller_tag (b ∷ tag) h = ground (arith, ==-refl call_id, ==-refl caller_tag)

pub record-pending :
    (call_id caller_tag tag : Text) (established : Bool) (now : ℕ) (s : SessionMap)
    → is_empty tag ≡ false
    → (call_of call_id caller_tag
        (record_invite_response_dialog call_id caller_tag tag established now s)).pending
      ≡ (call_of call_id caller_tag s).pending
unfolding record_invite_response_dialog
record-pending call_id caller_tag tag established now s named =
    let key = dialog_key call_id caller_tag tag in
    let at = invite_key call_id caller_tag in
    let test = initial_test call_id caller_tag tag named in
    elim (Option-cases (find s key)) [
      | inr (i, e) ↦ ground (arith, e, test, find-insert s key at (updated established now i))
      | inl e ↦ elim (Option-cases (find s at)) [
        | inl f ↦ ground (arith, e, f)
        | inr (i, f) ↦
            ground (arith, e, f, test, find-insert s key at (copied tag established now i))
      ]
    ]

-- The entry of the INVITE goes.
pub ended-pending :
    (call_id caller_tag : Text) (s : SessionMap)
    → (call_of call_id caller_tag (erase s (invite_key call_id caller_tag))).pending ≡ false
ended-pending call_id caller_tag s =
    let at = invite_key call_id caller_tag in
    ground (arith, find-erase s at at, ==-refl call_id, ==-refl caller_tag)

pub ended-dialog :
    (call_id caller_tag t : Text) (s : SessionMap)
    → is_empty t ≡ false
    → (call_of call_id caller_tag (erase s (invite_key call_id caller_tag))).dialog t
      ≡ (call_of call_id caller_tag s).dialog t
ended-dialog call_id caller_tag t s named = ground (
  arith,
  find-erase s (invite_key call_id caller_tag) (dialog_key call_id caller_tag t),
  initial_other call_id caller_tag t named,
)

pub rejected-pending :
    (call_id caller_tag : Text) (s : SessionMap)
    → IsKeyed s
    → (call_of call_id caller_tag (erase_invite_sessions call_id caller_tag s)).pending ≡ false
unfolding erase_invite_sessions
rejected-pending call_id caller_tag s keyed =
    let at = invite_key call_id caller_tag in
    let found = find-filter (λ x. not (is_of_invite call_id caller_tag x)) s at keyed in
    elim (Option-cases (find s at)) [
      | inl e ↦ ground (arith, found, e)
      | inr (i, e) ↦ ground (arith, found, e, ==-refl call_id, ==-refl caller_tag)
    ]

pub rejected-dialog :
    (call_id caller_tag t : Text) (s : SessionMap)
    → IsKeyed s
    → is_empty t ≡ false
    → (call_of call_id caller_tag (erase_invite_sessions call_id caller_tag s)).dialog t
      ≡ rejects ((call_of call_id caller_tag s).dialog t)
unfolding erase_invite_sessions
rejected-dialog call_id caller_tag t s keyed named =
    let at = dialog_key call_id caller_tag t in
    let found = find-filter (λ x. not (is_of_invite call_id caller_tag x)) s at keyed in
    elim (Option-cases (find s at)) [
      | inl e ↦ ground (arith, found, e)
      | inr (i, e) ↦ ground (arith, found, e, named, ==-refl call_id, ==-refl caller_tag)
    ]
