-- ===== src/Store/Memory.antt =====
-- sip/memory_store.cpp: MemoryRegistrationStore. The state is the table of bindings; each call holds
-- the mutex throughout, and reads the clock as `now`.
pub mod Expiry
pub mod Contacts
pub mod Batch
pub mod Found
pub mod Invariant
pub mod Examples
use sim_ims.Prelude.{
  ℕ, suc, zero, ◌+◌, ◌-◌, Bool, true, false, not, ◌&&◌, ◌||◌, Option, none, some, List, [], ◌∷◌,
  ◌++◌, ltb, leb, eqb, is_empty, erase_if, find_if, any, length, if◌then◌else◌, ◌==◌,
}
use sim_ims.Prelude.Text.{Text, codes, text_instance}
use sim_ims.Prelude.Table.{Table, find, insert, erase}
use sim_ims.Common.{Result, ok, err, VoidResult, k_registration_not_found}
use sim_ims.Uri.{extract_uri_from_name_addr}
use sim_ims.Store.{
  ContactBinding, RegistrationBinding, State, registered, ContactBindingSelector,
  ContactBatchUpsert, ContactBatchRemove, uses_instance_and_reg_id,
}

abbrev pub Bindings : Type 0
Bindings = Table Text RegistrationBinding

unfoldable pub normalize_contact_uri : Text → Text
unfolding extract_uri_from_name_addr
normalize_contact_uri uri = extract_uri_from_name_addr uri

unfoldable pub matches_selector : ContactBindingSelector → ContactBinding → Bool
unfolding uses_instance_and_reg_id normalize_contact_uri
matches_selector sel c =
    if uses_instance_and_reg_id sel
    then c.instance_id == sel.instance_id && c.reg_id == sel.reg_id
    else normalize_contact_uri c.contact_uri == sel.normalized_contact_uri

abbrev pub is_expired : ℕ → ContactBinding → Bool
is_expired now c = leb c.expires now

-- The binding without its expired contacts; an empty one is erased.
abbrev pub put_or_erase : Bindings → Text → RegistrationBinding → Bindings
put_or_erase s impu b = if is_empty b.contacts then erase s impu else insert s impu b

unfoldable pub pruned : ℕ → Text → Bindings → Bindings
pruned now impu s = elim (find s impu) [
  | none ↦ s
  | some b ↦ put_or_erase s impu (record b { contacts = erase_if (is_expired now) b.contacts })
]

abbrev first_binding : Bindings → Option RegistrationBinding
first_binding [] = none
first_binding ((j, b) ∷ s) = some b

-- The entry after that of a key, in the order of iteration.
unfoldable pub next_after : Text → Bindings → Option RegistrationBinding
next_after impu [] = none
next_after impu ((j, b) ∷ s) =
    let rest = next_after impu s in if j == impu then first_binding s else rest

-- What bindings_.erase(it) returns for an IMPU without a live contact, and else the IMPU's own.
abbrev pub own_or_next : Text → Bindings → Bindings → Option RegistrationBinding
own_or_next impu s after = elim (find s impu) [
  | none ↦ none
  | some b ↦ elim (find after impu) [ some kept ↦ some kept | none ↦ next_after impu s ]
]

-- The iterator that is returned, as the binding that it points to, and the table.
unfoldable pub prune_expired_locked : ℕ → Text → Bindings → Option RegistrationBinding × Bindings
unfolding pruned next_after
prune_expired_locked now impu s = let after = pruned now impu s in (own_or_next impu s after, after)

unfoldable pub store : RegistrationBinding → Bindings → VoidResult × Bindings
store b s = (ok tt, insert s b.impu b)

abbrev pub or_not_found : Text → Option RegistrationBinding → Result RegistrationBinding
or_not_found impu none = err (record {
  code = k_registration_not_found;
  message = codes "Registration not found for IMPU: " ++ impu;
  detail = [];
})
or_not_found impu (some b) = ok b

unfoldable pub lookup : ℕ → Text → Bindings → Result RegistrationBinding × Bindings
unfolding prune_expired_locked
lookup now impu s = let r = prune_expired_locked now impu s in (or_not_found impu r.0, r.1)

-- The write of one contact into an IMPU binding: identities, flags, and the contact with its selector.
pub record Upsert : Type 0 where
  pub selector : ContactBindingSelector
  pub contact : ContactBinding
  pub impi : Text
  pub scscf_uri : Text
  pub state : State
  pub require_existing_match : Bool
  pub reject_older_cseq : Bool

abbrev pub fresh_binding : Text → Upsert → RegistrationBinding
fresh_binding impu u = record {
  impu = impu;
  impi = u.impi;
  scscf_uri = u.scscf_uri;
  contacts = [];
  state = u.state;
}

-- The header fields, which are written before the contact is looked for.
abbrev pub touch : Upsert → RegistrationBinding → RegistrationBinding
touch u b = record b {
  impi = if is_empty u.impi then b.impi else u.impi;
  scscf_uri = if is_empty u.scscf_uri then b.scscf_uri else u.scscf_uri;
  state = u.state;
}

-- *existing = contact
unfoldable pub replace_first :
    (ContactBinding → Bool) → ContactBinding → List ContactBinding → List ContactBinding
replace_first p new [] = []
replace_first p new (c ∷ cs) =
    let rest = c ∷ replace_first p new cs in if p c then new ∷ cs else rest

abbrev pub is_stale : Upsert → ContactBinding → Bool
is_stale u old =
    u.reject_older_cseq && old.call_id == u.contact.call_id && ltb u.contact.cseq old.cseq

unfoldable pub upsert_into : Upsert → RegistrationBinding → RegistrationBinding × Bool
unfolding replace_first
upsert_into u b =
    let touched = touch u b in
    elim (find_if (matches_selector u.selector) b.contacts) [
      | none ↦
          if u.require_existing_match
          then (touched, false)
          else (record touched { contacts = b.contacts ++ u.contact ∷ [] }, true)
      | some old ↦ if is_stale u old then (touched, true) else (
        record touched {
          contacts = replace_first (matches_selector u.selector) u.contact b.contacts;
        },
        true,
      )
    ]

unfoldable pub upsert_contact_locked : Text → Upsert → Bindings → Bool × Bindings
unfolding upsert_into
upsert_contact_locked impu u s = elim (find s impu) [
  | none ↦
      if u.require_existing_match
      then (false, s)
      else (let r = upsert_into u (fresh_binding impu u) in (r.1, insert s impu r.0))
  | some b ↦ let r = upsert_into u b in (r.1, insert s impu r.0)
]

pub record Removal : Type 0 where
  pub selector : ContactBindingSelector
  pub call_id : Text
  pub cseq : ℕ
  pub reject_older_cseq : Bool

abbrev pub is_removed : Removal → ContactBinding → Bool
is_removed r c =
    matches_selector r.selector c
    && not (r.reject_older_cseq && c.call_id == r.call_id && ltb r.cseq c.cseq)

unfoldable pub remove_contact_locked : Text → Removal → Bindings → Bool × Bindings
remove_contact_locked impu r s = elim (find s impu) [
  | none ↦ (false, s)
  | some b ↦
      let kept = erase_if (is_removed r) b.contacts in
      if eqb (length b.contacts) (length kept)
      then (false, s)
      else (true, put_or_erase s impu (record b { contacts = kept; state = registered }))
]

unfoldable pub upsert_contact : ℕ → Text → Upsert → Bindings → Result Bool × Bindings
unfolding pruned upsert_contact_locked
upsert_contact now impu u s =
    let r = upsert_contact_locked impu u (pruned now impu s) in (ok r.0, r.1)

abbrev pub any_cseq_removal : ContactBindingSelector → Removal
any_cseq_removal sel = record { selector = sel; call_id = []; cseq = 0; reject_older_cseq = false }

unfoldable pub remove_contact :
    ℕ → Text → ContactBindingSelector → Bindings → Result Bool × Bindings
unfolding pruned remove_contact_locked
remove_contact now impu sel s =
    let r = remove_contact_locked impu (any_cseq_removal sel) (pruned now impu s) in (ok r.0, r.1)

unfoldable pub prune_all : ℕ → List Text → Bindings → Bindings
unfolding pruned
prune_all now [] s = s
prune_all now (impu ∷ impus) s = prune_all now impus (pruned now impu s)

abbrev pub batch_upsert : ContactBatchUpsert → Upsert
batch_upsert batch = record {
  selector = batch.selector;
  contact = batch.contact;
  impi = batch.impi;
  scscf_uri = batch.scscf_uri;
  state = batch.state;
  require_existing_match = batch.require_existing_match;
  reject_older_cseq = batch.reject_older_cseq;
}

-- The IMPU is bound, with a contact that the selector matches.
abbrev pub has_match : ContactBindingSelector → Bindings → Text → Bool
has_match sel s impu = elim (find s impu) [
  | none ↦ false
  | some b ↦ elim (find_if (matches_selector sel) b.contacts) [ none ↦ false | some c ↦ true ]
]

unfoldable pub all_match : ContactBindingSelector → Bindings → List Text → Bool
all_match sel s [] = true
all_match sel s (impu ∷ impus) = has_match sel s impu && all_match sel s impus

unfoldable pub upsert_each : Upsert → List Text → ℕ → Bindings → ℕ × Bindings
unfolding upsert_contact_locked
upsert_each u [] changed s = (changed, s)
upsert_each u (impu ∷ impus) changed s =
    let r = upsert_contact_locked impu u s in
    let rest = upsert_each u impus (changed + 1) r.1 in if r.0 then rest else (0, r.1)

unfoldable pub upsert_contacts : ℕ → ContactBatchUpsert → Bindings → Result ℕ × Bindings
unfolding prune_all all_match upsert_each
upsert_contacts now batch s =
    let pruned = prune_all now batch.impus s in
    let r = upsert_each (batch_upsert batch) batch.impus 0 pruned in
    if batch.require_existing_match && not (all_match batch.selector pruned batch.impus)
    then (ok 0, pruned)
    else (ok r.0, r.1)

abbrev pub batch_removal : ContactBatchRemove → Removal
batch_removal batch = record {
  selector = batch.selector;
  call_id = batch.call_id;
  cseq = batch.cseq;
  reject_older_cseq = batch.reject_older_cseq;
}

unfoldable pub remove_each : Removal → List Text → ℕ → Bindings → ℕ × Bindings
unfolding remove_contact_locked
remove_each r [] removed s = (removed, s)
remove_each r (impu ∷ impus) removed s =
    let step = remove_contact_locked impu r s in
    remove_each r impus (if step.0 then removed + 1 else removed) step.1

unfoldable pub remove_contacts : ℕ → ContactBatchRemove → Bindings → Result ℕ × Bindings
unfolding prune_all remove_each
remove_contacts now batch s =
    let r = remove_each (batch_removal batch) batch.impus 0 (prune_all now batch.impus s) in
    (ok r.0, r.1)

unfoldable pub erase_each : List Text → ℕ → Bindings → ℕ × Bindings
erase_each [] removed s = (removed, s)
erase_each (impu ∷ impus) removed s =
    erase_each impus (elim (find s impu) [ none ↦ removed | some b ↦ removed + 1 ]) (erase s impu)

unfoldable pub remove_bindings : List Text → Bindings → Result ℕ × Bindings
unfolding erase_each
remove_bindings impus s = let r = erase_each impus 0 s in (ok r.0, r.1)

unfoldable pub remove : Text → Bindings → VoidResult × Bindings
remove impu s = (ok tt, elim (find s impu) [ none ↦ s | some b ↦ erase s impu ])

unfoldable pub purge_loop : ℕ → Bindings → ℕ × Bindings
purge_loop now [] = (0, [])
purge_loop now ((impu, b) ∷ s) =
    let kept = erase_if (is_expired now) b.contacts in
    let gone = length b.contacts - length kept in
    let rest = purge_loop now s in
    (gone + rest.0, if is_empty kept then rest.1 else (impu, record b { contacts = kept }) ∷ rest.1)

unfoldable pub purge_expired : ℕ → Bindings → Result ℕ × Bindings
unfolding purge_loop
purge_expired now s = let r = purge_loop now s in (ok r.0, r.1)

abbrev is_registered_state : State → Bool
is_registered_state registered = true
is_registered_state _ = false

abbrev registered_with_contacts : Option RegistrationBinding → Bool
registered_with_contacts none = false
registered_with_contacts (some b) = is_registered_state b.state && not (is_empty b.contacts)

unfoldable pub is_registered : ℕ → Text → Bindings → Result Bool × Bindings
unfolding prune_expired_locked
is_registered now impu s =
    let r = prune_expired_locked now impu s in (ok (registered_with_contacts r.0), r.1)

-- The calls of the interface, and the table after each.
pub data Call : Type 0 where
  stores : RegistrationBinding → Call
  looks_up asks_registered removes : Text → Call
  upserts : Text → Upsert → Call
  removes_contact : Text → ContactBindingSelector → Call
  upserts_batch : ContactBatchUpsert → Call
  removes_batch : ContactBatchRemove → Call
  removes_bindings : List Text → Call
  purges : Call

unfoldable pub step : ℕ → Call → Bindings → Bindings
unfolding store lookup upsert_contact remove_contact upsert_contacts remove_contacts remove_bindings
    remove purge_expired is_registered
step now (stores b) s = (store b s).1
step now (looks_up i) s = (lookup now i s).1
step now (asks_registered i) s = (is_registered now i s).1
step now (removes i) s = (remove i s).1
step now (upserts i u) s = (upsert_contact now i u s).1
step now (removes_contact i sel) s = (remove_contact now i sel s).1
step now (upserts_batch batch) s = (upsert_contacts now batch s).1
step now (removes_batch batch) s = (remove_contacts now batch s).1
step now (removes_bindings is) s = (remove_bindings is s).1
step now purges s = (purge_expired now s).1

unfoldable pub run : List (ℕ × Call) → Bindings → Bindings
run [] s = s
run ((now, c) ∷ cs) s = run cs (step now c s)
