-- ===== src/Store/Memory/Contacts.antt =====
-- What the writes of one contact do to an IMPU's contacts.
use sim_ims.Prelude.{
  ℕ, suc, ◌+◌, ◌<◌, ◌≡◌, ◌≢◌, refl, inl, inr, Bool, true, false, not, ◌||◌, Option, none, some,
  List, [], ◌∷◌, ◌++◌, arith, eqb, erase_if, any, find_if, length, if◌then◌else◌, ◌==◌, ==-refl,
  Bool-cases, Option-cases, is_some,
}
use sim_ims.Prelude.Text.{Text, text_instance, text_eq_iff}
use sim_ims.Prelude.Table.{find, insert, find-insert}
use sim_ims.Store.{ContactBinding, RegistrationBinding, registered}
use sim_ims.Store.Memory.{
  Bindings, Upsert, Removal, matches_selector, fresh_binding, is_stale, is_removed, replace_first,
  upsert_into, upsert_contact_locked, remove_contact_locked,
}
use sim_ims.Store.Memory.Expiry.{find-put_or_erase}

abbrev pub contacts_of : Option RegistrationBinding → List ContactBinding
contacts_of none = []
contacts_of (some b) = b.contacts

module _ (p : ContactBinding → Bool) where
  -- The number of contacts that pass a test.
  abbrev pub count : List ContactBinding → ℕ
  count [] = 0
  count (c ∷ cs) = if p c then suc (count cs) else count cs

  length-erase_if : (cs : List ContactBinding) → length (erase_if p cs) + count cs ≡ length cs
  length-erase_if [] = refl
  length-erase_if (c ∷ cs) = ground (arith, length-erase_if cs)

  count_none : (cs : List ContactBinding) → any p cs ≡ false → count cs ≡ 0
  count_none [] h = refl
  count_none (c ∷ cs) h = ground (arith, count_none cs)

  count_some : (cs : List ContactBinding) → any p cs ≡ true → 0 < count cs
  count_some [] h = cc
  count_some (c ∷ cs) h = ground (arith, count_some cs)

  erase_if_none : (cs : List ContactBinding) → any p cs ≡ false → erase_if p cs ≡ cs
  erase_if_none [] h = refl
  erase_if_none (c ∷ cs) h = ground (arith, erase_if_none cs)

  -- The size test of the removal says whether some contact is removed.
  removed_any :
      (cs : List ContactBinding) → eqb (length cs) (length (erase_if p cs)) ≡ not (any p cs)
  removed_any cs = elim (Bool-cases (any p cs)) [
    | inl e ↦ rw e (ground (arith, length-erase_if cs, count_some cs e))
    | inr e ↦ rw e (ground (arith, erase_if_none cs e))
  ]

  module _ (new : ContactBinding) (passes : p new ≡ true) where
    erase_if-push : (cs : List ContactBinding) → erase_if p (cs ++ new ∷ []) ≡ erase_if p cs
    erase_if-push [] = rw passes
    erase_if-push (c ∷ cs) = ground (arith, erase_if-push cs)

    count-push : (cs : List ContactBinding) → count (cs ++ new ∷ []) ≡ suc (count cs)
    count-push [] = rw passes
    count-push (c ∷ cs) = ground (arith, count-push cs)

    erase_if-replace_first :
        (cs : List ContactBinding) → erase_if p (replace_first p new cs) ≡ erase_if p cs
    unfolding replace_first
    erase_if-replace_first [] = refl
    erase_if-replace_first (c ∷ cs) = ground (arith, erase_if-replace_first cs)

    count-replace_first : (cs : List ContactBinding) → count (replace_first p new cs) ≡ count cs
    unfolding replace_first
    count-replace_first [] = refl
    count-replace_first (c ∷ cs) = ground (arith, count-replace_first cs)

    find_if-replace_first :
        (cs : List ContactBinding) (old : ContactBinding)
        → find_if p cs ≡ some old
        → find_if p (replace_first p new cs) ≡ some new
    unfolding replace_first
    find_if-replace_first [] old h = cc
    find_if-replace_first (c ∷ cs) old h = ground (arith, find_if-replace_first cs old)

-- A removal answers whether some contact of the IMPU is to go, and leaves just the others, in order;
-- the contacts of every other IMPU stay.
pub remove_contact_locked_lem :
    (i j : Text) (r : Removal) (s : Bindings)
    → ((remove_contact_locked i r s).0 ≡ any (is_removed r) (contacts_of (find s i)))
      × (contacts_of (find (remove_contact_locked i r s).1 j) ≡ (
          if i == j
          then erase_if (is_removed r) (contacts_of (find s i))
          else contacts_of (find s j)))
unfolding remove_contact_locked
remove_contact_locked_lem i j r s = elim (Option-cases (find s i)) [
  | inl e ↦ ground (arith, text_eq_iff i j)
  | inr (b, e) ↦
      let kept : RegistrationBinding = record b {
        contacts = erase_if (is_removed r) b.contacts;
        state = registered;
      } in
      rw (e, remove_contact_locked)
        (ground (
          arith,
          e,
          text_eq_iff i j,
          removed_any (is_removed r) b.contacts,
          erase_if_none (is_removed r) b.contacts,
          find-put_or_erase s i j kept,
        ))
]

find_if-push :
    (p : ContactBinding → Bool) (cs : List ContactBinding) (new : ContactBinding)
    → p new ≡ true
    → find_if p cs ≡ none
    → find_if p (cs ++ new ∷ []) ≡ some new
find_if-push p [] new q h = rw q
find_if-push p (c ∷ cs) new q h = ground (arith, find_if-push p cs new q)

any-find_if :
    (p : ContactBinding → Bool) (cs : List ContactBinding) → any p cs ≡ is_some (find_if p cs)
any-find_if p [] = refl
any-find_if p (c ∷ cs) = ground (arith, any-find_if p cs)

-- What the selector finds after an upsert, given what it found before.
abbrev pub upserted : Upsert → Option ContactBinding → Option ContactBinding
upserted u none = if u.require_existing_match then none else some u.contact
upserted u (some old) = if is_stale u old then some old else some u.contact

-- The part of an upsert's effect on a list of contacts that does not depend on the table.
pub record Upserted (u : Upsert) (before after : List ContactBinding) (done : Bool) : Type 0 where
  pub result : done ≡ (any (matches_selector u.selector) before || not u.require_existing_match)
  pub others :
      erase_if (matches_selector u.selector) after ≡ erase_if (matches_selector u.selector) before
  pub found :
      find_if (matches_selector u.selector) after
      ≡ upserted u (find_if (matches_selector u.selector) before)
  pub number :
      any (matches_selector u.selector) before ≡ true
      → count (matches_selector u.selector) after ≡ count (matches_selector u.selector) before
  pub single :
      any (matches_selector u.selector) before ≡ false
      → count (matches_selector u.selector) after ≡ (if u.require_existing_match then 0 else 1)

upsert_into-Upserted :
    (u : Upsert) (b : RegistrationBinding)
    → matches_selector u.selector u.contact ≡ true
    → Upserted u b.contacts (upsert_into u b).0.contacts (upsert_into u b).1
unfolding upsert_into
upsert_into-Upserted u b q =
    let p = matches_selector u.selector in
    let cs = b.contacts in
    elim (Option-cases (find_if p cs)) [
      | inl e ↦
          rw (e, upsert_into)
            (ground (
              arith,
              e,
              any-find_if p cs,
              erase_if-push p u.contact q cs,
              count-push p u.contact q cs,
              count_none p cs,
              find_if-push p cs u.contact q e,
            ))
      | inr (old, e) ↦
          rw (e, upsert_into)
            (ground (
              arith,
              e,
              any-find_if p cs,
              erase_if-replace_first p u.contact q cs,
              count-replace_first p u.contact q cs,
              find_if-replace_first p u.contact q cs old e,
            ))
    ]

-- The three ways of an upsert: no binding and none to be made, a new binding, a stored one.
pub upsert_missing :
    (i : Text) (u : Upsert) (s : Bindings)
    → find s i ≡ none
    → u.require_existing_match ≡ true
    → upsert_contact_locked i u s ≡ (false, s)
unfolding upsert_contact_locked
upsert_missing i u s e needed = ground (arith, e)

pub upsert_new :
    (i : Text) (u : Upsert) (s : Bindings)
    → find s i ≡ none
    → u.require_existing_match ≡ false
    → upsert_contact_locked i u s
      ≡ (let r = upsert_into u (fresh_binding i u) in (r.1, insert s i r.0))
unfolding upsert_contact_locked
upsert_new i u s e free = ground (arith, e)

pub upsert_stored :
    (i : Text) (u : Upsert) (s : Bindings) (b : RegistrationBinding)
    → find s i ≡ some b
    → upsert_contact_locked i u s ≡ (let r = upsert_into u b in (r.1, insert s i r.0))
unfolding upsert_contact_locked
upsert_stored i u s b e = rw (e, upsert_contact_locked)

written :
    (i : Text) (u : Upsert) (s : Bindings) (b : RegistrationBinding)
    → matches_selector u.selector u.contact ≡ true
    → Upserted u b.contacts
        (contacts_of (find (insert s i (upsert_into u b).0) i))
        (upsert_into u b).1
      × ((j : Text) → i ≢ j → find (insert s i (upsert_into u b).0) j ≡ find s j)
written i u s b q = (
  rw (find-insert, ==-refl i) (upsert_into-Upserted u b q),
  λ j h. ground (arith, find-insert s i j (upsert_into u b).0, text_eq_iff i j),
)

-- An upsert whose selector matches its own contact leaves the IMPU's other contacts, never adds a
-- second match, and writes the contact unless the stored one is newer or a required match is missing;
-- it answers whether there was a match or none was required. Other IMPUs keep their bindings.
pub upsert_contact_locked_lem :
    (i : Text) (u : Upsert) (s : Bindings)
    → matches_selector u.selector u.contact ≡ true
    → Upserted u
        (contacts_of (find s i))
        (contacts_of (find (upsert_contact_locked i u s).1 i))
        (upsert_contact_locked i u s).0
      × ((j : Text) → i ≢ j → find (upsert_contact_locked i u s).1 j ≡ find s j)
upsert_contact_locked_lem i u s q = elim (Option-cases (find s i)) [
  | inl e ↦ elim (Bool-cases u.require_existing_match) [
    | inl needed ↦
        rw (upsert_missing i u s e needed, e)
          (let none_there : Upserted u [] [] false = ground arith in (none_there, λ j h. refl))
    | inr free ↦ rw (upsert_new i u s e free, e) (written i u s (fresh_binding i u) q)
  ]
  | inr (b, e) ↦ rw (upsert_stored i u s b e, e) (written i u s b q)
]
