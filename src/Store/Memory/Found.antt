-- ===== src/Store/Memory/Found.antt =====
-- What lookups find of a contact that a batch has written, and what removals of several IMPUs leave.
use sim_ims.Prelude.{
  ℕ, ◌+◌, ◌≡◌, refl, ap, ◌∙◌, inl, inr, Bool, true, false, Option, none, some, List, [], ◌∷◌, arith,
  any, erase_if, find_if, is_empty, if◌then◌else◌, ◌==◌, Bool-cases,
}
use sim_ims.Prelude.Text.{Text, text_instance, text_eq_iff}
use sim_ims.Prelude.Table.{find, erase, find-erase}
use sim_ims.Common.{ok}
use sim_ims.Store.{ContactBinding, RegistrationBinding, ContactBatchUpsert}
use sim_ims.Store.Memory.{
  Bindings, Removal, is_expired, is_removed, lookup, remove_each, erase_each, remove_contact_locked,
  matches_selector, upsert_contacts, batch_upsert, prune_all,
}
use sim_ims.Store.Memory.Expiry.{live, lookup_live, find-prune_all}
use sim_ims.Store.Memory.Contacts.{
  contacts_of, remove_contact_locked_lem, upserted, upsert_contact_locked_lem,
}
use sim_ims.Store.Memory.Batch.{IsDistinct, can_write, upsert_contacts-whole}

find_if-erase_if :
    (p : ContactBinding → Bool) (later : ℕ) (cs : List ContactBinding) (c : ContactBinding)
    → find_if p cs ≡ some c
    → is_expired later c ≡ false
    → find_if p (erase_if (is_expired later) cs) ≡ some c
find_if-erase_if p later [] c h fresh = h
find_if-erase_if p later (d ∷ cs) c h fresh = elim (Bool-cases (p d)) [
  | inl e ↦
      let same : d ≡ c = ground (arith, e, h) in
      ground (arith, e, h, ap (is_expired later) same, same)
  | inr e ↦ ground (arith, e, h, find_if-erase_if p later cs c)
]

is_empty-find_if :
    (p : ContactBinding → Bool) (cs : List ContactBinding) (c : ContactBinding)
    → find_if p cs ≡ some c
    → is_empty cs ≡ false
is_empty-find_if p [] c h = cc
is_empty-find_if p (d ∷ cs) c h = refl

find_if-live :
    (p : ContactBinding → Bool) (later : ℕ) (o : Option RegistrationBinding) (c : ContactBinding)
    → find_if p (contacts_of o) ≡ some c
    → is_expired later c ≡ false
    → (b : RegistrationBinding) × (live later o ≡ some b) × (find_if p b.contacts ≡ some c)
find_if-live p later none c h fresh = cc
find_if-live p later (some b) c h fresh =
    let kept = find_if-erase_if p later b.contacts c h fresh in
    let some_kept = is_empty-find_if p (erase_if (is_expired later) b.contacts) c kept in
    (record b { contacts = erase_if (is_expired later) b.contacts }, rw some_kept refl, kept)

-- A contact that has not expired is found by a lookup.
pub find_if-lookup :
    (p : ContactBinding → Bool) (later : ℕ) (i : Text) (s : Bindings) (c : ContactBinding)
    → find_if p (contacts_of (find s i)) ≡ some c
    → is_expired later c ≡ false
    → (b : RegistrationBinding) × ((lookup later i s).0 ≡ ok b) × (find_if p b.contacts ≡ some c)
find_if-lookup p later i s c h fresh =
    let (b, seen, found) = find_if-live p later (find s i) c h fresh in
    (b, lookup_live later i s b seen, found)

erase_if-twice :
    (p : ContactBinding → Bool) (cs : List ContactBinding)
    → erase_if p (erase_if p cs) ≡ erase_if p cs
erase_if-twice p [] = refl
erase_if-twice p (c ∷ cs) = ground (arith, erase_if-twice p cs)

-- A removal from several IMPUs removes from each of them, and from no other.
pub contacts-remove_each :
    (r : Removal) (is : List Text) (n : ℕ) (s : Bindings) (j : Text)
    → contacts_of (find (remove_each r is n s).1 j) ≡ (
        if any (λ i. i == j) is
        then erase_if (is_removed r) (contacts_of (find s j))
        else contacts_of (find s j))
unfolding remove_each
contacts-remove_each r [] n s j = refl
contacts-remove_each r (i ∷ is) n s j =
    let step = remove_contact_locked i r s in
    let more = contacts-remove_each r is (if step.0 then n + 1 else n) step.1 j in
    let here = (remove_contact_locked_lem i j r s).1 in
    elim (Bool-cases (i == j)) [
      | inl e ↦
          let same = ap (λ k. contacts_of (find s k)) ((text_eq_iff i j).0 e) in
          ground
            (arith, e, same, here, more, erase_if-twice (is_removed r) (contacts_of (find s j)))
      | inr e ↦ ground (arith, e, here, more)
    ]

-- The bindings of several IMPUs are erased, and no other.
pub find-erase_each :
    (is : List Text) (n : ℕ) (s : Bindings) (j : Text)
    → find (erase_each is n s).1 j ≡ (if any (λ i. i == j) is then none else find s j)
unfolding erase_each
find-erase_each [] n s j = refl
find-erase_each (i ∷ is) n s j =
    let m : ℕ = elim (find s i) [ none ↦ n | some b ↦ n + 1 ] in
    ground (arith, find-erase_each is m (erase s i) j, find-erase s i j)

-- Where a batch can be written, each of its IMPUs has the contact afterwards.
pub upserted-whole :
    (now : ℕ) (batch : ContactBatchUpsert) (s : Bindings) (j : Text)
    → IsDistinct batch.impus
    → can_write now batch s ≡ true
    → matches_selector batch.selector batch.contact ≡ true
    → any (λ i. i == j) batch.impus ≡ true
    → find_if
        (matches_selector batch.selector)
        (contacts_of (find (upsert_contacts now batch s).1 j))
      ≡ upserted
          (batch_upsert batch)
          (find_if (matches_selector batch.selector) (contacts_of (live now (find s j))))
upserted-whole now batch s j d can q inside =
    let u = batch_upsert batch in
    let pruned = prune_all now batch.impus s in
    let there = (upsert_contacts-whole now batch s d can).1 j in
    let seen = find-prune_all now batch.impus j s in
    let written = (upsert_contact_locked_lem j u pruned q).0.found in
    rw (there, inside) (written ∙ rw (seen, inside) refl)

-- The same of any IMPU: at one that is not of the batch, the contact is as it was.
pub upserted-all :
    (now : ℕ) (batch : ContactBatchUpsert) (s : Bindings) (j : Text)
    → IsDistinct batch.impus
    → can_write now batch s ≡ true
    → matches_selector batch.selector batch.contact ≡ true
    → find_if
        (matches_selector batch.selector)
        (contacts_of (find (upsert_contacts now batch s).1 j))
      ≡ (if any (λ i. i == j) batch.impus
          then upserted
              (batch_upsert batch)
              (find_if (matches_selector batch.selector) (contacts_of (live now (find s j))))
          else find_if (matches_selector batch.selector) (contacts_of (find s j)))
upserted-all now batch s j d can q = elim (Bool-cases (any (λ i. i == j) batch.impus)) [
  | inl e ↦ rw e (upserted-whole now batch s j d can q e)
  | inr e ↦
      let there = (upsert_contacts-whole now batch s d can).1 j in
      let seen = find-prune_all now batch.impus j s in rw (there, e) (rw (seen, e) refl)
]
