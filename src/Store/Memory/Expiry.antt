-- ===== src/Store/Memory/Expiry.antt =====
-- Expiry in the registration store: what pruning leaves of a table, and what a lookup can return.
use sim_ims.Prelude.{
  ℕ, ◌+◌, ◌≤◌, ◌≡◌, refl, ap, ◌∙◌, inl, inr, Bool, true, not, Option, none, some, List, [], ◌∷◌,
  ◌++◌, arith, is_empty, erase_if, filter, any, length, if◌then◌else◌, ◌==◌, ==-refl, Option-cases,
  length-filter-le,
}
use sim_ims.Prelude.Text.{Text, text_instance, text_eq_iff}
use sim_ims.Prelude.Table.{find, find-insert, find-erase, IsKeyed}
use sim_ims.Common.{ok}
use sim_ims.Store.{ContactBinding, RegistrationBinding}
use sim_ims.Store.Memory.{
  Bindings, is_expired, put_or_erase, pruned, prune_expired_locked, next_after, own_or_next,
  prune_all, lookup, purge_loop, purge_expired,
}

-- A binding as a reader at time `now` sees it: without its expired contacts, and only if one is left.
abbrev pub live : ℕ → Option RegistrationBinding → Option RegistrationBinding
live now none = none
live now (some b) =
    let kept = erase_if (is_expired now) b.contacts in
    if is_empty kept then none else some (record b { contacts = kept })

pub find-put_or_erase :
    (s : Bindings) (i j : Text) (b : RegistrationBinding)
    → find (put_or_erase s i b) j
      ≡ (if i == j then (if is_empty b.contacts then none else some b) else find s j)
find-put_or_erase s i j b = ground (arith, find-insert s i j b, find-erase s i j)

pub find-prune :
    (now : ℕ) (i j : Text) (s : Bindings)
    → find (pruned now i s) j ≡ (if i == j then live now (find s i) else find s j)
unfolding pruned
find-prune now i j s = elim (Option-cases (find s i)) [
  | inl e ↦ rw (e, pruned) (ground (arith, text_eq_iff i j))
  | inr (b, e) ↦ rw (e, pruned) (find-put_or_erase s i j _)
]

-- A lookup changes the table at its own IMPU only, to what is seen at time `now`.
pub find-lookup :
    (now : ℕ) (i j : Text) (s : Bindings)
    → find (lookup now i s).1 j ≡ (if i == j then live now (find s i) else find s j)
unfolding lookup prune_expired_locked
find-lookup now i j s = find-prune now i j s

-- It answers with the IMPU's own binding as seen at time `now` where a contact is left.
pub lookup_live :
    (now : ℕ) (i : Text) (s : Bindings) (b : RegistrationBinding)
    → live now (find s i) ≡ some b
    → (lookup now i s).0 ≡ ok b
unfolding lookup prune_expired_locked
lookup_live now i s b h =
    let here : find (pruned now i s) i ≡ some b = find-prune now i i s ∙ rw (==-refl i) h in
    elim (Option-cases (find s i)) [
      | inl e ↦ absurd (ground (arith, e, h))
      | inr (c, e) ↦ rw (lookup, prune_expired_locked, own_or_next, e, here) refl
    ]

next-after :
    (front back : Bindings) (i j : Text) (b c : RegistrationBinding)
    → find front i ≡ none
    → next_after i (front ++ (i, b) ∷ (j, c) ∷ back) ≡ some c
unfolding next_after find
next-after [] back i j b c h = rw (==-refl i) refl
next-after ((k, d) ∷ front) back i j b c h = ground (arith, h, next-after front back i j b c)

find-front :
    (front back : Bindings) (i : Text) (b : RegistrationBinding)
    → find front i ≡ none
    → find (front ++ (i, b) ∷ back) i ≡ some b
unfolding find
find-front [] back i b h = rw (==-refl i) refl
find-front ((k, d) ∷ front) back i b h = ground (arith, h, find-front front back i b)

-- A lookup of an IMPU whose contacts have all expired answers with the binding that comes next in the
-- order of iteration, another IMPU's, expired or not.
pub lookup-expired :
    (now : ℕ) (i j : Text) (front back : Bindings) (b c : RegistrationBinding)
    → find front i ≡ none
    → is_empty (erase_if (is_expired now) b.contacts) ≡ true
    → (lookup now i (front ++ (i, b) ∷ (j, c) ∷ back)).0 ≡ ok c
unfolding lookup prune_expired_locked
lookup-expired now i j front back b c absent over =
    let s = front ++ (i, b) ∷ (j, c) ∷ back in
    let stored = find-front front ((j, c) ∷ back) i b absent in
    let next = next-after front back i j b c absent in
    let gone : find (pruned now i s) i ≡ none =
      find-prune now i i s ∙ rw (==-refl i, stored, live, over) refl in
    rw (lookup, prune_expired_locked, own_or_next, stored, gone, next) refl

erase_if-later :
    (now later : ℕ) (cs : List ContactBinding)
    → now ≤ later
    → erase_if (is_expired later) (erase_if (is_expired now) cs) ≡ erase_if (is_expired later) cs
erase_if-later now later [] h = refl
erase_if-later now later (c ∷ cs) h = ground (arith, erase_if-later now later cs h)

is_empty-filter :
    (p : ContactBinding → Bool) (cs : List ContactBinding) → is_empty cs ≡ true → filter p cs ≡ []
is_empty-filter p [] h = refl
is_empty-filter p (c ∷ cs) h = cc

-- Seen twice, a binding is as seen at the later time.
pub live-live :
    (now later : ℕ) (o : Option RegistrationBinding)
    → now ≤ later
    → live later (live now o) ≡ live later o
live-live now later none h = refl
live-live now later (some b) h = ground (
  arith,
  erase_if-later now later b.contacts h,
  is_empty-filter (λ (c : ContactBinding). not (is_expired later c))
      (erase_if (is_expired now) b.contacts),
)

-- Pruning for a list of IMPUs leaves each of them as seen at that time, and the others alone.
pub find-prune_all :
    (now : ℕ) (is : List Text) (j : Text) (s : Bindings)
    → find (prune_all now is s) j ≡ (if any (λ i. i == j) is then live now (find s j) else find s j)
unfolding prune_all
find-prune_all now [] j s = refl
find-prune_all now (i ∷ is) j s = ground (
  arith,
  find-prune_all now is j (pruned now i s),
  find-prune now i j s,
  live-live now now (find s j),
  text_eq_iff i j,
)

-- The number of contacts in a table.
abbrev pub contact_count : Bindings → ℕ
contact_count [] = 0
contact_count ((i, b) ∷ s) = length b.contacts + contact_count s

pub find-purge :
    (now : ℕ) (s : Bindings) (j : Text)
    → IsKeyed s
    → find (purge_loop now s).1 j ≡ live now (find s j)
unfolding purge_loop find
find-purge now [] j h = refl
find-purge now ((i, b) ∷ s) j h =
    ground (arith, text_eq_iff i j, find-purge now s j h.1, find-purge now s i h.1)

purge-count :
    (now : ℕ) (s : Bindings)
    → (purge_loop now s).0 + contact_count (purge_loop now s).1 ≡ contact_count s
unfolding purge_loop
purge-count now [] = refl
purge-count now ((i, b) ∷ s) = ground (
  arith,
  purge-count now s,
  length-filter-le (λ (c : ContactBinding). not (is_expired now c)) b.contacts,
)

-- On a table with one entry to a key, a purge returns the number of contacts that it removed, and what
-- is seen of a binding at that time or later is as it would have been without the purge.
pub purge_expired_lem :
    (now : ℕ) (s : Bindings)
    → IsKeyed s
    → (n : ℕ) × ((purge_expired now s).0 ≡ ok n)
      × (n + contact_count (purge_expired now s).1 ≡ contact_count s)
      × ((later : ℕ) (j : Text)
          → now ≤ later
          → live later (find (purge_expired now s).1 j) ≡ live later (find s j))
unfolding purge_expired
purge_expired_lem now s keyed = (
  (purge_loop now s).0,
  refl,
  purge-count now s,
  λ later j h. ap (live later) (find-purge now s j keyed) ∙ live-live now later (find s j) h,
)

pub purge-IsKeyed : (now : ℕ) (s : Bindings) → IsKeyed s → IsKeyed (purge_loop now s).1
unfolding purge_loop
purge-IsKeyed now [] h = tt
purge-IsKeyed now ((i, b) ∷ s) h = ground (arith, find-purge now s i h.1, purge-IsKeyed now s h.1)
