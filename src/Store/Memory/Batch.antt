-- ===== src/Store/Memory/Batch.antt =====
-- Batch writes over the IMPUs of one subscription.
use sim_ims.Prelude.{
  is_empty, ℕ, ◌+◌, ◌≡◌, ◌≢◌, refl, sym, ap, subst, ◌∙◌, ◌⊎◌, inl, inr, Bool, true, false, not,
  ◌&&◌, ◌||◌, none, some, List, [], ◌∷◌, arith, any, find_if, length, if◌then◌else◌, ◌==◌, ==-refl,
  Bool-cases, Option-cases,
}
use sim_ims.Prelude.Text.{Text, text_instance, text_eq_iff}
use sim_ims.Prelude.Table.{find, find-insert}
use sim_ims.Common.{ok}
use sim_ims.Store.{RegistrationBinding, ContactBatchUpsert}
use sim_ims.Store.Memory.{
  Bindings, Upsert, matches_selector, fresh_binding, upsert_into, upsert_contact_locked, has_match,
  all_match, prune_all, upsert_each, upsert_contacts, batch_upsert, upsert_contact, pruned,
}
use sim_ims.Store.Memory.Contacts.{upsert_missing, upsert_new, upsert_stored}

-- No text occurs twice, as in an unordered_set.
abbrev pub IsDistinct : List Text → Type 0
IsDistinct [] = Unit
IsDistinct (i ∷ is) = (any (λ j. j == i) is ≡ false) × IsDistinct is

-- The upsert of this IMPU will not fail.
abbrev can_upsert : Upsert → Bindings → Text → Bool
can_upsert u s i = has_match u.selector s i || not u.require_existing_match

upsert-done :
    (i : Text) (u : Upsert) (s : Bindings) → (upsert_contact_locked i u s).0 ≡ can_upsert u s i
unfolding upsert_contact_locked upsert_into
upsert-done i u s = ground arith

upsert-other :
    (i j : Text) (u : Upsert) (s : Bindings)
    → i ≢ j
    → find (upsert_contact_locked i u s).1 j ≡ find s j
upsert-other i j u s h = elim (Option-cases (find s i)) [
  | inl e ↦ elim (Bool-cases u.require_existing_match) [
    | inl needed ↦ rw (upsert_missing i u s e needed)
    | inr free ↦
        rw (upsert_new i u s e free)
          (ground (arith, find-insert s i j (upsert_into u (fresh_binding i u)).0, text_eq_iff i j))
  ]
  | inr (b, e) ↦
      rw (upsert_stored i u s b e)
        (ground (arith, find-insert s i j (upsert_into u b).0, text_eq_iff i j))
]

-- The upserts of all these IMPUs will not fail.
all_can : Upsert → Bindings → List Text → Bool
all_can u s [] = true
all_can u s (i ∷ is) = can_upsert u s i && all_can u s is

all_can-upsert :
    (i : Text) (u : Upsert) (s : Bindings) (is : List Text)
    → any (λ j. j == i) is ≡ false
    → all_can u (upsert_contact_locked i u s).1 is ≡ all_can u s is
unfolding all_can
all_can-upsert i u s [] h = refl
all_can-upsert i u s (j ∷ is) h =
    let ne : i ≢ j = λ e. ground (arith, text_eq_iff i j) in
    ground (arith, upsert-other i j u s ne, all_can-upsert i u s is)

upsert_each-total :
    (u : Upsert) (is : List Text) (changed : ℕ) (s : Bindings)
    → IsDistinct is
    → all_can u s is ≡ true
    → (upsert_each u is changed s).0 ≡ changed + length is
unfolding upsert_each all_can
upsert_each-total u [] changed s d h = omega arith
upsert_each-total u (i ∷ is) changed s d h = ground (
  arith,
  upsert-done i u s,
  all_can-upsert i u s is d.0,
  upsert_each-total u is (changed + 1) (upsert_contact_locked i u s).1 d.1,
)

all_match-all_can :
    (u : Upsert) (s : Bindings) (is : List Text)
    → (all_match u.selector s is || not u.require_existing_match) ≡ true
    → all_can u s is ≡ true
unfolding all_match all_can
all_match-all_can u s [] h = refl
all_match-all_can u s (i ∷ is) h = ground (arith, all_match-all_can u s is)

pub upsert_locally :
    (j : Text) (u : Upsert) (s t : Bindings)
    → find s j ≡ find t j
    → find (upsert_contact_locked j u s).1 j ≡ find (upsert_contact_locked j u t).1 j
upsert_locally j u s t same = elim (Option-cases (find s j)) [
  | inl e ↦ elim (Bool-cases u.require_existing_match) [
    | inl needed ↦
        rw (upsert_missing j u s e needed, upsert_missing j u t (sym same ∙ e) needed) same
    | inr free ↦
        rw (upsert_new j u s e free, upsert_new j u t (sym same ∙ e) free)
          (ground (
            arith,
            ==-refl j,
            find-insert s j j (upsert_into u (fresh_binding j u)).0,
            find-insert t j j (upsert_into u (fresh_binding j u)).0,
          ))
  ]
  | inr (b, e) ↦
      rw (upsert_stored j u s b e, upsert_stored j u t b (sym same ∙ e))
        (ground (
          arith,
          ==-refl j,
          find-insert s j j (upsert_into u b).0,
          find-insert t j j (upsert_into u b).0,
        ))
]

find-upsert_each :
    (u : Upsert) (is : List Text) (changed : ℕ) (s : Bindings) (j : Text)
    → IsDistinct is
    → all_can u s is ≡ true
    → find (upsert_each u is changed s).1 j
      ≡ (if any (λ i. i == j) is then find (upsert_contact_locked j u s).1 j else find s j)
unfolding upsert_each all_can
find-upsert_each u [] changed s j d h = refl
find-upsert_each u (i ∷ is) changed s j d h =
    let s' = (upsert_contact_locked i u s).1 in
    let later = find-upsert_each u is (changed + 1) s' j d.1 in
    elim (Bool-cases (i == j)) [
      | inl e ↦
          let p : i ≡ j = (text_eq_iff i j).0 e in
          let alone : any (λ k. k == j) is ≡ false =
            subst (λ k. any (λ m. m == k) is ≡ false) p d.0 in
          let here : find s' j ≡ find (upsert_contact_locked j u s).1 j =
            subst
              (λ k. find (upsert_contact_locked k u s).1 j ≡ find (upsert_contact_locked j u s).1 j)
              (sym p) refl in
          ground (arith, e, alone, here, upsert-done i u s, all_can-upsert i u s is d.0, later)
      | inr e ↦
          let ne : i ≢ j = λ p. cc (e, (text_eq_iff i j).1 p) in
          let here = upsert-other i j u s ne in
          ground (
            arith,
            e,
            here,
            upsert-done i u s,
            all_can-upsert i u s is d.0,
            later,
            upsert_locally j u s' s here,
          )
    ]

module _ (now : ℕ) (batch : ContactBatchUpsert) (s : Bindings) where
  -- Every IMPU of the batch has a match, or none is required.
  abbrev pub can_write : Bool
  can_write =
      all_match batch.selector (prune_all now batch.impus s) batch.impus
      || not batch.require_existing_match

  -- A batch that can be written is, to each of its IMPUs and to no other.
  pub upsert_contacts-whole :
      IsDistinct batch.impus
      → can_write ≡ true
      → let pruned = prune_all now batch.impus s in
        let after = upsert_contacts now batch s in
        (after.0 ≡ ok (length batch.impus))
        × ((j : Text)
            → find after.1 j ≡ (
                if any (λ i. i == j) batch.impus
                then find (upsert_contact_locked j (batch_upsert batch) pruned).1 j
                else find pruned j))
  unfolding upsert_contacts
  upsert_contacts-whole d e =
      let pruned = prune_all now batch.impus s in
      let u = batch_upsert batch in
      let can = all_match-all_can u pruned batch.impus e in
      (
        ground (arith, upsert_each-total u batch.impus 0 pruned d can),
        λ j. ground (arith, find-upsert_each u batch.impus 0 pruned j d can),
      )

  -- A batch that cannot be written is not, and only pruning remains.
  pub upsert_contacts-nothing :
      can_write ≡ false → upsert_contacts now batch s ≡ (ok 0, prune_all now batch.impus s)
  unfolding upsert_contacts
  upsert_contacts-nothing e = ground (arith, e)

-- A batch upsert over distinct IMPUs is all or nothing: it does the upsert of one contact to each
-- IMPU of the batch and to no other, and answers how many there are, or it answers 0 and only prunes.
pub upsert_contacts-atomic :
    (now : ℕ) (batch : ContactBatchUpsert) (s : Bindings)
    → IsDistinct batch.impus
    → let pruned = prune_all now batch.impus s in
      let after = upsert_contacts now batch s in
      ((after.0 ≡ ok (length batch.impus))
        × ((j : Text)
            → find after.1 j ≡ (
                if any (λ i. i == j) batch.impus
                then find (upsert_contact_locked j (batch_upsert batch) pruned).1 j
                else find pruned j)))
      ⊎ ((after.0 ≡ ok 0) × (after.1 ≡ pruned))
upsert_contacts-atomic now batch s d = elim (Bool-cases (can_write now batch s)) [
  | inl e ↦ inl (upsert_contacts-whole now batch s d e)
  | inr e ↦
      let nothing = upsert_contacts-nothing now batch s e in
      inr (ap (λ r. r.0) nothing, ap (λ r. r.1) nothing)
]

-- An upsert of a single contact that fails for want of a match has already overwritten the binding's
-- IMPI, S-CSCF URI and state.
pub upsert_contact-touches :
    (now : ℕ) (i : Text) (u : Upsert) (s : Bindings) (b : RegistrationBinding)
    → find (pruned now i s) i ≡ some b
    → find_if (matches_selector u.selector) b.contacts ≡ none
    → u.require_existing_match ≡ true
    → ((upsert_contact now i u s).0 ≡ ok false)
      × (find (upsert_contact now i u s).1 i
          ≡ some (record {
            impu = b.impu;
            impi = if is_empty u.impi then b.impi else u.impi;
            scscf_uri = if is_empty u.scscf_uri then b.scscf_uri else u.scscf_uri;
            contacts = b.contacts;
            state = u.state;
          }))
unfolding upsert_contact upsert_into
upsert_contact-touches now i u s b e missing needed =
    let p = pruned now i s in
    ground (arith, upsert_stored i u p b e, find-insert p i i (upsert_into u b).0, ==-refl i)
