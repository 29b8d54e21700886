-- ===== src/Store/Memory/Invariant.antt =====
-- The invariant of the registration store, kept by every call of its interface.
use sim_ims.Prelude.{
  ℕ, ◌+◌, ◌≡◌, refl, sym, ◌∙◌, inl, inr, Bool, false, not, ◌&&◌, Option, none, some, List, [], ◌∷◌,
  ◌++◌, arith, is_empty, erase_if, find_if, ◌==◌, Bool-cases, Option-cases,
}
use sim_ims.Prelude.Text.{Text, text_instance, text_eq_iff}
use sim_ims.Prelude.Table.{
  find, insert, erase, find-insert, find-erase, IsKeyed, insert-IsKeyed, erase-IsKeyed,
}
use sim_ims.Store.{ContactBinding, RegistrationBinding, registered, ContactBatchUpsert}
use sim_ims.Store.Memory
use sim_ims.Store.Memory.{
  Bindings, Upsert, Removal, matches_selector, is_expired, is_removed, put_or_erase, fresh_binding,
  upsert_into, replace_first, upsert_contact_locked, remove_contact_locked, pruned, prune_all,
  upsert_each, remove_each, erase_each, purge_loop, batch_upsert, batch_removal, any_cseq_removal,
  Call, stores, looks_up, asks_registered, removes, upserts, removes_contact, upserts_batch,
  removes_batch, removes_bindings, purges, step, run, has_match, all_match,
}
use sim_ims.Store.Memory.Expiry.{live, find-purge, purge-IsKeyed}
use sim_ims.Store.Memory.Contacts.{upsert_missing, upsert_new, upsert_stored}

-- Bindings stand under their own IMPU and have a contact.
pub record IsWellFormed (s : Bindings) : Type 0 where
  pub keyed : IsKeyed s
  pub own : (i : Text) (b : RegistrationBinding) → find s i ≡ some b → b.impu ≡ i
  pub bound : (i : Text) (b : RegistrationBinding) → find s i ≡ some b → is_empty b.contacts ≡ false

insert-IsWellFormed :
    (s : Bindings) (i : Text) (b : RegistrationBinding)
    → IsWellFormed s
    → b.impu ≡ i
    → is_empty b.contacts ≡ false
    → IsWellFormed (insert s i b)
insert-IsWellFormed s i b w o n = record {
  keyed = insert-IsKeyed s i b w.keyed;
  own = λ j c h. elim (Bool-cases (i == j)) [
    | inl e ↦ ground (arith, e, find-insert s i j b, text_eq_iff i j)
    | inr e ↦ w.own j c (ground (arith, e, find-insert s i j b))
  ];
  bound = λ j c h. elim (Bool-cases (i == j)) [
    | inl e ↦ ground (arith, e, find-insert s i j b)
    | inr e ↦ w.bound j c (ground (arith, e, find-insert s i j b))
  ];
}

erase-IsWellFormed : (s : Bindings) (i : Text) → IsWellFormed s → IsWellFormed (erase s i)
erase-IsWellFormed s i w = record {
  keyed = erase-IsKeyed s i w.keyed;
  own = λ j c h. w.own j c (ground (arith, find-erase s i j));
  bound = λ j c h. w.bound j c (ground (arith, find-erase s i j));
}

put_or_erase-IsWellFormed :
    (s : Bindings) (i : Text) (b : RegistrationBinding)
    → IsWellFormed s
    → b.impu ≡ i
    → IsWellFormed (put_or_erase s i b)
put_or_erase-IsWellFormed s i b w o = elim (Bool-cases (is_empty b.contacts)) [
  | inl e ↦ rw e (erase-IsWellFormed s i w)
  | inr e ↦ rw e (insert-IsWellFormed s i b w o e)
]

prune-IsWellFormed :
    (now : ℕ) (i : Text) (s : Bindings) → IsWellFormed s → IsWellFormed (pruned now i s)
unfolding pruned
prune-IsWellFormed now i s w = elim (Option-cases (find s i)) [
  | inl e ↦ rw (e, pruned) w
  | inr (b, e) ↦
      rw (e, pruned)
        (put_or_erase-IsWellFormed s i
          (record b { contacts = erase_if (is_expired now) b.contacts }) w (w.own i b e))
]

prune_all-IsWellFormed :
    (now : ℕ) (is : List Text) (s : Bindings) → IsWellFormed s → IsWellFormed (prune_all now is s)
unfolding prune_all
prune_all-IsWellFormed now [] s w = w
prune_all-IsWellFormed now (i ∷ is) s w =
    prune_all-IsWellFormed now is (pruned now i s) (prune-IsWellFormed now i s w)

is_empty-push : (cs : List ContactBinding) (c : ContactBinding) → is_empty (cs ++ c ∷ []) ≡ false
is_empty-push [] c = refl
is_empty-push (d ∷ cs) c = refl

is_empty-replace_first :
    (p : ContactBinding → Bool) (c : ContactBinding) (cs : List ContactBinding)
    → is_empty (replace_first p c cs) ≡ is_empty cs
unfolding replace_first
is_empty-replace_first p c [] = refl
is_empty-replace_first p c (d ∷ cs) = ground arith

upsert_into-contacts :
    (u : Upsert) (b : RegistrationBinding)
    → (is_empty b.contacts && u.require_existing_match) ≡ false
    → ((upsert_into u b).0.impu ≡ b.impu) × (is_empty (upsert_into u b).0.contacts ≡ false)
unfolding upsert_into
upsert_into-contacts u b h =
    elim (Option-cases (find_if (matches_selector u.selector) b.contacts)) [
      | inl e ↦ ground (arith, e, is_empty-push b.contacts u.contact)
      | inr (old, e) ↦
          let full : is_empty b.contacts ≡ false = nonempty b.contacts e in
          ground (
            arith,
            e,
            full,
            is_empty-replace_first (matches_selector u.selector) u.contact b.contacts,
          )
    ]
  where
    nonempty :
        (cs : List ContactBinding) {old : ContactBinding}
        → find_if (matches_selector u.selector) cs ≡ some old
        → is_empty cs ≡ false
    nonempty [] e = cc
    nonempty (c ∷ cs) e = refl

upsert-IsWellFormed :
    (i : Text) (u : Upsert) (s : Bindings)
    → IsWellFormed s
    → IsWellFormed (upsert_contact_locked i u s).1
upsert-IsWellFormed i u s w = elim (Option-cases (find s i)) [
  | inl e ↦ elim (Bool-cases u.require_existing_match) [
    | inl needed ↦ rw (upsert_missing i u s e needed) w
    | inr free ↦
        let kept = upsert_into-contacts u (fresh_binding i u) free in
        rw (upsert_new i u s e free)
          (insert-IsWellFormed s i (upsert_into u (fresh_binding i u)).0 w kept.0 kept.1)
  ]
  | inr (b, e) ↦
      let kept = upsert_into-contacts u b (ground (arith, w.bound i b e)) in
      rw (upsert_stored i u s b e)
        (insert-IsWellFormed s i (upsert_into u b).0 w (kept.0 ∙ w.own i b e) kept.1)
]

upsert_each-IsWellFormed :
    (u : Upsert) (is : List Text) (n : ℕ) (s : Bindings)
    → IsWellFormed s
    → IsWellFormed (upsert_each u is n s).1
unfolding upsert_each
upsert_each-IsWellFormed u [] n s w = w
upsert_each-IsWellFormed u (i ∷ is) n s w =
    let w' = upsert-IsWellFormed i u s w in
    elim (Bool-cases (upsert_contact_locked i u s).0) [
      | inl e ↦ rw e (upsert_each-IsWellFormed u is (n + 1) (upsert_contact_locked i u s).1 w')
      | inr e ↦ rw e w'
    ]

remove-IsWellFormed :
    (i : Text) (r : Removal) (s : Bindings)
    → IsWellFormed s
    → IsWellFormed (remove_contact_locked i r s).1
unfolding remove_contact_locked
remove-IsWellFormed i r s w = elim (Option-cases (find s i)) [
  | inl e ↦ rw (e, remove_contact_locked) w
  | inr (b, e) ↦
      let kept : RegistrationBinding = record b {
        contacts = erase_if (is_removed r) b.contacts;
        state = registered;
      } in
      rw (e, remove_contact_locked)
        (ground (arith, put_or_erase-IsWellFormed s i kept w (w.own i b e)))
]

remove_each-IsWellFormed :
    (r : Removal) (is : List Text) (n : ℕ) (s : Bindings)
    → IsWellFormed s
    → IsWellFormed (remove_each r is n s).1
unfolding remove_each
remove_each-IsWellFormed r [] n s w = w
remove_each-IsWellFormed r (i ∷ is) n s w =
    remove_each-IsWellFormed r is _ (remove_contact_locked i r s).1 (remove-IsWellFormed i r s w)

erase_each-IsWellFormed :
    (is : List Text) (n : ℕ) (s : Bindings) → IsWellFormed s → IsWellFormed (erase_each is n s).1
unfolding erase_each
erase_each-IsWellFormed [] n s w = w
erase_each-IsWellFormed (i ∷ is) n s w =
    erase_each-IsWellFormed is _ (erase s i) (erase-IsWellFormed s i w)

live-some :
    (now : ℕ) (o : Option RegistrationBinding) (b : RegistrationBinding)
    → live now o ≡ some b
    → (a : RegistrationBinding) × (o ≡ some a) × (b.impu ≡ a.impu) × (is_empty b.contacts ≡ false)
live-some now none b h = cc
live-some now (some a) b h = (a, refl, ground arith, ground arith)

purge-IsWellFormed : (now : ℕ) (s : Bindings) → IsWellFormed s → IsWellFormed (purge_loop now s).1
purge-IsWellFormed now s w = record {
  keyed = purge-IsKeyed now s w.keyed;
  own = λ j b h.
      let (a, e, o, n) = live-some now (find s j) b (sym (find-purge now s j w.keyed) ∙ h) in
      o ∙ w.own j a e;
  bound = λ j b h.
      let (a, e, o, n) = live-some now (find s j) b (sym (find-purge now s j w.keyed) ∙ h) in n;
}

-- A stored binding has a contact; the other calls are free.
abbrev pub IsStorable : Call → Type 0
IsStorable (stores b) = is_empty b.contacts ≡ false
IsStorable _ = Unit

abbrev pub AllStorable : List (ℕ × Call) → Type 0
AllStorable [] = Unit
AllStorable ((now, c) ∷ cs) = IsStorable c × AllStorable cs

batch-IsWellFormed :
    (now : ℕ) (batch : ContactBatchUpsert) (s : Bindings)
    → IsWellFormed s
    → IsWellFormed (Memory.upsert_contacts now batch s).1
unfolding Memory.upsert_contacts
batch-IsWellFormed now batch s w =
    let p = prune_all now batch.impus s in
    let w' = prune_all-IsWellFormed now batch.impus s w in
    elim (Bool-cases
      (batch.require_existing_match && not (all_match batch.selector p batch.impus))) [
        | inl e ↦ rw (e, Memory.upsert_contacts) w'
        | inr e ↦
            rw (e, Memory.upsert_contacts)
              (upsert_each-IsWellFormed (batch_upsert batch) batch.impus 0 p w')
      ]

impu-IsWellFormed : (i : Text) (s : Bindings) → IsWellFormed s → IsWellFormed (Memory.remove i s).1
unfolding Memory.remove
impu-IsWellFormed i s w = elim (Option-cases (find s i)) [
  | inl e ↦ rw (e, Memory.remove) w
  | inr (b, e) ↦ rw (e, Memory.remove) (erase-IsWellFormed s i w)
]

pub step-IsWellFormed :
    (now : ℕ) (c : Call) (s : Bindings)
    → IsStorable c
    → IsWellFormed s
    → IsWellFormed (step now c s)
unfolding step
step-IsWellFormed now (stores b) s h w = insert-IsWellFormed s b.impu b w refl h
step-IsWellFormed now (looks_up i) s h w = prune-IsWellFormed now i s w
step-IsWellFormed now (asks_registered i) s h w = prune-IsWellFormed now i s w
step-IsWellFormed now (removes i) s h w = impu-IsWellFormed i s w
step-IsWellFormed now (upserts i u) s h w =
    upsert-IsWellFormed i u (pruned now i s) (prune-IsWellFormed now i s w)
step-IsWellFormed now (removes_contact i sel) s h w =
    remove-IsWellFormed i (any_cseq_removal sel) (pruned now i s) (prune-IsWellFormed now i s w)
step-IsWellFormed now (upserts_batch batch) s h w = batch-IsWellFormed now batch s w
step-IsWellFormed now (removes_batch batch) s h w =
    remove_each-IsWellFormed (batch_removal batch) batch.impus 0 _
      (prune_all-IsWellFormed now batch.impus s w)
step-IsWellFormed now (removes_bindings is) s h w = erase_each-IsWellFormed is 0 s w
step-IsWellFormed now purges s h w = purge-IsWellFormed now s w

-- From a well-formed table, any calls that store no empty binding lead to a well-formed table: one
-- entry to an IMPU, every binding under its own IMPU and with a contact.
pub run-IsWellFormed :
    (cs : List (ℕ × Call)) (s : Bindings)
    → AllStorable cs
    → IsWellFormed s
    → IsWellFormed (run cs s)
unfolding run
run-IsWellFormed [] s h w = w
run-IsWellFormed ((now, c) ∷ cs) s h w =
    run-IsWellFormed cs (step now c s) h.1 (step-IsWellFormed now c s h.0 w)
