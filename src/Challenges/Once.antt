-- ===== src/Challenges/Once.antt =====
-- Calls of the AKA provider that interleave: a list of the locked sections that they run.
use sim_ims.Prelude.{
  ℕ, suc, ◌+◌, ◌≤◌, ◌≡◌, ap, inl, inr, Bool, true, false, ◌&&◌, some, List, [], ◌∷◌, arith,
  erase_if, leb, ◌==◌, Bool-cases, Option-cases,
}
use sim_ims.Prelude.Text.{Text, text_instance, text_eq_iff}
use sim_ims.Prelude.Table.{Table, find, insert, erase}
use sim_ims.Common.{Result, ok, err}
use sim_ims.Aka.{AuthVector}
use sim_ims.Challenges.{
  PendingAuth, Tables, purge_expired_locked, begin_challenge, finish_challenge, consume,
  same_vector,
}

-- A section, with what its caller has found before.
pub data LockedSection : Type 0 where
  begins : ℕ → Text → LockedSection
  finishes : Text → Result PendingAuth → LockedSection
  purges : ℕ → LockedSection
  consumes : Text → PendingAuth → LockedSection

abbrev pub run_section : LockedSection → Tables → Tables
run_section (begins now key) t = (begin_challenge now key t).1
run_section (finishes key result) t = finish_challenge key result t
run_section (purges now) t = purge_expired_locked now t
run_section (consumes key p) t = (consume key p t).1

module _ (v : AuthVector) where
  abbrev has_vector : PendingAuth → Bool
  has_vector p = same_vector p.vector v

  abbrev one_if : Bool → ℕ
  one_if true = 1
  one_if false = 0

  -- The pending entries with the vector.
  abbrev pub pending_count : Table Text PendingAuth → ℕ
  pending_count [] = 0
  pending_count ((key, p) ∷ t) = one_if (has_vector p) + pending_count t

  -- The verifications that are accepted for the vector.
  abbrev accepts : LockedSection → Tables → ℕ
  accepts (consumes key p) t = one_if ((consume key p t).0 && has_vector p)
  accepts _ t = 0

  abbrev pub accepted_count : List LockedSection → Tables → ℕ
  accepted_count [] t = 0
  accepted_count (s ∷ ss) t = accepts s t + accepted_count ss (run_section s t)

  -- The answers of the HSS that bring the vector.
  abbrev brings : LockedSection → ℕ
  brings (finishes key (ok p)) = one_if (has_vector p)
  brings _ = 0

  abbrev pub brought_count : List LockedSection → ℕ
  brought_count [] = 0
  brought_count (s ∷ ss) = brings s + brought_count ss

  pending_count-erase_if :
      (q : Text × PendingAuth → Bool) (t : Table Text PendingAuth)
      → pending_count (erase_if q t) ≤ pending_count t
  pending_count-erase_if q [] = omega arith
  pending_count-erase_if q ((key, p) ∷ t) = ground (arith, pending_count-erase_if q t)

  pending_count-insert :
      (t : Table Text PendingAuth) (key : Text) (p : PendingAuth)
      → pending_count (insert t key p) ≤ one_if (has_vector p) + pending_count t
  unfolding insert
  pending_count-insert [] key p = omega arith
  pending_count-insert ((j, q) ∷ t) key p = ground (arith, pending_count-insert t key p)

  pending_count-erase :
      (t : Table Text PendingAuth) (key : Text) → pending_count (erase t key) ≤ pending_count t
  unfolding erase
  pending_count-erase [] key = omega arith
  pending_count-erase ((j, q) ∷ t) key = ground (arith, pending_count-erase t key)

  pending_count-found :
      (t : Table Text PendingAuth) (key : Text) (q : PendingAuth)
      → find t key ≡ some q
      → has_vector q ≡ true
      → suc (pending_count (erase t key)) ≤ pending_count t
  unfolding find erase
  pending_count-found [] key q h w = cc
  pending_count-found ((j, r) ∷ t) key q h w = elim (Bool-cases (j == key)) [
    | inl e ↦
        let same : r ≡ q = ground (arith, e, h) in
        let rest = pending_count-erase t key in ground (arith, e, rest, w, ap has_vector same)
    | inr e ↦ ground (arith, e, pending_count-found t key q)
  ]

  same_vector_trans :
      (a b : AuthVector) → same_vector a b ≡ true → same_vector b v ≡ true → same_vector a v ≡ true
  same_vector_trans a b h w = ground (
    arith,
    text_eq_iff a.rand b.rand,
    text_eq_iff b.rand v.rand,
    text_eq_iff a.rand v.rand,
    text_eq_iff a.autn b.autn,
    text_eq_iff b.autn v.autn,
    text_eq_iff a.autn v.autn,
  )

  consume-count :
      (key : Text) (p : PendingAuth) (t : Tables)
      → one_if ((consume key p t).0 && has_vector p)
          + pending_count (consume key p t).1.pending_auth
        ≤ pending_count t.pending_auth
  unfolding consume
  consume-count key p t = elim (Option-cases (find t.pending_auth key)) [
    | inl e ↦ rw (consume, e) (omega arith)
    | inr (q, e) ↦ elim (Bool-cases (same_vector q.vector p.vector)) [
      | inr d ↦ rw (consume, e, d) (omega arith)
      | inl d ↦ elim (Bool-cases (has_vector p)) [
        | inl w ↦
            let same = same_vector_trans q.vector p.vector d w in
            rw (consume, e, d, w) (omega (arith, pending_count-found t.pending_auth key q e same))
        | inr w ↦ rw (consume, e, d, w) (omega (arith, pending_count-erase t.pending_auth key))
      ]
    ]
  ]

  begin_challenge-count :
      (now : ℕ) (key : Text) (t : Tables)
      → pending_count (begin_challenge now key t).1.pending_auth ≤ pending_count t.pending_auth
  unfolding begin_challenge purge_expired_locked
  begin_challenge-count now key t =
      let fewer = pending_count-erase_if (λ entry. leb entry.1.expires_at now) t.pending_auth in
      ground (arith, fewer)

  section-count :
      (s : LockedSection) (t : Tables)
      → accepts s t + pending_count (run_section s t).pending_auth
        ≤ brings s + pending_count t.pending_auth
  unfolding finish_challenge purge_expired_locked
  section-count (begins now key) t = omega (arith, begin_challenge-count now key t)
  section-count (finishes key (err x)) t = omega arith
  section-count (finishes key (ok p)) t = omega (arith, pending_count-insert t.pending_auth key p)
  section-count (purges now) t =
      omega (arith, pending_count-erase_if (λ entry. leb entry.1.expires_at now) t.pending_auth)
  section-count (consumes key p) t = omega (arith, consume-count key p t)

  run-count :
      (ss : List LockedSection) (t : Tables)
      → accepted_count ss t ≤ brought_count ss + pending_count t.pending_auth
  run-count [] t = omega arith
  run-count (s ∷ ss) t = omega (arith, section-count s t, run-count ss (run_section s t))

  -- However the sections of any calls interleave, from tables with no pending entry of a vector,
  -- Authorization headers are accepted for the vector at most as often as the HSS's answers bring it.
  pub accepted_count-le :
      (ss : List LockedSection) (t : Tables)
      → pending_count t.pending_auth ≡ 0
      → accepted_count ss t ≤ brought_count ss
  accepted_count-le ss t none_yet = omega (arith, run-count ss t, none_yet)
