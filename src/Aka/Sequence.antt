-- ===== src/Aka/Sequence.antt =====
-- advanceSqn of db/mongo_subscriber_repository.cpp and nextSqn of db/subscriber_codec.cpp: several
-- callers read and replace the sequence number of one document, a call of the database at a time.
-- The database replaces the number only where it still is the one that the filter names.
use sim_ims.Prelude.{
  ℕ, zero, suc, ◌+◌, ◌-◌, ◌*◌, ◌%◌, ◌^◌, ◌≤◌, ◌<◌, ◌≡◌, ◌≢◌, refl, ap, subst, All, false, Option,
  none, some, List, [], ◌∷◌, arith, length, eqb, eqb_iff, Bool-cases, ◌⊎◌, inl, inr, if◌then◌else◌,
  ℕ_discrete,
}
use sim_ims.Prelude.Text.{codes}
use sim_ims.Common.{Result, ok, err, ErrorInfo, k_diameter_user_not_found, k_internal_error}
use sim_ims.Aka.{k_sqn_step}

-- The mask of the HSS is 2^48 - 1.
unfoldable pub next_sqn : ℕ → ℕ → ℕ
next_sqn current step = (current + step) % 2 ^ 64 % 2 ^ 48

-- Where a call of advanceSqn stands: before the query, with the attempts left after this one;
-- before the update, with the number read; or returned.
pub data Caller : Type 0 where
  reading : ℕ → Caller
  updating : ℕ → ℕ → Caller
  returned : Result ℕ → Caller

unfoldable pub retry : ℕ → Caller
retry zero = returned (
    err (record {
      code = k_internal_error;
      message = codes "Mongo advanceSqn exceeded max retries";
      detail = codes "CAS conflict";
    }))
retry (suc left) = reading left

abbrev pub first_attempt : Caller
first_attempt = reading 4

-- How the database answers a call: it is done, or an error comes back, and an update that met an
-- error may have been made or not.
pub data Answer : Type 0 where
  done : Answer
  failed made : ErrorInfo → Answer

abbrev replace : ℕ → Option ℕ → Option ℕ
replace old none = none
replace old (some sqn) = if eqb sqn old then some (next_sqn old k_sqn_step) else some sqn

-- One call of the database and what follows it up to the next. The document is `none` where no
-- subscriber has the name.
unfoldable pub advance_sqn : Answer → Caller → Option ℕ → Caller × Option ℕ
advance_sqn a (returned r) document = (returned r, document)
advance_sqn (failed e) (reading left) document = (returned (err e), document)
advance_sqn (made e) (reading left) document = (returned (err e), document)
advance_sqn (failed e) (updating left old) document = (returned (err e), document)
advance_sqn (made e) (updating left old) document = (returned (err e), replace old document)
advance_sqn done (reading left) none = (
  returned (
      err (record {
        code = k_diameter_user_not_found;
        message = codes "Subscriber not found";
        detail = codes "Subscriber not found for advanceSqn";
      })),
  none,
)
advance_sqn done (reading left) (some sqn) = (updating left sqn, some sqn)
advance_sqn done (updating left old) none = (retry left, none)
advance_sqn done (updating left old) (some sqn) =
    if eqb sqn old then (returned (ok old), replace old (some sqn)) else (retry left, some sqn)

-- Callers that share the document, and the numbers given out so far, the last first.
pub record System : Type 0 where
  pub callers : ℕ → Caller
  pub document : Option ℕ
  pub issued : List ℕ

abbrev given_out : Caller → Caller → List ℕ → List ℕ
given_out (updating left old) (returned (ok sqn)) issued = sqn ∷ issued
given_out _ _ issued = issued

abbrev set : (ℕ → Caller) → ℕ → Caller → ℕ → Caller
set callers k c i = if eqb i k then c else callers i

abbrev pub turn : ℕ × Answer → System → System
turn (k, answer) s =
    let next = advance_sqn answer (s.callers k) s.document in
    record {
      callers = set s.callers k next.0;
      document = next.1;
      issued = given_out (s.callers k) next.0 s.issued;
    }

abbrev pub run : List (ℕ × Answer) → System → System
run [] s = s
run (t ∷ ts) s = run ts (turn t s)

abbrev pub initial : ℕ → System
initial sqn = record { callers = λ k. first_attempt; document = some sqn; issued = [] }

-- The number after n updates.
abbrev nth_sqn : ℕ → ℕ → ℕ
nth_sqn first n = (first + k_sqn_step * n) % 2 ^ 48

-- The numbers given out were replaced one after the other, in at most n updates.
IsChain : ℕ → ℕ → List ℕ → Type 0
IsChain first n [] = Unit
IsChain first n (x ∷ xs) = (m : ℕ) × (m < n) × (x ≡ nth_sqn first m) × IsChain first m xs

IsReached : ℕ → ℕ → System → Type 0
IsReached first bound s =
    (n : ℕ) × (n ≤ bound) × (s.document ≡ some (nth_sqn first n)) × IsChain first n s.issued

next_nth : (first n : ℕ) → next_sqn (nth_sqn first n) k_sqn_step ≡ nth_sqn first (suc n)
unfolding next_sqn
next_nth first n = omega arith

replaced : (x : ℕ) → replace x (some x) ≡ some (next_sqn x k_sqn_step)
replaced x = ground (arith, eqb_iff x x)

later-IsChain : (first n : ℕ) (xs : List ℕ) → IsChain first n xs → IsChain first (suc n) xs
unfolding IsChain
later-IsChain first n [] h = tt
later-IsChain first n (x ∷ xs) (m, lt, e, h) = (m, omega arith, e, h)

-- An update that is made is the next one; any other leaves the number.
replace-cases :
    (first n old : ℕ)
    → ((old ≡ nth_sqn first n)
        × (replace old (some (nth_sqn first n)) ≡ some (nth_sqn first (suc n))))
      ⊎ ((eqb (nth_sqn first n) old ≡ false)
          × (replace old (some (nth_sqn first n)) ≡ some (nth_sqn first n)))
replace-cases first n old = elim (Bool-cases (eqb (nth_sqn first n) old)) [
  | inl e ↦ inl (ground (arith, e), ground (arith, e, next_nth first n))
  | inr e ↦ inr (e, ground (arith, e))
]

-- Two outcomes of an update that is answered.
update-cases :
    (left old sqn : ℕ)
    → ((old ≡ sqn)
        × (advance_sqn done (updating left old) (some sqn)
            ≡ (returned (ok old), some (next_sqn old k_sqn_step))))
      ⊎ (advance_sqn done (updating left old) (some sqn) ≡ (retry left, some sqn))
unfolding advance_sqn
update-cases left old sqn = elim (Bool-cases (eqb sqn old)) [
  | inl e ↦ inl (ground (arith, e), ground (arith, e))
  | inr e ↦ inr (ground (arith, e))
]

retry-nothing :
    (left old : ℕ) (issued : List ℕ) → given_out (updating left old) (retry left) issued ≡ issued
unfolding retry
retry-nothing zero old issued = refl
retry-nothing (suc left) old issued = refl

Follows : ℕ → ℕ → Caller → List ℕ → Caller × Option ℕ → Type 0
Follows first n caller issued next =
    (m : ℕ) × (m ≤ suc n)
    × (next.1 ≡ some (nth_sqn first m))
    × IsChain first m (given_out caller next.0 issued)

advance_sqn-Follows :
    (first n : ℕ) (answer : Answer) (caller : Caller) (issued : List ℕ)
    → IsChain first n issued
    → Follows first n caller issued (advance_sqn answer caller (some (nth_sqn first n)))
unfolding advance_sqn IsChain Follows
advance_sqn-Follows first n answer (returned r) issued h = (n, omega arith, refl, h)
advance_sqn-Follows first n done (reading left) issued h = (n, omega arith, refl, h)
advance_sqn-Follows first n (failed e) (reading left) issued h = (n, omega arith, refl, h)
advance_sqn-Follows first n (made e) (reading left) issued h = (n, omega arith, refl, h)
advance_sqn-Follows first n (failed e) (updating left old) issued h = (n, omega arith, refl, h)
advance_sqn-Follows first n (made e) (updating left old) issued h =
    elim (replace-cases first n old) [
      | inl (same, e) ↦ (suc n, omega arith, e, later-IsChain first n issued h)
      | inr (other, e) ↦ (n, omega arith, e, h)
    ]
advance_sqn-Follows first n done (updating left old) issued h =
    elim (update-cases left old (nth_sqn first n)) [
      | inl (same, e) ↦
          rw e (suc n, omega arith, rw same (ap some (next_nth first n)), (n, omega arith, same, h))
      | inr e ↦ rw e (n, omega arith, refl, rw (retry-nothing left old issued) h)
    ]

turn-IsReached :
    (first bound : ℕ) (t : ℕ × Answer) (s : System)
    → IsReached first bound s
    → IsReached first (suc bound) (turn t s)
unfolding IsReached Follows
turn-IsReached first bound (k, answer) s (n, small, here, chain) =
    let (m, le, at, follows) = advance_sqn-Follows first n answer (s.callers k) s.issued chain in
    (m, omega arith, rw here at, rw here follows)

run-IsReached :
    (first bound : ℕ) (ts : List (ℕ × Answer)) (s : System)
    → IsReached first bound s
    → IsReached first (length ts + bound) (run ts s)
run-IsReached first bound [] s h =
    let e : bound ≡ 0 + bound = omega arith in subst (λ b. IsReached first b s) e h
run-IsReached first bound (t ∷ ts) s h =
    let e : length ts + suc bound ≡ suc (length ts) + bound = omega arith in
    subst (λ b. IsReached first b (run (t ∷ ts) s)) e
      (run-IsReached first (suc bound) ts (turn t s) (turn-IsReached first bound t s h))

abbrev pub IsDistinct : List ℕ → Type 0
IsDistinct [] = Unit
IsDistinct (x ∷ xs) = All (λ y. x ≢ y) xs × IsDistinct xs

-- 2^43 steps of 32 do not come back to the first number.
differ : (first m n : ℕ) → m < n → n < 2 ^ 43 → nth_sqn first n ≢ nth_sqn first m
differ first m n lt small = λ e. omega arith

IsChain-All :
    (first n m : ℕ) (xs : List ℕ)
    → n < 2 ^ 43
    → m ≤ n
    → IsChain first m xs
    → All (λ y. nth_sqn first n ≢ y) xs
unfolding IsChain
IsChain-All first n m [] small le h = tt
IsChain-All first n m (x ∷ xs) small le (i, lt, e, h) =
    (rw e (differ first i n (omega arith) small), IsChain-All first n i xs small (omega arith) h)

IsChain-IsDistinct : (first n : ℕ) (xs : List ℕ) → n ≤ 2 ^ 43 → IsChain first n xs → IsDistinct xs
unfolding IsChain
IsChain-IsDistinct first n [] small h = tt
IsChain-IsDistinct first n (x ∷ xs) small (i, lt, e, h) = (
  rw e (IsChain-All first i i xs (omega arith) (omega arith) h),
  IsChain-IsDistinct first i xs (omega arith) h,
)

-- However the queries and updates of any number of callers of advanceSqn interleave, and whichever
-- of them meet an error, made or not, no two calls return the same sequence number, where there are
-- at most 2^43 turns.
pub run-IsDistinct :
    (first : ℕ) (ts : List (ℕ × Answer))
    → first < 2 ^ 48
    → length ts ≤ 2 ^ 43
    → IsDistinct (run ts (initial first)).issued
unfolding IsReached IsChain
run-IsDistinct first ts bound short =
    let begin : first ≡ nth_sqn first 0 = omega arith in
    let (n, le, at, chain) =
      run-IsReached first 0 ts (initial first) (0, omega arith, ap some begin, tt) in
    IsChain-IsDistinct first n (run ts (initial first)).issued (omega arith) chain

-- The calls of the database that a caller may still make.
calls_left : Caller → ℕ
calls_left (reading left) = 2 * left + 2
calls_left (updating left old) = 2 * left + 1
calls_left (returned r) = 0

advance_sqn-calls_left :
    (answer : Answer) (caller : Caller) (document : Option ℕ)
    → calls_left (advance_sqn answer caller document).0 ≤ calls_left caller - 1
unfolding calls_left advance_sqn retry
advance_sqn-calls_left answer caller document = ground arith

abbrev pub turns_of : ℕ → List (ℕ × Answer) → ℕ
turns_of k [] = 0
turns_of k ((i, answer) ∷ ts) = let rest = turns_of k ts in if eqb k i then suc rest else rest

run-calls_left :
    (k : ℕ) (ts : List (ℕ × Answer)) (s : System)
    → calls_left ((run ts s).callers k) ≤ calls_left (s.callers k) - turns_of k ts
run-calls_left k [] s = omega arith
run-calls_left k ((i, answer) ∷ ts) s = elim (ℕ_discrete k i) [
  | yes e ↦ ground (
    arith,
    e,
    run-calls_left k ts (turn (i, answer) s),
    advance_sqn-calls_left answer (s.callers i) s.document,
  )
  | no ne ↦ ground (arith, ne, run-calls_left k ts (turn (i, answer) s))
]

-- A caller that has had ten turns has returned, whatever the others do between them: five attempts
-- of two calls each are enough.
pub run-returned :
    (k first : ℕ) (ts : List (ℕ × Answer))
    → 10 ≤ turns_of k ts
    → (r : Result ℕ) × ((run ts (initial first)).callers k ≡ returned r)
unfolding calls_left
run-returned k first ts enough =
    let left = run-calls_left k ts (initial first) in
    none_left ((run ts (initial first)).callers k) (omega arith)
  where
    none_left : (c : Caller) → calls_left c ≤ 0 → (r : Result ℕ) × (c ≡ returned r)
    none_left (returned r) h = (r, refl)
    none_left (reading left) h = absurd (omega arith)
    none_left (updating left old) h = absurd (omega arith)
