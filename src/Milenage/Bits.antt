-- ===== src/Milenage/Bits.antt =====
-- Exclusive or of numbers: it undoes itself.
use Prim.Native.Nat.{bit_xor, bit_xor-bitwise, differ, digits}
use sim_ims.Prelude.{
  ℕ, zero, suc, ◌+◌, ◌*◌, ◌/◌, ◌%◌, ◌≤◌, ◌<◌, ◌≡◌, refl, sym, ◌∙◌, ℕ_discrete, arith,
}

pub zero-bit_xor : (y : ℕ) → bit_xor 0 y ≡ y
zero-bit_xor y = bit_xor-bitwise 0 y

differ_zero : (y : ℕ) → differ 0 y ≡ y
differ_zero y = refl

abbrev fueled : ℕ → ℕ → ℕ → ℕ
fueled = digits (λ d. d) differ

-- Fuel past the size of the first number is not used.
one_more : (fuel x y : ℕ) → x ≤ fuel → fueled (suc fuel) x y ≡ fueled fuel x y
one_more zero zero y small = refl
one_more (suc fuel) zero y small = refl
one_more zero (suc x) y small = absurd (omega arith)
one_more (suc fuel) (suc x) y small = omega (arith, one_more fuel (suc x / 2) (y / 2) (omega arith))

settled : (fuel x y : ℕ) → x ≤ fuel → fueled fuel x y ≡ bit_xor x y
settled zero zero y small = sym (zero-bit_xor y)
settled zero (suc x) y small = absurd (omega arith)
settled (suc fuel) x y small = elim (ℕ_discrete x (suc fuel)) [
  | yes e ↦ rw e (sym (bit_xor-bitwise (suc fuel) y))
  | no ne ↦ one_more fuel x y (omega arith) ∙ settled fuel x y (omega arith)
]

-- The law of the lowest digit.
bit_xor_step : (x y : ℕ) → bit_xor x y ≡ bit_xor (x / 2) (y / 2) * 2 + differ (x % 2) (y % 2)
bit_xor_step zero y = omega (arith, zero-bit_xor y, zero-bit_xor (y / 2), differ_zero (y % 2))
bit_xor_step (suc x) y =
    let halves = settled x (suc x / 2) (y / 2) (omega arith) in
    let all_digits = bit_xor-bitwise (suc x) y in omega (arith, halves, all_digits)

differ_twice : (x y : ℕ) → x < 2 → y < 2 → differ (differ x y) y ≡ x
differ_twice zero zero h k = refl
differ_twice zero (suc zero) h k = refl
differ_twice (suc zero) zero h k = refl
differ_twice (suc zero) (suc zero) h k = refl
differ_twice (suc (suc x)) y h k = absurd (omega arith)
differ_twice zero (suc (suc y)) h k = absurd (omega arith)
differ_twice (suc zero) (suc (suc y)) h k = absurd (omega arith)

differ-lt : (x y : ℕ) → x < 2 → y < 2 → differ x y < 2
differ-lt zero y h k = k
differ-lt (suc zero) zero h k = omega arith
differ-lt (suc zero) (suc y) h k = omega arith
differ-lt (suc (suc x)) y h k = absurd (omega arith)

xor_twice_below : (n a b : ℕ) → a ≤ n → b ≤ n → bit_xor (bit_xor a b) b ≡ a
xor_twice_below zero a b p q =
    let none_a : a ≡ 0 = omega (arith, p) in
    let none_b : b ≡ 0 = omega (arith, q) in rw (none_a, none_b) refl
xor_twice_below (suc n) a b p q =
    let low = differ-lt (a % 2) (b % 2) (omega arith) (omega arith) in
    let ih = xor_twice_below n (a / 2) (b / 2) (omega arith) (omega arith) in
    let step = bit_xor_step a b in
    let twice = differ_twice (a % 2) (b % 2) (omega arith) (omega arith) in
    let x = bit_xor a b in
    let high : x / 2 ≡ bit_xor (a / 2) (b / 2) = omega (arith, step, low) in
    let bit : x % 2 ≡ differ (a % 2) (b % 2) = omega (arith, step, low) in
    let again = bit_xor_step x b in
    let high_part : bit_xor (x / 2) (b / 2) ≡ a / 2 = rw high ih in
    let low_part : differ (x % 2) (b % 2) ≡ a % 2 = rw bit twice in
    omega (arith, again, high_part, low_part)

-- Exclusive or by the same number twice changes nothing.
pub xor_twice : (a b : ℕ) → bit_xor (bit_xor a b) b ≡ a
xor_twice a b = xor_twice_below (a + b) a b (omega arith) (omega arith)
