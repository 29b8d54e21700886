-- ===== src/Bencode/Decimal.antt =====
-- Decimal numbers: what is printed is read back.
use sim_ims.Prelude.{
  ℕ, zero, suc, ◌+◌, ◌/◌, ◌%◌, ◌^◌, ◌≤◌, ◌<◌, ◌≡◌, refl, inl, inr, true, false, some, [], ◌∷◌, ◌++◌,
  all, arith, ltb, Bool-cases,
}
use sim_ims.Prelude.Text.{Text}
use sim_ims.Uri.{is_space}
use sim_ims.Bencode.{
  digits, decimal, read_digits, is_digit, starts_with_digit, before, ℤ, pos, negsuc, signed, stoul,
  stoll, in_range,
}

read_digits-digits :
    (fuel n : ℕ) (rest : Text) → n < fuel → read_digits 0 (digits fuel n rest) ≡ read_digits n rest
unfolding read_digits digits
read_digits-digits zero n rest enough = ground (arith, enough)
read_digits-digits (suc fuel) n rest enough = elim (Bool-cases (ltb n 10)) [
  | inl small ↦ ground (arith, enough, small)
  | inr large ↦
      let big : 10 ≤ n = ground (arith, large) in
      let more =
        read_digits-digits fuel (n / 10) ((48 + n % 10) ∷ rest) (omega (arith, enough, big)) in
      ground (arith, enough, large, more)
]

digits-all :
    (fuel n : ℕ) (rest : Text) → all is_digit rest ≡ true → all is_digit (digits fuel n rest) ≡ true
unfolding digits
digits-all zero n rest h = h
digits-all (suc fuel) n rest h =
    let digit : is_digit (48 + n % 10) ≡ true = ground arith in
    let more = digits-all fuel (n / 10) ((48 + n % 10) ∷ rest) (ground (arith, h, digit)) in
    ground (arith, h, more)

digits-starts :
    (fuel n : ℕ) (rest : Text)
    → starts_with_digit rest ≡ true
    → starts_with_digit (digits fuel n rest) ≡ true
unfolding digits
digits-starts zero n rest h = h
digits-starts (suc fuel) n rest h =
    let digit : is_digit (48 + n % 10) ≡ true = ground arith in
    let more = digits-starts fuel (n / 10) ((48 + n % 10) ∷ rest) digit in ground (arith, h, more)

pub decimal-all : (n : ℕ) → all is_digit (decimal n) ≡ true
unfolding decimal
decimal-all n = digits-all (suc n) n [] refl

pub decimal-starts : (n : ℕ) → starts_with_digit (decimal n) ≡ true
unfolding digits decimal
decimal-starts n =
    let digit : is_digit (48 + n % 10) ≡ true = ground arith in
    let more = digits-starts n (n / 10) ((48 + n % 10) ∷ []) digit in ground (arith, more)

-- What is printed is read back.
pub read_digits-decimal : (n : ℕ) → read_digits 0 (decimal n) ≡ n
unfolding decimal read_digits
read_digits-decimal n = read_digits-digits (suc n) n [] (omega arith)

-- A byte that is no digit is first found after the digits.
pub before-digits :
    (c : ℕ) (ds rest : Text)
    → is_digit c ≡ false
    → all is_digit ds ≡ true
    → before c (ds ++ c ∷ rest) ≡ some ds
unfolding before
before-digits c [] rest stop h = ground arith
before-digits c (d ∷ ds) rest stop h =
    let more = before-digits c ds rest stop (ground (arith, h)) in ground (arith, stop, h, more)

pub stoul-decimal : (n : ℕ) → n < 2 ^ 64 → stoul (decimal n) ≡ some n
unfolding stoul
stoul-decimal n small = let back = read_digits-decimal n in ground (arith, small, back)

unsigned : (s : Text) → starts_with_digit s ≡ true → stoll s ≡ in_range false s
unfolding stoll is_space
unsigned [] digit = ground (arith, digit)
unsigned (c ∷ cs) digit = ground (arith, digit)

-- int64_t
abbrev pub IsInt64 : ℤ → Type 0
IsInt64 (pos n) = n < 2 ^ 63
IsInt64 (negsuc n) = n < 2 ^ 63

pub stoll-signed : (i : ℤ) → IsInt64 i → stoll (signed i) ≡ some i
unfolding stoll in_range signed is_space
stoll-signed (pos n) small =
    let back = read_digits-decimal n in
    let digit = decimal-starts n in ground (arith, unsigned (decimal n) digit, back, digit, small)
stoll-signed (negsuc n) small =
    let back = read_digits-decimal (suc n) in
    let digit = decimal-starts (suc n) in ground (arith, back, digit, small)
