-- ===== src/Aka/Hex.antt =====
-- The sequence number, printed as hex digits and read as bytes.
use sim_ims.Prelude.{
  ℕ, zero, suc, ◌+◌, ◌*◌, ◌/◌, ◌%◌, ◌<◌, ◌≡◌, refl, ◌∙◌, ap, some, [], ◌∷◌, arith, length, is_empty,
  false,
}
use sim_ims.Prelude.Text.{Text}
use sim_ims.Common.{ok}
use sim_ims.Aka.{hex_value, hex_digit, hex_digits, parse_pairs, parse_hex_exact}

-- The n bytes of a number, the highest first, before other bytes.
abbrev pub big_endian : ℕ → ℕ → Text → Text
big_endian zero x rest = rest
big_endian (suc n) x rest = big_endian n (x / 256) ((x % 256) ∷ rest)

abbrev double : ℕ → ℕ
double zero = zero
double (suc n) = suc (suc (double n))

hex_value-hex_digit : (d : ℕ) → d < 16 → hex_value (hex_digit d) ≡ some d
unfolding hex_value
hex_value-hex_digit d small = ground (arith, small)

parse_pairs-hex_digits :
    (n x : ℕ) (rest out : Text)
    → parse_pairs rest ≡ some out
    → parse_pairs (hex_digits (double n) x rest) ≡ some (big_endian n x out)
unfolding parse_pairs hex_digits
parse_pairs-hex_digits zero x rest out h = h
parse_pairs-hex_digits (suc n) x rest out h =
    let high = hex_value-hex_digit (x / 16 % 16) (omega arith) in
    let low = hex_value-hex_digit (x % 16) (omega arith) in
    let pair : x / 16 % 16 * 16 + x % 16 ≡ x % 256 = omega arith in
    let quotient : x / 16 / 16 ≡ x / 256 = omega arith in
    let here : parse_pairs (hex_digit (x / 16 % 16) ∷ hex_digit (x % 16) ∷ rest)
        ≡ some ((x % 256) ∷ out) =
      ground (arith, high, low, pair, h) in
    let digits = hex_digit (x / 16 % 16) ∷ hex_digit (x % 16) ∷ rest in
    ap (λ q. parse_pairs (hex_digits (double n) q digits)) quotient
    ∙ parse_pairs-hex_digits n (x / 256) digits ((x % 256) ∷ out) here

length-hex_digits : (n x : ℕ) (rest : Text) → length (hex_digits n x rest) ≡ n + length rest
unfolding hex_digits
length-hex_digits zero x rest = omega arith
length-hex_digits (suc n) x rest =
    omega (arith, length-hex_digits n (x / 16) (hex_digit (x % 16) ∷ rest))

-- Twelve digits are read as the six bytes of the number.
pub parse_hex_exact-hex_digits :
    (x : ℕ) (name : Text) → parse_hex_exact 6 (hex_digits 12 x []) name ≡ ok (big_endian 6 x [])
unfolding parse_hex_exact
parse_hex_exact-hex_digits x name =
    let size = length-hex_digits 12 x [] in
    let read = parse_pairs-hex_digits 6 x [] [] refl in ground (arith, size, read)

pub hex_digits-is_empty : (x : ℕ) → is_empty (hex_digits 12 x []) ≡ false
unfolding hex_digits
hex_digits-is_empty x = refl
