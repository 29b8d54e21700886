-- ===== src/Auth/Base64.antt =====
-- Base64: what is encoded is decoded.
use sim_ims.Prelude.{
  ℕ, zero, suc, ◌+◌, ◌*◌, ◌/◌, ◌%◌, ◌<◌, ◌≡◌, refl, ap, Bool, true, false, ◌&&◌, [], ◌∷◌, All,
  arith, eqb, if◌then◌else◌,
}
use sim_ims.Prelude.Text.{Text}
use sim_ims.Auth.{base64_char, base64_value, base64_encode, base64_decode, word}

-- A digit is read back, and is no padding.
abbrev is_read : ℕ → Bool
is_read d =
    eqb (base64_value (base64_char d)) d && (if eqb (base64_char d) b'=' then false else true)

read_up_to : ℕ → Bool
read_up_to zero = true
read_up_to (suc count) = read_up_to count && is_read count

all_read : read_up_to 64 ≡ true
unfolding read_up_to base64_value base64_char
all_read = refl

read_at : (d count : ℕ) → read_up_to count ≡ true → d < count → is_read d ≡ true
unfolding read_up_to
read_at d zero checked small = absurd (omega arith)
read_at d (suc count) checked small = ground (arith, read_at d count)

reduced : (n : ℕ) → base64_char n ≡ base64_char (n % 64)
unfolding base64_char
reduced n = ground arith

digit : (n : ℕ) → base64_value (base64_char n) ≡ n % 64
digit n = let read = read_at (n % 64) 64 all_read (omega arith) in ground (arith, read, reduced n)

no_pad : (n : ℕ) → eqb (base64_char n) b'=' ≡ false
no_pad n = let read = read_at (n % 64) 64 all_read (omega arith) in ground (arith, read, reduced n)

abbrev pub IsByte : ℕ → Type 0
IsByte b = b < 256

-- Four digits of a word are read as the word.
four :
    (a b c : ℕ)
    → a < 256
    → b < 256
    → c < 256
    → let n = word a b c in
      base64_value (base64_char (n / 262144)) * 262144
        + base64_value (base64_char (n / 4096)) * 4096
        + base64_value (base64_char (n / 64)) * 64
        + base64_value (base64_char n)
      ≡ n
four a b c p q r =
    let n = word a b c in
    omega (arith, digit (n / 262144), digit (n / 4096), digit (n / 64), digit n)

-- For every list of bytes.
pub base64_decode-base64_encode :
    (bs : Text) → All IsByte bs → base64_decode (base64_encode bs) ≡ bs
unfolding base64_decode base64_encode
base64_decode-base64_encode [] h = refl
base64_decode-base64_encode (a ∷ []) (p, h) =
    let n = word a 0 0 in
    let first : (base64_value (base64_char (n / 262144)) * 262144
            + base64_value (base64_char (n / 4096)) * 4096
            + 0
            + 0)
          / 65536
          % 256
        ≡ a =
      omega (arith, digit (n / 262144), digit (n / 4096)) in
    ap (λ x. x ∷ []) first
base64_decode-base64_encode (a ∷ b ∷ []) (p, (q, h)) =
    let n = word a b 0 in
    let read : base64_value (base64_char (n / 262144)) * 262144
          + base64_value (base64_char (n / 4096)) * 4096
          + base64_value (base64_char (n / 64)) * 64
          + 0
        ≡ n =
      omega (arith, digit (n / 262144), digit (n / 4096), digit (n / 64)) in
    let high : n / 65536 % 256 ≡ a = omega arith in
    let middle : n / 256 % 256 ≡ b = omega arith in
    ground (arith, read, high, middle, no_pad (n / 64))
base64_decode-base64_encode (a ∷ b ∷ c ∷ rest) (p, (q, (r, h))) =
    let n = word a b c in
    let read = four a b c p q r in
    let high : n / 65536 % 256 ≡ a = omega arith in
    let middle : n / 256 % 256 ≡ b = omega arith in
    let low : n % 256 ≡ c = omega arith in
    ground (
      arith,
      read,
      high,
      middle,
      low,
      no_pad (n / 64),
      no_pad n,
      base64_decode-base64_encode rest h,
    )
