-- ===== src/Bencode/Strings.antt =====
-- Strings and integers that stand in the data are read as they were written.
use mathlib.Core.List.{append_assoc}
use sim_ims.Prelude.{
  ℕ, suc, ◌+◌, ◌^◌, ◌≤◌, ◌<◌, ◌≡◌, refl, ◌∙◌, some, [], ◌∷◌, ◌++◌, length, length-append, drop,
  arith,
}
use sim_ims.Prelude.Text.{Text}
use sim_ims.Bencode.{
  text, integer, parsed, before, signed, decimal, ℤ, pos, negsuc, wrap, encode_text, parse_string,
  parse_integer, parse_bytes,
}
use sim_ims.Bencode.Decimal.{decimal-all, before-digits, stoul-decimal, stoll-signed, IsInt64}
use sim_ims.Bencode.Positions.{take-length, drop_past, position_end}

parse_bytes-text :
    (bytes : Text) (at : ℕ) (s rest : Text)
    → length bytes < 2 ^ 64
    → at + length s ≤ length bytes
    → drop at bytes ≡ s ++ rest
    → parse_bytes bytes at (length s) ≡ parsed (text s) (at + length s)
unfolding parse_bytes
parse_bytes-text bytes at s rest small fits here =
    let wraps : wrap (at + length s) ≡ at + length s = omega (arith, small, fits) in
    let taken = take-length s rest in rw (wraps, here, taken) ground (arith, fits)

-- A position that is followed by a byte is in the data.
fits :
    (at : ℕ) (bytes xs : Text) (c : ℕ) (rest : Text)
    → drop at bytes ≡ xs ++ c ∷ rest
    → at + length xs + 1 + length rest ≡ length bytes
fits at bytes xs c rest here =
    let there = drop_past at bytes xs (c ∷ rest) here in
    let end = position_end (at + length xs) bytes c rest there in omega (arith, end)

-- A string that stands at a position.
pub parse_string-encode_text :
    (bytes : Text) (at : ℕ) (s rest : Text)
    → length bytes < 2 ^ 64
    → drop at bytes ≡ encode_text s ++ rest
    → parse_string bytes at ≡ parsed (text s) (at + length (encode_text s))
unfolding parse_string encode_text
parse_string-encode_text bytes at s rest small here =
    let ds = decimal (length s) in
    let apart = here ∙ append_assoc ds (58 ∷ s) rest in
    let found = before-digits 58 ds (s ++ rest) refl (decimal-all (length s)) in
    let total = fits at bytes ds 58 (s ++ rest) apart in
    let sum = length-append s rest in
    let len = length-append ds (58 ∷ s) in
    let read = stoul-decimal (length s) (omega (arith, total, sum, small)) in
    let there =
      drop_past (at + length ds) bytes (58 ∷ []) (s ++ rest)
        (drop_past at bytes ds (58 ∷ s ++ rest) apart) in
    let body =
      parse_bytes-text bytes (at + length ds + 1) s rest small (omega (arith, total, sum)) there in
    let first : before 58 (drop at bytes) ≡ some ds = rw apart found in
    ground (arith, first, read, body, len)

before-signed : (i : ℤ) (rest : Text) → before 101 (signed i ++ 101 ∷ rest) ≡ some (signed i)
unfolding signed before
before-signed (pos n) rest = before-digits 101 (decimal n) rest refl (decimal-all n)
before-signed (negsuc n) rest =
    let digits = before-digits 101 (decimal (suc n)) rest refl (decimal-all (suc n)) in
    ground (arith, digits)

pub parse_integer-signed :
    (bytes : Text) (at : ℕ) (i : ℤ) (rest : Text)
    → IsInt64 i
    → drop at bytes ≡ signed i ++ 101 ∷ rest
    → parse_integer bytes at ≡ parsed (integer i) (at + length (signed i) + 1)
unfolding parse_integer
parse_integer-signed bytes at i rest small here =
    let first : before 101 (drop at bytes) ≡ some (signed i) = rw here (before-signed i rest) in
    ground (arith, first, stoll-signed i small)
