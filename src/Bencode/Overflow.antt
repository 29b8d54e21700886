-- ===== src/Bencode/Overflow.antt =====
-- The check of a string's length against the data.
use sim_ims.Prelude.{
  ℕ, zero, suc, ◌+◌, ◌-◌, ◌^◌, ◌≤◌, ◌<◌, ◌≡◌, refl, ap, [], ◌∷◌, length, take, drop, arith,
}
use sim_ims.Prelude.Text.{Text}
use sim_ims.Bencode.{text, parsed, wrap, parse_bytes}

take_all : (n : ℕ) (s : Text) → length s ≤ n → take n s ≡ s
take_all zero [] fits = refl
take_all zero (c ∷ s) fits = ground (arith, fits)
take_all (suc n) [] fits = refl
take_all (suc n) (c ∷ s) fits = ap (λ t. c ∷ t) (take_all n s (omega (arith, fits)))

length-drop-le : (n : ℕ) (s : Text) → length (drop n s) ≤ length s
length-drop-le zero s = omega arith
length-drop-le (suc n) [] = omega arith
length-drop-le (suc n) (c ∷ s) = let rest = length-drop-le n s in omega (arith, rest)

-- A length that takes the position past 2^64 passes the check, though the data is shorter: the
-- string is what is left of the data, and the position goes back, before that string.
pub parse_bytes-overflow :
    (bytes : Text) (at len : ℕ)
    → at ≤ length bytes
    → length bytes < 2 ^ 63
    → len < 2 ^ 64
    → 2 ^ 64 ≤ at + len
    → (parse_bytes bytes at len ≡ parsed (text (drop at bytes)) (at + len - 2 ^ 64))
      × (at + len - 2 ^ 64 < at)
unfolding parse_bytes
parse_bytes-overflow bytes at len inside small size over =
    let back : wrap (at + len) ≡ at + len - 2 ^ 64 = omega (arith, size, over, small, inside) in
    let before_at : at + len - 2 ^ 64 < at = omega (arith, size, over) in
    let shorter = length-drop-le at bytes in
    let all = take_all len (drop at bytes) (omega (arith, shorter, over, inside, small)) in
    (rw (back, all) ground (arith, before_at, inside), before_at)
