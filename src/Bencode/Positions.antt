-- ===== src/Bencode/Positions.antt =====
-- Positions in the data that is parsed.
use sim_ims.Prelude.{
  ℕ, zero, suc, ◌+◌, ◌≡◌, refl, sym, ◌∙◌, ap, [], ◌∷◌, ◌++◌, length, take, drop, arith,
}
use sim_ims.Prelude.Text.{Text}

drop_none : (k : ℕ) → drop {A = ℕ} k [] ≡ []
drop_none zero = refl
drop_none (suc k) = refl

drop_add : (n k : ℕ) (s : Text) → drop (n + k) s ≡ drop k (drop n s)
drop_add zero k s = ap (λ n. drop n s) (omega arith)
drop_add (suc n) k [] = drop_none (suc n + k) ∙ sym (drop_none k)
drop_add (suc n) k (x ∷ s) =
    let sum : suc n + k ≡ suc (n + k) = omega arith in ap (λ m. drop m (x ∷ s)) sum ∙ drop_add n k s

drop-length : (xs rest : Text) → drop (length xs) (xs ++ rest) ≡ rest
drop-length [] rest = refl
drop-length (x ∷ xs) rest = drop-length xs rest

pub take-length : (xs rest : Text) → take (length xs) (xs ++ rest) ≡ xs
take-length [] rest = refl
take-length (x ∷ xs) rest = ap (λ ys. x ∷ ys) (take-length xs rest)

-- Past a prefix of what stands at a position.
pub drop_past :
    (at : ℕ) (bytes xs rest : Text)
    → drop at bytes ≡ xs ++ rest
    → drop (at + length xs) bytes ≡ rest
drop_past at bytes xs rest here =
    drop_add at (length xs) bytes ∙ ap (λ s. drop (length xs) s) here ∙ drop-length xs rest

pub position_end :
    (at : ℕ) (bytes : Text) (c : ℕ) (xs : Text)
    → drop at bytes ≡ c ∷ xs
    → at + suc (length xs) ≡ length bytes
position_end zero bytes c xs here = let size = ap (λ s. length s) here in omega (arith, size)
position_end (suc n) [] c xs here = ground (arith, here)
position_end (suc n) (b ∷ bytes) c xs here =
    let rest = position_end n bytes c xs here in omega (arith, rest)
