-- ===== src/Prelude/Text.antt =====
-- std::string as the list of its bytes, with the searches that the sources use.
use Prim.Native.Nat.{ℕ, suc}
use Prim.Native.Char.{code}
use Prim.Native.String.{String}
use mathlib.Core.Path.{◌≡◌, refl}
use mathlib.Core.Logic.{◌↔◌}
use mathlib.Core.Bool.{Bool, true, false, ◌&&◌}
use mathlib.Core.List.{List, [], ◌∷◌}
use mathlib.Core.Option.{Option, none, some}
use native.Mathlib.Omega.{arith}
use sim_ims.Prelude.Tests.{eqb, eqb_iff, KeyType, if◌then◌else◌}

abbrev pub Text : Type 0
Text = List ℕ

-- The bytes of a literal; the program's literals are ASCII.
abbrev pub codes : String → Text
codes String.[] = []
codes (String.◌∷◌ c s) = code c ∷ codes s

abbrev pub text_eq : Text → Text → Bool
text_eq [] [] = true
text_eq [] (b ∷ t) = false
text_eq (a ∷ s) [] = false
text_eq (a ∷ s) (b ∷ t) = eqb a b && text_eq s t

pub text_eq_iff : (s t : Text) → (text_eq s t ≡ true) ↔ (s ≡ t)
text_eq_iff [] [] = ((λ _. refl), (λ _. refl))
text_eq_iff [] (b ∷ t) = ((λ h. cc), (λ h. cc))
text_eq_iff (a ∷ s) [] = ((λ h. cc), (λ h. cc))
text_eq_iff (a ∷ s) (b ∷ t) =
    ((λ h. ground (arith, text_eq_iff s t)), (λ h. ground (arith, text_eq_iff s t)))

instance abbrev pub nat_eq : KeyType ℕ
nat_eq = record { same = eqb; same_iff = eqb_iff }

instance abbrev pub text_instance : KeyType Text
text_instance = record { same = text_eq; same_iff = text_eq_iff }

-- s.rfind(prefix, 0) == 0
abbrev pub starts_with : Text → Text → Bool
starts_with s [] = true
starts_with [] (b ∷ p) = false
starts_with (a ∷ s) (b ∷ p) = eqb a b && starts_with s p

-- s.find(c): the index of the first byte `c`.
abbrev pub find_byte : ℕ → Text → Option ℕ
find_byte c [] = none
find_byte c (a ∷ s) =
    let rest = find_byte c s in
    if eqb a c then some 0 else elim rest [ none ↦ none | some i ↦ some (suc i) ]
