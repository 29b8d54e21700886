-- ===== src/Bencode/Dispatch.antt =====
-- Which parser the byte at a position leads to.
use mathlib.Core.List.{append_assoc}
use sim_ims.Prelude.{
  ℕ, zero, suc, ◌+◌, ◌^◌, ◌≤◌, ◌<◌, ◌≡◌, refl, ◌∙◌, ap, Bool, true, false, not, [], ◌∷◌, ◌++◌,
  length, length-append, drop, arith, eqb,
}
use sim_ims.Prelude.Text.{Text}
use sim_ims.Bencode.{
  Value, text, integer, list, dict, item, Entries, no_entries, parsed, starts_with_digit, decimal,
  encode_text, bencode_encode, parse_string, parse_integer,
}
use sim_ims.Bencode.Decimal.{decimal-starts}
use sim_ims.Bencode.Positions.{drop_past}
use sim_ims.Bencode.Strings.{parse_string-encode_text}
use sim_ims.Bencode.Parse.{parse, parse_items, parse_entries, then_parse, with_key, insert_entry}

-- Not the end of a list or dictionary.
abbrev pub starts_value : Text → Bool
starts_value [] = false
starts_value (c ∷ cs) = not (eqb c 101)

digit_starts : (s rest : Text) → starts_with_digit s ≡ true → starts_value (s ++ rest) ≡ true
digit_starts [] rest digit = ground (arith, digit)
digit_starts (c ∷ s) rest digit = ground (arith, digit)

pub encode_text-starts : (s : Text) → starts_value (encode_text s) ≡ true
unfolding encode_text
encode_text-starts s = digit_starts (decimal (length s)) (58 ∷ s) (decimal-starts (length s))

pub encode-starts : (v : Value) → starts_value (bencode_encode v) ≡ true
unfolding bencode_encode
encode-starts (text s) = encode_text-starts s
encode-starts (integer i) = refl
encode-starts (list vs) = refl
encode-starts (dict es) = refl

pub nonempty : (s : Text) → starts_value s ≡ true → 1 ≤ length s
nonempty [] starts = ground (arith, starts)
nonempty (c ∷ s) starts = omega arith

-- At a digit, a string is parsed.
at_digit :
    (fuel : ℕ) (bytes : Text) (at : ℕ) (ds rest : Text)
    → starts_with_digit ds ≡ true
    → drop at bytes ≡ ds ++ rest
    → parse (suc fuel) bytes at ≡ parse_string bytes at
unfolding parse
at_digit fuel bytes at [] rest digit here = ground (arith, digit)
at_digit fuel bytes at (d ∷ ds) rest digit here = ground (arith, digit, here)

pub parse-text :
    (fuel : ℕ) (bytes : Text) (at : ℕ) (s rest : Text)
    → length bytes < 2 ^ 64
    → drop at bytes ≡ encode_text s ++ rest
    → parse (suc fuel) bytes at ≡ parsed (text s) (at + length (encode_text s))
unfolding encode_text
parse-text fuel bytes at s rest small here =
    at_digit fuel bytes at (decimal (length s)) (58 ∷ s ++ rest) (decimal-starts (length s))
      (here ∙ append_assoc (decimal (length s)) (58 ∷ s) rest)
    ∙ parse_string-encode_text bytes at s rest small here

pub parse_key :
    (fuel : ℕ) (bytes : Text) (at : ℕ) (s rest : Text)
    → 1 ≤ fuel
    → length bytes < 2 ^ 64
    → drop at bytes ≡ encode_text s ++ rest
    → parse fuel bytes at ≡ parsed (text s) (at + length (encode_text s))
parse_key zero bytes at s rest some_fuel small here = ground (arith, some_fuel)
parse_key (suc fuel) bytes at s rest some_fuel small here =
    parse-text fuel bytes at s rest small here

pub more_items :
    (fuel : ℕ) (bytes : Text) (at : ℕ) (xs rest : Text)
    → starts_value xs ≡ true
    → drop at bytes ≡ xs ++ rest
    → parse_items (suc fuel) bytes at
      ≡ then_parse
          (parse fuel bytes at)
          (λ v next. then_parse (parse_items fuel bytes next) (λ vs end. parsed (item v vs) end))
unfolding parse
more_items fuel bytes at [] rest starts here = ground (arith, starts)
more_items fuel bytes at (c ∷ xs) rest starts here = ground (arith, starts, here)

pub more_entries :
    (fuel : ℕ) (bytes : Text) (at : ℕ) (xs rest : Text) (es : Entries)
    → starts_value xs ≡ true
    → drop at bytes ≡ xs ++ rest
    → parse_entries (suc fuel) bytes at es
      ≡ then_parse (parse fuel bytes at) (λ key next. with_key key (λ k.
        then_parse
          (parse fuel bytes next)
          (λ v end. parse_entries fuel bytes end (insert_entry k v es))))
unfolding parse
more_entries fuel bytes at [] rest es starts here = ground (arith, starts)
more_entries fuel bytes at (c ∷ xs) rest es starts here = ground (arith, starts, here)

-- Between a byte and the closing 'e'.
pub inside :
    (bytes : Text) (at c : ℕ) (xs rest : Text)
    → drop at bytes ≡ (c ∷ xs ++ 101 ∷ []) ++ rest
    → drop (at + 1) bytes ≡ xs ++ 101 ∷ rest
inside bytes at c xs rest here =
    drop_past at bytes (c ∷ []) (xs ++ 101 ∷ rest)
      (here ∙ ap (λ s. c ∷ s) (append_assoc xs (101 ∷ []) rest))

pub closed : (at : ℕ) (xs : Text) → at + 1 + length xs + 1 ≡ at + suc (length (xs ++ 101 ∷ []))
closed at xs = let sum = length-append xs (101 ∷ []) in omega (arith, sum)

pub at_integer :
    (fuel : ℕ) (bytes : Text) (at : ℕ) (xs : Text)
    → drop at bytes ≡ 105 ∷ xs
    → parse (suc fuel) bytes at ≡ parse_integer bytes (at + 1)
unfolding parse
at_integer fuel bytes at xs here = ground (arith, here)

pub at_list :
    (fuel : ℕ) (bytes : Text) (at : ℕ) (xs : Text)
    → drop at bytes ≡ 108 ∷ xs
    → parse (suc fuel) bytes at
      ≡ then_parse (parse_items fuel bytes (at + 1)) (λ vs next. parsed (list vs) next)
unfolding parse
at_list fuel bytes at xs here = ground (arith, here)

pub at_dict :
    (fuel : ℕ) (bytes : Text) (at : ℕ) (xs : Text)
    → drop at bytes ≡ 100 ∷ xs
    → parse (suc fuel) bytes at
      ≡ then_parse (parse_entries fuel bytes (at + 1) no_entries) (λ es next. parsed (dict es) next)
unfolding parse
at_dict fuel bytes at xs here = ground (arith, here)
