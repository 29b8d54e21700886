-- ===== src/Bencode/Parse.antt =====
-- BencodeParser of rtp/bencode.cpp. The fuel bounds the depth and the number of elements.
use sim_ims.Prelude.{
  ℕ, zero, suc, ◌+◌, Bool, true, false, ◌&&◌, ◌||◌, [], ◌∷◌, length, drop, ltb, eqb, ◌++◌,
  if◌then◌else◌,
}
use sim_ims.Prelude.Text.{Text, codes}
use sim_ims.Bencode.{
  Value, text, list, dict, Values, no_values, item, Entries, no_entries, entry, Parsed, parsed,
  throws, out_of_fuel, is_digit, parse_string, parse_integer,
}

-- std::string's order
unfoldable pub text_lt : Text → Text → Bool
text_lt s [] = false
text_lt [] (d ∷ t) = true
text_lt (c ∷ s) (d ∷ t) = ltb c d || (eqb c d && text_lt s t)

-- dict[k] = v
unfoldable pub insert_entry : Text → Value → Entries → Entries
unfolding text_lt
insert_entry k v no_entries = entry k v no_entries
insert_entry k v (entry j w es) =
    let rest = insert_entry k v es in
    if text_lt k j
    then entry k v (entry j w es)
    else if text_lt j k
    then entry j w rest
    else entry k v es

abbrev pub then_parse {ℓ κ} : {A : Type ℓ} {B : Type κ} → Parsed A → (A → ℕ → Parsed B) → Parsed B
then_parse (parsed a next) f = f a next
then_parse (throws e) f = throws e
then_parse out_of_fuel f = out_of_fuel

-- A key must be a string.
abbrev pub with_key {κ} : {B : Type κ} → Value → (Text → Parsed B) → Parsed B
with_key (text k) f = f k
with_key _ f = throws (codes "Dict key must be a string")

unfoldable mutual
  unfolding parse_string parse_integer insert_entry

  pub parse : ℕ → Text → ℕ → Parsed Value
  parse zero bytes at = out_of_fuel
  parse (suc fuel) bytes at =
      let items = parse_items fuel bytes (at + 1) in
      let entries = parse_entries fuel bytes (at + 1) no_entries in
      elim (drop at bytes) [
        | [] ↦ throws (codes "Unexpected end of bencode data")
        | c ∷ cs ↦
            if eqb c 105
            then parse_integer bytes (at + 1)
            else if eqb c 108
            then then_parse items (λ vs next. parsed (list vs) next)
            else if eqb c 100
            then then_parse entries (λ es next. parsed (dict es) next)
            else if is_digit c
            then parse_string bytes at
            else throws (codes "Unexpected character in bencode: '" ++ c ∷ codes "'")
      ]

  pub parse_items : ℕ → Text → ℕ → Parsed Values
  parse_items zero bytes at = out_of_fuel
  parse_items (suc fuel) bytes at =
      let more =
        then_parse (parse fuel bytes at)
          (λ v next. then_parse (parse_items fuel bytes next) (λ vs end. parsed (item v vs) end)) in
      elim (drop at bytes) [
        | [] ↦ throws (codes "Missing 'e' in bencode list")
        | c ∷ cs ↦ if eqb c 101 then parsed no_values (at + 1) else more
      ]

  pub parse_entries : ℕ → Text → ℕ → Entries → Parsed Entries
  parse_entries zero bytes at es = out_of_fuel
  parse_entries (suc fuel) bytes at es =
      let more = then_parse (parse fuel bytes at) (λ key next. with_key key (λ k.
        then_parse (parse fuel bytes next)
          (λ v end. parse_entries fuel bytes end (insert_entry k v es)))) in
      elim (drop at bytes) [
        | [] ↦ throws (codes "Missing 'e' in bencode dict")
        | c ∷ cs ↦ if eqb c 101 then parsed es (at + 1) else more
      ]

-- Every value takes at least one byte, and so does the end of a list.
unfoldable pub bencode_decode : Text → Parsed Value
unfolding parse
bencode_decode bytes = parse (suc (length bytes)) bytes 0
