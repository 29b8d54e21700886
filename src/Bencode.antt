-- ===== src/Bencode.antt =====
-- rtp/bencode.cpp: the encoding of the messages to RTPengine. A position is an index into the data;
-- positions and lengths wrap around at 2^64, as size_t does.
pub mod Parse
pub mod Decimal
pub mod Positions
pub mod Strings
pub mod Order
pub mod Dispatch
pub mod RoundTrip
pub mod Overflow
pub mod Examples
use sim_ims.Prelude.{
  ℕ, zero, suc, ◌+◌, ◌-◌, ◌*◌, ◌/◌, ◌%◌, ◌^◌, Bool, true, false, ◌&&◌, ◌||◌, Option, none, some,
  List, [], ◌∷◌, ◌++◌, length, take, drop, ltb, leb, eqb, if◌then◌else◌,
}
use sim_ims.Prelude.Text.{Text, codes}
use sim_ims.Uri.{is_space}

-- int64_t
pub data ℤ : Type 0 where
  pos : ℕ → ℤ
  negsuc : ℕ → ℤ

-- A dictionary lists its entries in the order of their keys, as std::map does.
mutual
  pub data Value : Type 0 where
    text : Text → Value
    integer : ℤ → Value
    list : Values → Value
    dict : Entries → Value

  pub data Values : Type 0 where
    no_values : Values
    item : Value → Values → Values

  pub data Entries : Type 0 where
    no_entries : Entries
    entry : Text → Value → Entries → Entries

-- The decimal digits of a number before a text; ten to the fuel is more than the number.
unfoldable pub digits : ℕ → ℕ → Text → Text
digits zero n rest = rest
digits (suc fuel) n rest =
    let more = digits fuel (n / 10) ((48 + n % 10) ∷ rest) in
    if ltb n 10 then (48 + n) ∷ rest else more

unfoldable pub decimal : ℕ → Text
unfolding digits
decimal n = digits (suc n) n []

unfoldable pub signed : ℤ → Text
unfolding decimal
signed (pos n) = decimal n
signed (negsuc n) = 45 ∷ decimal (suc n)

-- size ':' bytes
unfoldable pub encode_text : Text → Text
unfolding decimal
encode_text s = decimal (length s) ++ 58 ∷ s

unfoldable mutual
  unfolding encode_text signed

  pub bencode_encode : Value → Text
  bencode_encode (text s) = encode_text s
  bencode_encode (integer i) = 105 ∷ signed i ++ 101 ∷ []
  bencode_encode (list xs) = 108 ∷ encode_items xs ++ 101 ∷ []
  bencode_encode (dict es) = 100 ∷ encode_entries es ++ 101 ∷ []

  pub encode_items : Values → Text
  encode_items no_values = []
  encode_items (item v vs) = bencode_encode v ++ encode_items vs

  pub encode_entries : Entries → Text
  encode_entries no_entries = []
  encode_entries (entry k v es) = encode_text k ++ bencode_encode v ++ encode_entries es

-- A value and the position after it, an exception, or not enough fuel.
pub data Parsed {ℓ} (A : Type ℓ) : Type ℓ where
  parsed : A → ℕ → Parsed A
  throws : Text → Parsed A
  out_of_fuel : Parsed A

abbrev pub is_digit : ℕ → Bool
is_digit c = leb 48 c && leb c 57

-- The number that the digits at the start of a text continue.
unfoldable pub read_digits : ℕ → Text → ℕ
read_digits n [] = n
read_digits n (c ∷ cs) =
    let rest = read_digits (n * 10 + (c - 48)) cs in if is_digit c then rest else n

abbrev pub starts_with_digit : Text → Bool
starts_with_digit [] = false
starts_with_digit (c ∷ cs) = is_digit c

-- std::stoul of a text that starts with a digit
unfoldable pub stoul : Text → Option ℕ
unfolding read_digits
stoul s = let n = read_digits 0 s in if ltb n (2 ^ 64) then some n else none

-- A sign was read: the number, if there is a digit and it is in range.
unfoldable pub in_range : Bool → Text → Option ℤ
unfolding read_digits
in_range negative s =
    let n = read_digits 0 s in
    if starts_with_digit s
    then (if negative
        then (if eqb n 0
            then some (pos 0)
            else if leb n (2 ^ 63)
            then some (negsuc (n - 1))
            else none)
        else if ltb n (2 ^ 63)
        then some (pos n)
        else none)
    else none

unfoldable pub signed_digits : Text → Option ℤ
unfolding in_range
signed_digits [] = none
signed_digits (c ∷ cs) =
    if eqb c 45
    then in_range true cs
    else if eqb c 43
    then in_range false cs
    else in_range false (c ∷ cs)

-- std::stoll: spaces, a sign, digits
unfoldable pub stoll : Text → Option ℤ
unfolding signed_digits
stoll [] = none
stoll (c ∷ cs) = let rest = stoll cs in if is_space c then rest else signed_digits (c ∷ cs)

-- data.find(c, pos), from the text at pos: what stands before c
unfoldable pub before : ℕ → Text → Option Text
before c [] = none
before c (d ∷ ds) =
    let rest = before c ds in
    if eqb d c then some [] else elim rest [ none ↦ none | some xs ↦ some (d ∷ xs) ]

abbrev pub wrap : ℕ → ℕ
wrap n = n % 2 ^ 64

-- The bytes of a string, at the position after its colon.
unfoldable pub parse_bytes : Text → ℕ → ℕ → Parsed Value
parse_bytes bytes at len =
    if ltb (length bytes) (wrap (at + len))
    then throws (codes "String length exceeds data")
    else parsed (text (take len (drop at bytes))) (wrap (at + len))

unfoldable pub parse_string : Text → ℕ → Parsed Value
unfolding before stoul parse_bytes
parse_string bytes at = elim (before 58 (drop at bytes)) [
  | none ↦ throws (codes "Missing colon in bencode string")
  | some ds ↦ elim (stoul ds) [
    | none ↦ throws (codes "stoul")
    | some len ↦ parse_bytes bytes (at + length ds + 1) len
  ]
]

-- Past the 'i'.
unfoldable pub parse_integer : Text → ℕ → Parsed Value
unfolding before stoll
parse_integer bytes at = elim (before 101 (drop at bytes)) [
  | none ↦ throws (codes "Missing 'e' in bencode integer")
  | some ds ↦ elim (stoll ds) [
    | none ↦ throws (codes "stoll")
    | some i ↦ parsed (integer i) (at + length ds + 1)
  ]
]
