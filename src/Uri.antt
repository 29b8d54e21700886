-- ===== src/Uri.antt =====
-- sip/uri_utils.cpp: the text of a URI inside a name-addr header value. Parsing of the URI itself is
-- osip's, and is not modelled here.
pub mod NameAddr
pub mod Endpoints
use sim_ims.Prelude.{
  ◌≡◌, refl, ℕ, suc, ◌+◌, ◌-◌, Bool, ◌&&◌, ◌||◌, Option, none, some, [], ◌∷◌, leb, eqb, ltb, take,
  drop, is_empty, if◌then◌else◌, map, ◌==◌,
}
use sim_ims.Prelude.Text.{Text, codes, starts_with, find_byte, text_instance}
use mathlib.Core.List.{reverse}

-- std::isspace in the C locale
unfoldable pub is_space : ℕ → Bool
is_space c = eqb c 32 || (leb 9 c && leb c 13)

-- std::tolower in the C locale
unfoldable pub to_lower : ℕ → ℕ
to_lower c = if leb b'A' c && leb c b'Z' then c + 32 else c

abbrev pub lowercase : Text → Text
lowercase = map to_lower

unfoldable pub trim_start : Text → Text
trim_start [] = []
trim_start (c ∷ s) = let rest = trim_start s in if is_space c then rest else c ∷ s

unfoldable pub trim : Text → Text
unfolding trim_start is_space
trim value = reverse (trim_start (reverse (trim_start value)))

-- `trimmed.find('>', from)`, as an index from the start of the text
unfoldable pub find_from : ℕ → ℕ → Text → Option ℕ
find_from c from s = elim (find_byte c (drop from s)) [ none ↦ none | some i ↦ some (from + i) ]

-- s.substr(pos, len)
abbrev pub substr : Text → ℕ → ℕ → Text
substr s pos len = take len (drop pos s)

tel_scheme_only : Text → Text
unfolding to_lower
tel_scheme_only trimmed =
    if starts_with (lowercase trimmed) (codes "tel:")
    then elim (find_byte b';' trimmed) [ none ↦ trimmed | some semi ↦ substr trimmed 0 semi ]
    else trimmed

-- The part between the angle brackets, where both are there in this order.
unfoldable pub bracketed : Text → Option ℕ → Option ℕ → Text
unfolding tel_scheme_only
bracketed trimmed (some start) (some end) =
    if ltb start end then substr trimmed (start + 1) (end - start - 1) else tel_scheme_only trimmed
bracketed trimmed _ _ = tel_scheme_only trimmed

abbrev pub after_start : Option ℕ → ℕ
after_start none = 0
after_start (some start) = start + 1

unfoldable pub extract_uri_from_name_addr : Text → Text
unfolding trim bracketed find_from
extract_uri_from_name_addr value =
    let trimmed = trim value in
    let angle_start = find_byte b'<' trimmed in
    if is_empty trimmed || trimmed == codes "*"
    then trimmed
    else bracketed trimmed angle_start (find_from b'>' (after_start angle_start) trimmed)

angle_test : extract_uri_from_name_addr (codes " \"A\" <sip:a@b>;tag=1 ") ≡ codes "sip:a@b"
unfolding extract_uri_from_name_addr
angle_test = refl

tel_test : extract_uri_from_name_addr (codes "TEL:+86;phone-context=x") ≡ codes "TEL:+86"
unfolding extract_uri_from_name_addr
tel_test = refl
