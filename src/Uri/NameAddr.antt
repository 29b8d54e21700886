-- ===== src/Uri/NameAddr.antt =====
-- What `extract_uri_from_name_addr` takes out of a name-addr.
use mathlib.Core.List.{reverse, reverse-append, reverse-cons, reverse-reverse, append_assoc}
use sim_ims.Prelude.{
  ℕ, suc, ◌+◌, ◌-◌, ◌≡◌, refl, sym, ap, ◌∙◌, Bool, true, false, not, ◌||◌, some, [], ◌∷◌, ◌++◌,
  arith, eqb, any, take, drop, length, is_empty, ◌==◌,
}
use sim_ims.Prelude.Text.{Text, codes, find_byte, text_instance}
use sim_ims.Uri.{is_space, trim_start, trim, find_from, bracketed, extract_uri_from_name_addr}

-- The byte does not occur.
abbrev pub is_free : ℕ → Text → Bool
is_free c s = not (any (λ a. eqb a c) s)

trim_start-append :
    (pre s : Text) (c : ℕ)
    → is_space c ≡ false
    → trim_start (pre ++ c ∷ s) ≡ trim_start pre ++ c ∷ s
unfolding trim_start
trim_start-append [] s c h = rw h
trim_start-append (a ∷ pre) s c h = ground (arith, trim_start-append pre s c h)

is_free-trim_start : (c : ℕ) (s : Text) → is_free c s ≡ true → is_free c (trim_start s) ≡ true
unfolding trim_start
is_free-trim_start c [] h = refl
is_free-trim_start c (a ∷ s) h = ground (arith, is_free-trim_start c s)

find_byte-append :
    (c : ℕ) (pre s : Text) → is_free c pre ≡ true → find_byte c (pre ++ c ∷ s) ≡ some (length pre)
find_byte-append c [] s h = ground arith
find_byte-append c (a ∷ pre) s h = ground (arith, find_byte-append c pre s)

drop-append : (pre s : Text) → drop (length pre) (pre ++ s) ≡ s
drop-append [] s = refl
drop-append (a ∷ pre) s = drop-append pre s

pub take-append : (pre s : Text) → take (length pre) (pre ++ s) ≡ pre
take-append [] s = refl
take-append (a ∷ pre) s = ap (◌∷◌ a) (take-append pre s)

drop_past : (pre s : Text) (c : ℕ) → drop (length pre + 1) (pre ++ c ∷ s) ≡ s
drop_past pre s c = let e : length pre + 1 ≡ suc (length pre) = omega arith in rw e (go pre)
  where
    go : (p : Text) → drop (suc (length p)) (p ++ c ∷ s) ≡ s
    go [] = refl
    go (a ∷ p) = go p

reverse_middle : (p r : Text) (c : ℕ) → reverse (p ++ c ∷ r) ≡ reverse r ++ c ∷ reverse p
reverse_middle p r c = simp (reverse-append, reverse-cons, append_assoc)

trim_end : Text → Text
trim_end s = reverse (trim_start (reverse s))

trim_angle :
    (d u rest : Text)
    → trim (d ++ b'<' ∷ (u ++ b'>' ∷ rest)) ≡ trim_start d ++ b'<' ∷ (u ++ b'>' ∷ trim_end rest)
unfolding trim trim_end is_space
trim_angle d u rest =
    let p = trim_start d ++ b'<' ∷ u in
    let regroup : (t : Text) → trim_start d ++ b'<' ∷ (u ++ b'>' ∷ t) ≡ p ++ b'>' ∷ t =
      λ t. sym (append_assoc (trim_start d) (b'<' ∷ u) (b'>' ∷ t)) in
    ap (λ t. reverse (trim_start (reverse t)))
      (trim_start-append d (u ++ b'>' ∷ rest) b'<' refl ∙ regroup rest)
    ∙ ap (λ t. reverse (trim_start t)) (reverse_middle p rest b'>')
    ∙ ap reverse (trim_start-append (reverse rest) (reverse p) b'>' refl)
    ∙ reverse_middle (trim_start (reverse rest)) (reverse p) b'>'
    ∙ ap (λ t. t ++ b'>' ∷ reverse (trim_start (reverse rest))) (reverse-reverse p)
    ∙ sym (regroup (reverse (trim_start (reverse rest))))

find_end :
    (d u tail : Text)
    → is_free b'>' u ≡ true
    → find_from b'>' (length d + 1) (d ++ b'<' ∷ (u ++ b'>' ∷ tail))
      ≡ some (length d + 1 + length u)
unfolding find_from
find_end d u tail fu =
    let past = drop_past d (u ++ b'>' ∷ tail) b'<' in
    rw (ap (find_byte b'>') past ∙ find_byte-append b'>' u tail fu, find_from)

inside :
    (d u tail : Text)
    → bracketed (d ++ b'<' ∷ (u ++ b'>' ∷ tail)) (some (length d)) (some (length d + 1 + length u))
      ≡ u
unfolding bracketed
inside d u tail =
    let size : length d + 1 + length u - length d - 1 ≡ length u = omega arith in
    ground (
      arith,
      ap (take (length u)) (drop_past d (u ++ b'>' ∷ tail) b'<') ∙ take-append u (b'>' ∷ tail),
      ap (λ n. take n (drop (length d + 1) (d ++ b'<' ∷ (u ++ b'>' ∷ tail)))) size,
    )

not_bare : (d s : Text) → (is_empty (d ++ b'<' ∷ s) || (d ++ b'<' ∷ s) == codes "*") ≡ false
not_bare [] s = refl
not_bare (a ∷ []) s = ground arith
not_bare (a ∷ b ∷ d) s = ground arith

-- From a name-addr, with any display name that has no `<` and any parameters, the URI between the
-- angle brackets is taken as it stands.
pub extract-name_addr :
    (display uri params : Text)
    → is_free b'<' display ≡ true
    → is_free b'>' uri ≡ true
    → extract_uri_from_name_addr (display ++ b'<' ∷ (uri ++ b'>' ∷ params)) ≡ uri
unfolding extract_uri_from_name_addr
extract-name_addr display uri params fd fu =
    let d = trim_start display in
    let tail = trim_end params in
    let start = find_byte-append b'<' d (uri ++ b'>' ∷ tail) (is_free-trim_start b'<' display fd) in
    rw (trim_angle display uri params) (
      rw (start, not_bare d (uri ++ b'>' ∷ tail)) (rw (find_end d uri tail fu) (inside d uri tail)))
