-- ===== src/Auth/Header.antt =====
-- The Authorization header that a client sends, and what the parser reads in it.
use sim_ims.Prelude.{
  ℕ, ◌-◌, ◌≡◌, refl, ap, sym, ◌∙◌, Bool, true, false, not, ◌&&◌, [], ◌∷◌, ◌++◌, arith, all, eqb,
  take, is_empty, length, length-append,
}
use mathlib.Core.List.{append_assoc, append-nil, reverse, reverse-append, reverse-reverse}
use sim_ims.Prelude.Text.{Text, codes, text_instance}
use sim_ims.Common.{ok}
use sim_ims.Uri.NameAddr.{take-append}
use sim_ims.Uri.{is_space, trim, trim_start, to_lower}
use sim_ims.Auth.{
  DigestAuthFields, no_fields, with_username, read_token, read_trimmed, read_tokens, trim_quotes,
  ends_with_quote, parse_digest_authorization, after_word,
}

-- No comma stands in a text.
abbrev pub is_plain : Text → Bool
is_plain t = all (λ c. not (eqb c b',')) t

-- A token: a name with its quote, a value, a quote.
abbrev pub token : Text → Text → Text
token name value = name ++ (value ++ b'"' ∷ [])

-- A header with quoted values; the last token names the algorithm.
abbrev pub authorization : Text → Text → Text → Text → Text → Text
authorization username realm nonce uri response =
    codes "Digest "
    ++ (token (codes "username=\"") username
        ++ b','
          ∷ (token (codes " realm=\"") realm
              ++ b','
                ∷ (token (codes " nonce=\"") nonce
                    ++ b','
                      ∷ (token (codes " uri=\"") uri
                          ++ b','
                            ∷ (token (codes " response=\"") response
                                ++ b',' ∷ codes " algorithm=AKAv1-MD5")))))

read_one :
    (t current rest : Text) (f : DigestAuthFields)
    → is_plain t ≡ true
    → read_tokens (t ++ b',' ∷ rest) current f ≡ read_tokens rest [] (read_token (current ++ t) f)
unfolding read_tokens
read_one [] current rest f h =
    ap (λ t. read_tokens rest [] (read_token t f)) (sym (append-nil current))
read_one (c ∷ t) current rest f h =
    let later = read_one t (current ++ c ∷ []) rest f in
    let same = append_assoc current (c ∷ []) t in ground (arith, h, later, same)

read_last :
    (t current : Text) (f : DigestAuthFields)
    → is_plain t ≡ true
    → read_tokens t current f ≡ read_token (current ++ t) f
unfolding read_tokens
read_last [] current f h = ap (λ t. read_token t f) (sym (append-nil current))
read_last (c ∷ t) current f h =
    let later = read_last t (current ++ c ∷ []) f in
    let same = append_assoc current (c ∷ []) t in ground (arith, h, later, same)

-- No space is taken off after a quote.
quote_end : (t : Text) → reverse (trim_start (reverse (t ++ b'"' ∷ []))) ≡ t ++ b'"' ∷ []
unfolding trim_start is_space
quote_end t =
    rw (reverse-append t (b'"' ∷ []))
      (ap (λ r. reverse r) (sym (reverse-append t (b'"' ∷ []))) ∙ reverse-reverse (t ++ b'"' ∷ []))

ends : (t : Text) → ends_with_quote (t ++ b'"' ∷ []) ≡ true
ends [] = refl
ends (c ∷ []) = refl
ends (c ∷ d ∷ t) = ends (d ∷ t)

unquoted : (v : Text) → trim_quotes (trim (b'"' ∷ (v ++ b'"' ∷ []))) ≡ v
unfolding trim trim_start is_space
unquoted v =
    let closed = quote_end (b'"' ∷ v) in
    let size = length-append v (b'"' ∷ []) in
    let inner : take (length (b'"' ∷ (v ++ b'"' ∷ [])) - 2) (v ++ b'"' ∷ []) ≡ v =
      ap (λ n. take n (v ++ b'"' ∷ [])) (omega (arith, size)) ∙ take-append v (b'"' ∷ []) in
    let ended = ends (b'"' ∷ v) in rw closed (ground (arith, size, ended, inner))

read_username :
    (v : Text) (f : DigestAuthFields)
    → read_token (token (codes "username=\"") v) f ≡ record f { username = v }
unfolding read_token trim trim_start is_space to_lower
read_username v f =
    ap (λ t. read_trimmed t f) (quote_end (codes "username=\"" ++ v))
    ∙ ap (λ w. record f { username = w }) (unquoted v)

read_realm :
    (v : Text) (f : DigestAuthFields)
    → read_token (token (codes " realm=\"") v) f ≡ record f { realm = v }
unfolding read_token trim trim_start is_space to_lower
read_realm v f =
    ap (λ t. read_trimmed t f) (quote_end (codes "realm=\"" ++ v))
    ∙ ap (λ w. record f { realm = w }) (unquoted v)

read_nonce :
    (v : Text) (f : DigestAuthFields)
    → read_token (token (codes " nonce=\"") v) f ≡ record f { nonce = v }
unfolding read_token trim trim_start is_space to_lower
read_nonce v f =
    ap (λ t. read_trimmed t f) (quote_end (codes "nonce=\"" ++ v))
    ∙ ap (λ w. record f { nonce = w }) (unquoted v)

read_uri :
    (v : Text) (f : DigestAuthFields)
    → read_token (token (codes " uri=\"") v) f ≡ record f { uri = v }
unfolding read_token trim trim_start is_space to_lower
read_uri v f =
    ap (λ t. read_trimmed t f) (quote_end (codes "uri=\"" ++ v))
    ∙ ap (λ w. record f { uri = w }) (unquoted v)

read_response :
    (v : Text) (f : DigestAuthFields)
    → read_token (token (codes " response=\"") v) f ≡ record f { response = v }
unfolding read_token trim trim_start is_space to_lower
read_response v f =
    ap (λ t. read_trimmed t f) (quote_end (codes "response=\"" ++ v))
    ∙ ap (λ w. record f { response = w }) (unquoted v)

all-append : (p : ℕ → Bool) (s t : Text) → all p (s ++ t) ≡ (all p s && all p t)
all-append p [] t = refl
all-append p (c ∷ s) t = ground (arith, all-append p s t)

plain_token :
    (name v : Text) → is_plain name ≡ true → is_plain v ≡ true → is_plain (token name v) ≡ true
plain_token name v h k =
    let p : ℕ → Bool = λ c. not (eqb c b',') in
    ground (arith, h, k, all-append p name (v ++ b'"' ∷ []), all-append p v (b'"' ∷ []))

next :
    (t rest : Text) (f g : DigestAuthFields)
    → is_plain t ≡ true
    → read_token t f ≡ g
    → read_tokens (t ++ b',' ∷ rest) [] f ≡ read_tokens rest [] g
next t rest f g plain read = read_one t [] rest f plain ∙ ap (λ h. read_tokens rest [] h) read

-- What is read of a header.
abbrev pub fields_of : Text → Text → Text → Text → Text → DigestAuthFields
fields_of username realm nonce uri response = record {
  username = username;
  realm = realm;
  nonce = nonce;
  response = response;
  uri = uri;
  algorithm = codes "AKAv1-MD5";
  qop = [];
  nc = [];
  cnonce = [];
}

-- A header with values that hold no comma, and a user name, is read as these values.
pub parse_digest_authorization-authorization :
    (username realm nonce uri response : Text)
    → is_empty username ≡ false
    → is_plain username ≡ true
    → is_plain realm ≡ true
    → is_plain nonce ≡ true
    → is_plain uri ≡ true
    → is_plain response ≡ true
    → parse_digest_authorization (authorization username realm nonce uri response)
      ≡ ok (fields_of username realm nonce uri response)
unfolding parse_digest_authorization after_word read_tokens read_token trim trim_start is_space
    to_lower
parse_digest_authorization-authorization username realm nonce uri response named p q r s t =
    let at_end = codes " algorithm=AKAv1-MD5" in
    let after_uri = token (codes " response=\"") response ++ b',' ∷ at_end in
    let after_nonce = token (codes " uri=\"") uri ++ b',' ∷ after_uri in
    let after_realm = token (codes " nonce=\"") nonce ++ b',' ∷ after_nonce in
    let after_name = token (codes " realm=\"") realm ++ b',' ∷ after_realm in
    let one = record no_fields { username = username } in
    let two = record one { realm = realm } in
    let three = record two { nonce = nonce } in
    let four = record three { uri = uri } in
    let five = record four { response = response } in
    let read =
      next (token (codes "username=\"") username) after_name no_fields one
        (plain_token (codes "username=\"") username refl p) (read_username username no_fields)
      ∙ next (token (codes " realm=\"") realm) after_realm one two
          (plain_token (codes " realm=\"") realm refl q) (read_realm realm one)
      ∙ next (token (codes " nonce=\"") nonce) after_nonce two three
          (plain_token (codes " nonce=\"") nonce refl r) (read_nonce nonce two)
      ∙ next (token (codes " uri=\"") uri) after_uri three four
          (plain_token (codes " uri=\"") uri refl s) (read_uri uri three)
      ∙ next (token (codes " response=\"") response) at_end four five
          (plain_token (codes " response=\"") response refl t) (read_response response four) in
    ap with_username read ∙ rw named refl
