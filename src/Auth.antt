-- ===== src/Auth.antt =====
-- s-cscf/auth_manager.cpp, and parse_digest_authorization of sip/uri_utils.cpp: challenges and the
-- verification of answers to them. The hash is a parameter; its digest is written in hex.
pub mod Base64
pub mod Header
pub mod Answer
pub mod Examples
use sim_ims.Prelude.{
  ℕ, suc, ◌+◌, ◌-◌, ◌*◌, ◌/◌, ◌%◌, Bool, true, false, not, ◌&&◌, ◌||◌, Option, none, some, List, [],
  ◌∷◌, ◌++◌, leb, eqb, is_empty, length, drop, if◌then◌else◌, ◌==◌,
}
use sim_ims.Prelude.Text.{Text, codes, starts_with, find_byte, text_instance}
use sim_ims.Common.{Result, ok, err, ErrorInfo, k_sip_parse_error}
use sim_ims.Uri.{lowercase, trim, substr}
use sim_ims.Milenage.Rijndael.{nth}
use sim_ims.Aka.{AuthVector}

abbrev k_base64_chars : Text
k_base64_chars = codes "ABCDEFGHIJKLMNOPQRSTUVWXYZabcdefghijklmnopqrstuvwxyz0123456789+/"

unfoldable pub base64_char : ℕ → ℕ
base64_char n = nth k_base64_chars (n % 64)

-- Bytes are below 256, so that the shifted bytes are added.
abbrev pub word : ℕ → ℕ → ℕ → ℕ
word a b c = a * 65536 + b * 256 + c

unfoldable pub base64_encode : Text → Text
unfolding base64_char
base64_encode [] = []
base64_encode (a ∷ []) =
    let n = word a 0 0 in base64_char (n / 262144) ∷ base64_char (n / 4096) ∷ b'=' ∷ b'=' ∷ []
base64_encode (a ∷ b ∷ []) =
    let n = word a b 0 in
    base64_char (n / 262144) ∷ base64_char (n / 4096) ∷ base64_char (n / 64) ∷ b'=' ∷ []
base64_encode (a ∷ b ∷ c ∷ rest) =
    let n = word a b c in
    base64_char (n / 262144)
    ∷ base64_char (n / 4096)
    ∷ base64_char (n / 64)
    ∷ base64_char n
    ∷ base64_encode rest

unfoldable pub base64_value : ℕ → ℕ
base64_value c =
    if leb b'A' c && leb c b'Z'
    then c - b'A'
    else if leb b'a' c && leb c b'z'
    then c - b'a' + 26
    else if leb b'0' c && leb c b'9'
    then c - b'0' + 52
    else if eqb c b'+'
    then 62
    else if eqb c b'/'
    then 63
    else 0

abbrev push_unless_pad : ℕ → ℕ → Text → Text
push_unless_pad c byte rest = if eqb c b'=' then rest else byte ∷ rest

unfoldable pub base64_decode : Text → Text
unfolding base64_value
base64_decode (w ∷ x ∷ y ∷ z ∷ rest) =
    let n =
      base64_value w * 262144 + base64_value x * 4096 + base64_value y * 64 + base64_value z in
    let others = base64_decode rest in
    (n / 65536 % 256) ∷ push_unless_pad y (n / 256 % 256) (push_unless_pad z (n % 256) others)
base64_decode _ = []

pub record DigestAuthFields : Type 0 where
  pub username : Text
  pub realm : Text
  pub nonce : Text
  pub response : Text
  pub uri : Text
  pub algorithm : Text
  pub qop : Text
  pub nc : Text
  pub cnonce : Text

abbrev pub no_fields : DigestAuthFields
no_fields = record {
  username = [];
  realm = [];
  nonce = [];
  response = [];
  uri = [];
  algorithm = [];
  qop = [];
  nc = [];
  cnonce = [];
}

abbrev pub ends_with_quote : Text → Bool
ends_with_quote [] = false
ends_with_quote (c ∷ []) = eqb c b'"'
ends_with_quote (c ∷ d ∷ cs) = ends_with_quote (d ∷ cs)

abbrev pub trim_quotes : Text → Text
trim_quotes value =
    if leb 2 (length value) && starts_with value (codes "\"") && ends_with_quote value
    then substr value 1 (length value - 2)
    else value

abbrev pub set_field : Text → Text → DigestAuthFields → DigestAuthFields
set_field key value f =
    if key == codes "username"
    then record f { username = value }
    else if key == codes "realm"
    then record f { realm = value }
    else if key == codes "nonce"
    then record f { nonce = value }
    else if key == codes "response"
    then record f { response = value }
    else if key == codes "uri"
    then record f { uri = value }
    else if key == codes "algorithm"
    then record f { algorithm = value }
    else if key == codes "qop"
    then record f { qop = value }
    else if key == codes "nc"
    then record f { nc = value }
    else if key == codes "cnonce"
    then record f { cnonce = value }
    else f

abbrev pub read_trimmed : Text → DigestAuthFields → DigestAuthFields
read_trimmed trimmed f = elim (find_byte b'=' trimmed) [
  | none ↦ f
  | some at ↦
      set_field (lowercase (trim (substr trimmed 0 at)))
        (trim_quotes (trim (drop (suc at) trimmed))) f
]

unfoldable pub read_token : Text → DigestAuthFields → DigestAuthFields
unfolding trim
read_token token f = read_trimmed (trim token) f

-- std::getline at commas; `current` is a token so far.
unfoldable pub read_tokens : Text → Text → DigestAuthFields → DigestAuthFields
unfolding read_token
read_tokens [] current f = read_token current f
read_tokens (c ∷ cs) current f =
    let next = read_tokens cs [] (read_token current f) in
    let more = read_tokens cs (current ++ c ∷ []) f in if eqb c b',' then next else more

-- header.find(word): what stands after the first of it
unfoldable pub after_word : Text → Text → Option Text
after_word word [] = if is_empty word then some [] else none
after_word word (c ∷ cs) =
    let later = after_word word cs in
    if starts_with (c ∷ cs) word then some (drop (length word) (c ∷ cs)) else later

abbrev first_found : Option Text → Option Text → Option Text
first_found none t = t
first_found (some s) t = some s

abbrev parse_error : Text → ErrorInfo
parse_error message = record { code = k_sip_parse_error; message = message; detail = [] }

abbrev pub with_username : DigestAuthFields → Result DigestAuthFields
with_username f =
    if is_empty f.username
    then err (parse_error (codes "Missing username in Authorization header"))
    else ok f

unfoldable pub parse_digest_authorization : Text → Result DigestAuthFields
unfolding read_tokens after_word
parse_digest_authorization header =
    elim (first_found (after_word (codes "Digest ") header) (after_word (codes "digest ") header)) [
      | none ↦ err (parse_error (codes "Missing Digest scheme in Authorization header"))
      | some fields ↦ with_username (read_tokens fields [] no_fields)
    ]

abbrev quoted : Text → Text
quoted t = codes "\"" ++ t ++ codes "\""

abbrev pub k_aka_scheme : Text
k_aka_scheme = codes "AKAv1-MD5"

-- The nonce of a vector for a scheme.
abbrev pub aka_nonce : AuthVector → Text
aka_nonce av = base64_encode (av.rand ++ av.autn)

unfoldable pub build_digest_challenge : Text → Text → Text
build_digest_challenge realm nonce =
    codes "Digest realm="
    ++ quoted realm
    ++ codes ", domain="
    ++ quoted (codes "sip:" ++ realm)
    ++ codes ", nonce="
    ++ quoted nonce
    ++ codes ", algorithm=MD5, qop=\"auth\", stale=FALSE"

unfoldable pub build_challenge : AuthVector → Text → Text → Text
unfolding base64_encode build_digest_challenge
build_challenge av realm scheme =
    if scheme == codes "Digest-MD5"
    then build_digest_challenge realm (base64_encode av.rand)
    else codes "Digest realm="
      ++ quoted realm
      ++ codes ", nonce="
      ++ quoted (aka_nonce av)
      ++ codes ", algorithm=AKAv1-MD5, qop=\"auth\""

-- The parts of a hash input, with colons between them.
abbrev pub colons : Text → List Text → Text
colons a [] = a
colons a (b ∷ rest) = a ++ b':' ∷ colons b rest

module _ (md5_hex : Text → Text) where
  abbrev pub expected_response : DigestAuthFields → Text → Text → Text
  expected_response f method secret =
      let ha1 = md5_hex (colons f.username (f.realm ∷ secret ∷ [])) in
      let ha2 = md5_hex (colons method (f.uri ∷ [])) in
      if is_empty f.qop
      then md5_hex (colons ha1 (f.nonce ∷ ha2 ∷ []))
      else md5_hex (colons ha1 (f.nonce ∷ f.nc ∷ f.cnonce ∷ f.qop ∷ ha2 ∷ []))

  -- What both verifications do once the nonce is known to be right.
  abbrev pub verify_fields : DigestAuthFields → Text → Text → Bool
  verify_fields f method secret =
      if not (is_empty f.qop) && (is_empty f.nc || is_empty f.cnonce)
      then false
      else lowercase f.response == lowercase (expected_response f method secret)

  abbrev pub expected_nonce : AuthVector → Text → Option Text
  expected_nonce av scheme =
      if scheme == codes "Digest-MD5"
      then some (base64_encode av.rand)
      else if scheme == codes "AKAv1-MD5" || scheme == codes "Digest-AKAv1-MD5"
      then some (aka_nonce av)
      else none

  abbrev pub verify_parsed : DigestAuthFields → AuthVector → Text → Text → Bool
  verify_parsed f av method scheme =
      if is_empty f.response || is_empty f.nonce || is_empty f.uri
      then false
      else elim (expected_nonce av scheme) [
        | none ↦ false
        | some nonce ↦ if f.nonce == nonce then verify_fields f method av.xres else false
      ]

  unfoldable pub verify_response : Text → AuthVector → Text → Text → Bool
  unfolding parse_digest_authorization base64_encode
  verify_response auth_header av method scheme = elim (parse_digest_authorization auth_header) [
    | err e ↦ false
    | ok f ↦ verify_parsed f av method scheme
  ]

  unfoldable pub verify_digest_password : Text → Text → Text → Text → Bool
  unfolding parse_digest_authorization
  verify_digest_password auth_header password method nonce =
      elim (parse_digest_authorization auth_header) [
        | err e ↦ false
        | ok f ↦
            if is_empty f.username || is_empty f.realm || is_empty f.uri || is_empty f.response
            then false
            else if f.nonce == nonce
            then verify_fields f method password
            else false
      ]
