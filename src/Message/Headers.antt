-- ===== src/Message/Headers.antt =====
-- sip/message.cpp: header values by name, contacts, identities and the times of expiry.
use sim_ims.Prelude.{
  ℕ, zero, suc, ◌-◌, ◌%◌, ◌^◌, Bool, true, false, ◌&&◌, Option, none, some, List, [], ◌∷◌, ◌++◌,
  eqb, ltb, is_empty, if◌then◌else◌, drop, map, ◌==◌,
}
use sim_ims.Prelude.Text.{Text, codes, starts_with, text_instance}
use sim_ims.Common.{ok, err}
use sim_ims.Bencode.{read_digits, starts_with_digit}
use sim_ims.Uri.{is_space, lowercase, extract_uri_from_name_addr}
use sim_ims.Auth.{parse_digest_authorization, trim_quotes}
use sim_ims.Message.{SipMessage, Contact, Header}
use sim_ims.Message.Forwarding.{non_empty, routes, split_header_values}

-- Digits after a sign; a negated number wraps around.
unfoldable pub unsigned_digits : Bool → Text → Option ℕ
unfolding read_digits
unsigned_digits negative s =
    let n = read_digits 0 s in
    if starts_with_digit s && ltb n (2 ^ 64)
    then some (if negative then (2 ^ 64 - n) % 2 ^ 64 else n)
    else none

abbrev signed_or_not : ℕ → Text → Option ℕ
signed_or_not c cs =
    if eqb c b'-'
    then unsigned_digits true cs
    else if eqb c b'+'
    then unsigned_digits false cs
    else unsigned_digits false (c ∷ cs)

-- std::stoul; `none` is an exception
unfoldable pub strtoul : Text → Option ℕ
unfolding unsigned_digits is_space
strtoul [] = none
strtoul (c ∷ cs) = let rest = strtoul cs in if is_space c then rest else signed_or_not c cs

-- The conversion of the CSeq's number throws where there is none in its text.
unfoldable pub cseq_number : SipMessage → Option ℕ
unfolding strtoul
cseq_number m = elim m.cseq [
  | none ↦ some 0
  | some c ↦ elim c.number [
    | none ↦ some 0
    | some text ↦ elim (strtoul text) [ none ↦ none | some n ↦ some (n % 2 ^ 32) ]
  ]
]

unfoldable pub parse_uint_header : Text → Option ℕ
unfolding strtoul
parse_uint_header value = elim (strtoul value) [ none ↦ none | some n ↦ some (n % 2 ^ 32) ]

abbrev non_empties : List Text → List Text
non_empties [] = []
non_empties (t ∷ ts) = non_empty t (non_empties ts)

abbrev pub split_values : List Text → List Text
split_values [] = []
split_values (t ∷ ts) = split_header_values t ++ split_values ts

abbrev push_value : Option Text → List Text → List Text
push_value none ts = ts
push_value (some t) ts = t ∷ ts

abbrev some_text : Text → Option Text
some_text t = if is_empty t then none else some t

-- A URI as osip prints it, if that is no empty text.
abbrev printed : Option Text → Option Text
printed none = none
printed (some uri) = some_text uri

abbrev pub front : List Text → Option Text
front [] = none
front (t ∷ ts) = some t

-- What osip finds: `header_from` is osip_message_header_get_byname on the headers from a position on,
-- `contact_parse` is osip_contact_parse.
pub record Osip : Type 0 where
  pub header_from : Text → List Header → Option Header
  pub contact_parse : Text → Option Contact

module _ (o : Osip) where
  -- The loop asks again from each position, until nothing is found.
  unfoldable pub header_values : Text → List Header → List Text
  header_values name [] = []
  header_values name (h ∷ hs) =
      let rest = header_values name hs in
      elim (o.header_from name (h ∷ hs)) [ none ↦ [] | some g ↦ push_value g.value rest ]

  unfoldable pub get_headers : Text → SipMessage → List Text
  unfolding routes
  get_headers name m =
      let lower_name = lowercase name in
      if lower_name == codes "contact"
      then non_empties (map (λ (c : Contact). c.text) m.contacts)
      else if lower_name == codes "route"
      then routes m
      else if lower_name == codes "record-route"
      then split_values m.record_routes
      else if lower_name == codes "authorization"
      then non_empties m.authorizations
      else if lower_name == codes "proxy-authorization"
      then non_empties m.proxy_authorizations
      else if lower_name == codes "www-authenticate"
      then non_empties m.www_authenticates
      else if lower_name == codes "proxy-authenticate"
      then non_empties m.proxy_authenticates
      else header_values name m.headers

  unfoldable pub get_header : Text → SipMessage → Option Text
  unfolding get_headers
  get_header name m = front (get_headers name m)

  unfoldable pub expires_value : SipMessage → Option ℕ
  unfolding get_header parse_uint_header
  expires_value m = elim (get_header (codes "Expires") m) [
    | none ↦ none
    | some value ↦ parse_uint_header value
  ]

  abbrev username_in : Option Text → Option Text
  username_in none = none
  username_in (some header) = elim (parse_digest_authorization header) [
    | err e ↦ none
    | ok f ↦ some_text f.username
  ]

  abbrev without_scheme : Text → Text
  without_scheme uri = if starts_with uri (codes "sip:") then drop 4 uri else uri

  unfoldable pub impi_from_authorization_or_from : SipMessage → Option Text
  unfolding get_header parse_digest_authorization
  impi_from_authorization_or_from m = elim (username_in (get_header (codes "Authorization") m)) [
    | some username ↦ some username
    | none ↦ elim (printed m.from_url) [ none ↦ none | some uri ↦ some (without_scheme uri) ]
  ]

  unfoldable pub set_contact : Text → SipMessage → SipMessage
  set_contact text m = elim (o.contact_parse text) [
    | none ↦ record m { contacts = [] }
    | some c ↦ record m { contacts = c ∷ [] }
  ]

-- osip puts it at the end of its list.
unfoldable pub add_header : Text → Text → SipMessage → SipMessage
add_header name value m = record m {
  headers = m.headers ++ record { name = name; value = some value } ∷ [];
}

unfoldable pub to_uri : SipMessage → Option Text
to_uri m = printed m.to_url

abbrev pub contact_at : ℕ → List Contact → Option Contact
contact_at index [] = none
contact_at zero (c ∷ cs) = some c
contact_at (suc n) (c ∷ cs) = contact_at n cs

unfoldable pub contact : SipMessage → Option Text
contact m = elim (contact_at 0 m.contacts) [ none ↦ none | some c ↦ some c.text ]

unfoldable pub contact_uri_at : ℕ → SipMessage → Option Text
contact_uri_at index m = elim (contact_at index m.contacts) [
  | none ↦ none
  | some c ↦ elim c.url [
    | some uri ↦ some_text uri
    | none ↦
        if c.text == codes "*" then some c.text else some_text (extract_uri_from_name_addr c.text)
  ]
]

unfoldable pub contact_param : Text → ℕ → SipMessage → Option Text
contact_param key index m = elim (contact_at index m.contacts) [
  | none ↦ none
  | some c ↦ elim (c.params key) [ none ↦ none | some value ↦ some (trim_quotes value) ]
]

unfoldable pub contact_expires : ℕ → SipMessage → Option ℕ
unfolding contact_param parse_uint_header
contact_expires index m = elim (contact_param (codes "expires") index m) [
  | none ↦ none
  | some value ↦ parse_uint_header value
]

unfoldable pub is_wildcard_contact : SipMessage → Bool
unfolding contact
is_wildcard_contact m = elim (contact m) [ none ↦ false | some value ↦ value == codes "*" ]
