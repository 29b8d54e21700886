-- ===== src/Uri/Endpoints.antt =====
-- sip/uri_utils.cpp: identities and endpoints of URIs. `uri_parse` is osip_uri_parse, `none` where it
-- fails.
use sim_ims.Prelude.{
  ℕ, ◌-◌, ◌%◌, Bool, false, not, ◌&&◌, ◌||◌, Option, none, some, [], ◌∷◌, ◌++◌, leb, eqb, is_empty,
  if◌then◌else◌, ◌==◌,
}
use sim_ims.Prelude.Text.{Text, codes, starts_with, text_instance}
use sim_ims.Bencode.{ℤ, pos, negsuc, stoll}
use sim_ims.Transaction.{Endpoint}
use sim_ims.Uri.{lowercase, extract_uri_from_name_addr}

-- What the program reads of a URI that osip has parsed; `transport` is the value of the parameter.
pub record OsipUri : Type 0 where
  pub scheme : Option Text
  pub username : Option Text
  pub host : Option Text
  pub port : Option Text
  pub transport : Option Text

abbrev in_int : ℤ → Option ℤ
in_int (pos n) = if leb n 2147483647 then some (pos n) else none
in_int (negsuc n) = if leb n 2147483647 then some (negsuc n) else none

-- std::stoi, which reads a long and checks its range; `none` is an exception
unfoldable pub stoi : Text → Option ℤ
stoi s = elim (stoll s) [ none ↦ none | some i ↦ in_int i ]

-- static_cast<uint16_t>
abbrev pub to_port : ℤ → ℕ
to_port (pos n) = n % 65536
to_port (negsuc n) = 65535 - n % 65536

abbrev lowercase_or_empty : Option Text → Text
lowercase_or_empty none = []
lowercase_or_empty (some t) = lowercase t

abbrev canonical_sip : Text → Text → OsipUri → Text
canonical_sip text scheme uri = elim uri.username [
  | none ↦ lowercase text
  | some user ↦ elim uri.host [
    | none ↦ lowercase text
    | some host ↦ scheme ++ b':' ∷ user ++ b'@' ∷ lowercase host
  ]
]

abbrev canonical : Text → OsipUri → Text
canonical text uri =
    let scheme = lowercase_or_empty uri.scheme in
    if scheme == codes "tel"
    then elim uri.username [ none ↦ codes "tel:" | some user ↦ codes "tel:" ++ user ]
    else if not (scheme == codes "sip") && not (scheme == codes "sips")
    then lowercase text
    else canonical_sip text scheme uri

module _ (uri_parse : Text → Option OsipUri) where
  unfoldable pub normalize_impu_uri : Text → Text
  normalize_impu_uri value =
      let text = extract_uri_from_name_addr value in
      if is_empty text || text == codes "*"
      then text
      else if starts_with (lowercase text) (codes "tel:")
      then lowercase text
      else elim (uri_parse text) [ none ↦ lowercase text | some uri ↦ canonical text uri ]

  abbrev endpoint_at : OsipUri → Text → Option ℕ → Option Endpoint
  endpoint_at uri host none = none
  endpoint_at uri host (some port) = some record {
    address = host;
    port = port;
    transport = elim uri.transport [ none ↦ codes "udp" | some t ↦ lowercase t ];
  }

  abbrev port_of : Option Text → Option ℕ
  port_of none = some 5060
  port_of (some t) = elim (stoi t) [ none ↦ none | some i ↦ some (to_port i) ]

  abbrev endpoint_of : OsipUri → Option Endpoint
  endpoint_of uri = elim uri.host [
    | none ↦ none
    | some host ↦ endpoint_at uri host (port_of uri.port)
  ]

  unfoldable pub parse_endpoint_from_uri : Text → Option Endpoint
  parse_endpoint_from_uri value =
      let text = extract_uri_from_name_addr value in
      if is_empty text || text == codes "*"
      then none
      else elim (uri_parse text) [ none ↦ none | some uri ↦ endpoint_of uri ]

  abbrev transport_or : Text → Text → Text
  transport_or transport fallback = lowercase (if is_empty transport then fallback else transport)

  abbrev port_or_default : ℕ → ℕ
  port_or_default port = if eqb port 0 then 5060 else port

  abbrev same_endpoint : Endpoint → Endpoint → Text → Bool
  same_endpoint route endpoint fallback =
      lowercase route.address == lowercase endpoint.address
      && transport_or endpoint.transport fallback == transport_or route.transport fallback
      && eqb (port_or_default route.port) (port_or_default endpoint.port)

  unfoldable pub route_points_to_endpoint : Text → Endpoint → Text → Bool
  unfolding parse_endpoint_from_uri
  route_points_to_endpoint route_value endpoint fallback =
      elim (parse_endpoint_from_uri route_value) [
        | none ↦ false
        | some route ↦ same_endpoint route endpoint fallback
      ]
