-- ===== src/Message/Forwarding.antt =====
-- sip/message.cpp: what the proxies change in a message, and responses. A Route header is the text
-- that osip prints for it; `via_parse` is osip_via_parse, `none` where it fails.
use sim_ims.Prelude.{
  ℕ, zero, suc, ◌-◌, Bool, false, not, ◌&&◌, Option, none, some, List, [], ◌∷◌, ◌++◌, ltb, eqb,
  is_empty, if◌then◌else◌, drop,
}
use sim_ims.Common.{Result, ok, err, VoidResult}
use sim_ims.Prelude.Text.{Text}
use sim_ims.Bencode.{ℤ, pos, negsuc, decimal}
use sim_ims.Uri.{trim}
use sim_ims.Uri.Endpoints.{stoi}
use sim_ims.Message.{SipMessage, StartLine, request, response, Via, to_tag_of}
use mathlib.Core.List.{reverse}

abbrev pub non_empty : Text → List Text → List Text
non_empty part parts = if is_empty part then parts else part ∷ parts

-- The loop, over the rest of the value; `current` holds its bytes in reverse.
unfoldable pub split_from : Text → Text → Bool → ℕ → List Text
unfolding trim
split_from [] current in_quotes depth = non_empty (trim (reverse current)) []
split_from (c ∷ cs) current in_quotes depth =
    let toggled = split_from cs (c ∷ current) (not in_quotes) depth in
    let deeper = split_from cs (c ∷ current) in_quotes (suc depth) in
    let shallower = split_from cs (c ∷ current) in_quotes (depth - 1) in
    let next = split_from cs [] in_quotes depth in
    let kept = split_from cs (c ∷ current) in_quotes depth in
    if eqb c b'"'
    then toggled
    else if in_quotes
    then kept
    else if eqb c b'<'
    then deeper
    else if eqb c b'>' && ltb 0 depth
    then shallower
    else if eqb c b',' && eqb depth 0
    then non_empty (trim (reverse current)) next
    else kept

abbrev pub split_header_values : Text → List Text
split_header_values value = split_from value [] false 0

abbrev split_each : List Text → List Text
split_each [] = []
split_each (t ∷ ts) = split_header_values t ++ split_each ts

unfoldable pub routes : SipMessage → List Text
unfolding split_from
routes m = split_each m.route_headers

abbrev pub remove_top_route : SipMessage → SipMessage
remove_top_route m = record m { route_headers = drop 1 m.route_headers }

-- osip puts it at the end of its list.
abbrev pub add_record_route : Text → SipMessage → SipMessage
add_record_route value m = record m { record_routes = m.record_routes ++ value ∷ [] }

-- `none` is an exception of std::stoi
unfoldable pub max_forwards : SipMessage → Option ℤ
unfolding stoi
max_forwards m = elim m.max_forwards_header [ none ↦ some (negsuc 0) | some value ↦ stoi value ]

unfoldable pub set_max_forwards : ℕ → SipMessage → SipMessage
unfolding decimal
set_max_forwards n m = record m { max_forwards_header = some (decimal n) }

abbrev decrement : Option ℤ → SipMessage → Option SipMessage
decrement none m = none
decrement (some (pos zero)) m = some m
decrement (some (pos (suc n))) m = some (set_max_forwards n m)
decrement (some (negsuc n)) m = some m

unfoldable pub decrement_max_forwards : SipMessage → Option SipMessage
unfolding max_forwards set_max_forwards
decrement_max_forwards m = decrement (max_forwards m) m

unfoldable pub add_via : (Text → Option Via) → Text → SipMessage → SipMessage
add_via via_parse text m = elim (via_parse text) [
  | none ↦ m
  | some via ↦ record m { vias = via ∷ m.vias }
]

abbrev pub remove_top_via : SipMessage → SipMessage
remove_top_via m = record m { vias = drop 1 m.vias }

abbrev uri_of : StartLine → Text
uri_of (request name uri) = uri
uri_of (response code reason) = []

abbrev pub request_uri : SipMessage → Text
request_uri m = uri_of m.start

abbrev with_uri : Text → StartLine → StartLine
with_uri uri (request name old) = request name uri
with_uri uri (response code reason) = response code reason

-- `uri` is what osip prints for the new URI.
abbrev pub set_request_uri : Text → SipMessage → SipMessage
set_request_uri uri m = record m { start = with_uri uri m.start }

-- `tag` is the tag that is drawn, `to_header` what osip prints for the To header with it.
unfoldable pub filled_response : Text → Text → SipMessage → ℕ → Text → SipMessage
unfolding to_tag_of
filled_response tag to_header m code reason =
    let tagged = ltb 100 code && is_empty (to_tag_of m) in
    record {
      start = response code reason;
      vias = m.vias;
      cseq = m.cseq;
      call_id = m.call_id;
      from_header = m.from_header;
      from_tag = m.from_tag;
      to_header = if tagged then to_header else m.to_header;
      to_tag = if tagged then some tag else m.to_tag;
      max_forwards_header = none;
      route_headers = [];
      record_routes = [];
      from_url = m.from_url;
      to_url = m.to_url;
      contacts = [];
      authorizations = [];
      proxy_authorizations = [];
      www_authenticates = [];
      proxy_authenticates = [];
      headers = [];
      body = none;
    }

-- `created` is what SipMessage::create returns.
unfoldable pub create_response :
    VoidResult → Text → Text → SipMessage → ℕ → Text → Result SipMessage
unfolding filled_response
create_response created tag to_header m code reason = elim created [
  | err x ↦ err x
  | ok u ↦ ok (filled_response tag to_header m code reason)
]

-- A response that was made gets its headers, and is sent.
abbrev pub with_headers : (SipMessage → SipMessage) → Result SipMessage → Result SipMessage
with_headers f (err x) = err x
with_headers f (ok resp) = ok (f resp)

abbrev pub sent : Result SipMessage → List SipMessage
sent (err x) = []
sent (ok resp) = resp ∷ []
