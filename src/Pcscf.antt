-- ===== src/Pcscf.antt =====
-- p-cscf/pcscf_service.hpp and .cpp: the P-CSCF, with the parts of it that say where a request comes
-- from and where it goes. Pcscf.Anchoring and Pcscf.Handlers have the handlers. `now` is the steady
-- clock in seconds.
pub mod Anchoring
pub mod Handlers
pub mod Cases
pub mod Topology
pub mod Completed
pub mod Settled
pub mod Endings
pub mod Examples
use sim_ims.Prelude.{
  ℕ, ◌+◌, Bool, true, false, not, ◌&&◌, ◌||◌, Option, none, some, List, [], ◌∷◌, ◌++◌, any, eqb,
  is_empty, leb, erase_if, if◌then◌else◌, ◌==◌,
}
use sim_ims.Prelude.Text.{Text, codes, text_instance}
use sim_ims.Prelude.Table.{Table, find, insert}
use sim_ims.Common.{Result, VoidResult}
use sim_ims.Uri.{lowercase}
use sim_ims.Uri.Endpoints.{OsipUri, parse_endpoint_from_uri}
use sim_ims.Auth.{after_word}
use sim_ims.Bencode.{decimal}
use sim_ims.Message.{SipMessage, Via, from_tag_of, to_tag_of}
use sim_ims.Message.Forwarding.{routes, request_uri, add_record_route}
use sim_ims.Message.Headers.{contact_uri_at}
use sim_ims.Transaction.{Endpoint}
use sim_ims.Media.{MediaSession, MediaSessionKey, Sessions}
use sim_ims.Proxy.{ProxyCore}
use sim_ims.Proxy.Stateful.{via_port}
use sim_ims.Icscf.{resolve_proxy_advertised_address}

-- rtp/types.hpp
pub record RtpengineFlags : Type 0 where
  pub direction_from : Text
  pub direction_to : Text
  pub transport_protocol : Text
  pub ice_remove : Bool
  pub rtcp_mux_demux : Bool
  pub replace : Option Text
  pub record_call : Option Text

pub record RtpengineResult : Type 0 where
  pub sdp : Text
  pub tag : Text

-- IRtpengineClient, on a state `E` of what is outside: the operations that the P-CSCF calls.
pub record RtpengineClient {ℓ} (E : Type ℓ) : Type ℓ where
  pub offer : MediaSession → Text → RtpengineFlags → E → Result RtpengineResult × E
  pub answer : MediaSession → Text → RtpengineFlags → E → Result RtpengineResult × E
  pub delete_session : MediaSession → E → VoidResult × E

pub record StrParams : Type 0 where
  pub session_id : Text
  pub termination_cause : ℕ

-- IPcfClient, with the one operation that the P-CSCF calls; StaResult has a result code.
pub record PcfClient {ℓ} (E : Type ℓ) : Type ℓ where
  pub terminate_session : StrParams → E → Result ℕ × E

pub record TopologyRouteEntry : Type 0 where
  pub endpoint : Endpoint
  pub expires_at : ℕ

abbrev pub TopologyRoutes : Type 0
TopologyRoutes = Table Text TopologyRouteEntry

-- What does not change. `core_entry` has core_entry_addr_, core_entry_port_ and the transport of
-- config_.core_entry; the clients may be absent.
pub record PcscfService {ℓ} (E : Type ℓ) : Type ℓ where
  pub via_parse : Text → Option Via
  pub uri_parse : Text → Option OsipUri
  pub listen_addr : Text
  pub listen_port : ℕ
  pub advertised_addr : Text
  pub core_entry : Endpoint
  pub core_peers : List Endpoint
  pub rtpengine : Option (RtpengineClient E)
  pub pcf : Option (PcfClient E)

pub record PcscfState {ℓ} (E : Type ℓ) : Type ℓ where
  pub media : Sessions
  pub topology : TopologyRoutes
  pub outside : E

-- kTopologyRouteTtl
abbrev k_topology_route_ttl : ℕ
k_topology_route_ttl = 1800

unfoldable pub purge_expired_topology_routes : ℕ → TopologyRoutes → TopologyRoutes
purge_expired_topology_routes now t = erase_if (λ e. leb e.1.expires_at now) t

unfoldable pub remember_topology_route : ℕ → Text → Endpoint → TopologyRoutes → TopologyRoutes
unfolding purge_expired_topology_routes
remember_topology_route now token endpoint t =
    insert (purge_expired_topology_routes now t) token
      (record { endpoint = endpoint; expires_at = now + k_topology_route_ttl })

abbrev until_delimiter : Text → Text
until_delimiter [] = []
until_delimiter (c ∷ cs) =
    let rest = until_delimiter cs in if eqb c b';' || eqb c b'>' then [] else c ∷ rest

abbrev non_empty_token : Text → Option Text
non_empty_token t = if is_empty t then none else some t

abbrev token_in : List Text → Option Text
token_in [] = none
token_in (top ∷ others) = elim (after_word (codes "th=") top) [
  | none ↦ none
  | some rest ↦ non_empty_token (until_delimiter rest)
]

unfoldable pub extract_topology_token : SipMessage → Option Text
unfolding routes after_word
extract_topology_token m = token_in (routes m)

-- Via headers are taken off the top until one is left.
abbrev pub bottom_via : List Via → List Via
bottom_via [] = []
bottom_via (via ∷ []) = via ∷ []
bottom_via (via ∷ below ∷ vias) = bottom_via (below ∷ vias)

abbrev pub sanitize_for_ue_egress : SipMessage → SipMessage
sanitize_for_ue_egress m = record m { vias = bottom_via m.vias }

-- Of a request and of a response.
abbrev pub media_key_for : SipMessage → MediaSessionKey
media_key_for m = record { call_id = m.call_id; from_tag = from_tag_of m; to_tag = to_tag_of m }

abbrev pub or_udp : Text → Text
or_udp transport = if is_empty transport then codes "udp" else transport

abbrev with_transport : Endpoint → Endpoint
with_transport e = record e { transport = or_udp e.transport }

abbrev is_unspecified : Text → Bool
is_unspecified address = address == codes "0.0.0.0" || address == codes "::"

abbrev named_endpoint : Option Endpoint → Option Endpoint
named_endpoint none = none
named_endpoint (some e) =
    if not (is_empty e.address) && not (e.address == codes "ims.local")
    then some (with_transport e)
    else none

-- The host that the bottom Via header names, not where the request was received from.
abbrev via_destination : List Via → Option Endpoint
via_destination [] = none
via_destination (via ∷ vias) = some record {
  address = via.host;
  port = via_port via;
  transport = if lowercase via.protocol == codes "tcp" then codes "tcp" else codes "udp";
}

module _ {ℓ} {E : Type ℓ} (s : PcscfService E) where
  abbrev pub proxy_public_addr : Text
  proxy_public_addr = resolve_proxy_advertised_address s.advertised_addr s.listen_addr

  abbrev pub proxy : ProxyCore
  proxy = record { local_address = proxy_public_addr; local_port = s.listen_port }

  abbrev addr_matches : Text → Text → Bool
  addr_matches source_addr target_addr =
      let listen_addr = lowercase s.listen_addr in
      source_addr == target_addr
      || source_addr == lowercase proxy_public_addr
      || (not (is_empty listen_addr)
          && not (is_unspecified listen_addr)
          && source_addr == listen_addr)
      || ((is_unspecified target_addr || is_unspecified listen_addr)
          && (source_addr == codes "127.0.0.1" || source_addr == codes "::1"))

  abbrev endpoint_matches : Endpoint → Endpoint → Bool
  endpoint_matches source configured =
      addr_matches (lowercase source.address) (lowercase configured.address)
      && eqb source.port configured.port
      && lowercase (or_udp source.transport) == lowercase (or_udp configured.transport)

  unfoldable pub is_core_facing_request : Endpoint → Bool
  is_core_facing_request source =
      if is_empty s.core_peers
      then endpoint_matches source s.core_entry
      else any (endpoint_matches source) s.core_peers

  abbrev contact_endpoint : Option Text → Option Endpoint
  contact_endpoint none = none
  contact_endpoint (some uri) = elim (parse_endpoint_from_uri s.uri_parse uri) [
    | none ↦ none
    | some e ↦ some (with_transport e)
  ]

  abbrev first_destination : Option Endpoint → Option Endpoint → Option Endpoint
  first_destination (some e) other = some e
  first_destination none other = other

  unfoldable pub resolve_ue_destination : SipMessage → Option Endpoint
  unfolding parse_endpoint_from_uri contact_uri_at
  resolve_ue_destination m =
      first_destination (named_endpoint (parse_endpoint_from_uri s.uri_parse (request_uri m))) (
        first_destination (contact_endpoint (contact_uri_at 0 m))
          (via_destination (bottom_via m.vias)))

  abbrev pub core_destination : Endpoint
  core_destination = with_transport s.core_entry

  abbrev pub routed_to : Option TopologyRouteEntry → Endpoint
  routed_to none = core_destination
  routed_to (some e) = e.endpoint

  -- The destination, and the table without the entries that have expired.
  unfoldable pub resolve_core_destination :
      ℕ → SipMessage → TopologyRoutes → Endpoint × TopologyRoutes
  unfolding extract_topology_token purge_expired_topology_routes
  resolve_core_destination now m t = elim (extract_topology_token m) [
    | none ↦ (core_destination, t)
    | some token ↦
        let kept = purge_expired_topology_routes now t in (routed_to (find kept token), kept)
  ]

  unfoldable pub add_topology_record_route : SipMessage → Text → SipMessage
  unfolding decimal
  add_topology_record_route m token =
      add_record_route
        (codes "<sip:"
          ++ proxy_public_addr
          ++ b':' ∷ decimal s.listen_port
          ++ codes ";lr;th="
          ++ token
          ++ codes ">")
        (record m { record_routes = [] })
