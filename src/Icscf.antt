-- ===== src/Icscf.antt =====
-- i-cscf/scscf_selector.cpp and i-cscf/icscf_service.cpp: the I-CSCF, which asks the HSS for the
-- S-CSCF of a subscriber, and forwards to it.
pub mod Routing
pub mod Examples
use sim_ims.Prelude.{
  ℕ, Bool, true, false, not, ◌&&◌, ◌||◌, Option, none, some, List, [], ◌∷◌, ◌++◌, is_empty,
  if◌then◌else◌, ◌==◌,
}
use sim_ims.Prelude.Text.{Text, codes, text_instance}
use sim_ims.Common.{Result, ok, err, ErrorInfo, k_diameter_auth_failed, k_diameter_user_not_found}
use sim_ims.Uri.Endpoints.{OsipUri, normalize_impu_uri, parse_endpoint_from_uri}
use sim_ims.Message.{SipMessage, Via}
use sim_ims.Message.Forwarding.{request_uri}
use sim_ims.Message.Headers.{Osip, to_uri, impi_from_authorization_or_from}
use sim_ims.Transaction.{Endpoint}
use sim_ims.Hss.{HssClient, UarParams, UaaResult, LirParams, LiaResult, k_registration_type}
use sim_ims.Proxy.{ProxyCore, Prepared, process_route_headers, prepare_request_for_forward}
use sim_ims.Proxy.Stateful.{ForwardOptions, Forwarded, forwarded, forward_stateful}

abbrev pub resolve_proxy_advertised_address : Text → Text → Text
resolve_proxy_advertised_address advertised_addr listen_addr =
    if not (is_empty advertised_addr)
    then advertised_addr
    else if not (is_empty listen_addr) && not (listen_addr == codes "0.0.0.0")
    then listen_addr
    else codes "127.0.0.1"

-- config_.local_scscf
pub record IcscfService {ℓ} (E : Type ℓ) : Type ℓ where
  pub osip : Osip
  pub via_parse : Text → Option Via
  pub uri_parse : Text → Option OsipUri
  pub hss : HssClient E
  pub realm : Text
  pub proxy : ProxyCore
  pub local_scscf : Endpoint

-- The defaults of ForwardOptions, where the I-CSCF asks for no Record-Route.
abbrev pub without_record_route : ForwardOptions
without_record_route = record {
  add_record_route = false;
  process_route_headers = true;
  detect_loop = true;
}

abbrev text_or_empty : Option Text → Text
text_or_empty none = []
text_or_empty (some t) = t

abbrev no_capability_selection : ErrorInfo
no_capability_selection = record {
  code = k_diameter_auth_failed;
  message = codes "No S-CSCF assigned and capability selection not implemented";
  detail = [];
}

abbrev no_serving : Text → ErrorInfo
no_serving impu = record {
  code = k_diameter_user_not_found;
  message = codes "No serving S-CSCF found for " ++ impu;
  detail = [];
}

abbrev pub assigned_or : ErrorInfo → Text → Result Text
assigned_or x scscf = if is_empty scscf then err x else ok scscf

abbrev pub from_uaa : Result UaaResult → Result Text
from_uaa (err x) = err x
from_uaa (ok a) = assigned_or no_capability_selection a.assigned_scscf

abbrev pub from_lia : Text → Result LiaResult → Result Text
from_lia impu (err x) = err x
from_lia impu (ok a) = assigned_or (no_serving impu) a.assigned_scscf

module _ {ℓ} {E : Type ℓ} (s : IcscfService E) where
  unfoldable pub select_for_registration : Text → Text → Text → E → Result Text × E
  select_for_registration impi impu visited_network e =
      let answer =
        s.hss.user_authorization
          (record {
            impi = impi;
            impu = impu;
            visited_network = visited_network;
            auth_type = k_registration_type;
          })
          e in
      (from_uaa answer.0, answer.1)

  unfoldable pub select_for_routing : Text → E → Result Text × E
  select_for_routing impu e =
      let answer = s.hss.location_info (record { impu = impu }) e in
      (from_lia impu answer.0, answer.1)

  abbrev pub answered_with : ℕ → Text → Forwarded
  answered_with code reason = forwarded ((code, reason) ∷ []) none none

  -- forwardStateful without Record-Route; `branch` is the one drawn, `sent` the stack's answer.
  unfoldable pub forward_to : Text → Result (Unit {0}) → SipMessage → Endpoint → Forwarded
  unfolding forward_stateful
  forward_to branch sent m dest =
      forward_stateful s.via_parse s.uri_parse without_record_route s.proxy branch m dest sent

  -- The server's URI is answered; without one, this response is sent.
  unfoldable pub forward_to_scscf :
      Text → Result (Unit {0}) → SipMessage → Forwarded → Result Text → Forwarded
  unfolding forward_to parse_endpoint_from_uri
  forward_to_scscf branch sent m refusal (err x) = refusal
  forward_to_scscf branch sent m refusal (ok uri) = elim (parse_endpoint_from_uri s.uri_parse uri) [
    | none ↦ answered_with 500 (codes "Internal Server Error")
    | some dest ↦ forward_to branch sent m dest
  ]

  unfoldable pub on_register : Text → Result (Unit {0}) → SipMessage → E → Forwarded × E
  unfolding to_uri impi_from_authorization_or_from select_for_registration forward_to_scscf
  on_register branch sent m e =
      let impu = text_or_empty (to_uri m) in
      let impi = text_or_empty (impi_from_authorization_or_from s.osip m) in
      let selected = select_for_registration impi impu s.realm e in
      let refusal = answered_with 500 (codes "Internal Server Error") in
      (forward_to_scscf branch sent m refusal selected.0, selected.1)

  -- INVITE, and SUBSCRIBE, which is routed alike
  unfoldable pub on_invite : Text → Result (Unit {0}) → SipMessage → E → Forwarded × E
  unfolding select_for_routing forward_to_scscf normalize_impu_uri
  on_invite branch sent m e =
      let selected = select_for_routing (normalize_impu_uri s.uri_parse (request_uri m)) e in
      (
        forward_to_scscf branch sent m (answered_with 404 (codes "Not Found")) selected.0,
        selected.1,
      )

  unfoldable pub on_subscribe : Text → Result (Unit {0}) → SipMessage → E → Forwarded × E
  unfolding on_invite
  on_subscribe branch sent m e = on_invite branch sent m e

  unfoldable pub local_scscf_endpoint : Endpoint
  local_scscf_endpoint =
      let address = s.local_scscf.address in
      let transport = s.local_scscf.transport in
      record {
        address =
            if is_empty address || address == codes "0.0.0.0" then codes "127.0.0.1" else address;
        port = s.local_scscf.port;
        transport = if is_empty transport then codes "udp" else transport;
      }

  -- BYE, CANCEL and PRACK
  unfoldable pub on_in_dialog_stateful : Text → Result (Unit {0}) → SipMessage → Forwarded
  unfolding forward_to process_route_headers local_scscf_endpoint
  on_in_dialog_stateful branch sent m =
      forward_to branch sent (process_route_headers s.uri_parse s.proxy m) local_scscf_endpoint

  -- What is given to the transport for the ACK's destination, unless it is refused.
  unfoldable pub on_ack : Text → SipMessage → Prepared × Endpoint
  unfolding process_route_headers prepare_request_for_forward local_scscf_endpoint
  on_ack branch m =
      let routed = process_route_headers s.uri_parse s.proxy m in
      (
        prepare_request_for_forward s.via_parse s.proxy routed local_scscf_endpoint.transport
            branch,
        local_scscf_endpoint,
      )
