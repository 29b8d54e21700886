-- ===== src/Proxy.antt =====
-- sip/proxy_core.hpp and .cpp: what a proxy does to the requests that it forwards and to the
-- responses that it passes back. The outcomes of osip and of the transports are arguments.
pub mod Hops
pub mod Back
pub mod Stateful
pub mod Examples
use sim_ims.Prelude.{
  ℕ, zero, suc, ◌+◌, ◌-◌, ◌≡◌, Bool, true, false, ◌&&◌, ◌||◌, Option, none, some, List, [], ◌∷◌,
  ◌++◌, map, leb, ltb, length, eqb, is_empty, drop, if◌then◌else◌, ◌==◌,
}
use sim_ims.Prelude.Text.{Text, codes, text_instance}
use sim_ims.Common.{Result, ok, err, VoidResult, ErrorInfo, k_sip_transaction_failed}
use sim_ims.Bencode.{ℤ, pos, negsuc, decimal}
use sim_ims.Uri.Endpoints.{OsipUri, route_points_to_endpoint}
use sim_ims.Message.{SipMessage, Via, or_empty}
use sim_ims.Message.Forwarding.{
  routes, remove_top_route, add_record_route, max_forwards, set_max_forwards,
  decrement_max_forwards, add_via, remove_top_via,
}
use sim_ims.Transaction.{Endpoint}

pub record ProxyCore : Type 0 where
  pub local_address : Text
  pub local_port : ℕ

-- std::toupper in the C locale
unfoldable pub to_upper : ℕ → ℕ
to_upper c = if leb b'a' c && leb c b'z' then c - 32 else c

-- The text of the Via header that a proxy adds.
unfoldable pub via_text : Text → Text → ℕ → Text → Text
unfolding to_upper decimal
via_text transport address port branch =
    codes "SIP/2.0/"
    ++ map to_upper (if is_empty transport then codes "udp" else transport)
    ++ b' ' ∷ address
    ++ b':' ∷ decimal port
    ++ codes ";branch="
    ++ branch
    ++ codes ";rport"

-- An exception of std::stoi, an error, or the request to send.
pub data Prepared : Type 0 where
  throws : Prepared
  refused : ErrorInfo → SipMessage → Prepared
  prepared : SipMessage → Prepared

abbrev pub too_many_hops : ErrorInfo
too_many_hops = record {
  code = k_sip_transaction_failed;
  message = codes "Max-Forwards is zero, cannot forward";
  detail = [];
}

-- A negative number, as of a header that is missing, is set to 70.
abbrev pub defaulted : ℤ → SipMessage → SipMessage
defaulted (pos n) m = m
defaulted (negsuc n) m = set_max_forwards 70 m

abbrev is_zero : ℤ → Bool
is_zero (pos zero) = true
is_zero _ = false

module _ (via_parse : Text → Option Via) where
  abbrev finish : ProxyCore → Text → Text → Option SipMessage → Prepared
  finish p transport branch none = throws
  finish p transport branch (some m) =
      prepared (add_via via_parse (via_text transport p.local_address p.local_port branch) m)

  -- `branch` is what generateBranch draws.
  unfoldable pub prepare_request_for_forward : ProxyCore → SipMessage → Text → Text → Prepared
  unfolding decrement_max_forwards set_max_forwards max_forwards
  prepare_request_for_forward p m transport branch = elim (max_forwards m) [
    | none ↦ throws
    | some mf ↦
        if is_zero mf
        then refused too_many_hops m
        else finish p transport branch (decrement_max_forwards (defaulted mf m))
  ]

module _ (uri_parse : Text → Option OsipUri) where
  unfoldable pub process_route_headers : ProxyCore → SipMessage → SipMessage
  unfolding routes
  process_route_headers p m = elim (routes m) [
    | [] ↦ m
    | top ∷ others ↦
        if route_points_to_endpoint uri_parse top
          (record { address = p.local_address; port = p.local_port; transport = codes "udp" })
          (codes "udp")
        then remove_top_route m
        else m
  ]

-- A negative Max-Forwards is set to 70, any other decremented.
abbrev lowered : Option ℤ → SipMessage → Option SipMessage
lowered (some (negsuc n)) m = some (set_max_forwards 70 m)
lowered _ m = decrement_max_forwards m

-- What the CANCEL of an INVITE that was forwarded is built from; the flags have their defaults.
pub record CancelForwardContext : Type 0 where
  pub transport : Text
  pub invite_branch : Text
  pub local_address : Text
  pub local_port : ℕ

-- `none` is an exception of std::stoi; `drawn` is what generateBranch draws.
unfoldable pub build_forwarded_cancel :
    (Text → Option Via)
    → (Text → Option OsipUri)
    → ProxyCore
    → Text
    → CancelForwardContext
    → SipMessage
    → Option SipMessage
unfolding process_route_headers max_forwards decrement_max_forwards set_max_forwards
build_forwarded_cancel via_parse uri_parse p drawn context incoming =
    let routed = record (process_route_headers uri_parse p incoming) { vias = [] } in
    let branch = if is_empty context.invite_branch then drawn else context.invite_branch in
    elim (lowered (max_forwards routed) routed) [
      | none ↦ none
      | some m ↦ some (
          add_via via_parse
            (via_text context.transport context.local_address context.local_port branch) m)
    ]

-- The message that goes to the server transaction.
unfoldable pub forward_response_upstream : SipMessage → SipMessage
forward_response_upstream response =
    if ltb 1 (length response.vias) then remove_top_via response else response

abbrev is_invalid : Text → Bool
is_invalid address = is_empty address || address == codes "0.0.0.0"

abbrev own_route : ProxyCore → Text
own_route p = codes "<sip:" ++ p.local_address ++ b':' ∷ decimal p.local_port ++ codes ";lr>"

unfoldable pub build_path_header : ProxyCore → Text
build_path_header p = if is_invalid p.local_address then [] else own_route p

unfoldable pub add_record_route_of : ProxyCore → SipMessage → SipMessage
add_record_route_of p m = if is_invalid p.local_address then m else add_record_route (own_route p) m

abbrev our_via : ProxyCore → Via → Bool
our_via p via =
    via.host ++ b':' ∷ (elim via.port [ none ↦ codes "5060" | some port ↦ port ])
    == p.local_address ++ b':' ∷ decimal p.local_port

abbrev any_via : (Via → Bool) → List Via → Bool
any_via f [] = false
any_via f (via ∷ vias) = f via || any_via f vias

unfoldable pub is_loop_detected : ProxyCore → SipMessage → Bool
is_loop_detected p m = any_via (our_via p) m.vias
