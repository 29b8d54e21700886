-- ===== src/Pcscf/Handlers.antt =====
-- p-cscf/pcscf_service.cpp: the handlers. A handler is one step of the state; what is drawn and what
-- the stack answers are in the arrival of the request.
use sim_ims.Prelude.{
  ℕ, Bool, true, false, ◌||◌, Option, none, some, List, [], ◌∷◌, is_empty, if◌then◌else◌, ◌==◌,
}
use sim_ims.Prelude.Text.{Text, codes, text_instance}
use sim_ims.Common.{Result, ok, err}
use sim_ims.Message.{SipMessage, method}
use sim_ims.Message.Headers.{add_header}
use sim_ims.Transaction.{Endpoint}
use sim_ims.Media.{MediaSessionKey, Sessions, create_session, update_caller_sdp}
use sim_ims.Proxy.{
  Prepared, build_path_header, is_loop_detected, process_route_headers, add_record_route_of,
  prepare_request_for_forward,
}
use sim_ims.Proxy.Stateful.{ForwardOptions, Forwarded, forwarded, forward_stateful}
use sim_ims.Pcscf.{
  PcscfService, PcscfState, RtpengineResult, RtpengineClient, remember_topology_route,
  sanitize_for_ue_egress, media_key_for, proxy, is_core_facing_request, resolve_ue_destination,
  resolve_core_destination, add_topology_record_route,
}
use sim_ims.Pcscf.Anchoring.{flags, with_sdp, terminate_media_for_request, on_invite_response}

-- A request with where it comes from, the time, the branch and the topology token that are drawn, and
-- the stack's answer when it is sent.
pub record RequestArrival : Type 0 where
  pub request : SipMessage
  pub source : Endpoint
  pub now : ℕ
  pub branch : Text
  pub token : Text
  pub sent : Result (Unit {0})

pub data Incoming : Type 0 where
  arrives : RequestArrival → Incoming
  replies : SipMessage → Incoming

-- What became of a request: forwarded with a transaction, or prepared for the transport and its
-- destination, or nothing.
pub data Passed : Type 0 where
  stateful : Forwarded → Passed
  stateless : Prepared → Endpoint → Passed
  dropped : Passed

abbrev pub forward_options : Bool → ForwardOptions
forward_options add_record_route = record {
  add_record_route = add_record_route;
  process_route_headers = true;
  detect_loop = true;
}

abbrev plain_options : ForwardOptions
plain_options = record {
  add_record_route = false;
  process_route_headers = false;
  detect_loop = false;
}

-- After the answer of rtpengine to an offer.
abbrev pub offered :
    Result RtpengineResult → MediaSessionKey → Text → SipMessage → Sessions → SipMessage × Sessions
offered (err x) key sdp m media = (m, media)
offered (ok r) key sdp m media = (with_sdp r.sdp m, update_caller_sdp key sdp media)

module _ {ℓ} {E : Type ℓ} (s : PcscfService E) where
  unfoldable pub forward_stateful_to_core :
      Bool → RequestArrival → SipMessage → PcscfState E → Passed × PcscfState E
  unfolding resolve_core_destination forward_stateful
  forward_stateful_to_core add_record_route a m st =
      let resolved = resolve_core_destination s a.now m st.topology in
      (
        stateful (
            forward_stateful s.via_parse s.uri_parse (forward_options add_record_route) (proxy s)
              a.branch m resolved.0 a.sent),
        record st { topology = resolved.1 },
      )

  -- The token is remembered with the destination that the request itself has in the core.
  abbrev pub remembered : RequestArrival → SipMessage → PcscfState E → PcscfState E
  remembered a m st =
      let resolved = resolve_core_destination s a.now m st.topology in
      record st { topology = remember_topology_route a.now a.token resolved.0 resolved.1 }

  abbrev hidden : Bool → Text → SipMessage → SipMessage
  hidden add_record_route token m =
      if add_record_route then add_topology_record_route s m token else m

  unfoldable pub forward_stateful_to_ue :
      Bool → RequestArrival → SipMessage → PcscfState E → Passed × PcscfState E
  unfolding resolve_ue_destination resolve_core_destination remember_topology_route forward_stateful
      add_topology_record_route
  forward_stateful_to_ue add_record_route a m st = elim (resolve_ue_destination s m) [
    | none ↦ (stateful (forwarded ((500, codes "Internal Server Error") ∷ []) none none), st)
    | some ue ↦ (
      stateful (
          forward_stateful s.via_parse s.uri_parse plain_options (proxy s) a.branch
            (hidden add_record_route a.token (record m { route_headers = [] })) ue a.sent),
      remembered a m st,
    )
  ]

  -- Without Record-Route; the Route headers are processed before the destination is looked up.
  unfoldable pub forward_stateless_to_core :
      RequestArrival → SipMessage → PcscfState E → Passed × PcscfState E
  unfolding is_loop_detected process_route_headers resolve_core_destination
      prepare_request_for_forward add_record_route_of
  forward_stateless_to_core a m st =
      if is_loop_detected (proxy s) m
      then (dropped, st)
      else let routed = process_route_headers s.uri_parse (proxy s) m in
        let resolved = resolve_core_destination s a.now routed st.topology in
        (
          stateless
              (prepare_request_for_forward s.via_parse (proxy s) routed resolved.0.transport
                a.branch)
              resolved.0,
          record st { topology = resolved.1 },
        )

  unfoldable pub forward_stateless_to_ue :
      RequestArrival → SipMessage → PcscfState E → Passed × PcscfState E
  unfolding resolve_ue_destination resolve_core_destination remember_topology_route
      prepare_request_for_forward add_topology_record_route
  forward_stateless_to_ue a m st = elim (resolve_ue_destination s m) [
    | none ↦ (dropped, st)
    | some ue ↦ (
      stateless
          (prepare_request_for_forward s.via_parse (proxy s)
            (add_topology_record_route s (sanitize_for_ue_egress m) a.token) ue.transport a.branch)
          ue,
      remembered a m st,
    )
  ]

  -- To the UE or to the core, as the source says.
  abbrev pub relayed : Bool → Bool → RequestArrival → PcscfState E → Passed × PcscfState E
  relayed to_ue to_core a st =
      if is_core_facing_request s a.source
      then forward_stateful_to_ue to_ue a a.request st
      else forward_stateful_to_core to_core a a.request st

  abbrev pub with_path : Text → SipMessage → SipMessage
  with_path path m = if is_empty path then m else add_header (codes "Path") path m

  unfoldable pub on_register : RequestArrival → PcscfState E → Passed × PcscfState E
  unfolding add_header build_path_header forward_stateful_to_core
  on_register a st =
      forward_stateful_to_core false a (with_path (build_path_header (proxy s)) a.request) st

  -- The new session, the offer to rtpengine, and the request with its SDP.
  abbrev pub offer_media :
      Option (RtpengineClient E)
      → Option Text
      → RequestArrival
      → PcscfState E
      → SipMessage × PcscfState E
  offer_media (some r) (some sdp) a st =
      let key = media_key_for a.request in
      let created = create_session a.now key st.media in
      let o = r.offer created.0 sdp flags st.outside in
      let after = offered o.0 key sdp a.request created.1 in
      (after.0, record st { media = after.1; outside = o.1 })
  offer_media none sdp a st =
      (a.request, record st { media = (create_session a.now (media_key_for a.request) st.media).1 })
  offer_media (some r) none a st =
      (a.request, record st { media = (create_session a.now (media_key_for a.request) st.media).1 })

  unfoldable pub on_invite : RequestArrival → PcscfState E → Passed × PcscfState E
  unfolding is_core_facing_request forward_stateful_to_ue forward_stateful_to_core create_session
      update_caller_sdp
  on_invite a st =
      if is_core_facing_request s a.source
      then forward_stateful_to_ue true a a.request st
      else let after = offer_media s.rtpengine a.request.body a st in
        forward_stateful_to_core true a after.0 after.1

  -- BYE and CANCEL
  unfoldable pub on_bye : RequestArrival → PcscfState E → Passed × PcscfState E
  unfolding terminate_media_for_request is_core_facing_request forward_stateful_to_ue
      forward_stateful_to_core
  on_bye a st = relayed true false a (terminate_media_for_request s a.request st)

  unfoldable pub on_ack : RequestArrival → PcscfState E → Passed × PcscfState E
  unfolding is_core_facing_request forward_stateless_to_ue forward_stateless_to_core
  on_ack a st =
      if is_core_facing_request s a.source
      then forward_stateless_to_ue a a.request st
      else forward_stateless_to_core a a.request st

  unfoldable pub on_prack : RequestArrival → PcscfState E → Passed × PcscfState E
  unfolding is_core_facing_request forward_stateful_to_ue forward_stateful_to_core
  on_prack a st = relayed true false a st

  unfoldable pub on_subscribe : RequestArrival → PcscfState E → Passed × PcscfState E
  unfolding is_core_facing_request forward_stateful_to_ue forward_stateful_to_core
  on_subscribe a st = relayed true true a st

  -- The handler that is registered for the request's method, if any.
  unfoldable pub dispatch : RequestArrival → PcscfState E → Passed × PcscfState E
  unfolding method on_register on_invite on_bye on_ack on_prack on_subscribe
  dispatch a st =
      let name = method a.request in
      if name == codes "REGISTER"
      then on_register a st
      else if name == codes "INVITE"
      then on_invite a st
      else if name == codes "BYE" || name == codes "CANCEL"
      then on_bye a st
      else if name == codes "ACK"
      then on_ack a st
      else if name == codes "PRACK"
      then on_prack a st
      else if name == codes "SUBSCRIBE"
      then on_subscribe a st
      else (dropped, st)

  -- A request, or a response to an INVITE that went to the core.
  unfoldable pub receive : Incoming → PcscfState E → PcscfState E
  unfolding dispatch on_invite_response
  receive (arrives a) st = (dispatch a st).1
  receive (replies m) st = (on_invite_response s m st).1

  unfoldable pub receive_all : List Incoming → PcscfState E → PcscfState E
  receive_all [] st = st
  receive_all (i ∷ incoming) st = receive_all incoming (receive i st)
