-- ===== src/Proxy/Stateful.antt =====
-- sip/proxy_core.cpp: forwardStateful, and forwardResponse, which sends a response to where its next
-- Via header says.
use sim_ims.Prelude.{
  ℕ, zero, ◌≡◌, refl, sym, ap, ◌∙◌, Bool, ◌&&◌, Option, none, some, List, [], ◌∷◌, arith, is_empty,
  if◌then◌else◌, ◌==◌, Option-cases, Bool-cases, ◌⊎◌, inl, inr,
}
use sim_ims.Prelude.Text.{Text, codes, text_instance}
use sim_ims.Common.{Result, ok, err, ErrorInfo, k_sip_transport_error}
use sim_ims.Bencode.{ℤ, pos, stoll}
use sim_ims.Uri.{lowercase}
use sim_ims.Uri.Endpoints.{OsipUri, to_port}
use sim_ims.Message.{SipMessage, Via}
use sim_ims.Message.Forwarding.{max_forwards, decrement_max_forwards, remove_top_via}
use sim_ims.Transaction.{Endpoint}
use sim_ims.Proxy.{
  ProxyCore, Prepared, throws, refused, prepared, prepare_request_for_forward,
  process_route_headers, add_record_route_of, is_loop_detected, too_many_hops, defaulted,
}

-- std::atoi of a port, as a port; C leaves a number that does not fit undefined.
unfoldable pub port_number : Text → ℕ
port_number s = elim (stoll s) [ none ↦ 0 | some i ↦ to_port i ]

abbrev via_host : Via → Text
via_host via = elim via.received [ none ↦ via.host | some host ↦ host ]

abbrev written_port : Option Text → ℕ
written_port none = 5060
written_port (some port) = port_number port

abbrev pub via_port : Via → ℕ
via_port via = elim via.rport [
  | none ↦ written_port via.port
  | some rport ↦ if is_empty rport then written_port via.port else port_number rport
]

-- Where a response with this Via header on top goes.
unfoldable pub via_endpoint : Via → Endpoint
unfolding port_number
via_endpoint via = record {
  address = via_host via;
  port = via_port via;
  transport = if lowercase via.protocol == codes "tcp" then codes "tcp" else codes "udp";
}

abbrev transport_error : Text → ErrorInfo
transport_error message = record { code = k_sip_transport_error; message = message; detail = [] }

-- What is sent, and where to.
unfoldable pub forward_response : SipMessage → Result (SipMessage × Endpoint)
unfolding via_endpoint
forward_response m = elim m.vias [
  | [] ↦ err (transport_error (codes "No Via header in response"))
  | top ∷ below ↦ elim below [
    | [] ↦ err (transport_error (codes "No remaining Via header after removal"))
    | via ∷ others ↦ ok (remove_top_via m, via_endpoint via)
  ]
]

pub record ForwardOptions : Type 0 where
  pub add_record_route : Bool
  pub process_route_headers : Bool
  pub detect_loop : Bool

-- What came of it: an exception of std::stoi, or the responses upstream, the request that is given
-- to the stack, and the error that is returned.
pub data Forwarded : Type 0 where
  thrown : Forwarded
  forwarded : List (ℕ × Text) → Option (SipMessage × Endpoint) → Option ErrorInfo → Forwarded

-- Where a request was given to the stack for.
abbrev pub handed_to : Forwarded → Option Endpoint
handed_to (forwarded responses (some (m, dest)) e) = some dest
handed_to (forwarded responses none e) = none
handed_to thrown = none

abbrev internal_error : ℕ × Text
internal_error = (500, codes "Internal Server Error")

abbrev pub too_many : ℕ × Text
too_many = (483, codes "Too Many Hops")

abbrev pub loop_detected : ℕ × Text
loop_detected = (482, codes "Loop Detected")

-- After a request was not prepared.
abbrev refusal : Option ℤ → ErrorInfo → Forwarded
refusal none e = thrown
refusal (some (pos zero)) e = forwarded (too_many ∷ []) none (some e)
refusal _ e = forwarded (internal_error ∷ []) none (some e)

-- `sent` is the stack's answer.
abbrev hand_over : Result (Unit {0}) → SipMessage → Endpoint → Forwarded
hand_over (ok u) m dest = forwarded [] (some (m, dest)) none
hand_over (err e) m dest = forwarded (internal_error ∷ []) (some (m, dest)) (some e)

module _ (via_parse : Text → Option Via) (uri_parse : Text → Option OsipUri) where
  abbrev after_prepare : Prepared → Endpoint → Result (Unit {0}) → Forwarded
  after_prepare throws dest sent = thrown
  after_prepare (refused e m) dest sent = refusal (max_forwards m) e
  after_prepare (prepared m) dest sent = hand_over sent m dest

  abbrev shaped : ForwardOptions → ProxyCore → SipMessage → SipMessage
  shaped o p m =
      let routed = if o.process_route_headers then process_route_headers uri_parse p m else m in
      if o.add_record_route then add_record_route_of p routed else routed

  unfoldable pub forward_stateful :
      ForwardOptions → ProxyCore → Text → SipMessage → Endpoint → Result (Unit {0}) → Forwarded
  unfolding is_loop_detected process_route_headers add_record_route_of prepare_request_for_forward
      max_forwards
  forward_stateful o p branch m dest sent =
      if o.detect_loop && is_loop_detected p m
      then forwarded (loop_detected ∷ []) none none
      else after_prepare
          (prepare_request_for_forward via_parse p (shaped o p m) dest.transport branch) dest sent

  refused_zero :
      (p : ProxyCore) (m n : SipMessage) (transport branch : Text) (e : ErrorInfo)
      → prepare_request_for_forward via_parse p m transport branch ≡ refused e n
      → (max_forwards n ≡ some (pos 0)) × (e ≡ too_many_hops)
  unfolding prepare_request_for_forward
  refused_zero p m n transport branch e h = elim (Option-cases (max_forwards m)) [
    | inl f ↦ absurd (ground (arith, h, f))
    | inr (mf, f) ↦ elim (Option-cases (decrement_max_forwards (defaulted mf m))) [
      | inl g ↦ ground (arith, h, f, g)
      | inr (k, g) ↦ ground (arith, h, f, g)
    ]
  ]

  pub Outcomes : Forwarded → Endpoint → Result (Unit {0}) → Type 0
  Outcomes f dest sent =
      (f ≡ thrown)
      ⊎ (f ≡ forwarded (loop_detected ∷ []) none none)
      ⊎ (f ≡ forwarded (too_many ∷ []) none (some too_many_hops))
      ⊎ ((out : SipMessage) × (f ≡ hand_over sent out dest))

  prepare-Outcomes :
      (p : ProxyCore) (m : SipMessage) (dest : Endpoint) (branch : Text) (sent : Result (Unit {0}))
      (r : Prepared)
      → prepare_request_for_forward via_parse p m dest.transport branch ≡ r
      → Outcomes (after_prepare r dest sent) dest sent
  unfolding Outcomes
  prepare-Outcomes p m dest branch sent throws h = inl refl
  prepare-Outcomes p m dest branch sent (refused e n) h =
      let (is_zero, same) = refused_zero p m n dest.transport branch e h in
      inr (inr (inl (rw (after_prepare, is_zero, same) refl)))
  prepare-Outcomes p m dest branch sent (prepared out) h = inr (inr (inr (out, refl)))

  pub forward_stateful-Outcomes :
      (o : ForwardOptions) (p : ProxyCore) (branch : Text) (m : SipMessage) (dest : Endpoint)
      (sent : Result (Unit {0}))
      → Outcomes (forward_stateful o p branch m dest sent) dest sent
  unfolding forward_stateful Outcomes
  forward_stateful-Outcomes o p branch m dest sent =
      elim (Bool-cases (o.detect_loop && is_loop_detected p m)) [
        | inl e ↦ inr (inl (rw (forward_stateful, e) refl))
        | inr e ↦
            rw (forward_stateful, e) (prepare-Outcomes p (shaped o p m) dest branch sent _ refl)
      ]

  hand_over-dest :
      (sent : Result (Unit {0})) (m : SipMessage) (dest d : Endpoint)
      → handed_to (hand_over sent m dest) ≡ some d
      → d ≡ dest
  hand_over-dest (ok u) m dest d h = cc h
  hand_over-dest (err e) m dest d h = cc h

  -- A request that is given to the stack is for its destination.
  pub forward_stateful-dest :
      (o : ForwardOptions) (p : ProxyCore) (branch : Text) (m : SipMessage) (dest d : Endpoint)
      (sent : Result (Unit {0}))
      → handed_to (forward_stateful o p branch m dest sent) ≡ some d
      → d ≡ dest
  unfolding Outcomes
  forward_stateful-dest o p branch m dest d sent h =
      elim (forward_stateful-Outcomes o p branch m dest sent) [
        | inl e ↦ absurd (cc (sym (ap handed_to e) ∙ h))
        | inr (inl e) ↦ absurd (cc (sym (ap handed_to e) ∙ h))
        | inr (inr (inl e)) ↦ absurd (cc (sym (ap handed_to e) ∙ h))
        | inr (inr (inr (out, e))) ↦ hand_over-dest sent out dest d (sym (ap handed_to e) ∙ h)
      ]
