-- ===== src/Pcscf/Topology.antt =====
-- The topology routes of the P-CSCF: what they remember, and where a request to the core goes.
use sim_ims.Prelude.{
  ℕ, ◌≡◌, refl, sym, subst, ap, ◌∙◌, inl, inr, Bool, true, false, Option, none, some, List, [], ◌∷◌,
  arith, All, filter, Bool-cases, Option-cases,
}
use sim_ims.Prelude.Text.{Text, text_instance}
use sim_ims.Prelude.Table.{find, insert}
use sim_ims.Message.{SipMessage}
use sim_ims.Transaction.{Endpoint}
use sim_ims.Media.Invite.{mark_terminating}
use sim_ims.Pcscf.{
  PcscfService, PcscfState, RtpengineClient, TopologyRouteEntry, TopologyRoutes,
  purge_expired_topology_routes, remember_topology_route, extract_topology_token, core_destination,
  routed_to, is_core_facing_request, resolve_core_destination, proxy, media_key_for,
}
use sim_ims.Media.{MediaTerminationPlan, Sessions}
use sim_ims.Pcscf.Anchoring.{ended, on_invite_response, terminate_media_for_request}
use sim_ims.Pcscf.Handlers.{
  forward_options, stateful, stateless, dropped, RequestArrival, Passed, Incoming, arrives, replies,
  forward_stateful_to_core, forward_stateful_to_ue, forward_stateless_to_core, on_register,
  on_invite, on_bye, on_ack, on_prack, on_subscribe, dispatch, receive, receive_all, relayed,
  remembered, offer_media, with_path,
}
use sim_ims.Proxy.Stateful.{handed_to, forward_stateful-dest}
use sim_ims.Pcscf.Cases.{
  to_ue-both, stateless_to_ue-both, relayed-both, on_ack-both, on_invite-both, dispatch-each,
  response-each,
}
use sim_ims.Proxy.{is_loop_detected, build_path_header, process_route_headers}

module _ (dest : Endpoint) where
  abbrev GoTo : TopologyRoutes → Type 0
  GoTo = All (λ (e : Text × TopologyRouteEntry). e.1.endpoint ≡ dest)

  filter-GoTo :
      (p : Text × TopologyRouteEntry → Bool) (t : TopologyRoutes) → GoTo t → GoTo (filter p t)
  filter-GoTo p [] h = tt
  filter-GoTo p (e ∷ t) h = ground (arith, h.0, filter-GoTo p t h.1)

  insert-GoTo :
      (t : TopologyRoutes) (token : Text) (e : TopologyRouteEntry)
      → e.endpoint ≡ dest
      → GoTo t
      → GoTo (insert t token e)
  unfolding insert
  insert-GoTo [] token e q h = (q, tt)
  insert-GoTo (f ∷ t) token e q h = ground (arith, q, h.0, h.1, insert-GoTo t token e q h.1)

  find-GoTo :
      (t : TopologyRoutes) (token : Text) (e : TopologyRouteEntry)
      → GoTo t
      → find t token ≡ some e
      → e.endpoint ≡ dest
  unfolding find
  find-GoTo [] token e h q = cc q
  find-GoTo (f ∷ t) token e h q = ground (arith, q, h.0, find-GoTo t token e h.1)

module _ {ℓ} {E : Type ℓ} (s : PcscfService E) where
  abbrev Routed : PcscfState E → Type 0
  Routed st = GoTo (core_destination s) st.topology

  abbrev Routes : Passed × PcscfState E → Type 0
  Routes r = Routed r.1

  resolve-GoTo :
      (now : ℕ) (m : SipMessage) (t : TopologyRoutes)
      → GoTo (core_destination s) t
      → ((resolve_core_destination s now m t).0 ≡ core_destination s)
        × GoTo (core_destination s) (resolve_core_destination s now m t).1
  unfolding resolve_core_destination purge_expired_topology_routes
  resolve-GoTo now m t h = elim (Option-cases (extract_topology_token m)) [
    | inl e ↦ rw (resolve_core_destination, e) (refl, h)
    | inr (token, e) ↦
        let kept = purge_expired_topology_routes now t in
        let all_kept = filter-GoTo (core_destination s) _ t h in
        elim (Option-cases (find kept token)) [
          | inl f ↦ rw (resolve_core_destination, e) (ap (routed_to s) f, all_kept)
          | inr (r, f) ↦
              rw (resolve_core_destination, e)
                (
                  ap (routed_to s) f ∙ find-GoTo (core_destination s) kept token r all_kept f,
                  all_kept,
                )
        ]
  ]

  remember-Routed :
      (a : RequestArrival) (m : SipMessage) (st : PcscfState E)
      → Routed st
      → Routed (remembered s a m st)
  unfolding remember_topology_route purge_expired_topology_routes insert resolve_core_destination
  remember-Routed a m st h =
      let (same, kept) = resolve-GoTo a.now m st.topology h in
      insert-GoTo (core_destination s) _ a.token _ same (filter-GoTo (core_destination s) _ _ kept)

  to_core-Routes :
      (b : Bool) (a : RequestArrival) (m : SipMessage) (st : PcscfState E)
      → Routed st
      → Routes (forward_stateful_to_core s b a m st)
  unfolding forward_stateful_to_core
  to_core-Routes b a m st h = (resolve-GoTo a.now m st.topology h).1

  to_ue-Routes :
      (b : Bool) (a : RequestArrival) (m : SipMessage) (st : PcscfState E)
      → Routed st
      → Routes (forward_stateful_to_ue s b a m st)
  to_ue-Routes b a m st h = to_ue-both s Routes a b m st (λ r. h) (λ r. remember-Routed a m st h)

  relayed-Routes :
      (b c : Bool) (a : RequestArrival) (st : PcscfState E)
      → Routed st
      → Routes (relayed s b c a st)
  relayed-Routes b c a st h =
      relayed-both s Routes a b c st (to_ue-Routes b a a.request st h)
        (to_core-Routes c a a.request st h)

  stateless_to_core-Routes :
      (a : RequestArrival) (m : SipMessage) (st : PcscfState E)
      → Routed st
      → Routes (forward_stateless_to_core s a m st)
  unfolding forward_stateless_to_core
  stateless_to_core-Routes a m st h = elim (Bool-cases (is_loop_detected (proxy s) m)) [
    | inl e ↦ rw (forward_stateless_to_core, e) h
    | inr e ↦
        rw (forward_stateless_to_core, e)
          (resolve-GoTo a.now (process_route_headers s.uri_parse (proxy s) m) st.topology h).1
  ]

  on_ack-Routes : (a : RequestArrival) (st : PcscfState E) → Routed st → Routes (on_ack s a st)
  on_ack-Routes a st h =
      on_ack-both s Routes a st
        (stateless_to_ue-both s Routes a a.request st (λ r. h)
          (λ r. remember-Routed a a.request st h))
        (stateless_to_core-Routes a a.request st h)

  ended-Routed :
      (r : Option MediaTerminationPlan × Sessions) (st : PcscfState E)
      → Routed st
      → Routed (ended s r st)
  ended-Routed (none, media) st h = h
  ended-Routed (some plan, media) st h = h

  terminated-Routed :
      (m : SipMessage) (st : PcscfState E) → Routed st → Routed (terminate_media_for_request s m st)
  unfolding terminate_media_for_request
  terminated-Routed m st h = ended-Routed (mark_terminating (media_key_for m) st.media) st h

  offer-Routed :
      (o : Option (RtpengineClient E)) (sdp : Option Text) (a : RequestArrival) (st : PcscfState E)
      → Routed st
      → Routed (offer_media s o sdp a st).1
  offer-Routed none sdp a st h = h
  offer-Routed (some r) none a st h = h
  offer-Routed (some r) (some sdp) a st h = h

  on_invite-Routes :
      (a : RequestArrival) (st : PcscfState E) → Routed st → Routes (on_invite s a st)
  on_invite-Routes a st h =
      let r = offer_media s s.rtpengine a.request.body a st in
      on_invite-both s Routes a st (to_ue-Routes true a a.request st h)
        (to_core-Routes true a r.0 r.1 (offer-Routed s.rtpengine a.request.body a st h))

  dispatch-Routes : (a : RequestArrival) (st : PcscfState E) → Routed st → Routes (dispatch s a st)
  unfolding on_register on_bye on_prack on_subscribe
  dispatch-Routes a st h =
      let ended = terminate_media_for_request s a.request st in
      dispatch-each s Routes a st
        (to_core-Routes false a (with_path s (build_path_header (proxy s)) a.request) st h)
        (on_invite-Routes a st h)
        (relayed-Routes true false a ended (terminated-Routed a.request st h))
        (on_ack-Routes a st h) (relayed-Routes true false a st h) (relayed-Routes true true a st h)
        h

  response-Routed :
      (m : SipMessage) (st : PcscfState E) → Routed st → Routed (on_invite_response s m st).1
  response-Routed m st h =
      response-each s (λ (r : SipMessage × PcscfState E). Routed r.1) m st (λ x. h) h h (λ x e. h)
        (λ x e k sdp. h) (λ x e k sdp. h)

  receive_all-Routed :
      (is : List Incoming) (st : PcscfState E) → Routed st → Routed (receive_all s is st)
  unfolding receive_all receive
  receive_all-Routed [] st h = h
  receive_all-Routed (arrives a ∷ is) st h = receive_all-Routed is _ (dispatch-Routes a st h)
  receive_all-Routed (replies m ∷ is) st h = receive_all-Routed is _ (response-Routed m st h)

-- Where a request went, if it was passed on.
abbrev pub went_to : Passed → Option Endpoint
went_to (stateful f) = handed_to f
went_to (stateless r dest) = some dest
went_to dropped = none

module _ {ℓ} {E : Type ℓ} (s : PcscfService E) where
  -- If it was passed on, it went to the core.
  abbrev Cored : Passed × PcscfState E → Type 0
  Cored r = (d : Endpoint) → went_to r.0 ≡ some d → d ≡ core_destination s

  to_core-Cored :
      (b : Bool) (a : RequestArrival) (m : SipMessage) (st : PcscfState E)
      → Routed s st
      → Cored (forward_stateful_to_core s b a m st)
  unfolding forward_stateful_to_core
  to_core-Cored b a m st h d went =
      forward_stateful-dest s.via_parse s.uri_parse (forward_options b) (proxy s) a.branch m _ d
        a.sent went
      ∙ (resolve-GoTo s a.now m st.topology h).0

  stateless-Cored :
      (a : RequestArrival) (m : SipMessage) (st : PcscfState E)
      → Routed s st
      → Cored (forward_stateless_to_core s a m st)
  unfolding forward_stateless_to_core
  stateless-Cored a m st h = elim (Bool-cases (is_loop_detected (proxy s) m)) [
    | inl e ↦ rw (forward_stateless_to_core, e) (λ d went. cc went)
    | inr e ↦
        let m' = process_route_headers s.uri_parse (proxy s) m in
        rw (forward_stateless_to_core, e)
          (λ d went. cc (went, (resolve-GoTo s a.now m' st.topology h).0))
  ]

  relayed-Cored :
      (b c : Bool) (a : RequestArrival) (st : PcscfState E)
      → is_core_facing_request s a.source ≡ false
      → Routed s st
      → Cored (relayed s b c a st)
  relayed-Cored b c a st ue h = rw ue (to_core-Cored c a a.request st h)

  dispatch-Cored :
      (a : RequestArrival) (st : PcscfState E)
      → is_core_facing_request s a.source ≡ false
      → Routed s st
      → Cored (dispatch s a st)
  unfolding on_register on_bye on_prack on_subscribe on_ack on_invite
  dispatch-Cored a st ue h =
      let r = offer_media s s.rtpengine a.request.body a st in
      let ended = terminate_media_for_request s a.request st in
      dispatch-each s Cored a st
        (to_core-Cored false a (with_path s (build_path_header (proxy s)) a.request) st h)
        (rw (on_invite, ue)
          (to_core-Cored true a r.0 r.1 (offer-Routed s s.rtpengine a.request.body a st h)))
        (relayed-Cored true false a ended ue (terminated-Routed s a.request st h))
        (rw (on_ack, ue) (stateless-Cored a a.request st h)) (relayed-Cored true false a st ue h)
        (relayed-Cored true true a st ue h) (λ d went. cc went)

-- Whatever requests and responses the P-CSCF has handled since it started, a request that does not come
-- from the core, and that it passes on, goes to the configured core entry, whichever topology token is
-- on its Route.
pub receive_all-core_destination {ℓ} :
    {E : Type ℓ} (s : PcscfService E) (is : List Incoming) (st : PcscfState E) (a : RequestArrival)
    (d : Endpoint)
    → st.topology ≡ []
    → is_core_facing_request s a.source ≡ false
    → went_to (dispatch s a (receive_all s is st)).0 ≡ some d
    → d ≡ core_destination s
receive_all-core_destination s is st a d h ue went =
    dispatch-Cored s a (receive_all s is st) ue
      (receive_all-Routed s is st (subst (GoTo (core_destination s)) (sym h) tt)) d went
