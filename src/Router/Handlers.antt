-- ===== src/Router/Handlers.antt =====
-- s-cscf/session_router.cpp: the handlers of requests and the callbacks of their responses. What a
-- handler sends is a list of actions, in order; createResponse and the transactions do the rest.
use sim_ims.Prelude.{
  ℕ, Bool, true, false, ◌⊎◌, inl, inr, not, ◌&&◌, Option, none, some, List, [], ◌∷◌, leb, ltb,
  is_empty, if◌then◌else◌, ◌==◌,
}
use sim_ims.Prelude.Text.{Text, codes, text_instance}
use sim_ims.Prelude.Table.{find, insert, erase}
use sim_ims.Common.{Result, ok, err}
use sim_ims.Store.{RegistrationBinding, ContactBinding, active_contacts}
use sim_ims.Uri.{extract_uri_from_name_addr}
use sim_ims.Uri.Endpoints.{OsipUri, normalize_impu_uri, parse_endpoint_from_uri}
use sim_ims.Message.{SipMessage, Via, from_tag_of, to_tag_of, via_branch}
use sim_ims.Message.Forwarding.{request_uri, set_request_uri}
use sim_ims.Proxy.{
  ProxyCore, Prepared, throws, refused, prepared, prepare_request_for_forward,
  process_route_headers, build_forwarded_cancel,
}
use sim_ims.Transaction.{Endpoint}
use sim_ims.Router.{
  DialogKey, SessionInfo, SessionMap, dialog_key_eq, invite_key, find_session_for_request,
  find_initial_session, find_cancel_session, resolve_in_dialog_destination, purge_expired_sessions,
  erase_canceled_sessions, handle_invite_response_state,
}

-- What the callback of a request that was sent does, besides passing the response back.
pub data OnResponse : Type 0 where
  invite_answer : Text → Text → Bool → OnResponse
  bye_answer : DialogKey → OnResponse
  prack_answer cancel_answer : OnResponse

-- A response to the request at hand; a request through a client transaction; one without.
pub data Action : Type 0 where
  responds : ℕ → Text → Action
  sends : SipMessage → Endpoint → OnResponse → Action
  sends_stateless : SipMessage → Endpoint → Action

-- `thrown` is an exception of std::stoi at Max-Forwards, which leaves the handler.
pub record Handled : Type 0 where
  pub sessions : SessionMap
  pub actions : List Action
  pub thrown : Bool

abbrev pub does : List Action → SessionMap → Handled
does actions s = record { sessions = s; actions = actions; thrown = false }

abbrev server_error : Action
server_error = responds 500 (codes "Server Internal Error")

abbrev pub does_not_exist : Action
does_not_exist = responds 481 (codes "Call/Transaction Does Not Exist")

unfoldable pub is_usable_destination : Endpoint → Bool
is_usable_destination e = not (is_empty e.address) && not (e.address == codes "0.0.0.0")

-- The entry that a request in a dialog finds, and where it goes.
abbrev resolved : SipMessage → DialogKey × SessionInfo → Option (DialogKey × SessionInfo × Endpoint)
resolved m (key, i) = elim (resolve_in_dialog_destination m i) [
  | none ↦ none
  | some dest ↦ some (key, i, dest)
]

unfoldable pub in_dialog_destination :
    SipMessage → SessionMap → Option (DialogKey × SessionInfo × Endpoint)
unfolding resolve_in_dialog_destination find_session_for_request
in_dialog_destination m s = elim (find_session_for_request m s) [
  | none ↦ none
  | some entry ↦ resolved m entry
]

-- The entry of an INVITE that is forwarded; a flag of an older entry that is not set stays.
abbrev old_cancel_seen : Option SessionInfo → Bool
old_cancel_seen none = false
old_cancel_seen (some i) = i.cancel_seen

unfoldable pub record_invite :
    SipMessage → Endpoint → Endpoint → Text → Text → ℕ → SessionMap → SessionMap
unfolding purge_expired_sessions
record_invite m source dest callee_impu branch now s =
    let purged = purge_expired_sessions now s in
    let key = invite_key m.call_id (from_tag_of m) in
    insert purged key (record {
      call_id = m.call_id;
      caller_tag = from_tag_of m;
      callee_tag = [];
      caller_impu = m.from_header;
      callee_impu = callee_impu;
      caller_endpoint = source;
      callee_endpoint = dest;
      callee_invite_branch = branch;
      created = now;
      last_updated = now;
      established = false;
      bye_seen = false;
      cancel_seen = old_cancel_seen (find purged key);
    })

-- `drawn` is the branch that is drawn, `clone` and the parsers are osip's.
module _ (via_parse : Text → Option Via) (uri_parse : Text → Option OsipUri) (p : ProxyCore)
    (drawn : Text) where
  -- The request with its route taken off and prepared.
  abbrev pub routed : SipMessage → Endpoint → Prepared
  routed m dest =
      prepare_request_for_forward via_parse p (process_route_headers uri_parse p m) dest.transport
        drawn

  abbrev pub forward :
      Prepared
      → Endpoint
      → OnResponse
      → (SipMessage → SessionMap → SessionMap)
      → SessionMap
      → Handled
  forward throws dest then_do keep s = record { sessions = s; actions = []; thrown = true }
  forward (refused e m) dest then_do keep s = does (server_error ∷ []) s
  forward (prepared m) dest then_do keep s = does (sends m dest then_do ∷ []) (keep m s)

  -- `cloned` is the copy of the request, if osip makes one.
  unfoldable pub handle_bye : Option SipMessage → SipMessage → SessionMap → Handled
  unfolding in_dialog_destination
  handle_bye none m s = does (server_error ∷ []) s
  handle_bye (some cloned) m s = elim (in_dialog_destination m s) [
    | none ↦ does (does_not_exist ∷ []) s
    | some (key, i, dest) ↦
        forward (routed cloned dest) dest (bye_answer key) (λ _ t. t)
          (insert s key (record i { bye_seen = true }))
  ]

  unfoldable pub handle_prack : Option SipMessage → SipMessage → SessionMap → Handled
  unfolding in_dialog_destination
  handle_prack none m s = does (server_error ∷ []) s
  handle_prack (some cloned) m s = elim (in_dialog_destination m s) [
    | none ↦ does (does_not_exist ∷ []) s
    | some (key, i, dest) ↦ forward (routed cloned dest) dest prack_answer (λ _ t. t) s
  ]

  -- forwardRequest prepares and sends, and its error is logged.
  abbrev pub forward_stateless : Prepared → Endpoint → SessionMap → Handled
  forward_stateless throws dest s = record { sessions = s; actions = []; thrown = true }
  forward_stateless (refused e m) dest s = does [] s
  forward_stateless (prepared m) dest s = does (sends_stateless m dest ∷ []) s

  abbrev pub acknowledge :
      SipMessage → SipMessage → SessionMap → Option (DialogKey × SessionInfo) → Handled
  acknowledge cloned m s none = elim (find_initial_session m.call_id (from_tag_of m) s) [
    | none ↦ does [] s
    | some (key, i) ↦
        if i.cancel_seen
        then forward_stateless (routed cloned i.callee_endpoint) i.callee_endpoint
            (erase_canceled_sessions key s)
        else does [] s
  ]
  acknowledge cloned m s (some (key, i)) = elim (resolve_in_dialog_destination m i) [
    | none ↦ does [] s
    | some dest ↦
        forward_stateless (routed cloned dest) dest
          (if i.cancel_seen then erase_canceled_sessions key s else s)
  ]

  unfoldable pub handle_ack : Option SipMessage → SipMessage → SessionMap → Handled
  unfolding find_session_for_request resolve_in_dialog_destination erase_canceled_sessions
  handle_ack none m s = does [] s
  handle_ack (some cloned) m s = acknowledge cloned m s (find_session_for_request m s)

  abbrev pub canceled : Option SipMessage → Endpoint → SessionMap → Handled
  canceled none dest s = record { sessions = s; actions = []; thrown = true }
  canceled (some m) dest s = does (sends m dest cancel_answer ∷ []) s

  abbrev pub preceded : Action → Handled → Handled
  preceded a o = record o { actions = a ∷ o.actions }

  -- `cloned` is the copy that buildForwardedCancel makes.
  abbrev pub forward_cancel : Option SipMessage → DialogKey × SessionInfo → SessionMap → Handled
  forward_cancel none (key, i) s = does [] (insert s key (record i { cancel_seen = true }))
  forward_cancel (some cloned) (key, i) s =
      canceled
        (build_forwarded_cancel via_parse uri_parse p drawn
          (record {
            transport = i.callee_endpoint.transport;
            invite_branch = i.callee_invite_branch;
            local_address = p.local_address;
            local_port = p.local_port;
          })
          cloned)
        i.callee_endpoint (insert s key (record i { cancel_seen = true }))

  unfoldable pub handle_cancel : Option SipMessage → SipMessage → SessionMap → Handled
  unfolding find_cancel_session
  handle_cancel cloned m s = preceded (responds 200 (codes "OK")) (elim (find_cancel_session m s) [
    | none ↦ does [] s
    | some entry ↦ forward_cancel cloned entry s
  ])

  -- The first of two endpoints that is there and usable.
  abbrev usable : Option Endpoint → Option Endpoint
  usable none = none
  usable (some e) = if is_usable_destination e then some e else none

  abbrev or_else : Option Endpoint → Option Endpoint → Option Endpoint
  or_else none e = e
  or_else (some d) e = some d

  abbrev contact_destination : ContactBinding → Option Endpoint
  contact_destination c =
      or_else (if is_empty c.path then none else usable (parse_endpoint_from_uri uri_parse c.path))
        (usable (parse_endpoint_from_uri uri_parse c.contact_uri))

  unfoldable pub resolve_binding_destination : ℕ → RegistrationBinding → Option Endpoint
  unfolding active_contacts parse_endpoint_from_uri is_usable_destination
  resolve_binding_destination now b = elim (active_contacts now b) [
    | [] ↦ none
    | c ∷ cs ↦ contact_destination c
  ]

  -- A target of an INVITE outside a dialog: a refusal, or the request, where it goes and for whom.
  abbrev pub Target : Type 0
  Target = Action ⊎ (SipMessage × Endpoint × Text)

  abbrev unavailable : Target
  unavailable = inl (responds 480 (codes "Temporarily Unavailable"))

  -- `print` gives the text of a URI that is set.
  abbrev retarget : (Text → Text) → Text → SipMessage → SipMessage
  retarget print uri m = if is_empty uri then m else set_request_uri (print uri) m

  unfoldable pub invite_target :
      (Text → Text) → Option Endpoint → ℕ → SipMessage → Result RegistrationBinding → Target
  unfolding active_contacts resolve_binding_destination normalize_impu_uri
      extract_uri_from_name_addr
  invite_target print peer_icscf now m (err e) = elim peer_icscf [
    | none ↦ inl (responds 404 (codes "Not Found"))
    | some peer ↦ inr (m, peer, normalize_impu_uri uri_parse (request_uri m))
  ]
  invite_target print peer_icscf now m (ok b) = elim (active_contacts now b) [
    | [] ↦ unavailable
    | c ∷ cs ↦ elim (resolve_binding_destination now b) [
      | none ↦ unavailable
      | some dest ↦ inr (retarget print (extract_uri_from_name_addr c.contact_uri) m, dest, b.impu)
    ]
  ]

  -- The source of the request is `source`; `lookup` is the registration store's.
  abbrev pub invite_outside :
      (Text → Text)
      → Option Endpoint
      → (Text → Result RegistrationBinding)
      → ℕ
      → Endpoint
      → SipMessage
      → SipMessage
      → SessionMap
      → Handled
  invite_outside print peer_icscf lookup now source cloned m s =
      elim (invite_target print peer_icscf now cloned
        (lookup (normalize_impu_uri uri_parse (request_uri m)))) [
          | inl refusal ↦ does (refusal ∷ []) s
          | inr (out, dest, callee_impu) ↦
              forward (routed out dest) dest (invite_answer m.call_id (from_tag_of m) false)
                (λ sent t. record_invite m source dest callee_impu (via_branch sent) now t) s
        ]

  abbrev pub invite_inside : SipMessage → SipMessage → SessionMap → Handled
  invite_inside cloned m s = elim (in_dialog_destination m s) [
    | none ↦ does (does_not_exist ∷ []) s
    | some (key, i, dest) ↦
        forward (routed cloned dest) dest (invite_answer m.call_id (from_tag_of m) true) (λ _ t. t)
          s
  ]

  unfoldable pub handle_invite :
      (Text → Text)
      → Option Endpoint
      → (Text → Result RegistrationBinding)
      → ℕ
      → Endpoint
      → Option SipMessage
      → SipMessage
      → SessionMap
      → Handled
  unfolding in_dialog_destination invite_target record_invite normalize_impu_uri
  handle_invite print peer_icscf lookup now source none m s =
      does (responds 100 (codes "Trying") ∷ server_error ∷ []) s
  handle_invite print peer_icscf lookup now source (some cloned) m s =
      preceded (responds 100 (codes "Trying")) (
        if is_empty (to_tag_of m)
        then invite_outside print peer_icscf lookup now source cloned m s
        else invite_inside cloned m s)

-- The callback of a response: `passed` says whether it was passed back to the caller's side.
unfoldable pub handle_response : OnResponse → Bool → ℕ → Text → ℕ → SessionMap → SessionMap
unfolding handle_invite_response_state
handle_response (invite_answer call_id from_tag in_dialog) passed status callee_tag now s =
    if in_dialog then s else handle_invite_response_state call_id from_tag status callee_tag now s
handle_response (bye_answer key) passed status callee_tag now s =
    if passed && leb 200 status && ltb status 300
    then elim (find s key) [ none ↦ s | some i ↦ if i.bye_seen then erase s key else s ]
    else s
handle_response prack_answer passed status callee_tag now s = s
handle_response cancel_answer passed status callee_tag now s = s
