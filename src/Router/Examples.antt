-- ===== src/Router/Examples.antt =====
-- A call through the router.
use sim_ims.Prelude.{◌≡◌, refl, Bool, true, false, Option, none, some, List, [], ◌∷◌, arith}
use sim_ims.Prelude.Text.{Text, codes, text_instance}
use sim_ims.Prelude.Table.{find}
use sim_ims.Common.{err, k_registration_not_found}
use sim_ims.Uri.Endpoints.{OsipUri}
use sim_ims.Message.{SipMessage}
use sim_ims.Transaction.{Endpoint}
use sim_ims.Transaction.Examples.{call, peer}
use sim_ims.Proxy.Examples.{proxy, via_parse}
use sim_ims.Router.{
  SessionInfo, SessionMap, dialog_key_eq, invite_key, dialog_key, handle_invite_response_state,
  purge_expired_sessions, copied,
}
use sim_ims.Router.Handlers.{invite_answer}
use sim_ims.Router.Keys.{IsConsistent}
use sim_ims.Router.Calls.{call_of, answered, established_dialog}
use sim_ims.Router.Answers.{
  AreSame, handle_invite_response_state-answered, handle_invite_response_state-established,
}
use sim_ims.Router.Orders.{Arrival, invites, byes, answers, cancels, run, run-IsConsistent}

abbrev uri_parse : Text → Option OsipUri
uri_parse text = none

abbrev callee : Endpoint
callee = record { address = codes "q"; port = 5060; transport = codes "udp" }

abbrev session : Bool → SessionInfo
session cancel_seen = record {
  call_id = codes "c";
  caller_tag = codes "a";
  callee_tag = [];
  caller_impu = codes "a";
  callee_impu = codes "b";
  caller_endpoint = peer;
  callee_endpoint = callee;
  callee_invite_branch = codes "z9";
  created = 0;
  last_updated = 0;
  established = false;
  bye_seen = false;
  cancel_seen = cancel_seen;
}

abbrev invited : Bool → SessionMap
invited cancel_seen = (invite_key (codes "c") (codes "a"), session cancel_seen) ∷ []

abbrev tag : Text
tag = codes "t"

abbrev in_dialog : SipMessage
in_dialog = record call { to_tag = some tag }

invited-IsConsistent : (b : Bool) → IsConsistent (invited b)
unfolding find
invited-IsConsistent b = ((refl, tt), λ key i found. ground (arith, found))

-- An INVITE that goes to a peer, its answers, a CANCEL that is late, a BYE.
abbrev arrivals : List Arrival
arrivals =
    invites (λ impu. err (record { code = k_registration_not_found; message = []; detail = [] })) 0
      peer (codes "z9a") (some call) call
    ∷ answers (invite_answer (codes "c") (codes "a") false) true 180 tag 10
    ∷ answers (invite_answer (codes "c") (codes "a") false) true 200 tag 20
    ∷ cancels (codes "z9b") (some call) call
    ∷ byes (codes "z9b") (some in_dialog) in_dialog
    ∷ []

run-IsConsistent_example : IsConsistent (
    run via_parse uri_parse (λ uri. uri) (proxy (codes "p")) (some callee) arrivals (invited false))
run-IsConsistent_example =
    run-IsConsistent via_parse uri_parse (λ uri. uri) (proxy (codes "p")) (some callee) arrivals
      (invited false) (invited-IsConsistent false)

handle_invite_response_state-answered_example :
    AreSame
      (call_of
        (codes "c")
        (codes "a")
        (handle_invite_response_state (codes "c") (codes "a") 180 tag 10 (invited false)))
      (answered 180 tag
        (call_of (codes "c") (codes "a") (purge_expired_sessions 10 (invited false))))
handle_invite_response_state-answered_example =
    handle_invite_response_state-answered (codes "c") (codes "a") 180 tag 10 (invited false)
      (invited-IsConsistent false).0

abbrev confirmed : SessionMap
confirmed = (dialog_key (codes "c") (codes "a") tag, copied tag true 20 (session false)) ∷ []

confirmed-IsKeyed : IsConsistent confirmed
unfolding find
confirmed-IsKeyed = ((refl, tt), λ key i found. ground (arith, found))

-- A late 486 with the same tag.
handle_invite_response_state-established_example :
    (call_of
        (codes "c")
        (codes "a")
        (handle_invite_response_state (codes "c") (codes "a") 486 tag 200000 confirmed)).dialog
      tag
    ≡ established_dialog
unfolding find
handle_invite_response_state-established_example =
    handle_invite_response_state-established (codes "c") (codes "a") 486 tag 200000 confirmed tag
      confirmed-IsKeyed.0 refl refl
