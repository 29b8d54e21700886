-- ===== src/Transaction/Examples.antt =====
-- An INVITE and its answers, in the transaction layer and in its transactions.
use sim_ims.Prelude.{ℕ, ◌≤◌, ◌≡◌, refl, true, false, none, some, List, [], ◌∷◌, arith}
use sim_ims.Prelude.Text.{codes, text_instance, nat_eq}
use sim_ims.Prelude.Table.{find}
use sim_ims.Common.{ok}
use sim_ims.Uri.{to_lower}
use sim_ims.Message.{
  StartLine, request, response, Via, SipMessage, method, status_code, cseq_method, via_branch,
  is_request,
}
use sim_ims.Transaction.{Endpoint, invite}
use sim_ims.Transaction.Server.{
  ServerTransaction, make_server, records, starts, acknowledges, timer_h_expires, run_sections,
}
use sim_ims.Transaction.Server.Notify.{run_sections-notified}
use sim_ims.Transaction.Client.{
  ClientTransaction, make_client, start, process_response, timer_b_fires,
}
use sim_ims.Transaction.Client.Retransmit.{
  expire_a, retransmit-schedule, timer_b_fires-process_response,
}
use sim_ims.Transaction.Layer.{make_layer, process_message, key_of, send_request, delivers, creates}
use sim_ims.Transaction.Layer.Invariant.{IsValid}
use sim_ims.Transaction.Layer.Steps.{
  Event, sends, receives, runs, sets_handler, stops, run, run-IsValid,
}
use sim_ims.Transaction.Layer.Requests.{process_message-same_key}
use sim_ims.Transaction.Layer.Responses.{send_request-process_message}

abbrev via : Via
via = record {
  protocol = codes "UDP";
  host = codes "h";
  port = none;
  branch = some (codes "z9");
  received = none;
  rport = none;
}

abbrev message : StartLine → SipMessage
message start = record {
  start = start;
  vias = via ∷ [];
  cseq = some record { number = some (codes "1"); method = invite };
  call_id = codes "c";
  from_header = codes "a";
  from_tag = some (codes "a");
  to_header = codes "b";
  to_tag = none;
  max_forwards_header = none;
  route_headers = [];
  record_routes = [];
  from_url = some (codes "sip:a@h");
  to_url = some (codes "sip:b@h");
  contacts = [];
  authorizations = [];
  proxy_authorizations = [];
  www_authenticates = [];
  proxy_authenticates = [];
  headers = [];
  body = none;
}

abbrev pub call : SipMessage
call = message (request invite (codes "sip:b"))

abbrev answer : ℕ → SipMessage
answer code = message (response code [])

abbrev pub peer : Endpoint
peer = record { address = codes "p"; port = 5060; transport = codes "UDP" }

abbrev incoming : ServerTransaction
incoming = record (make_server call peer) { on_terminated = true }

abbrev outgoing : ClientTransaction
outgoing = record (make_client call peer) { on_timeout = true; timer_b_armed = true }

run_sections-notified_example :
    (run_sections
      (records 486 (answer 486) ∷ starts 486 ∷ acknowledges ∷ timer_h_expires ∷ [])
      incoming).0
    ≤ 1
run_sections-notified_example =
    (run_sections-notified
      (records 486 (answer 486) ∷ starts 486 ∷ acknowledges ∷ timer_h_expires ∷ []) incoming).0

retransmit-schedule_example :
    (expire_a 2 (start (ok tt) (make_client call peer)).1).retransmit_count ≡ 2
unfolding to_lower
retransmit-schedule_example = (retransmit-schedule call peer 2 refl).0

timer_b_fires-process_response_example :
    (timer_b_fires (process_response (answer 180) outgoing).0).1 ≡ true
unfolding make_client status_code
timer_b_fires-process_response_example =
    ((timer_b_fires-process_response (answer 180) outgoing refl refl refl).0 (omega arith)
      (omega arith)).3

abbrev events : List Event
events =
    sets_handler
    ∷ receives call peer
    ∷ runs (records 486 (answer 486)) refl 0
    ∷ sends (ok tt) call peer
    ∷ receives (answer 200) peer
    ∷ stops
    ∷ []

run-IsValid_example : IsValid (run (λ m. ok m) events make_layer)
run-IsValid_example = run-IsValid (λ m. ok m) events

process_message-same_key_example :
    (process_message (λ m. ok m) call peer make_layer).0 ≡ creates 0 false
unfolding find is_request method
process_message-same_key_example =
    (process_message-same_key (λ m. ok m) call call peer make_layer 180 (answer 180) refl refl refl
      refl refl refl refl).0

send_request-process_message_example :
    (process_message
      (λ m. ok m)
      (answer 200)
      peer
      ((process_message
        (λ m. ok m)
        (answer 180)
        peer
        (send_request (ok tt) call peer make_layer).1).1)).0
    ≡ delivers (key_of (codes "z9") invite)
unfolding find is_request cseq_method via_branch status_code
send_request-process_message_example =
    (send_request-process_message (λ m. ok m) call (answer 200) (answer 200) (answer 180 ∷ []) peer
      peer make_layer refl refl refl refl (((refl, refl, refl), omega arith), tt) (refl, refl, refl)
      (refl, refl, refl)).1
