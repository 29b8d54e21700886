-- ===== src/Transaction/Layer/Steps.antt =====
-- Every operation of the transaction layer keeps its invariant, in any order.
use sim_ims.Prelude.{ℕ, ◌≡◌, refl, true, List, [], ◌∷◌, arith}
use sim_ims.Prelude.Text.{Text, text_instance, nat_eq}
use sim_ims.Prelude.Table.{find}
use sim_ims.Common.{Result, VoidResult}
use sim_ims.Message.{SipMessage}
use sim_ims.Transaction.{Endpoint}
use sim_ims.Transaction.Server.{Section}
use sim_ims.Transaction.Layer.{
  TransactionLayer, make_layer, send_request, process_message, server_section, client_timeout,
  shutdown,
}
use sim_ims.Transaction.Layer.Invariant.{IsValid, is_use, server_section-IsValid}
use sim_ims.Transaction.Layer.Clients.{client_timeout-IsValid, send_request-IsValid}
use sim_ims.Transaction.Layer.Kept.{process_message-IsValid, shutdown-IsValid}

-- What can happen to the layer, in any order. The outcome of a send is part of the event.
pub data Event : Type 0 where
  sends : VoidResult → SipMessage → Endpoint → Event
  receives : SipMessage → Endpoint → Event
  runs : (c : Section) → is_use c ≡ true → ℕ → Event
  expires : Text → Event
  sets_handler : Event
  stops : Event

unfoldable pub event :
    (SipMessage → Result SipMessage) → Event → TransactionLayer → TransactionLayer
unfolding send_request process_message server_section client_timeout shutdown
event clone (sends sent request dest) s = (send_request sent request dest s).1
event clone (receives m source) s = (process_message clone m source s).1
event clone (runs c used id) s = server_section c id s
event clone (expires key) s = client_timeout key s
event clone sets_handler s = record s { request_handler = true }
event clone stops s = (shutdown s).0

unfoldable pub run :
    (SipMessage → Result SipMessage) → List Event → TransactionLayer → TransactionLayer
unfolding event
run clone [] s = s
run clone (e ∷ es) s = run clone es (event clone e s)

event-IsValid :
    (clone : SipMessage → Result SipMessage) (e : Event) (s : TransactionLayer)
    → IsValid s
    → IsValid (event clone e s)
unfolding event
event-IsValid clone (sends sent request dest) s v = send_request-IsValid sent request dest s v
event-IsValid clone (receives m source) s v = process_message-IsValid clone m source s v
event-IsValid clone (runs c used id) s v = server_section-IsValid c id s used v
event-IsValid clone (expires key) s v = client_timeout-IsValid key s v
event-IsValid clone sets_handler s v = record {
  clients = v.clients;
  servers = v.servers;
  live = v.live;
  emptied = v.emptied;
  fresh = v.fresh;
}
event-IsValid clone stops s v = shutdown-IsValid s v

make_layer-IsValid : IsValid make_layer
unfolding find
make_layer-IsValid = record {
  clients = tt;
  servers = tt;
  live = λ k i e. ground (arith, e);
  emptied = λ stopped. (refl, refl);
  fresh = λ i h. refl;
}

run-IsValid_from :
    (clone : SipMessage → Result SipMessage) (es : List Event) (s : TransactionLayer)
    → IsValid s
    → IsValid (run clone es s)
unfolding run
run-IsValid_from clone [] s v = v
run-IsValid_from clone (e ∷ es) s v =
    run-IsValid_from clone es (event clone e s) (event-IsValid clone e s v)

-- However sends, messages, sections of server transactions, timeouts and a shutdown follow each other
-- from a new layer, each table has a key once, each entry of the server table is an object with that
-- key whose end was not notified yet, identities are never used twice, and both tables are empty
-- after a shutdown.
pub run-IsValid :
    (clone : SipMessage → Result SipMessage) (es : List Event) → IsValid (run clone es make_layer)
run-IsValid clone es = run-IsValid_from clone es make_layer make_layer-IsValid
