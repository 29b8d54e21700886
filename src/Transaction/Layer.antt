-- ===== src/Transaction/Layer.antt =====
-- TransactionLayer of sip/transaction.cpp. A server transaction is an object that the table, its
-- timers and the request handler share: `heap` holds the objects by identity, each with the key that
-- its termination callback has captured. A client transaction is kept in its table; once it has left
-- it, its timers are cancelled.
pub mod Invariant
pub mod Clients
pub mod Kept
pub mod Steps
pub mod Requests
pub mod Responses
use sim_ims.Prelude.{
  ℕ, suc, Bool, true, false, not, ◌&&◌, Option, none, some, List, [], ◌∷◌, leb, ◌++◌, is_empty,
  is_some, if◌then◌else◌, ◌==◌,
}
use sim_ims.Prelude.Text.{Text, codes, text_instance, nat_eq}
use sim_ims.Prelude.Table.{Table, find, insert, erase, contains}
use sim_ims.Common.{Result, ok, err, VoidResult, ErrorInfo, k_sip_transaction_failed}
use sim_ims.Message.{SipMessage, Via, method, cseq_method, status_code, via_branch, is_request}
use sim_ims.Transaction.{Endpoint, invite, ack}
use sim_ims.Transaction.Server.{
  ServerTransaction, make_server, set_on_terminated, shutdown_server, retransmit_last_response,
  Section, section, acknowledges,
}
use sim_ims.Transaction.Client.{
  ClientTransaction, make_client, start, process_response, timer_b_fires, shutdown_client,
}

-- A server transaction and the key its callback has captured.
abbrev pub Object : Type 0
Object = Text × ServerTransaction

pub record TransactionLayer : Type 0 where
  pub shutting_down : Bool
  pub client_txns : Table Text ClientTransaction
  pub server_txns : Table Text ℕ
  pub request_handler : Bool
  pub heap : Table ℕ Object
  pub next_id : ℕ

abbrev pub make_layer : TransactionLayer
make_layer = record {
  shutting_down = false;
  client_txns = [];
  server_txns = [];
  request_handler = false;
  heap = [];
  next_id = 0;
}

-- branch + ":" + method
abbrev pub key_of : Text → Text → Text
key_of branch name = branch ++ 58 ∷ name

unfoldable pub get_transaction_key : SipMessage → Text
get_transaction_key m = key_of (via_branch m) (if is_request m then method m else cseq_method m)

pub via_keys : Text → List Via → List Text
via_keys name [] = []
via_keys name (via ∷ vias) =
    let rest = via_keys name vias in
    elim via.branch [ none ↦ rest | some branch ↦ key_of branch name ∷ rest ]

unfoldable pub response_transaction_keys : SipMessage → List Text
unfolding via_keys
response_transaction_keys m =
    if is_empty (cseq_method m) then [] else via_keys (cseq_method m) m.vias

-- The first key that has a transaction.
unfoldable pub find_first :
    Table Text ClientTransaction → List Text → Option (Text × ClientTransaction)
find_first m [] = none
find_first m (key ∷ keys) =
    let rest = find_first m keys in elim (find m key) [ none ↦ rest | some t ↦ some (key, t) ]

unfoldable pub find_client_transaction :
    TransactionLayer → SipMessage → Option (Text × ClientTransaction)
unfolding find_first response_transaction_keys
find_client_transaction s m = find_first s.client_txns (response_transaction_keys m)

abbrev pub failed : Text → ErrorInfo
failed message = record { code = k_sip_transaction_failed; message = message; detail = [] }

abbrev pub stopping : ErrorInfo
stopping = failed (codes "Transaction layer is shutting down")

-- The section of sendRequest that enters the transaction.
unfoldable pub register_client :
    Text → ClientTransaction → TransactionLayer → VoidResult × TransactionLayer
register_client key t s =
    if s.shutting_down
    then (err stopping, s)
    else if contains s.client_txns key
    then (err (failed (codes "Duplicate client transaction key " ++ key)), s)
    else (ok tt, record s { client_txns = insert s.client_txns key t })

-- The transaction is started where it stands in the table, or leaves it.
unfoldable pub start_client :
    VoidResult → Text → ClientTransaction → TransactionLayer → Result Text × TransactionLayer
unfolding start
start_client sent key t s =
    let r = start sent t in
    elim r.0 [
      | ok u ↦ (ok key, record s { client_txns = insert s.client_txns key r.1 })
      | err e ↦ (err e, record s { client_txns = erase s.client_txns key })
    ]

-- `sent` is the outcome of transport->send().
unfoldable pub send_request :
    VoidResult → SipMessage → Endpoint → TransactionLayer → Result Text × TransactionLayer
unfolding register_client start_client
send_request sent request dest s =
    if s.shutting_down
    then (err stopping, s)
    else if is_empty (via_branch request)
    then (err (failed (codes "Request has no Via branch")), s)
    else let key = key_of (via_branch request) (cseq_method request) in
      let t = record (make_client request dest) { on_response = true; on_timeout = true } in
      let r = register_client key t s in
      elim r.0 [ err e ↦ (err e, r.1) | ok u ↦ start_client sent key t r.1 ]

-- The termination callback of a server transaction.
unfoldable pub on_server_terminated : ℕ → Text → TransactionLayer → TransactionLayer
on_server_terminated id key s = if s.shutting_down then s else elim (find s.server_txns key) [
  | none ↦ s
  | some other ↦ if other == id then record s { server_txns = erase s.server_txns key } else s
]

-- A section of a server transaction, and its callback if it calls it.
unfoldable pub server_section : Section → ℕ → TransactionLayer → TransactionLayer
unfolding on_server_terminated
server_section c id s = elim (find s.heap id) [
  | none ↦ s
  | some o ↦
      let r = section c o.1 in
      let kept = record s { heap = insert s.heap id (o.0, r.0) } in
      if r.1 then on_server_terminated id o.0 kept else kept
]

-- What becomes of a message: it is dropped, is a response without a transaction, is delivered to
-- the callback of a client transaction, acknowledges a server transaction, is a request that
-- another one is answered like, or makes a server transaction, which the handler is given if it is set.
pub data Outcome : Type 0 where
  drops ignores : Outcome
  delivers : Text → Outcome
  acknowledged : ℕ → Outcome
  answers : ℕ → Result SipMessage → Outcome
  creates : ℕ → Bool → Outcome

-- A client transaction takes a response; its callback erases it after a final one.
unfoldable pub process_client_response :
    SipMessage → Text → ClientTransaction → TransactionLayer → Outcome × TransactionLayer
unfolding process_response
process_client_response m key t s =
    let r = process_response m t in
    let kept = record s { client_txns = insert s.client_txns key r.0 } in
    if r.1
    then (
      delivers key,
      if leb 200 (status_code m)
          then record kept { client_txns = erase kept.client_txns key }
          else kept,
    )
    else (ignores, kept)

-- A request for a transaction that exists is answered like the one before.
unfoldable pub answer_again :
    (SipMessage → Result SipMessage) → ℕ → TransactionLayer → Outcome × TransactionLayer
answer_again clone id s = elim (find s.heap id) [
  | none ↦ (drops, s)
  | some o ↦ (answers id (retransmit_last_response clone o.1), s)
]

-- A new transaction: the object, its entry in the table, and the handler.
unfoldable pub create_server :
    (SipMessage → Result SipMessage)
    → Text
    → SipMessage
    → Endpoint
    → TransactionLayer
    → Outcome × TransactionLayer
unfolding answer_again
create_server clone key m source s =
    if s.shutting_down then (drops, s) else elim (find s.server_txns key) [
      | some id ↦ answer_again clone id s
      | none ↦
          let t = set_on_terminated true (make_server m source) in
          (
            creates s.next_id s.request_handler,
            record s {
              server_txns = insert s.server_txns key s.next_id;
              heap = insert s.heap s.next_id (key, t);
              next_id = suc s.next_id;
            },
          )
    ]

unfoldable pub process_request :
    (SipMessage → Result SipMessage)
    → SipMessage
    → Endpoint
    → TransactionLayer
    → Outcome × TransactionLayer
unfolding create_server get_transaction_key
process_request clone m source s =
    let key = get_transaction_key m in
    elim (find s.server_txns key) [
      | some id ↦ answer_again clone id s
      | none ↦ create_server clone key m source s
    ]

unfoldable pub process_message :
    (SipMessage → Result SipMessage)
    → SipMessage
    → Endpoint
    → TransactionLayer
    → Outcome × TransactionLayer
unfolding process_client_response process_request server_section find_client_transaction
process_message clone m source s =
    if s.shutting_down
    then (drops, s)
    else if not (is_request m)
    then elim (find_client_transaction s m) [
      | none ↦ (ignores, s)
      | some (key, t) ↦ process_client_response m key t s
    ]
    else if method m == ack
    then elim (find s.server_txns (key_of (via_branch m) invite)) [
      | some id ↦ (acknowledged id, server_section acknowledges id s)
      | none ↦ process_request clone m source s
    ]
    else process_request clone m source s

-- Timer B of a client transaction in the table: its callback erases it.
unfoldable pub client_timeout : Text → TransactionLayer → TransactionLayer
unfolding timer_b_fires
client_timeout key s = elim (find s.client_txns key) [
  | none ↦ s
  | some t ↦
      let r = timer_b_fires t in
      let kept = record s { client_txns = insert s.client_txns key r.0 } in
      if r.1 && not s.shutting_down
      then record kept { client_txns = erase kept.client_txns key }
      else kept
]

shutdown_servers : Table Text ℕ → Table ℕ Object → Table ℕ Object
unfolding shutdown_server
shutdown_servers [] heap = heap
shutdown_servers ((key, id) ∷ m) heap =
    let rest = shutdown_servers m heap in
    elim (find rest id) [ none ↦ rest | some o ↦ insert rest id (o.0, shutdown_server o.1) ]

abbrev shutdown_clients : Table Text ClientTransaction → List ClientTransaction
shutdown_clients [] = []
shutdown_clients ((key, t) ∷ m) = shutdown_client t ∷ shutdown_clients m

-- The layer after it, and the client transactions that were shut down and have left it.
unfoldable pub shutdown : TransactionLayer → TransactionLayer × List ClientTransaction
unfolding shutdown_servers
shutdown s = (
  record s {
    shutting_down = true;
    client_txns = [];
    server_txns = [];
    request_handler = false;
    heap = shutdown_servers s.server_txns s.heap;
  },
  shutdown_clients s.client_txns,
)
