-- ===== src/Transaction/Layer/Clients.antt =====
-- The operations on client transactions keep the invariant of the layer.
use sim_ims.Prelude.{
  ◌≡◌, ◌⊎◌, inl, inr, true, false, some, arith, ◌&&◌, not, Bool-cases, Option-cases,
}
use sim_ims.Prelude.Text.{Text, text_instance, nat_eq}
use sim_ims.Prelude.Table.{Table, find, insert, erase, IsKeyed, insert-IsKeyed, erase-IsKeyed}
use sim_ims.Common.{VoidResult}
use sim_ims.Message.{SipMessage, cseq_method, via_branch}
use sim_ims.Transaction.{Endpoint}
use sim_ims.Transaction.Client.{
  ClientTransaction, make_client, process_response, timer_b_fires, start,
}
use sim_ims.Transaction.Layer.{
  TransactionLayer, send_request, process_client_response, client_timeout, key_of, start_client,
  register_client,
}
use sim_ims.Transaction.Layer.Invariant.{IsValid}

clients-IsValid :
    (s : TransactionLayer) (m : Table Text ClientTransaction)
    → IsValid s
    → IsKeyed m
    → s.shutting_down ≡ false
    → IsValid (record s { client_txns = m })
clients-IsValid s m v keyed running = record {
  clients = keyed;
  servers = v.servers;
  live = v.live;
  emptied = λ stopped. ground (arith, stopped, running);
  fresh = v.fresh;
}

process_client_response-cases :
    (m : SipMessage) (key : Text) (t : ClientTransaction) (s : TransactionLayer)
    → let entered = insert s.client_txns key (process_response m t).0 in
      let r = (process_client_response m key t s).1 in
      (r ≡ (record s { client_txns = entered }))
      ⊎ (r ≡ (record s { client_txns = erase entered key }))
unfolding process_client_response
process_client_response-cases m key t s = ground arith

pub process_client_response-IsValid :
    (m : SipMessage) (key : Text) (t : ClientTransaction) (s : TransactionLayer)
    → IsValid s
    → s.shutting_down ≡ false
    → IsValid (process_client_response m key t s).1
process_client_response-IsValid m key t s v running =
    let next = (process_response m t).0 in
    let keyed = insert-IsKeyed s.client_txns key next v.clients in
    elim (process_client_response-cases m key t s) [
      | inl stays ↦ rw stays (clients-IsValid s (insert s.client_txns key next) v keyed running)
      | inr leaves ↦ rw leaves (
          clients-IsValid s (erase (insert s.client_txns key next) key) v
            (erase-IsKeyed (insert s.client_txns key next) key keyed) running)
    ]

client_timeout-cases :
    (key : Text) (s : TransactionLayer)
    → (client_timeout key s ≡ s)
      ⊎ ((t : ClientTransaction) × (find s.client_txns key ≡ some t)
          × (client_timeout key s
              ≡ (record s { client_txns = insert s.client_txns key (timer_b_fires t).0 })))
      ⊎ ((t : ClientTransaction) × (find s.client_txns key ≡ some t)
          × (client_timeout key s ≡ (record s {
            client_txns = erase (insert s.client_txns key (timer_b_fires t).0) key;
          })))
unfolding client_timeout
client_timeout-cases key s = elim (Option-cases (find s.client_txns key)) [
  | inl absent ↦ ground (arith, absent)
  | inr (t, e) ↦ elim (Bool-cases ((timer_b_fires t).1 && not s.shutting_down)) [
    | inl gone ↦ inr (inr (t, e, ground (arith, e, gone)))
    | inr stays ↦ inr (inl (t, e, ground (arith, e, stays)))
  ]
]

-- A layer that has a client transaction is not shutting down.
found_running :
    (s : TransactionLayer) (key : Text) (t : ClientTransaction)
    → IsValid s
    → find s.client_txns key ≡ some t
    → s.shutting_down ≡ false
unfolding find
found_running s key t v e = elim (Bool-cases s.shutting_down) [
  | inr running ↦ running
  | inl stopping ↦ let empty = v.emptied stopping in ground (arith, e, empty)
]

pub client_timeout-IsValid :
    (key : Text) (s : TransactionLayer) → IsValid s → IsValid (client_timeout key s)
client_timeout-IsValid key s v = elim (client_timeout-cases key s) [
  | inl same ↦ simp same v
  | inr (inl (t, e, stays)) ↦
      let next = (timer_b_fires t).0 in
      rw stays (
        clients-IsValid s (insert s.client_txns key next) v
          (insert-IsKeyed s.client_txns key next v.clients) (found_running s key t v e))
  | inr (inr (t, e, leaves)) ↦
      let next = (timer_b_fires t).0 in
      rw leaves (
        clients-IsValid s (erase (insert s.client_txns key next) key) v
          (erase-IsKeyed (insert s.client_txns key next) key
            (insert-IsKeyed s.client_txns key next v.clients))
          (found_running s key t v e))
]

send_request-cases :
    (sent : VoidResult) (request : SipMessage) (dest : Endpoint) (s : TransactionLayer)
    → let key = key_of (via_branch request) (cseq_method request) in
      let t = record (make_client request dest) { on_response = true; on_timeout = true } in
      let entered = insert s.client_txns key t in
      let r = (send_request sent request dest s).1 in
      (r ≡ s)
      ⊎ ((s.shutting_down ≡ false)
          × (r ≡ (record s { client_txns = insert entered key (start sent t).1 })))
      ⊎ ((s.shutting_down ≡ false) × (r ≡ (record s { client_txns = erase entered key })))
unfolding send_request register_client start_client
send_request-cases sent request dest s = ground arith

pub send_request-IsValid :
    (sent : VoidResult) (request : SipMessage) (dest : Endpoint) (s : TransactionLayer)
    → IsValid s
    → IsValid (send_request sent request dest s).1
send_request-IsValid sent request dest s v =
    let key = key_of (via_branch request) (cseq_method request) in
    let t = record (make_client request dest) { on_response = true; on_timeout = true } in
    let entered = insert s.client_txns key t in
    let keyed = insert-IsKeyed s.client_txns key t v.clients in
    elim (send_request-cases sent request dest s) [
      | inl same ↦ simp same v
      | inr (inl (running, stays)) ↦ rw stays (
          clients-IsValid s (insert entered key (start sent t).1) v
            (insert-IsKeyed entered key (start sent t).1 keyed) running)
      | inr (inr (running, leaves)) ↦
          rw leaves
            (clients-IsValid s (erase entered key) v (erase-IsKeyed entered key keyed) running)
    ]
