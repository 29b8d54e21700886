-- ===== src/Transaction/Layer/Kept.antt =====
-- Messages and a shutdown keep the invariant of the transaction layer.
use sim_ims.Prelude.{
  ℕ, suc, ◌≡◌, refl, ◌⊎◌, inl, inr, true, false, none, some, [], ◌∷◌, arith, Bool-cases,
  Option-cases, ◌==◌, ==-iff,
}
use sim_ims.Prelude.Text.{Text, text_instance, nat_eq}
use sim_ims.Prelude.Table.{Table, find, insert, find-insert, insert-IsKeyed}
use sim_ims.Common.{Result}
use sim_ims.Message.{SipMessage, is_request, method, via_branch}
use sim_ims.Transaction.{Endpoint, invite, ack}
use sim_ims.Transaction.Server.{
  ServerTransaction, make_server, set_on_terminated, shutdown_server, acknowledges,
}
use sim_ims.Transaction.Client.{ClientTransaction}
use sim_ims.Transaction.Layer.{
  TransactionLayer, process_message, process_client_response, process_request, create_server,
  answer_again, shutdown, shutdown_servers, Object, get_transaction_key, find_client_transaction,
  key_of,
}
use sim_ims.Transaction.Layer.Invariant.{IsValid, IsLive, server_section-IsValid}
use sim_ims.Transaction.Layer.Clients.{process_client_response-IsValid}

created_live :
    (s : TransactionLayer) (key : Text) (t : ServerTransaction)
    → IsValid s
    → t.on_terminated ≡ true
    → t.termination_notified ≡ false
    → (k : Text) (i : ℕ) → find (insert s.server_txns key s.next_id) k ≡ some i
    → IsLive k (find (insert s.heap s.next_id (key, t)) i)
created_live s key t v callback fresh k i e = elim (Bool-cases (key == k)) [
  | inl same ↦ ground (
    arith,
    same,
    ==-iff key k,
    e,
    find-insert s.server_txns key k s.next_id,
    ==-iff s.next_id i,
    find-insert s.heap s.next_id i (key, t),
    callback,
    fresh,
  )
  | inr other ↦
      let remained : find s.server_txns k ≡ some i =
        ground (arith, other, e, find-insert s.server_txns key k s.next_id) in
      let old = v.live k i remained in
      ground (arith, ==-iff s.next_id i, find-insert s.heap s.next_id i (key, t), old, v.fresh i)
]

created-IsValid :
    (s : TransactionLayer) (key : Text) (t : ServerTransaction)
    → IsValid s
    → t.on_terminated ≡ true
    → t.termination_notified ≡ false
    → s.shutting_down ≡ false
    → IsValid (record s {
      server_txns = insert s.server_txns key s.next_id;
      heap = insert s.heap s.next_id (key, t);
      next_id = suc s.next_id;
    })
created-IsValid s key t v callback fresh running = record {
  clients = v.clients;
  servers = insert-IsKeyed s.server_txns key s.next_id v.servers;
  live = created_live s key t v callback fresh;
  emptied = λ stopped. ground (arith, stopped, running);
  fresh = λ i h.
      ground (arith, h, ==-iff s.next_id i, find-insert s.heap s.next_id i (key, t), v.fresh i);
}

create_server-cases :
    (clone : SipMessage → Result SipMessage) (key : Text) (m : SipMessage) (source : Endpoint)
    (s : TransactionLayer)
    → ((create_server clone key m source s).1 ≡ s)
      ⊎ ((s.shutting_down ≡ false)
          × ((create_server clone key m source s).1 ≡ (record s {
            server_txns = insert s.server_txns key s.next_id;
            heap = insert s.heap s.next_id (key, set_on_terminated true (make_server m source));
            next_id = suc s.next_id;
          })))
unfolding create_server
create_server-cases clone key m source s = ground arith

process_request-IsValid :
    (clone : SipMessage → Result SipMessage) (m : SipMessage) (source : Endpoint)
    (s : TransactionLayer)
    → IsValid s
    → IsValid (process_request clone m source s).1
unfolding process_request set_on_terminated make_server
process_request-IsValid clone m source s v =
    let key = get_transaction_key m in
    elim (Option-cases (find s.server_txns key)) [
      | inr (id, e) ↦
          rw (e, process_request)
            (elim (Option-cases (find s.heap id)) [
              | inl absent ↦ rw (absent, answer_again) v
              | inr (o, f) ↦ rw (f, answer_again) v
            ])
      | inl absent ↦
          rw (absent, process_request)
            (elim (create_server-cases clone key m source s) [
              | inl same ↦ rw same v
              | inr (running, new) ↦ rw new (
                  created-IsValid s key (set_on_terminated true (make_server m source)) v refl refl
                    running)
            ])
    ]

delivered :
    (clone : SipMessage → Result SipMessage) (m : SipMessage) (source : Endpoint)
    (s : TransactionLayer) (key : Text) (t : ClientTransaction)
    → s.shutting_down ≡ false
    → is_request m ≡ false
    → find_client_transaction s m ≡ some (key, t)
    → process_message clone m source s ≡ process_client_response m key t s
unfolding process_message
delivered clone m source s key t running response e = ground (arith, running, response, e)

pub process_message-IsValid :
    (clone : SipMessage → Result SipMessage) (m : SipMessage) (source : Endpoint)
    (s : TransactionLayer)
    → IsValid s
    → IsValid (process_message clone m source s).1
unfolding process_message
process_message-IsValid clone m source s v = elim (Bool-cases s.shutting_down) [
  | inl stopping ↦ simp (stopping, process_message) v
  | inr running ↦ elim (Bool-cases (is_request m)) [
    | inr response ↦ elim (Option-cases (find_client_transaction s m)) [
      | inl unknown ↦ simp (running, response, unknown, process_message) v
      | inr ((key, t), e) ↦
          rw (delivered clone m source s key t running response e)
            (process_client_response-IsValid m key t s v running)
    ]
    | inl request ↦ elim (Bool-cases (method m == ack)) [
      | inr other ↦
          simp (running, request, other, process_message)
            (process_request-IsValid clone m source s v)
      | inl acks ↦ elim (Option-cases (find s.server_txns (key_of (via_branch m) invite))) [
        | inl absent ↦
            simp (running, request, acks, absent, process_message)
              (process_request-IsValid clone m source s v)
        | inr (id, e) ↦
            simp (running, request, acks, e, process_message)
              (server_section-IsValid acknowledges id s refl v)
      ]
    ]
  ]
]

shutdown_servers_absent :
    (m : Table Text ℕ) (heap : Table ℕ Object) (i : ℕ)
    → find heap i ≡ none
    → find (shutdown_servers m heap) i ≡ none
unfolding shutdown_servers
shutdown_servers_absent [] heap i absent = absent
shutdown_servers_absent ((key, id) ∷ m) heap i absent =
    let rest = shutdown_servers m heap in
    let still = shutdown_servers_absent m heap i absent in
    elim (Option-cases (find rest id)) [
      | inl none_there ↦ ground (arith, none_there, still)
      | inr (o, e) ↦
          ground (arith, e, still, ==-iff id i, find-insert rest id i (o.0, shutdown_server o.1))
    ]

pub shutdown-IsValid : (s : TransactionLayer) → IsValid s → IsValid (shutdown s).0
unfolding shutdown find
shutdown-IsValid s v = record {
  clients = tt;
  servers = tt;
  live = λ k i e. ground (arith, e);
  emptied = λ stopped. (refl, refl);
  fresh = λ i h. shutdown_servers_absent s.server_txns s.heap i (v.fresh i h);
}
