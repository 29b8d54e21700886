-- ===== src/Transaction/Layer/Requests.antt =====
-- A request that comes again belongs to the transaction that the first one made.
use sim_ims.Prelude.{
  ℕ, suc, ◌≤◌, ◌<◌, ◌≡◌, refl, sym, ap, ◌∙◌, ◌⊎◌, true, false, none, some, arith, ◌==◌, ==-iff,
}
use sim_ims.Prelude.Text.{Text, text_instance, nat_eq}
use sim_ims.Prelude.Table.{find, insert, erase, find-insert, find-erase}
use sim_ims.Common.{Result, err}
use sim_ims.Message.{SipMessage, is_request, method}
use sim_ims.Transaction.{Endpoint, invite, ack}
use sim_ims.Transaction.Server.{
  ServerTransaction, is_invite, make_server, set_on_terminated, retransmit_last_response,
  no_response, Section, section, records,
}
use sim_ims.Transaction.Layer.{
  TransactionLayer, Object, process_message, process_request, create_server, answer_again,
  server_section, on_server_terminated, get_transaction_key, creates, answers,
}

abbrev new_server : SipMessage → Endpoint → ServerTransaction
new_server m source = set_on_terminated true (make_server m source)

-- The layer with a new transaction.
abbrev entered : TransactionLayer → SipMessage → Endpoint → TransactionLayer
entered s m source = record s {
  server_txns = insert s.server_txns (get_transaction_key m) s.next_id;
  heap = insert s.heap s.next_id (get_transaction_key m, new_server m source);
  next_id = suc s.next_id;
}

created :
    (clone : SipMessage → Result SipMessage) (m : SipMessage) (source : Endpoint)
    (s : TransactionLayer)
    → s.shutting_down ≡ false
    → is_request m ≡ true
    → (method m == ack) ≡ false
    → find s.server_txns (get_transaction_key m) ≡ none
    → process_message clone m source s ≡ (creates s.next_id s.request_handler, entered s m source)
unfolding process_message process_request create_server
created clone m source s running request other absent =
    ground (arith, running, request, other, absent)

answered :
    (clone : SipMessage → Result SipMessage) (m : SipMessage) (source : Endpoint)
    (s : TransactionLayer) (id : ℕ) (o : Object)
    → s.shutting_down ≡ false
    → is_request m ≡ true
    → (method m == ack) ≡ false
    → find s.server_txns (get_transaction_key m) ≡ some id
    → find s.heap id ≡ some o
    → process_message clone m source s ≡ (answers id (retransmit_last_response clone o.1), s)
unfolding process_message process_request answer_again
answered clone m source s id o running request other e f =
    ground (arith, running, request, other, e, f)

entry :
    (s : TransactionLayer) (m : SipMessage) (source : Endpoint) (again : SipMessage)
    → get_transaction_key m ≡ get_transaction_key again
    → (find (entered s m source).server_txns (get_transaction_key again) ≡ some s.next_id)
      × (find (entered s m source).heap s.next_id
          ≡ some (get_transaction_key m, new_server m source))
entry s m source again same =
    let key = get_transaction_key m in
    let key' = get_transaction_key again in
    (
      ground (arith, same, ==-iff key key', find-insert s.server_txns key key' s.next_id),
      ground (
        arith,
        ==-iff s.next_id s.next_id,
        find-insert s.heap s.next_id s.next_id (key, new_server m source),
      ),
    )

section_kept :
    (s : TransactionLayer) (c : Section) (id : ℕ) (key : Text) (t : ServerTransaction)
    → find s.heap id ≡ some (key, t)
    → (section c t).1 ≡ false
    → server_section c id s ≡ (record s { heap = insert s.heap id (key, (section c t).0) })
unfolding server_section
section_kept s c id key t e quiet = ground (arith, e, quiet)

section_gone :
    (s : TransactionLayer) (c : Section) (id : ℕ) (key : Text) (t : ServerTransaction)
    → find s.heap id ≡ some (key, t)
    → s.shutting_down ≡ false
    → find s.server_txns key ≡ some id
    → (section c t).1 ≡ true
    → (server_section c id s).server_txns ≡ erase s.server_txns key
unfolding server_section on_server_terminated
section_gone s c id key t e running entry quiet =
    ground (arith, e, running, entry, quiet, ==-iff id id)

-- What recording a response does to a transaction, and to a new one.
recorded :
    (t : ServerTransaction) (code : ℕ) (copy : SipMessage)
    → (code < 200) ⊎ (300 ≤ code) ⊎ (is_invite t ≡ false)
    → let r = section (records code copy) t in (r.1 ≡ false) × (r.0.last_response ≡ some copy)
unfolding section
recorded t code copy lasting = ground (arith, lasting)

ended :
    (m : SipMessage) (source : Endpoint) (code : ℕ) (copy : SipMessage)
    → 200 ≤ code
    → code < 300
    → method m ≡ invite
    → (section (records code copy) (new_server m source)).1 ≡ true
unfolding section set_on_terminated make_server
ended m source code copy low high inv = ground (arith, ==-iff (method m) invite, low, high, inv)

answered_with :
    (clone : SipMessage → Result SipMessage) (again : SipMessage) (source : Endpoint)
    (s : TransactionLayer) (id : ℕ) (key : Text) (t u : ServerTransaction) (copy : SipMessage)
    → s.shutting_down ≡ false
    → is_request again ≡ true
    → (method again == ack) ≡ false
    → find s.server_txns (get_transaction_key again) ≡ some id
    → u.last_response ≡ some copy
    → let changed = record s { heap = insert s.heap id (key, u) } in
      process_message clone again source changed ≡ (answers id (clone copy), changed)
unfolding retransmit_last_response
answered_with clone again source s id key t u copy running request other e last =
    let changed = record s { heap = insert s.heap id (key, u) } in
    let object : find changed.heap id ≡ some (key, u) =
      ground (arith, find-insert s.heap id id (key, u), ==-iff id id) in
    let sent = answered clone again source changed id (key, u) running request other e object in
    ground (arith, sent, last)

-- Take a request that is not an ACK, comes to a running layer and belongs to no transaction, and
-- another one with the same key. The first makes a transaction and calls the handler if there is one.
-- The other one makes none and calls none: it changes nothing, and is answered with an
-- error before a response was recorded. In whatever state the transaction is in the tables later, the
-- response that is recorded last is the one whose copy answers it, unless that response ends the
-- transaction, as the 2xx of an INVITE does; after one as the first response, the key is free.
pub process_message-same_key :
    (clone : SipMessage → Result SipMessage) (m again : SipMessage) (source : Endpoint)
    (s : TransactionLayer) (code : ℕ) (copy : SipMessage)
    → s.shutting_down ≡ false
    → is_request m ≡ true
    → is_request again ≡ true
    → (method m == ack) ≡ false
    → (method again == ack) ≡ false
    → get_transaction_key m ≡ get_transaction_key again
    → find s.server_txns (get_transaction_key m) ≡ none
    → let first = process_message clone m source s in
      let ended = server_section (records code copy) s.next_id first.1 in
      (first.0 ≡ creates s.next_id s.request_handler)
      × (process_message clone again source first.1
          ≡ (answers s.next_id (err no_response), first.1))
      × ((id : ℕ) (now : TransactionLayer) (t : ServerTransaction)
          → now.shutting_down ≡ false
          → find now.server_txns (get_transaction_key m) ≡ some id
          → find now.heap id ≡ some (get_transaction_key m, t)
          → (code < 200) ⊎ (300 ≤ code) ⊎ (is_invite t ≡ false)
          → let responded = server_section (records code copy) id now in
            process_message clone again source responded ≡ (answers id (clone copy), responded))
      × (200 ≤ code
          → code < 300
          → method m ≡ invite
          → find ended.server_txns (get_transaction_key again) ≡ none)
unfolding retransmit_last_response set_on_terminated make_server
process_message-same_key clone m again source s code copy running request request' other other' same
      absent =
    let first = created clone m source s running request other absent in
    let key = get_transaction_key m in
    let t = new_server m source in
    let s1 = entered s m source in
    let table = entry s m source again same in
    rw first (
      refl,
      answered clone again source s1 s.next_id (key, t) running request' other' table.0 table.1,
      λ id now u alive there object lasting.
          let (quiet, last) = recorded u code copy lasting in
          rw (section_kept now (records code copy) id key u object quiet) (
            answered_with clone again source now id key u (section (records code copy) u).0 copy
              alive request' other' (ap (find now.server_txns) (sym same) ∙ there) last),
      λ low high inv.
          let own = (entry s m source m refl).0 in
          let gone =
            section_gone s1 (records code copy) s.next_id key t table.1 running own
              (ended m source code copy low high inv) in
          rw gone (
            ground (
              arith,
              find-erase s1.server_txns key (get_transaction_key again),
              ==-iff key (get_transaction_key again),
              same,
            )),
    )
