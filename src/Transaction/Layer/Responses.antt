-- ===== src/Transaction/Layer/Responses.antt =====
-- A response finds the transaction of its request.
use sim_ims.Prelude.{
  ◌≤◌, ◌<◌, ◌≡◌, refl, ◌∙◌, ap, ℕ, All, List, Option, true, false, none, some, [], ◌∷◌, arith,
  if◌then◌else◌, ==-iff, is_empty, leb,
}
use sim_ims.Prelude.Text.{Text, text_instance}
use sim_ims.Prelude.Table.{find, insert, find-insert, find-erase}
use sim_ims.Common.{Result, ok}
use sim_ims.Message.{SipMessage, Via, is_request, cseq_method, status_code, via_branch}
use sim_ims.Transaction.{Endpoint}
use sim_ims.Transaction.Client.{ClientTransaction, make_client, start, process_response}
use sim_ims.Transaction.Layer.{
  TransactionLayer, process_message, process_client_response, find_client_transaction, find_first,
  response_transaction_keys, via_keys, key_of, send_request, register_client, start_client,
  delivers, ignores,
}

-- The client transaction that sendRequest makes, started.
abbrev started : SipMessage → Endpoint → ClientTransaction
started request dest =
    (start (ok tt) (record (make_client request dest) { on_response = true; on_timeout = true })).1

sent_request :
    (request : SipMessage) (dest : Endpoint) (s : TransactionLayer)
    → s.shutting_down ≡ false
    → is_empty (via_branch request) ≡ false
    → find s.client_txns (key_of (via_branch request) (cseq_method request)) ≡ none
    → let key = key_of (via_branch request) (cseq_method request) in
      let r = send_request (ok tt) request dest s in
      (r.0 ≡ ok key)
      × (r.1.shutting_down ≡ false)
      × (find r.1.client_txns key ≡ some (started request dest))
unfolding send_request register_client start_client
sent_request request dest s running branch absent =
    let key = key_of (via_branch request) (cseq_method request) in
    let t = record (make_client request dest) { on_response = true; on_timeout = true } in
    ground (
      arith,
      running,
      branch,
      absent,
      ==-iff key key,
      find-insert s.client_txns key key t,
      find-insert (insert s.client_txns key t) key key (started request dest),
    )

abbrev pub top_branch : List Via → Option Text
top_branch [] = none
top_branch (via ∷ below) = via.branch

abbrev pub below_top : List Via → List Via
below_top [] = []
below_top (via ∷ below) = below

top_key :
    (name branch : Text) (vias : List Via)
    → top_branch vias ≡ some branch
    → via_keys name vias ≡ key_of branch name ∷ via_keys name (below_top vias)
unfolding via_keys
top_key name branch [] h = absurd (cc h)
top_key name branch (via ∷ below) h = rw (via_keys, h) refl

-- A response with the request's branch in its topmost Via, and the request's CSeq method.
abbrev pub IsAnswer : SipMessage → SipMessage → Type 0
IsAnswer request m =
    (is_request m ≡ false)
    × (top_branch m.vias ≡ some (via_branch request))
    × (cseq_method m ≡ cseq_method request)

-- The keys of its other Vias.
abbrev pub other_keys : SipMessage → List Text
other_keys m = via_keys (cseq_method m) (below_top m.vias)

answer_keys :
    (request m : SipMessage)
    → is_empty (cseq_method request) ≡ false
    → IsAnswer request m
    → response_transaction_keys m ≡ key_of (via_branch request) (cseq_method request) ∷ other_keys m
unfolding response_transaction_keys
answer_keys request m name (response, branch, same) =
    let named : is_empty (cseq_method m) ≡ false = rw same name in
    let top = top_key (cseq_method m) (via_branch request) m.vias branch in
    rw (response_transaction_keys, named)
      (top ∙ ap (λ n. key_of (via_branch request) n ∷ other_keys m) same)

received :
    (clone : SipMessage → Result SipMessage) (m : SipMessage) (source : Endpoint)
    (s : TransactionLayer) (key : Text) (others : List Text)
    → s.shutting_down ≡ false
    → is_request m ≡ false
    → response_transaction_keys m ≡ key ∷ others
    → (find s.client_txns key ≡ none
        → find_first s.client_txns others ≡ none
        → process_message clone m source s ≡ (ignores, s))
      × ((t : ClientTransaction)
          → find s.client_txns key ≡ some t
          → process_message clone m source s ≡ process_client_response m key t s)
unfolding process_message find_client_transaction find_first
received clone m source s key others running response keys = (
  λ absent no_other. ground (arith, running, response, keys, absent, no_other),
  λ t e. ground (arith, running, response, keys, e),
)

taken :
    (m : SipMessage) (key : Text) (t : ClientTransaction) (s : TransactionLayer)
    → t.on_response ≡ true
    → let r = process_client_response m key t s in
      (r.0 ≡ delivers key)
      × (r.1.shutting_down ≡ s.shutting_down)
      × (find r.1.client_txns key
          ≡ (if leb 200 (status_code m) then none else some (process_response m t).0))
unfolding process_client_response
taken m key t s callback =
    let next = (process_response m t).0 in
    ground (
      arith,
      callback,
      ==-iff key key,
      find-insert s.client_txns key key next,
      find-erase (insert s.client_txns key next) key key,
    )

started_callback :
    (request : SipMessage) (dest : Endpoint) → (started request dest).on_response ≡ true
unfolding start
started_callback request dest = refl

next_callback :
    (m : SipMessage) (t : ClientTransaction)
    → t.on_response ≡ true
    → (process_response m t).0.on_response ≡ true
unfolding process_response
next_callback m t callback = ground (arith, callback)

while_provisional {ℓ} :
    {A : Type ℓ} (n : ℕ) (x : Option A) → n < 200 → (if leb 200 n then none else x) ≡ x
while_provisional n x h = ground (arith, h)

when_final {ℓ} :
    {A : Type ℓ} (n : ℕ) (x : Option A) → 200 ≤ n → (if leb 200 n then none else x) ≡ none
when_final n x h = ground (arith, h)

-- The key's transaction waits for responses, with its callback set.
abbrev Waits : Text → TransactionLayer → Type 0
Waits key s =
    (s.shutting_down ≡ false)
    × (t : ClientTransaction) × (find s.client_txns key ≡ some t)
    × (t.on_response ≡ true)

module _ (clone : SipMessage → Result SipMessage) (request : SipMessage) (source : Endpoint) where
  abbrev key : Text
  key = key_of (via_branch request) (cseq_method request)

  delivered :
      (m : SipMessage) (s : TransactionLayer)
      → is_empty (cseq_method request) ≡ false
      → IsAnswer request m
      → Waits key s
      → ((process_message clone m source s).0 ≡ delivers key)
        × ((process_message clone m source s).1.shutting_down ≡ false)
        × (status_code m < 200 → Waits key (process_message clone m source s).1)
        × (200 ≤ status_code m → find (process_message clone m source s).1.client_txns key ≡ none)
  delivered m s name is_answer (running, t, here, callback) =
      let path =
        (received clone m source s key (other_keys m) running is_answer.0
            (answer_keys request m name is_answer)).1
          t here in
      let step = taken m key t s callback in
      rw path (
        step.0,
        step.1 ∙ running,
        λ provisional. (
          step.1 ∙ running,
          (process_response m t).0,
          step.2 ∙ while_provisional (status_code m) _ provisional,
          next_callback m t callback,
        ),
        λ final. step.2 ∙ when_final (status_code m) _ final,
      )

  -- The layer after these responses.
  abbrev pub after_each : List SipMessage → TransactionLayer → TransactionLayer
  after_each [] s = s
  after_each (m ∷ ms) s = after_each ms (process_message clone m source s).1

  after_each-Waits :
      (ms : List SipMessage) (s : TransactionLayer)
      → is_empty (cseq_method request) ≡ false
      → All (λ m. IsAnswer request m × (status_code m < 200)) ms
      → Waits key s
      → Waits key (after_each ms s)
  after_each-Waits [] s name h waits = waits
  after_each-Waits (m ∷ ms) s name h waits =
      after_each-Waits ms (process_message clone m source s).1 name h.1
        ((delivered m s name h.0.0 waits).2 h.0.1)

-- A request with a Via branch and a CSeq method that is sent from a running layer, and has no
-- transaction with its key, gets the responses that carry its branch in their topmost Via and its CSeq
-- method: after any number of provisional ones, the next is delivered to its callback; if that is a
-- final one, the transaction is gone, and another one is not delivered unless a lower Via of it has a
-- transaction.
pub send_request-process_message :
    (clone : SipMessage → Result SipMessage) (request m m' : SipMessage) (ms : List SipMessage)
    (dest source : Endpoint) (s : TransactionLayer)
    → s.shutting_down ≡ false
    → is_empty (via_branch request) ≡ false
    → is_empty (cseq_method request) ≡ false
    → find s.client_txns (key_of (via_branch request) (cseq_method request)) ≡ none
    → All (λ n. IsAnswer request n × (status_code n < 200)) ms
    → IsAnswer request m
    → IsAnswer request m'
    → let key = key_of (via_branch request) (cseq_method request) in
      let sent = send_request (ok tt) request dest s in
      let waiting = after_each clone request source ms sent.1 in
      let after = (process_message clone m source waiting).1 in
      (sent.0 ≡ ok key)
      × ((process_message clone m source waiting).0 ≡ delivers key)
      × (200 ≤ status_code m
          → (find after.client_txns key ≡ none)
            × (find_first after.client_txns (other_keys m') ≡ none
                → process_message clone m' source after ≡ (ignores, after)))
send_request-process_message clone request m m' ms dest source s running branch name absent
      provisional is_answer is_answer' =
    let key = key_of (via_branch request) (cseq_method request) in
    let sent = sent_request request dest s running branch absent in
    let s1 = (send_request (ok tt) request dest s).1 in
    let first : Waits key s1 =
      (sent.1, started request dest, sent.2, started_callback request dest) in
    let waiting = after_each clone request source ms s1 in
    let waits = after_each-Waits clone request source ms s1 name provisional first in
    let (got, alive, more, gone) = delivered clone request source m waiting name is_answer waits in
    let after = (process_message clone m source waiting).1 in
    (
      sent.0,
      got,
      λ final. (
        gone final,
        (received clone m' source after key (other_keys m') alive is_answer'.0
              (answer_keys request m' name is_answer')).0
            (gone final),
      ),
    )
