-- ===== src/Transaction/Server.antt =====
-- ServerTransaction of sip/transaction.cpp.
pub mod Notify
use sim_ims.Prelude.{
  ℕ, suc, Bool, true, false, not, ◌&&◌, ◌||◌, Option, none, some, List, [], ◌∷◌, ltb, leb,
  if◌then◌else◌, ◌==◌,
}
use sim_ims.Prelude.Text.{Text, codes, text_instance}
use sim_ims.Common.{Result, ok, err, VoidResult, ErrorInfo, k_sip_transaction_failed}
use sim_ims.Message.{SipMessage, method, status_code, via_branch}
use sim_ims.Transaction.{
  Endpoint, TransactionState, trying, proceeding, completed, confirmed, terminated, is_completed,
  invite, timer_j, timer_h,
}

-- A timer is `none` if it is not armed, else the time that it was armed for. `on_terminated` says
-- whether a callback is set.
pub record ServerTransaction : Type 0 where
  pub request : SipMessage
  pub source : Endpoint
  pub state : TransactionState
  pub branch : Text
  pub last_response : Option SipMessage
  pub on_terminated : Bool
  pub termination_notified : Bool
  pub timer_j_armed : Option ℕ
  pub timer_h_armed : Option ℕ

unfoldable pub make_server : SipMessage → Endpoint → ServerTransaction
unfolding via_branch
make_server request source = record {
  request = request;
  source = source;
  state = trying;
  branch = via_branch request;
  last_response = none;
  on_terminated = false;
  termination_notified = false;
  timer_j_armed = none;
  timer_h_armed = none;
}

abbrev pub is_invite : ServerTransaction → Bool
is_invite t = method t.request == invite

-- The state after the section, and whether it calls the termination callback.
abbrev pub Notified : Type 0
Notified = ServerTransaction × Bool

unfoldable pub mark_terminated_locked : ServerTransaction → Notified
mark_terminated_locked t =
    if t.termination_notified
    then (t, false)
    else (record t { termination_notified = true }, t.on_terminated)

-- The section of sendResponse that records a response which has been sent: its code and its copy.
unfoldable pub record_response : ℕ → SipMessage → ServerTransaction → Notified
unfolding mark_terminated_locked
record_response code copy t =
    let kept = record t { last_response = some copy } in
    if leb 100 code && ltb code 200
    then (record kept { state = proceeding }, false)
    else if leb 200 code
    then (if is_invite t && ltb code 300
        then mark_terminated_locked
            (record kept { state = terminated; timer_j_armed = none; timer_h_armed = none })
        else (record kept { state = completed }, false))
    else (kept, false)

unfoldable pub start_timers : ℕ → ServerTransaction → ServerTransaction
start_timers final_code t =
    if is_invite t && leb 300 final_code
    then record t { timer_j_armed = none; timer_h_armed = some timer_h }
    else record t { timer_h_armed = none; timer_j_armed = some timer_j }

-- The response is final and did not end the transaction.
abbrev pub starts_timers : ℕ → ServerTransaction → Bool
starts_timers code t = leb 200 code && not (is_invite t && ltb code 300)

-- `cloned` and `sent` are the outcomes of response.clone() and transport->send().
unfoldable pub send_response :
    Result SipMessage → VoidResult → SipMessage → ServerTransaction → VoidResult × Notified
unfolding record_response start_timers
send_response (err e) sent response t = (err e, (t, false))
send_response (ok copy) (err e) response t = (err e, (t, false))
send_response (ok copy) (ok u) response t =
    let r = record_response (status_code response) copy t in
    (
      ok tt,
      (
        if starts_timers (status_code response) t
            then start_timers (status_code response) r.0
            else r.0,
        r.1,
      ),
    )

abbrev pub no_response : ErrorInfo
no_response = record {
  code = k_sip_transaction_failed;
  message = codes "No response available for retransmission";
  detail = [];
}

-- What is sent again, if anything.
unfoldable pub retransmit_last_response :
    (SipMessage → Result SipMessage) → ServerTransaction → Result SipMessage
retransmit_last_response clone t = elim t.last_response [
  | none ↦ err no_response
  | some response ↦ clone response
]

unfoldable pub acknowledge_ack : ServerTransaction → Notified
unfolding mark_terminated_locked
acknowledge_ack t =
    if is_invite t && is_completed t.state
    then mark_terminated_locked (record t { timer_h_armed = none; state = terminated })
    else (t, false)

unfoldable pub set_on_terminated : Bool → ServerTransaction → ServerTransaction
set_on_terminated callback t = record t { on_terminated = callback }

unfoldable pub shutdown_server : ServerTransaction → ServerTransaction
shutdown_server t = record t {
  state = terminated;
  termination_notified = true;
  on_terminated = false;
  timer_j_armed = none;
  timer_h_armed = none;
}

-- The handlers of the timers; a cancelled timer's handler returns at once.
unfoldable pub timer_h_fires : ServerTransaction → Notified
unfolding mark_terminated_locked
timer_h_fires t = elim t.timer_h_armed [
  | none ↦ (t, false)
  | some d ↦ mark_terminated_locked (record t { timer_h_armed = none; state = terminated })
]

unfoldable pub timer_j_fires : ServerTransaction → Notified
unfolding mark_terminated_locked
timer_j_fires t = elim t.timer_j_armed [
  | none ↦ (t, false)
  | some d ↦ mark_terminated_locked (record t { timer_j_armed = none; state = terminated })
]

-- The sections of a server transaction, in whatever order its threads and timers run them.
pub data Section : Type 0 where
  records : ℕ → SipMessage → Section
  starts : ℕ → Section
  acknowledges timer_h_expires timer_j_expires shuts_down : Section
  sets_callback : Bool → Section

unfoldable pub section : Section → ServerTransaction → Notified
unfolding record_response start_timers acknowledge_ack timer_h_fires timer_j_fires shutdown_server
    set_on_terminated
section (records code copy) t = record_response code copy t
section (starts final_code) t = (start_timers final_code t, false)
section acknowledges t = acknowledge_ack t
section timer_h_expires t = timer_h_fires t
section timer_j_expires t = timer_j_fires t
section shuts_down t = (shutdown_server t, false)
section (sets_callback callback) t = (set_on_terminated callback t, false)

-- How often a run of sections calls the termination callback, and the state after it.
unfoldable pub run_sections : List Section → ServerTransaction → ℕ × ServerTransaction
run_sections [] t = (0, t)
run_sections (c ∷ cs) t =
    let r = section c t in
    let rest = run_sections cs r.0 in (if r.1 then suc rest.0 else rest.0, rest.1)
