-- ===== src/Transaction/Client.antt =====
-- ClientTransaction of sip/transaction.cpp.
pub mod Retransmit
use sim_ims.Prelude.{
  ℕ, suc, ◌+◌, ◌*◌, ◌^◌, Bool, true, false, not, ◌&&◌, ◌||◌, Option, none, some, List, [], ◌∷◌, ltb,
  leb, is_empty, if◌then◌else◌, ◌==◌,
}
use sim_ims.Prelude.Text.{Text, codes, text_instance}
use sim_ims.Common.{Result, ok, err, VoidResult}
use sim_ims.Uri.{lowercase}
use sim_ims.Message.{SipMessage, cseq_method, status_code, via_branch}
use sim_ims.Transaction.{
  Endpoint, TransactionState, trying, proceeding, completed, confirmed, terminated, is_open, invite,
  timer_t1, timer_t2, timer_b,
}

-- Timer A is `none` if it is not armed, else the time that it was armed for. `on_response` and
-- `on_timeout` say whether a callback is set.
pub record ClientTransaction : Type 0 where
  pub request : SipMessage
  pub dest : Endpoint
  pub state : TransactionState
  pub branch : Text
  pub on_response : Bool
  pub on_timeout : Bool
  pub timer_a_armed : Option ℕ
  pub timer_b_armed : Bool
  pub retransmit_count : ℕ

unfoldable pub make_client : SipMessage → Endpoint → ClientTransaction
unfolding via_branch
make_client request dest = record {
  request = request;
  dest = dest;
  state = trying;
  branch = via_branch request;
  on_response = false;
  on_timeout = false;
  timer_a_armed = none;
  timer_b_armed = false;
  retransmit_count = 0;
}

abbrev pub is_trying : TransactionState → Bool
is_trying trying = true
is_trying _ = false

-- The destination's transport does not retransmit by itself.
abbrev pub is_unreliable : Endpoint → Bool
is_unreliable dest =
    let transport = lowercase dest.transport in transport == codes "udp" || is_empty transport

unfoldable pub start_locked : ClientTransaction → ClientTransaction
start_locked t = record t {
  retransmit_count = if is_trying t.state then 0 else t.retransmit_count;
  timer_a_armed =
      if is_unreliable t.dest && is_trying t.state then some timer_t1 else t.timer_a_armed;
  timer_b_armed = if is_open t.state then true else t.timer_b_armed;
}

-- `sent` is the outcome of transport->send().
unfoldable pub start : VoidResult → ClientTransaction → VoidResult × ClientTransaction
unfolding start_locked
start (err e) t =
    (err e, record t { state = terminated; timer_a_armed = none; timer_b_armed = false })
start (ok u) t = (ok tt, start_locked t)

-- The state after the section, and whether it calls the callback.
abbrev pub Called : Type 0
Called = ClientTransaction × Bool

unfoldable pub timer_b_fires : ClientTransaction → Called
timer_b_fires t =
    if t.timer_b_armed && is_open t.state
    then (
      record t { timer_b_armed = false; state = terminated; timer_a_armed = none },
      t.on_timeout,
    )
    else (record t { timer_b_armed = false }, false)

unfoldable pub shutdown_client : ClientTransaction → ClientTransaction
shutdown_client t = record t {
  state = terminated;
  on_response = false;
  on_timeout = false;
  timer_a_armed = none;
  timer_b_armed = false;
}

unfoldable pub matches : SipMessage → ClientTransaction → Bool
matches response t =
    via_branch response == t.branch && cseq_method response == cseq_method t.request

unfoldable pub process_response : SipMessage → ClientTransaction → Called
unfolding status_code
process_response response t =
    let code = status_code response in
    let next =
      if leb 100 code && ltb code 200
      then record t { state = proceeding; timer_a_armed = none }
      else if leb 200 code
      then record t {
        state =
            if not (cseq_method t.request == invite) || leb 300 code then terminated else completed;
        timer_a_armed = none;
        timer_b_armed = false;
      }
      else t in
    (next, t.on_response)

-- kTimerT1 * (1 << retransmit_count), at most kTimerT2
unfoldable pub retransmit_interval : ℕ → ℕ
retransmit_interval count =
    let interval = timer_t1 * 2 ^ count in if ltb timer_t2 interval then timer_t2 else interval

-- Timer A expires: the section before the request is sent again, which says whether it is.
unfoldable pub retransmit_begin : ClientTransaction → Called
retransmit_begin t =
    if is_open t.state
    then (record t { timer_a_armed = none; retransmit_count = suc t.retransmit_count }, true)
    else (record t { timer_a_armed = none }, false)

-- The section after the request was sent again, with the count that the first one read.
unfoldable pub retransmit_rearm : ℕ → ClientTransaction → ClientTransaction
unfolding retransmit_interval
retransmit_rearm count t =
    if is_open t.state then record t { timer_a_armed = some (retransmit_interval count) } else t

unfoldable pub retransmit : ClientTransaction → Called
unfolding retransmit_begin retransmit_rearm
retransmit t =
    let r = retransmit_begin t in
    (if r.1 then retransmit_rearm r.0.retransmit_count r.0 else r.0, r.1)
