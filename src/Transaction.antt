-- ===== src/Transaction.antt =====
-- sip/transaction.hpp: what server and client transactions share. Each critical section of a
-- transaction is one function of its state; the outcomes of cloning and sending are arguments.
pub mod Server
pub mod Client
pub mod Layer
pub mod Examples
use sim_ims.Prelude.{ℕ, Bool, true, false, List, [], ◌∷◌, ◌==◌}
use sim_ims.Prelude.Text.{Text, codes, text_instance}
use sim_ims.Common.{Result, VoidResult}
use sim_ims.Message.{SipMessage, method}

-- sip/transport.hpp
pub record Endpoint : Type 0 where
  pub address : Text
  pub port : ℕ
  pub transport : Text

pub data TransactionState : Type 0 where
  trying proceeding completed confirmed terminated : TransactionState

abbrev pub is_completed : TransactionState → Bool
is_completed completed = true
is_completed _ = false

-- Neither a final answer nor the end.
abbrev pub is_open : TransactionState → Bool
is_open completed = false
is_open terminated = false
is_open _ = true

abbrev pub invite : Text
invite = codes "INVITE"

abbrev pub ack : Text
ack = codes "ACK"

-- RFC 3261 timers, in milliseconds.
abbrev pub timer_t1 : ℕ
timer_t1 = 500

abbrev pub timer_t2 : ℕ
timer_t2 = 4000

abbrev pub timer_b : ℕ
timer_b = 32000

abbrev pub timer_j : ℕ
timer_j = 32000

abbrev pub timer_h : ℕ
timer_h = 32000
