-- ===== src/Transaction/Client/Retransmit.antt =====
-- Timer A: how a request is sent again, and how often before timer B expires.
use sim_ims.Prelude.{
  ℕ, leb, zero, suc, ◌+◌, ◌*◌, ◌^◌, ◌≤◌, ◌<◌, ◌≡◌, refl, true, false, ◌&&◌, none, some, arith, ltb,
  if◌then◌else◌, ◌==◌,
}
use sim_ims.Common.{ok}
use sim_ims.Prelude.Text.{text_instance}
use sim_ims.Message.{SipMessage, status_code, cseq_method}
use sim_ims.Transaction.{
  Endpoint, trying, proceeding, completed, terminated, is_open, invite, timer_t1, timer_t2, timer_b,
}
use sim_ims.Transaction.Client.{
  ClientTransaction, make_client, is_unreliable, start, retransmit_interval, retransmit,
  process_response, timer_b_fires,
}

-- Timer A, followed for as long as no response comes: the time it expires, in milliseconds after
-- the request was sent, when it expired n times before.
unfoldable pub fire_time : ℕ → ℕ
unfolding retransmit_interval
fire_time zero = timer_t1
fire_time (suc n) = fire_time n + retransmit_interval (suc n)

-- The transaction after timer A expired n times and each time was armed again.
abbrev pub expire_a : ℕ → ClientTransaction → ClientTransaction
expire_a zero t = t
expire_a (suc n) t = (retransmit (expire_a n t)).0

pow_pos : (n : ℕ) → 1 ≤ 2 ^ n
pow_pos zero = omega arith
pow_pos (suc n) = let rest = pow_pos n in grind (arith, rest)

interval_lem :
    (n : ℕ) → retransmit_interval n ≡ (if leb (500 * 2 ^ n) 4000 then 500 * 2 ^ n else 4000)
unfolding retransmit_interval
interval_lem n = ground arith

capped : (n : ℕ) → retransmit_interval (suc (suc (suc n))) ≡ timer_t2
unfolding retransmit_interval
capped n = let positive = pow_pos n in ground (arith, positive)

fire_time_later : (n : ℕ) → fire_time (suc (suc n)) ≡ 3500 + 4000 * n
unfolding fire_time
fire_time_later zero = refl
fire_time_later (suc n) = rw (fire_time_later n, capped n) omega arith

few : (n : ℕ) → fire_time n < timer_b → n < 10
few zero early = omega arith
few (suc zero) early = omega arith
few (suc (suc n)) early = let time = fire_time_later n in omega (arith, time, early)

-- A request that was sent over an unreliable transport and is not answered is sent again at
-- growing intervals: when timer A has expired n times, the count is n, the
-- transaction still waits, and timer A is armed for min(500 * 2^n, 4000) milliseconds.
-- The expiries before timer B ends the transaction are ten at most, so the shift stays
-- within an int.
pub retransmit-schedule :
    (request : SipMessage) (dest : Endpoint) (n : ℕ)
    → is_unreliable dest ≡ true
    → let t = expire_a n (start (ok tt) (make_client request dest)).1 in
      (t.retransmit_count ≡ n)
      × (t.state ≡ trying)
      × (t.timer_b_armed ≡ true)
      × (t.timer_a_armed ≡ some (if leb (500 * 2 ^ n) 4000 then 500 * 2 ^ n else 4000))
      × (fire_time n < timer_b → n < 10)
unfolding start make_client retransmit
retransmit-schedule request dest zero unreliable = ground (arith, unreliable)
retransmit-schedule request dest (suc n) unreliable =
    let before = retransmit-schedule request dest n unreliable in
    let interval = interval_lem (suc n) in
    let times = few (suc n) in ground (arith, before, interval, times)

-- While a request waits with timer B armed and a callback set: a provisional response stops timer A
-- only, so that when timer B expires the transaction ends and reports a timeout; after a final
-- response, which leaves an INVITE with a 2xx completed and any other terminated, timer B's
-- expiry changes nothing and reports nothing.
pub timer_b_fires-process_response :
    (response : SipMessage) (t : ClientTransaction)
    → is_open t.state ≡ true
    → t.timer_b_armed ≡ true
    → t.on_timeout ≡ true
    → let r = (process_response response t).0 in
      (100 ≤ status_code response
        → status_code response < 200
        → (r.state ≡ proceeding)
          × (r.timer_a_armed ≡ none)
          × ((timer_b_fires r).0.state ≡ terminated)
          × ((timer_b_fires r).1 ≡ true))
      × (200 ≤ status_code response
          → (r.state ≡ (
              if cseq_method t.request == invite && ltb (status_code response) 300
              then completed
              else terminated))
            × (timer_b_fires r ≡ (r, false)))
unfolding process_response timer_b_fires
timer_b_fires-process_response response t waiting armed callback = (
  λ low high. ground (arith, waiting, armed, callback, low, high),
  λ final. ground (arith, final),
)
