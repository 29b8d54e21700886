-- ===== src/Transaction/Server/Notify.antt =====
-- The end of a server transaction is notified once.
use sim_ims.Prelude.{◌≤◌, ◌≡◌, refl, true, false, List, [], ◌∷◌, arith}
use sim_ims.Transaction.{terminated}
use sim_ims.Transaction.Server.{
  ServerTransaction, Notified, Section, records, starts, acknowledges, timer_h_expires,
  timer_j_expires, shuts_down, sets_callback, section, run_sections,
}

-- A section calls the callback only if the end was not notified before, and then it has been; a
-- notified end stays so.
abbrev KeepsNotified : ServerTransaction → Notified → Type 0
KeepsNotified t r =
    (r.1 ≡ true
      → (t.termination_notified ≡ false)
        × (r.0.termination_notified ≡ true)
        × (r.0.state ≡ terminated))
    × (t.termination_notified ≡ true → r.0.termination_notified ≡ true)

section-KeepsNotified : (c : Section) (t : ServerTransaction) → KeepsNotified t (section c t)
unfolding section
section-KeepsNotified (records code copy) t = ground arith
section-KeepsNotified (starts final_code) t = ground arith
section-KeepsNotified acknowledges t = ground arith
section-KeepsNotified timer_h_expires t = ground arith
section-KeepsNotified timer_j_expires t = ground arith
section-KeepsNotified shuts_down t = ground arith
section-KeepsNotified (sets_callback callback) t = ground arith

-- However responses, ACKs, timers and a shutdown interleave, the termination callback is called at
-- most once, and not at all if the end was notified before.
pub run_sections-notified :
    (cs : List Section) (t : ServerTransaction)
    → ((run_sections cs t).0 ≤ 1) × (t.termination_notified ≡ true → (run_sections cs t).0 ≡ 0)
unfolding run_sections
run_sections-notified [] t = (omega arith, λ h. refl)
run_sections-notified (c ∷ cs) t =
    let step = section-KeepsNotified c t in
    let rest = run_sections-notified cs (section c t).0 in ground (arith, step, rest)
