-- ===== src/Media/Examples.antt =====
-- Media sessions on a forked call.
use sim_ims.Prelude.{◌+◌, ◌≤◌, ◌≡◌, refl, false, List, [], ◌∷◌}
use sim_ims.Prelude.Text.{Text, codes, text_instance}
use sim_ims.Prelude.Table.{find, insert}
use sim_ims.Media.{MediaSessionKey, key_instance, MediaSessionState, Sessions, session_of, early}
use sim_ims.Media.Calls
use sim_ims.Media.Calls.{
  Call, creates, signals, completes, Signal, begins, final_success, final_failure, marks,
  run_signals, run,
}
use sim_ims.Media.Plans.{plans_for, terminating_at}
use sim_ims.Media.Once.{run-plans}

abbrev branch : Text → MediaSessionKey
branch to_tag = record { call_id = codes "c"; from_tag = codes "a"; to_tag = to_tag }

abbrev early_state : MediaSessionKey → MediaSessionState
early_state k = record {
  session = session_of k;
  rx_session_id = [];
  caller_sdp = [];
  callee_sdp = [];
  created = 0;
  qos_active = false;
  lifecycle = early;
}

abbrev ringing : Sessions
ringing =
    (branch [], early_state (branch []))
    ∷ (branch (codes "b"), early_state (branch (codes "b")))
    ∷ []

abbrev answers : List Signal
answers =
    begins (branch (codes "d"))
    ∷ final_success (branch (codes "d"))
    ∷ marks (branch (codes "b"))
    ∷ []

run-plans_example :
    (plans_for (branch (codes "b")) (run_signals answers ringing).0
        + terminating_at (branch (codes "b")) ringing
      ≡ terminating_at (branch (codes "b")) (run_signals answers ringing).1)
    × (plans_for (branch (codes "b")) (run_signals answers ringing).0 ≤ 1)
unfolding find
run-plans_example = run-plans (branch (codes "b")) answers ringing (refl, (refl, tt))

one_plan : plans_for (branch (codes "b")) (run_signals answers ringing).0 ≡ 1
unfolding run_signals Calls.signal find insert
one_plan = refl
