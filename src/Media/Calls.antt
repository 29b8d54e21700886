-- ===== src/Media/Calls.antt =====
-- The calls of MediaSessionManager as data, and a run of them.
use sim_ims.Prelude.{ℕ, Bool, Option, none, some, List, [], ◌∷◌, ◌++◌}
use sim_ims.Prelude.Text.{Text}
use sim_ims.Media.{
  MediaSessionKey, MediaTerminationPlan, Sessions, create_session, update_to_tag,
  update_to_tag_by_call, update_caller_sdp, update_caller_sdp_by_call, update_callee_sdp,
  update_callee_sdp_by_call, set_rx_session, set_rx_session_by_call, set_qos_active,
  set_qos_active_by_call, remove_session, remove_session_by_call,
}
use sim_ims.Media.Invite.{
  begin_invite_response, commit_invite_response, mark_invite_final_success,
  mark_invite_final_failure, mark_terminating, complete_termination,
}

-- The calls that neither make a session anew nor rename or remove one, but for the branches that a
-- response makes.
pub data Signal : Type 0 where
  begins final_success final_failure marks : MediaSessionKey → Signal
  commits : MediaSessionKey → Text → Bool → Signal
  caller_sdp callee_sdp rx_session : MediaSessionKey → Text → Signal
  qos : MediaSessionKey → Bool → Signal
  caller_sdp_by_call callee_sdp_by_call rx_session_by_call : Text → Text → Signal
  qos_by_call : Text → Bool → Signal

pub data Call : Type 0 where
  creates : ℕ → MediaSessionKey → Call
  renames : MediaSessionKey → Text → Call
  renames_by_call : Text → Text → Call
  removes completes : MediaSessionKey → Call
  removes_by_call : Text → Call
  signals : Signal → Call

abbrev pub plan_list : Option MediaTerminationPlan → List MediaTerminationPlan
plan_list none = []
plan_list (some p) = p ∷ []

-- The plans that a call hands out, and the table after it.
unfoldable pub signal : Signal → Sessions → List MediaTerminationPlan × Sessions
unfolding begin_invite_response commit_invite_response mark_invite_final_success
    mark_invite_final_failure mark_terminating update_caller_sdp update_caller_sdp_by_call
    update_callee_sdp update_callee_sdp_by_call set_rx_session set_rx_session_by_call set_qos_active
    set_qos_active_by_call
signal (begins key) s = ([], (begin_invite_response key s).1)
signal (final_success key) s = mark_invite_final_success key s
signal (final_failure key) s = mark_invite_final_failure key s
signal (marks key) s = let r = mark_terminating key s in (plan_list r.0, r.1)
signal (commits key sdp final) s = ([], commit_invite_response key sdp final s)
signal (caller_sdp key sdp) s = ([], update_caller_sdp key sdp s)
signal (callee_sdp key sdp) s = ([], update_callee_sdp key sdp s)
signal (rx_session key rx) s = ([], set_rx_session key rx s)
signal (qos key active) s = ([], set_qos_active key active s)
signal (caller_sdp_by_call call sdp) s = ([], update_caller_sdp_by_call call sdp s)
signal (callee_sdp_by_call call sdp) s = ([], update_callee_sdp_by_call call sdp s)
signal (rx_session_by_call call rx) s = ([], set_rx_session_by_call call rx s)
signal (qos_by_call call active) s = ([], set_qos_active_by_call call active s)

unfoldable pub step : Call → Sessions → List MediaTerminationPlan × Sessions
unfolding signal create_session update_to_tag update_to_tag_by_call remove_session
    remove_session_by_call complete_termination
step (creates now key) s = ([], (create_session now key s).1)
step (renames key to_tag) s = ([], update_to_tag key to_tag s)
step (renames_by_call call to_tag) s = ([], update_to_tag_by_call call to_tag s)
step (removes key) s = ([], remove_session key s)
step (removes_by_call call) s = ([], remove_session_by_call call s)
step (completes key) s = ([], complete_termination key s)
step (signals c) s = signal c s

-- The plans of a run of signals, in order.
unfoldable pub run_signals : List Signal → Sessions → List MediaTerminationPlan × Sessions
run_signals [] s = ([], s)
run_signals (c ∷ cs) s =
    let r = signal c s in let rest = run_signals cs r.1 in (r.0 ++ rest.0, rest.1)

unfoldable pub run : List Call → Sessions → Sessions
run [] s = s
run (c ∷ cs) s = run cs (step c s).1
