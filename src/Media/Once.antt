-- ===== src/Media/Once.antt =====
-- Termination plans over a run of signals: each session is given up once.
use sim_ims.Prelude.{
  ◌+◌, ◌≤◌, ◌≡◌, refl, subst, inl, inr, false, Option, none, some, List, [], ◌∷◌, arith, ◌==◌,
  ==-refl, Bool-cases, Option-cases,
}
use sim_ims.Prelude.Text.{text_instance}
use sim_ims.Prelude.Table.{find, insert, find-insert, IsKeyed, insert-IsKeyed}
use sim_ims.Media.{
  MediaSessionKey, key_instance, key_eq_iff, MediaSessionState, MediaTerminationPlan, Sessions,
  is_terminating,
}
use sim_ims.Media.Invite.{
  terminate, terminate_others, branch_of, begin_invite_response, establish,
  mark_invite_final_success, find_terminating_key, mark_terminating, plan_termination,
  make_termination_plan_locked,
}
use sim_ims.Media.Calls.{
  Signal, begins, final_success, final_failure, marks, commits, caller_sdp, callee_sdp, rx_session,
  qos, caller_sdp_by_call, callee_sdp_by_call, rx_session_by_call, qos_by_call, plan_list, signal,
  run_signals,
}
use sim_ims.Media.Plans.{
  plans_for, terminating_state, terminating_at, plans_for-append, Accounts, same-Accounts,
  insert-Accounts, update-Accounts, update_by_call-Accounts, commit-Accounts, insert_new-Accounts,
  others-Accounts,
}
use sim_ims.Media.Answers.{Ensured, stored, missing, branched, ensure-Ensured}

begin-Accounts :
    (k j : MediaSessionKey) (s : Sessions)
    → IsKeyed s
    → Accounts k s ([], (begin_invite_response j s).1)
unfolding begin_invite_response
begin-Accounts k j s h = go (ensure-Ensured j s)
  where
    go : {r : Option MediaSessionState × Sessions} → Ensured j s r → Accounts k s ([], r.1)
    go (stored st e q) = rw q (same-Accounts k s h)
    go (missing e q) = rw q (same-Accounts k s h)
    go (branched st e i q) = rw q (insert_new-Accounts k s h j (branch_of j st) e refl)

-- Two writes after one another, of which the first hands out no plan.
then-Accounts :
    (k : MediaSessionKey) (s t : Sessions) (r : List MediaTerminationPlan × Sessions)
    → Accounts k s ([], t)
    → Accounts k t r
    → Accounts k s r
then-Accounts k s t r a b = record { count = omega (arith, a.count, b.count); keyed = b.keyed }

success-Accounts :
    (k j : MediaSessionKey) (s : Sessions)
    → IsKeyed s
    → Accounts k s (mark_invite_final_success j s)
unfolding mark_invite_final_success
success-Accounts k j s h = go (ensure-Ensured j s)
  where
    finish : Option MediaSessionState × Sessions → List MediaTerminationPlan × Sessions
    finish r = elim r.0 [
      | none ↦ terminate_others none j r.1
      | some st ↦ terminate_others (some j) j (insert r.1 j (establish st))
    ]

    won :
        (st : MediaSessionState) (t : Sessions)
        → Accounts k s ([], t)
        → find t j ≡ some st
        → Accounts k s (terminate_others (some j) j (insert t j (establish st)))
    won st t a e =
        let b = insert-Accounts k t a.keyed j st (establish st) e (ground arith) in
        let ab = then-Accounts k s t _ a b in
        then-Accounts k s (insert t j (establish st)) _ ab
          (others-Accounts k (insert t j (establish st)) ab.keyed (some j) j)

    go : {r : Option MediaSessionState × Sessions} → Ensured j s r → Accounts k s (finish r)
    go (stored st e q) = rw q (won st s (same-Accounts k s h) e)
    go (missing e q) = rw q (others-Accounts k s h none j)
    go (branched st e i q) = rw q (
        won (branch_of j st) (insert s j (branch_of j st))
          (insert_new-Accounts k s h j (branch_of j st) e refl) (rw find-insert (rw (==-refl j))))

terminate-Accounts :
    (k j : MediaSessionKey) (s : Sessions) (st : MediaSessionState)
    → IsKeyed s
    → find s j ≡ some st
    → is_terminating st.lifecycle ≡ false
    → Accounts k s (make_termination_plan_locked j st ∷ [], insert s j (terminate st))
terminate-Accounts k j s st h e q = record {
  count = elim (Bool-cases (j == k)) [
    | inl same ↦
        let here : find s k ≡ some st =
          subst (λ m. find s m ≡ some st) ((key_eq_iff j k).0 same) e in
        ground (arith, same, here, find-insert s j k (terminate st))
    | inr other ↦ ground (arith, other, find-insert s j k (terminate st))
  ];
  keyed = insert-IsKeyed s j (terminate st) h;
}

plan-Accounts :
    (k j : MediaSessionKey) (s : Sessions)
    → IsKeyed s
    → Accounts k s (let r = plan_termination j s in (plan_list r.0, r.1))
unfolding plan_termination
plan-Accounts k j s h = elim (Option-cases (find s j)) [
  | inl e ↦ rw (e, plan_termination) (same-Accounts k s h)
  | inr (st, e) ↦ elim (Bool-cases (is_terminating st.lifecycle)) [
    | inl over ↦ ground (arith, e, over, same-Accounts k s h)
    | inr going ↦ ground (arith, e, going, terminate-Accounts k j s st h e going)
  ]
]

mark-Accounts :
    (k j : MediaSessionKey) (s : Sessions) → IsKeyed s → Accounts k s (signal (marks j) s)
unfolding signal mark_terminating
mark-Accounts k j s h = elim (Option-cases (find_terminating_key j s)) [
  | inl e ↦ rw (e, mark_terminating) (same-Accounts k s h)
  | inr (m, e) ↦ rw (e, mark_terminating) (plan-Accounts k m s h)
]

pub signal-Accounts :
    (k : MediaSessionKey) (c : Signal) (s : Sessions) → IsKeyed s → Accounts k s (signal c s)
unfolding signal
signal-Accounts k (begins j) s h = begin-Accounts k j s h
signal-Accounts k (final_success j) s h = success-Accounts k j s h
signal-Accounts k (final_failure j) s h = others-Accounts k s h none j
signal-Accounts k (marks j) s h = mark-Accounts k j s h
signal-Accounts k (commits j sdp final) s h = commit-Accounts k s h j sdp final
signal-Accounts k (caller_sdp j sdp) s h = update-Accounts k s h _ j (λ st. refl)
signal-Accounts k (callee_sdp j sdp) s h = update-Accounts k s h _ j (λ st. refl)
signal-Accounts k (rx_session j rx) s h = update-Accounts k s h _ j (λ st. refl)
signal-Accounts k (qos j active) s h = update-Accounts k s h _ j (λ st. refl)
signal-Accounts k (caller_sdp_by_call call sdp) s h =
    update_by_call-Accounts k s h _ call (λ st. refl)
signal-Accounts k (callee_sdp_by_call call sdp) s h =
    update_by_call-Accounts k s h _ call (λ st. refl)
signal-Accounts k (rx_session_by_call call rx) s h =
    update_by_call-Accounts k s h _ call (λ st. refl)
signal-Accounts k (qos_by_call call active) s h = update_by_call-Accounts k s h _ call (λ st. refl)

run-Accounts :
    (k : MediaSessionKey) (cs : List Signal) (s : Sessions)
    → IsKeyed s
    → Accounts k s (run_signals cs s)
unfolding run_signals
run-Accounts k [] s h = same-Accounts k s h
run-Accounts k (c ∷ cs) s h =
    let a = signal-Accounts k c s h in
    let b = run-Accounts k cs (signal c s).1 a.keyed in
    record {
      count = omega (
        arith,
        a.count,
        b.count,
        plans_for-append k (signal c s).0 (run_signals cs (signal c s).1).0,
      );
      keyed = b.keyed;
    }

terminating_state-le : (o : Option MediaSessionState) → terminating_state o ≤ 1
terminating_state-le none = omega arith
terminating_state-le (some st) = ground arith

-- However responses, final answers, BYEs and updates interleave, at most one plan is handed out for a
-- session that is not terminating at first, none for one that is, and one exactly if the session has
-- become terminating.
pub run-plans :
    (k : MediaSessionKey) (cs : List Signal) (s : Sessions)
    → IsKeyed s
    → (plans_for k (run_signals cs s).0 + terminating_at k s
        ≡ terminating_at k (run_signals cs s).1)
      × (plans_for k (run_signals cs s).0 ≤ 1)
run-plans k cs s h =
    let a = run-Accounts k cs s h in
    (a.count, omega (arith, a.count, terminating_state-le (find (run_signals cs s).1 k)))
