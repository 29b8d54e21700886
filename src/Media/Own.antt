-- ===== src/Media/Own.antt =====
-- A session's identifiers are those of its key.
use sim_ims.Prelude.{
  ◌≡◌, refl, sym, subst, ◌∙◌, inl, inr, Bool, Option, none, some, List, [], ◌∷◌, arith,
  if◌then◌else◌, ◌==◌, Bool-cases, Option-cases,
}
use sim_ims.Prelude.Text.{Text, text_instance}
use sim_ims.Prelude.Table.{
  find, insert, erase, find-insert, find-erase, IsKeyed, insert-IsKeyed, erase-IsKeyed,
}
use sim_ims.Media.{
  MediaSessionKey, key_instance, key_eq_iff, MediaSessionState, MediaTerminationPlan, Sessions,
  session_of, with_to_tag, retag, established, find_unique_by_call_id_locked, update,
  update_by_call, update_to_tag, update_to_tag_by_call, remove_session_by_call,
}
use sim_ims.Media.Invite.{
  is_spared, terminate, terminate_others, branch_of, initial_key, begin_invite_response,
  commit_invite_response, establish, mark_invite_final_success, find_terminating_key,
  mark_terminating, complete_termination, plan_termination,
}
use sim_ims.Media.Unique.{find_unique-find}
use sim_ims.Media.Plans.{find-terminate_others, after_others, terminate_others-IsKeyed}
use sim_ims.Media.Answers.{Ensured, stored, missing, branched, ensure-Ensured}
use sim_ims.Media.Calls.{
  Call, creates, renames, renames_by_call, removes, completes, removes_by_call, signals, Signal,
  begins, final_success, final_failure, marks, commits, caller_sdp, callee_sdp, rx_session, qos,
  caller_sdp_by_call, callee_sdp_by_call, rx_session_by_call, qos_by_call, signal, step, run,
}

pub record IsOwn (s : Sessions) : Type 0 where
  pub keyed : IsKeyed s
  pub own :
      (k : MediaSessionKey) (st : MediaSessionState)
      → find s k ≡ some st
      → st.session ≡ session_of k

module _ (s : Sessions) (o : IsOwn s) where
  insert-IsOwn :
      (j : MediaSessionKey) (st : MediaSessionState)
      → st.session ≡ session_of j
      → IsOwn (insert s j st)
  insert-IsOwn j st q = record {
    keyed = insert-IsKeyed s j st o.keyed;
    own = λ k st' h. elim (Bool-cases (j == k)) [
      | inl e ↦
          let p : j ≡ k = (key_eq_iff j k).0 e in
          let same : some st ≡ some st' = ground (arith, e, find-insert s j k st) in cc (q, p, same)
      | inr e ↦ o.own k st' (ground (arith, e, find-insert s j k st))
    ];
  }

  erase-IsOwn : (j : MediaSessionKey) → IsOwn (erase s j)
  erase-IsOwn j = record {
    keyed = erase-IsKeyed s j o.keyed;
    own = λ k st h. o.own k st (ground (arith, find-erase s j k));
  }

  update-IsOwn :
      (f : MediaSessionState → MediaSessionState) (j : MediaSessionKey)
      → ((st : MediaSessionState) → (f st).session ≡ st.session)
      → IsOwn (update f j s)
  update-IsOwn f j q = elim (Option-cases (find s j)) [
    | inl e ↦ rw (e, update) o
    | inr (st, e) ↦ rw (e, update) (insert-IsOwn j (f st) (q st ∙ o.own j st e))
  ]

  update_by_call-IsOwn :
      (f : MediaSessionState → MediaSessionState) (call : Text)
      → ((st : MediaSessionState) → (f st).session ≡ st.session)
      → IsOwn (update_by_call f call s)
  update_by_call-IsOwn f call q = elim (Option-cases (find_unique_by_call_id_locked call s)) [
    | inl e ↦ rw (e, update_by_call) o
    | inr (d, e) ↦
        rw (e, update_by_call)
          (insert-IsOwn d.0 (f d.1) (q d.1 ∙ o.own d.0 d.1 (find_unique-find call s d o.keyed e).0))
  ]

rename-IsOwn :
    (s : Sessions) (j : MediaSessionKey) (to_tag : Text) (st : MediaSessionState)
    → IsOwn s
    → find s j ≡ some st
    → IsOwn (insert (erase s j) (with_to_tag j to_tag) (retag to_tag st))
rename-IsOwn s j to_tag st o e =
    insert-IsOwn (erase s j) (erase-IsOwn s o j) (with_to_tag j to_tag) (retag to_tag st)
      (let q = o.own j st e in cc (q))

branch-session :
    (s : Sessions) (j : MediaSessionKey) (st : MediaSessionState)
    → IsOwn s
    → find s (initial_key j) ≡ some st
    → (branch_of j st).session ≡ session_of j
branch-session s j st o e = let q = o.own (initial_key j) st e in cc (q)

after_others-session :
    (w : Option MediaSessionKey) (j k : MediaSessionKey) (o : Option MediaSessionState)
    (st : MediaSessionState)
    → after_others w j k o ≡ some st
    → (old : MediaSessionState) × (o ≡ some old) × (old.session ≡ st.session)
after_others-session w j k none st h = cc
after_others-session w j k (some old) st h = (
  old,
  refl,
  elim (Bool-cases (is_spared w j k old)) [
    | inl e ↦
        let same : some old ≡ some st =
          subst (λ b. some (if b then old else terminate old) ≡ some st) e h in
        cc (same)
    | inr e ↦
        let same : some (terminate old) ≡ some st =
          subst (λ b. some (if b then old else terminate old) ≡ some st) e h in
        cc (same)
  ],
)

others-IsOwn :
    (w : Option MediaSessionKey) (j : MediaSessionKey) (s : Sessions)
    → IsOwn s
    → IsOwn (terminate_others w j s).1
others-IsOwn w j s o = record {
  keyed = terminate_others-IsKeyed w j s o.keyed;
  own = λ k st h.
      let (old, e, q) =
        after_others-session w j k (find s k) st (sym (find-terminate_others w j k s) ∙ h) in
      sym q ∙ o.own k old e;
}

begin-IsOwn : (j : MediaSessionKey) (s : Sessions) → IsOwn s → IsOwn (begin_invite_response j s).1
unfolding begin_invite_response
begin-IsOwn j s o = go (ensure-Ensured j s)
  where
    go : {r : Option MediaSessionState × Sessions} → Ensured j s r → IsOwn r.1
    go (stored st e q) = rw q o
    go (missing e q) = rw q o
    go (branched st e i q) = rw q (insert-IsOwn s o j (branch_of j st) (branch-session s j st o i))

establish-session : (st : MediaSessionState) → (establish st).session ≡ st.session
establish-session st = ground arith

success-IsOwn :
    (j : MediaSessionKey) (s : Sessions) → IsOwn s → IsOwn (mark_invite_final_success j s).1
unfolding mark_invite_final_success
success-IsOwn j s o = go (ensure-Ensured j s)
  where
    finish : Option MediaSessionState × Sessions → List MediaTerminationPlan × Sessions
    finish r = elim r.0 [
      | none ↦ terminate_others none j r.1
      | some st ↦ terminate_others (some j) j (insert r.1 j (establish st))
    ]

    go : {r : Option MediaSessionState × Sessions} → Ensured j s r → IsOwn (finish r).1
    go (stored st e q) = rw q (
        others-IsOwn (some j) j (insert s j (establish st))
          (insert-IsOwn s o j (establish st) (establish-session st ∙ o.own j st e)))
    go (missing e q) = rw q (others-IsOwn none j s o)
    go (branched st e i q) =
        let b = branch_of j st in
        let own = branch-session s j st o i in
        rw q (
          others-IsOwn (some j) j (insert (insert s j b) j (establish b))
            (insert-IsOwn (insert s j b) (insert-IsOwn s o j b own) j (establish b) own))

commit-IsOwn :
    (j : MediaSessionKey) (sdp : Text) (final : Bool) (s : Sessions)
    → IsOwn s
    → IsOwn (commit_invite_response j sdp final s)
unfolding commit_invite_response
commit-IsOwn j sdp final s o = elim (Option-cases (find s j)) [
  | inl e ↦ rw (e, commit_invite_response) o
  | inr (st, e) ↦
      let new : MediaSessionState = record st {
        callee_sdp = sdp;
        lifecycle = if final then established else st.lifecycle;
      } in
      let kept = insert-IsOwn s o j new (o.own j st e) in ground (arith, e, o, kept)
]

plan-IsOwn : (j : MediaSessionKey) (s : Sessions) → IsOwn s → IsOwn (plan_termination j s).1
unfolding plan_termination
plan-IsOwn j s o = elim (Option-cases (find s j)) [
  | inl e ↦ rw (e, plan_termination) o
  | inr (st, e) ↦
      let kept = insert-IsOwn s o j (terminate st) (o.own j st e) in ground (arith, e, o, kept)
]

mark-IsOwn : (j : MediaSessionKey) (s : Sessions) → IsOwn s → IsOwn (mark_terminating j s).1
unfolding mark_terminating
mark-IsOwn j s o = elim (Option-cases (find_terminating_key j s)) [
  | inl e ↦ rw (e, mark_terminating) o
  | inr (m, e) ↦ rw (e, mark_terminating) (plan-IsOwn m s o)
]

signal-IsOwn : (c : Signal) (s : Sessions) → IsOwn s → IsOwn (signal c s).1
unfolding signal
signal-IsOwn (begins j) s o = begin-IsOwn j s o
signal-IsOwn (final_success j) s o = success-IsOwn j s o
signal-IsOwn (final_failure j) s o = others-IsOwn none j s o
signal-IsOwn (marks j) s o = mark-IsOwn j s o
signal-IsOwn (commits j sdp final) s o = commit-IsOwn j sdp final s o
signal-IsOwn (caller_sdp j sdp) s o = update-IsOwn s o _ j (λ st. refl)
signal-IsOwn (callee_sdp j sdp) s o = update-IsOwn s o _ j (λ st. refl)
signal-IsOwn (rx_session j rx) s o = update-IsOwn s o _ j (λ st. refl)
signal-IsOwn (qos j active) s o = update-IsOwn s o _ j (λ st. refl)
signal-IsOwn (caller_sdp_by_call call sdp) s o = update_by_call-IsOwn s o _ call (λ st. refl)
signal-IsOwn (callee_sdp_by_call call sdp) s o = update_by_call-IsOwn s o _ call (λ st. refl)
signal-IsOwn (rx_session_by_call call rx) s o = update_by_call-IsOwn s o _ call (λ st. refl)
signal-IsOwn (qos_by_call call active) s o = update_by_call-IsOwn s o _ call (λ st. refl)

rename_call-IsOwn :
    (j : MediaSessionKey) (to_tag : Text) (s : Sessions)
    → IsOwn s
    → IsOwn (update_to_tag j to_tag s)
unfolding update_to_tag
rename_call-IsOwn j to_tag s o = elim (Option-cases (find s j)) [
  | inl e ↦ rw (e, update_to_tag) o
  | inr (st, e) ↦ rw (e, update_to_tag) (rename-IsOwn s j to_tag st o e)
]

rename_by_call-IsOwn :
    (call to_tag : Text) (s : Sessions) → IsOwn s → IsOwn (update_to_tag_by_call call to_tag s)
unfolding update_to_tag_by_call
rename_by_call-IsOwn call to_tag s o = elim (Option-cases (find_unique_by_call_id_locked call s)) [
  | inl e ↦ rw (e, update_to_tag_by_call) o
  | inr (d, e) ↦
      rw (e, update_to_tag_by_call)
        (rename-IsOwn s d.0 to_tag d.1 o (find_unique-find call s d o.keyed e).0)
]

remove_by_call-IsOwn :
    (call : Text) (s : Sessions) → IsOwn s → IsOwn (remove_session_by_call call s)
unfolding remove_session_by_call
remove_by_call-IsOwn call s o = elim (Option-cases (find_unique_by_call_id_locked call s)) [
  | inl e ↦ rw (e, remove_session_by_call) o
  | inr (d, e) ↦ rw (e, remove_session_by_call) (erase-IsOwn s o d.0)
]

complete-IsOwn : (j : MediaSessionKey) (s : Sessions) → IsOwn s → IsOwn (complete_termination j s)
unfolding complete_termination
complete-IsOwn j s o = elim (Option-cases (find s j)) [
  | inl e ↦ rw (e, complete_termination) o
  | inr (st, e) ↦ ground (arith, e, o, erase-IsOwn s o j)
]

step-IsOwn : (c : Call) (s : Sessions) → IsOwn s → IsOwn (step c s).1
unfolding step
step-IsOwn (creates now j) s o = insert-IsOwn s o j _ refl
step-IsOwn (renames j to_tag) s o = rename_call-IsOwn j to_tag s o
step-IsOwn (renames_by_call call to_tag) s o = rename_by_call-IsOwn call to_tag s o
step-IsOwn (removes j) s o = erase-IsOwn s o j
step-IsOwn (removes_by_call call) s o = remove_by_call-IsOwn call s o
step-IsOwn (completes j) s o = complete-IsOwn j s o
step-IsOwn (signals c) s o = signal-IsOwn c s o

-- After any calls from such a table, no key has two sessions, and the identifiers of each session,
-- which the media relay is addressed by, are those of its key.
pub run-IsOwn : (cs : List Call) (s : Sessions) → IsOwn s → IsOwn (run cs s)
unfolding run
run-IsOwn [] s o = o
run-IsOwn (c ∷ cs) s o = run-IsOwn cs (step c s).1 (step-IsOwn c s o)
