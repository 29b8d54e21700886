-- ===== src/Media/Plans.antt =====
-- The termination plans that single writes of rtp/media_session.cpp hand out.
use sim_ims.Prelude.{
  ℕ, suc, ◌+◌, ◌≡◌, refl, subst, inl, inr, Bool, false, Option, none, some, List, [], ◌∷◌, ◌++◌,
  arith, if◌then◌else◌, ◌==◌, ==-refl, Bool-cases, Option-cases,
}
use sim_ims.Prelude.Text.{Text, text_instance}
use sim_ims.Prelude.Table.{find, insert, find-insert, IsKeyed, insert-IsKeyed}
use sim_ims.Media.{
  MediaSessionKey, key_instance, key_eq_iff, MediaSessionState, MediaTerminationPlan, Sessions,
  is_terminating, established, find_unique_by_call_id_locked, update, update_by_call,
}
use sim_ims.Media.Invite.{is_spared, terminate, terminate_others, commit_invite_response}
use sim_ims.Media.Unique.{find_unique-find}

abbrev pub plans_for : MediaSessionKey → List MediaTerminationPlan → ℕ
plans_for k [] = 0
plans_for k (p ∷ ps) = if p.key == k then suc (plans_for k ps) else plans_for k ps

abbrev pub terminating_state : Option MediaSessionState → ℕ
terminating_state none = 0
terminating_state (some st) = if is_terminating st.lifecycle then 1 else 0

-- 1 if the session at the key is terminating, else 0.
abbrev pub terminating_at : MediaSessionKey → Sessions → ℕ
terminating_at k s = terminating_state (find s k)

pub plans_for-append :
    (k : MediaSessionKey) (ps qs : List MediaTerminationPlan)
    → plans_for k (ps ++ qs) ≡ plans_for k ps + plans_for k qs
plans_for-append k [] qs = omega arith
plans_for-append k (p ∷ ps) qs = ground (arith, plans_for-append k ps qs)

-- What the loop over the sessions does to one of them.
abbrev pub after_others :
    Option MediaSessionKey
    → MediaSessionKey
    → MediaSessionKey
    → Option MediaSessionState
    → Option MediaSessionState
after_others winner answered k none = none
after_others winner answered k (some st) =
    some (if is_spared winner answered k st then st else terminate st)

pub find-terminate_others :
    (winner : Option MediaSessionKey) (answered k : MediaSessionKey) (s : Sessions)
    → find (terminate_others winner answered s).1 k ≡ after_others winner answered k (find s k)
unfolding terminate_others find
find-terminate_others winner answered k [] = refl
find-terminate_others winner answered k ((j, st) ∷ s) = elim (Bool-cases (j == k)) [
  | inl e ↦
      let p : j ≡ k = (key_eq_iff j k).0 e in
      subst
        (λ m.
          find (terminate_others winner answered ((j, st) ∷ s)).1 m
          ≡ after_others winner answered m (find ((j, st) ∷ s) m))
        p (let own = ==-refl j in ground (arith, own))
  | inr e ↦ ground (arith, e, find-terminate_others winner answered k s)
]

-- The plans of the loop are those of the sessions that it turned into terminating ones.
pub plans-terminate_others :
    (winner : Option MediaSessionKey) (answered k : MediaSessionKey) (s : Sessions)
    → IsKeyed s
    → plans_for k (terminate_others winner answered s).0 + terminating_at k s
      ≡ terminating_at k (terminate_others winner answered s).1
unfolding terminate_others find
plans-terminate_others winner answered k [] h = refl
plans-terminate_others winner answered k ((j, st) ∷ s) h = elim (Bool-cases (j == k)) [
  | inl e ↦
      let p : j ≡ k = (key_eq_iff j k).0 e in
      let gone : find s k ≡ none = subst (λ m. find s m ≡ none) p h.0 in
      ground (
        arith,
        e,
        gone,
        find-terminate_others winner answered k s,
        plans-terminate_others winner answered k s h.1,
      )
  | inr e ↦ ground (arith, e, plans-terminate_others winner answered k s h.1)
]

pub terminate_others-IsKeyed :
    (winner : Option MediaSessionKey) (answered : MediaSessionKey) (s : Sessions)
    → IsKeyed s
    → IsKeyed (terminate_others winner answered s).1
unfolding terminate_others
terminate_others-IsKeyed winner answered [] h = tt
terminate_others-IsKeyed winner answered ((j, st) ∷ s) h = ground (
  arith,
  find-terminate_others winner answered j s,
  terminate_others-IsKeyed winner answered s h.1,
)

-- The plans handed out for a key are as many as its session turns from live to terminating.
pub record Accounts (k : MediaSessionKey) (s : Sessions) (r : List MediaTerminationPlan × Sessions)
    : Type 0 where
  pub count : plans_for k r.0 + terminating_at k s ≡ terminating_at k r.1
  pub keyed : IsKeyed r.1

module _ (k : MediaSessionKey) (s : Sessions) (keyed : IsKeyed s) where
  pub same-Accounts : Accounts k s ([], s)
  same-Accounts = record { count = omega arith; keyed = keyed }

  -- A write to a stored session that leaves its lifecycle alone, or leaves it live.
  pub insert-Accounts :
      (j : MediaSessionKey) (old new : MediaSessionState)
      → find s j ≡ some old
      → is_terminating old.lifecycle ≡ is_terminating new.lifecycle
      → Accounts k s ([], insert s j new)
  insert-Accounts j old new e q = record {
    count = elim (Bool-cases (j == k)) [
      | inl same ↦
          let here : find s k ≡ some old =
            subst (λ m. find s m ≡ some old) ((key_eq_iff j k).0 same) e in
          ground (arith, same, here, find-insert s j k new)
      | inr other ↦ ground (arith, other, find-insert s j k new)
    ];
    keyed = insert-IsKeyed s j new keyed;
  }

  pub update-Accounts :
      (f : MediaSessionState → MediaSessionState) (j : MediaSessionKey)
      → ((st : MediaSessionState) → is_terminating st.lifecycle ≡ is_terminating (f st).lifecycle)
      → Accounts k s ([], update f j s)
  update-Accounts f j q = elim (Option-cases (find s j)) [
    | inl e ↦ rw (e, update) same-Accounts
    | inr (st, e) ↦ rw (e, update) (insert-Accounts j st (f st) e (q st))
  ]

  pub update_by_call-Accounts :
      (f : MediaSessionState → MediaSessionState) (call : Text)
      → ((st : MediaSessionState) → is_terminating st.lifecycle ≡ is_terminating (f st).lifecycle)
      → Accounts k s ([], update_by_call f call s)
  update_by_call-Accounts f call q = elim (Option-cases (find_unique_by_call_id_locked call s)) [
    | inl e ↦ rw (e, update_by_call) same-Accounts
    | inr (d, e) ↦
        rw (e, update_by_call)
          (insert-Accounts d.0 d.1 (f d.1) (find_unique-find call s d keyed e).0 (q d.1))
  ]

  pub commit-Accounts :
      (j : MediaSessionKey) (sdp : Text) (final : Bool)
      → Accounts k s ([], commit_invite_response j sdp final s)
  unfolding commit_invite_response
  commit-Accounts j sdp final = elim (Option-cases (find s j)) [
    | inl e ↦ rw (e, commit_invite_response) same-Accounts
    | inr (st, e) ↦ elim (Bool-cases (is_terminating st.lifecycle)) [
      | inl over ↦ ground (arith, e, over, same-Accounts)
      | inr going ↦
          let new : MediaSessionState = record st {
            callee_sdp = sdp;
            lifecycle = if final then established else st.lifecycle;
          } in
          ground (arith, e, going, insert-Accounts j st new e)
    ]
  ]

  -- A session where there was none.
  pub insert_new-Accounts :
      (j : MediaSessionKey) (new : MediaSessionState)
      → find s j ≡ none
      → is_terminating new.lifecycle ≡ false
      → Accounts k s ([], insert s j new)
  insert_new-Accounts j new e q = record {
    count = elim (Bool-cases (j == k)) [
      | inl same ↦
          let here : find s k ≡ none = subst (λ m. find s m ≡ none) ((key_eq_iff j k).0 same) e in
          ground (arith, same, here, find-insert s j k new)
      | inr other ↦ ground (arith, other, find-insert s j k new)
    ];
    keyed = insert-IsKeyed s j new keyed;
  }

  pub others-Accounts :
      (winner : Option MediaSessionKey) (answered : MediaSessionKey)
      → Accounts k s (terminate_others winner answered s)
  others-Accounts winner answered = record {
    count = plans-terminate_others winner answered k s keyed;
    keyed = terminate_others-IsKeyed winner answered s keyed;
  }
