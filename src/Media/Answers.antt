-- ===== src/Media/Answers.antt =====
-- The session that an INVITE response finds or makes, and what a successful final answer leaves.
use sim_ims.Prelude.{
  ◌≡◌, refl, inl, inr, Option, none, some, List, arith, is_empty, if◌then◌else◌, ◌==◌, Bool-cases,
  Option-cases,
}
use sim_ims.Prelude.Text.{text_instance}
use sim_ims.Prelude.Table.{find, insert, find-insert}
use sim_ims.Media.{
  MediaSessionKey, key_instance, MediaSessionState, MediaTerminationPlan, Sessions, is_terminating,
}
use sim_ims.Media.Invite.{
  terminate_others, ensure_invite_response_session_locked, branch_of, initial_key, establish,
  mark_invite_final_success,
}
use sim_ims.Media.Plans.{after_others, find-terminate_others}

-- The three outcomes of looking for a response's session.
pub data Ensured (j : MediaSessionKey) (s : Sessions) (r : Option MediaSessionState × Sessions)
    : Type 0 where
  stored : (st : MediaSessionState) → find s j ≡ some st → r ≡ (some st, s) → Ensured j s r
  missing : find s j ≡ none → r ≡ (none, s) → Ensured j s r
  branched :
      (st : MediaSessionState)
      → find s j ≡ none
      → find s (initial_key j) ≡ some st
      → r ≡ (some (branch_of j st), insert s j (branch_of j st))
      → Ensured j s r

pub ensure-Ensured :
    (j : MediaSessionKey) (s : Sessions) → Ensured j s (ensure_invite_response_session_locked j s)
unfolding ensure_invite_response_session_locked
ensure-Ensured j s = elim (Option-cases (find s j)) [
  | inr (st, e) ↦ stored st e (rw (e, ensure_invite_response_session_locked))
  | inl e ↦ elim (Bool-cases (is_empty j.to_tag)) [
    | inl bare ↦ missing e (ground (arith, e, bare))
    | inr tagged ↦ elim (Option-cases (find s (initial_key j))) [
      | inl none_there ↦ missing e (ground (arith, e, tagged, none_there))
      | inr (st, there) ↦ elim (Bool-cases (is_terminating st.lifecycle)) [
        | inl over ↦ missing e (ground (arith, e, tagged, there, over))
        | inr going ↦ branched st e there (ground (arith, e, tagged, there, going))
      ]
    ]
  ]
]

-- What a successful final answer leaves at each key: the answered session established, unless it is
-- terminating; of the other sessions of that call and caller, those that are not established dialogs
-- terminating; the rest as they were.
pub mark_invite_final_success_lem :
    (j k : MediaSessionKey) (s : Sessions) (st : MediaSessionState)
    → find s j ≡ some st
    → find (mark_invite_final_success j s).1 k
      ≡ (if j == k then some (establish st) else after_others (some j) j k (find s k))
unfolding mark_invite_final_success
mark_invite_final_success_lem j k s st e = go (ensure-Ensured j s)
  where
    finish : Option MediaSessionState × Sessions → List MediaTerminationPlan × Sessions
    finish r = elim r.0 [
      | none ↦ terminate_others none j r.1
      | some st' ↦ terminate_others (some j) j (insert r.1 j (establish st'))
    ]

    won :
        (a : MediaSessionState)
        → a ≡ st
        → after_others (some j) j k (if j == k then some (establish a) else find s k)
          ≡ (if j == k then some (establish st) else after_others (some j) j k (find s k))
    won a same = elim (Bool-cases (j == k)) [
      | inl here ↦ rw same (ground (arith, here))
      | inr other ↦ rw other refl
    ]

    go :
        {r : Option MediaSessionState × Sessions}
        → Ensured j s r
        → find (finish r).1 k
          ≡ (if j == k then some (establish st) else after_others (some j) j k (find s k))
    go (missing n q) = cc (e, n)
    go (branched a n i q) = cc (e, n)
    go (stored a n q) = rw q (rw find-terminate_others (rw find-insert (won a (cc (n, e)))))
