-- ===== src/Pcscf/Completed.antt =====
-- The media sessions of the P-CSCF after plans are completed.
use sim_ims.Prelude.{
  ℕ, suc, ◌+◌, ◌≡◌, refl, ap, ◌∙◌, subst, inl, inr, Bool, true, false, Option, none, some, List, [],
  ◌∷◌, arith, ltb, if◌then◌else◌, ◌==◌, Bool-cases, Option-cases,
}
use sim_ims.Prelude.Text.{Text, text_instance}
use sim_ims.Prelude.Table.{find, find-insert, find-erase, IsKeyed, insert-IsKeyed, erase-IsKeyed}
use sim_ims.Media.{
  MediaSessionKey, key_instance, key_eq_iff, MediaSessionState, MediaTerminationPlan, Sessions,
  is_terminating, create_session,
}
use sim_ims.Media.Invite.{
  complete_termination, mark_terminating, begin_invite_response, commit_invite_response,
  mark_invite_final_failure, mark_invite_final_success,
}
use sim_ims.Media.Calls.{
  Signal, signal, marks, begins, commits, caller_sdp, final_failure, final_success, plan_list,
}
use sim_ims.Media.Plans.{plans_for, terminating_state, terminating_at, Accounts}
use sim_ims.Media.Once.{signal-Accounts}
use sim_ims.Common.{Result, ok, err}
use sim_ims.Message.{SipMessage}
use sim_ims.Pcscf.{PcscfService, PcscfState, RtpengineResult}
use sim_ims.Pcscf.Anchoring.{complete_media_terminations, completed, release}
use sim_ims.Pcscf.Handlers.{offered}

-- A session, unless it is terminating.
abbrev pub live : Option MediaSessionState → Option MediaSessionState
live none = none
live (some st) = if is_terminating st.lifecycle then none else some st

pub find_complete :
    (j k : MediaSessionKey) (s : Sessions)
    → find (complete_termination j s) k ≡ (if j == k then live (find s k) else find s k)
unfolding complete_termination
find_complete j k s = elim (Option-cases (find s j)) [
  | inl e ↦ elim (Bool-cases (j == k)) [
    | inl same ↦
        let here : find s k ≡ none = subst (λ m. find s m ≡ none) ((key_eq_iff j k).0 same) e in
        ground (arith, e, same, here)
    | inr other ↦ ground (arith, e, other)
  ]
  | inr (st, e) ↦ elim (Bool-cases (j == k)) [
    | inl same ↦
        let here : find s k ≡ some st =
          subst (λ m. find s m ≡ some st) ((key_eq_iff j k).0 same) e in
        ground (arith, e, same, here, find-erase s j k)
    | inr other ↦ ground (arith, e, other, find-erase s j k)
  ]
]

complete-IsKeyed :
    (j : MediaSessionKey) (s : Sessions) → IsKeyed s → IsKeyed (complete_termination j s)
unfolding complete_termination
complete-IsKeyed j s h = elim (Option-cases (find s j)) [
  | inl e ↦ rw (complete_termination, e) h
  | inr (st, e) ↦ elim (Bool-cases (is_terminating st.lifecycle)) [
    | inl over ↦ rw (complete_termination, e, over) (erase-IsKeyed s j h)
    | inr going ↦ rw (complete_termination, e, going) h
  ]
]

live_twice : (o : Option MediaSessionState) → live (live o) ≡ live o
live_twice none = refl
live_twice (some st) = elim (Bool-cases (is_terminating st.lifecycle)) [
  | inl e ↦ rw e refl
  | inr e ↦ rw (e, live, e) refl
]

-- A plan, then the others.
once_or_again :
    (b : Bool) (n : ℕ) (o q : Option MediaSessionState)
    → q ≡ (if b then live o else o)
    → (if ltb 0 n then live q else q) ≡ (if ltb 0 (if b then suc n else n) then live o else o)
once_or_again true n o q h = rw h (ground (arith, live_twice o))
once_or_again false n o q h = rw h refl

module _ {ℓ} {E : Type ℓ} (s : PcscfService E) where
  -- The sessions that are gone after plans are completed: the terminating ones that have a plan.
  pub find-complete_all :
      (plans : List MediaTerminationPlan) (media : Sessions) (e : E) (k : MediaSessionKey)
      → find (complete_media_terminations s plans media e).0 k
        ≡ (if ltb 0 (plans_for k plans) then live (find media k) else find media k)
  unfolding complete_media_terminations
  find-complete_all [] media e k = refl
  find-complete_all (p ∷ ps) media e k =
      find-complete_all ps (complete_termination p.key media) (release s p e) k
      ∙ once_or_again (p.key == k) (plans_for k ps) (find media k) _ (find_complete p.key k media)

  pub complete_all-IsKeyed :
      (plans : List MediaTerminationPlan) (media : Sessions) (e : E)
      → IsKeyed media
      → IsKeyed (complete_media_terminations s plans media e).0
  unfolding complete_media_terminations
  complete_all-IsKeyed [] media e h = h
  complete_all-IsKeyed (p ∷ ps) media e h =
      complete_all-IsKeyed ps (complete_termination p.key media) (release s p e)
        (complete-IsKeyed p.key media h)

-- No session is terminating.
pub record IsSettled (media : Sessions) : Type 0 where
  pub keyed : IsKeyed media
  pub quiet : (k : MediaSessionKey) → terminating_at k media ≡ 0

live-quiet : (o : Option MediaSessionState) → terminating_state (live o) ≡ 0
live-quiet none = refl
live-quiet (some st) = elim (Bool-cases (is_terminating st.lifecycle)) [
  | inl e ↦ rw e refl
  | inr e ↦ rw (e, terminating_state, e) refl
]

-- After a signal that hands out no plan.
pub silent-IsSettled :
    (c : Signal) (media : Sessions) (t : Sessions)
    → signal c media ≡ ([], t)
    → IsSettled media
    → IsSettled t
silent-IsSettled c media t e h =
    let at : (k : MediaSessionKey) → Accounts k media ([], t) =
      λ k. subst (Accounts k media) e (signal-Accounts k c media h.keyed) in
    record {
      keyed = (at (record { call_id = []; from_tag = []; to_tag = [] })).keyed;
      quiet = λ k. omega (arith, (at k).count, h.quiet k);
    }

pub marked-signal :
    (key : MediaSessionKey) (media : Sessions)
    → signal (marks key) media
      ≡ (plan_list (mark_terminating key media).0, (mark_terminating key media).1)
unfolding signal
marked-signal key media = refl

pub begins-signal :
    (key : MediaSessionKey) (media : Sessions)
    → signal (begins key) media ≡ ([], (begin_invite_response key media).1)
unfolding signal
begins-signal key media = refl

pub commits-signal :
    (key : MediaSessionKey) (sdp : Text) (final : Bool) (media : Sessions)
    → signal (commits key sdp final) media ≡ ([], commit_invite_response key sdp final media)
unfolding signal
commits-signal key sdp final media = refl

pub failure-signal :
    (key : MediaSessionKey) (media : Sessions)
    → signal (final_failure key) media ≡ mark_invite_final_failure key media
unfolding signal
failure-signal key media = refl

pub success-signal :
    (key : MediaSessionKey) (media : Sessions)
    → signal (final_success key) media ≡ mark_invite_final_success key media
unfolding signal
success-signal key media = refl

pub offered-IsSettled :
    (o : Result RtpengineResult) (key : MediaSessionKey) (sdp : Text) (m : SipMessage)
    (media : Sessions)
    → IsSettled media
    → IsSettled (offered o key sdp m media).1
unfolding signal
offered-IsSettled (err x) key sdp m media h = h
offered-IsSettled (ok r) key sdp m media h = silent-IsSettled (caller_sdp key sdp) media _ refl h

pub create-IsSettled :
    (now : ℕ) (key : MediaSessionKey) (media : Sessions)
    → IsSettled media
    → IsSettled (create_session now key media).1
unfolding create_session
create-IsSettled now key media h = record {
  keyed = insert-IsKeyed media key _ h.keyed;
  quiet = λ k. elim (Bool-cases (key == k)) [
    | inl same ↦ rw find-insert (rw same refl)
    | inr other ↦ rw find-insert (rw other (h.quiet k))
  ];
}

module _ {ℓ} {E : Type ℓ} (s : PcscfService E) where
  -- After the plans of a signal are completed.
  pub completed-IsSettled :
      (c : Signal) (media : Sessions) (r : List MediaTerminationPlan × Sessions) (st : PcscfState E)
      → signal c media ≡ r
      → IsSettled media
      → IsSettled (completed s r st).media
  completed-IsSettled c media r st e h =
      let at : (k : MediaSessionKey) → Accounts k media r =
        λ k. subst (Accounts k media) e (signal-Accounts k c media h.keyed) in
      record {
        keyed =
            complete_all-IsKeyed s r.0 r.1 st.outside
              (at (record { call_id = []; from_tag = []; to_tag = [] })).keyed;
        quiet = λ k.
            ap terminating_state (find-complete_all s r.0 r.1 st.outside k)
            ∙ settles (plans_for k r.0) (find r.1 k) ((at k).count) (h.quiet k);
      }
    where
      settles :
          {before : ℕ} (n : ℕ) (o : Option MediaSessionState)
          → n + before ≡ terminating_state o
          → before ≡ 0
          → terminating_state (if ltb 0 n then live o else o) ≡ 0
      settles n o count none_before = ground (arith, live-quiet o, count, none_before)
