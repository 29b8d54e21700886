-- ===== src/Media/Invite.antt =====
-- The part of rtp/media_session.cpp that follows an INVITE: responses, final answers, termination.
use sim_ims.Prelude.{
  Bool, false, not, ◌&&◌, ◌||◌, Option, none, some, List, [], ◌∷◌, is_empty, if◌then◌else◌, ◌==◌,
}
use sim_ims.Prelude.Text.{Text, text_instance}
use sim_ims.Prelude.Table.{find, insert, erase}
use sim_ims.Media.{
  MediaSessionKey, key_instance, early, established, terminating, is_established, is_terminating,
  MediaSessionState, InviteResponseMediaUpdate, MediaTerminationPlan, Sessions,
}

abbrev pub initial_key : MediaSessionKey → MediaSessionKey
initial_key key = record key { to_tag = [] }

-- A dialog's own session, copied from the initial one.
abbrev pub branch_of : MediaSessionKey → MediaSessionState → MediaSessionState
branch_of key st = record st {
  session = record st.session { to_tag = key.to_tag };
  lifecycle = early;
}

branch_from_initial : MediaSessionKey → Sessions → Option MediaSessionState × Sessions
branch_from_initial key s = elim (find s (initial_key key)) [
  | none ↦ (none, s)
  | some st ↦
      if is_terminating st.lifecycle
      then (none, s)
      else (some (branch_of key st), insert s key (branch_of key st))
]

-- The session at the key, made from the initial one if it is not there; an iterator to it, if any.
unfoldable pub ensure_invite_response_session_locked :
    MediaSessionKey → Sessions → Option MediaSessionState × Sessions
unfolding branch_from_initial
ensure_invite_response_session_locked key s = elim (find s key) [
  | some st ↦ (some st, s)
  | none ↦ if is_empty key.to_tag then (none, s) else branch_from_initial key s
]

unfoldable pub begin_invite_response :
    MediaSessionKey → Sessions → Option InviteResponseMediaUpdate × Sessions
unfolding ensure_invite_response_session_locked
begin_invite_response key s =
    let r = ensure_invite_response_session_locked key s in
    (
      elim r.0 [
        | none ↦ none
        | some st ↦
            if is_terminating st.lifecycle
            then none
            else some (record { key = key; session = st.session })
      ],
      r.1,
    )

unfoldable pub commit_invite_response : MediaSessionKey → Text → Bool → Sessions → Sessions
commit_invite_response key sdp final s = elim (find s key) [
  | none ↦ s
  | some st ↦
      if is_terminating st.lifecycle
      then s
      else insert s key
          (record st { callee_sdp = sdp; lifecycle = if final then established else st.lifecycle })
]

abbrev pub make_termination_plan_locked : MediaSessionKey → MediaSessionState → MediaTerminationPlan
make_termination_plan_locked key st = record {
  key = key;
  session = st.session;
  rx_session_id = st.rx_session_id;
  qos_active = st.qos_active;
}

abbrev pub is_winner : Option MediaSessionKey → MediaSessionKey → Bool
is_winner none key = false
is_winner (some w) key = w == key

-- The loop passes over this entry.
abbrev pub is_spared :
    Option MediaSessionKey → MediaSessionKey → MediaSessionKey → MediaSessionState → Bool
is_spared winner answered key st =
    is_winner winner key
    || not (key.call_id == answered.call_id && key.from_tag == answered.from_tag)
    || (not (is_empty key.to_tag) && is_established st.lifecycle)
    || is_terminating st.lifecycle

abbrev pub terminate : MediaSessionState → MediaSessionState
terminate st = record st { lifecycle = terminating }

unfoldable pub terminate_others :
    Option MediaSessionKey → MediaSessionKey → Sessions → List MediaTerminationPlan × Sessions
terminate_others winner answered [] = ([], [])
terminate_others winner answered ((key, st) ∷ s) =
    let rest = terminate_others winner answered s in
    if is_spared winner answered key st
    then (rest.0, (key, st) ∷ rest.1)
    else (make_termination_plan_locked key st ∷ rest.0, (key, terminate st) ∷ rest.1)

abbrev pub establish : MediaSessionState → MediaSessionState
establish st = if is_terminating st.lifecycle then st else record st { lifecycle = established }

unfoldable pub mark_invite_final_success :
    MediaSessionKey → Sessions → List MediaTerminationPlan × Sessions
unfolding ensure_invite_response_session_locked terminate_others
mark_invite_final_success key s =
    let r = ensure_invite_response_session_locked key s in
    elim r.0 [
      | none ↦ terminate_others none key r.1
      | some st ↦ terminate_others (some key) key (insert r.1 key (establish st))
    ]

unfoldable pub mark_invite_final_failure :
    MediaSessionKey → Sessions → List MediaTerminationPlan × Sessions
unfolding terminate_others
mark_invite_final_failure key s = terminate_others none key s

abbrev pub reverse_key : MediaSessionKey → MediaSessionKey
reverse_key key = record { call_id = key.call_id; from_tag = key.to_tag; to_tag = key.from_tag }

abbrev or_find : Option MediaSessionKey → Sessions → MediaSessionKey → Option MediaSessionKey
or_find (some k) s key = some k
or_find none s key = elim (find s key) [ none ↦ none | some st ↦ some key ]

-- The key itself, then without its to-tag, then with the tags swapped, then that without its to-tag.
unfoldable pub find_terminating_key : MediaSessionKey → Sessions → Option MediaSessionKey
find_terminating_key key s =
    let direct = or_find none s key in
    if is_empty key.to_tag
    then direct
    else or_find (or_find (or_find direct s (initial_key key)) s (reverse_key key)) s
        (initial_key (reverse_key key))

unfoldable pub plan_termination :
    MediaSessionKey → Sessions → Option MediaTerminationPlan × Sessions
plan_termination key s = elim (find s key) [
  | none ↦ (none, s)
  | some st ↦
      if is_terminating st.lifecycle
      then (none, s)
      else (some (make_termination_plan_locked key st), insert s key (terminate st))
]

unfoldable pub mark_terminating :
    MediaSessionKey → Sessions → Option MediaTerminationPlan × Sessions
unfolding find_terminating_key plan_termination
mark_terminating key s = elim (find_terminating_key key s) [
  | none ↦ (none, s)
  | some k ↦ plan_termination k s
]

unfoldable pub complete_termination : MediaSessionKey → Sessions → Sessions
complete_termination key s = elim (find s key) [
  | none ↦ s
  | some st ↦ if is_terminating st.lifecycle then erase s key else s
]
