-- ===== src/Media.antt =====
-- rtp/media_session.hpp and .cpp: MediaSessionManager. The state is the table of sessions; each call
-- holds the mutex throughout. An iterator into the table is the key of its entry.
pub mod Invite
pub mod Calls
pub mod Unique
pub mod Plans
pub mod Answers
pub mod Once
pub mod Own
pub mod Examples
use sim_ims.Prelude.{
  ℕ, suc, zero, ◌+◌, Bool, true, false, not, ◌&&◌, ◌||◌, ◌↔◌, ◌≡◌, Option, none, some, List, [],
  ◌∷◌, is_empty, length, if◌then◌else◌, ◌==◌, KeyType, arith,
}
use sim_ims.Prelude.Text.{Text, text_instance, text_eq, text_eq_iff}
use sim_ims.Prelude.Table.{Table, find, insert, erase}

-- rtp/types.hpp
pub record MediaSession : Type 0 where
  pub call_id : Text
  pub from_tag : Text
  pub to_tag : Text

pub record MediaSessionKey : Type 0 where
  pub call_id : Text
  pub from_tag : Text
  pub to_tag : Text

abbrev pub key_eq : MediaSessionKey → MediaSessionKey → Bool
key_eq a b =
    text_eq a.call_id b.call_id && text_eq a.from_tag b.from_tag && text_eq a.to_tag b.to_tag

pub key_eq_iff : (a b : MediaSessionKey) → (key_eq a b ≡ true) ↔ (a ≡ b)
key_eq_iff a b = (
  (λ h. ground (
    arith,
    text_eq_iff a.call_id b.call_id,
    text_eq_iff a.from_tag b.from_tag,
    text_eq_iff a.to_tag b.to_tag,
  )),
  (λ h. ground (
    arith,
    text_eq_iff a.call_id b.call_id,
    text_eq_iff a.from_tag b.from_tag,
    text_eq_iff a.to_tag b.to_tag,
  )),
)

instance abbrev pub key_instance : KeyType MediaSessionKey
key_instance = record { same = key_eq; same_iff = key_eq_iff }

pub data Lifecycle : Type 0 where
  early established terminating : Lifecycle

abbrev pub is_established : Lifecycle → Bool
is_established established = true
is_established _ = false

abbrev pub is_terminating : Lifecycle → Bool
is_terminating terminating = true
is_terminating _ = false

pub record MediaSessionState : Type 0 where
  pub session : MediaSession
  pub rx_session_id : Text
  pub caller_sdp : Text
  pub callee_sdp : Text
  pub created : ℕ
  pub qos_active : Bool
  pub lifecycle : Lifecycle

pub record InviteResponseMediaUpdate : Type 0 where
  pub key : MediaSessionKey
  pub session : MediaSession

pub record MediaTerminationPlan : Type 0 where
  pub key : MediaSessionKey
  pub session : MediaSession
  pub rx_session_id : Text
  pub qos_active : Bool

abbrev pub Sessions : Type 0
Sessions = Table MediaSessionKey MediaSessionState

abbrev pub session_of : MediaSessionKey → MediaSession
session_of key = record { call_id = key.call_id; from_tag = key.from_tag; to_tag = key.to_tag }

unfoldable pub create_session : ℕ → MediaSessionKey → Sessions → MediaSession × Sessions
create_session now key s = (
  session_of key,
  insert s key (record {
    session = session_of key;
    rx_session_id = [];
    caller_sdp = [];
    callee_sdp = [];
    created = now;
    qos_active = false;
    lifecycle = early;
  }),
)

unfoldable pub create_session_from : ℕ → Text → Text → Sessions → MediaSession × Sessions
unfolding create_session
create_session_from now call_id from_tag s =
    create_session now (record { call_id = call_id; from_tag = from_tag; to_tag = [] }) s

abbrev pub Entry : Type 0
Entry = MediaSessionKey × MediaSessionState

-- The loop over the table, with the entry found so far.
unfoldable pub find_unique_from : Text → Option Entry → Sessions → Option Entry
find_unique_from call_id found [] = found
find_unique_from call_id found ((k, st) ∷ s) =
    let skipped = find_unique_from call_id found s in
    let first = find_unique_from call_id (some (k, st)) s in
    if k.call_id == call_id then elim found [ none ↦ first | some e ↦ none ] else skipped

unfoldable pub find_unique_by_call_id_locked : Text → Sessions → Option Entry
unfolding find_unique_from
find_unique_by_call_id_locked call_id s = find_unique_from call_id none s

unfoldable pub get_session : MediaSessionKey → Sessions → Option MediaSessionState
get_session key s = find s key

unfoldable pub get_session_by_call : Text → Sessions → Option MediaSessionState
unfolding find_unique_by_call_id_locked
get_session_by_call call_id s = elim (find_unique_by_call_id_locked call_id s) [
  | none ↦ none
  | some e ↦ some e.1
]

-- A write through the iterator that was found for a key, or for a Call-ID.
abbrev pub update : (MediaSessionState → MediaSessionState) → MediaSessionKey → Sessions → Sessions
update f key s = elim (find s key) [ none ↦ s | some st ↦ insert s key (f st) ]

abbrev pub update_by_call : (MediaSessionState → MediaSessionState) → Text → Sessions → Sessions
update_by_call f call_id s = elim (find_unique_by_call_id_locked call_id s) [
  | none ↦ s
  | some e ↦ insert s e.0 (f e.1)
]

abbrev pub with_to_tag : MediaSessionKey → Text → MediaSessionKey
with_to_tag key to_tag = record key { to_tag = to_tag }

abbrev pub retag : Text → MediaSessionState → MediaSessionState
retag to_tag st = record st { session = record st.session { to_tag = to_tag } }

unfoldable pub update_to_tag : MediaSessionKey → Text → Sessions → Sessions
update_to_tag key to_tag s = elim (find s key) [
  | none ↦ s
  | some st ↦ insert (erase s key) (with_to_tag key to_tag) (retag to_tag st)
]

unfoldable pub update_to_tag_by_call : Text → Text → Sessions → Sessions
unfolding find_unique_by_call_id_locked
update_to_tag_by_call call_id to_tag s = elim (find_unique_by_call_id_locked call_id s) [
  | none ↦ s
  | some e ↦ insert (erase s e.0) (with_to_tag e.0 to_tag) (retag to_tag e.1)
]

unfoldable pub update_caller_sdp : MediaSessionKey → Text → Sessions → Sessions
update_caller_sdp key sdp s = update (λ st. record st { caller_sdp = sdp }) key s

unfoldable pub update_caller_sdp_by_call : Text → Text → Sessions → Sessions
unfolding find_unique_by_call_id_locked
update_caller_sdp_by_call call_id sdp s =
    update_by_call (λ st. record st { caller_sdp = sdp }) call_id s

unfoldable pub update_callee_sdp : MediaSessionKey → Text → Sessions → Sessions
update_callee_sdp key sdp s = update (λ st. record st { callee_sdp = sdp }) key s

unfoldable pub update_callee_sdp_by_call : Text → Text → Sessions → Sessions
unfolding find_unique_by_call_id_locked
update_callee_sdp_by_call call_id sdp s =
    update_by_call (λ st. record st { callee_sdp = sdp }) call_id s

unfoldable pub set_rx_session : MediaSessionKey → Text → Sessions → Sessions
set_rx_session key rx s = update (λ st. record st { rx_session_id = rx }) key s

unfoldable pub set_rx_session_by_call : Text → Text → Sessions → Sessions
unfolding find_unique_by_call_id_locked
set_rx_session_by_call call_id rx s =
    update_by_call (λ st. record st { rx_session_id = rx }) call_id s

unfoldable pub set_qos_active : MediaSessionKey → Bool → Sessions → Sessions
set_qos_active key active s = update (λ st. record st { qos_active = active }) key s

unfoldable pub set_qos_active_by_call : Text → Bool → Sessions → Sessions
unfolding find_unique_by_call_id_locked
set_qos_active_by_call call_id active s =
    update_by_call (λ st. record st { qos_active = active }) call_id s

unfoldable pub remove_session : MediaSessionKey → Sessions → Sessions
remove_session key s = erase s key

unfoldable pub remove_session_by_call : Text → Sessions → Sessions
unfolding find_unique_by_call_id_locked
remove_session_by_call call_id s = elim (find_unique_by_call_id_locked call_id s) [
  | none ↦ s
  | some e ↦ erase s e.0
]

unfoldable pub session_count : Sessions → ℕ
session_count s = length s
