-- ===== src/Router.antt =====
-- s-cscf/session_router.hpp and .cpp: the table of dialogs, and what becomes of the requests and of
-- the responses to an INVITE. A time is in milliseconds.
pub mod Handlers
pub mod Keys
pub mod Steps
pub mod Orders
pub mod Cancel
pub mod Calls
pub mod Answers
pub mod Examples
use sim_ims.Prelude.{
  ℕ, ◌+◌, ◌-◌, ◌*◌, ◌≡◌, ◌↔◌, refl, Bool, true, false, not, ◌&&◌, ◌||◌, Option, none, some, List,
  [], ◌∷◌, arith, leb, ltb, eqb, is_empty, erase_if, if◌then◌else◌, ◌==◌, ==-iff, KeyType, is_some,
}
use sim_ims.Prelude.Text.{Text, codes, text_instance}
use sim_ims.Prelude.Table.{Table, find, insert, erase}
use sim_ims.Message.{SipMessage, from_tag_of, to_tag_of}
use sim_ims.Transaction.{Endpoint}

pub record DialogKey : Type 0 where
  pub call_id : Text
  pub caller_tag : Text
  pub callee_tag : Text

abbrev pub same_key : DialogKey → DialogKey → Bool
same_key a b =
    a.call_id == b.call_id && a.caller_tag == b.caller_tag && a.callee_tag == b.callee_tag

pub same_key_iff : (a b : DialogKey) → (same_key a b ≡ true) ↔ (a ≡ b)
same_key_iff a b = ground (
  arith,
  ==-iff a.call_id b.call_id,
  ==-iff a.caller_tag b.caller_tag,
  ==-iff a.callee_tag b.callee_tag,
)

instance abbrev pub dialog_key_eq : KeyType DialogKey
dialog_key_eq = record { same = same_key; same_iff = same_key_iff }

pub record SessionInfo : Type 0 where
  pub call_id : Text
  pub caller_tag : Text
  pub callee_tag : Text
  pub caller_impu : Text
  pub callee_impu : Text
  pub caller_endpoint : Endpoint
  pub callee_endpoint : Endpoint
  pub callee_invite_branch : Text
  pub created : ℕ
  pub last_updated : ℕ
  pub established : Bool
  pub bye_seen : Bool
  pub cancel_seen : Bool

abbrev pub SessionMap : Type 0
SessionMap = Table DialogKey SessionInfo

abbrev pub k_invite_session_ttl : ℕ
k_invite_session_ttl = 180000

-- The key of the entry that an INVITE makes.
abbrev pub invite_key : Text → Text → DialogKey
invite_key call_id caller_tag = record {
  call_id = call_id;
  caller_tag = caller_tag;
  callee_tag = [];
}

abbrev pub dialog_key : Text → Text → Text → DialogKey
dialog_key call_id caller_tag callee_tag = record {
  call_id = call_id;
  caller_tag = caller_tag;
  callee_tag = callee_tag;
}

-- The entry at a key, with the key.
abbrev pub entry_at : SessionMap → DialogKey → Option (DialogKey × SessionInfo)
entry_at s key = elim (find s key) [ none ↦ none | some info ↦ some (key, info) ]

abbrev or_entry :
    Option (DialogKey × SessionInfo)
    → Option (DialogKey × SessionInfo)
    → Option (DialogKey × SessionInfo)
or_entry none e = e
or_entry (some x) e = some x

unfoldable pub find_session_for_request : SipMessage → SessionMap → Option (DialogKey × SessionInfo)
find_session_for_request m s =
    or_entry (entry_at s (dialog_key m.call_id (from_tag_of m) (to_tag_of m)))
      (entry_at s (dialog_key m.call_id (to_tag_of m) (from_tag_of m)))

abbrev pub find_initial_session : Text → Text → SessionMap → Option (DialogKey × SessionInfo)
find_initial_session call_id caller_tag s = entry_at s (invite_key call_id caller_tag)

unfoldable pub find_cancel_session : SipMessage → SessionMap → Option (DialogKey × SessionInfo)
unfolding find_session_for_request
find_cancel_session m s =
    or_entry (find_initial_session m.call_id (from_tag_of m) s) (find_session_for_request m s)

unfoldable pub resolve_in_dialog_destination : SipMessage → SessionInfo → Option Endpoint
resolve_in_dialog_destination m i =
    if i.cancel_seen
      && is_empty i.callee_tag
      && from_tag_of m == i.caller_tag
      && is_empty (to_tag_of m)
    then some i.callee_endpoint
    else if not (is_empty i.callee_tag)
        && from_tag_of m == i.caller_tag
        && to_tag_of m == i.callee_tag
    then some i.callee_endpoint
    else if not (is_empty i.callee_tag)
        && from_tag_of m == i.callee_tag
        && to_tag_of m == i.caller_tag
    then some i.caller_endpoint
    else none

abbrev pub has_expired : ℕ → DialogKey × SessionInfo → Bool
has_expired now (key, i) = not i.established && leb k_invite_session_ttl (now - i.last_updated)

unfoldable pub purge_expired_sessions : ℕ → SessionMap → SessionMap
purge_expired_sessions now s = erase_if (has_expired now) s

abbrev pub is_of_invite : Text → Text → DialogKey × SessionInfo → Bool
is_of_invite call_id caller_tag (key, i) =
    key.call_id == call_id
    && key.caller_tag == caller_tag
    && (is_empty key.callee_tag || not i.established)

unfoldable pub erase_invite_sessions : Text → Text → SessionMap → SessionMap
erase_invite_sessions call_id caller_tag s = erase_if (is_of_invite call_id caller_tag) s

abbrev caller_of : DialogKey → Text
caller_of key = if is_empty key.caller_tag then key.callee_tag else key.caller_tag

unfoldable pub erase_canceled_sessions : DialogKey → SessionMap → SessionMap
erase_canceled_sessions key s =
    let rest = erase s (invite_key key.call_id (caller_of key)) in
    if is_empty key.callee_tag then rest else erase rest key

-- The entry of a dialog that a response makes or updates.
abbrev pub updated : Bool → ℕ → SessionInfo → SessionInfo
updated established now i = record i {
  established = i.established || established;
  last_updated = now;
}

abbrev pub copied : Text → Bool → ℕ → SessionInfo → SessionInfo
copied callee_tag established now i = record i {
  callee_tag = callee_tag;
  last_updated = now;
  established = established;
}

unfoldable pub record_invite_response_dialog :
    Text → Text → Text → Bool → ℕ → SessionMap → SessionMap
record_invite_response_dialog call_id caller_tag callee_tag established now s =
    let key = dialog_key call_id caller_tag callee_tag in
    elim (find s key) [
      | some i ↦ insert s key (updated established now i)
      | none ↦ elim (find s (invite_key call_id caller_tag)) [
        | none ↦ s
        | some i ↦ insert s key (copied callee_tag established now i)
      ]
    ]

-- After the purge.
abbrev response_state : Text → Text → ℕ → Text → ℕ → SessionMap → SessionMap
response_state call_id caller_tag status callee_tag now s =
    let early = record_invite_response_dialog call_id caller_tag callee_tag false now s in
    let answered = record_invite_response_dialog call_id caller_tag callee_tag true now s in
    if eqb status 100
    then s
    else if ltb 100 status && ltb status 200 && not (is_empty callee_tag)
    then early
    else if leb 200 status && ltb status 300
    then erase (if is_empty callee_tag then s else answered) (invite_key call_id caller_tag)
    else if leb 300 status && leb status 699
    then erase_invite_sessions call_id caller_tag s
    else s

-- `status` and `callee_tag` are the response's.
unfoldable pub handle_invite_response_state : Text → Text → ℕ → Text → ℕ → SessionMap → SessionMap
unfolding record_invite_response_dialog erase_invite_sessions purge_expired_sessions
handle_invite_response_state call_id caller_tag status callee_tag now s =
    response_state call_id caller_tag status callee_tag now (purge_expired_sessions now s)
