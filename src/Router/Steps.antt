-- ===== src/Router/Steps.antt =====
-- Every handler of a request keeps the table of the router consistent.
use sim_ims.Prelude.{
  ℕ, ◌≡◌, refl, true, Option, none, some, arith, Option-cases, Bool-cases, inl, inr,
}
use sim_ims.Prelude.Text.{Text, text_instance}
use sim_ims.Prelude.Table.{find, insert}
use sim_ims.Uri.Endpoints.{OsipUri}
use sim_ims.Message.{SipMessage, Via, from_tag_of}
use sim_ims.Proxy.{ProxyCore, Prepared, throws, refused, prepared}
use sim_ims.Transaction.{Endpoint}
use sim_ims.Router.{
  DialogKey, SessionInfo, SessionMap, dialog_key_eq, invite_key, find_session_for_request,
  find_initial_session, find_cancel_session, resolve_in_dialog_destination, purge_expired_sessions,
  erase_canceled_sessions,
}
use sim_ims.Router.Handlers.{
  OnResponse, bye_answer, prack_answer, in_dialog_destination, record_invite, handle_bye,
  handle_prack, handle_ack, handle_cancel, forward, forward_stateless, routed, canceled,
  acknowledge, forward_cancel,
}
use sim_ims.Router.Keys.{
  IsConsistent, insert-IsConsistent, purge-IsConsistent, erase_canceled-IsConsistent,
}

-- The entry that a request finds is the table's.
pub found_session :
    (m : SipMessage) (s : SessionMap) (key : DialogKey) (i : SessionInfo)
    → find_session_for_request m s ≡ some (key, i)
    → find s key ≡ some i
unfolding find_session_for_request
found_session m s key i h = ground (arith, h)

pub found_destination :
    (m : SipMessage) (s : SessionMap) (key : DialogKey) (i : SessionInfo) (dest : Endpoint)
    → in_dialog_destination m s ≡ some (key, i, dest)
    → find s key ≡ some i
unfolding in_dialog_destination
found_destination m s key i dest h = elim (Option-cases (find_session_for_request m s)) [
  | inl e ↦ absurd (ground (arith, h, e))
  | inr ((k, j), e) ↦ elim (Option-cases (resolve_in_dialog_destination m j)) [
    | inl f ↦ absurd (ground (arith, h, e, f))
    | inr (d, f) ↦ let here = found_session m s k j e in ground (arith, h, e, f, here)
  ]
]

found_cancel :
    (m : SipMessage) (s : SessionMap) (key : DialogKey) (i : SessionInfo)
    → find_cancel_session m s ≡ some (key, i)
    → find s key ≡ some i
unfolding find_cancel_session find_session_for_request
found_cancel m s key i h = ground (arith, h)

pub record_invite-IsConsistent :
    (m : SipMessage) (source dest : Endpoint) (callee_impu branch : Text) (now : ℕ) (s : SessionMap)
    → IsConsistent s
    → IsConsistent (record_invite m source dest callee_impu branch now s)
unfolding record_invite
record_invite-IsConsistent m source dest callee_impu branch now s h =
    insert-IsConsistent (purge_expired_sessions now s) (invite_key m.call_id (from_tag_of m)) _
      (refl, refl, refl, λ _. refl) (purge-IsConsistent now s h)

module _ (via_parse : Text → Option Via) (uri_parse : Text → Option OsipUri) (p : ProxyCore)
    (drawn : Text) where
  pub forward-IsConsistent :
      (r : Prepared) (dest : Endpoint) (then_do : OnResponse)
      (keep : SipMessage → SessionMap → SessionMap) (s : SessionMap)
      → IsConsistent s
      → ((m : SipMessage) → IsConsistent (keep m s))
      → IsConsistent (forward via_parse uri_parse p drawn r dest then_do keep s).sessions
  forward-IsConsistent throws dest then_do keep s h k = h
  forward-IsConsistent (refused e m) dest then_do keep s h k = h
  forward-IsConsistent (prepared m) dest then_do keep s h k = k m

  stateless-IsConsistent :
      (r : Prepared) (dest : Endpoint) (s : SessionMap)
      → IsConsistent s
      → IsConsistent (forward_stateless via_parse uri_parse p drawn r dest s).sessions
  stateless-IsConsistent throws dest s h = h
  stateless-IsConsistent (refused e m) dest s h = h
  stateless-IsConsistent (prepared m) dest s h = h

  pub handle_bye-IsConsistent :
      (cloned : Option SipMessage) (m : SipMessage) (s : SessionMap)
      → IsConsistent s
      → IsConsistent (handle_bye via_parse uri_parse p drawn cloned m s).sessions
  unfolding handle_bye
  handle_bye-IsConsistent none m s h = h
  handle_bye-IsConsistent (some c) m s h = elim (Option-cases (in_dialog_destination m s)) [
    | inl e ↦ rw (handle_bye, e) h
    | inr ((key, i, dest), e) ↦
        let marked =
          insert-IsConsistent s key (record i { bye_seen = true })
            (h.1 key i (found_destination m s key i dest e)) h in
        rw (handle_bye, e)
          (forward-IsConsistent (routed via_parse uri_parse p drawn c dest) dest (bye_answer key)
            (λ _ t. t) (insert s key (record i { bye_seen = true })) marked (λ _. marked))
  ]

  pub handle_prack-IsConsistent :
      (cloned : Option SipMessage) (m : SipMessage) (s : SessionMap)
      → IsConsistent s
      → IsConsistent (handle_prack via_parse uri_parse p drawn cloned m s).sessions
  unfolding handle_prack
  handle_prack-IsConsistent none m s h = h
  handle_prack-IsConsistent (some c) m s h = elim (Option-cases (in_dialog_destination m s)) [
    | inl e ↦ rw (handle_prack, e) h
    | inr ((key, i, dest), e) ↦
        rw (handle_prack, e)
          (forward-IsConsistent (routed via_parse uri_parse p drawn c dest) dest prack_answer
            (λ _ t. t) s h (λ _. h))
  ]

  canceled-IsConsistent :
      (out : Option SipMessage) (dest : Endpoint) (s : SessionMap)
      → IsConsistent s
      → IsConsistent (canceled via_parse uri_parse p drawn out dest s).sessions
  canceled-IsConsistent none dest s h = h
  canceled-IsConsistent (some m) dest s h = h

  forward_cancel-IsConsistent :
      (cloned : Option SipMessage) (key : DialogKey) (i : SessionInfo) (s : SessionMap)
      → find s key ≡ some i
      → IsConsistent s
      → IsConsistent (forward_cancel via_parse uri_parse p drawn cloned (key, i) s).sessions
  forward_cancel-IsConsistent none key i s found h =
      insert-IsConsistent s key (record i { cancel_seen = true }) (h.1 key i found) h
  forward_cancel-IsConsistent (some c) key i s found h =
      canceled-IsConsistent _ i.callee_endpoint (insert s key (record i { cancel_seen = true }))
        (insert-IsConsistent s key (record i { cancel_seen = true }) (h.1 key i found) h)

  pub handle_cancel-IsConsistent :
      (cloned : Option SipMessage) (m : SipMessage) (s : SessionMap)
      → IsConsistent s
      → IsConsistent (handle_cancel via_parse uri_parse p drawn cloned m s).sessions
  unfolding handle_cancel
  handle_cancel-IsConsistent cloned m s h = elim (Option-cases (find_cancel_session m s)) [
    | inl e ↦ rw (handle_cancel, e) h
    | inr ((key, i), e) ↦
        rw (handle_cancel, e)
          (forward_cancel-IsConsistent cloned key i s (found_cancel m s key i e) h)
  ]

  acknowledge-IsConsistent :
      (c m : SipMessage) (s : SessionMap) (found : Option (DialogKey × SessionInfo))
      → IsConsistent s
      → IsConsistent (acknowledge via_parse uri_parse p drawn c m s found).sessions
  acknowledge-IsConsistent c m s none h =
      elim (Option-cases (find_initial_session m.call_id (from_tag_of m) s)) [
        | inl e ↦ rw (acknowledge, e) h
        | inr ((key, i), e) ↦ elim (Bool-cases i.cancel_seen) [
          | inl f ↦
              rw (acknowledge, e, f)
                (stateless-IsConsistent _ i.callee_endpoint (erase_canceled_sessions key s)
                  (erase_canceled-IsConsistent key s h))
          | inr f ↦ rw (acknowledge, e, f) h
        ]
      ]
  acknowledge-IsConsistent c m s (some (key, i)) h =
      elim (Option-cases (resolve_in_dialog_destination m i)) [
        | inl e ↦ rw (acknowledge, e) h
        | inr (dest, e) ↦ elim (Bool-cases i.cancel_seen) [
          | inl f ↦
              rw (acknowledge, e, f)
                (stateless-IsConsistent _ dest (erase_canceled_sessions key s)
                  (erase_canceled-IsConsistent key s h))
          | inr f ↦ rw (acknowledge, e, f) (stateless-IsConsistent _ dest s h)
        ]
      ]

  pub handle_ack-IsConsistent :
      (cloned : Option SipMessage) (m : SipMessage) (s : SessionMap)
      → IsConsistent s
      → IsConsistent (handle_ack via_parse uri_parse p drawn cloned m s).sessions
  unfolding handle_ack
  handle_ack-IsConsistent none m s h = h
  handle_ack-IsConsistent (some c) m s h =
      acknowledge-IsConsistent c m s (find_session_for_request m s) h
