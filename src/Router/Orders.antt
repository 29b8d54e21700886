-- ===== src/Router/Orders.antt =====
-- Requests and responses to them, in any order.
use sim_ims.Prelude.{
  ℕ, ◌≡◌, refl, Bool, true, false, Option, none, some, List, [], ◌∷◌, arith, is_empty, Option-cases,
  Bool-cases, ◌⊎◌, inl, inr,
}
use sim_ims.Prelude.Text.{Text, text_instance}
use sim_ims.Prelude.Table.{find, erase}
use sim_ims.Common.{Result}
use sim_ims.Store.{RegistrationBinding}
use sim_ims.Uri.Endpoints.{OsipUri, normalize_impu_uri}
use sim_ims.Message.{SipMessage, Via, from_tag_of, to_tag_of, via_branch}
use sim_ims.Message.Forwarding.{request_uri}
use sim_ims.Proxy.{ProxyCore}
use sim_ims.Transaction.{Endpoint}
use sim_ims.Router.{DialogKey, SessionMap, dialog_key_eq}
use sim_ims.Router.Handlers.{
  Action, OnResponse, invite_answer, bye_answer, prack_answer, cancel_answer, in_dialog_destination,
  record_invite, handle_invite, handle_bye, handle_prack, handle_ack, handle_cancel,
  handle_response, invite_target, routed, invite_outside, invite_inside,
}
use sim_ims.Router.Keys.{
  IsConsistent, erase-IsConsistent, handle_invite_response_state-IsConsistent,
}
use sim_ims.Router.Steps.{
  forward-IsConsistent, record_invite-IsConsistent, handle_bye-IsConsistent,
  handle_prack-IsConsistent, handle_ack-IsConsistent, handle_cancel-IsConsistent,
}

-- What the router meets: a request, with what the rest of the program and osip answer for it, or a
-- response to a request that it sent.
pub data Arrival : Type 0 where
  invites :
      (Text → Result RegistrationBinding)
      → ℕ
      → Endpoint
      → Text
      → Option SipMessage
      → SipMessage
      → Arrival
  byes pracks acks cancels : Text → Option SipMessage → SipMessage → Arrival
  answers : OnResponse → Bool → ℕ → Text → ℕ → Arrival

bye_answer-cases :
    (key : DialogKey) (passed : Bool) (status : ℕ) (tag : Text) (now : ℕ) (s : SessionMap)
    → (handle_response (bye_answer key) passed status tag now s ≡ s)
      ⊎ (handle_response (bye_answer key) passed status tag now s ≡ erase s key)
unfolding handle_response
bye_answer-cases key passed status tag now s = elim (Option-cases (find s key)) [
  | inl e ↦ inl (ground (arith, e))
  | inr (i, e) ↦ ground (arith, e)
]

module _ (via_parse : Text → Option Via) (uri_parse : Text → Option OsipUri) (print : Text → Text)
    (p : ProxyCore) (peer : Option Endpoint) where
  abbrev pub arrive : Arrival → SessionMap → SessionMap
  arrive (invites lookup now source drawn cloned m) s =
      (handle_invite via_parse uri_parse p drawn print peer lookup now source cloned m s).sessions
  arrive (byes drawn cloned m) s = (handle_bye via_parse uri_parse p drawn cloned m s).sessions
  arrive (pracks drawn cloned m) s = (handle_prack via_parse uri_parse p drawn cloned m s).sessions
  arrive (acks drawn cloned m) s = (handle_ack via_parse uri_parse p drawn cloned m s).sessions
  arrive (cancels drawn cloned m) s =
      (handle_cancel via_parse uri_parse p drawn cloned m s).sessions
  arrive (answers then_do passed status callee_tag now) s =
      handle_response then_do passed status callee_tag now s

  abbrev pub run : List Arrival → SessionMap → SessionMap
  run [] s = s
  run (e ∷ es) s = run es (arrive e s)

  outside-IsConsistent :
      (lookup : Text → Result RegistrationBinding) (now : ℕ) (source : Endpoint) (drawn : Text)
      (c m : SipMessage) (s : SessionMap)
      → IsConsistent s
      → IsConsistent
          (invite_outside via_parse uri_parse p drawn print peer lookup now source c m s).sessions
  outside-IsConsistent lookup now source drawn c m s h =
      go
        (invite_target via_parse uri_parse p drawn print peer now c
          (lookup (normalize_impu_uri uri_parse (request_uri m))))
        refl
    where
      go :
          (t : Action ⊎ (SipMessage × Endpoint × Text))
          → invite_target via_parse uri_parse p drawn print peer now c
              (lookup (normalize_impu_uri uri_parse (request_uri m)))
            ≡ t
          → IsConsistent
              (invite_outside via_parse uri_parse p drawn print peer lookup now source c m
                s).sessions
      go (inl refusal) e = rw (invite_outside, e) h
      go (inr (out, dest, callee_impu)) e =
          rw (invite_outside, e)
            (forward-IsConsistent via_parse uri_parse p drawn
              (routed via_parse uri_parse p drawn out dest) dest
              (invite_answer m.call_id (from_tag_of m) false)
              (λ sent t. record_invite m source dest callee_impu (via_branch sent) now t) s h
              (λ sent.
                record_invite-IsConsistent m source dest callee_impu (via_branch sent) now s h))

  inside-IsConsistent :
      (drawn : Text) (c m : SipMessage) (s : SessionMap)
      → IsConsistent s
      → IsConsistent (invite_inside via_parse uri_parse p drawn c m s).sessions
  inside-IsConsistent drawn c m s h = elim (Option-cases (in_dialog_destination m s)) [
    | inl e ↦ rw (invite_inside, e) h
    | inr ((key, i, dest), e) ↦
        rw (invite_inside, e)
          (forward-IsConsistent via_parse uri_parse p drawn
            (routed via_parse uri_parse p drawn c dest) dest
            (invite_answer m.call_id (from_tag_of m) true) (λ _ t. t) s h (λ _. h))
  ]

  handle_invite-IsConsistent :
      (lookup : Text → Result RegistrationBinding) (now : ℕ) (source : Endpoint) (drawn : Text)
      (cloned : Option SipMessage) (m : SipMessage) (s : SessionMap)
      → IsConsistent s
      → IsConsistent
          (handle_invite via_parse uri_parse p drawn print peer lookup now source cloned m
            s).sessions
  unfolding handle_invite
  handle_invite-IsConsistent lookup now source drawn none m s h = h
  handle_invite-IsConsistent lookup now source drawn (some c) m s h =
      elim (Bool-cases (is_empty (to_tag_of m))) [
        | inl e ↦ rw (handle_invite, e) (outside-IsConsistent lookup now source drawn c m s h)
        | inr e ↦ rw (handle_invite, e) (inside-IsConsistent drawn c m s h)
      ]

  answer-IsConsistent :
      (then_do : OnResponse) (passed : Bool) (status : ℕ) (tag : Text) (now : ℕ) (s : SessionMap)
      → IsConsistent s
      → IsConsistent (handle_response then_do passed status tag now s)
  unfolding handle_response
  answer-IsConsistent (invite_answer call_id from_tag true) passed status tag now s h = h
  answer-IsConsistent (invite_answer call_id from_tag false) passed status tag now s h =
      handle_invite_response_state-IsConsistent call_id from_tag status tag now s h
  answer-IsConsistent prack_answer passed status tag now s h = h
  answer-IsConsistent cancel_answer passed status tag now s h = h
  answer-IsConsistent (bye_answer key) passed status tag now s h =
      elim (bye_answer-cases key passed status tag now s) [
        | inl e ↦ rw e h
        | inr e ↦ rw e (erase-IsConsistent s key h)
      ]

  -- Whatever requests and responses the router meets, in any order and at any times, its table has a
  -- key once, every entry carries the Call-ID and the tags of its key, and the entry of an INVITE is
  -- not established.
  pub run-IsConsistent :
      (es : List Arrival) (s : SessionMap) → IsConsistent s → IsConsistent (run es s)
  run-IsConsistent [] s h = h
  run-IsConsistent (e ∷ es) s h = run-IsConsistent es (arrive e s) (one e)
    where
      one : (e : Arrival) → IsConsistent (arrive e s)
      one (invites lookup now source drawn cloned m) =
          handle_invite-IsConsistent lookup now source drawn cloned m s h
      one (byes drawn cloned m) = handle_bye-IsConsistent via_parse uri_parse p drawn cloned m s h
      one (pracks drawn cloned m) =
          handle_prack-IsConsistent via_parse uri_parse p drawn cloned m s h
      one (acks drawn cloned m) = handle_ack-IsConsistent via_parse uri_parse p drawn cloned m s h
      one (cancels drawn cloned m) =
          handle_cancel-IsConsistent via_parse uri_parse p drawn cloned m s h
      one (answers then_do passed status tag now) =
          answer-IsConsistent then_do passed status tag now s h
