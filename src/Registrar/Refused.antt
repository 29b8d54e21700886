-- ===== src/Registrar/Refused.antt =====
-- What a REGISTER that is not verified leaves in the store.
use sim_ims.Prelude.{
  ℕ, ◌≤◌, ◌≡◌, refl, sym, ap, ◌∙◌, inl, inr, Bool, false, ◌&&◌, Option, none, some, arith, ◌==◌,
  Bool-cases, Option-cases,
}
use sim_ims.Prelude.Text.{Text, codes, text_instance}
use sim_ims.Prelude.Table.{find}
use sim_ims.Common.{Result, ok, err, is_ok}
use sim_ims.Message.{SipMessage}
use sim_ims.Store.Memory.{Bindings}
use sim_ims.Store.Memory.Expiry.{live, live-live}
use sim_ims.Registrar.{
  Registrar, Moment, AuthProvider, AuthVerificationResult, RegisterOutcome, is_deregister,
  has_authorization,
}
use sim_ims.Registrar.Handlers.{
  send_challenge, after_verification, after_choice, verify_and_register, try_handle_reregister,
  handle_register, select_provider_for_authorization, select_provider_for_initial_register,
}
use sim_ims.Registrar.Paths.{
  Result-cases, looked_up, live-looked_up, handle_register-challenged, handle_register-verifies,
}
use sim_ims.Registrar.Answered.{IsAnswered, is_answered, is_refusal, send_challenge-IsAnswered}

module _ {ℓ} {E : Type ℓ} (r : Registrar E) (at : Moment) (m : SipMessage) where
  -- The store is as it was, and the answer is no 200.
  abbrev IsRefused : Bindings → RegisterOutcome E → Type 0
  IsRefused s out = (out.store ≡ s) × IsAnswered r at (is_refusal r at) out

  store-send_challenge : (s : Bindings) (e : E) → (send_challenge r at m s e).store ≡ s
  unfolding send_challenge
  store-send_challenge s e =
      let chosen = select_provider_for_initial_register r at m e in
      elim (Option-cases chosen.0) [
        | inl p ↦ rw (send_challenge, p) refl
        | inr (provider, p) ↦ elim (Result-cases (provider.create_challenge m chosen.1).0) [
          | inl (x, q) ↦ rw (send_challenge, p, q) refl
          | inr (c, q) ↦ rw (send_challenge, p, q) refl
        ]
      ]

  send_challenge-IsRefused : (s : Bindings) (e : E) → IsRefused s (send_challenge r at m s e)
  send_challenge-IsRefused s e = (store-send_challenge s e, send_challenge-IsAnswered r at m s e)

  abbrev is_verified_by : Option (AuthProvider E) × E → Bool
  is_verified_by (none, e) = false
  is_verified_by (some p, e) = is_ok (p.verify_authorization m e).0

  -- The provider that is chosen verifies the request's credentials.
  abbrev pub is_verified : E → Bool
  is_verified e = is_verified_by (select_provider_for_authorization r at m e)

  after_verification-IsRefused :
      (s : Bindings) (c : Result AuthVerificationResult × E)
      → is_ok c.0 ≡ false
      → IsRefused s (after_verification r at m s c)
  unfolding after_verification
  after_verification-IsRefused s (ok v, e) h = cc
  after_verification-IsRefused s (err x, e) h =
      elim (Bool-cases (x.message == codes "no pending auth state")) [
        | inl p ↦ rw p (send_challenge-IsRefused s e)
        | inr p ↦ rw p (refl, is_answered r at (is_refusal r at) m 403 _ s e refl)
      ]

  after_choice-IsRefused :
      (s : Bindings) (c : Option (AuthProvider E) × E)
      → is_verified_by c ≡ false
      → IsRefused s (after_choice r at m s c)
  unfolding after_choice
  after_choice-IsRefused s (none, e) h = (refl, is_answered r at (is_refusal r at) m 400 _ s e refl)
  after_choice-IsRefused s (some p, e) h =
      after_verification-IsRefused s (p.verify_authorization m e) h

  handle_register-IsRefused :
      (s : Bindings) (e : E)
      → is_deregister r.osip m ≡ false
      → (try_handle_reregister r at m s e).0 ≡ none
      → (has_authorization r.osip m && is_verified e) ≡ false
      → IsRefused (looked_up r at m s e) (handle_register r at m s e)
  unfolding verify_and_register
  handle_register-IsRefused s e d t h =
      let seen = looked_up r at m s e in
      elim (Bool-cases (has_authorization r.osip m)) [
        | inl a ↦
            let bad : is_verified e ≡ false = ground (arith, a, h) in
            rw (handle_register-verifies r at m s e d t a)
              (after_choice-IsRefused seen (select_provider_for_authorization r at m e) bad)
        | inr a ↦ rw (handle_register-challenged r at m s e d t a) (send_challenge-IsRefused seen e)
      ]

  -- A REGISTER that is no deregistration, refreshes no live contact, and whose credentials are missing
  -- or not verified, is not answered 200, and at every IMPU the contacts that are live then or later are
  -- those that would be without the request, with the binding's other fields.
  pub handle_register-unverified :
      (s : Bindings) (e : E) (j : Text) (later : ℕ)
      → is_deregister r.osip m ≡ false
      → (try_handle_reregister r at m s e).0 ≡ none
      → (has_authorization r.osip m && is_verified e) ≡ false
      → at.now ≤ later
      → (live later (find (handle_register r at m s e).store j) ≡ live later (find s j))
        × IsAnswered r at (is_refusal r at) (handle_register r at m s e)
  handle_register-unverified s e j later d t h order =
      let (kept, refused) = handle_register-IsRefused s e d t h in
      let seen = looked_up r at m s e in
      let as_before : live later (find seen j) ≡ live later (find s j) =
        sym (live-live at.now later (find seen j) order)
        ∙ ap (live later) (live-looked_up r at m s e j)
        ∙ live-live at.now later (find s j) order in
      (rw kept as_before, refused)
