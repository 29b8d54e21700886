-- ===== src/Registrar/Paths.antt =====
-- The ways through the handler of REGISTER.
use sim_ims.Prelude.{
  ◌≡◌, refl, ap, ◌∙◌, ◌⊎◌, inl, inr, true, false, none, some, arith, ◌==◌, Bool-cases, Option-cases,
}
use sim_ims.Prelude.Text.{Text, text_instance, text_eq_iff}
use sim_ims.Prelude.Table.{find}
use sim_ims.Common.{Result, ok, err, ErrorInfo}
use sim_ims.Message.{SipMessage}
use sim_ims.Store.Memory.{Bindings, lookup}
use sim_ims.Store.Memory.Expiry.{live, live-live, find-lookup}
use sim_ims.Registrar.{
  Registrar, Moment, AuthProvider, AuthVerificationResult, is_deregister, has_authorization,
  extract_impu,
}
use sim_ims.Registrar.Handlers.{
  try_handle_reregister, existing_contact, select_provider_for_authorization, verify_and_register,
  register_verified, after_choice, after_verification, send_challenge, handle_register,
  handle_deregister,
}

pub Result-cases {ℓ} :
    {A : Type ℓ} (r : Result A) → ((x : ErrorInfo) × (r ≡ err x)) ⊎ ((a : A) × (r ≡ ok a))
Result-cases (ok a) = inr (a, refl)
Result-cases (err x) = inl (x, refl)

module _ {ℓ} {E : Type ℓ} (r : Registrar E) (at : Moment) (m : SipMessage) (s : Bindings)
    (e : E) where
  -- The store after the lookup of the request's IMPU.
  abbrev pub looked_up : Bindings
  looked_up = (lookup at.now (extract_impu r.uri_parse m) s).1

  -- No binding changes in what is seen at this time or later.
  pub live-looked_up : (j : Text) → live at.now (find looked_up j) ≡ live at.now (find s j)
  live-looked_up j =
      let i = extract_impu r.uri_parse m in
      let seen = find-lookup at.now i j s in
      elim (Bool-cases (i == j)) [
        | inl p ↦
            let same = ap (λ k. live at.now (find s k)) ((text_eq_iff i j).0 p) in
            rw (seen, p) (live-live at.now at.now (find s i) (omega arith) ∙ same)
        | inr p ↦ rw (seen, p) refl
      ]

  pub try_handle_reregister-store : (try_handle_reregister r at m s e).1 ≡ looked_up
  unfolding try_handle_reregister
  try_handle_reregister-store =
      elim (Result-cases (lookup at.now (extract_impu r.uri_parse m) s).0) [
        | inl (x, p) ↦ rw (try_handle_reregister, p) refl
        | inr (b, p) ↦ elim (Option-cases (existing_contact r at m b)) [
          | inl q ↦ rw (try_handle_reregister, p, q) refl
          | inr (c, q) ↦ rw (try_handle_reregister, p, q) refl
        ]
      ]

  pub handle_register-challenged :
      is_deregister r.osip m ≡ false
      → (try_handle_reregister r at m s e).0 ≡ none
      → has_authorization r.osip m ≡ false
      → handle_register r at m s e ≡ send_challenge r at m looked_up e
  unfolding handle_register
  handle_register-challenged p q h =
      let kept = try_handle_reregister-store in rw (handle_register, p, q, h, kept) refl

  pub handle_register-verifies :
      is_deregister r.osip m ≡ false
      → (try_handle_reregister r at m s e).0 ≡ none
      → has_authorization r.osip m ≡ true
      → handle_register r at m s e ≡ verify_and_register r at m looked_up e
  unfolding handle_register
  handle_register-verifies p q h =
      let kept = try_handle_reregister-store in rw (handle_register, p, q, h, kept) refl

  pub handle_register-deregisters :
      is_deregister r.osip m ≡ true → handle_register r at m s e ≡ handle_deregister r at m s e
  unfolding handle_register
  handle_register-deregisters p = rw (handle_register, p) refl

  pub verify_and_register-verified :
      (p : AuthProvider E) (v : AuthVerificationResult) (t : Bindings) (e1 e2 : E)
      → select_provider_for_authorization r at m e ≡ (some p, e1)
      → p.verify_authorization m e1 ≡ (ok v, e2)
      → verify_and_register r at m t e ≡ register_verified r at m v t e2
  unfolding verify_and_register after_choice after_verification
  verify_and_register-verified p v t e1 e2 chosen verified =
      ap (after_choice r at m t) chosen ∙ ap (after_verification r at m t) verified
