-- ===== src/Registrar/Registered.antt =====
-- What a verified registration leaves in the store.
use sim_ims.Prelude.{
  ℕ, ◌+◌, ◌<◌, ◌≡◌, refl, ap, ◌∙◌, true, false, Option, none, some, List, arith, any, length,
  find_if, ◌==◌,
}
use sim_ims.Prelude.Text.{Text, text_instance}
use sim_ims.Prelude.Table.{find}
use sim_ims.Common.{Result, ok}
use sim_ims.Message.{SipMessage}
use sim_ims.Message.Headers.{contact}
use sim_ims.Message.Forwarding.{sent}
use sim_ims.Store.{RegistrationBinding, ContactBinding}
use sim_ims.Store.Memory.{
  Bindings, matches_selector, is_expired, lookup, upsert_contacts, batch_upsert,
}
use sim_ims.Store.Memory.Expiry.{live}
use sim_ims.Store.Memory.Contacts.{contacts_of, upserted}
use sim_ims.Store.Memory.Batch.{upsert_contacts-whole}
use sim_ims.Store.Memory.Found.{find_if-lookup, upserted-whole}
use sim_ims.Hss.{SaaResult, k_registration}
use sim_ims.Registrar.{
  Registrar, Moment, AuthProvider, AuthVerificationResult, make_contact_binding,
  make_contact_selector, determine_register_expires, make_impu_set, is_deregister,
  has_authorization,
}
use sim_ims.Registrar.Handlers.{
  answers, new_batch, new_contact, register_ok, after_saa, registered_or_failed, sar_for,
  or_else_one, register_verified, try_handle_reregister, select_provider_for_authorization,
  handle_register,
}
use sim_ims.Registrar.Paths.{
  looked_up, live-looked_up, handle_register-verifies, verify_and_register-verified,
}
use sim_ims.Registrar.Answered.{HasNumber}
use sim_ims.Registrar.Selector.{make_impu_set-IsDistinct, matches-contact}

module _ {ℓ} {E : Type ℓ} (r : Registrar E) (at : Moment) (m : SipMessage) where
  abbrev pub selected : Option RegistrationBinding → Option ContactBinding
  selected o = find_if (matches_selector (make_contact_selector m (contact m))) (contacts_of o)

  written_registered :
      (expires : ℕ) (is : List Text) (written : Result ℕ × Bindings) (e : E) (n : ℕ)
      → written.0 ≡ ok n
      → registered_or_failed r at m expires is written e
        ≡ answers r at (register_ok r at m expires (contact m) is) written.1 e
  written_registered expires is written e n h = rw h refl

  module _ (v : AuthVerificationResult) (a : SaaResult) (s : Bindings) (e e' : E) where
    abbrev pub SaaOk : Type ℓ
    SaaOk = r.hss.server_assignment (sar_for r at v.impi v.impu k_registration) e ≡ (ok a, e')

    written_ok :
        (upsert_contacts at.now (new_batch r at m v a) s).0
        ≡ ok (length (make_impu_set a.user_profile.associated_impus v.impu))
    written_ok =
        (upsert_contacts-whole at.now (new_batch r at m v a) s
          (make_impu_set-IsDistinct a.user_profile.associated_impus v.impu) (ground arith)).0

    pub register_verified_lem :
        SaaOk
        → HasNumber m
        → register_verified r at m v s e
          ≡ answers r at
              (register_ok r at m
                (determine_register_expires r.osip m)
                (contact m)
                (or_else_one a.user_profile.associated_impus v.impu))
              (upsert_contacts at.now (new_batch r at m v a) s).1
              e'
    unfolding register_verified after_saa
    register_verified_lem h number =
        let impus = or_else_one a.user_profile.associated_impus v.impu in
        let expires = determine_register_expires r.osip m in
        ap (after_saa r at m v s) h
        ∙ rw (after_saa, number) refl
        ∙ written_registered expires impus _ _ _ written_ok

    pub selected-register_verified :
        (j : Text)
        → any (λ i. i == j) (make_impu_set a.user_profile.associated_impus v.impu) ≡ true
        → selected (find (upsert_contacts at.now (new_batch r at m v a) s).1 j)
          ≡ upserted (batch_upsert (new_batch r at m v a)) (selected (live at.now (find s j)))
    selected-register_verified j inside =
        upserted-whole at.now (new_batch r at m v a) s j
          (make_impu_set-IsDistinct a.user_profile.associated_impus v.impu) (ground arith)
          (matches-contact r.osip at.now m (determine_register_expires r.osip m)) inside

-- A REGISTER that is neither a deregistration nor the refresh of a live contact, and whose
-- credentials a provider verifies, is answered 200 if the HSS assigns the server, its CSeq is missing or
-- has a number, and the message can be created; for each IMPU of the subscription a lookup before the
-- expiry then finds the request's contact, unless a newer update with its Call-ID is stored.
pub handle_register-lookup {ℓ} :
    {E : Type ℓ} (r : Registrar E) (at : Moment) (m : SipMessage) (s : Bindings) (e e1 e2 e3 : E)
    (p : AuthProvider E) (v : AuthVerificationResult) (a : SaaResult) (j : Text) (later : ℕ)
    → HasNumber m
    → is_deregister r.osip m ≡ false
    → (try_handle_reregister r at m s e).0 ≡ none
    → has_authorization r.osip m ≡ true
    → select_provider_for_authorization r at m e ≡ (some p, e1)
    → p.verify_authorization m e1 ≡ (ok v, e2)
    → SaaOk r at m v a s e2 e3
    → any (λ i. i == j) (make_impu_set a.user_profile.associated_impus v.impu) ≡ true
    → upserted (batch_upsert (new_batch r at m v a)) (selected r at m (live at.now (find s j)))
      ≡ some (new_contact r at m)
    → later < at.now + determine_register_expires r.osip m
    → let after = handle_register r at m s e in
      (after.responses
        ≡ sent (
            register_ok r at m
              (determine_register_expires r.osip m)
              (contact m)
              (or_else_one a.user_profile.associated_impus v.impu)))
      × (b : RegistrationBinding) × ((lookup later j after.store).0 ≡ ok b)
      × (selected r at m (some b) ≡ some (new_contact r at m))
unfolding make_contact_binding
handle_register-lookup r at m s e e1 e2 e3 p v a j later number d t h chosen verified saa inside
      newer fresh =
    let seen = looked_up r at m s e in
    let path =
      handle_register-verifies r at m s e d t h
      ∙ verify_and_register-verified r at m s e p v seen e1 e2 chosen verified
      ∙ register_verified_lem r at m v a seen e2 e3 saa number in
    let there =
      selected-register_verified r at m v a seen e2 e3 j inside
      ∙ ap (λ o. upserted (batch_upsert (new_batch r at m v a)) (selected r at m o))
          (live-looked_up r at m s e j)
      ∙ newer in
    let alive : is_expired later (new_contact r at m) ≡ false = ground (arith, fresh) in
    let stored = (upsert_contacts at.now (new_batch r at m v a) seen).1 in
    let sel = make_contact_selector m (contact m) in
    let (b, answered, found) =
      find_if-lookup (matches_selector sel) later j stored (new_contact r at m) there alive in
    rw path (refl, b, answered, found)
