-- ===== src/Registrar/Refreshed.antt =====
-- The refresh of a registration by a re-REGISTER.
use sim_ims.Prelude.{
  ℕ, ◌≡◌, refl, ap, ◌∙◌, ◌⊎◌, inl, inr, true, false, some, List, arith, any, eqb, find_if,
  if◌then◌else◌, ◌==◌, Bool-cases, Option-cases,
}
use sim_ims.Prelude.Text.{Text, codes, text_instance}
use sim_ims.Prelude.Table.{find}
use sim_ims.Common.{Result, ok}
use sim_ims.Message.{SipMessage}
use sim_ims.Message.Headers.{contact}
use sim_ims.Message.Forwarding.{sent}
use sim_ims.Store.{RegistrationBinding, ContactBinding, ContactBatchUpsert}
use sim_ims.Store.Memory.{
  Bindings, matches_selector, lookup, upsert_contacts, batch_upsert, prune_all,
}
use sim_ims.Store.Memory.Expiry.{live}
use sim_ims.Store.Memory.Contacts.{contacts_of, upserted}
use sim_ims.Store.Memory.Found.{upserted-all}
use sim_ims.Store.Memory.Batch.{can_write, upsert_contacts-whole, upsert_contacts-nothing}
use sim_ims.Hss.{SaaResult, k_re_registration}
use sim_ims.Registrar.{Registrar, Moment, determine_register_expires, is_deregister, extract_impu}
use sim_ims.Registrar.Handlers.{
  answers, reply, register_ok, sar_for, refresh_impus, refresh_batch, refreshed, reregister,
  existing_contact, try_handle_reregister, handle_register,
}
use sim_ims.Registrar.Answered.{HasNumber}
use sim_ims.Registrar.Paths.{looked_up}
use sim_ims.Registrar.Selector.{make_impu_set-IsDistinct, length-make_impu_set, matches-some}

has_contact {ℓ} :
    {E : Type ℓ} (r : Registrar E) (at : Moment) (m : SipMessage) (b : RegistrationBinding)
    (c : ContactBinding)
    → existing_contact r at m b ≡ some c
    → (uri : Text) × (contact m ≡ some uri)
unfolding existing_contact
has_contact r at m b c h = elim (Option-cases (contact m)) [
  | inl e ↦ ground (arith, e, h)
  | inr (uri, e) ↦ (uri, e)
]

module _ {ℓ} {E : Type ℓ} (r : Registrar E) (at : Moment) (m : SipMessage) where
  try-refreshes :
      (s : Bindings) (e : E) (b : RegistrationBinding) (c : ContactBinding)
      → (lookup at.now (extract_impu r.uri_parse m) s).0 ≡ ok b
      → existing_contact r at m b ≡ some c
      → (try_handle_reregister r at m s e).0 ≡ some (reregister r at m b c (looked_up r at m s e) e)
  unfolding try_handle_reregister
  try-refreshes s e b c found here = rw (try_handle_reregister, found, here) refl

  handle_register-refreshes :
      (s : Bindings) (e : E) (b : RegistrationBinding) (c : ContactBinding)
      → is_deregister r.osip m ≡ false
      → (lookup at.now (extract_impu r.uri_parse m) s).0 ≡ ok b
      → existing_contact r at m b ≡ some c
      → handle_register r at m s e ≡ reregister r at m b c (looked_up r at m s e) e
  unfolding handle_register
  handle_register-refreshes s e b c d found here =
      let tried = try-refreshes s e b c found here in rw (handle_register, d, tried) refl

  after_write :
      (expires : ℕ) (is : List Text) (written : Result ℕ × Bindings) (e : E) (n : ℕ)
      → written.0 ≡ ok n
      → refreshed r at m expires is written e ≡ (
          if eqb n 0
          then answers r at (reply r at m 500 (codes "Internal Server Error")) written.1 e
          else answers r at (register_ok r at m expires (contact m) is) written.1 e)
  after_write expires is written e n h = rw h refl

  -- The write of a refresh, given the HSS's answer.
  abbrev pub refresh : RegistrationBinding → ContactBinding → Result SaaResult → ContactBatchUpsert
  refresh b c saa = refresh_batch r at m b c saa

  reregister-written :
      (b : RegistrationBinding) (c : ContactBinding) (s : Bindings) (e e' : E)
      (saa : Result SaaResult) (n : ℕ)
      → HasNumber m
      → r.hss.server_assignment (sar_for r at b.impi b.impu k_re_registration) e ≡ (saa, e')
      → (upsert_contacts at.now (refresh b c saa) s).0 ≡ ok n
      → reregister r at m b c s e ≡ (
          let after = (upsert_contacts at.now (refresh b c saa) s).1 in
          let expires = determine_register_expires r.osip m in
          if eqb n 0
          then answers r at (reply r at m 500 (codes "Internal Server Error")) after e'
          else answers r at
              (register_ok r at m expires (contact m) (refresh_impus r at b saa))
              after
              e')
  unfolding reregister
  reregister-written b c s e e' saa n number h w =
      let expires = determine_register_expires r.osip m in
      rw (reregister, number) refl
      ∙ ap
          (λ (x : Result SaaResult × E).
            refreshed r at m expires (refresh_impus r at b x.0)
              (upsert_contacts at.now (refresh b c x.0) s) x.1)
          h
      ∙ after_write expires (refresh_impus r at b saa) (upsert_contacts at.now (refresh b c saa) s)
          e' n w

  -- A REGISTER whose CSeq is missing or has a number, and whose Contact selects a live contact of the
  -- registered binding that the lookup of its IMPU returns, is decided without the providers:
  -- if every IMPU of the subscription has a matching contact, it is answered 200, and the contact is
  -- the request's at each of these IMPUs, unless a newer update with its Call-ID is stored, and as
  -- before at every other; if one has no match, it is answered 500, and only expired contacts are
  -- removed. No answer is sent where the message for it cannot be created.
  pub handle_register-refreshed :
      (s : Bindings) (e e' : E) (b : RegistrationBinding) (c : ContactBinding)
      (saa : Result SaaResult)
      → HasNumber m
      → is_deregister r.osip m ≡ false
      → (lookup at.now (extract_impu r.uri_parse m) s).0 ≡ ok b
      → existing_contact r at m b ≡ some c
      → r.hss.server_assignment (sar_for r at b.impi b.impu k_re_registration) e ≡ (saa, e')
      → let batch = refresh b c saa in
        let seen = looked_up r at m s e in
        let after = handle_register r at m s e in
        ((can_write at.now batch seen ≡ true)
          × (after.responses
              ≡ sent (
                  register_ok r at m
                    (determine_register_expires r.osip m)
                    (contact m)
                    (refresh_impus r at b saa)))
          × ((j : Text)
              → find_if (matches_selector batch.selector) (contacts_of (find after.store j)) ≡ (
                  if any (λ i. i == j) batch.impus
                  then upserted (batch_upsert batch) (
                      find_if
                        (matches_selector batch.selector)
                        (contacts_of (live at.now (find seen j))))
                  else find_if (matches_selector batch.selector) (contacts_of (find seen j)))))
        ⊎ ((can_write at.now batch seen ≡ false)
            × (after.responses ≡ sent (reply r at m 500 (codes "Internal Server Error")))
            × (after.store ≡ prune_all at.now batch.impus seen))
  handle_register-refreshed s e e' b c saa number d found here answered =
      let batch = refresh b c saa in
      let seen = looked_up r at m s e in
      let impus = refresh_impus r at b saa in
      let path = handle_register-refreshes s e b c d found here in
      let distinct = make_impu_set-IsDistinct impus b.impu in
      let (uri, named) = has_contact r at m b c here in
      let q : matches_selector batch.selector batch.contact ≡ true =
        rw named
          (matches-some r.osip at.now m (determine_register_expires r.osip m) uri (some c)) in
      elim (Bool-cases (can_write at.now batch seen)) [
        | inl can ↦
            let done = (upsert_contacts-whole at.now batch seen distinct can).0 in
            let size = length-make_impu_set impus b.impu in
            let all = path ∙ reregister-written b c seen e e' saa _ number answered done in
            inl (
              can,
              rw (all, size) refl,
              λ j. rw (all, size) (upserted-all at.now batch seen j distinct can q),
            )
        | inr cannot ↦
            let nothing = upsert_contacts-nothing at.now batch seen cannot in
            let all =
              path
              ∙ reregister-written b c seen e e' saa 0 number answered (ap (λ w. w.0) nothing) in
            inr (cannot, rw all refl, rw all (ap (λ w. w.1) nothing))
      ]
