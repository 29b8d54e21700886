-- ===== src/Registrar/Handlers.antt =====
-- s-cscf/registrar.cpp: the handlers of REGISTER. A handler's outcome has the responses that it sends;
-- none is sent where the message for it cannot be made.
use sim_ims.Prelude.{
  ℕ, is_some, Bool, true, false, Option, none, some, List, [], ◌∷◌, ◌++◌, eqb, find_if, is_empty,
  if◌then◌else◌, ◌==◌,
}
use sim_ims.Prelude.Text.{Text, codes, text_instance}
use sim_ims.Common.{Result, ok, err}
use sim_ims.Bencode.{decimal}
use sim_ims.Message.{SipMessage}
use sim_ims.Message.Forwarding.{create_response, with_headers, sent}
use sim_ims.Message.Headers.{contact, cseq_number, add_header, set_contact}
use sim_ims.Store.{
  ContactBinding, RegistrationBinding, State, registered, ContactBatchUpsert, ContactBatchRemove,
}
use sim_ims.Store.Memory.{
  Bindings, lookup, matches_selector, is_expired, upsert_contacts, remove_contacts, remove_bindings,
}
use sim_ims.Hss.{
  SarParams, SaaResult, AssignmentType, k_registration, k_re_registration, k_user_deregistration,
}
use sim_ims.Registrar.{
  Registrar, AuthProvider, AuthChallenge, AuthVerificationResult, Moment, RegisterOutcome,
  make_impu_set, number_or_0, make_contact_selector, make_contact_binding,
  determine_register_expires, is_deregister, has_authorization, add_security_agreement_headers,
  add_associated, with_contact, extract_impi, extract_impu,
}

abbrev is_in_state_registered : State → Bool
is_in_state_registered registered = true
is_in_state_registered _ = false

-- The IMPUs that a SAR's answer names, or none.
abbrev pub associated : Result SaaResult → List Text
associated (err e) = []
associated (ok a) = a.user_profile.associated_impus

abbrev pub or_else_one : List Text → Text → List Text
or_else_one is impu = if is_empty is then impu ∷ [] else is

module _ {ℓ} {E : Type ℓ} (r : Registrar E) (at : Moment) where
  abbrev pub answers : Result SipMessage → Bindings → E → RegisterOutcome E
  answers resp s e = record { responses = sent resp; store = s; env = e; thrown = false }

  -- What comes after the reading of the CSeq's number.
  abbrev pub after_cseq : SipMessage → Bindings → E → RegisterOutcome E → RegisterOutcome E
  after_cseq m s e out =
      if is_some (cseq_number m)
      then out
      else (record { responses = []; store = s; env = e; thrown = true })

  unfoldable pub reply : SipMessage → ℕ → Text → Result SipMessage
  unfolding create_response
  reply m code reason = create_response at.created at.tag at.tagged_to m code reason

  abbrev pub server_name : Text
  server_name = codes "sip:scscf." ++ r.domain

  -- std::find_if over the providers
  unfoldable pub select_provider :
      (AuthProvider E → E → Bool × E) → List (AuthProvider E) → E → Option (AuthProvider E) × E
  select_provider can [] e = (none, e)
  select_provider can (p ∷ ps) e =
      let asked = can p e in
      let rest = select_provider can ps asked.1 in if asked.0 then (some p, asked.1) else rest

  abbrev pub select_provider_for_initial_register : SipMessage → E → Option (AuthProvider E) × E
  select_provider_for_initial_register m e =
      select_provider (λ (p : AuthProvider E). p.can_handle_initial_register m) r.providers e

  abbrev pub select_provider_for_authorization : SipMessage → E → Option (AuthProvider E) × E
  select_provider_for_authorization m e =
      select_provider (λ (p : AuthProvider E). p.can_handle_authorization m) r.providers e

  abbrev pub challenged : SipMessage → AuthChallenge → SipMessage → SipMessage
  challenged m challenge resp =
      let with_challenge = add_header (codes "WWW-Authenticate") challenge.www_authenticate resp in
      add_header (codes "Date") at.date
        (add_security_agreement_headers r.osip m false with_challenge)

  unfoldable pub challenge_response : SipMessage → AuthChallenge → Result SipMessage
  unfolding reply add_header add_security_agreement_headers
  challenge_response m challenge =
      with_headers (challenged m challenge) (reply m 401 (codes "Unauthorized"))

  unfoldable pub send_challenge : SipMessage → Bindings → E → RegisterOutcome E
  unfolding select_provider challenge_response
  send_challenge m s e =
      let chosen = select_provider_for_initial_register m e in
      let refusal = reply m 501 (codes "Not Implemented") in
      elim chosen.0 [
        | none ↦ answers refusal s chosen.1
        | some p ↦
            let challenge = p.create_challenge m chosen.1 in
            elim challenge.0 [
              | err x ↦ answers refusal s challenge.1
              | ok c ↦ answers (challenge_response m c) s challenge.1
            ]
      ]

  abbrev pub registered_headers : SipMessage → ℕ → Option Text → List Text → SipMessage → SipMessage
  registered_headers m expires contact_text associated_impus made =
      let resp = with_contact r.osip contact_text made in
      let dated =
        add_header (codes "Date") at.date (add_header (codes "Expires") (decimal expires) resp) in
      add_associated r.osip (or_else_one associated_impus (extract_impu r.uri_parse m))
        (add_security_agreement_headers r.osip m true dated)

  unfoldable pub register_ok : SipMessage → ℕ → Option Text → List Text → Result SipMessage
  unfolding reply add_header set_contact add_security_agreement_headers decimal
  register_ok m expires contact_text associated_impus =
      with_headers (registered_headers m expires contact_text associated_impus)
        (reply m 200 (codes "OK"))

  -- The live contact of a registered binding that the request's Contact selects.
  unfoldable pub existing_contact : SipMessage → RegistrationBinding → Option ContactBinding
  unfolding contact make_contact_selector matches_selector
  existing_contact m b =
      if is_in_state_registered b.state
      then elim (contact m) [
        | none ↦ none
        | some uri ↦
            let selector = make_contact_selector m (some uri) in
            find_if (λ c. if is_expired at.now c then false else matches_selector selector c)
              b.contacts
      ]
      else none

  -- The update of a contact, or its addition where no match is required.
  abbrev pub batch_of :
      SipMessage → List Text → ContactBinding → Text → Text → Bool → ContactBatchUpsert
  batch_of m impus new impi scscf_uri required = record {
    impus = impus;
    selector = make_contact_selector m (contact m);
    contact = new;
    impi = impi;
    scscf_uri = scscf_uri;
    state = registered;
    require_existing_match = required;
    reject_older_cseq = true;
  }

  abbrev pub sar_for : Text → Text → AssignmentType → SarParams
  sar_for impi impu kind = record {
    impi = impi;
    impu = impu;
    server_name = server_name;
    assignment_type = kind;
  }

  -- The batch has been written, to no IMPU or to some.
  abbrev pub refreshed : SipMessage → ℕ → List Text → Result ℕ × Bindings → E → RegisterOutcome E
  refreshed m expires impus written e =
      let refusal = answers (reply m 500 (codes "Internal Server Error")) written.1 e in
      elim written.0 [
        | err x ↦ refusal
        | ok n ↦
            if eqb n 0
            then refusal
            else answers (register_ok m expires (contact m) impus) written.1 e
      ]

  -- The IMPUs to refresh: those of the HSS's answer, or the binding's own.
  abbrev pub refresh_impus : RegistrationBinding → Result SaaResult → List Text
  refresh_impus b saa = or_else_one (associated saa) b.impu

  abbrev pub refresh_batch :
      SipMessage → RegistrationBinding → ContactBinding → Result SaaResult → ContactBatchUpsert
  refresh_batch m b existing saa =
      let expires = determine_register_expires r.osip m in
      batch_of m (make_impu_set (refresh_impus b saa) b.impu)
        (make_contact_binding r.osip at.now m (contact m) expires (some existing)) b.impi
        b.scscf_uri true

  unfoldable pub reregister :
      SipMessage → RegistrationBinding → ContactBinding → Bindings → E → RegisterOutcome E
  unfolding determine_register_expires make_contact_binding make_impu_set make_contact_selector
      contact upsert_contacts register_ok cseq_number
  reregister m b existing s e =
      let saa = r.hss.server_assignment (sar_for b.impi b.impu k_re_registration) e in
      after_cseq m s e (
        refreshed m (determine_register_expires r.osip m) (refresh_impus b saa.0)
          (upsert_contacts at.now (refresh_batch m b existing saa.0) s) saa.1)

  -- `none` where the request is no re-registration; the lookup has pruned the store.
  unfoldable pub try_handle_reregister :
      SipMessage → Bindings → E → Option (RegisterOutcome E) × Bindings
  unfolding lookup existing_contact reregister extract_impu
  try_handle_reregister m s e =
      let found = lookup at.now (extract_impu r.uri_parse m) s in
      elim found.0 [
        | err x ↦ (none, found.1)
        | ok b ↦ elim (existing_contact m b) [
          | none ↦ (none, found.1)
          | some existing ↦ (some (reregister m b existing found.1 e), found.1)
        ]
      ]

  abbrev pub registered_or_failed :
      SipMessage → ℕ → List Text → Result ℕ × Bindings → E → RegisterOutcome E
  registered_or_failed m expires impus written e = elim written.0 [
    | err x ↦ answers (reply m 500 (codes "Internal Server Error")) written.1 e
    | ok n ↦ answers (register_ok m expires (contact m) impus) written.1 e
  ]

  -- The contact that a first registration writes, and the write.
  abbrev pub new_contact : SipMessage → ContactBinding
  new_contact m =
      make_contact_binding r.osip at.now m (contact m) (determine_register_expires r.osip m) none

  abbrev pub new_batch : SipMessage → AuthVerificationResult → SaaResult → ContactBatchUpsert
  new_batch m v a =
      batch_of m (make_impu_set a.user_profile.associated_impus v.impu) (new_contact m) v.impi
        server_name false

  unfoldable pub after_saa :
      SipMessage → AuthVerificationResult → Bindings → Result SaaResult × E → RegisterOutcome E
  unfolding determine_register_expires make_contact_binding make_impu_set make_contact_selector
      contact upsert_contacts register_ok cseq_number
  after_saa m v s saa = elim saa.0 [
    | err x ↦ answers (reply m 500 (codes "Internal Server Error")) s saa.1
    | ok a ↦ after_cseq m s saa.1 (
        registered_or_failed m (determine_register_expires r.osip m)
          (or_else_one a.user_profile.associated_impus v.impu)
          (upsert_contacts at.now (new_batch m v a) s) saa.1)
  ]

  -- The credentials have been verified.
  unfoldable pub register_verified :
      SipMessage → AuthVerificationResult → Bindings → E → RegisterOutcome E
  unfolding after_saa
  register_verified m v s e =
      after_saa m v s (r.hss.server_assignment (sar_for v.impi v.impu k_registration) e)

  unfoldable pub after_verification :
      SipMessage → Bindings → Result AuthVerificationResult × E → RegisterOutcome E
  unfolding send_challenge register_verified
  after_verification m s verification = elim verification.0 [
    | err x ↦
        if x.message == codes "no pending auth state"
        then send_challenge m s verification.1
        else answers (reply m 403 (codes "Forbidden")) s verification.1
    | ok v ↦ register_verified m v s verification.1
  ]

  unfoldable pub after_choice :
      SipMessage → Bindings → Option (AuthProvider E) × E → RegisterOutcome E
  unfolding after_verification
  after_choice m s chosen = elim chosen.0 [
    | none ↦ answers (reply m 400 (codes "Bad Request")) s chosen.1
    | some p ↦ after_verification m s (p.verify_authorization m chosen.1)
  ]

  unfoldable pub verify_and_register : SipMessage → Bindings → E → RegisterOutcome E
  unfolding select_provider after_choice
  verify_and_register m s e = after_choice m s (select_provider_for_authorization m e)

  abbrev pub is_specific : Option Text → Bool
  is_specific none = false
  is_specific (some c) = if c == codes "*" then false else true

  abbrev pub removal_of : SipMessage → List Text → ContactBatchRemove
  removal_of m impus = record {
    impus = impus;
    selector = make_contact_selector m (contact m);
    call_id = m.call_id;
    cseq = number_or_0 (cseq_number m);
    reject_older_cseq = true;
  }

  unfoldable pub handle_deregister : SipMessage → Bindings → E → RegisterOutcome E
  unfolding extract_impi extract_impu make_impu_set make_contact_selector contact remove_contacts
      remove_bindings reply add_header cseq_number
  handle_deregister m s e =
      let impu = extract_impu r.uri_parse m in
      let saa =
        r.hss.server_assignment
          (sar_for (extract_impi r.uri_parse r.osip m) impu k_user_deregistration) e in
      let impus = make_impu_set (associated saa.0) impu in
      let resp = with_headers (add_header (codes "Date") at.date) (reply m 200 (codes "OK")) in
      if is_specific (contact m)
      then after_cseq m s saa.1
          (answers resp (remove_contacts at.now (removal_of m impus) s).1 saa.1)
      else answers resp (remove_bindings impus s).1 saa.1

  unfoldable pub handle_register : SipMessage → Bindings → E → RegisterOutcome E
  unfolding is_deregister handle_deregister try_handle_reregister has_authorization
      verify_and_register send_challenge
  handle_register m s e =
      let tried = try_handle_reregister m s e in
      if is_deregister r.osip m then handle_deregister m s e else elim tried.0 [
        | some outcome ↦ outcome
        | none ↦
            if has_authorization r.osip m
            then verify_and_register m tried.1 e
            else send_challenge m tried.1 e
      ]
