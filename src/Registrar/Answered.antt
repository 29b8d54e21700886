-- ===== src/Registrar/Answered.antt =====
-- How a REGISTER is answered.
use sim_ims.Prelude.{
  ℕ, is_some, ◌≡◌, refl, ap, subst, ◌∙◌, inl, inr, Bool, true, false, not, ◌&&◌, Option, none, some,
  List, [], ◌∷◌, arith, any, eqb, ◌==◌, Bool-cases, Option-cases,
}
use sim_ims.Prelude.Text.{Text, codes, text_instance}
use sim_ims.Common.{Result, ok, err, VoidResult}
use sim_ims.Message.{SipMessage, StartLine, response, status_code}
use sim_ims.Message.Forwarding.{create_response, filled_response, with_headers, sent}
use sim_ims.Message.Headers.{Osip, contact, cseq_number, add_header, get_headers, set_contact}
use sim_ims.Store.{RegistrationBinding, ContactBinding}
use sim_ims.Store.Memory.{Bindings, lookup, upsert_contacts}
use sim_ims.Hss.{SaaResult, k_re_registration}
use sim_ims.Registrar.{
  Registrar, Moment, AuthProvider, AuthChallenge, AuthVerificationResult, RegisterOutcome,
  is_deregister, has_authorization, extract_impu, determine_register_expires, add_security,
  add_security_agreement_headers, add_associated, with_contact,
}
use sim_ims.Registrar.Handlers.{
  answers, is_specific, challenged, registered_headers, new_batch, refresh_impus, refresh_batch,
  sar_for, reply, or_else_one, challenge_response, register_ok, send_challenge, after_saa,
  register_verified, after_verification, after_choice, verify_and_register, reregister, refreshed,
  registered_or_failed, try_handle_reregister, existing_contact, handle_deregister, handle_register,
  select_provider_for_authorization, select_provider_for_initial_register,
}
use sim_ims.Registrar.Paths.{
  Result-cases, looked_up, handle_register-challenged, handle_register-verifies,
  handle_register-deregisters,
}

-- The headers that are added leave the start line.
start-add_security :
    (o : Osip) (final : Bool) (ts : List Text) (m : SipMessage)
    → (add_security o final ts m).start ≡ m.start
unfolding add_header
start-add_security o final [] m = refl
start-add_security o true (t ∷ ts) m = start-add_security o true ts _
start-add_security o false (t ∷ ts) m = start-add_security o false ts _

start-add_associated :
    (o : Osip) (is : List Text) (m : SipMessage) → (add_associated o is m).start ≡ m.start
unfolding add_header
start-add_associated o [] m = refl
start-add_associated o (i ∷ is) m = start-add_associated o is _

start-with_contact :
    (o : Osip) (c : Option Text) (m : SipMessage) → (with_contact o c m).start ≡ m.start
unfolding set_contact
start-with_contact o none m = refl
start-with_contact o (some c) m = elim (Option-cases (o.contact_parse c)) [
  | inl e ↦ rw (set_contact, e) refl
  | inr (x, e) ↦ rw (set_contact, e) refl
]

abbrev code_of : StartLine → ℕ
code_of (response code reason) = code
code_of _ = 0

-- A response that was made has a code that passes the test; one that was not has the error of
-- SipMessage::create.
abbrev pub HasCode : VoidResult → (ℕ → Bool) → Result SipMessage → Type 0
HasCode created p (err x) = created ≡ err x
HasCode created p (ok resp) = p (status_code resp) ≡ true

create-HasCode :
    (created : VoidResult) (p : ℕ → Bool) (tag to_header : Text) (m : SipMessage) (code : ℕ)
    (reason : Text)
    → p code ≡ true
    → HasCode created p (create_response created tag to_header m code reason)
unfolding create_response filled_response status_code
create-HasCode (err x) p tag to_header m code reason h = refl
create-HasCode (ok u) p tag to_header m code reason h = h

with_headers-HasCode :
    (created : VoidResult) (p : ℕ → Bool) (f : SipMessage → SipMessage) (resp : Result SipMessage)
    → ((m : SipMessage) → (f m).start ≡ m.start)
    → HasCode created p resp
    → HasCode created p (with_headers f resp)
unfolding status_code
with_headers-HasCode created p f (err x) kept h = h
with_headers-HasCode created p f (ok m) kept h = ap (λ st. p (code_of st)) (kept m) ∙ h

-- The final codes of the registrar.
abbrev pub is_register_code : ℕ → Bool
is_register_code n = any (eqb n) (200 ∷ 400 ∷ 401 ∷ 403 ∷ 500 ∷ 501 ∷ [])

-- The CSeq is missing or has a number.
abbrev pub HasNumber : SipMessage → Type 0
HasNumber m = is_some (cseq_number m) ≡ true

module _ {ℓ} {E : Type ℓ} (r : Registrar E) (at : Moment) where
  -- The one response was sent, with this test of its code, or none could be made.
  abbrev pub IsAnswered : (ℕ → Bool) → RegisterOutcome E → Type 0
  IsAnswered p out =
      (resp : Result SipMessage) × (out.responses ≡ sent resp) × HasCode at.created p resp

  pub reply-HasCode :
      (p : ℕ → Bool) (m : SipMessage) (code : ℕ) (reason : Text)
      → p code ≡ true
      → HasCode at.created p (reply r at m code reason)
  unfolding reply
  reply-HasCode p m code reason h = create-HasCode at.created p at.tag at.tagged_to m code reason h

  pub is_answered :
      (p : ℕ → Bool) (m : SipMessage) (code : ℕ) (reason : Text) (s : Bindings) (e : E)
      → p code ≡ true
      → IsAnswered p (answers r at (reply r at m code reason) s e)
  is_answered p m code reason s e h =
      (reply r at m code reason, refl, reply-HasCode p m code reason h)

  abbrev pub is_refusal : ℕ → Bool
  is_refusal n = is_register_code n && not (eqb n 200)

  challenge-HasCode :
      (m : SipMessage) (c : AuthChallenge)
      → HasCode at.created is_refusal (challenge_response r at m c)
  unfolding challenge_response add_security_agreement_headers add_header
  challenge-HasCode m c =
      let echoed = get_headers r.osip (codes "Security-Client") m in
      with_headers-HasCode at.created is_refusal (challenged r at m c)
        (reply r at m 401 (codes "Unauthorized")) (λ made. start-add_security r.osip false echoed _)
        (reply-HasCode is_refusal m 401 (codes "Unauthorized") refl)

  ok-HasCode :
      (m : SipMessage) (expires : ℕ) (c : Option Text) (is : List Text)
      → HasCode at.created is_register_code (register_ok r at m expires c is)
  unfolding register_ok add_security_agreement_headers add_header
  ok-HasCode m expires c is =
      let impus = or_else_one is (extract_impu r.uri_parse m) in
      let echoed = get_headers r.osip (codes "Security-Client") m in
      with_headers-HasCode at.created is_register_code (registered_headers r at m expires c is)
        (reply r at m 200 (codes "OK"))
        (λ made.
          start-add_associated r.osip impus _
          ∙ start-add_security r.osip true echoed _
          ∙ start-with_contact r.osip c made)
        (reply-HasCode is_register_code m 200 (codes "OK") refl)

  module _ (m : SipMessage) (s : Bindings) (e : E) where
    pub send_challenge-IsAnswered : IsAnswered is_refusal (send_challenge r at m s e)
    unfolding send_challenge reply create_response status_code
    send_challenge-IsAnswered =
        elim (Option-cases (select_provider_for_initial_register r at m e).0) [
          | inl p ↦ rw (send_challenge, p) (_, refl, reply-HasCode is_refusal m 501 _ refl)
          | inr (provider, p) ↦
              elim (Result-cases
                (provider.create_challenge m (select_provider_for_initial_register r at m e).1).0) [
                  | inl (x, q) ↦
                      rw (send_challenge, p, q) (_, refl, reply-HasCode is_refusal m 501 _ refl)
                  | inr (c, q) ↦ rw (send_challenge, p, q) (_, refl, challenge-HasCode m c)
                ]
        ]

    registered_or_failed-IsAnswered :
        (expires : ℕ) (is : List Text) (written : Result ℕ × Bindings)
        → IsAnswered is_register_code (registered_or_failed r at m expires is written e)
    unfolding reply create_response status_code
    registered_or_failed-IsAnswered expires is (ok n, t) =
        (_, refl, ok-HasCode m expires (contact m) is)
    registered_or_failed-IsAnswered expires is (err x, t) =
        is_answered is_register_code m 500 _ t e refl

    refreshed-IsAnswered :
        (expires : ℕ) (is : List Text) (written : Result ℕ × Bindings)
        → IsAnswered is_register_code (refreshed r at m expires is written e)
    unfolding reply create_response status_code
    refreshed-IsAnswered expires is (err x, t) = is_answered is_register_code m 500 _ t e refl
    refreshed-IsAnswered expires is (ok n, t) = elim (Bool-cases (eqb n 0)) [
      | inl p ↦ rw p (is_answered is_register_code m 500 _ t e refl)
      | inr p ↦ rw p (_, refl, ok-HasCode m expires (contact m) is)
    ]

  refusal-code : (n : ℕ) → is_refusal n ≡ true → is_register_code n ≡ true
  refusal-code n h = ground (arith, h)

  any_code : (out : RegisterOutcome E) → IsAnswered is_refusal out → IsAnswered is_register_code out
  any_code out (ok resp, only, code) = (ok resp, only, refusal-code (status_code resp) code)
  any_code out (err x, only, failed) = (err x, only, failed)

  after_saa-IsAnswered :
      (m : SipMessage) (v : AuthVerificationResult) (s : Bindings) (saa : Result SaaResult × E)
      → HasNumber m
      → IsAnswered is_register_code (after_saa r at m v s saa)
  unfolding after_saa
  after_saa-IsAnswered m v s (err x, e) number = is_answered is_register_code m 500 _ s e refl
  after_saa-IsAnswered m v s (ok a, e) number =
      rw (after_saa, number)
        (registered_or_failed-IsAnswered m s e (determine_register_expires r.osip m)
          (or_else_one a.user_profile.associated_impus v.impu)
          (upsert_contacts at.now (new_batch r at m v a) s))

  after_verification-IsAnswered :
      (m : SipMessage) (s : Bindings) (c : Result AuthVerificationResult × E)
      → HasNumber m
      → IsAnswered is_register_code (after_verification r at m s c)
  unfolding after_verification register_verified
  after_verification-IsAnswered m s (ok v, e) number = after_saa-IsAnswered m v s _ number
  after_verification-IsAnswered m s (err x, e) number =
      elim (Bool-cases (x.message == codes "no pending auth state")) [
        | inl p ↦ rw p (any_code (send_challenge r at m s e) (send_challenge-IsAnswered m s e))
        | inr p ↦ rw p (is_answered is_register_code m 403 _ s e refl)
      ]

  after_choice-IsAnswered :
      (m : SipMessage) (s : Bindings) (c : Option (AuthProvider E) × E)
      → HasNumber m
      → IsAnswered is_register_code (after_choice r at m s c)
  unfolding after_choice
  after_choice-IsAnswered m s (none, e) number = is_answered is_register_code m 400 _ s e refl
  after_choice-IsAnswered m s (some p, e) number =
      after_verification-IsAnswered m s (p.verify_authorization m e) number

  handle_deregister-IsAnswered :
      (m : SipMessage) (s : Bindings) (e : E)
      → HasNumber m
      → IsAnswered is_register_code (handle_deregister r at m s e)
  unfolding handle_deregister add_header
  handle_deregister-IsAnswered m s e number =
      let made =
        with_headers-HasCode at.created is_register_code (add_header (codes "Date") at.date)
          (reply r at m 200 (codes "OK")) (λ m. refl)
          (reply-HasCode is_register_code m 200 (codes "OK") refl) in
      elim (Bool-cases (is_specific r at (contact m))) [
        | inl q ↦ rw (handle_deregister, q, number) (_, refl, made)
        | inr q ↦ rw (handle_deregister, q) (_, refl, made)
      ]

  reregister-IsAnswered :
      (m : SipMessage) (b : RegistrationBinding) (c : ContactBinding) (s : Bindings) (e : E)
      → HasNumber m
      → IsAnswered is_register_code (reregister r at m b c s e)
  unfolding reregister
  reregister-IsAnswered m b c s e number =
      let saa = r.hss.server_assignment (sar_for r at b.impi b.impu k_re_registration) e in
      rw (reregister, number)
        (refreshed-IsAnswered m s saa.1 (determine_register_expires r.osip m)
          (refresh_impus r at b saa.0) (upsert_contacts at.now (refresh_batch r at m b c saa.0) s))

  abbrev IsTried : Option (RegisterOutcome E) → Type 0
  IsTried none = Unit
  IsTried (some out) = IsAnswered is_register_code out

  try_handle_reregister-IsTried :
      (m : SipMessage) (s : Bindings) (e : E)
      → HasNumber m
      → IsTried (try_handle_reregister r at m s e).0
  unfolding try_handle_reregister
  try_handle_reregister-IsTried m s e number =
      elim (Result-cases (lookup at.now (extract_impu r.uri_parse m) s).0) [
        | inl (x, p) ↦ rw (try_handle_reregister, p) tt
        | inr (b, p) ↦ elim (Option-cases (existing_contact r at m b)) [
          | inl q ↦ rw (try_handle_reregister, p, q) tt
          | inr (c, q) ↦ rw (try_handle_reregister, p, q) (reregister-IsAnswered m b c _ e number)
        ]
      ]

  -- Every REGISTER whose CSeq is missing or has a number is answered by exactly one response, whose code
  -- is 200, 400, 401, 403, 500 or 501, whatever the store, the providers and the HSS do; or by none where
  -- no message can be created.
  pub handle_register-IsAnswered :
      (m : SipMessage) (s : Bindings) (e : E)
      → HasNumber m
      → IsAnswered is_register_code (handle_register r at m s e)
  unfolding verify_and_register handle_register
  handle_register-IsAnswered m s e number = elim (Bool-cases (is_deregister r.osip m)) [
    | inl d ↦
        rw (handle_register-deregisters r at m s e d) (handle_deregister-IsAnswered m s e number)
    | inr d ↦ elim (Option-cases (try_handle_reregister r at m s e).0) [
      | inr (out, t) ↦
          rw (handle_register, d, t) (subst IsTried t (try_handle_reregister-IsTried m s e number))
      | inl t ↦ elim (Bool-cases (has_authorization r.osip m)) [
        | inl h ↦ rw (handle_register-verifies r at m s e d t h) (
            after_choice-IsAnswered m (looked_up r at m s e)
              (select_provider_for_authorization r at m e) number)
        | inr h ↦ rw (handle_register-challenged r at m s e d t h) (
            any_code (send_challenge r at m (looked_up r at m s e) e)
              (send_challenge-IsAnswered m (looked_up r at m s e) e))
      ]
    ]
  ]
