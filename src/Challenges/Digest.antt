-- ===== src/Challenges/Digest.antt =====
-- s-cscf/digest_auth_provider.cpp: the digest challenges that are pending. `nonce` is the one drawn.
use sim_ims.Prelude.{
  ℕ, ◌+◌, Bool, true, false, not, ◌&&◌, ◌||◌, Option, none, some, [], ◌∷◌, ◌++◌, leb, erase_if,
  is_empty, if◌then◌else◌, ◌==◌,
}
use sim_ims.Prelude.Text.{Text, codes, text_instance}
use sim_ims.Prelude.Table.{Table, find, insert, erase}
use sim_ims.Common.{Result, ok, err, ErrorInfo, k_diameter_user_not_found}
use sim_ims.Uri.Endpoints.{OsipUri, normalize_impu_uri}
use sim_ims.Auth.{
  DigestAuthFields, parse_digest_authorization, build_digest_challenge, verify_digest_password,
}
use sim_ims.Message.{SipMessage, method}
use sim_ims.Message.Headers.{Osip, get_header, impi_from_authorization_or_from, to_uri}
use sim_ims.Registrar.{AuthChallenge, AuthVerificationResult}
use sim_ims.Challenges.{auth_failed, k_pending_auth_ttl}
use sim_ims.Challenges.Credentials.{DigestCredential}

-- IDigestCredentialStore
pub record CredentialLookup : Type 0 where
  pub by_username : Text → Text → Result (Option DigestCredential)
  pub by_identity_of : Text → Result (Option DigestCredential)

pub record PendingDigest : Type 0 where
  pub nonce : Text
  pub credential : DigestCredential
  pub expires_at : ℕ

abbrev pub Pending : Type 0
Pending = Table Text PendingDigest

pub record DigestProvider : Type 0 where
  pub osip : Osip
  pub uri_parse : Text → Option OsipUri
  pub md5_hex : Text → Text
  pub realm : Text
  pub credential_store : Option CredentialLookup

abbrev pub purge_digest : ℕ → Pending → Pending
purge_digest now t = erase_if (λ (entry : Text × PendingDigest). leb entry.1.expires_at now) t

abbrev has_credential : Result (Option DigestCredential) → Bool
has_credential (ok (some c)) = true
has_credential _ = false

abbrev identity_or : Option Text → Option Text → Text → Text
identity_or (some t) o d = t
identity_or none (some t) d = t
identity_or none none d = d

module _ (p : DigestProvider) where
  unfoldable pub extract_identity : SipMessage → Text
  unfolding impi_from_authorization_or_from to_uri normalize_impu_uri
  extract_identity m =
      normalize_impu_uri p.uri_parse
        (identity_or (impi_from_authorization_or_from p.osip m) (to_uri m) m.to_header)

  unfoldable pub make_digest_key : Text → Text → Text
  unfolding normalize_impu_uri
  make_digest_key call_id impi = call_id ++ 31 ∷ normalize_impu_uri p.uri_parse impi

  unfoldable pub can_challenge : SipMessage → Bool
  unfolding extract_identity method
  can_challenge m = elim p.credential_store [
    | none ↦ false
    | some store ↦
        let identity = extract_identity m in
        if not (method m == codes "REGISTER") || is_empty identity
        then false
        else has_credential (store.by_identity_of identity)
  ]

  abbrev can_check : ℕ → DigestAuthFields → CredentialLookup → Pending → Bool × Pending
  can_check now f store t =
      if not (is_empty f.algorithm) && not (f.algorithm == codes "MD5")
      then (false, t)
      else if has_credential (store.by_username f.username f.realm)
      then (true, purge_digest now t)
      else (false, t)

  unfoldable pub can_verify : ℕ → SipMessage → Pending → Bool × Pending
  unfolding get_header parse_digest_authorization
  can_verify now m t = elim p.credential_store [
    | none ↦ (false, t)
    | some store ↦ elim (get_header p.osip (codes "Authorization") m) [
      | none ↦ (false, t)
      | some header ↦ elim (parse_digest_authorization header) [
        | err x ↦ (false, t)
        | ok f ↦ can_check now f store t
      ]
    ]
  ]

  unfoldable pub digest_challenge : SipMessage → DigestCredential → Text → AuthChallenge
  unfolding build_digest_challenge
  digest_challenge m c nonce = record {
    session_key = m.call_id;
    impi = c.impi;
    impu = c.impu;
    scheme = codes "Digest-MD5";
    realm = p.realm;
    www_authenticate = build_digest_challenge p.realm nonce;
  }

  -- A pending nonce is offered again, or the new one is made pending: the two locked sections, with no
  -- other caller between them.
  unfoldable pub offer :
      ℕ → Text → SipMessage → DigestCredential → Pending → AuthChallenge × Pending
  unfolding make_digest_key digest_challenge
  offer now nonce m c t =
      let purged = purge_digest now t in
      let key = make_digest_key m.call_id c.impi in
      elim (find purged key) [
        | some q ↦ (digest_challenge m q.credential q.nonce, purged)
        | none ↦ (
          digest_challenge m c nonce,
          insert purged key
              (record { nonce = nonce; credential = c; expires_at = now + k_pending_auth_ttl }),
        )
      ]

  abbrev not_found : ErrorInfo
  not_found = record {
    code = k_diameter_user_not_found;
    message = codes "digest credential not found";
    detail = [];
  }

  unfoldable pub create_digest_challenge :
      CredentialLookup → ℕ → Text → SipMessage → Pending → Result AuthChallenge × Pending
  unfolding extract_identity offer
  create_digest_challenge store now nonce m t = elim (store.by_identity_of (extract_identity m)) [
    | err x ↦ (err x, t)
    | ok found ↦ elim found [
      | none ↦ (err not_found, t)
      | some c ↦ let offered = offer now nonce m c t in (ok offered.0, offered.1)
    ]
  ]

  abbrev no_digest_pending : Result AuthVerificationResult
  no_digest_pending = err (auth_failed (codes "no pending auth state"))

  abbrev verified_as : SipMessage → PendingDigest → AuthVerificationResult
  verified_as m q = record {
    session_key = m.call_id;
    impi = q.credential.impi;
    impu = q.credential.impu;
    scheme = codes "Digest-MD5";
  }

  -- The last section: the entry is taken, if it still has the nonce that was verified.
  unfoldable pub consume_digest :
      SipMessage → Text → PendingDigest → Pending → Result AuthVerificationResult × Pending
  consume_digest m key q t = elim (find t key) [
    | none ↦ (no_digest_pending, t)
    | some r ↦
        if r.nonce == q.nonce then (ok (verified_as m q), erase t key) else (no_digest_pending, t)
  ]

  abbrev check_pending :
      SipMessage → Text → Text → Pending → Result AuthVerificationResult × Pending
  check_pending m header key t = elim (find t key) [
    | none ↦ (no_digest_pending, t)
    | some q ↦
        if verify_digest_password p.md5_hex header q.credential.password (method m) q.nonce
        then consume_digest m key q t
        else (err (auth_failed (codes "authorization verification failed")), t)
  ]

  unfoldable pub verify_digest :
      CredentialLookup → ℕ → SipMessage → Pending → Result AuthVerificationResult × Pending
  unfolding get_header parse_digest_authorization make_digest_key consume_digest
      verify_digest_password method
  verify_digest store now m t = elim (get_header p.osip (codes "Authorization") m) [
    | none ↦ (err (auth_failed (codes "missing Authorization header")), t)
    | some header ↦ elim (parse_digest_authorization header) [
      | err x ↦ (err x, t)
      | ok f ↦ elim (store.by_username f.username f.realm) [
        | err x ↦ (err x, t)
        | ok found ↦ elim found [
          | none ↦ (err (auth_failed (codes "credential not found")), t)
          | some c ↦ check_pending m header (make_digest_key m.call_id c.impi) (purge_digest now t)
        ]
      ]
    ]
  ]
