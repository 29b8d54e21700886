-- ===== src/Challenges.antt =====
-- s-cscf/ims_aka_auth_provider.cpp: the AKA challenges that are pending. A section of a method that
-- holds the mutex is one function of the tables, and reads the clock as `now`.
pub mod Credentials
pub mod Indexed
pub mod Digest
pub mod Once
pub mod Verify
pub mod Examples
use sim_ims.Prelude.{
  ℕ, ◌+◌, Bool, true, false, not, ◌&&◌, ◌||◌, Option, none, some, List, [], ◌∷◌, ◌++◌, leb, any,
  erase_if, find_if, is_empty, is_some, if◌then◌else◌, ◌==◌,
}
use sim_ims.Prelude.Text.{Text, codes, starts_with, find_byte, text_instance}
use sim_ims.Prelude.Table.{Table, find, insert, erase}
use sim_ims.Common.{Result, ok, err, ErrorInfo, k_diameter_auth_failed}
use sim_ims.Uri.Endpoints.{OsipUri, normalize_impu_uri}
use sim_ims.Aka.{AuthVector}
use sim_ims.Auth.{parse_digest_authorization, build_challenge, verify_response}
use sim_ims.Message.{SipMessage, method}
use sim_ims.Message.Headers.{Osip, get_header}
use sim_ims.Hss.{MarParams, MaaResult, HssClient}
use sim_ims.Registrar.{
  AuthProvider, AuthChallenge, AuthVerificationResult, extract_impi, extract_impu,
}

abbrev pub k_pending_auth_ttl : ℕ
k_pending_auth_ttl = 120

pub record PendingAuth : Type 0 where
  pub vector : AuthVector
  pub impi : Text
  pub impu : Text
  pub scheme : Text
  pub expires_at : ℕ

-- `in_flight_auth` has the keys whose vector is being fetched.
pub record Tables : Type 0 where
  pub pending_auth : Table Text PendingAuth
  pub in_flight_auth : List Text

-- The outcome of the first section: a pending challenge, another caller's fetch, or one's own.
pub data Begun : Type 0 where
  pending : PendingAuth → Begun
  waits : Begun
  owns : Begun

abbrev is_over : ℕ → Text × PendingAuth → Bool
is_over now entry = leb entry.1.expires_at now

unfoldable pub purge_expired_locked : ℕ → Tables → Tables
purge_expired_locked now t = record t { pending_auth = erase_if (is_over now) t.pending_auth }

abbrev pub auth_failed : Text → ErrorInfo
auth_failed message = record { code = k_diameter_auth_failed; message = message; detail = [] }

unfoldable pub begin_challenge : ℕ → Text → Tables → Begun × Tables
unfolding purge_expired_locked
begin_challenge now key t =
    let purged = purge_expired_locked now t in
    elim (find purged.pending_auth key) [
      | some p ↦ (pending p, purged)
      | none ↦
          if any (λ k. k == key) purged.in_flight_auth
          then (waits, purged)
          else (owns, record purged { in_flight_auth = key ∷ purged.in_flight_auth })
    ]

unfoldable pub finish_challenge : Text → Result PendingAuth → Tables → Tables
finish_challenge key result t = record {
  pending_auth = elim result [ err x ↦ t.pending_auth | ok p ↦ insert t.pending_auth key p ];
  in_flight_auth = erase_if (λ k. k == key) t.in_flight_auth;
}

abbrev pub same_vector : AuthVector → AuthVector → Bool
same_vector v w = v.rand == w.rand && v.autn == w.autn

-- The last section of a verification: the pending entry is taken, if it is still the one verified.
unfoldable pub consume : Text → PendingAuth → Tables → Bool × Tables
consume key p t = elim (find t.pending_auth key) [
  | none ↦ (false, t)
  | some q ↦
      if same_vector q.vector p.vector
      then (true, record t { pending_auth = erase t.pending_auth key })
      else (false, t)
]

module _ (uri_parse : Text → Option OsipUri) where
  unfoldable pub make_pending_key : Text → Text → Text → Text
  unfolding normalize_impu_uri
  make_pending_key call_id impi impu =
      call_id ++ 31 ∷ (normalize_impu_uri uri_parse impi ++ 31 ∷ normalize_impu_uri uri_parse impu)

  unfoldable pub normalize_authorization_impi : Text → Text → Text
  unfolding normalize_impu_uri
  normalize_authorization_impi domain username =
      let normalized = normalize_impu_uri uri_parse username in
      if not (is_some (find_byte b'@' normalized))
        && not (starts_with normalized (codes "tel:"))
        && not (starts_with normalized (codes "sip:"))
        && not (starts_with normalized (codes "sips:"))
      then normalized ++ b'@' ∷ domain
      else normalized

  unfoldable pub find_pending_for_authorization_locked :
      Text → Text → Text → Tables → Option (Text × PendingAuth)
  unfolding normalize_authorization_impi
  find_pending_for_authorization_locked domain call_id username t =
      let impi = normalize_authorization_impi domain username in
      find_if
        (λ (entry : Text × PendingAuth).
          entry.1.impi == impi && starts_with entry.0 (call_id ++ 31 ∷ []))
        t.pending_auth

pub record AkaProvider : Type 0 where
  pub osip : Osip
  pub uri_parse : Text → Option OsipUri
  pub md5_hex : Text → Text
  pub domain : Text

module _ (a : AkaProvider) where
  unfoldable pub can_handle_initial_register : SipMessage → Bool
  unfolding method
  can_handle_initial_register m = method m == codes "REGISTER"

  unfoldable pub can_handle_authorization : ℕ → SipMessage → Tables → Bool × Tables
  unfolding get_header parse_digest_authorization purge_expired_locked
      find_pending_for_authorization_locked
  can_handle_authorization now m t = elim (get_header a.osip (codes "Authorization") m) [
    | none ↦ (false, t)
    | some header ↦ elim (parse_digest_authorization header) [
      | err x ↦ (false, t)
      | ok f ↦
          let purged = purge_expired_locked now t in
          (
            is_some (
                  find_pending_for_authorization_locked a.uri_parse a.domain m.call_id f.username
                    purged)
                || is_empty f.algorithm
                || f.algorithm == codes "AKAv1-MD5"
                || f.algorithm == codes "Digest-AKAv1-MD5",
            purged,
          )
    ]
  ]

  unfoldable pub challenge_of : SipMessage → PendingAuth → AuthChallenge
  unfolding build_challenge
  challenge_of m p = record {
    session_key = m.call_id;
    impi = p.impi;
    impu = p.impu;
    scheme = p.scheme;
    realm = a.domain;
    www_authenticate = build_challenge p.vector a.domain p.scheme;
  }

  unfoldable pub key_for : SipMessage → Text
  unfolding make_pending_key extract_impi extract_impu
  key_for m =
      make_pending_key a.uri_parse m.call_id (extract_impi a.uri_parse a.osip m)
        (extract_impu a.uri_parse m)

  unfoldable pub mar_for : SipMessage → MarParams
  unfolding extract_impi extract_impu
  mar_for m = record {
    impi = extract_impi a.uri_parse a.osip m;
    impu = extract_impu a.uri_parse m;
    sip_auth_scheme = codes "Digest-AKAv1-MD5";
    server_name = codes "sip:scscf." ++ a.domain;
  }

  -- What the HSS's answer makes pending.
  unfoldable pub pending_of : ℕ → SipMessage → Result MaaResult → Result PendingAuth
  unfolding extract_impi extract_impu
  pending_of now m (err x) = err x
  pending_of now m (ok maa) = ok record {
    vector = maa.auth_vector;
    impi = extract_impi a.uri_parse a.osip m;
    impu = extract_impu a.uri_parse m;
    scheme = maa.sip_auth_scheme;
    expires_at = now + k_pending_auth_ttl;
  }

  abbrev challenge_or_error : SipMessage → Result PendingAuth → Result AuthChallenge
  challenge_or_error m (err x) = err x
  challenge_or_error m (ok p) = ok (challenge_of m p)

  -- `shared` is what another caller's fetch yields, `later` the time of the HSS's answer.
  unfoldable pub create_challenge {ℓ} :
      {E : Type ℓ}
      → HssClient E
      → Result PendingAuth
      → ℕ
      → ℕ
      → SipMessage
      → Tables × E
      → Result AuthChallenge × (Tables × E)
  unfolding begin_challenge finish_challenge pending_of key_for mar_for challenge_of
  create_challenge hss shared now later m (t, e) =
      let begun = begin_challenge now (key_for m) t in
      elim begun.0 [
        | pending p ↦ (ok (challenge_of m p), (begun.1, e))
        | waits ↦ (challenge_or_error m shared, (begun.1, e))
        | owns ↦
            let maa = hss.multimedia_auth (mar_for m) e in
            let result = pending_of later m maa.0 in
            (challenge_or_error m result, (finish_challenge (key_for m) result begun.1, maa.1))
      ]

  abbrev pub accepted : SipMessage → PendingAuth → AuthVerificationResult
  accepted m p = record { session_key = m.call_id; impi = p.impi; impu = p.impu; scheme = p.scheme }

  abbrev pub no_pending : Result AuthVerificationResult
  no_pending = err (auth_failed (codes "no pending auth state"))

  abbrev pub take_verified :
      SipMessage
      → Text
      → Option (Text × PendingAuth)
      → Tables
      → Result AuthVerificationResult × Tables
  take_verified m header none t = (no_pending, t)
  take_verified m header (some (key, p)) t =
      let taken = consume key p t in
      if verify_response a.md5_hex header p.vector (method m) p.scheme
      then (if taken.0 then (ok (accepted m p), taken.1) else (no_pending, taken.1))
      else (err (auth_failed (codes "authorization verification failed")), t)

  unfoldable pub verify_authorization :
      ℕ → SipMessage → Tables → Result AuthVerificationResult × Tables
  unfolding get_header parse_digest_authorization purge_expired_locked
      find_pending_for_authorization_locked consume verify_response method
  verify_authorization now m t = elim (get_header a.osip (codes "Authorization") m) [
    | none ↦ (err (auth_failed (codes "missing Authorization header")), t)
    | some header ↦ elim (parse_digest_authorization header) [
      | err x ↦ (err x, t)
      | ok f ↦
          let purged = purge_expired_locked now t in
          take_verified m header
            (find_pending_for_authorization_locked a.uri_parse a.domain m.call_id f.username purged)
            purged
    ]
  ]

  -- The provider as the registrar sees it, at one time.
  abbrev pub aka_provider {ℓ} :
      {E : Type ℓ} → HssClient E → Result PendingAuth → ℕ → AuthProvider (Tables × E)
  aka_provider hss shared now = record {
    can_handle_initial_register = λ m s. (can_handle_initial_register m, s);
    can_handle_authorization =
        λ m s. let r = can_handle_authorization now m s.0 in (r.0, (r.1, s.1));
    create_challenge = create_challenge hss shared now now;
    verify_authorization = λ m s. let r = verify_authorization now m s.0 in (r.0, (r.1, s.1));
  }
