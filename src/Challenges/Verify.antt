-- ===== src/Challenges/Verify.antt =====
-- A verification that no other call interleaves with.
use sim_ims.Prelude.{
  ℕ, ◌<◌, ◌∷◌, ◌++◌, ◌∙◌, sym, ap, Option-cases, ◌==◌, ◌≡◌, refl, inl, inr, Bool, true, false, not,
  Option, none, some, [], arith, filter, find_if, leb, if◌then◌else◌, ==-refl, Bool-cases,
}
use sim_ims.Prelude.Text.{starts_with, Text, codes, text_instance, text_eq_iff}
use sim_ims.Prelude.Table.{Table, find, erase, find-erase, IsKeyed, filter-IsKeyed}
use sim_ims.Common.{Result, ok, err}
use sim_ims.Auth.{DigestAuthFields, parse_digest_authorization, verify_response}
use sim_ims.Aka.{AuthVector}
use sim_ims.Message.{SipMessage, method}
use sim_ims.Message.Headers.{get_header}
use sim_ims.Registrar.{AuthVerificationResult}
use sim_ims.Challenges.{
  PendingAuth, Tables, AkaProvider, purge_expired_locked, consume, same_vector, auth_failed,
  accepted, no_pending, take_verified, find_pending_for_authorization_locked, verify_authorization,
  normalize_authorization_impi,
}

same_vector_refl : (v : AuthVector) → same_vector v v ≡ true
same_vector_refl v = ground (arith, ==-refl v.rand, ==-refl v.autn)

-- The entry that a search finds is the one of its key.
find-find_if :
    (p : Text × PendingAuth → Bool) (t : Table Text PendingAuth) (k : Text) (v : PendingAuth)
    → IsKeyed t
    → find_if p t ≡ some (k, v)
    → find t k ≡ some v
unfolding find
find-find_if p [] k v keyed h = cc
find-find_if p ((j, w) ∷ t) k v keyed h = elim (Bool-cases (p (j, w))) [
  | inl e ↦ ground (arith, e, h, text_eq_iff j k)
  | inr e ↦
      let rest = find-find_if p t k v keyed.1 in
      ground (arith, e, h, keyed.0, rest, text_eq_iff j k)
]

consume_found :
    (k : Text) (p : PendingAuth) (t : Tables)
    → find t.pending_auth k ≡ some p
    → consume k p t ≡ (true, record t { pending_auth = erase t.pending_auth k })
unfolding consume
consume_found k p t h = let same = same_vector_refl p.vector in rw (consume, h, same) refl

-- The tables after a verification that the search has served.
abbrev pub without : Option (Text × PendingAuth) → Tables → Tables
without none t = t
without (some (k, p)) t = record t { pending_auth = erase t.pending_auth k }

module _ (a : AkaProvider) (now : ℕ) (m : SipMessage) (header : Text) where
  -- The pending challenge that a user name of the request's call answers.
  abbrev pub pending_for : Text → Tables → Option (Text × PendingAuth)
  pending_for username t =
      find_pending_for_authorization_locked a.uri_parse a.domain m.call_id username
        (purge_expired_locked now t)

  abbrev pub is_right : Option (Text × PendingAuth) → Bool
  is_right none = false
  is_right (some (k, p)) = verify_response a.md5_hex header p.vector (method m) p.scheme

  abbrev pub answer_to : Option (Text × PendingAuth) → Result AuthVerificationResult
  answer_to none = no_pending a
  answer_to (some (k, p)) =
      if verify_response a.md5_hex header p.vector (method m) p.scheme
      then ok (accepted a m p)
      else err (auth_failed (codes "authorization verification failed"))

  taken :
      (found : Option (Text × PendingAuth)) (t : Tables)
      → ((k : Text) (p : PendingAuth) → found ≡ some (k, p) → find t.pending_auth k ≡ some p)
      → take_verified a m header found t
        ≡ (answer_to found, if is_right found then without found t else t)
  taken none t there = refl
  taken (some (k, p)) t there =
      let served = consume_found k p t (there k p refl) in
      elim (Bool-cases (verify_response a.md5_hex header p.vector (method m) p.scheme)) [
        | inl e ↦ rw (served, e) refl
        | inr e ↦ rw e refl
      ]

  purged-IsKeyed :
      (t : Tables) → IsKeyed t.pending_auth → IsKeyed (purge_expired_locked now t).pending_auth
  unfolding purge_expired_locked
  purged-IsKeyed t keyed =
      filter-IsKeyed (λ (entry : Text × PendingAuth). not (leb entry.1.expires_at now))
        t.pending_auth keyed

  pending_for-find :
      (username : Text) (t : Tables) (k : Text) (p : PendingAuth)
      → IsKeyed t.pending_auth
      → pending_for username t ≡ some (k, p)
      → find (purge_expired_locked now t).pending_auth k ≡ some p
  unfolding find_pending_for_authorization_locked
  pending_for-find username t k p keyed h =
      find-find_if _ (purge_expired_locked now t).pending_auth k p (purged-IsKeyed t keyed) h

  -- What a verification answers and leaves, given the search.
  verify_authorization_lem :
      (t : Tables) (f : DigestAuthFields)
      → IsKeyed t.pending_auth
      → get_header a.osip (codes "Authorization") m ≡ some header
      → parse_digest_authorization header ≡ ok f
      → let found = pending_for f.username t in
        let purged = purge_expired_locked now t in
        verify_authorization a now m t
        ≡ (answer_to found, if is_right found then without found purged else purged)
  unfolding verify_authorization
  verify_authorization_lem t f keyed named parsed =
      let found = pending_for f.username t in
      rw (verify_authorization, named, parsed)
        (taken found (purge_expired_locked now t)
          (λ k p h. pending_for-find f.username t k p keyed h))

-- What a filter leaves was there, and passes it.
find-filter :
    (q : Text × PendingAuth → Bool) (t : Table Text PendingAuth) (k : Text) (p : PendingAuth)
    → IsKeyed t
    → find (filter q t) k ≡ some p
    → (find t k ≡ some p) × (q (k, p) ≡ true)
unfolding find
find-filter q [] k p keyed h = cc h
find-filter q ((j, w) ∷ t) k p keyed h = elim (Bool-cases (q (j, w))) [
  | inl e ↦ elim (Bool-cases (j == k)) [
    | inl same ↦
        let key : j ≡ k = (text_eq_iff j k).0 same in
        let value : w ≡ p = ground (arith, e, same, h) in
        (rw same (ap some value), sym (ap (λ x. q (x, p)) key) ∙ sym (ap (λ y. q (j, y)) value) ∙ e)
    | inr other ↦
        let rest = find-filter q t k p keyed.1 (ground (arith, e, other, h)) in
        (rw other rest.0, rest.1)
  ]
  | inr e ↦
      let rest = find-filter q t k p keyed.1 (ground (arith, e, h)) in
      elim (Bool-cases (j == k)) [
        | inl same ↦
            let key : j ≡ k = (text_eq_iff j k).0 same in
            absurd (cc (sym (ap (find t) key) ∙ keyed.0, rest.0))
        | inr other ↦ (rw other rest.0, rest.1)
      ]
]

find_if-holds :
    (q : Text × PendingAuth → Bool) (t : Table Text PendingAuth) (e : Text × PendingAuth)
    → find_if q t ≡ some e
    → q e ≡ true
find_if-holds q [] e h = cc h
find_if-holds q (x ∷ t) e h = elim (Bool-cases (q x)) [
  | inl y ↦ let same : x ≡ e = ground (arith, y, h) in sym (ap q same) ∙ y
  | inr y ↦ find_if-holds q t e (ground (arith, y, h))
]

right_answer :
    (a : AkaProvider) (m : SipMessage) (header : Text) (k : Text) (p : PendingAuth)
    (v : AuthVerificationResult)
    → answer_to a 0 m header (some (k, p)) ≡ ok v
    → verify_response a.md5_hex header p.vector (method m) p.scheme ≡ true
right_answer a m header k p v h =
    elim (Bool-cases (verify_response a.md5_hex header p.vector (method m) p.scheme)) [
      | inl e ↦ e
      | inr e ↦ absurd (ground (arith, e, h))
    ]

-- On a table with one entry to a key, and with no other call in between, a request's Authorization
-- header is accepted only if the table has a challenge of the request's Call-ID that has not expired,
-- is for the header's user name, and for whose vector the header verifies; that challenge is then gone.
pub verify_authorization-accepted :
    (a : AkaProvider) (now : ℕ) (m : SipMessage) (header : Text) (t : Tables) (f : DigestAuthFields)
    (v : AuthVerificationResult)
    → IsKeyed t.pending_auth
    → get_header a.osip (codes "Authorization") m ≡ some header
    → parse_digest_authorization header ≡ ok f
    → (verify_authorization a now m t).0 ≡ ok v
    → (k : Text) × (p : PendingAuth) × (find t.pending_auth k ≡ some p)
      × (now < p.expires_at)
      × (starts_with k (m.call_id ++ 31 ∷ []) ≡ true)
      × (p.impi ≡ normalize_authorization_impi a.uri_parse a.domain f.username)
      × (verify_response a.md5_hex header p.vector (method m) p.scheme ≡ true)
      × (find (verify_authorization a now m t).1.pending_auth k ≡ none)
unfolding purge_expired_locked find_pending_for_authorization_locked
verify_authorization-accepted a now m header t f v keyed named parsed accepts =
    let path = verify_authorization_lem a now m header t f keyed named parsed in
    let answered = sym (ap (λ r. r.0) path) ∙ accepts in
    let purged = purge_expired_locked now t in
    elim (Option-cases (pending_for a now m header f.username t)) [
      | inl e ↦ absurd (cc (sym (ap (answer_to a now m header) e) ∙ answered))
      | inr ((k, p), e) ↦
          let right =
            right_answer a m header k p v (sym (ap (answer_to a now m header) e) ∙ answered) in
          let held = find_if-holds _ purged.pending_auth (k, p) e in
          let (there, fresh) =
            find-filter (λ (entry : Text × PendingAuth). not (leb entry.1.expires_at now))
              t.pending_auth k p keyed (pending_for-find a now m header f.username t k p keyed e) in
          let impi = normalize_authorization_impi a.uri_parse a.domain f.username in
          (
            k,
            p,
            there,
            ground (arith, fresh),
            ground (arith, held),
            (text_eq_iff p.impi impi).0 (ground (arith, held)),
            right,
            ap (λ r. find r.1.pending_auth k) path
                ∙ rw (e, right) (find-erase purged.pending_auth k k ∙ rw (==-refl k) refl),
          )
    ]
