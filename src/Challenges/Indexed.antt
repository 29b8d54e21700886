-- ===== src/Challenges/Indexed.antt =====
-- The credential store finds what a search of the configured subscribers finds.
use sim_ims.Prelude.{
  ℕ, zero, suc, ◌<◌, ◌≡◌, refl, sym, ap, subst, ◌∙◌, inl, inr, ◌||◌, Option, none, some, List, [],
  ◌∷◌, ◌++◌, arith, any, is_empty, length, length-append, if◌then◌else◌, ◌==◌, Bool-cases,
  Option-cases,
}
use sim_ims.Prelude.Text.{Text, text_instance, text_eq_iff}
use sim_ims.Prelude.Table.{Table, find, find-insert}
use sim_ims.Common.{ok}
use sim_ims.Uri.Endpoints.{OsipUri, normalize_impu_uri}
use sim_ims.Challenges.Credentials.{
  DigestCredential, Subscriber, CredentialStore, no_credentials, credential_of, emplace,
  add_aliases, add_identities, aliases, identities, at_index, add_subscriber, add_subscribers,
  find_by_identity, find_by_username, make_username_realm_key,
}

-- The first of two.
abbrev first_of {ℓ} : {A : Type ℓ} → Option A → Option A → Option A
first_of none o = o
first_of (some a) o = some a

abbrev if_any : List Text → Text → ℕ → Option ℕ
if_any keys j i = if any (λ k. k == j) keys then some i else none

find-emplace :
    (t : Table Text ℕ) (k j : Text) (i : ℕ)
    → find (emplace t k i) j ≡ first_of (find t j) (if k == j then some i else none)
find-emplace t k j i = elim (Option-cases (find t k)) [
  | inl e ↦ rw (emplace, e) (ground (arith, e, find-insert t k j i, text_eq_iff k j))
  | inr (h, e) ↦ rw (emplace, e) (ground (arith, e, text_eq_iff k j))
]

find-add_identities :
    (t : Table Text ℕ) (keys : List Text) (j : Text) (i : ℕ)
    → find (add_identities t keys i) j ≡ first_of (find t j) (if_any keys j i)
find-add_identities t [] j i = ground arith
find-add_identities t (k ∷ keys) j i =
    ground (arith, find-add_identities (emplace t k i) keys j i, find-emplace t k j i)

-- The keys that a subscriber's names give at its realm.
abbrev pub username_keys : List Text → Text → List Text
username_keys [] realm = []
username_keys (name ∷ names) realm =
    let rest = username_keys names realm in
    if is_empty name || is_empty realm then rest else make_username_realm_key name realm ∷ rest

add_aliases_lem :
    (names : List Text) (realm : Text) (i : ℕ) (t : Table Text ℕ)
    → add_aliases t names realm i ≡ add_identities t (username_keys names realm) i
add_aliases_lem [] realm i t = refl
add_aliases_lem (name ∷ names) realm i t = elim (Bool-cases (is_empty name || is_empty realm)) [
  | inl e ↦ rw e (add_aliases_lem names realm i t)
  | inr e ↦ rw e (add_aliases_lem names realm i (emplace t (make_username_realm_key name realm) i))
]

at_index-old :
    (i : ℕ) (cs : List DigestCredential) (c : DigestCredential)
    → i < length cs
    → at_index i (cs ++ c ∷ []) ≡ at_index i cs
at_index-old i [] c h = ground (arith, h)
at_index-old zero (d ∷ cs) c h = refl
at_index-old (suc i) (d ∷ cs) c h = at_index-old i cs c (omega (arith, h))

at_index-some :
    (i : ℕ) (cs : List DigestCredential)
    → i < length cs
    → (c : DigestCredential) × (at_index i cs ≡ some c)
at_index-some i [] h = ground (arith, h)
at_index-some zero (d ∷ cs) h = (d, refl)
at_index-some (suc i) (d ∷ cs) h = at_index-some i cs (omega (arith, h))

at_index-new :
    (cs : List DigestCredential) (c : DigestCredential)
    → at_index (length cs) (cs ++ c ∷ []) ≡ some c
at_index-new [] c = refl
at_index-new (d ∷ cs) c = at_index-new cs c

-- What a key resolves to in a list of credentials with an index.
abbrev pub resolve : List DigestCredential → Table Text ℕ → Text → Option DigestCredential
resolve cs t j = elim (find t j) [ none ↦ none | some i ↦ at_index i cs ]

-- Every index is one of the list.
abbrev IsWithin : List DigestCredential → Table Text ℕ → Type 0
IsWithin cs t = (j : Text) (i : ℕ) → find t j ≡ some i → i < length cs

module _ (cs : List DigestCredential) (t : Table Text ℕ) (c : DigestCredential)
    (keys : List Text) where
  abbrev added : Table Text ℕ
  added = add_identities t keys (length cs)

  find-added : (j : Text) → find added j ≡ first_of (find t j) (if_any keys j (length cs))
  find-added j = find-add_identities t keys j (length cs)

  added-IsWithin : IsWithin cs t → IsWithin (cs ++ c ∷ []) added
  added-IsWithin h j i found = elim (Option-cases (find t j)) [
    | inl e ↦ ground (arith, e, found, find-added j, length-append cs (c ∷ []))
    | inr (k, e) ↦
        let small = h j k e in
        ground (arith, e, small, found, find-added j, length-append cs (c ∷ []))
  ]

  resolve-added :
      (j : Text)
      → IsWithin cs t
      → resolve (cs ++ c ∷ []) added j
        ≡ first_of (resolve cs t j) (if any (λ k. k == j) keys then some c else none)
  resolve-added j h = elim (Option-cases (find t j)) [
    | inl e ↦
        let found : find added j ≡ if_any keys j (length cs) = ground (arith, e, find-added j) in
        ground (arith, e, found, at_index-new cs c)
    | inr (k, e) ↦
        let found : find added j ≡ some k = ground (arith, e, find-added j) in
        let (d, old) = at_index-some k cs (h j k e) in
        ground (arith, e, found, old, at_index-old k cs c (h j k e))
  ]

-- The stored credentials of the first subscriber that has the key.
abbrev pub searched : (Subscriber → List Text) → List Subscriber → Text → Option DigestCredential
searched keys_of [] j = none
searched keys_of (s ∷ ss) j =
    first_of (if any (λ k. k == j) (keys_of s) then some (credential_of s) else none)
      (searched keys_of ss j)

first_of-none {ℓ} : {A : Type ℓ} (o : Option A) → o ≡ first_of o none
first_of-none none = refl
first_of-none (some a) = refl

first_of_assoc {ℓ} :
    {A : Type ℓ} (o p q : Option A) → first_of (first_of o p) q ≡ first_of o (first_of p q)
first_of_assoc none p q = refl
first_of_assoc (some a) p q = refl

module _ (uri_parse : Text → Option OsipUri) where
  abbrev pub usernames_of : Subscriber → List Text
  usernames_of s = username_keys (aliases s) s.realm

  add_subscriber-usernames :
      (s : Subscriber) (store : CredentialStore)
      → (add_subscriber uri_parse s store).by_username_realm
        ≡ add_identities store.by_username_realm (usernames_of s) (length store.credentials)
  unfolding add_subscriber
  add_subscriber-usernames s store =
      add_aliases_lem (aliases s) s.realm (length store.credentials) store.by_username_realm

  resolve-usernames :
      (ss : List Subscriber) (store : CredentialStore) (j : Text)
      → IsWithin store.credentials store.by_username_realm
      → let after = add_subscribers uri_parse ss store in
        resolve after.credentials after.by_username_realm j
        ≡ first_of
            (resolve store.credentials store.by_username_realm j)
            (searched usernames_of ss j)
  unfolding add_subscribers add_subscriber
  resolve-usernames [] store j h = first_of-none _
  resolve-usernames (s ∷ ss) store j h =
      let cs = store.credentials in
      let t = store.by_username_realm in
      let c = credential_of s in
      let keys = usernames_of s in
      let same = add_subscriber-usernames s store in
      let within = subst (IsWithin (cs ++ c ∷ [])) (sym same) (added-IsWithin cs t c keys h) in
      let one = ap (λ x. resolve (cs ++ c ∷ []) x j) same ∙ resolve-added cs t c keys j h in
      resolve-usernames ss (add_subscriber uri_parse s store) j within
      ∙ ap (λ o. first_of o (searched usernames_of ss j)) one
      ∙ first_of_assoc (resolve cs t j) (if any (λ k. k == j) keys then some c else none)
          (searched usernames_of ss j)

  resolve-identities :
      (ss : List Subscriber) (store : CredentialStore) (j : Text)
      → IsWithin store.credentials store.by_identity
      → let after = add_subscribers uri_parse ss store in
        resolve after.credentials after.by_identity j
        ≡ first_of
            (resolve store.credentials store.by_identity j)
            (searched (identities uri_parse) ss j)
  unfolding add_subscribers add_subscriber
  resolve-identities [] store j h = first_of-none _
  resolve-identities (s ∷ ss) store j h =
      let cs = store.credentials in
      let t = store.by_identity in
      let keys = identities uri_parse s in
      let one = resolve-added cs t (credential_of s) keys j h in
      let rest =
        resolve-identities ss (add_subscriber uri_parse s store) j
          (added-IsWithin cs t (credential_of s) keys h) in
      rest
      ∙ ap (λ o. first_of o (searched (identities uri_parse) ss j)) one
      ∙ first_of_assoc (resolve cs t j)
          (if any (λ k. k == j) keys then some (credential_of s) else none)
          (searched (identities uri_parse) ss j)

  none-IsWithin : IsWithin [] []
  unfolding find
  none-IsWithin j i h = cc

  -- The store that is built from the configured subscribers finds, for a user name and a realm, the
  -- credentials of the first subscriber with one of its names and its realm giving that key, and for
  -- an identity those of the first subscriber that has it, normalized.
  pub find-searched :
      (ss : List Subscriber) (username realm identity : Text)
      → let store = add_subscribers uri_parse ss no_credentials in
        (find_by_username username realm store
          ≡ ok (searched usernames_of ss (make_username_realm_key username realm)))
        × (find_by_identity uri_parse identity store
            ≡ ok (searched (identities uri_parse) ss (normalize_impu_uri uri_parse identity)))
  unfolding find_by_username find_by_identity find
  find-searched ss username realm identity =
      let store = add_subscribers uri_parse ss no_credentials in
      let key = make_username_realm_key username realm in
      let named = resolve-usernames ss no_credentials key none-IsWithin in
      let known =
        resolve-identities ss no_credentials (normalize_impu_uri uri_parse identity)
          none-IsWithin in
      (ground (arith, named), ground (arith, known))
