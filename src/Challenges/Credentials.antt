-- ===== src/Challenges/Credentials.antt =====
-- s-cscf/digest_credential_store.cpp: LocalDigestCredentialStore, which indexes the configured
-- subscribers by the names that they may use.
use sim_ims.Prelude.{
  ℕ, zero, suc, map, ◌||◌, Option, none, some, List, [], ◌∷◌, ◌++◌, is_empty, length, if◌then◌else◌,
}
use sim_ims.Prelude.Text.{Text, codes, text_instance}
use sim_ims.Prelude.Table.{Table, find, insert}
use sim_ims.Common.{Result, ok}
use sim_ims.Uri.Endpoints.{OsipUri, normalize_impu_uri}

pub record DigestCredential : Type 0 where
  pub username : Text
  pub realm : Text
  pub password : Text
  pub impi : Text
  pub impu : Text
  pub associated_impus : List Text

-- The fields of HssSubscriberConfig that the store reads.
pub record Subscriber : Type 0 where
  pub imsi : Text
  pub tel : Text
  pub realm : Text
  pub password : Text

abbrev at_realm : Text → Text → Text
at_realm name realm = name ++ b'@' ∷ realm

unfoldable pub make_impi : Subscriber → Text
make_impi s = at_realm s.imsi s.realm

unfoldable pub make_canonical_impu : Subscriber → Text
make_canonical_impu s = codes "sip:" ++ at_realm s.imsi s.realm

unfoldable pub make_associated_impus : Subscriber → List Text
unfolding make_canonical_impu
make_associated_impus s =
    (codes "tel:" ++ s.tel) ∷ (codes "sip:" ++ at_realm s.tel s.realm) ∷ make_canonical_impu s ∷ []

abbrev pub make_username_realm_key : Text → Text → Text
make_username_realm_key username realm = username ++ b'|' ∷ realm

unfoldable pub credential_of : Subscriber → DigestCredential
unfolding make_impi make_canonical_impu make_associated_impus
credential_of s = record {
  username = make_impi s;
  realm = s.realm;
  password = s.password;
  impi = make_impi s;
  impu = make_canonical_impu s;
  associated_impus = make_associated_impus s;
}

-- std::unordered_map::emplace keeps an entry that is there.
abbrev pub emplace : Table Text ℕ → Text → ℕ → Table Text ℕ
emplace t key index = elim (find t key) [ some i ↦ t | none ↦ insert t key index ]

abbrev pub add_username_alias : Table Text ℕ → Text → Text → ℕ → Table Text ℕ
add_username_alias t username realm index =
    if is_empty username || is_empty realm
    then t
    else emplace t (make_username_realm_key username realm) index

-- The names of a subscriber, in the order in which they are added.
unfoldable pub aliases : Subscriber → List Text
unfolding make_impi
aliases s = make_impi s ∷ s.imsi ∷ s.tel ∷ at_realm s.tel s.realm ∷ []

abbrev pub add_aliases : Table Text ℕ → List Text → Text → ℕ → Table Text ℕ
add_aliases t [] realm index = t
add_aliases t (name ∷ names) realm index =
    add_aliases (add_username_alias t name realm index) names realm index

abbrev pub add_identities : Table Text ℕ → List Text → ℕ → Table Text ℕ
add_identities t [] index = t
add_identities t (i ∷ is) index = add_identities (emplace t i index) is index

pub record CredentialStore : Type 0 where
  pub credentials : List DigestCredential
  pub by_username_realm : Table Text ℕ
  pub by_identity : Table Text ℕ

abbrev pub no_credentials : CredentialStore
no_credentials = record { credentials = []; by_username_realm = []; by_identity = [] }

abbrev pub at_index : ℕ → List DigestCredential → Option DigestCredential
at_index i [] = none
at_index zero (c ∷ cs) = some c
at_index (suc i) (c ∷ cs) = at_index i cs

module _ (uri_parse : Text → Option OsipUri) where
  unfoldable pub identities : Subscriber → List Text
  unfolding make_impi make_canonical_impu make_associated_impus normalize_impu_uri
  identities s =
      map (normalize_impu_uri uri_parse)
        (make_impi s ∷ make_canonical_impu s ∷ make_associated_impus s)

  unfoldable pub add_subscriber : Subscriber → CredentialStore → CredentialStore
  unfolding credential_of aliases identities
  add_subscriber s store =
      let index = length store.credentials in
      record {
        credentials = store.credentials ++ credential_of s ∷ [];
        by_username_realm = add_aliases store.by_username_realm (aliases s) s.realm index;
        by_identity = add_identities store.by_identity (identities s) index;
      }

  -- The constructor's loop over the configured subscribers.
  unfoldable pub add_subscribers : List Subscriber → CredentialStore → CredentialStore
  unfolding add_subscriber
  add_subscribers [] store = store
  add_subscribers (s ∷ ss) store = add_subscribers ss (add_subscriber s store)

  unfoldable pub find_by_identity : Text → CredentialStore → Result (Option DigestCredential)
  unfolding normalize_impu_uri
  find_by_identity identity store =
      elim (find store.by_identity (normalize_impu_uri uri_parse identity)) [
        | none ↦ ok none
        | some i ↦ ok (at_index i store.credentials)
      ]

unfoldable pub find_by_username : Text → Text → CredentialStore → Result (Option DigestCredential)
find_by_username username realm store =
    elim (find store.by_username_realm (make_username_realm_key username realm)) [
      | none ↦ ok none
      | some i ↦ ok (at_index i store.credentials)
    ]
