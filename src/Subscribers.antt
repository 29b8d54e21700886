-- ===== src/Subscribers.antt =====
-- db/mongo_subscriber_repository.cpp, its searches, and diameter/mongo_hss_client.cpp, the answers to
-- UAR, SAR and LIR. The MongoDB collection is an interface over its state `D`.
pub mod Assigned
use sim_ims.Prelude.{
  ℕ, Bool, true, false, ◌&&◌, ◌||◌, Option, none, some, List, [], ◌∷◌, ◌++◌, any, is_empty, drop,
  take, if◌then◌else◌, ◌==◌,
}
use sim_ims.Prelude.Text.{Text, codes, starts_with, find_byte, text_instance}
use sim_ims.Common.{Result, ok, err, ErrorInfo, VoidResult, k_diameter_user_not_found, ◌>>=◌}
use sim_ims.Uri.Endpoints.{OsipUri, normalize_impu_uri}
use sim_ims.Hss.{UarParams, UaaResult, SarParams, SaaResult, LirParams, LiaResult, UserProfile}

-- db/subscriber_repository.hpp; the fields that these answers read
pub record Subscription : Type 0 where
  pub impi : Text
  pub canonical_impu : Text
  pub associated_impus : List Text
  pub assigned_scscf : Text

pub data Field : Type 0 where
  by_imsi by_tel : Field

-- mongoc_collection_find_with_opts of one field, with decodeSubscriber, and
-- mongoc_collection_update_one of serving.assigned_scscf where the IMSI is the one given.
pub record Database {ℓ} (D : Type ℓ) : Type ℓ where
  pub find_one_by_field : Field → Text → D → Result (Option Subscription)
  pub update_serving : Text → Text → D → VoidResult × D

abbrev pub add_unique_candidate : List Text → Text → List Text
add_unique_candidate candidates value =
    if is_empty value || any (λ c. c == value) candidates
    then candidates
    else candidates ++ value ∷ []

abbrev pub strip_scheme : Text → Text
strip_scheme value =
    if starts_with value (codes "sip:")
    then drop 4 value
    else if starts_with value (codes "sips:")
    then drop 5 value
    else if starts_with value (codes "tel:")
    then drop 4 value
    else value

-- value.substr(0, value.find(c)), where it is found
abbrev pub up_to : ℕ → Text → Text
up_to c value = elim (find_byte c value) [ none ↦ value | some i ↦ take i value ]

unfoldable pub user_part : Text → Text
user_part value = up_to b'@' (up_to b';' (strip_scheme value))

-- The numbers to look for, as IMSIs and as telephone numbers.
pub record Candidates : Type 0 where
  pub imsis : List Text
  pub tels : List Text

abbrev pub non_empty_or : Text → Text → Text
non_empty_or t d = if is_empty t then d else t

module _ (uri_parse : Text → Option OsipUri) where
  unfoldable pub identity_candidates : Text → Candidates
  unfolding normalize_impu_uri user_part
  identity_candidates identity =
      let value = non_empty_or (normalize_impu_uri uri_parse identity) identity in
      let user = user_part value in
      if is_empty identity
      then record { imsis = []; tels = [] }
      else if starts_with value (codes "tel:") || starts_with user (codes "+")
      then record { imsis = []; tels = add_unique_candidate [] user }
      else record { imsis = add_unique_candidate [] user; tels = [] }

  unfoldable pub private_identity_imsi : Text → Option Text
  unfolding normalize_impu_uri user_part
  private_identity_imsi impi =
      let user = non_empty_or (user_part (normalize_impu_uri uri_parse impi)) (user_part impi) in
      if is_empty impi || is_empty user then none else some user

  abbrev add_all : List Text → List Text → List Text
  add_all cs [] = cs
  add_all cs (v ∷ vs) = add_all (add_unique_candidate cs v) vs

  unfoldable pub both_candidates : Text → Text → Candidates
  unfolding identity_candidates private_identity_imsi
  both_candidates impi impu =
      let own : List Text = elim (private_identity_imsi impi) [
        | none ↦ []
        | some i ↦ add_unique_candidate [] i
      ] in
      let public = identity_candidates impu in
      if is_empty impu
      then record { imsis = own; tels = [] }
      else record { imsis = add_all own public.imsis; tels = add_all [] public.tels }

  module _ {ℓ} {D : Type ℓ} (db : Database D) where
    -- The first value that finds a document, or an error.
    unfoldable pub find_first : Field → List Text → D → Result (Option Subscription)
    find_first field [] d = ok none
    find_first field (v ∷ vs) d =
        let rest = find_first field vs d in
        elim (db.find_one_by_field field v d) [
          | err x ↦ err x
          | ok found ↦ elim found [ some s ↦ ok (some s) | none ↦ rest ]
        ]

    unfoldable pub find_one_by_imsi_or_tel : Candidates → D → Result (Option Subscription)
    unfolding find_first
    find_one_by_imsi_or_tel c d = elim (find_first by_imsi c.imsis d) [
      | err x ↦ err x
      | ok found ↦ elim found [ some s ↦ ok (some s) | none ↦ find_first by_tel c.tels d ]
    ]

    unfoldable pub find_by_impi_or_impu : Text → Text → D → Result (Option Subscription)
    unfolding both_candidates find_one_by_imsi_or_tel
    find_by_impi_or_impu impi impu d = find_one_by_imsi_or_tel (both_candidates impi impu) d

    unfoldable pub find_by_public_identity : Text → D → Result (Option Subscription)
    unfolding identity_candidates find_one_by_imsi_or_tel
    find_by_public_identity identity d = find_one_by_imsi_or_tel (identity_candidates identity) d

    unfoldable pub set_serving_scscf : Text → Text → D → VoidResult × D
    unfolding private_identity_imsi
    set_serving_scscf impi scscf_uri d =
        db.update_serving (elim (private_identity_imsi impi) [ none ↦ impi | some imsi ↦ imsi ])
          scscf_uri d

    abbrev pub user_not_found : Text → Text → ErrorInfo
    user_not_found message detail = record {
      code = k_diameter_user_not_found;
      message = message;
      detail = detail;
    }

    abbrev pub found_or : ErrorInfo → Result (Option Subscription) → Result Subscription
    found_or x (err y) = err y
    found_or x (ok none) = err x
    found_or x (ok (some s)) = ok s

    abbrev both : Text → Text → Text
    both impi impu = codes "IMPI=" ++ impi ++ codes " IMPU=" ++ impu

    -- `default_scscf` is config_.default_scscf_uri.
    abbrev pub resolve_assigned_scscf : Text → Subscription → Text
    resolve_assigned_scscf default_scscf s = non_empty_or s.assigned_scscf default_scscf

    unfoldable pub user_authorization : Text → UarParams → D → Result UaaResult
    unfolding find_by_impi_or_impu normalize_impu_uri
    user_authorization default_scscf p d =
        found_or (user_not_found (codes "Subscriber not found for UAR") (both p.impi p.impu))
          (find_by_impi_or_impu p.impi (normalize_impu_uri uri_parse p.impu) d)
        >>= λ s.
            ok
              record { result_code = 2001; assigned_scscf = resolve_assigned_scscf default_scscf s }

    abbrev profile_of : Subscription → SaaResult
    profile_of s = record {
      result_code = 2001;
      user_profile = record { impu = s.canonical_impu; associated_impus = s.associated_impus };
    }

    abbrev pub after_set : Subscription → VoidResult × D → Result SaaResult × D
    after_set s (err x, d) = (err x, d)
    after_set s (ok u, d) = (ok (profile_of s), d)

    abbrev assign : Text → Result Subscription → D → Result SaaResult × D
    assign server_name (err x) d = (err x, d)
    assign server_name (ok s) d = after_set s (set_serving_scscf s.impi server_name d)

    unfoldable pub server_assignment : SarParams → D → Result SaaResult × D
    unfolding find_by_impi_or_impu set_serving_scscf normalize_impu_uri
    server_assignment p d =
        assign p.server_name
          (found_or (user_not_found (codes "Subscriber not found for SAR") (both p.impi p.impu))
            (find_by_impi_or_impu p.impi (normalize_impu_uri uri_parse p.impu) d))
          d

    unfoldable pub location_info : Text → LirParams → D → Result LiaResult
    unfolding find_by_public_identity normalize_impu_uri
    location_info default_scscf p d =
        found_or (user_not_found (codes "Subscriber not found for LIR") p.impu)
          (find_by_public_identity (normalize_impu_uri uri_parse p.impu) d)
        >>= λ s.
            ok
              record { result_code = 2001; assigned_scscf = resolve_assigned_scscf default_scscf s }
