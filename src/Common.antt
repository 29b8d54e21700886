-- ===== src/Common.antt =====
-- common/types.hpp: error codes, and `Result`, the std::expected of the program.
use sim_ims.Prelude.{Bool, true, false}
use sim_ims.Prelude.Text.{Text}

pub data ErrorCode : Type 0 where
  k_ok : ErrorCode
  k_config_file_not_found k_config_parse_error k_config_invalid_value : ErrorCode
  k_sip_parse_error k_sip_transaction_failed k_sip_transport_error : ErrorCode
  k_sip_timeout k_sip_dialog_not_found : ErrorCode
  k_diameter_connect_failed k_diameter_timeout k_diameter_auth_failed : ErrorCode
  k_diameter_user_not_found : ErrorCode
  k_dns_resolve_failed k_dns_timeout k_dns_no_records : ErrorCode
  k_media_rtpengine_error k_media_sdp_error : ErrorCode
  k_registration_not_found k_registration_expired : ErrorCode
  k_internal_error k_not_implemented : ErrorCode

pub record ErrorInfo : Type 0 where
  pub code : ErrorCode
  pub message : Text
  pub detail : Text

pub data Result {ℓ} (A : Type ℓ) : Type ℓ where
  ok : A → Result A
  err : ErrorInfo → Result A

infixl 5 ◌>>=◌
abbrev pub ◌>>=◌ {ℓ κ} : {A : Type ℓ} {B : Type κ} → Result A → (A → Result B) → Result B
ok a >>= f = f a
err e >>= f = err e

abbrev pub VoidResult : Type 0
VoidResult = Result (Unit {0})

abbrev pub is_ok {ℓ} : {A : Type ℓ} → Result A → Bool
is_ok (ok a) = true
is_ok (err e) = false
