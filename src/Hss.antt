-- ===== src/Hss.antt =====
-- diameter/types.hpp and diameter/ihss_client.hpp: the requests to the HSS, as an interface over the
-- state `E` of all that is outside the registrar.
use sim_ims.Prelude.{ℕ, List}
use sim_ims.Prelude.Text.{Text}
use sim_ims.Common.{Result}
use sim_ims.Aka.{AuthVector}

pub data AuthType : Type 0 where
  k_registration_type k_de_registration k_registration_and_capabilities : AuthType

pub record UarParams : Type 0 where
  pub impi : Text
  pub impu : Text
  pub visited_network : Text
  pub auth_type : AuthType

pub record UaaResult : Type 0 where
  pub result_code : ℕ
  pub assigned_scscf : Text

pub record MarParams : Type 0 where
  pub impi : Text
  pub impu : Text
  pub sip_auth_scheme : Text
  pub server_name : Text

pub record MaaResult : Type 0 where
  pub result_code : ℕ
  pub sip_auth_scheme : Text
  pub auth_vector : AuthVector

pub data AssignmentType : Type 0 where
  k_no_assignment k_registration k_re_registration k_unregistered_user : AssignmentType
  k_timeout_deregistration k_user_deregistration k_deregistration_too_much_data : AssignmentType
  k_admin_deregistration k_authentication_failure k_authentication_timeout : AssignmentType

pub record SarParams : Type 0 where
  pub impi : Text
  pub impu : Text
  pub server_name : Text
  pub assignment_type : AssignmentType

pub record UserProfile : Type 0 where
  pub impu : Text
  pub associated_impus : List Text

pub record SaaResult : Type 0 where
  pub result_code : ℕ
  pub user_profile : UserProfile

pub record LirParams : Type 0 where
  pub impu : Text

pub record LiaResult : Type 0 where
  pub result_code : ℕ
  pub assigned_scscf : Text

pub record HssClient {ℓ} (E : Type ℓ) : Type ℓ where
  pub user_authorization : UarParams → E → Result UaaResult × E
  pub multimedia_auth : MarParams → E → Result MaaResult × E
  pub server_assignment : SarParams → E → Result SaaResult × E
  pub location_info : LirParams → E → Result LiaResult × E
