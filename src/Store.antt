-- ===== src/Store.antt =====
-- sip/store.hpp: registration bindings, selectors and batches. The in-memory store is in `Memory`.
pub mod Memory
use sim_ims.Prelude.{ℕ, Bool, true, false, not, ◌&&◌, List, ltb, filter, is_empty}
use sim_ims.Prelude.Text.{Text}

pub record ContactBinding : Type 0 where
  pub contact_uri : Text
  pub instance_id : Text
  pub reg_id : Text
  pub path : Text
  pub expires : ℕ
  pub q_value : ℕ
  pub user_agent : Text
  pub call_id : Text
  pub cseq : ℕ

pub data State : Type 0 where
  registered unregistered not_registered : State

pub record RegistrationBinding : Type 0 where
  pub impu : Text
  pub impi : Text
  pub scscf_uri : Text
  pub contacts : List ContactBinding
  pub state : State

unfoldable pub active_contacts : ℕ → RegistrationBinding → List ContactBinding
active_contacts now b = filter (λ c. ltb now c.expires) b.contacts

pub record ContactBindingSelector : Type 0 where
  pub normalized_contact_uri : Text
  pub instance_id : Text
  pub reg_id : Text

unfoldable pub uses_instance_and_reg_id : ContactBindingSelector → Bool
uses_instance_and_reg_id sel = not (is_empty sel.instance_id) && not (is_empty sel.reg_id)

-- `impus` is an unordered_set: a list of distinct texts, in the order of iteration.
pub record ContactBatchUpsert : Type 0 where
  pub impus : List Text
  pub selector : ContactBindingSelector
  pub contact : ContactBinding
  pub impi : Text
  pub scscf_uri : Text
  pub state : State
  pub require_existing_match : Bool
  pub reject_older_cseq : Bool

pub record ContactBatchRemove : Type 0 where
  pub impus : List Text
  pub selector : ContactBindingSelector
  pub call_id : Text
  pub cseq : ℕ
  pub reject_older_cseq : Bool
