-- ===== src/Registrar.antt =====
-- s-cscf/registrar.cpp, i_auth_provider.hpp: the registrar of the S-CSCF. Its answers, its store and
-- the state `E` of the providers and the HSS are passed from call to call.
pub mod Handlers
pub mod Selector
pub mod Paths
pub mod Registered
pub mod Removed
pub mod Answered
pub mod Refused
pub mod Refreshed
pub mod Sample
pub mod Examples
use sim_ims.Prelude.{
  ℕ, ◌+◌, Bool, true, false, not, ◌&&◌, ◌||◌, Option, none, some, List, [], ◌∷◌, ◌++◌, ltb, eqb,
  any, find_if, is_empty, if◌then◌else◌, ◌==◌,
}
use sim_ims.Prelude.Text.{Text, codes, text_instance}
use sim_ims.Common.{Result, ok, err, VoidResult}
use sim_ims.Uri.{extract_uri_from_name_addr}
use sim_ims.Uri.Endpoints.{OsipUri, normalize_impu_uri}
use sim_ims.Bencode.{decimal}
use sim_ims.Auth.{parse_digest_authorization}
use sim_ims.Message.{SipMessage}
use sim_ims.Message.Headers.{
  Osip, front, get_header, get_headers, expires_value, contact_expires, contact_param, contact,
  is_wildcard_contact, cseq_number, add_header, set_contact, to_uri,
  impi_from_authorization_or_from,
}
use sim_ims.Store.{
  ContactBinding, RegistrationBinding, ContactBindingSelector, uses_instance_and_reg_id,
}
use sim_ims.Hss.{HssClient}

pub record AuthChallenge : Type 0 where
  pub session_key : Text
  pub impi : Text
  pub impu : Text
  pub scheme : Text
  pub realm : Text
  pub www_authenticate : Text

pub record AuthVerificationResult : Type 0 where
  pub session_key : Text
  pub impi : Text
  pub impu : Text
  pub scheme : Text

pub record AuthProvider {ℓ} (E : Type ℓ) : Type ℓ where
  pub can_handle_initial_register : SipMessage → E → Bool × E
  pub can_handle_authorization : SipMessage → E → Bool × E
  pub create_challenge : SipMessage → E → Result AuthChallenge × E
  pub verify_authorization : SipMessage → E → Result AuthVerificationResult × E

pub record Registrar {ℓ} (E : Type ℓ) : Type ℓ where
  pub osip : Osip
  pub uri_parse : Text → Option OsipUri
  pub providers : List (AuthProvider E)
  pub hss : HssClient E
  pub domain : Text

-- What a call reads from outside: the clock, the date as text, what SipMessage::create returns for the
-- response, and what the response's To gets.
pub record Moment : Type 0 where
  pub now : ℕ
  pub date : Text
  pub created : VoidResult
  pub tag : Text
  pub tagged_to : Text

-- `thrown` where the call is left by the exception of a CSeq that is no number.
pub record RegisterOutcome {ℓ} (E : Type ℓ) : Type ℓ where
  pub responses : List SipMessage
  pub store : List (Text × RegistrationBinding)
  pub env : E
  pub thrown : Bool

-- An unordered_set, in one of its orders.
unfoldable pub make_impu_set : List Text → Text → List Text
make_impu_set [] primary_impu = primary_impu ∷ []
make_impu_set (i ∷ is) primary_impu =
    let rest = make_impu_set is primary_impu in if any (λ j. j == i) rest then rest else i ∷ rest

abbrev pub value_or : Option Text → Text → Text
value_or none d = d
value_or (some t) d = t

abbrev pub clear_unless_both : ContactBindingSelector → ContactBindingSelector
clear_unless_both full =
    if uses_instance_and_reg_id full then full else record full { instance_id = []; reg_id = [] }

abbrev pub normalized_or_empty : Option Text → Text
normalized_or_empty none = []
normalized_or_empty (some c) = extract_uri_from_name_addr c

unfoldable pub make_contact_selector : SipMessage → Option Text → ContactBindingSelector
unfolding contact_param uses_instance_and_reg_id extract_uri_from_name_addr
make_contact_selector m uri = clear_unless_both (record {
  normalized_contact_uri = normalized_or_empty uri;
  instance_id = value_or (contact_param (codes "+sip.instance") 0 m) [];
  reg_id = value_or (contact_param (codes "reg-id") 0 m) [];
})

-- The empty contact stands for no previous one.
abbrev no_contact : ContactBinding
no_contact = record {
  contact_uri = [];
  instance_id = [];
  reg_id = [];
  path = [];
  expires = 0;
  q_value = 1000;
  user_agent = [];
  call_id = [];
  cseq = 0;
}

abbrev pub contact_or_empty : Option ContactBinding → ContactBinding
contact_or_empty none = no_contact
contact_or_empty (some c) = c

-- The handlers call it where there is a number.
abbrev pub number_or_0 : Option ℕ → ℕ
number_or_0 none = 0
number_or_0 (some n) = n

module _ (o : Osip) where
  unfoldable pub determine_register_expires : SipMessage → ℕ
  unfolding contact_expires expires_value
  determine_register_expires m = elim (contact_expires 0 m) [
    | some n ↦ n
    | none ↦ elim (expires_value o m) [ some n ↦ n | none ↦ 3600 ]
  ]

  unfoldable pub make_contact_binding :
      ℕ → SipMessage → Option Text → ℕ → Option ContactBinding → ContactBinding
  unfolding get_header get_headers contact_param cseq_number
  make_contact_binding now m uri expires previous =
      let old = contact_or_empty previous in
      record {
        contact_uri = value_or uri old.contact_uri;
        instance_id = value_or (contact_param (codes "+sip.instance") 0 m) old.instance_id;
        reg_id = value_or (contact_param (codes "reg-id") 0 m) old.reg_id;
        path = value_or (front (get_headers o (codes "Path") m)) old.path;
        expires = now + expires;
        q_value = 1000;
        user_agent = value_or (get_header o (codes "User-Agent") m) old.user_agent;
        call_id = m.call_id;
        cseq = number_or_0 (cseq_number m);
      }

  unfoldable pub is_deregister : SipMessage → Bool
  unfolding expires_value is_wildcard_contact contact_expires
  is_deregister m =
      elim (expires_value o m) [ none ↦ false | some n ↦ eqb n 0 ]
      || is_wildcard_contact m
      || elim (contact_expires 0 m) [ none ↦ false | some n ↦ eqb n 0 ]

  unfoldable pub has_authorization : SipMessage → Bool
  unfolding get_header parse_digest_authorization
  has_authorization m = elim (get_header o (codes "Authorization") m) [
    | none ↦ false
    | some header ↦ elim (parse_digest_authorization header) [
      | err e ↦ false
      | ok f ↦ not (is_empty f.nonce) && not (is_empty f.response)
    ]
  ]

  abbrev pub add_security : Bool → List Text → SipMessage → SipMessage
  add_security final [] m = m
  add_security final (t ∷ ts) m =
      let served = add_header (codes "Security-Server") t m in
      add_security final ts
        (if final then add_header (codes "Security-Verify") t served else served)

  unfoldable pub add_security_agreement_headers : SipMessage → Bool → SipMessage → SipMessage
  unfolding get_headers add_header
  add_security_agreement_headers m final resp =
      add_security final (get_headers o (codes "Security-Client") m) resp

  abbrev pub add_associated : List Text → SipMessage → SipMessage
  add_associated [] m = m
  add_associated (i ∷ is) m =
      add_associated is (add_header (codes "P-Associated-URI") (b'<' ∷ i ++ b'>' ∷ []) m)

  abbrev pub with_contact : Option Text → SipMessage → SipMessage
  with_contact none m = m
  with_contact (some c) m = set_contact o c m

-- An IMPI or IMPU that a message names, or else a header.
module _ (uri_parse : Text → Option OsipUri) where
  unfoldable pub extract_impi : Osip → SipMessage → Text
  unfolding impi_from_authorization_or_from normalize_impu_uri
  extract_impi o m =
      normalize_impu_uri uri_parse (value_or (impi_from_authorization_or_from o m) m.from_header)

  unfoldable pub extract_impu : SipMessage → Text
  unfolding to_uri normalize_impu_uri
  extract_impu m = normalize_impu_uri uri_parse (value_or (to_uri m) m.to_header)
