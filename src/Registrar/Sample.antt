-- ===== src/Registrar/Sample.antt =====
-- A registrar with one provider, its requests and a store.
use sim_ims.Prelude.{ℕ, true, Option, none, some, [], ◌∷◌, find_if, if◌then◌else◌, ◌==◌}
use sim_ims.Prelude.Text.{Text, codes, text_instance}
use sim_ims.Common.{ok, err, ErrorInfo, k_diameter_auth_failed}
use sim_ims.Uri.{lowercase}
use sim_ims.Uri.Endpoints.{OsipUri}
use sim_ims.Message.{SipMessage, Header, request}
use sim_ims.Message.Headers.{Osip}
use sim_ims.Transaction.Examples.{call}
use sim_ims.Hss.{HssClient, SaaResult}
use sim_ims.Store.{RegistrationBinding, ContactBinding, registered}
use sim_ims.Store.Memory.{Bindings}
use sim_ims.Registrar.{Registrar, Moment, AuthProvider, AuthVerificationResult}

abbrev pub alice : Text
alice = codes "sip:alice@ims"

abbrev pub private_id : Text
private_id = codes "alice@ims"

abbrev pub osip : Osip
osip = record {
  header_from = λ name hs. find_if (λ (h : Header). lowercase h.name == lowercase name) hs;
  contact_parse = λ text. some record { text = text; url = some text; params = λ key. none };
}

abbrev pub denial : ErrorInfo
denial = record { code = k_diameter_auth_failed; message = codes "failed"; detail = [] }

-- A provider that verifies a REGISTER with one Call-ID and no other.
abbrev pub provider : AuthProvider (Unit {0})
provider = record {
  can_handle_initial_register = λ m e. (true, e);
  can_handle_authorization = λ m e. (true, e);
  create_challenge = λ m e. (
    ok record {
      session_key = m.call_id;
      impi = private_id;
      impu = alice;
      scheme = codes "Digest-MD5";
      realm = codes "ims";
      www_authenticate = codes "Digest realm=\"ims\"";
    },
    e,
  );
  verify_authorization = λ m e. (
    if m.call_id == codes "c"
        then ok record {
          session_key = m.call_id;
          impi = private_id;
          impu = alice;
          scheme = codes "Digest-MD5";
        }
        else err denial,
    e,
  );
}

abbrev pub profile : SaaResult
profile = record {
  result_code = 2001;
  user_profile = record { impu = alice; associated_impus = alice ∷ codes "tel:+861" ∷ [] };
}

abbrev pub hss : HssClient (Unit {0})
hss = record {
  user_authorization = λ p e. (err denial, e);
  multimedia_auth = λ p e. (err denial, e);
  server_assignment = λ p e. (ok profile, e);
  location_info = λ p e. (err denial, e);
}

abbrev pub uri_parse : Text → Option OsipUri
uri_parse text = none

abbrev pub registrar : Registrar (Unit {0})
registrar = record {
  osip = osip;
  uri_parse = uri_parse;
  providers = provider ∷ [];
  hss = hss;
  domain = codes "ims";
}

abbrev pub at : ℕ → Moment
at now = record {
  now = now;
  date = codes "d";
  created = ok tt;
  tag = codes "t";
  tagged_to = codes "b;tag=t";
}

abbrev pub register : Text → SipMessage
register expires = record call {
  start = request (codes "REGISTER") (codes "sip:ims");
  to_url = some alice;
  contacts =
      record {
        text = codes "<sip:ue@10.0.0.2>";
        url = some (codes "sip:ue@10.0.0.2");
        params = λ key. none;
      }
      ∷ [];
  headers = record { name = codes "expires"; value = some expires } ∷ [];
  authorizations = codes "Digest username=\"alice@ims\",nonce=\"n\",response=\"r\"" ∷ [];
}

abbrev pub first : SipMessage
first = register (codes "600")

abbrev pub verified : AuthVerificationResult
verified = record {
  session_key = codes "c";
  impi = private_id;
  impu = alice;
  scheme = codes "Digest-MD5";
}

-- The credentials of another call.
abbrev pub other : SipMessage
other = record first { call_id = codes "x" }

abbrev pub leaving : SipMessage
leaving = register (codes "0")

abbrev pub bound_contact : ContactBinding
bound_contact = record {
  contact_uri = codes "<sip:ue@10.0.0.2>";
  instance_id = [];
  reg_id = [];
  path = [];
  expires = 50;
  q_value = 1000;
  user_agent = [];
  call_id = codes "c";
  cseq = 0;
}

abbrev pub binding : Text → RegistrationBinding
binding impu = record {
  impu = impu;
  impi = private_id;
  scscf_uri = codes "sip:scscf.ims";
  contacts = bound_contact ∷ [];
  state = registered;
}

abbrev pub tel : Text
tel = codes "tel:+861"

abbrev pub bound : Bindings
bound = (alice, binding alice) ∷ (tel, binding tel) ∷ []
