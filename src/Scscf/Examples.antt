-- ===== src/Scscf/Examples.antt =====
-- A subscription to the registration events of a registered user.
use sim_ims.Prelude.{ℕ, ◌≡◌, refl, some, [], ◌∷◌}
use sim_ims.Prelude.Text.{codes}
use sim_ims.Uri.{to_lower, extract_uri_from_name_addr}
use sim_ims.Uri.Endpoints.{normalize_impu_uri}
use sim_ims.Message.{SipMessage, request}
use sim_ims.Transaction.Examples.{call}
use sim_ims.Registrar.Sample.{osip, uri_parse, first, alice}
use sim_ims.Scscf.{ScscfService, build_auth_providers}

abbrev service : ScscfService
service = record {
  osip = osip;
  uri_parse = uri_parse;
  domain = codes "ims";
  listen_addr = codes "h";
  listen_port = 5062;
  exosip_port = 5070;
}

abbrev subscribe : SipMessage
subscribe = record call {
  start = request (codes "SUBSCRIBE") alice;
  contacts = first.contacts;
  headers = record { name = codes "event"; value = some (codes "reg") } ∷ [];
}

impu-subscribe : normalize_impu_uri uri_parse alice ≡ alice
unfolding normalize_impu_uri to_lower extract_uri_from_name_addr
impu-subscribe = refl

modes : build_auth_providers {P = ℕ} (codes "hybrid_fallback") 1 (some 2) ≡ 1 ∷ 2 ∷ []
unfolding build_auth_providers
modes = refl
