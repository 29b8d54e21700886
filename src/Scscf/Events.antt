-- ===== src/Scscf/Events.antt =====
-- What a subscriber to registration events is answered after a registration.
use sim_ims.Prelude.Text.{Text, text_instance}
use sim_ims.Uri.Endpoints.{normalize_impu_uri}
use sim_ims.Message.{SipMessage}
use sim_ims.Message.Forwarding.{request_uri}
use sim_ims.Store.Memory.{Bindings}
use sim_ims.Registrar.{Registrar, Moment}
use sim_ims.Scscf.{ScscfService}

module _ (s : ScscfService) (at : Moment) (m : SipMessage) (store : Bindings) where
  abbrev pub subscribed_impu : Text
  subscribed_impu = normalize_impu_uri s.uri_parse (request_uri m)
