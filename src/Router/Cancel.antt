-- ===== src/Router/Cancel.antt =====
-- A CANCEL that crosses the 2xx answer of its INVITE: what becomes of the dialog.
use sim_ims.Prelude.Text.{Text, text_instance}
use sim_ims.Router.{dialog_key_eq}
