-- ===== src/Auth/Answer.antt =====
-- The verification of an Authorization header, from its text.
use sim_ims.Prelude.Text.{Text, text_instance}
