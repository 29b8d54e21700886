-- ===== src/Media/Unique.antt =====
-- Lookup by Call-ID alone.
use sim_ims.Prelude.{◌≡◌, ◌⊎◌, inl, Option, none, some, [], ◌∷◌, arith}
use sim_ims.Prelude.Text.{Text, text_instance, text_eq_iff}
use sim_ims.Prelude.Table.{find, IsKeyed}
use sim_ims.Media.{
  key_instance, key_eq_iff, Sessions, Entry, find_unique_from, find_unique_by_call_id_locked,
}

from-find :
    (call_id : Text) (found : Option Entry) (s : Sessions) (e : Entry)
    → IsKeyed s
    → find_unique_from call_id found s ≡ some e
    → (found ≡ some e) ⊎ ((find s e.0 ≡ some e.1) × (e.0.call_id ≡ call_id))
unfolding find_unique_from find
from-find call_id found [] e h q = inl q
from-find call_id none ((k, st) ∷ s) e h q = ground (
  arith,
  from-find call_id none s e h.1,
  from-find call_id (some (k, st)) s e h.1,
  text_eq_iff k.call_id call_id,
  key_eq_iff k e.0,
)
from-find call_id (some d) ((k, st) ∷ s) e h q =
    ground
      (arith, from-find call_id (some d) s e h.1, text_eq_iff k.call_id call_id, key_eq_iff k e.0)

-- What the lookup by Call-ID returns is what the table holds at its key, and is of that call.
pub find_unique-find :
    (call_id : Text) (s : Sessions) (e : Entry)
    → IsKeyed s
    → find_unique_by_call_id_locked call_id s ≡ some e
    → (find s e.0 ≡ some e.1) × (e.0.call_id ≡ call_id)
unfolding find_unique_by_call_id_locked
find_unique-find call_id s e h q = ground (arith, from-find call_id none s e h q)
