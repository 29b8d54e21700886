-- ===== src/Store/Memory/Examples.antt =====
-- The registration store on concrete bindings.
use sim_ims.Prelude.{
  is_empty, ℕ, ◌≡◌, ◌≢◌, ◌⊎◌, refl, true, false, some, List, [], ◌∷◌, any, if◌then◌else◌, ◌==◌,
}
use sim_ims.Prelude.Text.{Text, codes, text_instance}
use sim_ims.Prelude.Table.{find, insert}
use sim_ims.Common.{ok}
use sim_ims.Store.{
  ContactBinding, RegistrationBinding, ContactBindingSelector, ContactBatchUpsert, registered,
  not_registered,
}
use sim_ims.Store.Memory.{
  Bindings, Upsert, Call, stores, upserts, upserts_batch, purges, matches_selector,
  upsert_contact_locked, upsert_contact, upsert_contacts, batch_upsert, prune_all, pruned, lookup,
  run,
}
use sim_ims.Store.Memory.Contacts.{contacts_of, Upserted, upsert_contact_locked_lem}
use sim_ims.Store.Memory.Batch.{upsert_contacts-atomic, upsert_contact-touches}
use sim_ims.Store.Memory.Expiry.{lookup-expired}
use sim_ims.Store.Memory.Invariant.{IsWellFormed, run-IsWellFormed}

abbrev contact : ℕ → ℕ → ContactBinding
contact expires cseq = record {
  contact_uri = codes "<sip:ue@10.0.0.2>";
  instance_id = [];
  reg_id = [];
  path = [];
  expires = expires;
  q_value = 1000;
  user_agent = [];
  call_id = codes "c1";
  cseq = cseq;
}

abbrev alice : Text
alice = codes "sip:alice@ims"

abbrev tel : Text
tel = codes "tel:+861"

abbrev binding : Text → List ContactBinding → RegistrationBinding
binding impu cs = record {
  impu = impu;
  impi = codes "alice@ims";
  scscf_uri = codes "sip:scscf";
  contacts = cs;
  state = registered;
}

abbrev by_uri : ContactBindingSelector
by_uri = record { normalized_contact_uri = codes "sip:ue@10.0.0.2"; instance_id = []; reg_id = [] }

abbrev bound : Bindings
bound = (alice, binding alice (contact 50 3 ∷ [])) ∷ []

abbrev refresh : ℕ → Upsert
refresh cseq = record {
  selector = by_uri;
  contact = contact 90 cseq;
  impi = codes "alice@ims";
  scscf_uri = [];
  state = registered;
  require_existing_match = true;
  reject_older_cseq = true;
}

upsert_contact_locked_lem_example :
    Upserted
      (refresh 4)
      (contacts_of (find bound alice))
      (contacts_of (find (upsert_contact_locked alice (refresh 4) bound).1 alice))
      (upsert_contact_locked alice (refresh 4) bound).0
    × ((j : Text)
        → alice ≢ j
        → find (upsert_contact_locked alice (refresh 4) bound).1 j ≡ find bound j)
unfolding matches_selector
upsert_contact_locked_lem_example = upsert_contact_locked_lem alice (refresh 4) bound refl

abbrev batch : ContactBatchUpsert
batch = record {
  impus = alice ∷ tel ∷ [];
  selector = by_uri;
  contact = contact 90 4;
  impi = codes "alice@ims";
  scscf_uri = [];
  state = registered;
  require_existing_match = true;
  reject_older_cseq = true;
}

upsert_contacts-atomic_example :
    let pruned = prune_all 10 batch.impus bound in
    let after = upsert_contacts 10 batch bound in
    ((after.0 ≡ ok 2)
      × ((j : Text)
          → find after.1 j ≡ (
              if any (λ i. i == j) batch.impus
              then find (upsert_contact_locked j (batch_upsert batch) pruned).1 j
              else find pruned j)))
    ⊎ ((after.0 ≡ ok 0) × (after.1 ≡ pruned))
upsert_contacts-atomic_example = upsert_contacts-atomic 10 batch bound (refl, (refl, tt))

abbrev moved : Upsert
moved = record (refresh 4) {
  selector = record by_uri { normalized_contact_uri = codes "sip:ue@10.9.9.9" };
  state = not_registered;
}

upsert_contact-touches_example :
    ((upsert_contact 10 alice moved bound).0 ≡ ok false)
    × (find (upsert_contact 10 alice moved bound).1 alice
        ≡ some (record {
          impu = alice;
          impi = if is_empty moved.impi then (binding alice []).impi else moved.impi;
          scscf_uri =
              if is_empty moved.scscf_uri then (binding alice []).scscf_uri else moved.scscf_uri;
          contacts = contact 50 3 ∷ [];
          state = moved.state;
        }))
unfolding matches_selector pruned find insert
upsert_contact-touches_example =
    upsert_contact-touches 10 alice moved bound (binding alice (contact 50 3 ∷ [])) refl refl refl

abbrev bob : Text
bob = codes "b"

lookup-expired_example :
    (lookup 60 alice
      ((alice, binding alice (contact 50 3 ∷ [])) ∷ (bob, binding bob (contact 90 3 ∷ [])) ∷ [])).0
    ≡ ok (binding bob (contact 90 3 ∷ []))
unfolding find
lookup-expired_example =
    lookup-expired 60 alice bob [] [] (binding alice (contact 50 3 ∷ []))
      (binding bob (contact 90 3 ∷ [])) refl refl

abbrev history : List (ℕ × Call)
history =
    (0, stores (binding alice (contact 50 3 ∷ [])))
    ∷ (10, upserts alice (refresh 4))
    ∷ (20, upserts_batch batch)
    ∷ (95, purges)
    ∷ []

run-IsWellFormed_example : IsWellFormed (run history [])
unfolding find
run-IsWellFormed_example =
    run-IsWellFormed history [] (refl, (tt, (tt, (tt, tt))))
      (record { keyed = tt; own = λ i b h. cc; bound = λ i b h. cc })
