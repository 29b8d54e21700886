-- ===== src/Registrar/Removed.antt =====
-- What a deregistration leaves in the store.
use sim_ims.Prelude.{
  ℕ, ◌≡◌, refl, inl, inr, true, List, [], any, erase_if, if◌then◌else◌, ◌==◌, Bool-cases,
}
use sim_ims.Prelude.Text.{Text, codes, text_instance}
use sim_ims.Prelude.Table.{find}
use sim_ims.Message.{SipMessage}
use sim_ims.Message.Headers.{contact, add_header}
use sim_ims.Message.Forwarding.{sent, with_headers}
use sim_ims.Store.{ContactBatchRemove}
use sim_ims.Store.Memory.{
  Bindings, is_removed, batch_removal, remove_contacts, remove_bindings, prune_all,
}
use sim_ims.Store.Memory.Expiry.{live, find-prune_all}
use sim_ims.Store.Memory.Contacts.{contacts_of}
use sim_ims.Store.Memory.Found.{contacts-remove_each, find-erase_each}
use sim_ims.Hss.{k_user_deregistration}
use sim_ims.Registrar.{Registrar, Moment, make_impu_set, is_deregister, extract_impi, extract_impu}
use sim_ims.Registrar.Handlers.{
  reply, associated, sar_for, is_specific, removal_of, handle_deregister, handle_register,
}
use sim_ims.Registrar.Answered.{HasNumber}
use sim_ims.Registrar.Paths.{handle_register-deregisters}

contacts-remove_contacts :
    (now : ℕ) (batch : ContactBatchRemove) (s : Bindings) (j : Text)
    → contacts_of (find (remove_contacts now batch s).1 j) ≡ (
        if any (λ i. i == j) batch.impus
        then erase_if (is_removed (batch_removal batch)) (contacts_of (live now (find s j)))
        else contacts_of (find s j))
unfolding remove_contacts
contacts-remove_contacts now batch s j =
    let pruned = prune_all now batch.impus s in
    let removed = contacts-remove_each (batch_removal batch) batch.impus 0 pruned j in
    let seen = find-prune_all now batch.impus j s in
    elim (Bool-cases (any (λ i. i == j) batch.impus)) [
      | inl e ↦ rw (removed, e) (rw (seen, e) refl)
      | inr e ↦ rw (removed, e) (rw (seen, e) refl)
    ]

contacts-remove_bindings :
    (is : List Text) (s : Bindings) (j : Text)
    → contacts_of (find (remove_bindings is s).1 j)
      ≡ (if any (λ i. i == j) is then [] else contacts_of (find s j))
unfolding remove_bindings
contacts-remove_bindings is s j =
    let gone = find-erase_each is 0 s j in
    elim (Bool-cases (any (λ i. i == j) is)) [
      | inl e ↦ rw (gone, e) refl
      | inr e ↦ rw (gone, e) refl
    ]

module _ {ℓ} {E : Type ℓ} (r : Registrar E) (at : Moment) (m : SipMessage) (e : E) where
  -- The IMPUs that a deregistration is for: the request's, and those of the HSS's answer.
  abbrev pub deregistered_impus : List Text
  deregistered_impus =
      let impu = extract_impu r.uri_parse m in
      let impi = extract_impi r.uri_parse r.osip m in
      make_impu_set
        (associated (r.hss.server_assignment (sar_for r at impi impu k_user_deregistration) e).0)
        impu

  -- A deregistration whose CSeq is missing or has a number is answered 200, whatever the HSS answers, if
  -- the message can be created. Of each IMPU it is for, it removes the
  -- expired contacts and those that the request's Contact selects, but for newer ones of its Call-ID,
  -- or all contacts if the Contact is `*` or missing; it leaves the contacts of every other IMPU.
  pub handle_register-removed :
      (s : Bindings) (j : Text)
      → HasNumber m
      → is_deregister r.osip m ≡ true
      → let after = handle_register r at m s e in
        (after.responses
          ≡ sent (with_headers (add_header (codes "Date") at.date) (reply r at m 200 (codes "OK"))))
        × (contacts_of (find after.store j) ≡ (
            if any (λ i. i == j) deregistered_impus
            then (if is_specific r at (contact m)
                then erase_if
                    (is_removed (batch_removal (removal_of r at m deregistered_impus)))
                    (contacts_of (live at.now (find s j)))
                else [])
            else contacts_of (find s j)))
  unfolding handle_deregister
  handle_register-removed s j number d = rw (handle_register-deregisters r at m s e d) (
    elim (Bool-cases (is_specific r at (contact m))) [
      | inl q ↦ rw (handle_deregister, q, number) refl
      | inr q ↦ rw (handle_deregister, q) refl
    ],
    elim (Bool-cases (is_specific r at (contact m))) [
      | inl q ↦
          rw (handle_deregister, q, number)
            (contacts-remove_contacts at.now (removal_of r at m deregistered_impus) s j)
      | inr q ↦ rw (handle_deregister, q) (contacts-remove_bindings deregistered_impus s j)
    ],
  )
