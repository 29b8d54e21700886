-- ===== src/Registrar/Examples.antt =====
-- A registration, its refresh, a refused one and a deregistration.
use sim_ims.Prelude.{
  ◌≡◌, refl, true, false, none, some, [], ◌∷◌, arith, find_if, ◌⊎◌, ◌&&◌, any, erase_if,
  if◌then◌else◌, ◌==◌,
}
use sim_ims.Prelude.Text.{Text, codes, text_instance}
use sim_ims.Prelude.Table.{find, insert}
use sim_ims.Common.{ok}
use sim_ims.Message.Headers.{cseq_number, header_values, contact, add_header}
use sim_ims.Message.Forwarding.{sent, with_headers}
use sim_ims.Uri.{to_lower, extract_uri_from_name_addr}
use sim_ims.Store.{RegistrationBinding}
use sim_ims.Store.Memory.{
  prune_expired_locked, pruned, next_after, lookup, batch_upsert, batch_removal, is_removed,
  matches_selector, prune_all,
}
use sim_ims.Registrar.Sample.{
  alice, osip, provider, profile, uri_parse, registrar, at, first, verified, other, leaving,
  bound_contact, binding, bound,
}
use sim_ims.Registrar.{
  is_deregister, has_authorization, determine_register_expires, make_contact_selector,
  make_impu_set, extract_impu,
}
use sim_ims.Registrar.Handlers.{
  handle_register, try_handle_reregister, select_provider, select_provider_for_authorization,
  new_batch, new_contact, register_ok, reply, is_specific, removal_of, existing_contact,
  refresh_impus,
}
use sim_ims.Registrar.Registered.{selected, handle_register-lookup}
use sim_ims.Store.Memory.Expiry.{live}
use sim_ims.Store.Memory.Contacts.{upserted, contacts_of}
use sim_ims.Store.Memory.Batch.{can_write}
use sim_ims.Registrar.Paths.{looked_up}
use sim_ims.Registrar.Removed.{deregistered_impus, handle_register-removed}
use sim_ims.Registrar.Answered.{
  HasNumber, IsAnswered, is_register_code, is_refusal, handle_register-IsAnswered,
}
use sim_ims.Registrar.Refused.{is_verified, handle_register-unverified}
use sim_ims.Registrar.Refreshed.{refresh, handle_register-refreshed}

pub first-HasNumber : HasNumber first
unfolding cseq_number
first-HasNumber = refl

leaving-HasNumber : HasNumber leaving
unfolding cseq_number
leaving-HasNumber = refl

pub first-is_deregister : is_deregister osip first ≡ false
unfolding is_deregister to_lower header_values
first-is_deregister = refl

pub first-try : (try_handle_reregister registrar (at 0) first [] tt).0 ≡ none
unfolding try_handle_reregister find to_lower header_values
first-try = refl

pub first-has_authorization : has_authorization osip first ≡ true
unfolding has_authorization to_lower header_values
first-has_authorization = refl

pub first-select : select_provider_for_authorization registrar (at 0) first tt ≡ (some provider, tt)
unfolding select_provider
first-select = refl

pub first-newer :
    upserted
      (batch_upsert (new_batch registrar (at 0) first verified profile))
      (selected registrar (at 0) first (live 0 (find [] alice)))
    ≡ some (new_contact registrar (at 0) first)
unfolding find make_contact_selector matches_selector
first-newer = refl

pub expires-first : determine_register_expires osip first ≡ 600
unfolding determine_register_expires to_lower header_values
expires-first = refl

handle_register-lookup_example :
    let after = handle_register registrar (at 0) first [] tt in
    (after.responses
      ≡ sent (
          register_ok registrar
            (at 0)
            first
            (determine_register_expires osip first)
            (contact first)
            (alice ∷ codes "tel:+861" ∷ [])))
    × (b : RegistrationBinding) × ((lookup 599 alice after.store).0 ≡ ok b)
    × (selected registrar (at 0) first (some b) ≡ some (new_contact registrar (at 0) first))
unfolding make_impu_set
handle_register-lookup_example =
    handle_register-lookup registrar (at 0) first [] tt tt tt tt provider verified profile alice 599
      first-HasNumber first-is_deregister first-try first-has_authorization first-select refl refl
      refl first-newer (rw expires-first (omega arith))

handle_register-IsAnswered_example :
    IsAnswered registrar (at 0) is_register_code (handle_register registrar (at 0) first [] tt)
handle_register-IsAnswered_example =
    handle_register-IsAnswered registrar (at 0) first [] tt first-HasNumber

other-is_deregister : is_deregister osip other ≡ false
unfolding is_deregister to_lower header_values
other-is_deregister = refl

other-try : (try_handle_reregister registrar (at 0) other [] tt).0 ≡ none
unfolding try_handle_reregister find to_lower header_values
other-try = refl

other-is_verified : (has_authorization osip other && is_verified registrar (at 0) other tt) ≡ false
unfolding has_authorization to_lower header_values select_provider
other-is_verified = refl

handle_register-unverified_example :
    (live 5 (find (handle_register registrar (at 0) other [] tt).store alice)
      ≡ live 5 (find [] alice))
    × IsAnswered registrar
        (at 0)
        (is_refusal registrar (at 0))
        (handle_register registrar (at 0) other [] tt)
handle_register-unverified_example =
    handle_register-unverified registrar (at 0) other [] tt alice 5 other-is_deregister other-try
      other-is_verified (omega arith)

leaving-is_deregister : is_deregister osip leaving ≡ true
unfolding is_deregister to_lower header_values
leaving-is_deregister = refl

handle_register-removed_example :
    let after = handle_register registrar (at 0) leaving bound tt in
    let impus = deregistered_impus registrar (at 0) leaving tt in
    (after.responses
      ≡ sent (
          with_headers
            (add_header (codes "Date") (codes "d"))
            (reply registrar (at 0) leaving 200 (codes "OK"))))
    × (contacts_of (find after.store alice) ≡ (
        if any (λ i. i == alice) impus
        then (if is_specific registrar (at 0) (contact leaving)
            then erase_if
                (is_removed (batch_removal (removal_of registrar (at 0) leaving impus)))
                (contacts_of (live 0 (find bound alice)))
            else [])
        else contacts_of (find bound alice)))
handle_register-removed_example =
    handle_register-removed registrar (at 0) leaving tt bound alice leaving-HasNumber
      leaving-is_deregister

first-lookup : (lookup 0 (extract_impu uri_parse first) bound).0 ≡ ok (binding alice)
unfolding lookup prune_expired_locked pruned next_after find insert extract_impu to_lower
    extract_uri_from_name_addr
first-lookup = refl

first-existing : existing_contact registrar (at 0) first (binding alice) ≡ some bound_contact
unfolding existing_contact
first-existing = refl

handle_register-refreshed_example :
    let batch = refresh registrar (at 0) first (binding alice) bound_contact (ok profile) in
    let seen = looked_up registrar (at 0) first bound tt in
    let after = handle_register registrar (at 0) first bound tt in
    ((can_write 0 batch seen ≡ true)
      × (after.responses
          ≡ sent (
              register_ok registrar
                (at 0)
                first
                (determine_register_expires osip first)
                (contact first)
                (refresh_impus registrar (at 0) (binding alice) (ok profile))))
      × ((j : Text)
          → find_if (matches_selector batch.selector) (contacts_of (find after.store j)) ≡ (
              if any (λ i. i == j) batch.impus
              then upserted
                  (batch_upsert batch)
                  (find_if (matches_selector batch.selector) (contacts_of (live 0 (find seen j))))
              else find_if (matches_selector batch.selector) (contacts_of (find seen j)))))
    ⊎ ((can_write 0 batch seen ≡ false)
        × (after.responses
            ≡ sent (reply registrar (at 0) first 500 (codes "Internal Server Error")))
        × (after.store ≡ prune_all 0 batch.impus seen))
handle_register-refreshed_example =
    handle_register-refreshed registrar (at 0) first bound tt tt (binding alice) bound_contact
      (ok profile) first-HasNumber first-is_deregister first-lookup first-existing refl
