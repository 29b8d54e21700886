-- ===== src/Registrar/Selector.antt =====
-- The set of IMPUs that a registration is written to, and the contact that its selector selects.
use sim_ims.Prelude.{
  ℕ, ◌≡◌, refl, ap, ◌⊎◌, inl, inr, true, false, ◌||◌, Option, none, some, List, [], ◌∷◌, arith, any,
  eqb, length, ◌==◌, ==-refl, Bool-cases, Option-cases,
}
use sim_ims.Prelude.Text.{Text, codes, text_instance, text_eq_iff}
use sim_ims.Message.{SipMessage}
use sim_ims.Message.Headers.{Osip, contact, contact_at, contact_param}
use sim_ims.Store.{ContactBinding}
use sim_ims.Store.Memory.{matches_selector, normalize_contact_uri}
use sim_ims.Store.{uses_instance_and_reg_id}
use sim_ims.Store.Memory.Batch.{IsDistinct}
use sim_ims.Registrar.{
  make_impu_set, make_contact_selector, make_contact_binding, value_or, clear_unless_both,
  contact_or_empty,
}
use sim_ims.Uri.{trim, trim_start, extract_uri_from_name_addr}

-- The set has the texts of the list and the primary one, each once.
pub any-make_impu_set :
    (is : List Text) (p i : Text)
    → any (λ j. j == i) (make_impu_set is p) ≡ (any (λ j. j == i) is || p == i)
unfolding make_impu_set
any-make_impu_set [] p i = ground arith
any-make_impu_set (k ∷ is) p i =
    ground (arith, any-make_impu_set is p i, any-make_impu_set is p k, text_eq_iff k i)

pub make_impu_set-IsDistinct : (is : List Text) (p : Text) → IsDistinct (make_impu_set is p)
unfolding make_impu_set
make_impu_set-IsDistinct [] p = (refl, tt)
make_impu_set-IsDistinct (k ∷ is) p = elim (Bool-cases (any (λ j. j == k) (make_impu_set is p))) [
  | inl e ↦ rw (e, make_impu_set) (make_impu_set-IsDistinct is p)
  | inr e ↦ rw (e, make_impu_set) (e, make_impu_set-IsDistinct is p)
]

pub length-make_impu_set : (is : List Text) (p : Text) → eqb (length (make_impu_set is p)) 0 ≡ false
unfolding make_impu_set
length-make_impu_set [] p = refl
length-make_impu_set (k ∷ is) p = ground (arith, length-make_impu_set is p)

-- A contact with the selector's identifiers and its URI is selected, whether it has both or not.
matches-cleared :
    (i g : Option Text) (uri old_i old_g : Text) (b : ContactBinding)
    → b.instance_id ≡ value_or i old_i
    → b.reg_id ≡ value_or g old_g
    → b.contact_uri ≡ uri
    → matches_selector
        (clear_unless_both (record {
          normalized_contact_uri = extract_uri_from_name_addr uri;
          instance_id = value_or i [];
          reg_id = value_or g [];
        }))
        b
      ≡ true
unfolding matches_selector normalize_contact_uri uses_instance_and_reg_id
matches-cleared none g uri old_i old_g b p q r = ground (
  arith,
  text_eq_iff b.contact_uri uri,
  ap extract_uri_from_name_addr r,
  ==-refl (extract_uri_from_name_addr uri),
)
matches-cleared (some i) none uri old_i old_g b p q r =
    ground (arith, ap extract_uri_from_name_addr r, ==-refl (extract_uri_from_name_addr uri))
matches-cleared (some i) (some g) uri old_i old_g b p q r = ground (
  arith,
  p,
  q,
  ap extract_uri_from_name_addr r,
  ==-refl i,
  ==-refl g,
  ==-refl (extract_uri_from_name_addr uri),
)

module _ (o : Osip) (now : ℕ) (m : SipMessage) (expires : ℕ) where
  -- The contact that a request with a Contact writes is one that its selector selects.
  pub matches-some :
      (c : Text) (previous : Option ContactBinding)
      → matches_selector
          (make_contact_selector m (some c))
          (make_contact_binding o now m (some c) expires previous)
        ≡ true
  unfolding make_contact_selector make_contact_binding
  matches-some c previous =
      let old = contact_or_empty previous in
      matches-cleared (contact_param (codes "+sip.instance") 0 m)
        (contact_param (codes "reg-id") 0 m) c old.instance_id old.reg_id _ refl refl refl

  contact-cases :
      ((contact m ≡ none) × ((key : Text) → contact_param key 0 m ≡ none))
      ⊎ ((c : Text) × (contact m ≡ some c))
  unfolding contact contact_param
  contact-cases = elim (Option-cases (contact_at 0 m.contacts)) [
    | inl e ↦ inl (rw (contact, e) refl, λ key. rw (contact_param, e) refl)
    | inr (c, e) ↦ inr (c.text, rw (contact, e) refl)
  ]

  without_contact :
      contact_param (codes "+sip.instance") 0 m ≡ none
      → matches_selector
          (make_contact_selector m none)
          (make_contact_binding o now m none expires none)
        ≡ true
  unfolding make_contact_selector make_contact_binding matches_selector uses_instance_and_reg_id
      normalize_contact_uri extract_uri_from_name_addr trim trim_start
  without_contact p = rw p refl

  -- The contact that a first registration writes, with a Contact or without.
  pub matches-contact :
      matches_selector
        (make_contact_selector m (contact m))
        (make_contact_binding o now m (contact m) expires none)
      ≡ true
  matches-contact = elim contact-cases [
    | inl (e, absent) ↦ rw e (without_contact (absent (codes "+sip.instance")))
    | inr (c, e) ↦ rw e (matches-some c none)
  ]
