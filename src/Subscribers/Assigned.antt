-- ===== src/Subscribers/Assigned.antt =====
-- Once the HSS has assigned a server, its answers name it.
use sim_ims.Prelude.{
  ◌≡◌, refl, ap, ◌∙◌, inl, inr, true, false, Option, none, some, List, [], ◌∷◌, is_empty,
  if◌then◌else◌, ◌==◌, Option-cases,
}
use sim_ims.Prelude.Text.{Text, text_instance, text_eq_iff}
use sim_ims.Common.{Result, ok, err, is_ok}
use sim_ims.Uri.Endpoints.{OsipUri, normalize_impu_uri}
use sim_ims.Hss.{SarParams, LirParams, UarParams}
use sim_ims.Registrar.Paths.{Result-cases}
use sim_ims.Subscribers.{
  Subscription, Field, Database, Candidates, by_imsi, by_tel, private_identity_imsi, find_first,
  find_one_by_imsi_or_tel, find_by_impi_or_impu, find_by_public_identity, identity_candidates,
  set_serving_scscf, both_candidates, server_assignment, location_info, user_authorization,
}

-- The document after an update of the documents with an IMSI.
abbrev pub with_serving : Text → Text → (Subscription → Text) → Subscription → Subscription
with_serving imsi uri imsi_of s = if imsi_of s == imsi then record s { assigned_scscf = uri } else s

abbrev pub map_found :
    (Subscription → Subscription) → Result (Option Subscription) → Result (Option Subscription)
map_found f (err x) = err x
map_found f (ok none) = ok none
map_found f (ok (some s)) = ok (some (f s))

-- An update that succeeds changes the documents with the IMSI, and no search finds others than
-- before.
pub record IsUpdated {ℓ} {D : Type ℓ} (db : Database D) (imsi_of : Subscription → Text)
    (imsi uri : Text) (before after : D) : Type 0 where
  pub found :
      (field : Field) (value : Text)
      → db.find_one_by_field field value after
        ≡ map_found (with_serving imsi uri imsi_of) (db.find_one_by_field field value before)

module _ {ℓ} {D : Type ℓ} (db : Database D) (uri_parse : Text → Option OsipUri)
    (imsi_of : Subscription → Text) (imsi uri : Text) (before after : D)
    (u : IsUpdated db imsi_of imsi uri before after) where
  find_first-updated :
      (field : Field) (vs : List Text)
      → find_first uri_parse db field vs after
        ≡ map_found (with_serving imsi uri imsi_of) (find_first uri_parse db field vs before)
  unfolding find_first
  find_first-updated field [] = refl
  find_first-updated field (v ∷ vs) = elim (Result-cases (db.find_one_by_field field v before)) [
    | inl (x, e) ↦
        let e' = u.found field v ∙ ap (map_found (with_serving imsi uri imsi_of)) e in
        rw (find_first, e, e') refl
    | inr (o, e) ↦
        let e' = u.found field v ∙ ap (map_found (with_serving imsi uri imsi_of)) e in
        elim (Option-cases o) [
          | inl n ↦
              let f = e ∙ ap ok n in
              let f' = e' ∙ ap (λ q. map_found (with_serving imsi uri imsi_of) (ok q)) n in
              rw (find_first, f, f') (find_first-updated field vs)
          | inr (s, n) ↦
              let f = e ∙ ap ok n in
              let f' = e' ∙ ap (λ q. map_found (with_serving imsi uri imsi_of) (ok q)) n in
              rw (find_first, f, f') refl
        ]
  ]

  find_one-updated :
      (c : Candidates)
      → find_one_by_imsi_or_tel uri_parse db c after
        ≡ map_found (with_serving imsi uri imsi_of) (find_one_by_imsi_or_tel uri_parse db c before)
  unfolding find_one_by_imsi_or_tel
  find_one-updated c =
      let g = map_found (with_serving imsi uri imsi_of) in
      elim (Result-cases (find_first uri_parse db by_imsi c.imsis before)) [
        | inl (x, e) ↦
            let e' = find_first-updated by_imsi c.imsis ∙ ap g e in
            rw (find_one_by_imsi_or_tel, e, e') refl
        | inr (o, e) ↦
            let e' = find_first-updated by_imsi c.imsis ∙ ap g e in
            elim (Option-cases o) [
              | inl n ↦
                  let f = e ∙ ap ok n in
                  let f' = e' ∙ ap (λ q. g (ok q)) n in
                  rw (find_one_by_imsi_or_tel, f, f') (find_first-updated by_tel c.tels)
              | inr (s, n) ↦
                  let f = e ∙ ap ok n in
                  let f' = e' ∙ ap (λ q. g (ok q)) n in rw (find_one_by_imsi_or_tel, f, f') refl
            ]
      ]

-- MongoDB's updates do what they say: `imsi_of` is a document's IMSI.
pub record IsDocumented {ℓ} {D : Type ℓ} (db : Database D) (imsi_of : Subscription → Text)
    : Type ℓ where
  pub updates :
      (imsi uri : Text) (before after : D)
      → db.update_serving imsi uri before ≡ (ok tt, after)
      → IsUpdated db imsi_of imsi uri before after

-- The IMSI in a private identity, as the repository reads it.
abbrev pub imsi_in : (Text → Option OsipUri) → Text → Text
imsi_in uri_parse impi = elim (private_identity_imsi uri_parse impi) [ none ↦ impi | some i ↦ i ]

module _ {ℓ} {D : Type ℓ} (db : Database D) (uri_parse : Text → Option OsipUri)
    (imsi_of : Subscription → Text) (law : IsDocumented db imsi_of) where
  found_after :
      (c : Candidates) (uri : Text) (s : Subscription) (d d' : D)
      → set_serving_scscf uri_parse db s.impi uri d ≡ (ok tt, d')
      → imsi_of s ≡ imsi_in uri_parse s.impi
      → find_one_by_imsi_or_tel uri_parse db c d ≡ ok (some s)
      → find_one_by_imsi_or_tel uri_parse db c d' ≡ ok (some (record s { assigned_scscf = uri }))
  unfolding set_serving_scscf
  found_after c uri s d d' done own here =
      let imsi = imsi_in uri_parse s.impi in
      let u = law.updates imsi uri d d' done in
      let is_own : (imsi_of s == imsi) ≡ true = (text_eq_iff (imsi_of s) imsi).1 own in
      find_one-updated db uri_parse imsi_of imsi uri d d' u c
      ∙ ap (map_found (with_serving imsi uri imsi_of)) here
      ∙ rw is_own refl

  -- With a database that updates as documented: after an SAR that finds a subscriber and whose update
  -- succeeds, the answers to a UAR and to an LIR that find the same subscriber name the SAR's server.
  pub server_assignment-location_info :
      (p : SarParams) (q : UarParams) (l : LirParams) (default_scscf : Text) (s : Subscription)
      (d d' : D)
      → set_serving_scscf uri_parse db s.impi p.server_name d ≡ (ok tt, d')
      → imsi_of s ≡ imsi_in uri_parse s.impi
      → is_empty p.server_name ≡ false
      → find_by_impi_or_impu uri_parse db p.impi (normalize_impu_uri uri_parse p.impu) d
        ≡ ok (some s)
      → find_by_impi_or_impu uri_parse db q.impi (normalize_impu_uri uri_parse q.impu) d
        ≡ ok (some s)
      → find_by_public_identity uri_parse db (normalize_impu_uri uri_parse l.impu) d ≡ ok (some s)
      → let after = (server_assignment uri_parse db p d).1 in
        (is_ok (server_assignment uri_parse db p d).0 ≡ true)
        × (user_authorization uri_parse db default_scscf q after
            ≡ ok record { result_code = 2001; assigned_scscf = p.server_name })
        × (location_info uri_parse db default_scscf l after
            ≡ ok record { result_code = 2001; assigned_scscf = p.server_name })
  unfolding server_assignment user_authorization location_info find_by_impi_or_impu
      find_by_public_identity
  server_assignment-location_info p q l default_scscf s d d' done own named here asked routed =
      let to_impu = normalize_impu_uri uri_parse q.impu in
      let of_uar =
        found_after (both_candidates uri_parse q.impi to_impu) p.server_name s d d' done own
          asked in
      let of_lir =
        found_after (identity_candidates uri_parse (normalize_impu_uri uri_parse l.impu))
          p.server_name s d d' done own routed in
      rw (server_assignment, here, done)
        (refl, rw (user_authorization, of_uar, named) refl, rw (location_info, of_lir, named) refl)
