-- ===== src/Icscf/Routing.antt =====
-- Requests are routed to the S-CSCF that the HSS has assigned.
use sim_ims.Prelude.{◌≡◌, refl, ap, ◌∙◌, false, Option, some, [], is_empty}
use sim_ims.Prelude.Text.{Text, codes}
use sim_ims.Common.{Result, ok}
use sim_ims.Uri.Endpoints.{OsipUri, normalize_impu_uri, parse_endpoint_from_uri}
use sim_ims.Message.{SipMessage}
use sim_ims.Message.Forwarding.{request_uri}
use sim_ims.Transaction.{Endpoint}
use sim_ims.Hss.{
  HssClient, SarParams, MarParams, MaaResult, LirParams, UarParams, k_registration_type,
}
use sim_ims.Proxy.Stateful.{Outcomes, forward_stateful-Outcomes}
use sim_ims.Subscribers.{
  Subscription, Database, find_by_impi_or_impu, find_by_public_identity, set_serving_scscf,
  server_assignment, user_authorization, location_info,
}
use sim_ims.Subscribers.Assigned.{IsDocumented, imsi_in, server_assignment-location_info}
use sim_ims.Icscf.{
  IcscfService, without_record_route, select_for_routing, forward_to_scscf, forward_to,
  answered_with, on_invite, from_lia,
}

-- The HSS client over the database; the vectors are another part's.
abbrev pub mongo_hss_client {ℓ} :
    {D : Type ℓ}
    → Database D
    → (Text → Option OsipUri)
    → Text
    → (MarParams → D → Result MaaResult × D)
    → HssClient D
mongo_hss_client db uri_parse default_scscf mar = record {
  user_authorization = λ p d. (user_authorization uri_parse db default_scscf p d, d);
  multimedia_auth = mar;
  server_assignment = λ p d. server_assignment uri_parse db p d;
  location_info = λ p d. (location_info uri_parse db default_scscf p d, d);
}

module _ {ℓ} {E : Type ℓ} (s : IcscfService E) (branch : Text) (sent : Result (Unit {0}))
    (m : SipMessage) where
  -- The HSS's answer names a server with an endpoint.
  on_invite-forwards :
      (uri : Text) (dest : Endpoint) (e e' : E)
      → select_for_routing s (normalize_impu_uri s.uri_parse (request_uri m)) e ≡ (ok uri, e')
      → parse_endpoint_from_uri s.uri_parse uri ≡ some dest
      → on_invite s branch sent m e ≡ (forward_to s branch sent m dest, e')
  unfolding on_invite forward_to_scscf
  on_invite-forwards uri dest e e' chosen at =
      ap
        (λ (x : Result Text × E).
          (forward_to_scscf s branch sent m (answered_with s 404 (codes "Not Found")) x.0, x.1))
        chosen
      ∙ rw (forward_to_scscf, at) refl

module _ {ℓ} {D : Type ℓ} (s : IcscfService D) (db : Database D) (default_scscf : Text)
    (mar : MarParams → D → Result MaaResult × D) (imsi_of : Subscription → Text) where
  -- The service with the database behind its HSS client.
  abbrev pub with_database : IcscfService D
  with_database = record s { hss = mongo_hss_client db s.uri_parse default_scscf mar }

  -- With a database that updates as documented: once an S-CSCF has sent an SAR that finds a subscriber
  -- and whose update succeeds, an INVITE to an IMPU under which that subscriber was found before is
  -- forwarded to the endpoint of the SAR's server.
  pub on_invite-server_assignment :
      IsDocumented db imsi_of
      → (p : SarParams) (found : Subscription) (dest : Endpoint) (d d' : D) (branch : Text)
        (sent : Result (Unit {0})) (m : SipMessage)
      → set_serving_scscf s.uri_parse db found.impi p.server_name d ≡ (ok tt, d')
      → imsi_of found ≡ imsi_in s.uri_parse found.impi
      → is_empty p.server_name ≡ false
      → find_by_impi_or_impu s.uri_parse db p.impi (normalize_impu_uri s.uri_parse p.impu) d
        ≡ ok (some found)
      → find_by_public_identity s.uri_parse db
          (normalize_impu_uri s.uri_parse (normalize_impu_uri s.uri_parse (request_uri m)))
          d
        ≡ ok (some found)
      → parse_endpoint_from_uri s.uri_parse p.server_name ≡ some dest
      → let after = (with_database.hss.server_assignment p d).1 in
        (on_invite with_database branch sent m after
          ≡ (forward_to with_database branch sent m dest, after))
        × Outcomes s.via_parse s.uri_parse (on_invite with_database branch sent m after).0 dest sent
  unfolding select_for_routing forward_to
  on_invite-server_assignment law p found dest d d' branch sent m done own named here routed at =
      let after = (server_assignment s.uri_parse db p d).1 in
      let l : LirParams = record { impu = normalize_impu_uri s.uri_parse (request_uri m) } in
      let q : UarParams = record {
        impi = p.impi;
        impu = p.impu;
        visited_network = [];
        auth_type = k_registration_type;
      } in
      let told =
        (server_assignment-location_info db s.uri_parse imsi_of law p q l default_scscf found d d'
          done own named here here routed).2 in
      let chosen : select_for_routing with_database (normalize_impu_uri s.uri_parse (request_uri m))
            after
          ≡ (ok p.server_name, after) =
        ap (λ x. (from_lia l.impu x, after)) told ∙ rw named refl in
      let path =
        on_invite-forwards with_database branch sent m p.server_name dest after after chosen at in
      (
        path,
        rw path (
            forward_stateful-Outcomes s.via_parse s.uri_parse without_record_route s.proxy branch m
              dest sent),
      )
