-- ===== src/Icscf/Examples.antt =====
-- A subscriber that is assigned to an S-CSCF, and an INVITE to it.
use sim_ims.Prelude.{
  ◌≡◌, refl, sym, ap, ◌∙◌, Option, none, some, List, [], ◌∷◌, any, find_if, map, if◌then◌else◌,
  ◌==◌, Bool-cases, inl, inr,
}
use sim_ims.Prelude.Text.{Text, codes, text_instance}
use sim_ims.Common.{Result, ok, err, ErrorInfo, k_not_implemented}
use sim_ims.Uri.{to_lower, extract_uri_from_name_addr}
use sim_ims.Uri.Endpoints.{OsipUri, parse_endpoint_from_uri, normalize_impu_uri}
use sim_ims.Message.{SipMessage, request}
use sim_ims.Transaction.{Endpoint}
use sim_ims.Transaction.Examples.{call}
use sim_ims.Registrar.Sample.{osip}
use sim_ims.Proxy.Examples.{proxy, via_parse}
use sim_ims.Hss.{MarParams, MaaResult, SarParams, k_registration}
use sim_ims.Proxy.Stateful.{Outcomes}
use sim_ims.Subscribers.{
  Subscription, Field, by_imsi, by_tel, Database, up_to, find_by_impi_or_impu,
  find_by_public_identity, set_serving_scscf, private_identity_imsi,
}
use sim_ims.Subscribers.Assigned.{IsDocumented, with_serving, map_found, imsi_in}
use sim_ims.Icscf.{IcscfService, forward_to, on_invite}
use sim_ims.Icscf.Routing.{with_database, on_invite-server_assignment}

abbrev hss_failure : ErrorInfo
hss_failure = record { code = k_not_implemented; message = []; detail = [] }

abbrev imsi_of : Subscription → Text
imsi_of s = up_to b'@' s.impi

-- A collection without telephone numbers.
abbrev find_one : Field → Text → List Subscription → Result (Option Subscription)
find_one by_imsi value d = ok (find_if (λ s. imsi_of s == value) d)
find_one by_tel value d = ok none

abbrev database : Database (List Subscription)
database = record {
  find_one_by_field = find_one;
  update_serving = λ imsi uri d. (
    if any (λ s. imsi_of s == imsi) d then ok tt else err hss_failure,
    map (with_serving imsi uri imsi_of) d,
  );
}

find_if-updated :
    (imsi uri value : Text) (d : List Subscription)
    → find_one by_imsi value (map (with_serving imsi uri imsi_of) d)
      ≡ map_found (with_serving imsi uri imsi_of) (find_one by_imsi value d)
find_if-updated imsi uri value [] = refl
find_if-updated imsi uri value (s ∷ d) = elim (Bool-cases (imsi_of s == imsi)) [
  | inl e ↦ elim (Bool-cases (imsi_of s == value)) [
    | inl f ↦ rw (e, f, with_serving, e) refl
    | inr f ↦ rw (e, f) (find_if-updated imsi uri value d)
  ]
  | inr e ↦ elim (Bool-cases (imsi_of s == value)) [
    | inl f ↦ rw (e, f, with_serving, e) refl
    | inr f ↦ rw (e, f) (find_if-updated imsi uri value d)
  ]
]

find_one-updated :
    (imsi uri : Text) (field : Field) (value : Text) (unassigned after : List Subscription)
    → map (with_serving imsi uri imsi_of) unassigned ≡ after
    → find_one field value after
      ≡ map_found (with_serving imsi uri imsi_of) (find_one field value unassigned)
find_one-updated imsi uri by_imsi value unassigned after h =
    ap (find_one by_imsi value) (sym h) ∙ find_if-updated imsi uri value unassigned
find_one-updated imsi uri by_tel value unassigned after h = refl

database-IsDocumented : IsDocumented database imsi_of
database-IsDocumented = record {
  updates = λ imsi uri unassigned after done. record {
    found =
        λ field value. find_one-updated imsi uri field value unassigned after (ap (λ r. r.1) done);
  };
}

abbrev no_uri_parse : Text → Option OsipUri
no_uri_parse text =
    if text == codes "sip:scscf.ims"
    then some record {
      scheme = some (codes "sip");
      username = none;
      host = some (codes "scscf.ims");
      port = none;
      transport = none;
    }
    else none

abbrev service : IcscfService (List Subscription)
service = record {
  osip = osip;
  via_parse = via_parse;
  uri_parse = no_uri_parse;
  hss = record {
    user_authorization = λ p d. (err hss_failure, d);
    multimedia_auth = λ p d. (err hss_failure, d);
    server_assignment = λ p d. (err hss_failure, d);
    location_info = λ p d. (err hss_failure, d);
  };
  realm = codes "ims";
  proxy = proxy (codes "p");
  local_scscf = record { address = []; port = 5062; transport = [] };
}

abbrev subscription : Text → Subscription
subscription scscf = record {
  impi = codes "460@ims";
  canonical_impu = codes "sip:460@ims";
  associated_impus = [];
  assigned_scscf = scscf;
}

abbrev sar : SarParams
sar = record {
  impi = codes "460@ims";
  impu = codes "sip:460@ims";
  server_name = codes "sip:scscf.ims";
  assignment_type = k_registration;
}

abbrev callee : SipMessage
callee = record call { start = request (codes "INVITE") (codes "sip:460@ims") }

abbrev dest : Endpoint
dest = record { address = codes "scscf.ims"; port = 5060; transport = codes "udp" }

abbrev no_vector : MarParams → List Subscription → Result MaaResult × List Subscription
no_vector p d = (err hss_failure, d)

abbrev unassigned : List Subscription
unassigned = subscription [] ∷ []

abbrev after : List Subscription
after = subscription (codes "sip:scscf.ims") ∷ []

set-unassigned :
    set_serving_scscf no_uri_parse database (codes "460@ims") (codes "sip:scscf.ims") unassigned
    ≡ (ok tt, after)
unfolding set_serving_scscf to_lower extract_uri_from_name_addr
set-unassigned = refl

sar-finds :
    find_by_impi_or_impu no_uri_parse database sar.impi
      (normalize_impu_uri no_uri_parse sar.impu)
      unassigned
    ≡ ok (some (subscription []))
unfolding find_by_impi_or_impu to_lower extract_uri_from_name_addr
sar-finds = refl

invite-finds :
    find_by_public_identity no_uri_parse database
      (normalize_impu_uri no_uri_parse (normalize_impu_uri no_uri_parse (codes "sip:460@ims")))
      unassigned
    ≡ ok (some (subscription []))
unfolding find_by_public_identity to_lower extract_uri_from_name_addr
invite-finds = refl

endpoint-dest : parse_endpoint_from_uri no_uri_parse (codes "sip:scscf.ims") ≡ some dest
unfolding parse_endpoint_from_uri extract_uri_from_name_addr to_lower
endpoint-dest = refl

own-imsi : imsi_of (subscription []) ≡ imsi_in no_uri_parse (codes "460@ims")
unfolding private_identity_imsi to_lower extract_uri_from_name_addr
own-imsi = refl

on_invite-server_assignment_example :
    let routed = with_database service database (codes "sip:default") no_vector imsi_of in
    let assigned = (routed.hss.server_assignment sar unassigned).1 in
    (on_invite routed (codes "z9a") (ok tt) callee assigned
      ≡ (forward_to routed (codes "z9a") (ok tt) callee dest, assigned))
    × Outcomes via_parse no_uri_parse
        (on_invite routed (codes "z9a") (ok tt) callee assigned).0
        dest
        (ok tt)
on_invite-server_assignment_example =
    on_invite-server_assignment service database (codes "sip:default") no_vector imsi_of
      database-IsDocumented sar (subscription []) dest unassigned after (codes "z9a") (ok tt) callee
      set-unassigned own-imsi refl sar-finds invite-finds endpoint-dest
