-- ===== src/Challenges/Examples.antt =====
-- A pending challenge, calls that interleave on it, and a store of credentials.
use sim_ims.Prelude.{true, none, ◌<◌, ◌++◌, ◌≤◌, ◌≡◌, refl, some, List, [], ◌∷◌}
use sim_ims.Prelude.Text.{Text, codes, starts_with, text_instance}
use sim_ims.Prelude.Table.{find}
use sim_ims.Common.{ok}
use sim_ims.Aka.{AuthVector}
use sim_ims.Auth.{verify_response, DigestAuthFields, no_fields, parse_digest_authorization}
use sim_ims.Message.{SipMessage, method}
use sim_ims.Message.Headers.{get_header}
use sim_ims.Uri.{to_lower, extract_uri_from_name_addr}
use sim_ims.Registrar.Sample.{osip, uri_parse, alice, private_id, first}
use sim_ims.Challenges.{
  accepted, normalize_authorization_impi, PendingAuth, Tables, AkaProvider, verify_authorization,
}
use sim_ims.Uri.Endpoints.{normalize_impu_uri}
use sim_ims.Challenges.Credentials.{
  Subscriber, no_credentials, identities, add_subscribers, find_by_username, find_by_identity,
  make_username_realm_key,
}
use sim_ims.Challenges.Indexed.{searched, usernames_of, find-searched}
use sim_ims.Challenges.Once.{
  LockedSection, begins, finishes, purges, consumes, accepted_count, brought_count,
  accepted_count-le,
}
use sim_ims.Challenges.Verify.{verify_authorization-accepted}

abbrev provider : AkaProvider
provider = record { osip = osip; uri_parse = uri_parse; md5_hex = λ t. t; domain = codes "ims" }

abbrev vector : AuthVector
vector = record { rand = 1 ∷ []; autn = 2 ∷ []; xres = 3 ∷ []; ck = []; ik = [] }

abbrev waiting : PendingAuth
waiting = record {
  vector = vector;
  impi = private_id;
  impu = alice;
  scheme = codes "Digest-AKAv1-MD5";
  expires_at = 120;
}

abbrev key : Text
key = codes "c\u{1f}alice@ims\u{1f}sip:alice@ims"

abbrev tables : Tables
tables = record { pending_auth = (key, waiting) ∷ []; in_flight_auth = [] }

-- Two callers have both found the challenge and verified the same header.
abbrev race : List LockedSection
race =
    begins 0 key
    ∷ finishes key (ok waiting)
    ∷ purges 1
    ∷ purges 1
    ∷ consumes key waiting
    ∷ consumes key waiting
    ∷ []

abbrev idle : Tables
idle = record { pending_auth = []; in_flight_auth = [] }

accepted_count-le_example : accepted_count vector race idle ≤ brought_count vector race
accepted_count-le_example = accepted_count-le vector race idle refl

-- A hash of one value, so that the header's response is right.
abbrev one_hash : AkaProvider
one_hash = record provider { md5_hex = λ t. codes "h" }

abbrev fields : DigestAuthFields
fields = record no_fields {
  username = private_id;
  nonce = codes "AQI=";
  uri = codes "sip:ims";
  response = codes "h";
}

abbrev header : Text
header = codes "Digest username=\"alice@ims\",nonce=\"AQI=\",uri=\"sip:ims\",response=\"h\""

abbrev answering : SipMessage
answering = record first { authorizations = header ∷ [] }

answering-header : get_header osip (codes "Authorization") answering ≡ some header
unfolding get_header to_lower
answering-header = refl

header-fields : parse_digest_authorization header ≡ ok fields
unfolding parse_digest_authorization to_lower
header-fields = refl

answering-accepted :
    (verify_authorization one_hash 1 answering tables).0 ≡ ok (accepted one_hash answering waiting)
unfolding verify_authorization get_header to_lower extract_uri_from_name_addr find
answering-accepted = refl

verify_authorization-accepted_example :
    (k : Text) × (p : PendingAuth) × (find tables.pending_auth k ≡ some p)
    × (1 < p.expires_at)
    × (starts_with k (answering.call_id ++ 31 ∷ []) ≡ true)
    × (p.impi ≡ normalize_authorization_impi uri_parse (codes "ims") private_id)
    × (verify_response (λ t. codes "h") header p.vector (method answering) p.scheme ≡ true)
    × (find (verify_authorization one_hash 1 answering tables).1.pending_auth k ≡ none)
unfolding find
verify_authorization-accepted_example =
    verify_authorization-accepted one_hash 1 answering header tables fields
      (accepted one_hash answering waiting) (refl, tt) answering-header header-fields
      answering-accepted

abbrev subscriber : Text → Subscriber
subscriber imsi = record {
  imsi = imsi;
  tel = codes "861";
  realm = codes "ims";
  password = codes "p";
}

abbrev subscribers : List Subscriber
subscribers = subscriber (codes "460") ∷ subscriber (codes "461") ∷ []

find-searched_example :
    let store = add_subscribers uri_parse subscribers no_credentials in
    (find_by_username (codes "861") (codes "ims") store
      ≡ ok (
          searched
            (usernames_of uri_parse)
            subscribers
            (make_username_realm_key (codes "861") (codes "ims"))))
    × (find_by_identity uri_parse (codes "tel:861") store
        ≡ ok (
            searched
              (identities uri_parse)
              subscribers
              (normalize_impu_uri uri_parse (codes "tel:861"))))
find-searched_example =
    find-searched uri_parse subscribers (codes "861") (codes "ims") (codes "tel:861")
