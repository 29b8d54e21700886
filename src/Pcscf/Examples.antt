-- ===== src/Pcscf/Examples.antt =====
-- A call through a P-CSCF whose core entry is q, and the deletions that rtpengine is asked for.
use sim_ims.Prelude.{
  is_empty, ◌≡◌, refl, false, Option, none, some, List, [], ◌∷◌, if◌then◌else◌, ◌==◌,
}
use sim_ims.Prelude.Text.{Text, codes, text_instance}
use sim_ims.Prelude.Table.{find, insert, erase}
use sim_ims.Common.{ok}
use sim_ims.Uri.{to_lower, trim, trim_start, is_space}
use sim_ims.Auth.{after_word}
use sim_ims.Message.Forwarding.{routes, split_from}
use sim_ims.Uri.Endpoints.{OsipUri}
use sim_ims.Message.{
  SipMessage, StartLine, request, response, is_response, status_code, cseq_method, from_tag_of,
  to_tag_of,
}
use sim_ims.Transaction.{Endpoint}
use sim_ims.Transaction.Examples.{call, peer}
use sim_ims.Media.{
  MediaSession, MediaSessionKey, key_instance, MediaSessionState, session_of, established,
}
use sim_ims.Media.Invite.{find_terminating_key}
use sim_ims.Media.Plans.{terminating_at}
use sim_ims.Proxy.Examples.{via_parse}
use sim_ims.Pcscf.{
  RtpengineClient, PcfClient, PcscfService, PcscfState, core_destination, media_key_for,
  is_core_facing_request, extract_topology_token,
}
use sim_ims.Pcscf.Anchoring.{on_invite_response}
use sim_ims.Uri.{extract_uri_from_name_addr}
use sim_ims.Uri.Endpoints.{route_points_to_endpoint}
use sim_ims.Bencode.{stoll}
use sim_ims.Pcscf.Handlers.{
  receive, RequestArrival, Incoming, arrives, replies, on_invite, on_bye, dispatch, receive_all,
}
use sim_ims.Pcscf.Topology.{went_to, receive_all-core_destination}
use sim_ims.Pcscf.Settled.{receive_all-terminating_at}
use sim_ims.Pcscf.Endings.{on_bye-release, on_invite-refused}

abbrev core : Endpoint
core = record { address = codes "q"; port = 5062; transport = codes "udp" }

abbrev uri_parse : Text → Option OsipUri
uri_parse text = none

abbrev engine : RtpengineClient (List MediaSession)
engine = record {
  offer = λ session sdp f e. (ok (record { sdp = sdp; tag = [] }), e);
  answer = λ session sdp f e. (ok (record { sdp = sdp; tag = [] }), e);
  delete_session = λ session e. (ok tt, session ∷ e);
}

-- The sessions that were deleted, the last one first; offers and answers come back as they are.
abbrev service : PcscfService (List MediaSession)
service = record {
  via_parse = via_parse;
  uri_parse = uri_parse;
  listen_addr = codes "p";
  listen_port = 5060;
  advertised_addr = [];
  core_entry = core;
  core_peers = [];
  rtpengine = some engine;
  pcf = none;
}

abbrev arrival : SipMessage → Endpoint → RequestArrival
arrival m source = record {
  request = m;
  source = source;
  now = 0;
  branch = codes "z9a";
  token = codes "th0";
  sent = ok tt;
}

abbrev with_start : StartLine → SipMessage
with_start start = record call {
  start = start;
  to_tag = some (codes "b");
  body = some (codes "v=0");
}

abbrev invite : SipMessage
invite = with_start (request (codes "INVITE") (codes "sip:b"))

abbrev bye : SipMessage
bye = with_start (request (codes "BYE") (codes "sip:b"))

abbrev rejection : SipMessage
rejection = with_start (response 488 (codes "Not Acceptable Here"))

abbrev through_route : SipMessage
through_route = record bye { route_headers = codes "<sip:p:5060;lr;th=th0>" ∷ [] }

abbrev handled : List Incoming
handled =
    arrives (arrival invite peer)
    ∷ replies rejection
    ∷ arrives (arrival invite core)
    ∷ arrives (arrival bye peer)
    ∷ []

abbrev started : PcscfState (List MediaSession)
started = record { media = []; topology = []; outside = [] }

abbrev dialog : MediaSessionKey
dialog = media_key_for invite

abbrev talking : MediaSessionState
talking = record {
  session = session_of dialog;
  rx_session_id = [];
  caller_sdp = [];
  callee_sdp = [];
  created = 0;
  qos_active = false;
  lifecycle = established;
}

abbrev in_call : PcscfState (List MediaSession)
in_call = record { media = (dialog, talking) ∷ []; topology = []; outside = [] }

token_test : extract_topology_token through_route ≡ some (codes "th0")
unfolding extract_topology_token routes split_from trim trim_start after_word is_space
token_test = refl

went_test :
    went_to (dispatch service (arrival through_route peer) (receive_all service handled started)).0
    ≡ some core
unfolding find dispatch to_lower route_points_to_endpoint extract_uri_from_name_addr stoll to_tag_of
    receive_all receive insert from_tag_of erase
went_test = refl

receive_all-core_destination_example : core ≡ core_destination service
unfolding is_core_facing_request to_lower
receive_all-core_destination_example =
    receive_all-core_destination service handled started (arrival through_route peer) core refl refl
      went_test

receive_all-terminating_at_example :
    terminating_at dialog (receive_all service handled started).media ≡ 0
receive_all-terminating_at_example = receive_all-terminating_at service handled started dialog refl

abbrev policy : PcfClient (List MediaSession)
policy = record { terminate_session = λ params e. (ok 2001, e) }

on_bye-release_example :
    let with_policy : PcscfService (List MediaSession) = record service { pcf = some policy } in
    let after = (on_bye with_policy (arrival bye peer) in_call).1 in
    (find after.media dialog ≡ (if dialog == dialog then none else find in_call.media dialog))
    × (after.outside ≡ (
        let deleted = (engine.delete_session talking.session []).1 in
        if is_empty talking.rx_session_id
        then deleted
        else (policy.terminate_session
            (record { session_id = talking.rx_session_id; termination_cause = 1 })
            deleted).1))
unfolding find find_terminating_key from_tag_of to_tag_of
on_bye-release_example =
    on_bye-release (record service { pcf = some policy }) (arrival bye peer) in_call dialog dialog
      talking engine policy refl refl refl refl refl

on_invite-refused_example :
    find
      (on_invite_response service rejection
        (on_invite service (arrival invite peer) in_call).1).1.media
      dialog
    ≡ none
unfolding find is_core_facing_request is_response cseq_method status_code from_tag_of to_tag_of
    to_lower
on_invite-refused_example =
    on_invite-refused service (arrival invite peer) in_call rejection (refl, tt) refl refl refl refl
      refl
