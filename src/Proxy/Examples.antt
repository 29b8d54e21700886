-- ===== src/Proxy/Examples.antt =====
-- An INVITE through two proxies, and the answer back.
use sim_ims.Prelude.{
  true, ℕ, ◌-◌, ◌≤◌, ◌<◌, ◌≡◌, refl, Option, none, some, List, [], ◌∷◌, arith, if◌then◌else◌, ◌==◌,
}
use sim_ims.Prelude.Text.{Text, codes, text_instance}
use sim_ims.Bencode.{decimal, stoll}
use sim_ims.Uri.{is_space}
use sim_ims.Message.{SipMessage, Via}
use sim_ims.Message.Forwarding.{
  filled_response, max_forwards, decrement_max_forwards, set_max_forwards, add_via,
}
use sim_ims.Proxy.{
  is_loop_detected, process_route_headers, add_record_route_of, ProxyCore, refused, prepared,
  prepare_request_for_forward, via_text, too_many_hops,
}
use sim_ims.Proxy.Hops.{Hop, hops, hops-max_forwards}
use sim_ims.Proxy.Back.{passed_back, passed_back-hops}
use sim_ims.Proxy.Stateful.{ForwardOptions, forwarded, too_many, forward_stateful}
use sim_ims.Common.{ok}
use sim_ims.Uri.Endpoints.{OsipUri}
use sim_ims.Transaction.Examples.{call, peer}

abbrev pub proxy : Text → ProxyCore
proxy address = record { local_address = address; local_port = 5060 }

abbrev hop : Text → Hop
hop branch = (proxy (codes "p"), codes "udp", branch)

abbrev own_via : Text → Via
own_via branch = record {
  protocol = codes "UDP";
  host = codes "p";
  port = some (codes "5060");
  branch = some branch;
  received = none;
  rport = none;
}

-- Reads the headers of the two hops.
abbrev pub via_parse : Text → Option Via
via_parse text =
    if text == via_text (codes "udp") (codes "p") 5060 (codes "z9a")
    then some (own_via (codes "z9a"))
    else if text == via_text (codes "udp") (codes "p") 5060 (codes "z9b")
    then some (own_via (codes "z9b"))
    else none

abbrev two_hops : List Hop
two_hops = hop (codes "z9a") ∷ hop (codes "z9b") ∷ []

abbrev invite_with : ℕ → SipMessage
invite_with n = record call { max_forwards_header = some (decimal n) }

hops-max_forwards_example :
    (2 ≤ 1
      → (out : SipMessage) × (hops via_parse two_hops (invite_with 1) ≡ prepared out)
        × (out.max_forwards_header ≡ some (decimal (1 - 2))))
    × (1 < 2
        → (last : SipMessage) × (hops via_parse two_hops (invite_with 1)
            ≡ refused too_many_hops last))
hops-max_forwards_example =
    hops-max_forwards via_parse two_hops 1 (invite_with 1) (omega arith) refl

abbrev on_its_way : SipMessage
on_its_way = record call {
  max_forwards_header = some (decimal 68);
  vias = own_via (codes "z9b") ∷ own_via (codes "z9a") ∷ call.vias;
}

passed_back-hops_example :
    (passed_back 2 (filled_response [] [] on_its_way 200 (codes "OK"))).vias ≡ call.vias
unfolding prepare_request_for_forward max_forwards decrement_max_forwards set_max_forwards add_via
    via_text stoll is_space
passed_back-hops_example =
    passed_back-hops via_parse two_hops (invite_with 70) on_its_way 200 [] [] (codes "OK")
      ((own_via (codes "z9a"), refl, refl), ((own_via (codes "z9b"), refl, refl), tt)) (omega arith)
      refl

abbrev no_uri : Text → Option OsipUri
no_uri text = none

abbrev every_option : ForwardOptions
every_option = record { add_record_route = true; process_route_headers = true; detect_loop = true }

spent_test :
    forward_stateful via_parse no_uri every_option
      (proxy (codes "q"))
      (codes "z9a")
      (invite_with 0)
      peer
      (ok tt)
    ≡ forwarded (too_many ∷ []) none (some too_many_hops)
unfolding forward_stateful is_loop_detected process_route_headers add_record_route_of
    prepare_request_for_forward max_forwards decrement_max_forwards set_max_forwards stoll is_space
spent_test = refl
