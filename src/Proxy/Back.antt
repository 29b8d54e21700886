-- ===== src/Proxy/Back.antt =====
-- A response that goes back through the proxies that its request came through.
use sim_ims.Prelude.{
  ℕ, zero, suc, ◌≤◌, ◌≡◌, refl, ap, ◌∙◌, sym, Option, some, List, [], ◌∷◌, ◌++◌, arith, length,
  length-append, subst,
}
use mathlib.Core.List.{append_assoc}
use sim_ims.Prelude.Text.{Text}
use sim_ims.Message.{SipMessage, Via}
use sim_ims.Message.Forwarding.{filled_response}
use sim_ims.Proxy.{
  ProxyCore, Prepared, throws, refused, prepared, prepare_request_for_forward,
  forward_response_upstream, via_text,
}
use sim_ims.Proxy.Hops.{Hop, hops, prepare-vias}

abbrev pub passed_back : ℕ → SipMessage → SipMessage
passed_back zero r = r
passed_back (suc k) r = passed_back k (forward_response_upstream r)

one_back :
    (r : SipMessage) (top next : Via) (others : List Via)
    → r.vias ≡ top ∷ next ∷ others
    → (forward_response_upstream r).vias ≡ next ∷ others
unfolding forward_response_upstream
one_back r top next others h = ground (arith, h)

passed_back-vias :
    (above : List Via) (r : SipMessage) (base : Via) (others : List Via)
    → r.vias ≡ above ++ base ∷ others
    → (passed_back (length above) r).vias ≡ base ∷ others
passed_back-vias [] r base others h = h
passed_back-vias (top ∷ []) r base others h = one_back r top base others h
passed_back-vias (top ∷ next ∷ above) r base others h =
    passed_back-vias (next ∷ above) (forward_response_upstream r) base others
      (one_back r top next (above ++ base ∷ others) h)

-- What the development needs of osip: a Via header that a proxy writes is read, with the branch that
-- it names.
abbrev pub IsVia : (Text → Option Via) → Hop → Type 0
IsVia via_parse (p, transport, branch) =
    (via : Via) × (via_parse (via_text transport p.local_address p.local_port branch) ≡ some via)
    × (via.branch ≡ some branch)

abbrev pub AreVias : (Text → Option Via) → List Hop → Type 0
AreVias via_parse [] = Unit
AreVias via_parse (h ∷ hs) = IsVia via_parse h × AreVias via_parse hs

then_hops : (Text → Option Via) → List Hop → Prepared → Prepared
then_hops via_parse ps throws = throws
then_hops via_parse ps (refused e n) = refused e n
then_hops via_parse ps (prepared n) = hops via_parse ps n

hops_step :
    (via_parse : Text → Option Via) (p : ProxyCore) (transport branch : Text) (ps : List Hop)
    (m : SipMessage)
    → hops via_parse ((p, transport, branch) ∷ ps) m
      ≡ then_hops via_parse ps (prepare_request_for_forward via_parse p m transport branch)
unfolding then_hops
hops_step via_parse p transport branch ps m = refl

sent_by :
    (via_parse : Text → Option Via) (ps : List Hop) (out : SipMessage) (r : Prepared)
    → then_hops via_parse ps r ≡ prepared out
    → (n : SipMessage) × (r ≡ prepared n) × (hops via_parse ps n ≡ prepared out)
unfolding then_hops
sent_by via_parse ps out throws sent = absurd (ground (arith, sent))
sent_by via_parse ps out (refused e n) sent = absurd (ground (arith, sent))
sent_by via_parse ps out (prepared n) sent = (n, refl, sent)

prepared_same : {m n : SipMessage} → prepared m ≡ prepared n → m ≡ n
prepared_same h = cc

hops-vias :
    (via_parse : Text → Option Via) (ps : List Hop) (m out : SipMessage)
    → AreVias via_parse ps
    → hops via_parse ps m ≡ prepared out
    → (above : List Via) × (length above ≡ length ps) × (out.vias ≡ above ++ m.vias)
hops-vias via_parse [] m out reads sent = ([], refl, ap (λ k. k.vias) (sym (prepared_same sent)))
hops-vias via_parse ((p, transport, branch) ∷ ps) m out ((via, read, named), reads) sent =
    let (n, first, later) =
      sent_by via_parse ps out (prepare_request_for_forward via_parse p m transport branch)
        (sym (hops_step via_parse p transport branch ps m) ∙ sent) in
    let (above, size, stacked) = hops-vias via_parse ps n out reads later in
    let on_top = prepare-vias via_parse p m n transport branch via read first in
    (
      above ++ via ∷ [],
      omega (arith, size, length-append above (via ∷ [])),
      stacked ∙ ap (λ v. above ++ v) on_top ∙ sym (append_assoc above (via ∷ []) m.vias),
    )

-- A request goes through any number of proxies, whose Via headers osip reads, and is answered: the
-- answer, passed back once by each proxy, has the Via headers that the request came with, of which
-- there is at least one.
pub passed_back-hops :
    (via_parse : Text → Option Via) (ps : List Hop) (m out : SipMessage) (code : ℕ)
    (tag to_header reason : Text)
    → AreVias via_parse ps
    → 1 ≤ length m.vias
    → hops via_parse ps m ≡ prepared out
    → (passed_back (length ps) (filled_response tag to_header out code reason)).vias ≡ m.vias
unfolding filled_response
passed_back-hops via_parse ps m out code tag to_header reason reads some_via sent =
    let (above, size, stacked) = hops-vias via_parse ps m out reads sent in
    let answer = filled_response tag to_header out code reason in
    subst (λ k. (passed_back k answer).vias ≡ m.vias) size
      (back above answer m.vias some_via stacked)
  where
    back :
        (above : List Via) (r : SipMessage) (vias : List Via)
        → 1 ≤ length vias
        → r.vias ≡ above ++ vias
        → (passed_back (length above) r).vias ≡ vias
    back above r [] none_left h = absurd (omega arith)
    back above r (base ∷ others) enough h = passed_back-vias above r base others h
