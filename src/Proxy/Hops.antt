-- ===== src/Proxy/Hops.antt =====
-- A request through several proxies, and its response back through them.
use sim_ims.Prelude.{
  ℕ, zero, suc, ◌-◌, ◌≤◌, ◌<◌, ◌≡◌, refl, ap, ◌∙◌, Option, some, List, [], ◌∷◌, arith, length,
  Option-cases, inl, inr,
}
use sim_ims.Prelude.Text.{Text}
use sim_ims.Bencode.{ℤ, pos, negsuc, decimal, signed}
use sim_ims.Bencode.Decimal.{stoll-signed}
use sim_ims.Uri.Endpoints.{stoi}
use sim_ims.Message.{SipMessage, Via}
use sim_ims.Message.Forwarding.{max_forwards, set_max_forwards, decrement_max_forwards, add_via}
use sim_ims.Proxy.{
  ProxyCore, Prepared, throws, refused, prepared, prepare_request_for_forward, via_text,
  too_many_hops, defaulted,
}

-- A proxy, the transport of its destination and the branch that it draws.
abbrev pub Hop : Type 0
Hop = ProxyCore × Text × Text

stoi-decimal : (n : ℕ) → n ≤ 2147483647 → stoi (decimal n) ≡ some (pos n)
unfolding stoi signed
stoi-decimal n small = ground (arith, stoll-signed (pos n) (omega arith))

max_is :
    (n : ℕ) (m : SipMessage)
    → n ≤ 2147483647
    → m.max_forwards_header ≡ some (decimal n)
    → max_forwards m ≡ some (pos n)
unfolding max_forwards
max_is n m small header = rw header (stoi-decimal n small)

module _ (via_parse : Text → Option Via) where
  abbrev pub hops : List Hop → SipMessage → Prepared
  hops [] m = prepared m
  hops ((p, transport, branch) ∷ ps) m =
      elim (prepare_request_for_forward via_parse p m transport branch) [
        | throws ↦ throws
        | refused e n ↦ refused e n
        | prepared n ↦ hops ps n
      ]

  kept :
      (text : Text) (m : SipMessage)
      → (add_via via_parse text m).max_forwards_header ≡ m.max_forwards_header
  unfolding add_via
  kept text m = ground arith

  one_hop :
      (n : ℕ) (p : ProxyCore) (m : SipMessage) (transport branch : Text)
      → n < 2147483647
      → m.max_forwards_header ≡ some (decimal (suc n))
      → prepare_request_for_forward via_parse p m transport branch
        ≡ prepared (
            add_via via_parse
              (via_text transport p.local_address p.local_port branch)
              (record m { max_forwards_header = some (decimal n) }))
  unfolding prepare_request_for_forward decrement_max_forwards set_max_forwards
  one_hop n p m transport branch small header =
      rw
        (
          prepare_request_for_forward,
          max_is (suc n) m (omega arith) header,
          decrement_max_forwards,
          max_is (suc n) m (omega arith) header,
        )
        refl

  last_hop :
      (p : ProxyCore) (m : SipMessage) (transport branch : Text)
      → m.max_forwards_header ≡ some (decimal 0)
      → prepare_request_for_forward via_parse p m transport branch ≡ refused too_many_hops m
  unfolding prepare_request_for_forward
  last_hop p m transport branch header =
      rw (prepare_request_for_forward, max_is 0 m (omega arith) header) refl

  -- A request with Max-Forwards n passes at most n proxies, each of which lowers it by one; the next
  -- refuses it, whichever way the proxies forward it.
  pub hops-max_forwards :
      (ps : List Hop) (n : ℕ) (m : SipMessage)
      → n ≤ 2147483647
      → m.max_forwards_header ≡ some (decimal n)
      → (length ps ≤ n
          → (out : SipMessage) × (hops ps m ≡ prepared out)
            × (out.max_forwards_header ≡ some (decimal (n - length ps))))
        × (n < length ps → (last : SipMessage) × (hops ps m ≡ refused too_many_hops last))
  hops-max_forwards [] n m small header =
      let whole : n ≡ n - 0 = omega arith in
      ((λ _. (m, refl, header ∙ ap (λ k. some (decimal k)) whole)), λ many. absurd (omega arith))
  hops-max_forwards ((p, transport, branch) ∷ ps) zero m small header = (
    (λ few. absurd (omega arith)),
    λ many. rw (hops, last_hop p m transport branch header) (m, refl),
  )
  hops-max_forwards ((p, transport, branch) ∷ ps) (suc n) m small header =
      let lowered = record m { max_forwards_header = some (decimal n) } in
      let text = via_text transport p.local_address p.local_port branch in
      let rest =
        hops-max_forwards ps n (add_via via_parse text lowered) (omega arith) (kept text lowered) in
      rw (hops, one_hop n p m transport branch (omega arith) header)
        (
          (λ few.
              let (out, sent, left) = rest.0 (omega arith) in
              (out, sent, left ∙ ap (λ k. some (decimal k)) (omega arith))),
          λ many. rest.1 (omega arith),
        )

  decremented : (m n : SipMessage) → decrement_max_forwards m ≡ some n → n.vias ≡ m.vias
  unfolding decrement_max_forwards set_max_forwards
  decremented m n h = ground (arith, h)

  set_default : (mf : ℤ) (m : SipMessage) → (defaulted mf m).vias ≡ m.vias
  unfolding set_max_forwards
  set_default (pos n) m = refl
  set_default (negsuc n) m = refl

  added :
      (text : Text) (via : Via) (m : SipMessage)
      → via_parse text ≡ some via
      → (add_via via_parse text m).vias ≡ via ∷ m.vias
  unfolding add_via
  added text via m h = rw (add_via, h) refl

  -- A request that is forwarded has the Via of the proxy on top.
  pub prepare-vias :
      (p : ProxyCore) (m n : SipMessage) (transport branch : Text) (via : Via)
      → via_parse (via_text transport p.local_address p.local_port branch) ≡ some via
      → prepare_request_for_forward via_parse p m transport branch ≡ prepared n
      → n.vias ≡ via ∷ m.vias
  unfolding prepare_request_for_forward
  prepare-vias p m n transport branch via reads sent = elim (Option-cases (max_forwards m)) [
    | inl e ↦ ground (arith, sent, e)
    | inr (mf, e) ↦ elim (Option-cases (decrement_max_forwards (defaulted mf m))) [
      | inl f ↦ ground (arith, sent, e, f)
      | inr (k, f) ↦
          let same = decremented (defaulted mf m) k f ∙ set_default mf m in
          let on_top = added (via_text transport p.local_address p.local_port branch) via k reads in
          ground (arith, sent, e, f, same, on_top)
    ]
  ]
