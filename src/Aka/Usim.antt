-- ===== src/Aka/Usim.antt =====
-- The other side of the authentication: what a USIM with the same key does with RAND and AUTN
-- (3GPP TS 33.102, 6.3.3), and that it accepts the vectors that the HSS makes.
use sim_ims.Prelude.{
  ℕ, ◌+◌, ◌%◌, ◌^◌, ◌≡◌, refl, false, Option, none, some, [], ◌∷◌, drop, arith, is_empty,
  if◌then◌else◌, ◌==◌, ==-refl,
}
use sim_ims.Prelude.Text.{Text, codes, text_instance}
use sim_ims.Common.{ok}
use sim_ims.Milenage.{Block, bytes}
use sim_ims.Milenage.Bits.{xor_twice}
use sim_ims.Milenage.Rijndael.{nth}
use sim_ims.Milenage.Functions.{f1, f2345}
use sim_ims.Aka.{
  HssSubscriberConfig, SubscriberRecord, AuthVector, auth_vector, conceal, generate_vector,
  multimedia_auth, build_aka_auth_vector, to_hss_subscriber_config, resolve_opc, parse_hex_exact,
  block_of,
}
use sim_ims.Aka.Hex.{big_endian, parse_hex_exact-hex_digits, hex_digits-is_empty}

-- The sequence number that the USIM uncovers, if the MAC is right.
abbrev pub usim : Block → Block → Block → Text → Option Text
usim opc k rand autn =
    let sqn = conceal 6 0 (nth autn) (f2345 opc k rand).ak in
    if f1 opc k rand (nth sqn) (λ i. nth autn (6 + i)) == drop 8 autn then some sqn else none

abbrev six : (ℕ → ℕ) → Text
six f = f 0 ∷ f 1 ∷ f 2 ∷ f 3 ∷ f 4 ∷ f 5 ∷ []

uncovered :
    (opc k rand : Block) (sqn amf : ℕ → ℕ)
    → conceal 6 0 (nth (generate_vector opc k sqn amf rand).autn) (f2345 opc k rand).ak ≡ six sqn
unfolding generate_vector
uncovered opc k rand sqn amf =
    let ak = (f2345 opc k rand).ak in
    rw
      (
        xor_twice (sqn 0) (nth ak 0),
        xor_twice (sqn 1) (nth ak 1),
        xor_twice (sqn 2) (nth ak 2),
        xor_twice (sqn 3) (nth ak 3),
        xor_twice (sqn 4) (nth ak 4),
        xor_twice (sqn 5) (nth ak 5),
      )
      refl

mac_matches :
    (opc k rand : Block) (sqn amf : ℕ → ℕ)
    → let autn = (generate_vector opc k sqn amf rand).autn in
      f1 opc k rand (nth (six sqn)) (λ i. nth autn (6 + i)) ≡ drop 8 autn
unfolding generate_vector f1
mac_matches opc k rand sqn amf = refl

-- A vector made with OPc, a key and a sequence number is accepted by the USIM with the same OPc and
-- key, which uncovers that sequence number.
pub usim-generate_vector :
    (opc k rand : Block) (sqn amf : ℕ → ℕ)
    → usim opc k rand (generate_vector opc k sqn amf rand).autn ≡ some (six sqn)
usim-generate_vector opc k rand sqn amf =
    let autn = (generate_vector opc k sqn amf rand).autn in
    let found = uncovered opc k rand sqn amf in
    let mac = mac_matches opc k rand sqn amf in ground (arith, found, mac, ==-refl (drop 8 autn))

built :
    (c : HssSubscriberConfig) (rand opc : Block) (ki sqn amf : Text)
    → is_empty c.ki ≡ false
    → is_empty c.sqn ≡ false
    → parse_hex_exact 16 c.ki (codes "ki") ≡ ok ki
    → resolve_opc c (block_of ki) ≡ ok opc
    → parse_hex_exact 6 c.sqn (codes "sqn") ≡ ok sqn
    → parse_hex_exact 2 (if is_empty c.amf then codes "8000" else c.amf) (codes "amf") ≡ ok amf
    → build_aka_auth_vector c rand
      ≡ ok (auth_vector rand (generate_vector opc (block_of ki) (nth sqn) (nth amf) rand))
unfolding build_aka_auth_vector
built c rand opc ki sqn amf has_ki has_sqn key code number field =
    rw (has_ki, has_sqn, key, code, number, field) refl

default_amf :
    (amf : Text)
    → (if is_empty (if is_empty amf then codes "8000" else amf)
        then codes "8000"
        else (if is_empty amf then codes "8000" else amf))
      ≡ (if is_empty amf then codes "8000" else amf)
default_amf [] = refl
default_amf (c ∷ cs) = refl

-- Where the subscriber is found, its material reads as a key, an OPc and an AMF, and the repository
-- gives a sequence number, the answer to a MAR is a vector whose AUTN a USIM with that key and OPc
-- accepts, uncovering the sequence number, and whose XRES, CK and IK are the ones that the USIM
-- computes.
pub multimedia_auth-usim :
    (s : SubscriberRecord) (sqn : ℕ) (detail ki amf : Text) (opc rand : Block)
    → is_empty s.ki ≡ false
    → parse_hex_exact 16 s.ki (codes "ki") ≡ ok ki
    → resolve_opc (to_hss_subscriber_config (record s { sqn = sqn })) (block_of ki) ≡ ok opc
    → parse_hex_exact 2 (if is_empty s.amf then codes "8000" else s.amf) (codes "amf") ≡ ok amf
    → (v : AuthVector) × (multimedia_auth (ok (some s)) (ok sqn) detail rand ≡ ok v)
      × (usim opc (block_of ki) rand v.autn ≡ some (big_endian 6 (sqn % 2 ^ 48) []))
      × (v.rand ≡ bytes rand)
      × (v.xres ≡ (f2345 opc (block_of ki) rand).res)
      × (v.ck ≡ (f2345 opc (block_of ki) rand).ck)
      × (v.ik ≡ (f2345 opc (block_of ki) rand).ik)
unfolding multimedia_auth build_aka_auth_vector to_hss_subscriber_config generate_vector
multimedia_auth-usim s sqn detail ki amf opc rand has_ki key code field =
    let number = big_endian 6 (sqn % 2 ^ 48) [] in
    let vector = generate_vector opc (block_of ki) (nth number) (nth amf) rand in
    (
      auth_vector rand vector,
      built (to_hss_subscriber_config (record s { sqn = sqn })) rand opc ki number amf has_ki
          (hex_digits-is_empty (sqn % 2 ^ 48)) key code
          (parse_hex_exact-hex_digits (sqn % 2 ^ 48) (codes "sqn")) (rw (default_amf s.amf) field),
      usim-generate_vector opc (block_of ki) rand (nth number) (nth amf),
      refl,
      refl,
      refl,
      refl,
    )
