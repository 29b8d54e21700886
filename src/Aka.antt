-- ===== src/Aka.antt =====
-- Authentication vectors: crypt/milenage_adapter.cpp, diameter/aka_vector_builder.cpp, the
-- authentication part of diameter/mongo_hss_client.cpp, and advanceSqn of
-- db/mongo_subscriber_repository.cpp. A masked number `x & (2^k - 1)` is written `x % 2 ^ k`.
pub mod Hex
pub mod Usim
pub mod Sequence
pub mod Examples
use Prim.Native.Nat.{bit_xor}
use sim_ims.Prelude.{
  ℕ, zero, suc, ◌+◌, ◌-◌, ◌*◌, ◌/◌, ◌%◌, ◌^◌, Bool, true, false, ◌&&◌, ◌||◌, Option, none, some,
  List, [], ◌∷◌, ◌++◌, length, eqb, leb, is_empty, if◌then◌else◌, ◌==◌,
}
use sim_ims.Prelude.Text.{Text, codes, text_instance, find_byte}
use sim_ims.Common.{
  Result, ok, err, ◌>>=◌, ErrorInfo, k_config_invalid_value, k_diameter_user_not_found,
}
use sim_ims.Uri.{substr}
use sim_ims.Milenage.{Block, bytes}
use sim_ims.Milenage.Rijndael.{nth}
use sim_ims.Milenage.Functions.{f1, f2345, compute_opc, Outputs}

-- common/config.hpp; the fields that the vectors are built from
pub record HssSubscriberConfig : Type 0 where
  pub imsi : Text
  pub realm : Text
  pub ki : Text
  pub operator_code_type : Text
  pub opc : Text
  pub op : Text
  pub sqn : Text
  pub amf : Text

pub record MilenageVector : Type 0 where
  pub autn : Text
  pub ck : Text
  pub ik : Text
  pub ak : Text
  pub xres : Text

-- diameter/types.hpp
pub record AuthVector : Type 0 where
  pub rand : Text
  pub autn : Text
  pub xres : Text
  pub ck : Text
  pub ik : Text

-- for (i = 0; i < n; i++) autn[i] = sqn[i] ^ ak[i], from i on
unfoldable pub conceal : ℕ → ℕ → (ℕ → ℕ) → Text → Text
conceal zero i sqn ak = []
conceal (suc n) i sqn ak = bit_xor (sqn i) (nth ak i) ∷ conceal n (suc i) sqn ak

unfoldable pub generate_vector : Block → Block → (ℕ → ℕ) → (ℕ → ℕ) → Block → MilenageVector
unfolding conceal
generate_vector opc k sqn amf rand =
    let out = f2345 opc k rand in
    let mac_a = f1 opc k rand sqn amf in
    record {
      autn = conceal 6 0 sqn out.ak ++ (amf 0 ∷ amf 1 ∷ mac_a);
      ck = out.ck;
      ik = out.ik;
      ak = out.ak;
      xres = out.res;
    }

abbrev pub invalid : Text → Text → ErrorInfo
invalid message detail = record {
  code = k_config_invalid_value;
  message = message;
  detail = detail;
}

unfoldable pub hex_value : ℕ → Option ℕ
hex_value c =
    if leb b'0' c && leb c b'9'
    then some (c - b'0')
    else if leb b'a' c && leb c b'f'
    then some (c - b'a' + 10)
    else if leb b'A' c && leb c b'F'
    then some (c - b'A' + 10)
    else none

abbrev pub join_digits : Option ℕ → Option ℕ → Option ℕ
join_digits (some hi) (some lo) = some (hi * 16 + lo)
join_digits _ _ = none

abbrev cons_byte : Option ℕ → Option Text → Option Text
cons_byte (some b) (some bs) = some (b ∷ bs)
cons_byte _ _ = none

-- The loop over pairs of digits.
unfoldable pub parse_pairs : Text → Option Text
unfolding hex_value
parse_pairs [] = some []
parse_pairs (c ∷ []) = none
parse_pairs (c ∷ d ∷ cs) = cons_byte (join_digits (hex_value c) (hex_value d)) (parse_pairs cs)

unfoldable pub parse_hex_exact : ℕ → Text → Text → Result Text
unfolding parse_pairs
parse_hex_exact n value field_name =
    if eqb (length value) (n * 2)
    then elim (parse_pairs value) [
      | none ↦ err (invalid (codes "invalid AKA hex field value") field_name)
      | some out ↦ ok out
    ]
    else err (invalid (codes "invalid AKA hex field length") field_name)

-- An array of 16 bytes.
abbrev pub block_of : Text → Block
block_of t = record {
  b0 = nth t 0;
  b1 = nth t 1;
  b2 = nth t 2;
  b3 = nth t 3;
  b4 = nth t 4;
  b5 = nth t 5;
  b6 = nth t 6;
  b7 = nth t 7;
  b8 = nth t 8;
  b9 = nth t 9;
  b10 = nth t 10;
  b11 = nth t 11;
  b12 = nth t 12;
  b13 = nth t 13;
  b14 = nth t 14;
  b15 = nth t 15;
}

abbrev from_op : Block → Text → Result Block
from_op k op = parse_hex_exact 16 op (codes "op") >>= λ o. ok (compute_opc (block_of o) k)

abbrev from_opc : Text → Result Block
from_opc opc = parse_hex_exact 16 opc (codes "opc") >>= λ o. ok (block_of o)

unfoldable pub resolve_opc : HssSubscriberConfig → Block → Result Block
unfolding parse_hex_exact
resolve_opc s k =
    if s.operator_code_type == codes "opc"
    then (if is_empty s.opc
        then err (invalid (codes "missing AKA opc for operator_code_type=opc") s.imsi)
        else from_opc s.opc)
    else if s.operator_code_type == codes "op"
    then (if is_empty s.op
        then err (invalid (codes "missing AKA op for operator_code_type=op") s.imsi)
        else from_op k s.op)
    else if is_empty s.opc
    then (if is_empty s.op
        then err (invalid (codes "missing AKA operator code") s.imsi)
        else from_op k s.op)
    else from_opc s.opc

abbrev pub auth_vector : Block → MilenageVector → AuthVector
auth_vector rand v = record {
  rand = bytes rand;
  autn = v.autn;
  xres = v.xres;
  ck = v.ck;
  ik = v.ik;
}

-- `rand` is what the generator yields.
unfoldable pub build_aka_auth_vector : HssSubscriberConfig → Block → Result AuthVector
unfolding resolve_opc parse_hex_exact generate_vector
build_aka_auth_vector s rand =
    if is_empty s.ki || is_empty s.sqn
    then err (invalid (codes "missing AKA subscriber material") s.imsi)
    else (parse_hex_exact 16 s.ki (codes "ki") >>= λ k. resolve_opc s (block_of k) >>= λ opc.
        parse_hex_exact 6 s.sqn (codes "sqn") >>= λ sqn.
        parse_hex_exact 2 (if is_empty s.amf then codes "8000" else s.amf) (codes "amf") >>= λ amf.
        ok (auth_vector rand (generate_vector opc (block_of k) (nth sqn) (nth amf) rand)))

-- A lower-case hex digit.
abbrev pub hex_digit : ℕ → ℕ
hex_digit d = if leb 10 d then b'a' + (d - 10) else b'0' + d

-- std::format("{:0nx}"), for a number of at most n digits, before a text
unfoldable pub hex_digits : ℕ → ℕ → Text → Text
hex_digits zero x rest = rest
hex_digits (suc n) x rest = hex_digits n (x / 16) (hex_digit (x % 16) ∷ rest)

-- db/subscriber_repository.hpp; the fields that the HSS adapter reads
pub record SubscriberRecord : Type 0 where
  pub impi : Text
  pub realm : Text
  pub ki : Text
  pub operator_code_type : Text
  pub opc : Text
  pub op : Text
  pub sqn : ℕ
  pub amf : Text

unfoldable pub split_username_realm : Text → Text × Text
split_username_realm impi = elim (find_byte b'@' impi) [
  | none ↦ (impi, [])
  | some i ↦ (substr impi 0 i, substr impi (i + 1) (length impi))
]

abbrev or_default : Text → Text → Text
or_default t d = if is_empty t then d else t

unfoldable pub to_hss_subscriber_config : SubscriberRecord → HssSubscriberConfig
unfolding split_username_realm hex_digits
to_hss_subscriber_config s =
    let names = split_username_realm s.impi in
    record {
      imsi = or_default names.0 s.impi;
      realm = or_default s.realm names.1;
      ki = s.ki;
      operator_code_type = s.operator_code_type;
      opc = s.opc;
      op = s.op;
      sqn = hex_digits 12 (s.sqn % 2 ^ 48) [];
      amf = or_default s.amf (codes "8000");
    }

abbrev pub k_sqn_step : ℕ
k_sqn_step = 32

-- `found` and `old_sqn` are what the repository answers, `rand` what the generator yields.
unfoldable pub multimedia_auth :
    Result (Option SubscriberRecord) → Result ℕ → Text → Block → Result AuthVector
unfolding build_aka_auth_vector to_hss_subscriber_config
multimedia_auth found old_sqn detail rand = found >>= λ subscriber. elim subscriber [
  | none ↦ err (record {
    code = k_diameter_user_not_found;
    message = codes "Subscriber not found for MAR";
    detail = detail;
  })
  | some s ↦ old_sqn >>= λ sqn.
      build_aka_auth_vector (to_hss_subscriber_config (record s { sqn = sqn })) rand
]
