-- ===== src/Milenage/Reference.antt =====
-- The functions against 3GPP TS 35.206, section 4.1: OUT is E[rot(X, r) ⊕ c] ⊕ OPc.
use Prim.Native.Nat.{bit_xor}
use sim_ims.Prelude.{ℕ, ◌+◌, ◌%◌, ◌≡◌, refl, ◌++◌, take, drop, eqb, if◌then◌else◌}
use sim_ims.Milenage.{Block, get, bytes}
use sim_ims.Milenage.Rijndael.{key_schedule, rijndael_encrypt}
use sim_ims.Milenage.Functions.{f1, f1star, f2345, f5star, compute_opc}

-- The block whose byte j is `f j`.
abbrev pub tabulate : (ℕ → ℕ) → Block
tabulate f = record {
  b0 = f 0;
  b1 = f 1;
  b2 = f 2;
  b3 = f 3;
  b4 = f 4;
  b5 = f 5;
  b6 = f 6;
  b7 = f 7;
  b8 = f 8;
  b9 = f 9;
  b10 = f 10;
  b11 = f 11;
  b12 = f 12;
  b13 = f 13;
  b14 = f 14;
  b15 = f 15;
}

abbrev pub xor_block : Block → Block → Block
xor_block a b = tabulate (λ j. bit_xor (get a j) (get b j))

-- rot(X, 8 * k): k bytes to the left, cyclically.
abbrev pub rot : ℕ → Block → Block
rot k b = tabulate (λ j. get b ((j + k) % 16))

-- The constants c1 to c5: zero but for the last byte.
abbrev pub with_constant : Block → ℕ → Block
with_constant b c = tabulate (λ j. if eqb j 15 then bit_xor (get b j) c else get b j)

-- IN1 is SQN || AMF || SQN || AMF.
abbrev pub in1 : (ℕ → ℕ) → (ℕ → ℕ) → Block
in1 sqn amf =
    tabulate (λ j. if eqb (j % 8) 6 then amf 0 else if eqb (j % 8) 7 then amf 1 else sqn (j % 8))

module _ (op_c key rand : Block) where
  abbrev pub cipher : Block → Block
  cipher = rijndael_encrypt (key_schedule key)

  abbrev pub temp : Block
  temp = cipher (xor_block rand op_c)

  -- OUT2 to OUT5
  abbrev pub out : ℕ → ℕ → Block
  out r c = xor_block (cipher (with_constant (rot r (xor_block temp op_c)) c)) op_c

  abbrev pub reference_out1 : (ℕ → ℕ) → (ℕ → ℕ) → Block
  reference_out1 sqn amf =
      xor_block (cipher (xor_block (rot 8 (xor_block (in1 sqn amf) op_c)) temp)) op_c

-- For every key, OPc, RAND, SQN and AMF, the functions are those of the specification, with the
-- cipher as the block cipher E: f1 and f1* are the halves of OUT1 (rotation r1 = 64 bits), f2 and f5
-- the last 8 and first 6 bytes of OUT2 (r2 = 0), f3 and f4 are OUT3 and OUT4 (r3 = 32, r4 = 64), f5*
-- the first 6 bytes of OUT5 (r5 = 96), and OPc is E[OP] ⊕ OP.
pub functions_lem :
    (op_c key rand op : Block) (sqn amf : ℕ → ℕ)
    → (f1 op_c key rand sqn amf ++ f1star op_c key rand sqn amf
        ≡ bytes (reference_out1 op_c key rand sqn amf))
      × (f2345 op_c key rand ≡ record {
        res = drop 8 (bytes (out op_c key rand 0 1));
        ck = bytes (out op_c key rand 4 2);
        ik = bytes (out op_c key rand 8 4);
        ak = take 6 (bytes (out op_c key rand 0 1));
      })
      × (f5star op_c key rand ≡ take 6 (bytes (out op_c key rand 12 8)))
      × (compute_opc op key ≡ xor_block (rijndael_encrypt (key_schedule key) op) op)
unfolding f1 f1star f2345 f5star compute_opc
functions_lem op_c key rand op sqn amf = (refl, refl, refl, refl)
