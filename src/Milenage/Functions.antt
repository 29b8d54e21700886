-- ===== src/Milenage/Functions.antt =====
-- f1 to f5* and OPc of crypt/milenage.cpp.
use Prim.Native.Nat.{bit_xor}
use sim_ims.Prelude.{ℕ, ◌+◌, ◌%◌, List, take, drop}
use sim_ims.Prelude.Text.{Text}
use sim_ims.Milenage.{Block, zeros, get, set, for_each, bytes}
use sim_ims.Milenage.Rijndael.{key_schedule, rijndael_encrypt}

-- for (i = 0; i < 16; i++) out[i] = a[i] ^ b[i]
unfoldable pub xor_loop : Block → Block → Block
xor_loop a b = for_each 16 (λ i out. set out i (bit_xor (get a i) (get b i))) zeros

-- for (i = 0; i < 16; i++) out[(i + k) % 16] = a[i] ^ b[i]
unfoldable pub rotated_xor_loop : ℕ → Block → Block → Block
rotated_xor_loop k a b =
    for_each 16 (λ i out. set out ((i + k) % 16) (bit_xor (get a i) (get b i))) zeros

-- in1: the sequence number and the management field, twice.
unfoldable pub fill_in1 : (ℕ → ℕ) → (ℕ → ℕ) → Block
fill_in1 sqn amf =
    for_each 2 (λ i b. set (set b (i + 6) (amf i)) (i + 14) (amf i))
      (for_each 6 (λ i b. set (set b i (sqn i)) (i + 8) (sqn i)) zeros)

-- b[15] ^= c
unfoldable pub xor_last : Block → ℕ → Block
xor_last b c = set b 15 (bit_xor (get b 15) c)

-- The block that f1 and f1* take their halves of.
unfoldable pub out1 : Block → Block → Block → (ℕ → ℕ) → (ℕ → ℕ) → Block
unfolding xor_loop rotated_xor_loop fill_in1
out1 op_c key rand sqn amf =
    let keys = key_schedule key in
    let temp = rijndael_encrypt keys (xor_loop rand op_c) in
    let input = rotated_xor_loop 8 (fill_in1 sqn amf) op_c in
    xor_loop (rijndael_encrypt keys (xor_loop input temp)) op_c

unfoldable pub f1 : Block → Block → Block → (ℕ → ℕ) → (ℕ → ℕ) → Text
unfolding out1
f1 op_c key rand sqn amf = take 8 (bytes (out1 op_c key rand sqn amf))

unfoldable pub f1star : Block → Block → Block → (ℕ → ℕ) → (ℕ → ℕ) → Text
unfolding out1
f1star op_c key rand sqn amf = drop 8 (bytes (out1 op_c key rand sqn amf))

-- The blocks of f2 to f5*: TEMP and OPc, rotated, with a constant in the last byte.
unfoldable pub out_block : ℕ → ℕ → List Block → Block → Block → Block
unfolding rotated_xor_loop xor_last xor_loop
out_block k const keys temp op_c =
    xor_loop (rijndael_encrypt keys (xor_last (rotated_xor_loop k temp op_c) const)) op_c

pub record Outputs : Type 0 where
  pub res : Text
  pub ck : Text
  pub ik : Text
  pub ak : Text

unfoldable pub f2345 : Block → Block → Block → Outputs
unfolding out_block xor_loop
f2345 op_c k rand =
    let keys = key_schedule k in
    let temp = rijndael_encrypt keys (xor_loop rand op_c) in
    let out2 = bytes (out_block 0 1 keys temp op_c) in
    record {
      res = drop 8 out2;
      ak = take 6 out2;
      ck = bytes (out_block 12 2 keys temp op_c);
      ik = bytes (out_block 8 4 keys temp op_c);
    }

unfoldable pub f5star : Block → Block → Block → Text
unfolding out_block xor_loop
f5star op_c k rand =
    let keys = key_schedule k in
    let temp = rijndael_encrypt keys (xor_loop rand op_c) in
    take 6 (bytes (out_block 4 8 keys temp op_c))

unfoldable pub compute_opc : Block → Block → Block
unfolding xor_loop
compute_opc op key = xor_loop (rijndael_encrypt (key_schedule key) op) op
