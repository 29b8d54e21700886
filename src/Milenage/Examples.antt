-- ===== src/Milenage/Examples.antt =====
-- 3GPP TS 35.207, test set 1.
use sim_ims.Milenage.Reference.{functions_lem, reference_out1, out, xor_block}
use sim_ims.Prelude.{◌++◌, drop, take, ℕ, ◌≡◌, refl, [], ◌∷◌}
use sim_ims.Milenage.{Block, bytes}
use sim_ims.Milenage.Rijndael.{rijndael_encrypt, key_schedule, nth}
use sim_ims.Milenage.Functions.{f1, f1star, f2345, f5star, compute_opc}

abbrev key : Block
key = record {
  b0 = 70;
  b1 = 91;
  b2 = 92;
  b3 = 232;
  b4 = 177;
  b5 = 153;
  b6 = 180;
  b7 = 159;
  b8 = 170;
  b9 = 95;
  b10 = 10;
  b11 = 46;
  b12 = 226;
  b13 = 56;
  b14 = 166;
  b15 = 188;
}

abbrev pub rand : Block
rand = record {
  b0 = 35;
  b1 = 85;
  b2 = 60;
  b3 = 190;
  b4 = 150;
  b5 = 55;
  b6 = 168;
  b7 = 157;
  b8 = 33;
  b9 = 138;
  b10 = 230;
  b11 = 77;
  b12 = 174;
  b13 = 71;
  b14 = 191;
  b15 = 53;
}

abbrev op : Block
op = record {
  b0 = 205;
  b1 = 194;
  b2 = 2;
  b3 = 213;
  b4 = 18;
  b5 = 62;
  b6 = 32;
  b7 = 246;
  b8 = 43;
  b9 = 109;
  b10 = 103;
  b11 = 106;
  b12 = 199;
  b13 = 44;
  b14 = 179;
  b15 = 24;
}

abbrev op_c : Block
op_c = record {
  b0 = 205;
  b1 = 99;
  b2 = 203;
  b3 = 113;
  b4 = 149;
  b5 = 74;
  b6 = 159;
  b7 = 78;
  b8 = 72;
  b9 = 165;
  b10 = 153;
  b11 = 78;
  b12 = 55;
  b13 = 160;
  b14 = 43;
  b15 = 175;
}

abbrev sqn : ℕ → ℕ
sqn = nth (255 ∷ 155 ∷ 180 ∷ 208 ∷ 182 ∷ 7 ∷ [])

abbrev amf : ℕ → ℕ
amf i = 185

compute_opc_test : compute_opc op key ≡ op_c
unfolding compute_opc rijndael_encrypt key_schedule
compute_opc_test = refl

f1_test : f1 op_c key rand sqn amf ≡ 74 ∷ 159 ∷ 250 ∷ 195 ∷ 84 ∷ 223 ∷ 175 ∷ 179 ∷ []
unfolding f1 rijndael_encrypt key_schedule
f1_test = refl

f1star_test : f1star op_c key rand sqn amf ≡ 1 ∷ 207 ∷ 175 ∷ 158 ∷ 196 ∷ 232 ∷ 113 ∷ 233 ∷ []
unfolding f1star rijndael_encrypt key_schedule
f1star_test = refl

f2345_test : f2345 op_c key rand ≡ record {
  res = 165 ∷ 66 ∷ 17 ∷ 213 ∷ 227 ∷ 186 ∷ 80 ∷ 191 ∷ [];
  ck =
      180 ∷ 11 ∷ 169 ∷ 163 ∷ 197 ∷ 139 ∷ 42 ∷ 5 ∷ 187 ∷ 240 ∷ 217 ∷ 135 ∷ 178 ∷ 27 ∷ 248 ∷ 203 ∷ [];
  ik = 247 ∷ 105 ∷ 188 ∷ 215 ∷ 81 ∷ 4 ∷ 70 ∷ 4 ∷ 18 ∷ 118 ∷ 114 ∷ 113 ∷ 28 ∷ 109 ∷ 52 ∷ 65 ∷ [];
  ak = 170 ∷ 104 ∷ 156 ∷ 100 ∷ 131 ∷ 112 ∷ [];
}
unfolding f2345 rijndael_encrypt key_schedule
f2345_test = refl

f5star_test : f5star op_c key rand ≡ 69 ∷ 30 ∷ 139 ∷ 236 ∷ 164 ∷ 59 ∷ []
unfolding f5star rijndael_encrypt key_schedule
f5star_test = refl

functions_lem_example :
    (f1 op_c key rand sqn amf ++ f1star op_c key rand sqn amf
      ≡ bytes (reference_out1 op_c key rand sqn amf))
    × (f2345 op_c key rand ≡ record {
      res = drop 8 (bytes (out op_c key rand 0 1));
      ck = bytes (out op_c key rand 4 2);
      ik = bytes (out op_c key rand 8 4);
      ak = take 6 (bytes (out op_c key rand 0 1));
    })
    × (f5star op_c key rand ≡ take 6 (bytes (out op_c key rand 12 8)))
    × (compute_opc op key ≡ xor_block (rijndael_encrypt (key_schedule key) op) op)
functions_lem_example = functions_lem op_c key rand op sqn amf
