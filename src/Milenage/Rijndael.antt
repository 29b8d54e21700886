-- ===== src/Milenage/Rijndael.antt =====
-- The block cipher of crypt/milenage.cpp. The state and a round key, 4 by 4 there, are blocks by
-- columns: [r][c] is byte 4 * c + r, which is also how the code fills and empties them.
use Prim.Native.Nat.{bit_xor}
use sim_ims.Prelude.{ℕ, zero, suc, ◌+◌, ◌*◌, List, [], ◌∷◌}
use sim_ims.Prelude.Text.{Text}
use sim_ims.Milenage.{Block, get}

abbrev pub nth : Text → ℕ → ℕ
nth [] i = 0
nth (x ∷ xs) zero = x
nth (x ∷ xs) (suc i) = nth xs i

abbrev s_table : Text
s_table =
    99 ∷ 124 ∷ 119 ∷ 123 ∷ 242 ∷ 107 ∷ 111 ∷ 197 ∷ 48 ∷ 1 ∷ 103 ∷ 43 ∷ 254 ∷ 215 ∷ 171 ∷ 118 ∷ 202
    ∷ 130 ∷ 201 ∷ 125 ∷ 250 ∷ 89 ∷ 71 ∷ 240 ∷ 173 ∷ 212 ∷ 162 ∷ 175 ∷ 156 ∷ 164 ∷ 114 ∷ 192 ∷ 183
    ∷ 253 ∷ 147 ∷ 38 ∷ 54 ∷ 63 ∷ 247 ∷ 204 ∷ 52 ∷ 165 ∷ 229 ∷ 241 ∷ 113 ∷ 216 ∷ 49 ∷ 21 ∷ 4 ∷ 199
    ∷ 35 ∷ 195 ∷ 24 ∷ 150 ∷ 5 ∷ 154 ∷ 7 ∷ 18 ∷ 128 ∷ 226 ∷ 235 ∷ 39 ∷ 178 ∷ 117 ∷ 9 ∷ 131 ∷ 44 ∷ 26
    ∷ 27 ∷ 110 ∷ 90 ∷ 160 ∷ 82 ∷ 59 ∷ 214 ∷ 179 ∷ 41 ∷ 227 ∷ 47 ∷ 132 ∷ 83 ∷ 209 ∷ 0 ∷ 237 ∷ 32
    ∷ 252 ∷ 177 ∷ 91 ∷ 106 ∷ 203 ∷ 190 ∷ 57 ∷ 74 ∷ 76 ∷ 88 ∷ 207 ∷ 208 ∷ 239 ∷ 170 ∷ 251 ∷ 67 ∷ 77
    ∷ 51 ∷ 133 ∷ 69 ∷ 249 ∷ 2 ∷ 127 ∷ 80 ∷ 60 ∷ 159 ∷ 168 ∷ 81 ∷ 163 ∷ 64 ∷ 143 ∷ 146 ∷ 157 ∷ 56
    ∷ 245 ∷ 188 ∷ 182 ∷ 218 ∷ 33 ∷ 16 ∷ 255 ∷ 243 ∷ 210 ∷ 205 ∷ 12 ∷ 19 ∷ 236 ∷ 95 ∷ 151 ∷ 68 ∷ 23
    ∷ 196 ∷ 167 ∷ 126 ∷ 61 ∷ 100 ∷ 93 ∷ 25 ∷ 115 ∷ 96 ∷ 129 ∷ 79 ∷ 220 ∷ 34 ∷ 42 ∷ 144 ∷ 136 ∷ 70
    ∷ 238 ∷ 184 ∷ 20 ∷ 222 ∷ 94 ∷ 11 ∷ 219 ∷ 224 ∷ 50 ∷ 58 ∷ 10 ∷ 73 ∷ 6 ∷ 36 ∷ 92 ∷ 194 ∷ 211 ∷ 172
    ∷ 98 ∷ 145 ∷ 149 ∷ 228 ∷ 121 ∷ 231 ∷ 200 ∷ 55 ∷ 109 ∷ 141 ∷ 213 ∷ 78 ∷ 169 ∷ 108 ∷ 86 ∷ 244
    ∷ 234 ∷ 101 ∷ 122 ∷ 174 ∷ 8 ∷ 186 ∷ 120 ∷ 37 ∷ 46 ∷ 28 ∷ 166 ∷ 180 ∷ 198 ∷ 232 ∷ 221 ∷ 116 ∷ 31
    ∷ 75 ∷ 189 ∷ 139 ∷ 138 ∷ 112 ∷ 62 ∷ 181 ∷ 102 ∷ 72 ∷ 3 ∷ 246 ∷ 14 ∷ 97 ∷ 53 ∷ 87 ∷ 185 ∷ 134
    ∷ 193 ∷ 29 ∷ 158 ∷ 225 ∷ 248 ∷ 152 ∷ 17 ∷ 105 ∷ 217 ∷ 142 ∷ 148 ∷ 155 ∷ 30 ∷ 135 ∷ 233 ∷ 206
    ∷ 85 ∷ 40 ∷ 223 ∷ 140 ∷ 161 ∷ 137 ∷ 13 ∷ 191 ∷ 230 ∷ 66 ∷ 104 ∷ 65 ∷ 153 ∷ 45 ∷ 15 ∷ 176 ∷ 84
    ∷ 187 ∷ 22 ∷ []

abbrev xtime_table : Text
xtime_table =
    0 ∷ 2 ∷ 4 ∷ 6 ∷ 8 ∷ 10 ∷ 12 ∷ 14 ∷ 16 ∷ 18 ∷ 20 ∷ 22 ∷ 24 ∷ 26 ∷ 28 ∷ 30 ∷ 32 ∷ 34 ∷ 36 ∷ 38
    ∷ 40 ∷ 42 ∷ 44 ∷ 46 ∷ 48 ∷ 50 ∷ 52 ∷ 54 ∷ 56 ∷ 58 ∷ 60 ∷ 62 ∷ 64 ∷ 66 ∷ 68 ∷ 70 ∷ 72 ∷ 74 ∷ 76
    ∷ 78 ∷ 80 ∷ 82 ∷ 84 ∷ 86 ∷ 88 ∷ 90 ∷ 92 ∷ 94 ∷ 96 ∷ 98 ∷ 100 ∷ 102 ∷ 104 ∷ 106 ∷ 108 ∷ 110 ∷ 112
    ∷ 114 ∷ 116 ∷ 118 ∷ 120 ∷ 122 ∷ 124 ∷ 126 ∷ 128 ∷ 130 ∷ 132 ∷ 134 ∷ 136 ∷ 138 ∷ 140 ∷ 142 ∷ 144
    ∷ 146 ∷ 148 ∷ 150 ∷ 152 ∷ 154 ∷ 156 ∷ 158 ∷ 160 ∷ 162 ∷ 164 ∷ 166 ∷ 168 ∷ 170 ∷ 172 ∷ 174 ∷ 176
    ∷ 178 ∷ 180 ∷ 182 ∷ 184 ∷ 186 ∷ 188 ∷ 190 ∷ 192 ∷ 194 ∷ 196 ∷ 198 ∷ 200 ∷ 202 ∷ 204 ∷ 206 ∷ 208
    ∷ 210 ∷ 212 ∷ 214 ∷ 216 ∷ 218 ∷ 220 ∷ 222 ∷ 224 ∷ 226 ∷ 228 ∷ 230 ∷ 232 ∷ 234 ∷ 236 ∷ 238 ∷ 240
    ∷ 242 ∷ 244 ∷ 246 ∷ 248 ∷ 250 ∷ 252 ∷ 254 ∷ 27 ∷ 25 ∷ 31 ∷ 29 ∷ 19 ∷ 17 ∷ 23 ∷ 21 ∷ 11 ∷ 9 ∷ 15
    ∷ 13 ∷ 3 ∷ 1 ∷ 7 ∷ 5 ∷ 59 ∷ 57 ∷ 63 ∷ 61 ∷ 51 ∷ 49 ∷ 55 ∷ 53 ∷ 43 ∷ 41 ∷ 47 ∷ 45 ∷ 35 ∷ 33 ∷ 39
    ∷ 37 ∷ 91 ∷ 89 ∷ 95 ∷ 93 ∷ 83 ∷ 81 ∷ 87 ∷ 85 ∷ 75 ∷ 73 ∷ 79 ∷ 77 ∷ 67 ∷ 65 ∷ 71 ∷ 69 ∷ 123 ∷ 121
    ∷ 127 ∷ 125 ∷ 115 ∷ 113 ∷ 119 ∷ 117 ∷ 107 ∷ 105 ∷ 111 ∷ 109 ∷ 99 ∷ 97 ∷ 103 ∷ 101 ∷ 155 ∷ 153
    ∷ 159 ∷ 157 ∷ 147 ∷ 145 ∷ 151 ∷ 149 ∷ 139 ∷ 137 ∷ 143 ∷ 141 ∷ 131 ∷ 129 ∷ 135 ∷ 133 ∷ 187 ∷ 185
    ∷ 191 ∷ 189 ∷ 179 ∷ 177 ∷ 183 ∷ 181 ∷ 171 ∷ 169 ∷ 175 ∷ 173 ∷ 163 ∷ 161 ∷ 167 ∷ 165 ∷ 219 ∷ 217
    ∷ 223 ∷ 221 ∷ 211 ∷ 209 ∷ 215 ∷ 213 ∷ 203 ∷ 201 ∷ 207 ∷ 205 ∷ 195 ∷ 193 ∷ 199 ∷ 197 ∷ 251 ∷ 249
    ∷ 255 ∷ 253 ∷ 243 ∷ 241 ∷ 247 ∷ 245 ∷ 235 ∷ 233 ∷ 239 ∷ 237 ∷ 227 ∷ 225 ∷ 231 ∷ 229 ∷ []

-- S[x]
unfoldable pub s_box : ℕ → ℕ
s_box x = nth s_table x

-- Xtime[x]
unfoldable pub xtime : ℕ → ℕ
xtime x = nth xtime_table x

abbrev pub at : Block → ℕ → ℕ → ℕ
at b r c = get b (4 * c + r)

unfoldable pub key_add : Block → Block → Block
key_add s k = record {
  b0 = bit_xor s.b0 k.b0;
  b1 = bit_xor s.b1 k.b1;
  b2 = bit_xor s.b2 k.b2;
  b3 = bit_xor s.b3 k.b3;
  b4 = bit_xor s.b4 k.b4;
  b5 = bit_xor s.b5 k.b5;
  b6 = bit_xor s.b6 k.b6;
  b7 = bit_xor s.b7 k.b7;
  b8 = bit_xor s.b8 k.b8;
  b9 = bit_xor s.b9 k.b9;
  b10 = bit_xor s.b10 k.b10;
  b11 = bit_xor s.b11 k.b11;
  b12 = bit_xor s.b12 k.b12;
  b13 = bit_xor s.b13 k.b13;
  b14 = bit_xor s.b14 k.b14;
  b15 = bit_xor s.b15 k.b15;
}

unfoldable pub byte_sub : Block → Block
unfolding s_box
byte_sub s = record {
  b0 = s_box s.b0;
  b1 = s_box s.b1;
  b2 = s_box s.b2;
  b3 = s_box s.b3;
  b4 = s_box s.b4;
  b5 = s_box s.b5;
  b6 = s_box s.b6;
  b7 = s_box s.b7;
  b8 = s_box s.b8;
  b9 = s_box s.b9;
  b10 = s_box s.b10;
  b11 = s_box s.b11;
  b12 = s_box s.b12;
  b13 = s_box s.b13;
  b14 = s_box s.b14;
  b15 = s_box s.b15;
}

-- Row r goes left by r.
unfoldable pub shift_row : Block → Block
shift_row s = record {
  b0 = at s 0 0;
  b1 = at s 1 1;
  b2 = at s 2 2;
  b3 = at s 3 3;
  b4 = at s 0 1;
  b5 = at s 1 2;
  b6 = at s 2 3;
  b7 = at s 3 0;
  b8 = at s 0 2;
  b9 = at s 1 3;
  b10 = at s 2 0;
  b11 = at s 3 1;
  b12 = at s 0 3;
  b13 = at s 1 0;
  b14 = at s 2 1;
  b15 = at s 3 2;
}

-- One byte of a column: state ^= temp ^ Xtime[state ^ next].
abbrev mix : ℕ → ℕ → ℕ → ℕ
mix temp a next = bit_xor a (bit_xor temp (xtime (bit_xor a next)))

abbrev column_sum : Block → ℕ → ℕ
column_sum s c = bit_xor (bit_xor (bit_xor (at s 0 c) (at s 1 c)) (at s 2 c)) (at s 3 c)

unfoldable pub mix_column : Block → Block
unfolding xtime
mix_column s = record {
  b0 = mix (column_sum s 0) (at s 0 0) (at s 1 0);
  b1 = mix (column_sum s 0) (at s 1 0) (at s 2 0);
  b2 = mix (column_sum s 0) (at s 2 0) (at s 3 0);
  b3 = mix (column_sum s 0) (at s 3 0) (at s 0 0);
  b4 = mix (column_sum s 1) (at s 0 1) (at s 1 1);
  b5 = mix (column_sum s 1) (at s 1 1) (at s 2 1);
  b6 = mix (column_sum s 1) (at s 2 1) (at s 3 1);
  b7 = mix (column_sum s 1) (at s 3 1) (at s 0 1);
  b8 = mix (column_sum s 2) (at s 0 2) (at s 1 2);
  b9 = mix (column_sum s 2) (at s 1 2) (at s 2 2);
  b10 = mix (column_sum s 2) (at s 2 2) (at s 3 2);
  b11 = mix (column_sum s 2) (at s 3 2) (at s 0 2);
  b12 = mix (column_sum s 3) (at s 0 3) (at s 1 3);
  b13 = mix (column_sum s 3) (at s 1 3) (at s 2 3);
  b14 = mix (column_sum s 3) (at s 2 3) (at s 3 3);
  b15 = mix (column_sum s 3) (at s 3 3) (at s 0 3);
}

-- The round key after one, with the round constant.
unfoldable pub next_round_key : ℕ → Block → Block
unfolding s_box
next_round_key const k =
    let k00 = bit_xor (bit_xor (s_box (at k 1 3)) (at k 0 0)) const in
    let k10 = bit_xor (s_box (at k 2 3)) (at k 1 0) in
    let k20 = bit_xor (s_box (at k 3 3)) (at k 2 0) in
    let k30 = bit_xor (s_box (at k 0 3)) (at k 3 0) in
    let k01 = bit_xor (at k 0 1) k00 in
    let k11 = bit_xor (at k 1 1) k10 in
    let k21 = bit_xor (at k 2 1) k20 in
    let k31 = bit_xor (at k 3 1) k30 in
    let k02 = bit_xor (at k 0 2) k01 in
    let k12 = bit_xor (at k 1 2) k11 in
    let k22 = bit_xor (at k 2 2) k21 in
    let k32 = bit_xor (at k 3 2) k31 in
    let k03 = bit_xor (at k 0 3) k02 in
    let k13 = bit_xor (at k 1 3) k12 in
    let k23 = bit_xor (at k 2 3) k22 in
    let k33 = bit_xor (at k 3 3) k32 in
    record {
      b0 = k00;
      b1 = k10;
      b2 = k20;
      b3 = k30;
      b4 = k01;
      b5 = k11;
      b6 = k21;
      b7 = k31;
      b8 = k02;
      b9 = k12;
      b10 = k22;
      b11 = k32;
      b12 = k03;
      b13 = k13;
      b14 = k23;
      b15 = k33;
    }

-- The round keys from one on, `n` after it.
unfoldable pub round_keys : ℕ → ℕ → Block → List Block
unfolding next_round_key xtime
round_keys zero const k = k ∷ []
round_keys (suc n) const k = k ∷ round_keys n (xtime const) (next_round_key const k)

unfoldable pub key_schedule : Block → List Block
unfolding round_keys
key_schedule key = round_keys 10 1 key

-- Full rounds, and the last one without MixColumn.
unfoldable pub rounds : List Block → Block → Block
unfolding key_add byte_sub shift_row mix_column
rounds [] s = s
rounds (k ∷ []) s = key_add (shift_row (byte_sub s)) k
rounds (k ∷ k' ∷ ks) s = rounds (k' ∷ ks) (key_add (mix_column (shift_row (byte_sub s))) k)

abbrev after_first : List Block → Block → Block
after_first [] s = s
after_first (k ∷ ks) s = rounds ks (key_add s k)

unfoldable pub rijndael_encrypt : List Block → Block → Block
unfolding rounds key_add
rijndael_encrypt keys input = after_first keys input
