-- ===== src/Milenage.antt =====
-- crypt/milenage.cpp: the 3GPP authentication functions over the block cipher Rijndael. An array of
-- 16 bytes is a `Block`; a shorter array that is only read is the function of its index. An array
-- that the code leaves uninitialised starts as `zeros`; every byte of it is written before it is read.
pub mod Bits
pub mod Rijndael
pub mod Functions
pub mod Reference
pub mod Tables
pub mod Examples
use sim_ims.Prelude.{ℕ, zero, suc, List, [], ◌∷◌, eqb, if◌then◌else◌}
use sim_ims.Prelude.Text.{Text}

pub record Block : Type 0 where
  pub b0 : ℕ
  pub b1 : ℕ
  pub b2 : ℕ
  pub b3 : ℕ
  pub b4 : ℕ
  pub b5 : ℕ
  pub b6 : ℕ
  pub b7 : ℕ
  pub b8 : ℕ
  pub b9 : ℕ
  pub b10 : ℕ
  pub b11 : ℕ
  pub b12 : ℕ
  pub b13 : ℕ
  pub b14 : ℕ
  pub b15 : ℕ

abbrev pub zeros : Block
zeros = record {
  b0 = 0;
  b1 = 0;
  b2 = 0;
  b3 = 0;
  b4 = 0;
  b5 = 0;
  b6 = 0;
  b7 = 0;
  b8 = 0;
  b9 = 0;
  b10 = 0;
  b11 = 0;
  b12 = 0;
  b13 = 0;
  b14 = 0;
  b15 = 0;
}

-- b[i]
abbrev pub get : Block → ℕ → ℕ
get b i =
    if eqb i 0
    then b.b0
    else if eqb i 1
    then b.b1
    else if eqb i 2
    then b.b2
    else if eqb i 3
    then b.b3
    else if eqb i 4
    then b.b4
    else if eqb i 5
    then b.b5
    else if eqb i 6
    then b.b6
    else if eqb i 7
    then b.b7
    else if eqb i 8
    then b.b8
    else if eqb i 9
    then b.b9
    else if eqb i 10
    then b.b10
    else if eqb i 11
    then b.b11
    else if eqb i 12
    then b.b12
    else if eqb i 13
    then b.b13
    else if eqb i 14
    then b.b14
    else b.b15

-- b[i] = v
abbrev pub set : Block → ℕ → ℕ → Block
set b i v = record {
  b0 = if eqb i 0 then v else b.b0;
  b1 = if eqb i 1 then v else b.b1;
  b2 = if eqb i 2 then v else b.b2;
  b3 = if eqb i 3 then v else b.b3;
  b4 = if eqb i 4 then v else b.b4;
  b5 = if eqb i 5 then v else b.b5;
  b6 = if eqb i 6 then v else b.b6;
  b7 = if eqb i 7 then v else b.b7;
  b8 = if eqb i 8 then v else b.b8;
  b9 = if eqb i 9 then v else b.b9;
  b10 = if eqb i 10 then v else b.b10;
  b11 = if eqb i 11 then v else b.b11;
  b12 = if eqb i 12 then v else b.b12;
  b13 = if eqb i 13 then v else b.b13;
  b14 = if eqb i 14 then v else b.b14;
  b15 = if eqb i 15 then v else b.b15;
}

-- for (i = 0; i < n; i++)
abbrev pub for_each : ℕ → (ℕ → Block → Block) → Block → Block
for_each zero body b = b
for_each (suc n) body b = body n (for_each n body b)

-- The bytes of a block.
abbrev pub bytes : Block → Text
bytes b =
    b.b0 ∷ b.b1 ∷ b.b2 ∷ b.b3 ∷ b.b4 ∷ b.b5 ∷ b.b6 ∷ b.b7 ∷ b.b8 ∷ b.b9 ∷ b.b10 ∷ b.b11 ∷ b.b12
    ∷ b.b13 ∷ b.b14 ∷ b.b15 ∷ []
