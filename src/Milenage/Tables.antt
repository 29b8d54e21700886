-- ===== src/Milenage/Tables.antt =====
-- The tables of the block cipher, against the field that they stand for: GF(2^8) modulo
-- x^8 + x^4 + x^3 + x + 1.
use Prim.Native.Nat.{bit_xor}
use sim_ims.Prelude.{
  ℕ, zero, suc, ◌+◌, ◌*◌, ◌/◌, ◌%◌, ◌<◌, ◌≡◌, refl, Bool, true, ◌&&◌, arith, eqb, ltb,
  if◌then◌else◌,
}
use sim_ims.Milenage.Rijndael.{s_box, xtime}

-- x times a field element: a shift, reduced by 0x1b where a bit is carried out.
abbrev times_x : ℕ → ℕ
times_x a = if ltb a 128 then 2 * a else bit_xor (2 * a % 256) 27

-- The product of two field elements, over the low bits of the first.
gf_mul_bits : ℕ → ℕ → ℕ → ℕ
gf_mul_bits zero a b = 0
gf_mul_bits (suc n) a b =
    let rest = gf_mul_bits n (a / 2) (times_x b) in if eqb (a % 2) 1 then bit_xor b rest else rest

abbrev pub gf_mul : ℕ → ℕ → ℕ
unfolding gf_mul_bits
gf_mul a b = gf_mul_bits 8 a b

-- a ^ 254, the inverse of a field element other than 0, and 0 for 0.
abbrev pub gf_inverse : ℕ → ℕ
unfolding gf_mul_bits
gf_inverse a =
    let a2 = gf_mul a a in
    let a4 = gf_mul a2 a2 in
    let a8 = gf_mul a4 a4 in
    let a16 = gf_mul a8 a8 in
    let a32 = gf_mul a16 a16 in
    let a64 = gf_mul a32 a32 in
    let a128 = gf_mul a64 a64 in
    gf_mul a128 (gf_mul a64 (gf_mul a32 (gf_mul a16 (gf_mul a8 (gf_mul a4 a2)))))

-- A byte, rotated left.
abbrev rotate_byte : ℕ → ℕ → ℕ
rotate_byte k a = a * k % 256 + a * k / 256

-- The affine map of the cipher.
abbrev pub affine : ℕ → ℕ
affine a = bit_xor 99 (
    bit_xor a (
      bit_xor (rotate_byte 2 a)
        (bit_xor (rotate_byte 4 a) (bit_xor (rotate_byte 8 a) (rotate_byte 16 a)))))

-- What the tables have to be at one byte.
abbrev is_right : ℕ → Bool
is_right byte =
    eqb (xtime byte) (gf_mul 2 byte)
    && eqb (s_box byte) (affine (gf_inverse byte))
    && eqb (gf_mul byte (gf_inverse byte)) (if eqb byte 0 then 0 else 1)

right_from_zero : ℕ → Bool
right_from_zero zero = true
right_from_zero (suc count) = right_from_zero count && is_right count

right_everywhere : right_from_zero 256 ≡ true
unfolding right_from_zero s_box xtime gf_mul_bits
right_everywhere = refl

right_at : (byte count : ℕ) → right_from_zero count ≡ true → byte < count → is_right byte ≡ true
unfolding right_from_zero
right_at byte zero checked small = absurd (omega arith)
right_at byte (suc count) checked small = ground (arith, right_at byte count)

-- For every byte: the table Xtime is multiplication by x in the field, and the S box is the affine
-- map of the field inverse, which is the inverse for every byte but 0.
pub tables_lem :
    (x : ℕ)
    → x < 256
    → (xtime x ≡ gf_mul 2 x)
      × (s_box x ≡ affine (gf_inverse x))
      × (gf_mul x (gf_inverse x) ≡ (if eqb x 0 then 0 else 1))
tables_lem x small = ground (arith, right_at x 256 right_everywhere small)
