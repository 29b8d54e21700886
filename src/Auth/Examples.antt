-- ===== src/Auth/Examples.antt =====
-- A nonce, there and back.
use sim_ims.Prelude.{◌+◌, ◌%◌, map, ◌≡◌, refl, [], ◌∷◌, arith}
use sim_ims.Prelude.Text.{Text, text_instance, codes}
use sim_ims.Aka.{AuthVector}
use sim_ims.Auth.{aka_nonce}
use sim_ims.Auth.{base64_encode, base64_decode, base64_char}
use sim_ims.Auth.Base64.{base64_decode-base64_encode}

encode_test : base64_encode (codes "Many hands") ≡ codes "TWFueSBoYW5kcw=="
unfolding base64_encode base64_char
encode_test = refl

base64_decode-base64_encode_example :
    base64_decode (base64_encode (255 ∷ 0 ∷ 16 ∷ 128 ∷ [])) ≡ 255 ∷ 0 ∷ 16 ∷ 128 ∷ []
base64_decode-base64_encode_example =
    base64_decode-base64_encode (255 ∷ 0 ∷ 16 ∷ 128 ∷ [])
      (omega arith, (omega arith, (omega arith, (omega arith, tt))))

-- A stand-in for the hash: letters that depend on the input.
abbrev letters : Text → Text
letters t = map (λ c. 97 + c % 26) t

abbrev vector : AuthVector
vector = record {
  rand = 1 ∷ 2 ∷ 3 ∷ [];
  autn = 4 ∷ 5 ∷ 6 ∷ [];
  xres = 7 ∷ 8 ∷ [];
  ck = [];
  ik = [];
}

nonce_test : aka_nonce vector ≡ codes "AQIDBAUG"
unfolding base64_encode base64_char
nonce_test = refl
