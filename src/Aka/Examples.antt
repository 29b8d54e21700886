-- ===== src/Aka/Examples.antt =====
-- A subscriber with the key of 3GPP TS 35.207, test set 1, and callers of advanceSqn.
use sim_ims.Prelude.{ℕ, ◌≡◌, refl, arith, List, [], ◌∷◌, some}
use sim_ims.Prelude.Text.{Text, codes}
use sim_ims.Common.{ok, Result}
use sim_ims.Milenage.{Block, bytes}
use sim_ims.Milenage.Functions.{f2345}
use sim_ims.Milenage.Examples.{rand}
use sim_ims.Aka.{
  SubscriberRecord, AuthVector, multimedia_auth, block_of, to_hss_subscriber_config, resolve_opc,
  parse_hex_exact,
}
use sim_ims.Aka.Usim.{usim, multimedia_auth-usim}
use sim_ims.Aka.Sequence.{
  advance_sqn, next_sqn, retry, Answer, done, returned, run, initial, run-IsDistinct, IsDistinct,
  run-returned,
}

abbrev subscriber : SubscriberRecord
subscriber = record {
  impi = codes "460001@ims";
  realm = [];
  ki = codes "465b5ce8b199b49faa5f0a2ee238a6bc";
  operator_code_type = codes "opc";
  opc = codes "cd63cb71954a9f4e48a5994e37a02baf";
  op = [];
  sqn = 64;
  amf = [];
}

abbrev ki : Text
ki = 70 ∷ 91 ∷ 92 ∷ 232 ∷ 177 ∷ 153 ∷ 180 ∷ 159 ∷ 170 ∷ 95 ∷ 10 ∷ 46 ∷ 226 ∷ 56 ∷ 166 ∷ 188 ∷ []

abbrev op_c : Block
op_c =
    block_of
      (205 ∷ 99 ∷ 203 ∷ 113 ∷ 149 ∷ 74 ∷ 159 ∷ 78 ∷ 72 ∷ 165 ∷ 153 ∷ 78 ∷ 55 ∷ 160 ∷ 43 ∷ 175 ∷ [])

parse_test : parse_hex_exact 16 (codes "465b5ce8b199b49faa5f0a2ee238a6bc") (codes "ki") ≡ ok ki
unfolding parse_hex_exact
parse_test = refl

multimedia_auth-usim_example :
    (v : AuthVector) × (multimedia_auth (ok (some subscriber)) (ok 64) [] rand ≡ ok v)
    × (usim op_c (block_of ki) rand v.autn ≡ some (0 ∷ 0 ∷ 0 ∷ 0 ∷ 0 ∷ 64 ∷ []))
    × (v.rand ≡ bytes rand)
    × (v.xres ≡ (f2345 op_c (block_of ki) rand).res)
    × (v.ck ≡ (f2345 op_c (block_of ki) rand).ck)
    × (v.ik ≡ (f2345 op_c (block_of ki) rand).ik)
unfolding parse_hex_exact resolve_opc to_hss_subscriber_config
multimedia_auth-usim_example =
    multimedia_auth-usim subscriber 64 [] ki (128 ∷ 0 ∷ []) op_c rand refl refl refl refl

-- Two callers read the same number; the second to update reads again.
abbrev turns : List (ℕ × Answer)
turns = (0, done) ∷ (1, done) ∷ (0, done) ∷ (1, done) ∷ (1, done) ∷ (1, done) ∷ []

turns_test : (run turns (initial 64)).issued ≡ 96 ∷ 64 ∷ []
unfolding advance_sqn next_sqn retry
turns_test = refl

run-IsDistinct_example : IsDistinct (run turns (initial 64)).issued
run-IsDistinct_example = run-IsDistinct 64 turns (omega arith) (omega arith)

-- Caller 1 is overtaken by another caller before each of its updates.
abbrev overtaken : List (ℕ × Answer)
overtaken =
    (1, done)
    ∷ (2, done)
    ∷ (2, done)
    ∷ (1, done)
    ∷ (1, done)
    ∷ (3, done)
    ∷ (3, done)
    ∷ (1, done)
    ∷ (1, done)
    ∷ (4, done)
    ∷ (4, done)
    ∷ (1, done)
    ∷ (1, done)
    ∷ (5, done)
    ∷ (5, done)
    ∷ (1, done)
    ∷ (1, done)
    ∷ (6, done)
    ∷ (6, done)
    ∷ (1, done)
    ∷ []

run-returned_example : (r : Result ℕ) × ((run overtaken (initial 64)).callers 1 ≡ returned r)
run-returned_example = run-returned 1 64 overtaken (omega arith)
