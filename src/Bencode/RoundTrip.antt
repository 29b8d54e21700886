-- ===== src/Bencode/RoundTrip.antt =====
-- What bencode_encode writes, bencode_decode reads.
use mathlib.Core.List.{append_assoc}
use sim_ims.Prelude.{
  ℕ, zero, suc, ◌+◌, ◌^◌, ◌≤◌, ◌<◌, ◌≡◌, refl, ◌∙◌, ap, [], ◌∷◌, ◌++◌, length, length-append, drop,
  arith,
}
use sim_ims.Prelude.Text.{Text}
use sim_ims.Bencode.{
  Value, text, integer, list, dict, Values, no_values, item, Entries, no_entries, entry, parsed,
  signed, encode_text, bencode_encode, encode_items, encode_entries,
}
use sim_ims.Bencode.Decimal.{IsInt64}
use sim_ims.Bencode.Positions.{drop_past}
use sim_ims.Bencode.Strings.{parse_integer-signed}
use sim_ims.Bencode.Parse.{
  parse, parse_items, parse_entries, then_parse, with_key, insert_entry, bencode_decode,
}
use sim_ims.Bencode.Order.{IsAscending, insert_all, insert_all_ascending}
use sim_ims.Bencode.Dispatch.{
  parse-text, encode_text-starts, encode-starts, nonempty, parse_key, more_items, more_entries,
  inside, closed, at_integer, at_list, at_dict,
}

-- Integers are in range and the keys of each dictionary ascend.
unfoldable mutual
  pub IsEncodable : Value → Type 0
  IsEncodable (text s) = Unit
  IsEncodable (integer i) = IsInt64 i
  IsEncodable (list vs) = AreEncodable vs
  IsEncodable (dict es) = IsAscending es × HaveEncodable es

  pub AreEncodable : Values → Type 0
  AreEncodable no_values = Unit
  AreEncodable (item v vs) = IsEncodable v × AreEncodable vs

  pub HaveEncodable : Entries → Type 0
  HaveEncodable no_entries = Unit
  HaveEncodable (entry k v es) = IsEncodable v × HaveEncodable es

mutual
  unfolding bencode_encode parse IsEncodable

  parse-encode :
      (v : Value) (fuel : ℕ) (bytes : Text) (at : ℕ) (rest : Text)
      → IsEncodable v
      → length bytes < 2 ^ 64
      → length (bencode_encode v) ≤ fuel
      → drop at bytes ≡ bencode_encode v ++ rest
      → parse fuel bytes at ≡ parsed v (at + length (bencode_encode v))
  parse-encode v zero bytes at rest good small enough here =
      let some_byte = nonempty (bencode_encode v) (encode-starts v) in
      ground (arith, some_byte, enough)
  parse-encode (text s) (suc fuel) bytes at rest good small enough here =
      parse-text fuel bytes at s rest small here
  parse-encode (integer i) (suc fuel) bytes at rest good small enough here =
      at_integer fuel bytes at ((signed i ++ 101 ∷ []) ++ rest) here
      ∙ parse_integer-signed bytes (at + 1) i rest good (inside bytes at 105 (signed i) rest here)
      ∙ ap (λ n. parsed (integer i) n) (closed at (signed i))
  parse-encode (list vs) (suc fuel) bytes at rest good small enough here =
      let xs = encode_items vs in
      let sum = length-append xs (101 ∷ []) in
      let items =
        parse_items-encode_items vs fuel bytes (at + 1) rest good small (omega (arith, enough, sum))
          (inside bytes at 108 xs rest here) in
      at_list fuel bytes at ((xs ++ 101 ∷ []) ++ rest) here
      ∙ ap (λ r. then_parse r (λ vs' next. parsed (list vs') next)) items
      ∙ ap (λ n. parsed (list vs) n) (closed at xs)
  parse-encode (dict es) (suc fuel) bytes at rest good small enough here =
      let xs = encode_entries es in
      let sum = length-append xs (101 ∷ []) in
      let entries =
        parse_entries-encode_entries es fuel bytes (at + 1) rest no_entries good.1 small
          (omega (arith, enough, sum)) (inside bytes at 100 xs rest here) in
      at_dict fuel bytes at ((xs ++ 101 ∷ []) ++ rest) here
      ∙ ap (λ r. then_parse r (λ es' next. parsed (dict es') next)) entries
      ∙ ap (λ es'. parsed (dict es') (at + 1 + length xs + 1)) (insert_all_ascending es good.0)
      ∙ ap (λ n. parsed (dict es) n) (closed at xs)

  parse_items-encode_items :
      (vs : Values) (fuel : ℕ) (bytes : Text) (at : ℕ) (rest : Text)
      → AreEncodable vs
      → length bytes < 2 ^ 64
      → length (encode_items vs) < fuel
      → drop at bytes ≡ encode_items vs ++ 101 ∷ rest
      → parse_items fuel bytes at ≡ parsed vs (at + length (encode_items vs) + 1)
  parse_items-encode_items vs zero bytes at rest good small enough here = ground (arith, enough)
  parse_items-encode_items no_values (suc fuel) bytes at rest good small enough here =
      ground (arith, here)
  parse_items-encode_items (item v vs) (suc fuel) bytes at rest good small enough here =
      let xs = bencode_encode v in
      let ys = encode_items vs in
      let sum = length-append xs ys in
      let some_byte = nonempty xs (encode-starts v) in
      let apart = here ∙ append_assoc xs ys (101 ∷ rest) in
      let first =
        parse-encode v fuel bytes at (ys ++ 101 ∷ rest) good.0 small (omega (arith, enough, sum))
          apart in
      let others =
        parse_items-encode_items vs fuel bytes (at + length xs) rest good.1 small
          (omega (arith, enough, sum, some_byte))
          (drop_past at bytes xs (ys ++ 101 ∷ rest) apart) in
      let end : at + length xs + length ys + 1 ≡ at + length (xs ++ ys) + 1 = omega (arith, sum) in
      more_items fuel bytes at xs (ys ++ 101 ∷ rest) (encode-starts v) apart
      ∙ ap
          (λ r.
            then_parse r (λ w next.
              then_parse (parse_items fuel bytes next) (λ ws end. parsed (item w ws) end)))
          first
      ∙ ap (λ r. then_parse r (λ ws end. parsed (item v ws) end)) others
      ∙ ap (λ n. parsed (item v vs) n) end

  parse_entries-encode_entries :
      (es : Entries) (fuel : ℕ) (bytes : Text) (at : ℕ) (rest : Text) (acc : Entries)
      → HaveEncodable es
      → length bytes < 2 ^ 64
      → length (encode_entries es) < fuel
      → drop at bytes ≡ encode_entries es ++ 101 ∷ rest
      → parse_entries fuel bytes at acc
        ≡ parsed (insert_all acc es) (at + length (encode_entries es) + 1)
  parse_entries-encode_entries es zero bytes at rest acc good small enough here =
      ground (arith, enough)
  parse_entries-encode_entries no_entries (suc fuel) bytes at rest acc good small enough here =
      ground (arith, here)
  parse_entries-encode_entries (entry k v es) (suc fuel) bytes at rest acc good small enough here =
      let ks = encode_text k in
      let xs = bencode_encode v in
      let ys = encode_entries es in
      let sum = length-append ks xs in
      let sums = length-append (ks ++ xs) ys in
      let key_byte = nonempty ks (encode_text-starts k) in
      let some_byte = nonempty xs (encode-starts v) in
      let apart =
        here ∙ append_assoc (ks ++ xs) ys (101 ∷ rest) ∙ append_assoc ks xs (ys ++ 101 ∷ rest) in
      let then_value = drop_past at bytes ks (xs ++ (ys ++ 101 ∷ rest)) apart in
      let then_rest = drop_past (at + length ks) bytes xs (ys ++ 101 ∷ rest) then_value in
      let key =
        parse_key fuel bytes at k (xs ++ (ys ++ 101 ∷ rest))
          (omega (arith, enough, sum, sums, key_byte, some_byte)) small apart in
      let value =
        parse-encode v fuel bytes (at + length ks) (ys ++ 101 ∷ rest) good.0 small
          (omega (arith, enough, sum, sums)) then_value in
      let others =
        parse_entries-encode_entries es fuel bytes (at + length ks + length xs) rest
          (insert_entry k v acc) good.1 small (omega (arith, enough, sum, sums, key_byte))
          then_rest in
      let end : at + length ks + length xs + length ys + 1 ≡ at + length (ks ++ xs ++ ys) + 1 =
        omega (arith, sum, sums) in
      more_entries fuel bytes at ks (xs ++ (ys ++ 101 ∷ rest)) acc (encode_text-starts k) apart
      ∙ ap
          (λ r. then_parse r (λ key' next. with_key key' (λ j.
            then_parse (parse fuel bytes next)
              (λ w end. parse_entries fuel bytes end (insert_entry j w acc)))))
          key
      ∙ ap (λ r. then_parse r (λ w end. parse_entries fuel bytes end (insert_entry k w acc))) value
      ∙ others
      ∙ ap (λ n. parsed (insert_all (insert_entry k v acc) es) n) end

append_none : (s : Text) → s ≡ s ++ []
append_none [] = refl
append_none (c ∷ s) = ap (λ t. c ∷ t) (append_none s)

-- What is encoded is decoded to the same value, and all of it is read: for every value whose
-- integers fit an int64_t, whose dictionaries list their keys in order, and whose encoding is shorter
-- than 2^64 bytes. The fuel that the decoder starts with is enough.
pub bencode_decode-bencode_encode :
    (v : Value)
    → IsEncodable v
    → length (bencode_encode v) < 2 ^ 64
    → bencode_decode (bencode_encode v) ≡ parsed v (length (bencode_encode v))
unfolding bencode_decode
bencode_decode-bencode_encode v good small =
    parse-encode v (suc (length (bencode_encode v))) (bencode_encode v) 0 [] good small
      (omega arith) (append_none (bencode_encode v))
    ∙ ap (λ n. parsed v n) (omega arith)
