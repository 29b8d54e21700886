-- ===== src/Bencode/Examples.antt =====
-- A command of the RTPengine protocol, and a length that is too large.
use sim_ims.Prelude.{◌+◌, ◌-◌, ◌^◌, ◌<◌, ◌≡◌, refl, length, arith}
use sim_ims.Prelude.Text.{codes}
use sim_ims.Bencode.{
  Value, text, integer, list, dict, no_values, item, no_entries, entry, negsuc, parsed,
  bencode_encode, decimal,
}
use sim_ims.Bencode.Parse.{bencode_decode, text_lt}
use sim_ims.Bencode.RoundTrip.{IsEncodable, bencode_decode-bencode_encode}
use sim_ims.Bencode.Overflow.{parse_bytes-overflow}

abbrev command : Value
command = dict (
    entry (codes "a") (integer (negsuc 11))
      (entry (codes "b") (list (item (text (codes "xyz")) no_values)) no_entries))

bencode_encode-command : bencode_encode command ≡ codes "d1:ai-12e1:bl3:xyzee"
unfolding bencode_encode decimal
bencode_encode-command = refl

bencode_decode-bencode_encode_example :
    bencode_decode (bencode_encode command) ≡ parsed command (length (bencode_encode command))
unfolding bencode_encode decimal IsEncodable text_lt
bencode_decode-bencode_encode_example =
    bencode_decode-bencode_encode command (((refl, tt), (tt, tt)), (omega arith, ((tt, tt), tt)))
      (omega arith)

parse_bytes-overflow_example : 3 + (2 ^ 64 - 2) - 2 ^ 64 < 3
parse_bytes-overflow_example =
    (parse_bytes-overflow (codes "abcd") 3 (2 ^ 64 - 2) (omega arith) (omega arith) (omega arith)
      (omega arith)).1
