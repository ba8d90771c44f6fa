-- ===== src/Proto/Base64/Examples.antt =====
-- The texts that the tests of job.rs encode, and the theorems at such bytes.
use rust_build_server.Prelude.{
  ◌+◌, ◌*◌, ◌/◌, ◌≡◌, refl, [], ◌∷◌, Bytes, codes, length, ok, err, arith,
}
use rust_build_server.Proto.Base64.{
  encode, encode_chunk, decode, table, table_at, pad_char, bad_length,
}
use rust_build_server.Proto.Base64.RoundTrip.{length-encode, decode-encode}

abbrev mixed : Bytes
mixed = 0 ∷ 255 ∷ 10 ∷ 128 ∷ []

encode-mixed : encode mixed ≡ codes "AP8KgA=="
unfolding encode encode_chunk table_at table pad_char
encode-mixed = refl

decode_short : decode (codes "AAA") ≡ err bad_length
unfolding decode
decode_short = refl

decode-encode_example : decode (encode mixed) ≡ ok mixed
decode-encode_example =
    decode-encode mixed (omega arith, (omega arith, (omega arith, (omega arith, tt))))

length-encode_example : length (encode mixed) ≡ (length mixed + 2) / 3 * 4
length-encode_example = length-encode mixed
