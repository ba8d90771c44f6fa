-- ===== src/Proto/Base64.antt =====
-- `bytes_b64` of crates/rbs-proto/src/job.rs: base64 as the events carry it. A byte is a number below
-- 256, `<<` and `|` on disjoint bits are `*` and `+`, and `>>` and `&` are `/` and `%`.
mod RoundTrip
mod Examples
use rust_build_server.Prelude.{
  ℕ, zero, suc, ◌+◌, ◌-◌, ◌*◌, ◌/◌, ◌%◌, ◌≤◌, ◌≡◌, Bool, true, false, ◌&&◌, List, [], ◌∷◌, ◌++◌,
  Option, none, some, ltb, leb, ◌==◌, if◌then◌else◌, length, Bytes, codes, Result, ok, err, ◌>>=◌,
  get_elem?,
}

pub data DecodeError : Type 0 where
  invalid_byte : ℕ → DecodeError
  bad_length bad_padding padding_in_middle : DecodeError

pad_char : ℕ
pad_char = b'='

table : Bytes
table = codes "ABCDEFGHIJKLMNOPQRSTUVWXYZabcdefghijklmnopqrstuvwxyz0123456789+/"

-- `TABLE[i]`; the index is a residue modulo 64, so it is in range.
table_at : ℕ → ℕ
unfolding table
table_at i = elim (get_elem? table i) [ none ↦ 0 | some c ↦ c ]

-- One chunk of `input.chunks(3)`: its bytes, with 0 for those that it lacks, and its length.
encode_chunk : (len b0 b1 b2 : ℕ) → Bytes
unfolding table_at pad_char
encode_chunk len b0 b1 b2 =
    let n = b0 * 65536 + b1 * 256 + b2 in
    table_at (n / 262144 % 64)
    ∷ table_at (n / 4096 % 64)
    ∷ (if ltb 1 len then table_at (n / 64 % 64) else pad_char)
    ∷ (if ltb 2 len then table_at (n % 64) else pad_char)
    ∷ []

pub encode : Bytes → Bytes
encode [] = []
encode (a ∷ []) = encode_chunk 1 a 0 0
encode (a ∷ b ∷ []) = encode_chunk 2 a b 0
encode (a ∷ b ∷ c ∷ rest) = encode_chunk 3 a b c ++ encode rest

val : ℕ → Result DecodeError ℕ
val c =
    if leb b'A' c && leb c b'Z'
    then ok (c - b'A')
    else if leb b'a' c && leb c b'z'
    then ok (c - b'a' + 26)
    else if leb b'0' c && leb c b'9'
    then ok (c - b'0' + 52)
    else if c == b'+'
    then ok 62
    else if c == b'/'
    then ok 63
    else err (invalid_byte c)

-- `q.iter().rev().take_while(|c| c == '=').count()`, of a chunk of four.
padding : (a b c d : ℕ) → ℕ
unfolding pad_char
padding a b c d =
    if d == pad_char
    then (if c == pad_char
        then (if b == pad_char then (if a == pad_char then 4 else 3) else 2)
        else 1)
    else 0

-- The value of the character at index `i` of a chunk with `pad` characters of padding.
char_value : (pad i c : ℕ) → Result DecodeError ℕ
unfolding pad_char val
char_value pad i c =
    if c == pad_char then (if ltb i (4 - pad) then err padding_in_middle else ok 0) else val c

-- The bytes of a chunk's 24 bits.
chunk_bytes : (pad n : ℕ) → Bytes
chunk_bytes pad n =
    (n / 65536 % 256)
    ∷ (if ltb pad 2 then (n / 256 % 256) ∷ (if ltb pad 1 then (n % 256) ∷ [] else []) else [])

-- A chunk of four with `pad` characters of padding.
decode_padded : (pad a b c d : ℕ) → Result DecodeError Bytes
decode_padded pad a b c d = if ltb 2 pad then err bad_padding else do
  v0 ← char_value pad 0 a
  v1 ← char_value pad 1 b
  v2 ← char_value pad 2 c
  v3 ← char_value pad 3 d
  ok (chunk_bytes pad (((v0 * 64 + v1) * 64 + v2) * 64 + v3))

decode_chunk : (a b c d : ℕ) → Result DecodeError Bytes
decode_chunk a b c d = decode_padded (padding a b c d) a b c d

-- The loop over `bytes.chunks(4)`. A shorter chunk does not occur, as the length has been tested.
decode_chunks : Bytes → Result DecodeError Bytes
decode_chunks [] = ok []
decode_chunks (a ∷ b ∷ c ∷ d ∷ rest) = do
  first ← decode_chunk a b c d
  others ← decode_chunks rest
  ok (first ++ others)
decode_chunks _ = err bad_length

pub decode : Bytes → Result DecodeError Bytes
decode input = if length input % 4 == 0 then decode_chunks input else err bad_length
