-- ===== src/Proto/Base64/RoundTrip.antt =====
-- Decoding what was encoded, and the shape of an encoding.
use rust_build_server.Prelude.{
  ℕ, zero, suc, ◌+◌, ◌*◌, ◌/◌, ◌%◌, ◌≤◌, ◌<◌, ◌≡◌, refl, Bool, true, false, ◌&&◌, ◌||◌, [], ◌∷◌,
  Bytes, length, ltb, if◌then◌else◌, ◌==◌, Bool-cases, All, Result, ok, err, arith, inl, inr, ap,
  sym, ◌∙◌,
}
use rust_build_server.Proto.Base64.{
  DecodeError, pad_char, table_at, encode_chunk, encode, val, padding, char_value, chunk_bytes,
  decode_padded, decode_chunk, decode_chunks, decode,
}

abbrev pub IsByte : ℕ → Type 0
IsByte b = b < 256

-- Each fact about the 64 digits is a test that runs through them.
every_digit : (test : ℕ → Bool) (left digit : ℕ) → Bool
every_digit test zero digit = true
every_digit test (suc left) digit =
    let later = every_digit test left (digit + 1) in if test digit then later else false

digit-every_digit :
    (test : ℕ → Bool) (left digit d : ℕ)
    → every_digit test left digit ≡ true
    → digit ≤ d
    → d < digit + left
    → test d ≡ true
unfolding every_digit
digit-every_digit test zero digit d passed low high = absurd (omega (arith, low, high))
digit-every_digit test (suc left) digit d passed low high = elim (Bool-cases (test digit)) [
  | inr fails ↦ absurd (ground (arith, fails, passed))
  | inl holds ↦ elim (Bool-cases (digit == d)) [
    | inl same ↦ ap test (sym (ground (arith, same))) ∙ holds
    | inr other ↦
        digit-every_digit test left (digit + 1) d (ground (arith, holds, passed))
          (ground (arith, other, low)) (omega (arith, high))
  ]
]

abbrev is_value : Result DecodeError ℕ → ℕ → Bool
is_value (ok v) n = v == n
is_value (err e) n = false

is_value_sound : (r : Result DecodeError ℕ) (n : ℕ) → is_value r n ≡ true → r ≡ ok n
is_value_sound (ok v) n h = ground arith
is_value_sound (err e) n h = absurd (cc)

-- Each digit is no padding, no line break, and its value is its index.
digit_ok : ℕ → Bool
unfolding table_at val pad_char
digit_ok n =
    is_value (val (table_at n)) n
    && (ltb (table_at n) 61 || ltb 61 (table_at n))
    && ltb 10 (table_at n)

digits_ok : every_digit digit_ok 64 0 ≡ true
unfolding every_digit digit_ok
digits_ok = refl

module _ (n : ℕ) (lt : n < 64) where
  facts : digit_ok n ≡ true
  facts = digit-every_digit digit_ok 64 0 n digits_ok (omega arith) (omega (arith, lt))

  val-table_at : val (table_at n) ≡ ok n
  unfolding digit_ok
  val-table_at = is_value_sound (val (table_at n)) n (ground (arith, facts))

  table_at-ne-pad : (table_at n == 61) ≡ false
  unfolding digit_ok
  table_at-ne-pad = ground (arith, facts)

  table_at_printable : 10 < table_at n
  unfolding digit_ok
  table_at_printable = ground (arith, facts)

  char_value-table_at : (pad i : ℕ) → char_value pad i (table_at n) ≡ ok n
  unfolding char_value
  char_value-table_at pad i = rw (table_at-ne-pad, char_value) val-table_at

char_value-pad : (pad i : ℕ) → 4 ≤ i + pad → char_value pad i 61 ≡ ok 0
unfolding char_value
char_value-pad pad i h = ground arith

module _ (p q : ℕ) (hp : p < 64) (hq : q < 64) where
  decode_chunk_one :
      decode_chunk (table_at p) (table_at q) 61 61
      ≡ ok (chunk_bytes 2 (((p * 64 + q) * 64 + 0) * 64 + 0))
  unfolding decode_chunk decode_padded
  decode_chunk_one =
      let two : padding (table_at p) (table_at q) 61 61 ≡ 2 =
        unfold padding in rw (table_at-ne-pad q hq) refl in
      rw (two, decode_padded)
        (simp (
          char_value-table_at p hp 2 0,
          char_value-table_at q hq 2 1,
          char_value-pad 2 2 (omega arith),
          char_value-pad 2 3 (omega arith),
        ))

  decode_chunk_two :
      (r : ℕ)
      → r < 64
      → decode_chunk (table_at p) (table_at q) (table_at r) 61
        ≡ ok (chunk_bytes 1 (((p * 64 + q) * 64 + r) * 64 + 0))
  unfolding decode_chunk decode_padded
  decode_chunk_two r hr =
      let one : padding (table_at p) (table_at q) (table_at r) 61 ≡ 1 =
        unfold padding in rw (table_at-ne-pad r hr) refl in
      rw (one, decode_padded)
        (simp (
          char_value-table_at p hp 1 0,
          char_value-table_at q hq 1 1,
          char_value-table_at r hr 1 2,
          char_value-pad 1 3 (omega arith),
        ))

  decode_chunk_full :
      (r s : ℕ)
      → r < 64
      → s < 64
      → decode_chunk (table_at p) (table_at q) (table_at r) (table_at s)
        ≡ ok (chunk_bytes 0 (((p * 64 + q) * 64 + r) * 64 + s))
  unfolding decode_chunk decode_padded
  decode_chunk_full r s hr hs =
      let no_pad : padding (table_at p) (table_at q) (table_at r) (table_at s) ≡ 0 =
        unfold padding in rw (table_at-ne-pad s hs) refl in
      rw (no_pad, decode_padded)
        (simp (
          char_value-table_at p hp 0 0,
          char_value-table_at q hq 0 1,
          char_value-table_at r hr 0 2,
          char_value-table_at s hs 0 3,
        ))

-- The four digits of a chunk's 24 bits.
abbrev digit0 : ℕ → ℕ
digit0 n = n / 262144 % 64

abbrev digit1 : ℕ → ℕ
digit1 n = n / 4096 % 64

abbrev digit2 : ℕ → ℕ
digit2 n = n / 64 % 64

abbrev digit3 : ℕ → ℕ
digit3 n = n % 64

abbrev bits : (a b c : ℕ) → ℕ
bits a b c = a * 65536 + b * 256 + c

-- The digits determine the bytes that went in.
module _ (a b c : ℕ) (ha : IsByte a) (hb : IsByte b) (hc : IsByte c) where
  chunk_bytes_full :
      chunk_bytes 0 (
        ((digit0 (bits a b c) * 64 + digit1 (bits a b c)) * 64 + digit2 (bits a b c)) * 64
        + digit3 (bits a b c))
      ≡ a ∷ b ∷ c ∷ []
  unfolding chunk_bytes
  chunk_bytes_full = ground arith

  chunk_bytes_two :
      chunk_bytes 1
        (((digit0 (bits a b 0) * 64 + digit1 (bits a b 0)) * 64 + digit2 (bits a b 0)) * 64 + 0)
      ≡ a ∷ b ∷ []
  unfolding chunk_bytes
  chunk_bytes_two = ground arith

  chunk_bytes_one :
      chunk_bytes 2 (((digit0 (bits a 0 0) * 64 + digit1 (bits a 0 0)) * 64 + 0) * 64 + 0) ≡ a ∷ []
  unfolding chunk_bytes
  chunk_bytes_one = ground arith

-- A residue modulo 64 is a digit.
mod-lt-64 : (n : ℕ) → n % 64 < 64
mod-lt-64 n = omega arith

decode_chunks-encode : (bs : Bytes) → All IsByte bs → decode_chunks (encode bs) ≡ ok bs
unfolding encode decode_chunks encode_chunk
decode_chunks-encode [] h = refl
decode_chunks-encode (a ∷ []) h =
    let n = bits a 0 0 in
    rw
      (
        decode_chunk_one (digit0 n) (digit1 n) (mod-lt-64 _) (mod-lt-64 _),
        chunk_bytes_one a 0 0 h.0 (omega arith) (omega arith),
      )
      refl
decode_chunks-encode (a ∷ b ∷ []) h =
    let n = bits a b 0 in
    rw
      (
        decode_chunk_two (digit0 n) (digit1 n) (mod-lt-64 _) (mod-lt-64 _) (digit2 n) (mod-lt-64 _),
        chunk_bytes_two a b 0 h.0 h.1.0 (omega arith),
      )
      refl
decode_chunks-encode (a ∷ b ∷ c ∷ rest) h =
    let n = bits a b c in
    rw
      (
        decode_chunk_full (digit0 n) (digit1 n) (mod-lt-64 _) (mod-lt-64 _) (digit2 n) (digit3 n)
            (mod-lt-64 _) (mod-lt-64 _),
        chunk_bytes_full a b c h.0 h.1.0 h.1.1.0,
        decode_chunks-encode rest h.1.1.1,
      )
      refl

-- The capacity that `encode` reserves is the length of what it returns.
pub length-encode : (bs : Bytes) → length (encode bs) ≡ (length bs + 2) / 3 * 4
unfolding encode encode_chunk
length-encode [] = refl
length-encode (a ∷ []) = refl
length-encode (a ∷ b ∷ []) = refl
length-encode (a ∷ b ∷ c ∷ rest) = omega (arith, length-encode rest)

-- Decoding gives back every list of bytes that was encoded.
pub decode-encode : (bs : Bytes) → All IsByte bs → decode (encode bs) ≡ ok bs
unfolding decode
decode-encode bs h =
    let whole : length (encode bs) % 4 ≡ 0 = omega (arith, length-encode bs) in
    rw whole (decode_chunks-encode bs h)
