-- ===== src/Client/Transport/Receive.antt =====
-- What one end of a stream sends, the other receives, however the bytes are cut into reads.
use rust_build_server.Prelude.{
  ℕ, ◌+◌, ◌≤◌, ◌≡◌, refl, ap, sym, ◌∙◌, false, List, [], ◌∷◌, ◌++◌, Option, none, some, inl, inr,
  ◌≢◌, length, length-append, all, All, Bytes, Result, ok, arith,
}
use mathlib.Core.List.{append_assoc, append-nil}
use rust_build_server.Proto.Frame.{
  max_frame_bytes, newline, Decoder, encode_frame, push, is_ascii_whitespace, drain_line, pending,
}
use rust_build_server.Proto.Frame.Lines.{
  HasNoNewline, drain_line_cases, line_unique, no_newline_end, next_frame_line, next_frame-none,
}
use rust_build_server.Client.Transport.{TransportError, Stream, at_end, recv, send_all}

-- What the protocol needs of the JSON library: each message has a text, which is read back as that
-- message, has no raw newline and is not blank.
pub record Json (A E : Type 0) (to_vec : A → Result E Bytes) (from_slice : Bytes → Result E A)
    : Type 0 where
  pub text : A → Bytes
  pub written : (m : A) → to_vec m ≡ ok (text m)
  pub read_back : (m : A) → from_slice (text m) ≡ ok m
  pub on_one_line : (m : A) → HasNoNewline (text m)
  pub not_blank : (m : A) → all is_ascii_whitespace (text m) ≡ false

abbrev pub joined : List Bytes → Bytes
joined [] = []
joined (chunk ∷ chunks) = chunk ++ joined chunks

module _ {A E : Type 0} (to_vec : A → Result E Bytes) (from_slice : Bytes → Result E A)
    (j : Json A E to_vec from_slice) where
  abbrev pub wire : List A → Bytes
  wire [] = []
  wire (m ∷ ms) = j.text m ++ newline ∷ wire ms

  pub send_all-wire : (ms : List A) → send_all to_vec ms ≡ ok (wire ms)
  unfolding send_all encode_frame
  send_all-wire [] = refl
  send_all-wire (m ∷ ms) =
      ground
        (arith, j.written m, send_all-wire ms, append_assoc (j.text m) (newline ∷ []) (wire ms))

  -- Successive calls of `recv` give the messages one after the other, and then the end of the stream.
  abbrev pub Delivers : Decoder → List Bytes → List A → Type 0
  Delivers d reads [] = (s : Stream) × (recv from_slice d reads ≡ ok (none, s))
  Delivers d reads (m ∷ ms) =
      (s : Stream) × (recv from_slice d reads ≡ ok (some m, s)) × Delivers s.decoder s.reads ms

  abbrev NonEmpty : List Bytes → Type 0
  NonEmpty reads = All (λ chunk. chunk ≢ []) reads

  -- The bytes that are still to be decoded.
  abbrev Holds : Decoder → List Bytes → List A → Type 0
  Holds d reads ms =
      (d.buf ++ joined reads ≡ wire ms) × NonEmpty reads × (length (wire ms) ≤ max_frame_bytes)

  abbrev Outcome : List A → Result (TransportError E) (Option A × Stream) → Type 0
  Outcome [] r = (s : Stream) × (r ≡ ok (none, s))
  Outcome (m ∷ ms) r = (s : Stream) × (r ≡ ok (some m, s)) × Holds s.decoder s.reads ms

  abbrev Received : Decoder → List Bytes → List A → Type 0
  Received d reads ms = Outcome ms (recv from_slice d reads)

  -- With a full line in the buffer, that line is the first message.
  first_line :
      (d : Decoder) (reads : List Bytes) (ms : List A) (line rest : Bytes)
      → Holds d reads ms
      → HasNoNewline line
      → d.buf ≡ line ++ newline ∷ rest
      → (m : A) × (later : List A) × (ms ≡ m ∷ later)
        × (line ≡ j.text m)
        × (rest ++ joined reads ≡ wire later)
  first_line d reads [] line rest h clean e = absurd (
      no_newline_end [] line (rest ++ joined reads) tt (
        sym h.0
        ∙ ap (λ b. b ++ joined reads) e
        ∙ append_assoc line (newline ∷ rest) (joined reads)))
  first_line d reads (m ∷ ms) line rest h clean e =
      let same =
        sym (append_assoc line (newline ∷ rest) (joined reads))
        ∙ ap (λ b. b ++ joined reads) (sym e)
        ∙ h.0 in
      let (text, later) =
        line_unique line (j.text m) (rest ++ joined reads) (wire ms) clean (j.on_one_line m) same in
      (m, ms, refl, text, later)

  -- A message that is complete in the buffer.
  take_line :
      (d : Decoder) (reads : List Bytes) (m : A) (rest : Bytes)
      → drain_line d.buf ≡ some (j.text m, rest)
      → recv from_slice d reads
        ≡ ok (some m, record { decoder = record { buf = rest }; reads = reads })
  unfolding recv
  take_line d [] m rest e =
      ground
        (arith, next_frame_line from_slice d (j.text m) rest m e (j.not_blank m) (j.read_back m))
  take_line d ([] ∷ reads) m rest e =
      ground
        (arith, next_frame_line from_slice d (j.text m) rest m e (j.not_blank m) (j.read_back m))
  take_line d ((b ∷ bs) ∷ reads) m rest e =
      ground
        (arith, next_frame_line from_slice d (j.text m) rest m e (j.not_blank m) (j.read_back m))

  -- One call of `recv` with no line in the buffer, at the end of the stream.
  recv_end :
      (d : Decoder) (ms : List A)
      → Holds d [] ms
      → HasNoNewline d.buf
      → drain_line d.buf ≡ none
      → Received d [] ms
  unfolding recv at_end pending
  recv_end d [] h clean e =
      let zz = next_frame-none from_slice d e in
      let nothing : d.buf ≡ [] = sym (append-nil d.buf) ∙ h.0 in
      (record { decoder = d; reads = [] }, ground (arith, zz, nothing))
  recv_end d (m ∷ ms) h clean e =
      absurd (no_newline_end d.buf (j.text m) (wire ms) clean (sym (append-nil d.buf) ∙ h.0))

  -- and when there is more to read.
  recv_more :
      (d : Decoder) (b : ℕ) (bs : Bytes) (reads : List Bytes)
      → drain_line d.buf ≡ none
      → length d.buf + length (b ∷ bs) ≤ max_frame_bytes
      → recv from_slice d ((b ∷ bs) ∷ reads)
        ≡ recv from_slice (record { buf = d.buf ++ b ∷ bs }) reads
  unfolding recv push
  recv_more d b bs reads e fits = ground (arith, next_frame-none from_slice d e, fits)

  line-Received :
      (d : Decoder) (reads : List Bytes) (ms : List A) (line rest : Bytes)
      → Holds d reads ms
      → HasNoNewline line
      → d.buf ≡ line ++ newline ∷ rest
      → drain_line d.buf ≡ some (line, rest)
      → Received d reads ms
  line-Received d reads ms line rest h clean e drained =
      let (m, later, is_first, text, left) = first_line d reads ms line rest h clean e in
      let got = take_line d reads m rest (drained ∙ ap (λ t. some (t, rest)) text) in
      rw is_first (
        record { decoder = record { buf = rest }; reads = reads },
        got,
        (
          left,
          h.1,
          omega (
            arith,
            ap length is_first,
            h.2,
            length-append (j.text m) (newline ∷ wire later),
            ap (λ x. length (wire x)) is_first,
          ),
        ),
      )

  -- The next call of `recv` gives the next message, or the end of the stream after the last.
  recv-Received :
      (reads : List Bytes) (d : Decoder) (ms : List A) → Holds d reads ms → Received d reads ms
  recv-Received [] d ms h = elim (drain_line_cases d.buf) [
    | inr (line, rest, clean, e, drained) ↦ line-Received d [] ms line rest h clean e drained
    | inl (clean, e) ↦ recv_end d ms h clean e
  ]
  recv-Received ([] ∷ reads) d ms h = absurd (h.1.0 refl)
  recv-Received ((b ∷ bs) ∷ reads) d ms h = elim (drain_line_cases d.buf) [
    | inr (line, rest, clean, e, drained) ↦
        line-Received d ((b ∷ bs) ∷ reads) ms line rest h clean e drained
    | inl (clean, e) ↦
        let fits : length d.buf + length (b ∷ bs) ≤ max_frame_bytes = omega (
          arith,
          h.2,
          ap length h.0,
          length-append d.buf ((b ∷ bs) ++ joined reads),
          length-append bs (joined reads),
        ) in
        let more : Holds (record { buf = d.buf ++ b ∷ bs }) reads ms =
          (append_assoc d.buf (b ∷ bs) (joined reads) ∙ h.0, h.1.1, h.2) in
        rw (recv_more d b bs reads e fits)
          (recv-Received reads (record { buf = d.buf ++ b ∷ bs }) ms more)
  ]

  delivered :
      (ms : List A) (reads : List Bytes) (d : Decoder) → Holds d reads ms → Delivers d reads ms
  delivered [] reads d h = recv-Received reads d [] h
  delivered (m ∷ ms) reads d h =
      let (s, got, later) = recv-Received reads d (m ∷ ms) h in
      (s, got, delivered ms s.reads s.decoder later)

  -- However the bytes that carry the messages are cut into reads, the receiver's calls of `recv` give those
  -- messages, in order, and then the end of the stream. The reads are not empty, and together the bytes are
  -- no more than a frame may have.
  pub recv-send_all :
      (ms : List A) (reads : List Bytes) (sent : Bytes)
      → send_all to_vec ms ≡ ok sent
      → joined reads ≡ sent
      → NonEmpty reads
      → length sent ≤ max_frame_bytes
      → Delivers (record { buf = [] }) reads ms
  recv-send_all ms reads sent e cut some_bytes short =
      let same : sent ≡ wire ms = cc (e, send_all-wire ms) in
      let bound : length (wire ms) ≤ max_frame_bytes = omega (arith, ap length same, short) in
      delivered ms reads (record { buf = [] }) (cut ∙ same, some_bytes, bound)
