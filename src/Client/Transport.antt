-- ===== src/Client/Transport.antt =====
-- crates/rbs-client/src/transport.rs: messages over a stream of bytes. A stream is the list of what its
-- reads give; the end of the list, or an empty read, is the end of the stream. JSON is serde_json's.
mod Receive
mod Examples
use rust_build_server.Prelude.{
  ℕ, ℕ, suc, Bool, List, [], ◌∷◌, ◌++◌, Option, none, some, ltb, if◌then◌else◌, Bytes, Result, ok,
  err, ◌>>=◌, length,
}
use rust_build_server.Proto.Message.{ServerMessage}
use rust_build_server.Proto.Frame.{Decoder, FrameError, encode_frame, next_frame, push, pending}

pub data TransportError (E : Type 0) : Type 0 where
  connect : (target : Bytes) → (source : E) → TransportError E
  io : E → TransportError E
  frame : FrameError E → TransportError E
  closed : TransportError E
  protocol : Bytes → TransportError E
  unexpected : ServerMessage → TransportError E
  timeout : (after : ℕ) → TransportError E

-- What `recv` leaves: the decoder and the reads to come.
pub record Stream : Type 0 where
  pub decoder : Decoder
  pub reads : List Bytes

module _ {A E : Type 0} (from_slice : Bytes → Result E A) where
  -- At the end of the stream.
  unfoldable pub at_end : Decoder → Result (TransportError E) (Option A × Stream)
  at_end d = if ltb 0 (pending d) then err closed else ok (none, record { decoder = d; reads = [] })

  -- One call of `recv_inner`; the recursion is its loop.
  unfoldable pub recv : Decoder → List Bytes → Result (TransportError E) (Option A × Stream)
  recv d [] =
      let (d', r) = next_frame from_slice d in
      elim r [
        | err e ↦ err (frame e)
        | ok (some m) ↦ ok (some m, record { decoder = d'; reads = [] })
        | ok none ↦ at_end d'
      ]
  recv d ([] ∷ reads) =
      let (d', r) = next_frame from_slice d in
      elim r [
        | err e ↦ err (frame e)
        | ok (some m) ↦ ok (some m, record { decoder = d'; reads = [] ∷ reads })
        | ok none ↦ at_end d'
      ]
  recv d ((b ∷ bs) ∷ reads) =
      let (d', r) = next_frame from_slice d in
      elim r [
        | err e ↦ err (frame e)
        | ok (some m) ↦ ok (some m, record { decoder = d'; reads = (b ∷ bs) ∷ reads })
        | ok none ↦ elim (push d' (b ∷ bs)) [ err e ↦ err (frame e) | ok d'' ↦ recv d'' reads ]
      ]

-- What `send_inner` has written after sending the messages in order.
unfoldable pub send_all :
    {A E : Type 0} → (A → Result E Bytes) → List A → Result (TransportError E) Bytes
send_all to_vec [] = ok []
send_all to_vec (m ∷ ms) = elim (encode_frame to_vec m) [
  | err e ↦ err (frame e)
  | ok line ↦ elim (send_all to_vec ms) [ err e ↦ err e | ok rest ↦ ok (line ++ rest) ]
]
