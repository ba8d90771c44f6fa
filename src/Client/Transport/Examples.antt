-- ===== src/Client/Transport/Examples.antt =====
-- A JSON library for the two Boolean messages, and a stream of them cut inside a message.
use rust_build_server.Prelude.{
  Bool, true, false, ◌≡◌, refl, List, [], ◌∷◌, ◌++◌, Bytes, codes, bytes_eq, Result, ok, err,
  if◌then◌else◌, all, arith,
}
use rust_build_server.Proto.Frame.{newline, is_ascii_whitespace, encode_frame}
use rust_build_server.Proto.Frame.Lines.{HasNoNewline}
use rust_build_server.Client.Transport.{send_all}
use rust_build_server.Client.Transport.Receive.{Json, Delivers, recv-send_all}

abbrev bool_text : Bool → Bytes
bool_text true = codes "true"
bool_text false = codes "false"

abbrev bool_to_vec : Bool → Result Bool Bytes
bool_to_vec b = ok (bool_text b)

abbrev bool_from_slice : Bytes → Result Bool Bool
bool_from_slice s =
    if bytes_eq s (codes "true")
    then ok true
    else if bytes_eq s (codes "false")
    then ok false
    else err false

bool_read_back : (b : Bool) → bool_from_slice (bool_text b) ≡ ok b
unfolding bytes_eq
bool_read_back true = refl
bool_read_back false = refl

bool_on_one_line : (b : Bool) → HasNoNewline (bool_text b)
bool_on_one_line true = ground arith
bool_on_one_line false = ground arith

bool_not_blank : (b : Bool) → all is_ascii_whitespace (bool_text b) ≡ false
unfolding is_ascii_whitespace
bool_not_blank true = refl
bool_not_blank false = refl

abbrev bool_json : Json Bool Bool bool_to_vec bool_from_slice
bool_json = record {
  text = bool_text;
  written = λ b. refl;
  read_back = bool_read_back;
  on_one_line = bool_on_one_line;
  not_blank = bool_not_blank;
}

abbrev two_reads : List Bytes
two_reads = codes "tr" ∷ (codes "ue" ++ newline ∷ codes "false" ++ newline ∷ []) ∷ []

recv-send_all_example :
    Delivers bool_to_vec bool_from_slice bool_json
      (record { buf = [] })
      two_reads
      (true ∷ false ∷ [])
unfolding send_all encode_frame
recv-send_all_example =
    recv-send_all bool_to_vec bool_from_slice bool_json (true ∷ false ∷ []) two_reads
      (codes "true" ++ newline ∷ codes "false" ++ newline ∷ []) refl refl
      (ground arith, (ground arith, tt)) (omega arith)
