-- ===== src/Ipc/Message/Decode.antt =====
-- userspace/libipc/src/message.cpp: what is decoded from a message, piece by piece.
use bek_os.Common.{
  ℕ, ◌+◌, ◌^◌, ◌<◌, ◌≡◌, refl, sym, ap, ◌∙◌, true, false, List, [], ◌∷◌, ◌++◌, append_assoc, arith,
}
use bek_os.Common.Tests.{ltb, add64}
use bek_os.Common.Lists.{length, length-append}
use bek_os.Common.Memory.{memory_read}
use bek_os.Common.Outcome.{Outcome, ok, err, eoverflow, ◌>>=◌}
use bek_os.Ipc.Message.{Message, decode_bytes}
use bek_os.Ipc.Message.Items.{memory_read-append}

abbrev pub concat : List (List ℕ) → List ℕ
concat [] = []
concat (piece ∷ pieces) = piece ++ concat pieces

-- A reader that decodes pieces of these lengths, up to the first error.
abbrev pub decode_pieces : Message → List (List ℕ) → Outcome (List (List ℕ) × Message)
decode_pieces m [] = ok ([], m)
decode_pieces m (piece ∷ pieces) = decode_bytes m (length piece) >>= λ (bytes, m').
    decode_pieces m' pieces >>= λ (later, m''). ok (bytes ∷ later, m'')

decode_bytes_lem :
    (m : Message) (before piece after : List ℕ)
    → m.buffer ≡ before ++ (piece ++ after)
    → m.cur_buffer_position ≡ length before
    → 0 < length after
    → length m.buffer < 2 ^ 64
    → decode_bytes m (length piece)
      ≡ ok (piece, record m { cur_buffer_position = length before + length piece })
unfolding decode_bytes
decode_bytes_lem m before piece after e at more small =
    let a = length-append before (piece ++ after) in
    let b = length-append piece after in
    let long : length m.buffer ≡ length (before ++ (piece ++ after)) = ap length e in
    let test : ltb (add64 (length piece) m.cur_buffer_position) (length m.buffer) ≡ true =
      ground arith in
    let next : add64 m.cur_buffer_position (length piece) ≡ length before + length piece =
      omega arith in
    let read : memory_read m.buffer m.cur_buffer_position (length piece) ≡ ok piece =
      ap (λ u. memory_read u m.cur_buffer_position (length piece)) e
      ∙ memory_read-append before piece after m.cur_buffer_position (length piece) at refl in
    rw test (rw (read, next) refl)

decode_pieces_from :
    (pieces : List (List ℕ)) (m : Message) (before after : List ℕ)
    → m.buffer ≡ before ++ (concat pieces ++ after)
    → m.cur_buffer_position ≡ length before
    → 0 < length after
    → length m.buffer < 2 ^ 64
    → decode_pieces m pieces
      ≡ ok (pieces, record m { cur_buffer_position = length before + length (concat pieces) })
decode_pieces_from [] m before after e at more small =
    ap (λ u. ok ([], record m { cur_buffer_position = u })) (omega arith)
decode_pieces_from (piece ∷ pieces) m before after e at more small =
    let split = ap (λ u. before ++ u) (append_assoc piece (concat pieces) after) in
    let m' : Message = record m { cur_buffer_position = length before + length piece } in
    let a = length-append before piece in
    let b = length-append piece (concat pieces) in
    let c = length-append (concat pieces) after in
    let rest =
      decode_pieces_from pieces m' (before ++ piece) after
        (e ∙ split ∙ sym (append_assoc before piece (concat pieces ++ after))) (omega arith) more
        small in
    ap (λ r. r >>= λ (bytes, m₁). decode_pieces m₁ pieces >>= λ (later, m₂). ok (bytes ∷ later, m₂))
      (decode_bytes_lem m before piece (concat pieces ++ after) (e ∙ split) at (omega arith) small)
    ∙ ap (λ r. r >>= λ (later, m₂). ok (piece ∷ later, m₂)) rest
    ∙ ap (λ u. ok (piece ∷ pieces, record m { cur_buffer_position = u })) (omega arith)

-- A message of fewer than 2 ^ 64 bytes that is decoded from its beginning: its bytes are decoded piece by
-- piece, in order, but a last piece that is not empty and ends with the buffer is refused with EOVERFLOW.
pub decode_pieces_lem :
    (m : Message) (pieces : List (List ℕ)) (last : List ℕ)
    → m.buffer ≡ concat pieces ++ last
    → m.cur_buffer_position ≡ 0
    → 0 < length last
    → length m.buffer < 2 ^ 64
    → let m' = record m { cur_buffer_position = length (concat pieces) } in
      (decode_pieces m pieces ≡ ok (pieces, m')) × (decode_bytes m' (length last) ≡ err eoverflow)
unfolding decode_bytes
decode_pieces_lem m pieces last e at more small =
    let a = length-append (concat pieces) last in
    let long = ap length e in
    let test : ltb (add64 (length last) (length (concat pieces))) (length m.buffer) ≡ false =
      ground arith in
    let zero_add : 0 + length (concat pieces) ≡ length (concat pieces) = omega arith in
    (
      decode_pieces_from pieces m [] last e at more small
          ∙ ap (λ u. ok (pieces, record m { cur_buffer_position = u })) zero_add,
      rw test refl,
    )
