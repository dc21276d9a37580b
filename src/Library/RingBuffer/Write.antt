-- ===== src/Library/RingBuffer/Write.antt =====
-- Writing puts bytes at the end of the queue.
use bek_os.Common.{
  ℕ, ◌+◌, ◌-◌, ◌<◌, ◌≤◌, ◌≡◌, refl, sym, ap₂, ◌∙◌, true, false, List, ◌++◌, append_assoc,
  append-nil, arith, inl, inr,
}
use bek_os.Common.Tests.{◌==◌, leb, if◌then◌else◌, Bool-cases}
use bek_os.Common.Lists.{
  length, splice, drop, take, length-drop, take_all, slice-splice_end, drop-splice_after,
  length-splice,
}
use bek_os.Library.RingBuffer.{RingBuffer, wrap_index}
use bek_os.Library.RingBuffer.Contents.{IsValid, contents}

-- The ring once `bytes` have been written.
abbrev pub advance_write : RingBuffer → List ℕ → RingBuffer
advance_write r bytes = record r {
  buffer = splice r.buffer r.write_idx bytes;
  write_idx = wrap_index (length r.buffer) (r.write_idx + length bytes);
}

-- What can be written without going round, as numbers that do not wrap.
abbrev pub room : RingBuffer → ℕ
room r =
    (if leb r.read_idx r.write_idx
      then length r.buffer - r.write_idx
      else r.read_idx - r.write_idx - 1)
    - (if r.read_idx == 0 then 1 else 0)

module _ (r : RingBuffer) (v : IsValid r) (bytes : List ℕ) (h : length bytes ≤ room r) where
  pub in_array : r.write_idx + length bytes ≤ length r.buffer
  in_array = ground arith

  buffer' : List ℕ
  buffer' = splice r.buffer r.write_idx bytes

  pub same_length : length (splice r.buffer r.write_idx bytes) ≡ length r.buffer
  same_length = length-splice r.buffer r.write_idx bytes in_array

  ahead : leb r.read_idx r.write_idx ≡ true → contents (advance_write r bytes) ≡ contents r ++ bytes
  unfolding buffer'
  ahead e =
      let le : r.read_idx ≤ r.write_idx = ground arith in
      let n = r.write_idx - r.read_idx in
      let grown =
        slice-splice_end r.buffer r.write_idx bytes r.read_idx n (n + length bytes) in_array
          (omega arith) refl in
      elim (Bool-cases (r.write_idx + length bytes == length r.buffer)) [
        | inl w ↦
            let pos : leb r.read_idx 0 ≡ false = ground arith in
            let all =
              take_all (n + length bytes) (drop r.read_idx buffer')
                (ground (arith, length-drop r.read_idx buffer', same_length)) in
            rw (w, e, pos) (append-nil (drop r.read_idx buffer') ∙ sym all ∙ grown)
        | inr w ↦
            let on : leb r.read_idx (r.write_idx + length bytes) ≡ true = ground arith in
            let m : r.write_idx + length bytes - r.read_idx ≡ n + length bytes = omega arith in
            rw (w, e, on, m) grown
      ]

  behind :
      leb r.read_idx r.write_idx ≡ false → contents (advance_write r bytes) ≡ contents r ++ bytes
  unfolding buffer'
  behind e =
      let lt : r.write_idx < r.read_idx = ground arith in
      let fits : r.write_idx + length bytes < r.read_idx = ground arith in
      let w : (r.write_idx + length bytes == length r.buffer) ≡ false = ground arith in
      let off : leb r.read_idx (r.write_idx + length bytes) ≡ false = ground arith in
      let old = drop-splice_after r.buffer r.write_idx bytes r.read_idx in_array (omega arith) in
      let new =
        slice-splice_end r.buffer r.write_idx bytes 0 r.write_idx (r.write_idx + length bytes)
          in_array (omega arith) refl in
      rw (w, e, off)
        (ap₂ ◌++◌ old new
          ∙ sym (append_assoc (drop r.read_idx r.buffer) (take r.write_idx r.buffer) bytes))

  pub contents-advance_write : contents (advance_write r bytes) ≡ contents r ++ bytes
  contents-advance_write = elim (Bool-cases (leb r.read_idx r.write_idx)) [
    | inl e ↦ ahead e
    | inr e ↦ behind e
  ]

  pub advance_write-IsValid : IsValid (advance_write r bytes)
  unfolding buffer'
  advance_write-IsValid = ground (arith, same_length, in_array)
