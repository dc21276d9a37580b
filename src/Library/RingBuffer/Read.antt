-- ===== src/Library/RingBuffer/Read.antt =====
-- Reading takes the oldest bytes off the queue, in at most two rounds.
use bek_os.Common.{
  ℕ, ◌+◌, ◌-◌, ◌<◌, ◌≤◌, ◌≡◌, refl, sym, ap, ◌∙◌, true, false, ◌++◌, append_assoc, arith, inl, inr,
}
use bek_os.Common.Tests.{◌==◌, leb, if◌then◌else◌, Bool-cases}
use bek_os.Common.Lists.{length, slice, drop, take, take-add, drop-drop, take-append-drop, drop_all}
use bek_os.Library.RingBuffer.{RingBuffer, wrap_index}
use bek_os.Library.RingBuffer.Contents.{IsValid, contents}

-- The ring once `k` bytes have been read.
abbrev pub advance_read : RingBuffer → ℕ → RingBuffer
advance_read r k = record r { read_idx = wrap_index (length r.buffer) (r.read_idx + k) }

minus_zero : (n : ℕ) → n - 0 ≡ n
minus_zero n = omega arith

module _ (r : RingBuffer) (v : IsValid r) (k : ℕ) where
  linear :
      r.read_idx + k ≤ r.write_idx
      → contents r ≡ slice r.read_idx k r.buffer ++ contents (advance_read r k)
  linear h =
      let e =
        take-add k (r.write_idx - (r.read_idx + k)) (r.write_idx - r.read_idx)
          (drop r.read_idx r.buffer) (omega arith) in
      let d = drop-drop r.read_idx k (r.read_idx + k) r.buffer refl in
      let a : leb r.read_idx r.write_idx ≡ true = ground arith in
      let b : (r.read_idx + k == length r.buffer) ≡ false = ground arith in
      let c : leb (r.read_idx + k) r.write_idx ≡ true = ground arith in rw (a, b, c, e, d)

  round_end :
      r.write_idx < r.read_idx
      → r.read_idx + k ≤ length r.buffer
      → contents r ≡ slice r.read_idx k r.buffer ++ contents (advance_read r k)
  round_end h g =
      let a : leb r.read_idx r.write_idx ≡ false = ground arith in
      let split = sym (take-append-drop k (drop r.read_idx r.buffer)) in
      let d = drop-drop r.read_idx k (r.read_idx + k) r.buffer refl in
      let regroup =
        append_assoc (slice r.read_idx k r.buffer) (drop (r.read_idx + k) r.buffer)
          (take r.write_idx r.buffer) in
      let whole : contents r
          ≡ slice r.read_idx k r.buffer
            ++ (drop (r.read_idx + k) r.buffer ++ take r.write_idx r.buffer) =
        rw a (
          ap (λ t. t ++ take r.write_idx r.buffer)
            (split ∙ ap (λ t. slice r.read_idx k r.buffer ++ t) d)
          ∙ regroup) in
      whole ∙ ap (λ t. slice r.read_idx k r.buffer ++ t) rest
    where
      rest :
          drop (r.read_idx + k) r.buffer ++ take r.write_idx r.buffer ≡ contents (advance_read r k)
      rest = ground (
        arith,
        drop_all (r.read_idx + k) r.buffer,
        ap (λ t. take t r.buffer) (minus_zero r.write_idx),
      )

  -- What is read is the front of the queue, and the rest stays.
  pub contents-advance_read :
      k ≤ (
        if leb r.read_idx r.write_idx
        then r.write_idx - r.read_idx
        else length r.buffer - r.read_idx)
      → contents r ≡ slice r.read_idx k r.buffer ++ contents (advance_read r k)
  contents-advance_read h = elim (Bool-cases (leb r.read_idx r.write_idx)) [
    | inl e ↦ linear (ground arith)
    | inr e ↦ round_end (ground arith) (ground arith)
  ]

  pub advance_read-IsValid : r.read_idx + k ≤ length r.buffer → IsValid (advance_read r k)
  advance_read-IsValid h = ground arith
