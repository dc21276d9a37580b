-- ===== src/Library/Bitset.antt =====
-- kernel/include/library/bitset.h: a view of an array of bytes as bits. The bytes are kept as their
-- bits; a write of a whole byte writes eight of them.
pub mod FirstFit
pub mod Fit
pub mod Loops
pub mod Range
pub mod Run
pub mod Scan
use bek_os.Common.{ℕ, zero, suc, ◌+◌, ◌-◌, ◌*◌, ◌/◌, ◌%◌, Bool, true, false, ◌&&◌, ◌||◌, not, min}
use bek_os.Common.Tests.{◌==◌, ltb, leb, if◌then◌else◌, sub64, add64, align_up, word}
use bek_os.Common.Outcome.{Outcome, ok, panic, spin, ◌>>=◌, ◌>>◌, verify}

pub record Bitset : Type 0 where
  pub bits : ℕ → Bool
  pub length : ℕ

unfoldable pub get : Bitset → ℕ → Outcome Bool
get s index = verify (ltb index s.length) >> ok (s.bits index)

unfoldable pub set : Bitset → ℕ → Bool → Outcome Bitset
set s index val =
    verify (ltb index s.length)
    >> ok (record s { bits = λ j. if j == index then val else s.bits j })

-- m_data[k] = val ? 0xFF : 0x00
unfoldable pub set_byte : Bitset → ℕ → Bool → Bitset
set_byte s k val = record s { bits = λ j. if j / 8 == k then val else s.bits j }

-- The first loop of set_range, with the start that it leaves.
unfoldable pub fill_up : ℕ → Bitset → ℕ → ℕ → Bool → Outcome (ℕ × Bitset)
fill_up zero s start end val = spin
fill_up (suc fuel) s start end val = elim (not (start % 8 == 0) && ltb start end) [
  | false ↦ ok (start, s)
  | true ↦ set s start val >>= λ s'. fill_up fuel s' (start + 1) end val
]

-- The second loop, with the end that it leaves. Its condition is `end & 8`, the bit of weight 8.
unfoldable pub fill_down : ℕ → Bitset → ℕ → ℕ → Bool → Outcome (ℕ × Bitset)
fill_down zero s start end val = spin
fill_down (suc fuel) s start end val = elim (not (end / 8 % 2 == 0) && ltb start end) [
  | false ↦ ok (end, s)
  | true ↦ set s (end - 1) val >>= λ s'. fill_down fuel s' start (end - 1) val
]

-- The third loop.
unfoldable pub fill_bytes : ℕ → Bitset → ℕ → ℕ → Bool → Outcome Bitset
fill_bytes zero s start end val = spin
fill_bytes (suc fuel) s start end val = elim (ltb start end) [
  | false ↦ ok s
  | true ↦ fill_bytes fuel (set_byte s (start / 8) val) (start + 8) end val
]

-- set_range. The first loop has 8 rounds at most, and the second 9.
unfoldable pub set_range : Bitset → ℕ → ℕ → Bool → Outcome Bitset
set_range s start count val = do
  verify (ltb (add64 start count) s.length)
  (start', s') ← fill_up 8 s start (add64 start count) val
  (end', s'') ← fill_down 9 s' start' (add64 start count) val
  fill_bytes (end' + 1) s'' start' end' val

abbrev pub same : Bool → Bool → Bool
same true b = b
same false b = not b

-- m_data[k] == (val ? 0xFF : 0x00), from the bit `i` of the byte on.
unfoldable pub all_bits : ℕ → Bitset → ℕ → Bool → Bool
all_bits zero s i val = true
all_bits (suc n) s i val = same val (s.bits i) && all_bits n s (i + 1) val

-- The first loop of get_region_size: whether it has met another bit, and the place where it ends.
unfoldable pub scan_up : ℕ → Bitset → ℕ → ℕ → Bool → Outcome (Bool × ℕ)
scan_up zero s start end val = spin
scan_up (suc fuel) s start end val = elim (not (start % 8 == 0) && ltb start end) [
  | false ↦ ok (false, start)
  | true ↦ get s start >>= λ bit. elim (same val bit) [
    | false ↦ ok (true, start)
    | true ↦ scan_up fuel s (start + 1) end val
  ]
]

-- The loop over bytes.
unfoldable pub scan_bytes : ℕ → Bitset → ℕ → ℕ → Bool → Outcome ℕ
unfolding all_bits
scan_bytes zero s start aligned_end val = spin
scan_bytes (suc fuel) s start aligned_end val =
    elim (ltb start aligned_end && all_bits 8 s (start / 8 * 8) val) [
      | false ↦ ok start
      | true ↦ scan_bytes fuel s (start + 8) aligned_end val
    ]

-- The last loop, bit by bit.
unfoldable pub scan_bits : ℕ → Bitset → ℕ → ℕ → Bool → Outcome ℕ
scan_bits zero s start end val = spin
scan_bits (suc fuel) s start end val = elim (ltb start end) [
  | false ↦ ok start
  | true ↦ get s start >>= λ bit. elim (same val bit) [
    | false ↦ ok start
    | true ↦ scan_bits fuel s (start + 1) end val
  ]
]

-- What get_region_size does behind its first loop.
unfoldable pub scan_rest : Bitset → ℕ → ℕ → Bool → Bool × ℕ → Outcome ℕ
scan_rest s start_index end val (true, start) = ok (sub64 start start_index)
scan_rest s start_index end val (false, start) = do
  start' ← scan_bytes (end + 1) s start (end / 8 * 8) val
  start'' ← scan_bits (end + 1) s start' end val
  ok (sub64 start'' start_index)

-- get_region_size. Each loop ends within `end` rounds.
unfoldable pub get_region_size : Bitset → ℕ → Bool → ℕ → Outcome ℕ
unfolding scan_rest
get_region_size s start_index val max_size =
    let end = add64 start_index (min max_size (sub64 s.length start_index)) in
    scan_up 9 s start_index end val >>= λ stop. scan_rest s start_index end val stop

-- The loop of find_first_fit; (0, 0) is fit_result_t::invalid().
unfoldable pub fit_loop : ℕ → Bitset → ℕ → ℕ → Bool → ℕ → ℕ → Outcome (ℕ × ℕ)
fit_loop zero s start length val alignment max_size = spin
fit_loop (suc fuel) s start length val alignment max_size = elim (ltb start s.length) [
  | false ↦ ok (0, 0)
  | true ↦ get s start >>= λ bit. elim (same val bit) [
    | true ↦ get_region_size s start val max_size >>= λ size. elim (leb length size) [
      | true ↦ ok (start, size)
      | false ↦ fit_loop fuel s (add64 start size) length val alignment max_size
    ]
    | false ↦ get_region_size s start (not val) (word - 1) >>= λ size.
        fit_loop fuel s (add64 start (align_up size alignment)) length val alignment max_size
  ]
]

-- bek::align_up of a number that may be near 2 ^ 64.
abbrev pub align_up64 : ℕ → ℕ → ℕ
align_up64 n alignment = sub64 (add64 n alignment) 1 / alignment * alignment % word

-- find_first_fit. Each round passes a bit at least.
unfoldable pub find_first_fit : Bitset → ℕ → Bool → ℕ → ℕ → ℕ → ℕ → Outcome (ℕ × ℕ)
find_first_fit s length val hint alignment alignment_offset max_size = do
  verify (ltb alignment_offset alignment)
  fit_loop (s.length + 1) s
      (sub64 (align_up64 (add64 hint alignment_offset) alignment) alignment_offset) length val
      alignment max_size
