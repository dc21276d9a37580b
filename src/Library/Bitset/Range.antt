-- ===== src/Library/Bitset/Range.antt =====
-- Which bits set_range writes.
use bek_os.Common.{ℕ, ◌+◌, ◌/◌, ◌%◌, ◌≤◌, ◌<◌, ◌≡◌, refl, ap, ◌∙◌, Bool, true, false, ◌||◌, arith}
use bek_os.Common.Tests.{◌==◌, ltb, leb, if◌then◌else◌, add64, align_up, word}
use bek_os.Common.Outcome.{ok}
use bek_os.Library.Bitset.{Bitset, fill_up, fill_down, fill_bytes, set_range}
use bek_os.Library.Bitset.Loops.{
  between, fill, with_bits, stop_up, stop_down, fill_up_lem, fill_down_lem, fill_bytes_lem,
}

-- Where the run that set_range writes ends.
abbrev pub reach : ℕ → ℕ → ℕ
reach start end =
    if leb end (align_up start 8) then end else if end / 8 % 2 == 0 then align_up end 8 else end

set_range_goes :
    (s : Bitset) (start count : ℕ) (val : Bool) (end top bottom : ℕ) (s' s'' : Bitset)
    → add64 start count ≡ end
    → ltb end s.length ≡ true
    → fill_up 8 s start end val ≡ ok (top, s')
    → fill_down 9 s' top end val ≡ ok (bottom, s'')
    → set_range s start count val ≡ fill_bytes (bottom + 1) s'' top bottom val
unfolding set_range
set_range_goes s start count val end top bottom s' s'' sum inside up down =
    rw (sum, inside, up) (rw down refl)

or_if3 :
    (p q r w : Bool) (x val : Bool)
    → (p || (q || r)) ≡ w
    → (if r then val else if q then val else if p then val else x) ≡ (if w then val else x)
or_if3 p q true w x val e = ground arith
or_if3 p true false w x val e = ground arith
or_if3 true false false w x val e = ground arith
or_if3 false false false w x val e = ground arith

fill_join3 :
    (s : Bitset) (a b c d e f lo hi : ℕ) (val : Bool)
    → ((j : ℕ) → (between a b j || (between c d j || between e f j)) ≡ between lo hi j)
    → fill (fill (fill s a b val) c d val) e f val ≡ fill s lo hi val
fill_join3 s a b c d e f lo hi val h = with_bits s _ _ (λ j.
    or_if3 (between a b j) (between c d j) (between e f j) (between lo hi j) (s.bits j) val (h j))

covered :
    (start end j : ℕ)
    → start ≤ end
    → let top = stop_up start end in
      let bottom = stop_down top end in
      (between start top j
        || (between bottom end j
            || between top (if ltb top bottom then align_up bottom 8 else top) j))
      ≡ between start (reach start end) j
covered start end j h = ground arith

-- set_range of a run that ends before the length writes the run, up to its end if that is in the
-- first byte or the bit of weight 8 is set in it. Otherwise it writes the last byte whole.
pub set_range_lem :
    (s : Bitset) (start count : ℕ) (val : Bool)
    → start + count < s.length
    → s.length < word
    → set_range s start count val ≡ ok (fill s start (reach start (start + count)) val)
unfolding set_range
set_range_lem s start count val h w =
    let end = start + count in
    let sum : add64 start count ≡ end = ground arith in
    let inside : ltb end s.length ≡ true = ground arith in
    let top = stop_up start end in
    let bottom = stop_down top end in
    let up = fill_up_lem 8 s start end val (omega arith) (omega arith) in
    let down =
      fill_down_lem 9 (fill s start top val) top end val (omega arith) (omega arith)
        (ground arith) in
    let bytes =
      fill_bytes_lem (bottom + 1) (fill (fill s start top val) bottom end val) top bottom val
        (ground arith) (omega arith) in
    set_range_goes s start count val end top bottom _ _ sum inside up down
    ∙ bytes
    ∙ ap ok (
        fill_join3 s start top bottom end top (if ltb top bottom then align_up bottom 8 else top)
          start (reach start end) val (λ j. covered start end j (omega arith)))
