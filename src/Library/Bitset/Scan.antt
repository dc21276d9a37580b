-- ===== src/Library/Bitset/Scan.antt =====
-- Where the loops of get_region_size end.
use bek_os.Common.{
  ℕ, zero, suc, ◌+◌, ◌-◌, ◌*◌, ◌/◌, ◌%◌, ◌≤◌, ◌<◌, ◌≡◌, refl, sym, ap, ◌∙◌, Bool, true, false, ◌&&◌,
  not, inl, inr, ◌⊎◌, arith,
}
use bek_os.Common.Tests.{◌==◌, ltb, if◌then◌else◌, Bool-cases}
use bek_os.Common.Outcome.{ok, ◌>>=◌}
use bek_os.Library.Bitset.{Bitset, get, same, all_bits, scan_up, scan_bytes, scan_bits}

-- How many bits of `n` from a place on have a value before the first that has not.
abbrev pub run_length : ℕ → Bitset → ℕ → Bool → ℕ
run_length zero s i val = 0
run_length (suc n) s i val = if same val (s.bits i) then suc (run_length n s (i + 1) val) else 0

pub run_length-le : (n : ℕ) (s : Bitset) (i : ℕ) (val : Bool) → run_length n s i val ≤ n
run_length-le zero s i val = omega arith
run_length-le (suc n) s i val = elim (Bool-cases (same val (s.bits i))) [
  | inl e ↦ rw e (omega (arith, run_length-le n s (i + 1) val))
  | inr e ↦ rw e (omega arith)
]

-- The place where the run from a place on ends, if it does before an end.
abbrev pub run_end : Bitset → ℕ → ℕ → Bool → ℕ
run_end s start end val = start + run_length (end - start) s start val

pub run_end-goes :
    (s : Bitset) (start end : ℕ) (val : Bool)
    → start < end
    → same val (s.bits start) ≡ true
    → run_end s start end val ≡ run_end s (start + 1) end val
run_end-goes s start end val h e =
    let n : end - start ≡ suc (end - (start + 1)) = omega arith in rw (n, e) (omega arith)

pub run_end-stops :
    (s : Bitset) (start end : ℕ) (val : Bool)
    → start < end
    → same val (s.bits start) ≡ false
    → run_end s start end val ≡ start
run_end-stops s start end val h e =
    let n : end - start ≡ suc (end - (start + 1)) = omega arith in rw (n, e) (omega arith)

run_end-done :
    (s : Bitset) (start end : ℕ) (val : Bool) → end ≤ start → run_end s start end val ≡ start
run_end-done s start end val h = let n : end - start ≡ 0 = omega arith in rw n (omega arith)

all_bits-run_end :
    (n : ℕ) (s : Bitset) (start end : ℕ) (val : Bool)
    → start + n ≤ end
    → all_bits n s start val ≡ true
    → run_end s start end val ≡ run_end s (start + n) end val
unfolding all_bits
all_bits-run_end zero s start end val h e = ap (λ k. run_end s k end val) (omega arith)
all_bits-run_end (suc n) s start end val h e =
    run_end-goes s start end val (omega arith) (ground arith)
    ∙ all_bits-run_end n s (start + 1) end val (omega arith) (ground arith)
    ∙ ap (λ k. run_end s k end val) (omega arith)

pub get_lem : (s : Bitset) (i : ℕ) → i < s.length → get s i ≡ ok (s.bits i)
unfolding get
get_lem s i h = let inside : ltb i s.length ≡ true = ground arith in rw inside refl

scan_bits_goes :
    (fuel : ℕ) (s : Bitset) (start end : ℕ) (val : Bool)
    → start < end
    → end ≤ s.length
    → same val (s.bits start) ≡ true
    → scan_bits (suc fuel) s start end val ≡ scan_bits fuel s (start + 1) end val
unfolding scan_bits
scan_bits_goes fuel s start end val h b e =
    let go : ltb start end ≡ true = ground arith in
    rw (go, scan_bits) (rw (get_lem s start (omega arith)) (rw (◌>>=◌, e) refl))

scan_bits_stops :
    (fuel : ℕ) (s : Bitset) (start end : ℕ) (val : Bool)
    → start < end
    → end ≤ s.length
    → same val (s.bits start) ≡ false
    → scan_bits (suc fuel) s start end val ≡ ok start
unfolding scan_bits
scan_bits_stops fuel s start end val h b e =
    let go : ltb start end ≡ true = ground arith in
    rw (go, scan_bits) (rw (get_lem s start (omega arith)) (rw (◌>>=◌, e) refl))

scan_bits_done :
    (fuel : ℕ) (s : Bitset) (start end : ℕ) (val : Bool)
    → end ≤ start
    → scan_bits (suc fuel) s start end val ≡ ok start
unfolding scan_bits
scan_bits_done fuel s start end val h =
    let stop : ltb start end ≡ false = ground arith in rw (stop, scan_bits) refl

pub scan_bits_lem :
    (fuel : ℕ) (s : Bitset) (start end : ℕ) (val : Bool)
    → end ≤ s.length
    → end - start < fuel
    → scan_bits fuel s start end val ≡ ok (run_end s start end val)
scan_bits_lem zero s start end val b f = absurd (omega arith)
scan_bits_lem (suc fuel) s start end val b f = elim (Bool-cases (ltb start end)) [
  | inl more ↦ elim (Bool-cases (same val (s.bits start))) [
    | inl e ↦
        scan_bits_goes fuel s start end val (ground arith) b e
        ∙ scan_bits_lem fuel s (start + 1) end val b (ground arith)
        ∙ ap ok (sym (run_end-goes s start end val (ground arith) e))
    | inr e ↦
        scan_bits_stops fuel s start end val (ground arith) b e
        ∙ ap ok (sym (run_end-stops s start end val (ground arith) e))
  ]
  | inr done ↦
      scan_bits_done fuel s start end val (ground arith)
      ∙ ap ok (sym (run_end-done s start end val (ground arith)))
]

scan_bytes_goes :
    (fuel : ℕ) (s : Bitset) (start aligned_end : ℕ) (val : Bool)
    → (ltb start aligned_end && all_bits 8 s (start / 8 * 8) val) ≡ true
    → scan_bytes (suc fuel) s start aligned_end val ≡ scan_bytes fuel s (start + 8) aligned_end val
unfolding scan_bytes
scan_bytes_goes fuel s start aligned_end val e = rw (e, scan_bytes) refl

scan_bytes_stops :
    (fuel : ℕ) (s : Bitset) (start aligned_end : ℕ) (val : Bool)
    → (ltb start aligned_end && all_bits 8 s (start / 8 * 8) val) ≡ false
    → scan_bytes (suc fuel) s start aligned_end val ≡ ok start
unfolding scan_bytes
scan_bytes_stops fuel s start aligned_end val e = rw (e, scan_bytes) refl

-- The loop over bytes ends at a place from which the run goes on to the same end.
pub scan_bytes_lem :
    (fuel : ℕ) (s : Bitset) (start end : ℕ) (val : Bool)
    → (start % 8 ≡ 0) ⊎ (end ≤ start)
    → start ≤ end
    → end - start < fuel
    → (stop : ℕ) × (scan_bytes fuel s start (end / 8 * 8) val ≡ ok stop)
      × (stop ≤ end)
      × (run_end s stop end val ≡ run_end s start end val)
scan_bytes_lem zero s start end val a h f = absurd (omega arith)
scan_bytes_lem (suc fuel) s start end val a h f =
    elim (Bool-cases (ltb start (end / 8 * 8) && all_bits 8 s (start / 8 * 8) val)) [
      | inl goes ↦
          let inside : start + 8 ≤ end = ground arith in
          let aligned : start / 8 * 8 ≡ start = ground arith in
          let byte : all_bits 8 s (start / 8 * 8) val ≡ true = ground arith in
          let uniform = ap (λ k. all_bits 8 s k val) (sym aligned) ∙ byte in
          let (stop, run, le, e) =
            scan_bytes_lem fuel s (start + 8) end val (ground arith) inside (omega arith) in
          (
            stop,
            scan_bytes_goes fuel s start (end / 8 * 8) val goes ∙ run,
            le,
            e ∙ sym (all_bits-run_end 8 s start end val inside uniform),
          )
      | inr stops ↦ (start, scan_bytes_stops fuel s start (end / 8 * 8) val stops, h, refl)
    ]

pub scan_up_goes :
    (fuel : ℕ) (s : Bitset) (start end : ℕ) (val : Bool)
    → (not (start % 8 == 0) && ltb start end) ≡ true
    → start < s.length
    → same val (s.bits start) ≡ true
    → scan_up (suc fuel) s start end val ≡ scan_up fuel s (start + 1) end val
unfolding scan_up
scan_up_goes fuel s start end val go h e =
    rw (go, scan_up) (rw (get_lem s start h) (rw (◌>>=◌, e) refl))

pub scan_up_ceases :
    (fuel : ℕ) (s : Bitset) (start end : ℕ) (val : Bool)
    → (not (start % 8 == 0) && ltb start end) ≡ true
    → start < s.length
    → same val (s.bits start) ≡ false
    → scan_up (suc fuel) s start end val ≡ ok (true, start)
unfolding scan_up
scan_up_ceases fuel s start end val go h e =
    rw (go, scan_up) (rw (get_lem s start h) (rw (◌>>=◌, e) refl))

pub scan_up_stops :
    (fuel : ℕ) (s : Bitset) (start end : ℕ) (val : Bool)
    → (not (start % 8 == 0) && ltb start end) ≡ false
    → scan_up (suc fuel) s start end val ≡ ok (false, start)
unfolding scan_up
scan_up_stops fuel s start end val stop = rw (stop, scan_up) refl
