-- ===== src/Library/Bitset/Run.antt =====
-- get_region_size finds the length of the run of equal bits at a place.
use bek_os.Common.{
  ℕ, zero, suc, ◌+◌, ◌-◌, ◌%◌, ◌≤◌, ◌<◌, ◌≡◌, refl, sym, ap, ◌∙◌, Bool, true, false, ◌&&◌, not, inl,
  inr, ◌⊎◌, min, arith,
}
use bek_os.Common.Tests.{◌==◌, ltb, add64, sub64, word, Bool-cases}
use bek_os.Common.Outcome.{ok}
use bek_os.Library.Bitset.{Bitset, same, scan_up, scan_rest, get_region_size}
use bek_os.Library.Bitset.Scan.{
  run_length, run_length-le, run_end, run_end-goes, run_end-stops, scan_bits_lem, scan_bytes_lem,
  scan_up_goes, scan_up_ceases, scan_up_stops,
}

-- What the first loop leaves to do.
abbrev Ahead : Bitset → ℕ → ℕ → Bool → Bool × ℕ → Type 0
Ahead s start end val (true, stop) = stop ≡ run_end s start end val
Ahead s start end val (false, stop) =
    ((stop % 8 ≡ 0) ⊎ (end ≤ stop))
    × (stop ≤ end)
    × (run_end s stop end val ≡ run_end s start end val)

Ahead-step :
    (s : Bitset) (start end : ℕ) (val : Bool) (r : Bool × ℕ)
    → run_end s start end val ≡ run_end s (start + 1) end val
    → Ahead s (start + 1) end val r
    → Ahead s start end val r
Ahead-step s start end val (true, stop) e a = a ∙ sym e
Ahead-step s start end val (false, stop) e a = (a.0, a.1, a.2 ∙ sym e)

scan_up_lem :
    (fuel : ℕ) (s : Bitset) (start end : ℕ) (val : Bool)
    → start ≤ end
    → end ≤ s.length
    → (8 - start % 8) % 8 < fuel
    → (r : Bool × ℕ) × (scan_up fuel s start end val ≡ ok r) × Ahead s start end val r
scan_up_lem zero s start end val h b f = absurd (omega arith)
scan_up_lem (suc fuel) s start end val h b f =
    elim (Bool-cases (not (start % 8 == 0) && ltb start end)) [
      | inl goes ↦
          let inside : start < end = ground arith in
          elim (Bool-cases (same val (s.bits start))) [
            | inl e ↦
                let (r, run, ahead) =
                  scan_up_lem fuel s (start + 1) end val (omega arith) b (ground arith) in
                (
                  r,
                  scan_up_goes fuel s start end val goes (omega arith) e ∙ run,
                  Ahead-step s start end val r (run_end-goes s start end val inside e) ahead,
                )
            | inr e ↦ (
              (true, start),
              scan_up_ceases fuel s start end val goes (omega arith) e,
              sym (run_end-stops s start end val inside e),
            )
          ]
      | inr stops ↦
          ((false, start), scan_up_stops fuel s start end val stops, (ground arith, h, refl))
    ]

scan_rest_lem :
    (s : Bitset) (start end : ℕ) (val : Bool) (r : Bool × ℕ)
    → end ≤ s.length
    → Ahead s start end val r
    → scan_rest s start end val r ≡ ok (sub64 (run_end s start end val) start)
unfolding scan_rest
scan_rest_lem s start end val (true, stop) b a = ap (λ k. ok (sub64 k start)) a
scan_rest_lem s start end val (false, stop) b (aligned, le, e) =
    let (stop', run, le', e') = scan_bytes_lem (end + 1) s stop end val aligned le (omega arith) in
    let last = scan_bits_lem (end + 1) s stop' end val b (omega arith) in
    rw run (rw last (ap (λ k. ok (sub64 k start)) (e' ∙ e)))

-- get_region_size at a place of the bitset is the number of bits from there on, up to max_size and
-- up to the end of the bitset, before the first that differs from the value asked for.
pub get_region_size_lem :
    (s : Bitset) (start_index : ℕ) (val : Bool) (max_size : ℕ)
    → start_index ≤ s.length
    → s.length < word
    → get_region_size s start_index val max_size
      ≡ ok (run_length (min max_size (s.length - start_index)) s start_index val)
unfolding get_region_size
get_region_size_lem s start_index val max_size h w =
    let size = min max_size (s.length - start_index) in
    let end = start_index + size in
    let left : sub64 s.length start_index ≡ s.length - start_index = omega arith in
    let sum : add64 start_index size ≡ end = omega arith in
    let back : end - start_index ≡ size = omega arith in
    let (r, run, ahead) =
      scan_up_lem 9 s start_index end val (omega arith) (omega arith) (omega arith) in
    let bound = run_length-le (end - start_index) s start_index val in
    let length : sub64 (run_end s start_index end val) start_index
        ≡ run_length (end - start_index) s start_index val =
      omega arith in
    rw (left, sum)
      (rw run (
        scan_rest_lem s start_index end val r (omega arith) ahead
        ∙ ap ok length
        ∙ ap (λ n. ok (run_length n s start_index val)) back))
