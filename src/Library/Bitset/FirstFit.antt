-- ===== src/Library/Bitset/FirstFit.antt =====
-- find_first_fit without an alignment finds the first run that is long enough, if there is one.
use bek_os.Common.{
  ℕ, zero, suc, ◌+◌, ◌-◌, ◌≤◌, ◌<◌, ◌≡◌, refl, ap, ◌∙◌, Bool, true, false, not, inl, inr, ◌⊎◌, min,
  arith,
}
use bek_os.Common.Tests.{ltb, leb, add64, sub64, word, align_up, Bool-cases}
use bek_os.Common.Outcome.{ok}
use bek_os.Library.Bitset.{Bitset, same, fit_loop, find_first_fit, align_up64}
use bek_os.Library.Bitset.Scan.{run_length, run_length-le}
use bek_os.Library.Bitset.Run.{get_region_size_lem}
use bek_os.Library.Bitset.Fit.{
  run_length-positive, run_length-same, fit_loop_ends, fit_loop_fits, fit_loop_short,
  fit_loop_passes, other,
}

-- The bit behind a run that ends before its bound.
run_length-next :
    (n : ℕ) (s : Bitset) (i : ℕ) (val : Bool)
    → run_length n s i val < n
    → same val (s.bits (i + run_length n s i val)) ≡ false
run_length-next zero s i val h = absurd (omega arith)
run_length-next (suc n) s i val h = elim (Bool-cases (same val (s.bits i))) [
  | inl e ↦
      let long : run_length (suc n) s i val ≡ suc (run_length n s (i + 1) val) = rw e refl in
      let next = run_length-next n s (i + 1) val (omega arith) in
      let at : i + run_length (suc n) s i val ≡ i + 1 + run_length n s (i + 1) val = omega arith in
      ap (λ k. same val (s.bits k)) at ∙ next
  | inr e ↦
      let short : run_length (suc n) s i val ≡ 0 = rw e refl in
      let at : i + run_length (suc n) s i val ≡ i = omega arith in
      ap (λ k. same val (s.bits k)) at ∙ e
]

differ : (val b : Bool) → same (not val) b ≡ true → same val b ≡ false
differ true true e = cc
differ true false e = refl
differ false true e = refl
differ false false e = cc

-- The run at a place has another bit.
abbrev pub Differs : Bitset → ℕ → ℕ → Bool → Type 0
Differs s i length val = (j : ℕ) × (i ≤ j) × (j < i + length) × (same val (s.bits j) ≡ false)

-- No run from a place on that the bitset has room for is before the answer's; if the answer has size
-- 0, there is none at all.
abbrev pub First : Bitset → ℕ → ℕ → Bool → ℕ × ℕ → Type 0
First s start length val (index, size) =
    (i : ℕ) → start ≤ i → i + length ≤ s.length → (i < index) ⊎ (size ≡ 0) → Differs s i length val

-- The answer is a run at or behind a place that is long enough, or has size 0.
abbrev pub LongEnough : Bitset → ℕ → ℕ → Bool → ℕ × ℕ → Type 0
LongEnough s start length val (index, size) =
    (size ≡ 0)
    ⊎ ((start ≤ index)
        × (length ≤ size)
        × (index + size ≤ s.length)
        × ((j : ℕ) → index ≤ j → j < index + size → same val (s.bits j) ≡ true))

LongEnough-after :
    (s : Bitset) (start next length : ℕ) (val : Bool) (r : ℕ × ℕ)
    → start ≤ next
    → LongEnough s next length val r
    → LongEnough s start length val r
LongEnough-after s start next length val r h (inl e) = inl e
LongEnough-after s start next length val r h (inr run) =
    inr (omega (arith, run.0), run.1, run.2, run.3)

First-after :
    (s : Bitset) (start next length : ℕ) (val : Bool) (r : ℕ × ℕ)
    → ((i : ℕ) → start ≤ i → i < next → i + length ≤ s.length → Differs s i length val)
    → First s next length val r
    → First s start length val r
First-after s start next length val r before first i h room u = elim (Bool-cases (ltb i next)) [
  | inl early ↦ before i h (ground arith) room
  | inr late ↦ first i (ground arith) room u
]

first_loop_lem :
    (fuel : ℕ) (s : Bitset) (start length : ℕ) (val : Bool) (max_size : ℕ)
    → 0 < length
    → length ≤ max_size
    → s.length + 1 < word
    → s.length - start < fuel
    → (r : ℕ × ℕ) × (fit_loop fuel s start length val 1 max_size ≡ ok r)
      × LongEnough s start length val r
      × First s start length val r
first_loop_lem zero s start length val max_size p m w f = absurd (omega arith)
first_loop_lem (suc fuel) s start length val max_size p m w f =
    elim (Bool-cases (ltb start s.length)) [
      | inr outside ↦
          let beyond : s.length ≤ start = ground arith in
          (
            (0, 0),
            fit_loop_ends fuel s start length val 1 max_size beyond,
            inl refl,
            λ i h room u. absurd (omega arith),
          )
      | inl inside ↦
          let here : start < s.length = ground arith in
          let left = s.length - start in
          elim (Bool-cases (same val (s.bits start))) [
            | inl e ↦
                let n = min max_size left in
                let size = run_length n s start val in
                let run = get_region_size_lem s start val max_size (omega arith) (omega arith) in
                let le = run_length-le n s start val in
                let some_bit = run_length-positive n s start val (omega arith) e in
                elim (Bool-cases (leb length size)) [
                  | inl fits ↦ (
                    (start, size),
                    fit_loop_fits fuel s start length val 1 max_size size here e run (ground arith),
                    inr (omega arith, ground arith, omega arith, run_length-same n s start val),
                    λ i h room u. absurd (omega arith),
                  )
                  | inr short ↦
                      let less : size < length = ground arith in
                      let (r, later, enough, first) =
                        first_loop_lem fuel s (add64 start size) length val max_size p m w
                          (omega arith) in
                      let before : (i : ℕ)
                          → start ≤ i
                          → i < add64 start size
                          → i + length ≤ s.length
                          → Differs s i length val =
                        λ i h l room. (
                          start + size,
                          omega arith,
                          omega arith,
                          run_length-next n s start val (omega arith),
                        ) in
                      (
                        r,
                        fit_loop_short fuel s start length val 1 max_size size here e run less
                            ∙ later,
                        LongEnough-after s start (add64 start size) length val r (omega arith)
                            enough,
                        First-after s start (add64 start size) length val r before first,
                      )
                ]
            | inr e ↦
                let n = min (word - 1) left in
                let size = run_length n s start (not val) in
                let run =
                  get_region_size_lem s start (not val) (word - 1) (omega arith) (omega arith) in
                let le = run_length-le n s start (not val) in
                let some_bit =
                  run_length-positive n s start (not val) (omega arith)
                    (other val (s.bits start) e) in
                let (r, later, enough, first) =
                  first_loop_lem fuel s (add64 start (align_up size 1)) length val max_size p m w
                    (omega arith) in
                let before : (i : ℕ)
                    → start ≤ i
                    → i < add64 start (align_up size 1)
                    → i + length ≤ s.length
                    → Differs s i length val =
                  λ i h l room. (
                    i,
                    omega arith,
                    omega arith,
                    differ val (s.bits i) (run_length-same n s start (not val) i h (omega arith)),
                  ) in
                (
                  r,
                  fit_loop_passes fuel s start length val 1 max_size size here e run ∙ later,
                  LongEnough-after s start (add64 start (align_up size 1)) length val r
                      (omega arith) enough,
                  First-after s start (add64 start (align_up size 1)) length val r before first,
                )
          ]
    ]

-- find_first_fit without an alignment, for at least one bit and no more than max_size, ends. Its
-- answer is a run of at least so many equal bits in the bitset, at or behind the hint, or has size 0;
-- no run in front of it from the hint on is long enough, and none at all from the hint on if it has
-- size 0.
pub find_first_fit-First :
    (s : Bitset) (length : ℕ) (val : Bool) (hint max_size : ℕ)
    → 0 < length
    → length ≤ max_size
    → s.length + 1 < word
    → hint < word
    → (r : ℕ × ℕ) × (find_first_fit s length val hint 1 0 max_size ≡ ok r)
      × LongEnough s hint length val r
      × First s hint length val r
unfolding find_first_fit
find_first_fit-First s length val hint max_size p m w h =
    let begin : sub64 (align_up64 (add64 hint 0) 1) 0 ≡ hint = omega arith in
    let (r, run, enough, first) =
      first_loop_lem (s.length + 1) s hint length val max_size p m w (omega arith) in
    (r, ap (λ k. fit_loop (s.length + 1) s k length val 1 max_size) begin ∙ run, enough, first)
