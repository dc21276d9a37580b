-- ===== src/Library/Bitset/Fit.antt =====
-- What find_first_fit finds.
use bek_os.Common.{
  ℕ, zero, suc, ◌+◌, ◌-◌, ◌*◌, ◌/◌, ◌≤◌, ◌<◌, ◌≡◌, refl, sym, ap, ◌∙◌, Bool, true, false, not, inl,
  inr, ◌⊎◌, min, arith,
}
use bek_os.Common.Tests.{ltb, leb, add64, sub64, word, align_up, Bool-cases}
use bek_os.Common.Outcome.{ok, ◌>>=◌}
use bek_os.Library.Bitset.{Bitset, same, get_region_size, fit_loop, find_first_fit, align_up64}
use bek_os.Library.Bitset.Scan.{run_length, run_length-le, get_lem}
use bek_os.Library.Bitset.Run.{get_region_size_lem}
use native.Mathlib.Nat.{div-mul-le_self, lt-div-mul-add}

pub run_length-positive :
    (n : ℕ) (s : Bitset) (i : ℕ) (val : Bool)
    → 0 < n
    → same val (s.bits i) ≡ true
    → 0 < run_length n s i val
run_length-positive zero s i val h e = absurd (omega arith)
run_length-positive (suc n) s i val h e = rw e (omega arith)

pub run_length-same :
    (n : ℕ) (s : Bitset) (i : ℕ) (val : Bool) (j : ℕ)
    → i ≤ j
    → j < i + run_length n s i val
    → same val (s.bits j) ≡ true
run_length-same zero s i val j h l = absurd (omega arith)
run_length-same (suc n) s i val j h l = elim (Bool-cases (same val (s.bits i))) [
  | inl e ↦
      let long : run_length (suc n) s i val ≡ suc (run_length n s (i + 1) val) = rw e refl in
      elim (Bool-cases (ltb i j)) [
        | inl later ↦ run_length-same n s (i + 1) val j (ground arith) (omega arith)
        | inr here ↦ let at : i ≡ j = ground arith in ap (λ k. same val (s.bits k)) (sym at) ∙ e
      ]
  | inr e ↦ let short : run_length (suc n) s i val ≡ 0 = rw e refl in absurd (omega arith)
]

align_up-bounds :
    (n alignment : ℕ)
    → 0 < alignment
    → (n ≤ align_up n alignment) × (align_up n alignment < n + alignment)
align_up-bounds n alignment h =
    let low = div-mul-le_self (n + alignment - 1) alignment in
    let high : n + alignment - 1 < (n + alignment - 1) / alignment * alignment + alignment =
      lt-div-mul-add h in
    (omega arith, omega arith)

-- What find_first_fit may answer: that there is no fit, or a place and the number of equal bits there.
abbrev pub Fit : Bitset → ℕ → Bool → ℕ × ℕ → Type 0
Fit s length val (index, size) =
    ((index ≡ 0) × (size ≡ 0))
    ⊎ ((length ≤ size)
        × (index + size ≤ s.length)
        × ((j : ℕ) → index ≤ j → j < index + size → same val (s.bits j) ≡ true))

pub fit_loop_ends :
    (fuel : ℕ) (s : Bitset) (start length : ℕ) (val : Bool) (alignment max_size : ℕ)
    → s.length ≤ start
    → fit_loop (suc fuel) s start length val alignment max_size ≡ ok (0, 0)
unfolding fit_loop
fit_loop_ends fuel s start length val alignment max_size h =
    let stop : ltb start s.length ≡ false = ground arith in rw (stop, fit_loop) refl

pub fit_loop_fits :
    (fuel : ℕ) (s : Bitset) (start length : ℕ) (val : Bool) (alignment max_size size : ℕ)
    → start < s.length
    → same val (s.bits start) ≡ true
    → get_region_size s start val max_size ≡ ok size
    → length ≤ size
    → fit_loop (suc fuel) s start length val alignment max_size ≡ ok (start, size)
unfolding fit_loop
fit_loop_fits fuel s start length val alignment max_size size h e run fits =
    let go : ltb start s.length ≡ true = ground arith in
    let enough : leb length size ≡ true = ground arith in
    rw (go, fit_loop)
      (rw (get_lem s start h) (rw (◌>>=◌, e) (rw (◌>>=◌, run) (rw (◌>>=◌, enough) refl))))

pub fit_loop_short :
    (fuel : ℕ) (s : Bitset) (start length : ℕ) (val : Bool) (alignment max_size size : ℕ)
    → start < s.length
    → same val (s.bits start) ≡ true
    → get_region_size s start val max_size ≡ ok size
    → size < length
    → fit_loop (suc fuel) s start length val alignment max_size
      ≡ fit_loop fuel s (add64 start size) length val alignment max_size
unfolding fit_loop
fit_loop_short fuel s start length val alignment max_size size h e run fits =
    let go : ltb start s.length ≡ true = ground arith in
    let short : leb length size ≡ false = ground arith in
    rw (go, fit_loop)
      (rw (get_lem s start h) (rw (◌>>=◌, e) (rw (◌>>=◌, run) (rw (◌>>=◌, short) refl))))

pub fit_loop_passes :
    (fuel : ℕ) (s : Bitset) (start length : ℕ) (val : Bool) (alignment max_size size : ℕ)
    → start < s.length
    → same val (s.bits start) ≡ false
    → get_region_size s start (not val) (word - 1) ≡ ok size
    → fit_loop (suc fuel) s start length val alignment max_size
      ≡ fit_loop fuel s (add64 start (align_up size alignment)) length val alignment max_size
unfolding fit_loop
fit_loop_passes fuel s start length val alignment max_size size h e run =
    let go : ltb start s.length ≡ true = ground arith in
    rw (go, fit_loop) (rw (get_lem s start h) (rw (◌>>=◌, e) (rw (◌>>=◌, run) refl)))

pub other : (val b : Bool) → same val b ≡ false → same (not val) b ≡ true
other true true e = cc
other true false e = refl
other false true e = refl
other false false e = cc

fit_loop_lem :
    (fuel : ℕ) (s : Bitset) (start length : ℕ) (val : Bool) (alignment max_size : ℕ)
    → 0 < alignment
    → 0 < max_size
    → s.length + alignment < word
    → s.length - start < fuel
    → (r : ℕ × ℕ) × (fit_loop fuel s start length val alignment max_size ≡ ok r)
      × Fit s length val r
fit_loop_lem zero s start length val alignment max_size a m w f = absurd (omega arith)
fit_loop_lem (suc fuel) s start length val alignment max_size a m w f =
    elim (Bool-cases (ltb start s.length)) [
      | inr outside ↦ (
        (0, 0),
        fit_loop_ends fuel s start length val alignment max_size (ground arith),
        inl (refl, refl),
      )
      | inl inside ↦
          let here : start < s.length = ground arith in
          let left = s.length - start in
          elim (Bool-cases (same val (s.bits start))) [
            | inl e ↦
                let size = run_length (min max_size left) s start val in
                let run = get_region_size_lem s start val max_size (omega arith) (omega arith) in
                let le = run_length-le (min max_size left) s start val in
                let some_bit =
                  run_length-positive (min max_size left) s start val (omega arith) e in
                elim (Bool-cases (leb length size)) [
                  | inl fits ↦ (
                    (start, size),
                    fit_loop_fits fuel s start length val alignment max_size size here e run
                        (ground arith),
                    inr (
                      ground arith,
                      omega arith,
                      run_length-same (min max_size left) s start val,
                    ),
                  )
                  | inr short ↦
                      let (r, later, fit) =
                        fit_loop_lem fuel s (add64 start size) length val alignment max_size a m w
                          (omega arith) in
                      (
                        r,
                        fit_loop_short fuel s start length val alignment max_size size here e run
                              (ground arith)
                            ∙ later,
                        fit,
                      )
                ]
            | inr e ↦
                let not_val = other val (s.bits start) e in
                let size = run_length (min (word - 1) left) s start (not val) in
                let run =
                  get_region_size_lem s start (not val) (word - 1) (omega arith) (omega arith) in
                let le = run_length-le (min (word - 1) left) s start (not val) in
                let some_bit =
                  run_length-positive (min (word - 1) left) s start (not val) (omega arith)
                    not_val in
                let bounds = align_up-bounds size alignment a in
                let (r, later, fit) =
                  fit_loop_lem fuel s (add64 start (align_up size alignment)) length val alignment
                    max_size a m w (omega arith) in
                (
                  r,
                  fit_loop_passes fuel s start length val alignment max_size size here e run
                      ∙ later,
                  fit,
                )
          ]
    ]

-- find_first_fit, with an offset below the alignment and room for the alignment below 2 ^ 64, ends.
-- It answers that there is no fit, or a place where as many bits as asked for, and as it says, have
-- the value, all of them in the bitset.
pub find_first_fit_lem :
    (s : Bitset) (length : ℕ) (val : Bool) (hint alignment alignment_offset max_size : ℕ)
    → alignment_offset < alignment
    → 0 < max_size
    → s.length + alignment < word
    → (r : ℕ × ℕ) × (find_first_fit s length val hint alignment alignment_offset max_size ≡ ok r)
      × Fit s length val r
unfolding find_first_fit
find_first_fit_lem s length val hint alignment alignment_offset max_size o m w =
    let allowed : ltb alignment_offset alignment ≡ true = ground arith in
    let (r, run, fit) =
      fit_loop_lem (s.length + 1) s
        (sub64 (align_up64 (add64 hint alignment_offset) alignment) alignment_offset) length val
        alignment max_size (omega arith) m w (omega arith) in
    (r, rw allowed run, fit)
