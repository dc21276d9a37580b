-- ===== src/Bek/Vector/Growth/Capacity.antt =====
-- bek/include/bek/vector.h: the capacity that a vector grows to.
use bek_os.Common.{
  ℕ, zero, suc, ◌*◌, ◌%◌, ◌^◌, ◌<◌, ◌≤◌, ◌≡◌, refl, ap, ◌∙◌, ◌⊎◌, inl, inr, true, false, arith,
}
use bek_os.Common.Tests.{ltb, word, Bool-cases}
use bek_os.Common.Outcome.{ok}
use bek_os.Bek.Vector.Growth.{double_until, rounds}

-- A number doubled so many times.
abbrev doubled : ℕ → ℕ → ℕ
doubled zero c = c
doubled (suc k) c = doubled k (c * 2)

double_until-stop :
    (fuel c capacity : ℕ) → ltb c capacity ≡ false → double_until (suc fuel) c capacity ≡ ok c
unfolding double_until
double_until-stop fuel c capacity test = rw (test, double_until) refl

double_until-go :
    (fuel c capacity : ℕ)
    → ltb c capacity ≡ true
    → double_until (suc fuel) c capacity ≡ double_until fuel (c * 2 % word) capacity
unfolding double_until
double_until-go fuel c capacity test = rw (test, double_until) refl

double_until_fuel :
    (k c capacity fuel : ℕ)
    → 0 < c
    → c < word
    → capacity ≤ 2 ^ 63
    → capacity ≤ doubled k c
    → k < fuel
    → (r : ℕ) × (double_until fuel c capacity ≡ ok r)
      × (capacity ≤ r)
      × (r < word)
      × (c ≤ r)
      × ((r ≡ c) ⊎ (r < capacity * 2))
unfolding double_until
double_until_fuel k c capacity zero p w h e f = absurd (omega arith)
double_until_fuel zero c capacity (suc fuel) p w h e f =
    let test : ltb c capacity ≡ false = ground arith in
    (c, double_until-stop fuel c capacity test, e, w, omega arith, inl refl)
double_until_fuel (suc k) c capacity (suc fuel) p w h e f = elim (Bool-cases (ltb c capacity)) [
  | inr test ↦ (c, double_until-stop fuel c capacity test, ground arith, w, omega arith, inl refl)
  | inl test ↦
      let below : c < capacity = ground arith in
      let twice : c * 2 % word ≡ c * 2 = omega arith in
      let (r, run, enough, inside, more, near) =
        double_until_fuel k (c * 2) capacity fuel (omega arith) (omega arith) h e (omega arith) in
      (
        r,
        double_until-go fuel c capacity test ∙ ap (λ u. double_until fuel u capacity) twice ∙ run,
        enough,
        inside,
        omega arith,
        elim near [ inl at ↦ inr (omega arith) | inr less ↦ inr less ],
      )
]

doubled-le : (k c d : ℕ) → c ≤ d → doubled k c ≤ doubled k d
doubled-le zero c d h = h
doubled-le (suc k) c d h = doubled-le k (c * 2) (d * 2) (omega arith)

-- The loop of ensure_capacity ends for up to 2 ^ 63 elements, with a capacity that is enough, and which is the
-- one that there was or less than twice what is needed.
pub double_until_lem :
    (c capacity : ℕ)
    → 0 < c
    → c < 2 ^ 64
    → capacity ≤ 2 ^ 63
    → (r : ℕ) × (double_until rounds c capacity ≡ ok r)
      × (capacity ≤ r)
      × (r < 2 ^ 64)
      × (c ≤ r)
      × ((r ≡ c) ⊎ (r < capacity * 2))
double_until_lem c capacity p w h =
    let most : doubled 63 1 ≡ 2 ^ 63 = refl in
    let least = doubled-le 63 1 c (omega arith) in
    double_until_fuel 63 c capacity rounds p w h (omega arith) (omega arith)
