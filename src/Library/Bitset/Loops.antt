-- ===== src/Library/Bitset/Loops.antt =====
-- What each loop of set_range writes.
use bek_os.Common.{
  ℕ, zero, suc, ◌+◌, ◌-◌, ◌*◌, ◌/◌, ◌%◌, ◌≤◌, ◌<◌, ◌≡◌, refl, sym, ap, ◌∙◌, Bool, true, false, ◌&&◌,
  ◌||◌, not, inl, inr, ◌⊎◌, fun_ext, min, max, arith,
}
use bek_os.Common.Tests.{◌==◌, ltb, leb, if◌then◌else◌, align_up, Bool-cases}
use bek_os.Common.Outcome.{ok, ◌>>=◌}
use bek_os.Library.Bitset.{Bitset, set, set_byte, fill_up, fill_down, fill_bytes}

abbrev pub between : ℕ → ℕ → ℕ → Bool
between a b j = leb a j && ltb j b

-- The bits from one place up to another have a value, and the others are as they were.
abbrev pub fill : Bitset → ℕ → ℕ → Bool → Bitset
fill s a b val = record s { bits = λ j. if between a b j then val else s.bits j }

or_if :
    (p q w : Bool) (x val : Bool)
    → (p || q) ≡ w
    → (if q then val else if p then val else x) ≡ (if w then val else x)
or_if p true w x val e = ground arith
or_if true false w x val e = ground arith
or_if false false w x val e = ground arith

pub with_bits :
    (s : Bitset) (f g : ℕ → Bool)
    → ((j : ℕ) → f j ≡ g j)
    → record s { bits = f } ≡ record s { bits = g }
with_bits s f g h = ap (λ bits. record s { bits = bits }) (fun_ext h)

fill_join :
    (s : Bitset) (a b c d lo hi : ℕ) (val : Bool)
    → ((j : ℕ) → (between a b j || between c d j) ≡ between lo hi j)
    → fill (fill s a b val) c d val ≡ fill s lo hi val
fill_join s a b c d lo hi val h =
    with_bits s _ _
      (λ j. or_if (between a b j) (between c d j) (between lo hi j) (s.bits j) val (h j))

fill_none : (s : Bitset) (a b : ℕ) (val : Bool) → b ≤ a → s ≡ fill s a b val
fill_none s a b val h = with_bits s s.bits _ (λ j. ground arith)

set_lem : (s : Bitset) (i : ℕ) (val : Bool) → i < s.length → set s i val ≡ ok (fill s i (i + 1) val)
unfolding set
set_lem s i val h =
    let inside : ltb i s.length ≡ true = ground arith in
    rw inside (ap ok (with_bits s _ _ (λ j. ground arith)))

set_byte_lem :
    (s : Bitset) (start : ℕ) (val : Bool)
    → start % 8 ≡ 0
    → set_byte s (start / 8) val ≡ fill s start (start + 8) val
unfolding set_byte
set_byte_lem s start val h = with_bits s _ _ (λ j. ground arith)

abbrev pub stop_up : ℕ → ℕ → ℕ
stop_up start end = max start (min end (align_up start 8))

fill_up_goes :
    (fuel : ℕ) (s : Bitset) (start end : ℕ) (val : Bool)
    → (not (start % 8 == 0) && ltb start end) ≡ true
    → start < s.length
    → fill_up (suc fuel) s start end val
      ≡ fill_up fuel (fill s start (start + 1) val) (start + 1) end val
unfolding fill_up
fill_up_goes fuel s start end val goes h =
    rw (goes, fill_up)
      (ap (λ o. o >>= λ s'. fill_up fuel s' (start + 1) end val) (set_lem s start val h))

fill_up_stops :
    (fuel : ℕ) (s : Bitset) (start end : ℕ) (val : Bool)
    → (not (start % 8 == 0) && ltb start end) ≡ false
    → fill_up (suc fuel) s start end val ≡ ok (start, s)
unfolding fill_up
fill_up_stops fuel s start end val stops = rw (stops, fill_up) refl

pub fill_up_lem :
    (fuel : ℕ) (s : Bitset) (start end : ℕ) (val : Bool)
    → end ≤ s.length
    → (8 - start % 8) % 8 < fuel
    → fill_up fuel s start end val ≡ ok (stop_up start end, fill s start (stop_up start end) val)
unfolding fill_up
fill_up_lem zero s start end val b f = absurd (omega arith)
fill_up_lem (suc fuel) s start end val b f =
    elim (Bool-cases (not (start % 8 == 0) && ltb start end)) [
      | inl goes ↦
          let stop : stop_up (start + 1) end ≡ stop_up start end = ground arith in
          let rest =
            fill_up_lem fuel (fill s start (start + 1) val) (start + 1) end val b (ground arith) in
          let join =
            fill_join s start (start + 1) (start + 1) (stop_up start end) start (stop_up start end)
              val (λ j. ground arith) in
          fill_up_goes fuel s start end val goes (ground arith)
          ∙ (rest
              ∙ ap (λ k. ok (k, fill (fill s start (start + 1) val) (start + 1) k val)) stop
              ∙ ap (λ u. ok (stop_up start end, u)) join)
      | inr stops ↦
          let stop : stop_up start end ≡ start = ground arith in
          fill_up_stops fuel s start end val stops
          ∙ (ap (λ u. ok (start, u)) (fill_none s start start val (omega arith))
              ∙ ap (λ k. ok (k, fill s start k val)) (sym stop))
    ]

-- The end that the second loop leaves.
abbrev pub stop_down : ℕ → ℕ → ℕ
stop_down start end = if end / 8 % 2 == 0 then end else min end (max start (end / 8 * 8 - 1))

fill_down_goes :
    (fuel : ℕ) (s : Bitset) (start end : ℕ) (val : Bool)
    → (not (end / 8 % 2 == 0) && ltb start end) ≡ true
    → end - 1 < s.length
    → fill_down (suc fuel) s start end val
      ≡ fill_down fuel (fill s (end - 1) (end - 1 + 1) val) start (end - 1) val
unfolding fill_down
fill_down_goes fuel s start end val goes h =
    rw (goes, fill_down)
      (ap (λ o. o >>= λ s'. fill_down fuel s' start (end - 1) val) (set_lem s (end - 1) val h))

fill_down_stops :
    (fuel : ℕ) (s : Bitset) (start end : ℕ) (val : Bool)
    → (not (end / 8 % 2 == 0) && ltb start end) ≡ false
    → fill_down (suc fuel) s start end val ≡ ok (end, s)
unfolding fill_down
fill_down_stops fuel s start end val stops = rw (stops, fill_down) refl

fill_down_step :
    (fuel : ℕ) (s : Bitset) (start end : ℕ) (val : Bool) (stop : ℕ)
    → (not (end / 8 % 2 == 0) && ltb start end) ≡ true
    → end - 1 < s.length
    → stop ≤ end - 1
    → fill_down fuel (fill s (end - 1) (end - 1 + 1) val) start (end - 1) val
      ≡ ok (stop, fill (fill s (end - 1) (end - 1 + 1) val) stop (end - 1) val)
    → fill_down (suc fuel) s start end val ≡ ok (stop, fill s stop end val)
fill_down_step fuel s start end val stop goes h le rest =
    fill_down_goes fuel s start end val goes h
    ∙ rest
    ∙ ap (λ u. ok (stop, u))
        (fill_join s (end - 1) (end - 1 + 1) stop (end - 1) stop end val (λ j. ground arith))

pub fill_down_lem :
    (fuel : ℕ) (s : Bitset) (start end : ℕ) (val : Bool)
    → end ≤ s.length
    → 0 < fuel
    → (end / 8 % 2 ≡ 0) ⊎ (end % 8 + 1 < fuel)
    → fill_down fuel s start end val
      ≡ ok (stop_down start end, fill s (stop_down start end) end val)
fill_down_lem zero s start end val b p f = absurd (omega arith)
fill_down_lem (suc fuel) s start end val b p f =
    elim (Bool-cases (not (end / 8 % 2 == 0) && ltb start end)) [
      | inl goes ↦
          let stop : stop_down start (end - 1) ≡ stop_down start end = ground arith in
          let rest =
            fill_down_lem fuel (fill s (end - 1) (end - 1 + 1) val) start (end - 1) val
              (omega arith) (ground arith) (ground arith) in
          fill_down_step fuel s start end val (stop_down start (end - 1)) goes (ground arith)
            (ground arith) rest
          ∙ ap (λ k. ok (k, fill s k end val)) stop
      | inr stops ↦
          let stop : stop_down start end ≡ end = ground arith in
          fill_down_stops fuel s start end val stops
          ∙ (ap (λ u. ok (end, u)) (fill_none s end end val (omega arith))
              ∙ ap (λ k. ok (k, fill s k end val)) (sym stop))
    ]

fill_bytes_goes :
    (fuel : ℕ) (s : Bitset) (start end : ℕ) (val : Bool)
    → ltb start end ≡ true
    → fill_bytes (suc fuel) s start end val
      ≡ fill_bytes fuel (set_byte s (start / 8) val) (start + 8) end val
unfolding fill_bytes
fill_bytes_goes fuel s start end val goes = rw (goes, fill_bytes) refl

fill_bytes_stops :
    (fuel : ℕ) (s : Bitset) (start end : ℕ) (val : Bool)
    → (ltb start end) ≡ false
    → fill_bytes (suc fuel) s start end val ≡ ok s
unfolding fill_bytes
fill_bytes_stops fuel s start end val stops = rw (stops, fill_bytes) refl

pub fill_bytes_lem :
    (fuel : ℕ) (s : Bitset) (start end : ℕ) (val : Bool)
    → (start % 8 ≡ 0) ⊎ (end ≤ start)
    → end - start < fuel
    → fill_bytes fuel s start end val
      ≡ ok (fill s start (if ltb start end then align_up end 8 else start) val)
unfolding fill_bytes
fill_bytes_lem zero s start end val a f = absurd (omega arith)
fill_bytes_lem (suc fuel) s start end val a f = elim (Bool-cases (ltb start end)) [
  | inl goes ↦
      let aligned : start % 8 ≡ 0 = ground arith in
      let rest =
        fill_bytes_lem fuel (fill s start (start + 8) val) (start + 8) end val (ground arith)
          (ground arith) in
      let join =
        fill_join s start (start + 8) (start + 8)
          (if ltb (start + 8) end then align_up end 8 else start + 8) start (align_up end 8) val
          (λ j. ground arith) in
      fill_bytes_goes fuel s start end val goes
      ∙ ap (λ u. fill_bytes fuel u (start + 8) end val) (set_byte_lem s start val aligned)
      ∙ rest
      ∙ ap ok join
      ∙ ap (λ b. ok (fill s start (if b then align_up end 8 else start) val)) (sym goes)
  | inr stops ↦
      fill_bytes_stops fuel s start end val stops
      ∙ ap ok (fill_none s start start val (omega arith))
      ∙ ap (λ b. ok (fill s start (if b then align_up end 8 else start) val)) (sym stops)
]
