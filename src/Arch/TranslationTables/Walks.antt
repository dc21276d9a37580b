-- ===== src/Arch/TranslationTables/Walks.antt =====
-- What a walk over the tables does to the lookups in them.
use bek_os.Common.{
  ℕ, suc, ◌+◌, ◌-◌, ◌*◌, ◌%◌, ◌^◌, ◌<◌, ◌≤◌, ◌≡◌, ap, ◌∙◌, ◌⊎◌, inl, inr, some, arith,
}
use bek_os.Common.Outcome.{Outcome, ok, err, panic, fault, spin, ◌>>=◌}
use bek_os.Arch.TranslationTables.{Walk}
use bek_os.Arch.TranslationTables.Find.{Found}

-- A call that has not returned.
abbrev pub IsStuck {ℓ} : {A : Type ℓ} → Outcome A → Type 0
IsStuck (ok a) = ⊥
IsStuck (err e) = Unit
IsStuck panic = Unit
IsStuck fault = Unit
IsStuck spin = Unit

pub >>=-IsStuck {ℓ κ} :
    {A : Type ℓ} {B : Type κ} (r : Outcome A) (f : A → Outcome B) → IsStuck r → IsStuck (r >>= f)
>>=-IsStuck (ok a) f h = absurd h
>>=-IsStuck (err e) f h = tt
>>=-IsStuck panic f h = tt
>>=-IsStuck fault f h = tt
>>=-IsStuck spin f h = tt

pub le_or_lt : (a b : ℕ) → (a ≤ b) ⊎ (b < a)
le_or_lt a b = ground arith

pub suc-mul : (n size : ℕ) → suc n * size ≡ n * size + size
suc-mul n size = grind arith

pub mul-le_lt : (j i size : ℕ) → j < i → j * size + size ≤ i * size
mul-le_lt j i size h = grind arith

module _ (M : Type 0) where
  -- The walk is aligned to pages, and what is left of it ends below the bounds of both address spaces.
  pub record IsAligned (w : Walk M) : Type 0 where
    pub virt_aligned : w.virt_start % 4096 ≡ 0
    pub phys_aligned : w.phys_start % 4096 ≡ 0
    pub size_aligned : w.size % 4096 ≡ 0
    pub virt_end : w.virt_start + w.size < 2 ^ 64
    pub phys_end : w.phys_start + w.size ≤ 2 ^ 48

  -- The walk has gone on by `n` bytes.
  pub record Gone (n : ℕ) (w w' : Walk M) : Type 0 where
    pub virt_gone : w'.virt_start ≡ w.virt_start + n
    pub phys_gone : w'.phys_start ≡ w.phys_start + n
    pub size_gone : w'.size + n ≡ w.size
    pub aligned : IsAligned w'

  -- Lookups after `n` bytes from `first` on have been mapped to `phys`: there they answer that, and elsewhere
  -- what they did before.
  abbrev pub Maps : ℕ × ℕ → ℕ → ℕ → ℕ → ℕ → Found → Found → Type 0
  Maps attributes first n phys place old new =
      (first ≤ place
        → place < first + n
        → new ≡ some (phys + (place - first), attributes.0, attributes.1))
      × ((place < first) ⊎ (first + n ≤ place) → new ≡ old)

  pub Maps-join :
      (attributes : ℕ × ℕ) (x n₁ x₁ n₂ phys phys₁ place : ℕ) (old mid new : Found)
      → Maps attributes x n₁ phys place old mid
      → Maps attributes x₁ n₂ phys₁ place mid new
      → x + n₁ ≤ x₁
      → (0 < n₂ → x₁ ≡ x + n₁)
      → phys₁ ≡ phys + n₁
      → Maps attributes x (n₁ + n₂) phys place old new
  Maps-join attributes x n₁ x₁ n₂ phys phys₁ place old mid new m₁ m₂ apart next e = (
    λ low high. elim (le_or_lt (x + n₁) place) [
      | inr before ↦ m₂.1 (inl (omega arith)) ∙ m₁.0 low before
      | inl behind ↦
          let joined = next (omega arith) in
          m₂.0 (omega arith) (omega arith)
          ∙ ap (λ u. some (u, attributes.0, attributes.1)) (omega arith)
    ],
    λ out. elim out [
      | inl before ↦ m₂.1 (inl (omega arith)) ∙ m₁.1 (inl before)
      | inr behind ↦ elim (le_or_lt n₂ 0) [
        | inl none_left ↦ elim (le_or_lt x₁ place) [
          | inl far ↦ m₂.1 (inr (omega arith)) ∙ m₁.1 (inr (omega arith))
          | inr near ↦ m₂.1 (inl near) ∙ m₁.1 (inr (omega arith))
        ]
        | inr some_left ↦
            let joined = next some_left in m₂.1 (inr (omega arith)) ∙ m₁.1 (inr (omega arith))
      ]
    ],
  )

  -- The same places, counted from further in front.
  pub Maps-shift :
      (attributes : ℕ × ℕ) (c first n phys place : ℕ) (old new : Found)
      → Maps attributes first n phys place old new
      → Maps attributes (c + first) n phys (c + place) old new
  Maps-shift attributes c first n phys place old new m = (
    λ low high.
        m.0 (omega arith) (omega arith)
        ∙ ap (λ u. some (u, attributes.0, attributes.1)) (omega arith),
    λ out. elim out [ inl before ↦ m.1 (inl (omega arith)) | inr behind ↦ m.1 (inr (omega arith)) ],
  )

  pub Gone-trans :
      (n₁ n₂ : ℕ) (w w₁ w₂ : Walk M) → Gone n₁ w w₁ → Gone n₂ w₁ w₂ → Gone (n₁ + n₂) w w₂
  Gone-trans n₁ n₂ w w₁ w₂ g h = record {
    virt_gone = omega arith;
    phys_gone = omega arith;
    size_gone = omega arith;
    aligned = h.aligned;
  }
