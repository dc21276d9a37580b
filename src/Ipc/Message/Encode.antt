-- ===== src/Ipc/Message/Encode.antt =====
-- userspace/libipc/src/message.cpp: Message::encode_bytes, on the storage of the vector m_buffer.
use bek_os.Common.{
  ℕ, ◌+◌, ◌^◌, ◌<◌, ◌≤◌, ◌≡◌, refl, ap, ◌∙◌, ◌⊎◌, inl, inr, List, [], ◌∷◌, Option, some, arith,
}
use bek_os.Common.Tests.{ltb, Bool-cases}
use bek_os.Common.Lists.{length, set, take, take-set_high}
use bek_os.Common.Outcome.{Outcome, ok, fault, ◌>>=◌}
use bek_os.Bek.Vector.Growth.{Vector, construct, expand}
use bek_os.Bek.Vector.Growth.Contents.{Holds, expand_lem}

-- memcopy to a place of the storage.
unfoldable pub copy_bytes : List ℕ → ℕ → List (Option ℕ) → Outcome (List (Option ℕ))
unfolding construct
copy_bytes [] i array = ok array
copy_bytes (b ∷ bytes) i array =
    construct ℕ array i (some b) >>= λ array'. copy_bytes bytes (i + 1) array'

unfoldable pub encode_bytes : Vector ℕ → List ℕ → Outcome (Vector ℕ)
unfolding expand copy_bytes
encode_bytes m_buffer bytes = expand ℕ m_buffer (length bytes) >>= λ v.
    copy_bytes bytes v.size v.array >>= λ array. ok (record { size = v.size; array = array })

-- A copy leaves the slots in front of it.
copy_bytes_lem :
    (bytes : List ℕ) (n i : ℕ) (array : List (Option ℕ))
    → n ≤ i
    → (copy_bytes bytes i array ≡ fault)
      ⊎ ((array' : List (Option ℕ)) × (copy_bytes bytes i array ≡ ok array')
          × (take n array' ≡ take n array))
unfolding copy_bytes construct
copy_bytes_lem [] n i array h = inr (array, refl, refl)
copy_bytes_lem (b ∷ bytes) n i array h = elim (Bool-cases (ltb i (length array))) [
  | inr out ↦ inl (rw out refl)
  | inl inside ↦ elim (copy_bytes_lem bytes n (i + 1) (set array i (some b)) (omega arith)) [
    | inl bad ↦ inl (rw inside bad)
    | inr (array', run, same) ↦
        inr (array', rw inside run, same ∙ take-set_high n array i (some b) h)
  ]
]

-- For a buffer of fewer than 2 ^ 64 slots that is to have up to 2 ^ 63 bytes, encode_bytes makes it longer as expand does, but
-- puts none of the bytes into it: they are written behind the new end, or leave the array.
pub encode_bytes_lem :
    (m_buffer : Vector ℕ) (xs bytes : List ℕ) (spare : List (Option ℕ))
    → Holds ℕ m_buffer xs spare
    → length m_buffer.array < 2 ^ 64
    → length xs + length bytes ≤ 2 ^ 63
    → (v : Vector ℕ) × (expand ℕ m_buffer (length bytes) ≡ ok v)
      × (v.size ≡ length xs + length bytes)
      × ((encode_bytes m_buffer bytes ≡ fault)
          ⊎ ((array : List (Option ℕ)) × (encode_bytes m_buffer bytes
                ≡ ok (record { size = v.size; array = array }))
              × (take v.size array ≡ take v.size v.array)))
unfolding encode_bytes
encode_bytes_lem m_buffer xs bytes spare h w small =
    let (v, spare', run, size, slots, room) =
      expand_lem ℕ m_buffer xs spare (length bytes) h w small in
    let start =
      ap
        (λ r. r >>= λ u.
          copy_bytes bytes u.size u.array >>= λ array. ok (record { size = u.size; array = array }))
        run in
    let finish : Outcome (List (Option ℕ)) → Outcome (Vector ℕ) =
      λ r. r >>= λ array. ok (record { size = v.size; array = array }) in
    (
      v,
      run,
      size,
      elim (copy_bytes_lem bytes v.size v.size v.array (omega arith)) [
        | inl bad ↦ inl (start ∙ ap finish bad)
        | inr (array, done, same) ↦ inr (array, start ∙ ap finish done, same)
      ],
    )
