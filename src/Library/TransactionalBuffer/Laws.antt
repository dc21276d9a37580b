-- ===== src/Library/TransactionalBuffer/Laws.antt =====
-- What callers of a TransactionalBuffer rely on, as laws that each implementation meets.
use bek_os.Common.{ℕ, ◌+◌, ◌≤◌, ◌≡◌, refl, List}
use bek_os.Common.Lists.{length, slice, splice}
use bek_os.Common.Outcome.{ok}
use bek_os.Common.Memory.{memory_read_lem, memory_write_lem}
use bek_os.Library.TransactionalBuffer.{TransactionalBuffer, kernel_buffer}

-- A buffer has contents, as many bytes as its size; a copy inside the size does what it says.
pub record IsLawful (T : TransactionalBuffer) : Type 0 where
  pub contents : T.Buffer → List ℕ
  pub size_lem : (b : T.Buffer) → T.size b ≡ length (contents b)
  pub write_lem :
      (bytes : List ℕ) (offset : ℕ) (b : T.Buffer)
      → offset + length bytes ≤ T.size b
      → (b' : T.Buffer) × (T.write_from bytes offset b ≡ ok b')
        × (contents b' ≡ splice (contents b) offset bytes)
  pub read_lem :
      (n offset : ℕ) (b : T.Buffer)
      → offset + n ≤ T.size b
      → T.read_to n offset b ≡ ok (slice offset n (contents b))

abbrev pub kernel_buffer-IsLawful : IsLawful kernel_buffer
kernel_buffer-IsLawful = record {
  contents = λ b. b;
  size_lem = λ b. refl;
  write_lem = λ bytes offset b h. (splice b offset bytes, memory_write_lem b offset bytes h, refl);
  read_lem = λ n offset b h. memory_read_lem b offset n h;
}
