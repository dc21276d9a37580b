-- ===== src/Library/TransactionalBuffer.antt =====
-- kernel/include/library/transactional_buffer.h: the interface through which kernel code copies to
-- and from a caller's buffer, and the kernel's implementations of it.
pub mod Laws
use bek_os.Common.{ℕ, ◌+◌, ◌&&◌, List}
use bek_os.Common.Tests.{◌==◌, leb}
use bek_os.Common.Lists.{length}
use bek_os.Common.Outcome.{Outcome, ok, ◌>>=◌, ◌>>◌, verify}
use bek_os.Common.Memory.{memory_read, memory_write}

-- The virtual functions of TransactionalBuffer over a buffer's state. `write_from bytes offset`
-- copies into the buffer, `read_to length offset` out of it. The count that both return on success
-- is the length asked for, so that only the new state and the bytes are kept.
pub record TransactionalBuffer : Type 1 where
  pub Buffer : Type 0
  pub size : Buffer → ℕ
  pub write_from : List ℕ → ℕ → Buffer → Outcome Buffer
  pub read_to : ℕ → ℕ → Buffer → Outcome (List ℕ)

-- KernelBuffer: the bytes of kernel memory from m_ptr on, m_size of them.
abbrev pub kernel_buffer : TransactionalBuffer
kernel_buffer = record {
  Buffer = List ℕ;
  size = length;
  write_from = λ bytes offset b. memory_write b offset bytes;
  read_to = λ n offset b. memory_read b offset n;
}

-- BitwiseObjectBuffer<T>: an object as its bytes, copied whole or not at all.
abbrev pub bitwise_object_buffer : TransactionalBuffer
bitwise_object_buffer = record {
  Buffer = List ℕ;
  size = length;
  write_from = λ bytes offset b. verify (offset == 0 && length bytes == length b) >> ok bytes;
  read_to = λ n offset b. verify (offset == 0 && n == length b) >> ok b;
}

-- The fields of TransactionalBufferSubset over a buffer of another kind.
pub record Subset (T : TransactionalBuffer) : Type 0 where
  pub buffer : T.Buffer
  pub offset : ℕ
  pub len : ℕ

module _ (T : TransactionalBuffer) where
  -- The constructor of TransactionalBufferSubset.
  unfoldable pub make_subset : T.Buffer → ℕ → ℕ → Outcome (Subset T)
  make_subset b offset len = do
    verify (leb offset (T.size b))
    verify (leb (offset + len) (T.size b))
    ok (record { buffer = b; offset = offset; len = len })

  abbrev pub buffer_subset : TransactionalBuffer
  buffer_subset = record {
    Buffer = Subset T;
    size = λ s. s.len;
    write_from = λ bytes offset s.
        T.write_from bytes (offset + s.offset) s.buffer >>= λ b. ok (record s { buffer = b });
    read_to = λ n offset s. T.read_to n (offset + s.offset) s.buffer;
  }
