-- ===== src/Tests/Rings.antt =====
-- Ring buffers and pipes: kernel/src/library/ringbuffer.cpp and kernel/src/process/pipe.cpp.
use bek_os.Common.{
  ℕ, ◌<◌, ◌≤◌, ◌≡◌, refl, true, false, ◌⊎◌, List, [], ◌∷◌, ◌++◌, arith, ◌-◌, sym, ap, ◌∙◌,
  append-nil,
}
use bek_os.Common.Tests.{leb}
use bek_os.Common.Outcome.{ok, err, eagain}
use bek_os.Library.TransactionalBuffer.{kernel_buffer}
use bek_os.Library.TransactionalBuffer.Laws.{kernel_buffer-IsLawful}
use bek_os.Library.RingBuffer.{
  RingBuffer, Progress, pending_bytes, free_bytes, read_segment, read_loop, read_to, write_to,
}
use bek_os.Common.Memory.{memory_read, memory_write}
use bek_os.Library.RingBuffer.Contents.{IsValid, contents}
use bek_os.Library.RingBuffer.ReadLoop.{Moved, read_to_lem}
use bek_os.Library.RingBuffer.WriteLoop.{Appended, write_to_lem}
use bek_os.Process.Pipe.{Pipe, write}
use bek_os.Process.Pipe.Write.{Reader, actions, IsReader, received, write_against_reader}

-- Three bytes round the end of an array of five, which leaves room for one.
abbrev wrapped : RingBuffer
wrapped = record { buffer = 3 ∷ 0 ∷ 0 ∷ 1 ∷ 2 ∷ []; read_idx = 3; write_idx = 1 }

abbrev empty_ring : RingBuffer
empty_ring = record { buffer = 0 ∷ 0 ∷ 0 ∷ []; read_idx = 1; write_idx = 1 }

abbrev two : List ℕ
two = 7 ∷ 8 ∷ []

abbrev four : List ℕ
four = 4 ∷ 5 ∷ 6 ∷ 7 ∷ []

wrapped-IsValid : IsValid wrapped
wrapped-IsValid = omega arith

empty_ring-IsValid : IsValid empty_ring
empty_ring-IsValid = omega arith

read_runs :
    read_to kernel_buffer wrapped four true
    ≡ ok (record wrapped { read_idx = 1 }, 1 ∷ 2 ∷ 3 ∷ 7 ∷ [], 3)
unfolding read_to read_loop read_segment pending_bytes memory_read memory_write
read_runs = refl

read_to_lem_example :
    ((false ≡ false)
      × (pending_bytes wrapped < 2)
      × (read_to kernel_buffer wrapped two false ≡ err eagain))
    ⊎ (((false ≡ true) ⊎ (2 ≤ pending_bytes wrapped))
        × (s : Progress kernel_buffer) × (read_to kernel_buffer wrapped two false ≡ ok s)
        × Moved kernel_buffer kernel_buffer-IsLawful wrapped two s)
read_to_lem_example =
    read_to_lem kernel_buffer kernel_buffer-IsLawful wrapped two false wrapped-IsValid (omega arith)
      refl

write_to_lem_example :
    ((true ≡ false)
      × (free_bytes wrapped < 4)
      × (write_to kernel_buffer wrapped four true ≡ err eagain))
    ⊎ (((true ≡ true) ⊎ (4 ≤ free_bytes wrapped))
        × (s : Progress kernel_buffer) × (write_to kernel_buffer wrapped four true ≡ ok s)
        × Appended kernel_buffer kernel_buffer-IsLawful wrapped four s)
write_to_lem_example =
    write_to_lem kernel_buffer kernel_buffer-IsLawful wrapped four true wrapped-IsValid
      (omega arith)

-- A reader that takes all that there is.
abbrev drain : Reader
drain p = (contents p, record p { read_idx = p.write_idx })

contents-drain : (p : Pipe) → contents (drain p).1 ≡ []
contents-drain p =
    let e : p.write_idx - p.write_idx ≡ 0 = omega arith in
    let t : leb p.write_idx p.write_idx ≡ true = ground arith in rw (t, e)

drain-IsReader : IsReader kernel_buffer kernel_buffer-IsLawful drain
unfolding free_bytes
drain-IsReader = record {
  valid = λ p v. omega arith;
  capacity = λ p. refl;
  front = λ p v. sym (append-nil (contents p)) ∙ ap (λ t. contents p ++ t) (sym (contents-drain p));
  room_left = λ p v cap. ground arith;
}

write_against_reader_example :
    (s : Progress kernel_buffer) × (write kernel_buffer
        (actions (drain ∷ drain ∷ drain ∷ drain ∷ drain ∷ []))
        wrapped
        four
        true
      ≡ ok s)
    × (s.2 ≡ 4)
    × IsValid s.0
    × (received kernel_buffer kernel_buffer-IsLawful
            (drain ∷ drain ∷ drain ∷ drain ∷ drain ∷ [])
            wrapped
            four
            0
          ++ contents s.0
        ≡ 1 ∷ 2 ∷ 3 ∷ four)
write_against_reader_example =
    let d = drain-IsReader in
    write_against_reader kernel_buffer kernel_buffer-IsLawful
      (drain ∷ drain ∷ drain ∷ drain ∷ drain ∷ []) wrapped four (d, (d, (d, (d, (d, tt)))))
      wrapped-IsValid (omega arith) (omega arith) (omega arith)
