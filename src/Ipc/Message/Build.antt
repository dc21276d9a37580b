-- ===== src/Ipc/Message/Build.antt =====
-- userspace/libipc/src/message.cpp: the bytes that the constructor of MessageBuffer leaves.
use bek_os.Common.{
  ℕ, suc, ◌+◌, ◌*◌, ◌%◌, ◌^◌, ◌<◌, ◌≤◌, ◌≡◌, refl, sym, ap, ◌∙◌, List, [], ◌∷◌, ◌++◌, append_assoc,
  append-nil, arith,
}
use bek_os.Common.Tests.{word32}
use bek_os.Common.Lists.{
  length, replicate, splice, length-append, length-replicate, length-splice, splice-splice,
  drop_all,
}
use bek_os.Common.Memory.{memory_write, memory_write_lem}
use bek_os.Common.Outcome.{ok, ◌>>=◌}
use bek_os.Ipc.Message.{
  MessageHeader, PayloadItem, data_item, header_size, item_size, header_bytes, item_bytes, fd_items,
  memory_items, calculate_size_for_message, calculate_data_offset, write_items, make_message_buffer,
}
use bek_os.Ipc.Message.Layout.{length-item_bytes}

abbrev pub all_bytes : List PayloadItem → List ℕ
all_bytes [] = []
all_bytes (item ∷ items) = item_bytes item ++ all_bytes items

pub length-all_bytes :
    (items : List PayloadItem) → length (all_bytes items) ≡ item_size * length items
length-all_bytes [] = omega arith
length-all_bytes (item ∷ items) =
    let one = length-item_bytes item in
    let rest = length-all_bytes items in
    let both = length-append (item_bytes item) (all_bytes items) in omega arith

-- A write right behind what has been written.
write_next :
    (zeros done ys : List ℕ) (i : ℕ)
    → i ≡ length done
    → length done + length ys ≤ length zeros
    → memory_write (splice zeros 0 done) i ys ≡ ok (splice zeros 0 (done ++ ys))
write_next zeros done ys i e h =
    let room : 0 + length done ≤ length zeros = omega arith in
    let long = length-splice zeros 0 done room in
    let at : i ≡ 0 + length done = omega arith in
    memory_write_lem (splice zeros 0 done) i ys (omega arith)
    ∙ ap (λ j. ok (splice (splice zeros 0 done) j ys)) at
    ∙ ap ok (splice-splice zeros 0 done ys room)

write_items_lem :
    (items : List PayloadItem) (zeros done : List ℕ) (i : ℕ)
    → i ≡ length done
    → length done + item_size * length items ≤ length zeros
    → write_items items i (splice zeros 0 done) ≡ ok (splice zeros 0 (done ++ all_bytes items))
unfolding write_items
write_items_lem [] zeros done i e h = ap (λ u. ok (splice zeros 0 u)) (sym (append-nil done))
write_items_lem (item ∷ items) zeros done i e h =
    let one = length-item_bytes item in
    let both = length-append done (item_bytes item) in
    ap (λ r. r >>= λ b. write_items items (i + item_size) b)
      (write_next zeros done (item_bytes item) i e (omega arith))
    ∙ write_items_lem items zeros (done ++ item_bytes item) (i + item_size) (omega arith)
        (omega arith)
    ∙ ap (λ u. ok (splice zeros 0 u)) (append_assoc done (item_bytes item) (all_bytes items))

-- Zeros that are written over altogether.
splice_all : (zeros ys : List ℕ) → length ys ≡ length zeros → splice zeros 0 ys ≡ ys
splice_all zeros ys e =
    ap (λ u. ys ++ u) (drop_all (0 + length ys) zeros (omega arith)) ∙ append-nil ys

pub length-fd_items : (fds : List ℕ) → length (fd_items fds) ≡ length fds
length-fd_items [] = refl
length-fd_items (fd ∷ fds) = ap suc (length-fd_items fds)

pub length-memory_items : (regions : List (ℕ × ℕ)) → length (memory_items regions) ≡ length regions
length-memory_items [] = refl
length-memory_items ((ptr, size) ∷ regions) = ap suc (length-memory_items regions)

-- The items of a message, and its header.
abbrev pub items_for : List ℕ → List ℕ → List (ℕ × ℕ) → List PayloadItem
items_for data_bytes fds regions =
    data_item (calculate_data_offset (length fds + length regions + 1)) (length data_bytes)
    ∷ (fd_items fds ++ memory_items regions)

abbrev pub size_for : List ℕ → List ℕ → List (ℕ × ℕ) → ℕ
size_for data_bytes fds regions =
    calculate_data_offset (length fds + length regions + 1) + length data_bytes

abbrev pub header_for : ℕ → List ℕ → List ℕ → List (ℕ × ℕ) → MessageHeader
header_for message_id data_bytes fds regions = record {
  total_size = size_for data_bytes fds regions;
  payload_item_count = length fds + length regions + 1;
  message_id = message_id;
}

pub length-items_for :
    (data_bytes fds : List ℕ) (regions : List (ℕ × ℕ))
    → length (items_for data_bytes fds regions) ≡ length fds + length regions + 1
length-items_for data_bytes fds regions =
    let a = length-fd_items fds in
    let b = length-memory_items regions in
    let c = length-append (fd_items fds) (memory_items regions) in omega arith

-- The three kinds of writes leave the header, the items and the data one behind another.
writes_lem :
    (h : MessageHeader) (items : List PayloadItem) (data_bytes zeros : List ℕ) (offset : ℕ)
    → offset ≡ header_size + item_size * length items
    → length zeros ≡ offset + length data_bytes
    → (memory_write zeros 0 (header_bytes h) >>= λ b₁.
        write_items items header_size b₁ >>= λ b₂. memory_write b₂ offset data_bytes)
      ≡ ok (header_bytes h ++ (all_bytes items ++ data_bytes))
writes_lem h items data_bytes zeros offset at room =
    let start : header_size ≡ length (header_bytes h) = refl in
    let long = length-all_bytes items in
    let part = length-append (header_bytes h) (all_bytes items) in
    let whole = length-append (header_bytes h ++ all_bytes items) data_bytes in
    ap
      (λ r.
        r >>= λ b₁. write_items items header_size b₁ >>= λ b₂. memory_write b₂ offset data_bytes)
      (memory_write_lem zeros 0 (header_bytes h) (omega arith))
    ∙ ap (λ r. r >>= λ b₂. memory_write b₂ offset data_bytes)
        (write_items_lem items zeros (header_bytes h) header_size start (omega arith))
    ∙ write_next zeros (header_bytes h ++ all_bytes items) data_bytes offset (omega arith)
        (omega arith)
    ∙ ap ok (splice_all zeros ((header_bytes h ++ all_bytes items) ++ data_bytes) (omega arith))
    ∙ ap ok (append_assoc (header_bytes h) (all_bytes items) data_bytes)

pub make_message_buffer_lem :
    (message_id : ℕ) (data_bytes fds : List ℕ) (regions : List (ℕ × ℕ))
    → length fds + length regions + 1 < 2 ^ 32
    → size_for data_bytes fds regions < 2 ^ 64
    → make_message_buffer message_id data_bytes fds regions
      ≡ ok (
          header_bytes (header_for message_id data_bytes fds regions)
          ++ (all_bytes (items_for data_bytes fds regions) ++ data_bytes))
unfolding make_message_buffer
make_message_buffer_lem message_id data_bytes fds regions few small =
    let count : (length fds + length regions + 1) % word32 ≡ length fds + length regions + 1 =
      omega arith in
    let size : calculate_size_for_message (length data_bytes) (length fds) (length regions)
        ≡ size_for data_bytes fds regions =
      omega arith in
    let items = length-items_for data_bytes fds regions in
    let zeros : List ℕ = replicate (size_for data_bytes fds regions) 0 in
    let long : length zeros ≡ size_for data_bytes fds regions =
      length-replicate (size_for data_bytes fds regions) 0 in
    rw (count, size)
      (writes_lem (header_for message_id data_bytes fds regions) (items_for data_bytes fds regions)
        data_bytes zeros (calculate_data_offset (length fds + length regions + 1)) (omega arith)
        (omega arith))
