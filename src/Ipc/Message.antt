-- ===== src/Ipc/Message.antt =====
-- userspace/libipc/src/message.cpp and include/ipc/message.h: messages and the buffers in which the
-- kernel takes and returns them. The padding of a payload item, and the bytes of its union that the kind does not use,
-- which the constructor leaves unspecified, are 0.
pub mod Layout
pub mod Build
pub mod Items
pub mod Decode
pub mod Encode
pub mod RoundTrip
use bek_os.Common.{
  ℕ, zero, suc, ◌+◌, ◌*◌, ◌%◌, ◌^◌, Bool, true, false, not, List, [], ◌∷◌, ◌++◌, Option, none, some,
}
use bek_os.Common.Tests.{◌==◌, ltb, leb, if◌then◌else◌, add64, word, word32}
use bek_os.Common.Lists.{length, get_elem?, replicate, slice}
use bek_os.Common.Memory.{memory_read, memory_write}
use bek_os.Common.Outcome.{Outcome, ok, err, einval, eoverflow, ◌>>=◌, or_fault}
use bek_os.Ipc.Bytes.{le, from_le}

-- The sizes of MessageHeader and of its PayloadItem.
abbrev pub header_size : ℕ
header_size = 16

abbrev pub item_size : ℕ
item_size = 32

pub record MessageHeader : Type 0 where
  pub total_size : ℕ
  pub payload_item_count : ℕ
  pub message_id : ℕ

-- An item by its kind; the last one has a kind that is none of the enumeration.
pub data PayloadItem : Type 0 where
  data_item : ℕ → ℕ → PayloadItem
  fd_item : ℕ → PayloadItem
  memory_item : ℕ → ℕ → Bool → Bool → PayloadItem
  unknown_item : PayloadItem

abbrev pub header_bytes : MessageHeader → List ℕ
header_bytes h = le 8 h.total_size ++ (le 4 h.payload_item_count ++ le 4 h.message_id)

abbrev pub flag_byte : Bool → ℕ
flag_byte true = 1
flag_byte false = 0

-- The kind, and the union at the next multiple of 8.
abbrev pub item_bytes : PayloadItem → List ℕ
item_bytes (data_item offset len) =
    le 4 0 ++ (replicate 4 0 ++ (le 8 offset ++ (le 8 len ++ replicate 8 0)))
item_bytes (fd_item fd) = le 4 1 ++ (replicate 4 0 ++ (le 8 fd ++ replicate 16 0))
item_bytes (memory_item ptr size can_read can_write) =
    le 4 2
    ++ (replicate 4 0
        ++ (le 8 ptr ++ (le 8 size ++ (flag_byte can_read ∷ flag_byte can_write ∷ replicate 6 0))))
item_bytes unknown_item = le 4 3 ++ replicate 28 0

-- MessageBuffer::header, of a buffer that has one.
unfoldable pub header : List ℕ → MessageHeader
header buffer = record {
  total_size = from_le (slice 0 8 buffer);
  payload_item_count = from_le (slice 8 4 buffer);
  message_id = from_le (slice 12 4 buffer);
}

-- A payload item by the bytes that it has in memory.
unfoldable pub item_of : List ℕ → PayloadItem
item_of raw =
    let kind = from_le (slice 0 4 raw) in
    if kind == 0
    then data_item (from_le (slice 8 8 raw)) (from_le (slice 16 8 raw))
    else if kind == 1
    then fd_item (from_le (slice 8 8 raw))
    else if kind == 2
    then memory_item (from_le (slice 8 8 raw)) (from_le (slice 16 8 raw))
        (not (from_le (slice 24 1 raw) == 0)) (not (from_le (slice 25 1 raw) == 0))
    else unknown_item

abbrev pub calculate_size_for_message : ℕ → ℕ → ℕ → ℕ
calculate_size_for_message data_size fd_count memory_count =
    (header_size + item_size * (fd_count + memory_count + 1) + data_size) % word

abbrev pub calculate_data_offset : ℕ → ℕ
calculate_data_offset n_payload_items = header_size + item_size * n_payload_items

-- The items behind the first, in the order of the two loops.
abbrev pub fd_items : List ℕ → List PayloadItem
fd_items [] = []
fd_items (fd ∷ fds) = fd_item fd ∷ fd_items fds

abbrev pub memory_items : List (ℕ × ℕ) → List PayloadItem
memory_items [] = []
memory_items ((ptr, size) ∷ regions) = memory_item ptr size true true ∷ memory_items regions

-- The items are written one behind another.
unfoldable pub write_items : List PayloadItem → ℕ → List ℕ → Outcome (List ℕ)
write_items [] current_item buffer = ok buffer
write_items (item ∷ items) current_item buffer =
    memory_write buffer current_item (item_bytes item) >>= λ buffer'.
    write_items items (current_item + item_size) buffer'

-- The constructor of MessageBuffer from the parts of a message.
unfoldable pub make_message_buffer : ℕ → List ℕ → List ℕ → List (ℕ × ℕ) → Outcome (List ℕ)
unfolding write_items
make_message_buffer message_id data_bytes fds memory_regions =
    let size =
      calculate_size_for_message (length data_bytes) (length fds) (length memory_regions) in
    let n_payload_items = (length fds + length memory_regions + 1) % word32 in
    let data_offset = calculate_data_offset n_payload_items in
    memory_write (replicate size 0) 0 (
      header_bytes (record {
        total_size = size;
        payload_item_count = n_payload_items;
        message_id = message_id;
      }))
    >>= λ b₁.
        write_items
          (data_item data_offset (length data_bytes)
            ∷ (fd_items fds ++ memory_items memory_regions))
          header_size b₁
        >>= λ b₂. memory_write b₂ data_offset data_bytes

-- MessageBuffer::verify.
unfoldable pub verify_buffer : List ℕ → Bool
unfolding header
verify_buffer buffer =
    if ltb (length buffer) header_size
    then false
    else if leb (length buffer) (header buffer).total_size
    then false
    else if ltb (header buffer).total_size
        (calculate_data_offset (header buffer).payload_item_count)
    then false
    else true

pub record Message : Type 0 where
  pub buffer : List ℕ
  pub fds : List ℕ
  pub memory_regions : List (ℕ × ℕ)
  pub cur_buffer_position : ℕ
  pub cur_fd_i : ℕ
  pub cur_region_i : ℕ
  pub message_id : ℕ

-- What from_buffer has found: the place and size of the data, and the handles and regions.
pub record Found : Type 0 where
  pub data_at : Option (ℕ × ℕ)
  pub fds : List ℕ
  pub memory_regions : List (ℕ × ℕ)

abbrev pub take_item : PayloadItem → Found → Outcome Found
take_item (data_item offset len) found = elim found.data_at [
  | none ↦ ok (record found { data_at = some (offset, len) })
  | some place ↦ err einval
]
take_item (fd_item fd) found = ok (record found { fds = found.fds ++ (fd ∷ []) })
take_item (memory_item ptr size can_read can_write) found =
    ok (record found { memory_regions = found.memory_regions ++ ((ptr, size) ∷ []) })
take_item unknown_item found = err einval

-- The loop of from_buffer over the payload items.
unfoldable pub read_items : ℕ → ℕ → List ℕ → Found → Outcome Found
unfolding item_of
read_items zero place buffer found = ok found
read_items (suc count) place buffer found = memory_read buffer place item_size >>= λ raw.
    take_item (item_of raw) found >>= λ found'. read_items count (place + item_size) buffer found'

abbrev pub read_data : Option (ℕ × ℕ) → List ℕ → Outcome (List ℕ)
read_data none buffer = ok []
read_data (some (offset, len)) buffer = memory_read buffer offset len

unfoldable pub from_buffer : List ℕ → Outcome Message
unfolding verify_buffer read_items
from_buffer buffer =
    let h = header buffer in
    let parts = (do
      found ←
          read_items h.payload_item_count header_size buffer
            (record { data_at = none; fds = []; memory_regions = [] })
      bytes ← read_data found.data_at buffer
      ok (record {
        buffer = bytes;
        fds = found.fds;
        memory_regions = found.memory_regions;
        cur_buffer_position = 0;
        cur_fd_i = 0;
        cur_region_i = 0;
        message_id = h.message_id;
      })) in
    if verify_buffer buffer then parts else err einval

unfoldable pub to_buffer : Message → Outcome (List ℕ)
unfolding make_message_buffer
to_buffer m = make_message_buffer m.message_id m.buffer m.fds m.memory_regions

abbrev pub encode_fd : Message → ℕ → Message
encode_fd m fd = record m { fds = m.fds ++ (fd ∷ []) }

abbrev pub encode_memory_region : Message → ℕ → ℕ → Message
encode_memory_region m ptr size = record m {
  memory_regions = m.memory_regions ++ ((ptr, size) ∷ []);
}

abbrev pub start_decoding : Message → Message
start_decoding m = record m { cur_buffer_position = 0; cur_fd_i = 0; cur_region_i = 0 }

-- The place in the buffer from which the bytes are to be read, and the message.
unfoldable pub decode_bytes : Message → ℕ → Outcome (List ℕ × Message)
decode_bytes m len =
    if ltb (add64 len m.cur_buffer_position) (length m.buffer)
    then (memory_read m.buffer m.cur_buffer_position len >>= λ bytes.
        ok (bytes, record m { cur_buffer_position = add64 m.cur_buffer_position len }))
    else err eoverflow

unfoldable pub decode_fd : Message → Outcome (ℕ × Message)
decode_fd m =
    if ltb m.cur_fd_i (length m.fds)
    then (or_fault (get_elem? m.fds m.cur_fd_i) >>= λ fd.
        ok (fd, record m { cur_fd_i = (m.cur_fd_i + 1) % word32 }))
    else err eoverflow

unfoldable pub decode_memory_region : Message → Outcome ((ℕ × ℕ) × Message)
decode_memory_region m =
    if ltb m.cur_region_i (length m.memory_regions)
    then (or_fault (get_elem? m.memory_regions m.cur_region_i) >>= λ region.
        ok (region, record m { cur_region_i = (m.cur_region_i + 1) % word32 }))
    else err eoverflow
