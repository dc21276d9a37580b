-- ===== src/Ipc/Message/Layout.antt =====
-- userspace/libipc/src/message.cpp: headers and payload items read back from their bytes.
use bek_os.Common.{ℕ, ◌^◌, ◌<◌, ◌≡◌, refl, ap, ap₂, ◌∙◌, true, false, List, ◌++◌, arith}
use bek_os.Common.Lists.{length, slice, take, drop-append_self, take-append_self}
use bek_os.Ipc.Bytes.{from_le-le}
use bek_os.Ipc.Message.{
  MessageHeader, PayloadItem, data_item, fd_item, memory_item, unknown_item, item_size,
  header_bytes, item_bytes, header, item_of,
}

-- The fields of an item fit into the bytes that they have.
abbrev pub Fits : PayloadItem → Type 0
Fits (data_item offset len) = (offset < 2 ^ 64) × (len < 2 ^ 64)
Fits (fd_item fd) = fd < 2 ^ 64
Fits (memory_item ptr size can_read can_write) = (ptr < 2 ^ 64) × (size < 2 ^ 64)
Fits unknown_item = Unit

pub length-item_bytes : (item : PayloadItem) → length (item_bytes item) ≡ item_size
length-item_bytes (data_item offset len) = refl
length-item_bytes (fd_item fd) = refl
length-item_bytes (memory_item ptr size can_read can_write) = refl
length-item_bytes unknown_item = refl

-- An item comes back from its bytes.
pub item_of-item_bytes : (item : PayloadItem) → Fits item → item_of (item_bytes item) ≡ item
unfolding item_of
item_of-item_bytes (data_item offset len) h =
    ap₂ data_item (from_le-le 8 offset (omega arith)) (from_le-le 8 len (omega arith))
item_of-item_bytes (fd_item fd) h = ap fd_item (from_le-le 8 fd (omega arith))
item_of-item_bytes (memory_item ptr size true true) h =
    ap₂ (λ p s. memory_item p s true true) (from_le-le 8 ptr (omega arith))
      (from_le-le 8 size (omega arith))
item_of-item_bytes (memory_item ptr size true false) h =
    ap₂ (λ p s. memory_item p s true false) (from_le-le 8 ptr (omega arith))
      (from_le-le 8 size (omega arith))
item_of-item_bytes (memory_item ptr size false true) h =
    ap₂ (λ p s. memory_item p s false true) (from_le-le 8 ptr (omega arith))
      (from_le-le 8 size (omega arith))
item_of-item_bytes (memory_item ptr size false false) h =
    ap₂ (λ p s. memory_item p s false false) (from_le-le 8 ptr (omega arith))
      (from_le-le 8 size (omega arith))
item_of-item_bytes unknown_item h = refl

-- So does a header, from a buffer that begins with it.
pub header-header_bytes :
    (h : MessageHeader) (rest : List ℕ)
    → h.total_size < 2 ^ 64
    → h.payload_item_count < 2 ^ 32
    → h.message_id < 2 ^ 32
    → header (header_bytes h ++ rest) ≡ h
unfolding header
header-header_bytes h rest t c m =
    let size = from_le-le 8 h.total_size (omega arith) in
    let count = from_le-le 4 h.payload_item_count (omega arith) in
    let id = from_le-le 4 h.message_id (omega arith) in cc (size, count, id)

-- The middle of three parts.
pub slice-append :
    (xs ys zs : List ℕ) (i n : ℕ)
    → i ≡ length xs
    → n ≡ length ys
    → slice i n (xs ++ (ys ++ zs)) ≡ ys
slice-append xs ys zs i n e f =
    ap₂ (λ a b. slice a b (xs ++ (ys ++ zs))) e f
    ∙ ap (take (length ys)) (drop-append_self xs (ys ++ zs))
    ∙ take-append_self ys zs
