-- ===== src/Ipc/Message/RoundTrip.antt =====
-- userspace/libipc/src/message.cpp: a message read back from the buffer that it was put into.
use bek_os.Common.{
  ℕ, ◌+◌, ◌^◌, ◌<◌, ◌≤◌, ◌≡◌, refl, sym, ap, ap₂, ◌∙◌, true, false, List, [], ◌∷◌, ◌++◌,
  append_assoc, append-nil, none, some, arith,
}
use bek_os.Common.Tests.{ltb}
use bek_os.Common.Lists.{length, length-append}
use bek_os.Common.Memory.{memory_read}
use bek_os.Common.Outcome.{ok, err, einval, ◌>>=◌}
use bek_os.Ipc.Message.{
  header_size, header_bytes, header, fd_items, memory_items, calculate_data_offset, verify_buffer,
  Message, Found, read_items, from_buffer, to_buffer, start_decoding,
}
use bek_os.Ipc.Message.Layout.{header-header_bytes}
use bek_os.Ipc.Message.Build.{
  all_bytes, length-all_bytes, items_for, size_for, header_for, length-items_for,
  make_message_buffer_lem,
}
use bek_os.Ipc.Message.Items.{AllFit, memory_read-append, read_items_lem, take_items-fd_items}

-- A message that fits: the numbers in it into their fields, and its items and its size into theirs.
abbrev pub AllWords : List ℕ → Type 0
AllWords [] = Unit
AllWords (fd ∷ fds) = (fd < 2 ^ 64) × AllWords fds

abbrev pub AllRegions : List (ℕ × ℕ) → Type 0
AllRegions [] = Unit
AllRegions ((ptr, size) ∷ regions) = (ptr < 2 ^ 64) × (size < 2 ^ 64) × AllRegions regions

abbrev pub IsSendable : Message → Type 0
IsSendable m =
    (m.message_id < 2 ^ 32)
    × (length m.fds + length m.memory_regions + 1 < 2 ^ 32)
    × (size_for m.buffer m.fds m.memory_regions < 2 ^ 64)
    × AllWords m.fds
    × AllRegions m.memory_regions

AllFit-memory_items : (regions : List (ℕ × ℕ)) → AllRegions regions → AllFit (memory_items regions)
AllFit-memory_items [] h = tt
AllFit-memory_items ((ptr, size) ∷ regions) h = ((h.0, h.1), AllFit-memory_items regions h.2)

AllFit-fd_items :
    (fds : List ℕ) (regions : List (ℕ × ℕ))
    → AllWords fds
    → AllRegions regions
    → AllFit (fd_items fds ++ memory_items regions)
AllFit-fd_items [] regions h k = AllFit-memory_items regions k
AllFit-fd_items (fd ∷ fds) regions h k = (h.0, AllFit-fd_items fds regions h.1 k)

verify_buffer_iff :
    (buffer : List ℕ)
    → header_size ≤ length buffer
    → calculate_data_offset (header buffer).payload_item_count ≤ (header buffer).total_size
    → verify_buffer buffer ≡ ltb (header buffer).total_size (length buffer)
unfolding verify_buffer
verify_buffer_iff buffer h k = ground arith

-- The buffer of a message, with what stands behind it.
abbrev whole : Message → List ℕ → List ℕ
whole m extra =
    header_bytes (header_for m.message_id m.buffer m.fds m.memory_regions)
    ++ (all_bytes (items_for m.buffer m.fds m.memory_regions) ++ (m.buffer ++ extra))

to_buffer-extra :
    (m : Message) (extra : List ℕ)
    → IsSendable m
    → (b : List ℕ) × (to_buffer m ≡ ok b) × (b ++ extra ≡ whole m extra)
unfolding to_buffer
to_buffer-extra m extra s =
    let head = header_bytes (header_for m.message_id m.buffer m.fds m.memory_regions) in
    let items = all_bytes (items_for m.buffer m.fds m.memory_regions) in
    (
      head ++ (items ++ m.buffer),
      make_message_buffer_lem m.message_id m.buffer m.fds m.memory_regions s.1 s.2,
      append_assoc head (items ++ m.buffer) extra
          ∙ ap (λ u. head ++ u) (append_assoc items m.buffer extra),
    )

header-whole :
    (m : Message) (extra : List ℕ)
    → IsSendable m
    → header (whole m extra) ≡ header_for m.message_id m.buffer m.fds m.memory_regions
header-whole m extra s =
    header-header_bytes (header_for m.message_id m.buffer m.fds m.memory_regions)
      (all_bytes (items_for m.buffer m.fds m.memory_regions) ++ (m.buffer ++ extra)) s.2 s.1 s.0

length-whole :
    (m : Message) (extra : List ℕ)
    → length (whole m extra) ≡ size_for m.buffer m.fds m.memory_regions + length extra
length-whole m extra =
    let head = header_bytes (header_for m.message_id m.buffer m.fds m.memory_regions) in
    let items = items_for m.buffer m.fds m.memory_regions in
    let a = length-append head (all_bytes items ++ (m.buffer ++ extra)) in
    let b = length-append (all_bytes items) (m.buffer ++ extra) in
    let c = length-append m.buffer extra in
    let d = length-all_bytes items in
    let e = length-items_for m.buffer m.fds m.memory_regions in
    let f : length head ≡ 16 = refl in omega arith

verify_buffer-whole :
    (m : Message) (extra : List ℕ)
    → IsSendable m
    → verify_buffer (whole m extra)
      ≡ ltb
          (size_for m.buffer m.fds m.memory_regions)
          (size_for m.buffer m.fds m.memory_regions + length extra)
verify_buffer-whole m extra s =
    let h = header-whole m extra s in
    let total : (header (whole m extra)).total_size ≡ size_for m.buffer m.fds m.memory_regions =
      ap (λ u. u.total_size) h in
    let count : (header (whole m extra)).payload_item_count
        ≡ length m.fds + length m.memory_regions + 1 =
      ap (λ u. u.payload_item_count) h in
    let long = length-whole m extra in
    verify_buffer_iff (whole m extra) (omega arith) (omega arith) ∙ ap₂ ltb total long

-- What from_buffer finds in the items of a message, and in its data.
found-whole :
    (m : Message) (extra : List ℕ)
    → IsSendable m
    → read_items
        (header (whole m extra)).payload_item_count
        header_size
        (whole m extra)
        (record { data_at = none; fds = []; memory_regions = [] })
      ≡ ok (record {
        data_at =
            some
              (calculate_data_offset (length m.fds + length m.memory_regions + 1), length m.buffer);
        fds = m.fds;
        memory_regions = m.memory_regions;
      })
found-whole m extra s =
    let head = header_bytes (header_for m.message_id m.buffer m.fds m.memory_regions) in
    let items = items_for m.buffer m.fds m.memory_regions in
    let nothing : Found = record { data_at = none; fds = []; memory_regions = [] } in
    let place = calculate_data_offset (length m.fds + length m.memory_regions + 1) in
    let many = length-items_for m.buffer m.fds m.memory_regions in
    let fit : AllFit items =
      ((omega arith, omega arith), AllFit-fd_items m.fds m.memory_regions s.3 s.4) in
    let count : (header (whole m extra)).payload_item_count ≡ length items =
      ap (λ u. u.payload_item_count) (header-whole m extra s) ∙ sym many in
    ap (λ n. read_items n header_size (whole m extra) nothing) count
    ∙ read_items_lem items head (m.buffer ++ extra) header_size nothing refl fit
    ∙ take_items-fd_items m.fds m.memory_regions
        (record { data_at = some (place, length m.buffer); fds = []; memory_regions = [] })

data-whole :
    (m : Message) (extra : List ℕ)
    → memory_read
        (whole m extra)
        (calculate_data_offset (length m.fds + length m.memory_regions + 1))
        (length m.buffer)
      ≡ ok m.buffer
data-whole m extra =
    let head = header_bytes (header_for m.message_id m.buffer m.fds m.memory_regions) in
    let items = items_for m.buffer m.fds m.memory_regions in
    let n = calculate_data_offset (length m.fds + length m.memory_regions + 1) in
    let a = length-append head (all_bytes items) in
    let d = length-all_bytes items in
    let e = length-items_for m.buffer m.fds m.memory_regions in
    let f : length head ≡ 16 = refl in
    ap (λ u. memory_read u n (length m.buffer))
      (sym (append_assoc head (all_bytes items) (m.buffer ++ extra)))
    ∙ memory_read-append (head ++ all_bytes items) m.buffer extra n (length m.buffer) (omega arith)
        refl

from_buffer-whole :
    (m : Message) (extra : List ℕ)
    → IsSendable m
    → 0 < length extra
    → from_buffer (whole m extra) ≡ ok (start_decoding m)
unfolding from_buffer
from_buffer-whole m extra s more =
    let good : verify_buffer (whole m extra) ≡ true =
      verify_buffer-whole m extra s ∙ ground arith in
    let id : (header (whole m extra)).message_id ≡ m.message_id =
      ap (λ u. u.message_id) (header-whole m extra s) in
    rw (good, found-whole m extra s) (rw (data-whole m extra, id) refl)

-- The buffer of a message that fits, in one that is longer, is read back as the message, to be decoded from its
-- beginning.
pub from_buffer-to_buffer :
    (m : Message) (extra : List ℕ)
    → IsSendable m
    → 0 < length extra
    → (to_buffer m >>= λ b. from_buffer (b ++ extra)) ≡ ok (start_decoding m)
from_buffer-to_buffer m extra s more =
    let (b, run, same) = to_buffer-extra m extra s in
    ap (λ r. r >>= λ u. from_buffer (u ++ extra)) run
    ∙ ap from_buffer same
    ∙ from_buffer-whole m extra s more

-- The buffer of a message that fits, as it is, is refused with EINVAL.
pub from_buffer-to_buffer_exact :
    (m : Message) → IsSendable m → (to_buffer m >>= from_buffer) ≡ err einval
unfolding from_buffer
from_buffer-to_buffer_exact m s =
    let (b, run, same) = to_buffer-extra m [] s in
    let bad : verify_buffer (whole m []) ≡ false = verify_buffer-whole m [] s ∙ ground arith in
    ap (λ r. r >>= from_buffer) run ∙ ap from_buffer (sym (append-nil b) ∙ same) ∙ rw bad refl
