-- ===== src/Ipc/Message/Items.antt =====
-- userspace/libipc/src/message.cpp: the payload items read back from a buffer.
use bek_os.Common.{
  ℕ, ◌+◌, ◌≡◌, refl, sym, ap, ◌∙◌, fun_ext, List, [], ◌∷◌, ◌++◌, append_assoc, append-nil, arith,
}
use bek_os.Common.Lists.{length, length-append}
use bek_os.Common.Memory.{memory_read, memory_read_lem}
use bek_os.Common.Outcome.{Outcome, ok, ◌>>=◌}
use bek_os.Ipc.Message.{
  PayloadItem, item_size, item_bytes, item_of, fd_items, memory_items, Found, take_item, read_items,
}
use bek_os.Ipc.Message.Layout.{Fits, length-item_bytes, item_of-item_bytes, slice-append}
use bek_os.Ipc.Message.Build.{all_bytes}

abbrev pub AllFit : List PayloadItem → Type 0
AllFit [] = Unit
AllFit (item ∷ items) = Fits item × AllFit items

-- from_buffer's step for each of the items.
abbrev take_items : List PayloadItem → Found → Outcome Found
take_items [] found = ok found
take_items (item ∷ items) found = take_item item found >>= take_items items

pub memory_read-append :
    (before ys after : List ℕ) (i n : ℕ)
    → i ≡ length before
    → n ≡ length ys
    → memory_read (before ++ (ys ++ after)) i n ≡ ok ys
memory_read-append before ys after i n e f =
    let a = length-append before (ys ++ after) in
    let b = length-append ys after in
    memory_read_lem (before ++ (ys ++ after)) i n (omega arith)
    ∙ ap ok (slice-append before ys after i n e f)

pub read_items_lem :
    (items : List PayloadItem) (before after : List ℕ) (place : ℕ) (found : Found)
    → place ≡ length before
    → AllFit items
    → read_items (length items) place (before ++ (all_bytes items ++ after)) found
      ≡ take_items items found
unfolding read_items
read_items_lem [] before after place found e fit = refl
read_items_lem (item ∷ items) before after place found e fit =
    let one = length-item_bytes item in
    let both = length-append before (item_bytes item) in
    let whole = before ++ (all_bytes (item ∷ items) ++ after) in
    let split : whole ≡ before ++ (item_bytes item ++ (all_bytes items ++ after)) =
      ap (λ u. before ++ u) (append_assoc (item_bytes item) (all_bytes items) after) in
    let next : whole ≡ (before ++ item_bytes item) ++ (all_bytes items ++ after) =
      split ∙ sym (append_assoc before (item_bytes item) (all_bytes items ++ after)) in
    let raw : memory_read whole place item_size ≡ ok (item_bytes item) =
      ap (λ u. memory_read u place item_size) split
      ∙ memory_read-append before (item_bytes item) (all_bytes items ++ after) place item_size e
          (sym one) in
    ap
      (λ r. r >>= λ bytes. take_item (item_of bytes) found >>= λ found'.
        read_items (length items) (place + item_size) whole found')
      raw
    ∙ ap
        (λ i. take_item i found >>= λ found'.
          read_items (length items) (place + item_size) whole found')
        (item_of-item_bytes item fit.0)
    ∙ ap (λ f. take_item item found >>= f)
        (fun_ext (λ found'.
          ap (λ u. read_items (length items) (place + item_size) u found') next
          ∙ read_items_lem items (before ++ item_bytes item) after (place + item_size) found'
              (omega arith) fit.1))

-- What is found in the items of the handles and of the regions.
take_items-memory_items :
    (regions : List (ℕ × ℕ)) (found : Found)
    → take_items (memory_items regions) found
      ≡ ok (record found { memory_regions = found.memory_regions ++ regions })
take_items-memory_items [] found =
    ap (λ u. ok (record found { memory_regions = u })) (sym (append-nil found.memory_regions))
take_items-memory_items ((ptr, size) ∷ regions) found =
    take_items-memory_items regions
      (record found { memory_regions = found.memory_regions ++ ((ptr, size) ∷ []) })
    ∙ ap (λ u. ok (record found { memory_regions = u }))
        (append_assoc found.memory_regions ((ptr, size) ∷ []) regions)

pub take_items-fd_items :
    (fds : List ℕ) (regions : List (ℕ × ℕ)) (found : Found)
    → take_items (fd_items fds ++ memory_items regions) found
      ≡ ok (record found {
        fds = found.fds ++ fds;
        memory_regions = found.memory_regions ++ regions;
      })
take_items-fd_items [] regions found =
    take_items-memory_items regions found
    ∙ ap (λ u. ok (record found { fds = u; memory_regions = found.memory_regions ++ regions }))
        (sym (append-nil found.fds))
take_items-fd_items (fd ∷ fds) regions found =
    take_items-fd_items fds regions (record found { fds = found.fds ++ (fd ∷ []) })
    ∙ ap (λ u. ok (record found { fds = u; memory_regions = found.memory_regions ++ regions }))
        (append_assoc found.fds (fd ∷ []) fds)
