-- ===== src/Library/BlockCache.antt =====
-- BlockCacheItem of kernel/include/library/block_cache.h: a block in memory, and which of its bytes
-- the device has not got yet.
use bek_os.Common.{ℕ, min, max, Bool, not, ◌&&◌, List}
use bek_os.Common.Tests.{◌==◌, leb, if◌then◌else◌}
use bek_os.Common.Lists.{length}
use bek_os.Common.Outcome.{Outcome, ok, ◌>>◌, verify}

pub record BlockCacheItem : Type 0 where
  pub bytes : List ℕ
  pub dirty_start : ℕ
  pub dirty_end : ℕ

-- A new block, by what its memory holds.
abbrev pub create_item : List ℕ → BlockCacheItem
create_item memory = record { bytes = memory; dirty_start = 0; dirty_end = 0 }

abbrev pub is_dirty : BlockCacheItem → Bool
is_dirty item = not (item.dirty_end == item.dirty_start)

unfoldable pub add_dirty_region : BlockCacheItem → ℕ → ℕ → Outcome BlockCacheItem
add_dirty_region item start end =
    verify (leb start end && leb end (length item.bytes))
    >> ok (
        if is_dirty item
        then (record item {
          dirty_start = min start item.dirty_start;
          dirty_end = max end item.dirty_end;
        })
        else (record item { dirty_start = start; dirty_end = end }))

abbrev pub clear_dirty : BlockCacheItem → BlockCacheItem
clear_dirty item = record item { dirty_start = 0; dirty_end = 0 }

abbrev pub set_whole_dirty : BlockCacheItem → BlockCacheItem
set_whole_dirty item = record item { dirty_start = 0; dirty_end = length item.bytes }
