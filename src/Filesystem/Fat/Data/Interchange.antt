-- ===== src/Filesystem/Fat/Data/Interchange.antt =====
-- doDataInterchange as a whole, for reads.
use bek_os.Common.{
  ℕ, zero, suc, ◌+◌, ◌-◌, ◌*◌, ◌/◌, ◌%◌, ◌≤◌, ◌<◌, ◌≡◌, refl, sym, ap, ◌∙◌, subst, Bool, true,
  false, ◌&&◌, not, min, List, [], ◌∷◌, ◌++◌, append-nil, arith,
}
use bek_os.Common.Tests.{ltb, if◌then◌else◌, word32}
use bek_os.Common.Lists.{
  length, take, drop, slice, splice, length-append, length-drop, drop-append_self, drop-drop,
  drop_all,
}
use bek_os.Common.Outcome.{Outcome, ok, spin, ◌>>=◌}
use native.Mathlib.Nat.{div-add-mod', mod-lt, lt_of_mul-lt-mul_right}
use bek_os.Library.TransactionalBuffer.{kernel_buffer}
use bek_os.Filesystem.Fat.{
  FatInfo, FileAllocationTable, get_cluster_type, is_next_pointer, get_next_cluster,
}
use bek_os.Filesystem.Fat.Data.{
  Clusters, interchange_loop, skip_clusters, skip_over, do_data_interchange,
}
use bek_os.Filesystem.Fat.Data.Cache.{view, IsCoherent, length-view, SameView}
use bek_os.Filesystem.Fat.Data.Content.{Chain, content, length-slice}
use bek_os.Filesystem.Fat.Data.Read.{loop_lem}

suc_times : (n b : ℕ) → suc n * b ≡ b + n * b
suc_times n b = grind arith

length-content :
    (info : FatInfo) (cluster_size : ℕ) (c : Clusters) (ns : List ℕ)
    → IsCoherent info cluster_size c
    → length (content info c ns) ≡ length ns * cluster_size
length-content info cluster_size c [] is = omega arith
length-content info cluster_size c (n ∷ ns) is =
    let here = length-view info cluster_size n c is in
    let rest = length-content info cluster_size c ns is in
    let whole = length-append (view info c n) (content info c ns) in
    let times = suc_times (length ns) cluster_size in omega arith

-- What is reached over so many links.
abbrev Skips :
    (info : FatInfo) (fresh : List ℕ) (victims : ℕ → List ℕ)
    → ℕ
    → Clusters
    → FileAllocationTable
    → ℕ
    → ℕ
    → List ℕ
    → Type 0
Skips info fresh victims cluster_size c t k n ns =
    (m : ℕ) × (ms : List ℕ) × (skip_clusters info fresh victims cluster_size kernel_buffer k t n
      ≡ ok (true, m))
    × Chain info t m ms
    × (length ms ≤ length ns)
    × (drop (k * cluster_size) (content info c (n ∷ ns)) ≡ content info c (m ∷ ms))

module _ (info : FatInfo) (fresh : List ℕ) (victims : ℕ → List ℕ) (cluster_size : ℕ) where
  skip-step :
      (k : ℕ) (t : FileAllocationTable) (n m : ℕ)
      → get_next_cluster t n ≡ ok m
      → is_next_pointer (get_cluster_type m) ≡ true
      → skip_clusters info fresh victims cluster_size kernel_buffer (suc k) t n
        ≡ skip_clusters info fresh victims cluster_size kernel_buffer k t m
  unfolding skip_clusters
  skip-step k t n m e f =
      let go_on : ℕ → Bool → Outcome (Bool × ℕ) = λ next b. elim b [
        | true ↦ skip_clusters info fresh victims cluster_size kernel_buffer k t next
        | false ↦ ok (false, next)
      ] in
      ap (λ r. r >>= λ next. go_on next (is_next_pointer (get_cluster_type next))) e
      ∙ ap (go_on m) f

  skip_lem :
      (k : ℕ) (t : FileAllocationTable) (n : ℕ) (ns : List ℕ) (c : Clusters)
      → IsCoherent info cluster_size c
      → Chain info t n ns
      → k ≤ length ns
      → Skips info fresh victims cluster_size c t k n ns
  unfolding skip_clusters
  skip_lem zero t n ns c is chain h = (
    n,
    ns,
    refl,
    chain,
    omega arith,
    ap (λ z. drop z (content info c (n ∷ ns))) (none_times cluster_size),
  )
    where
      none_times : (b : ℕ) → 0 * b ≡ 0
      none_times b = omega arith
  skip_lem (suc k) t n [] c is chain h = absurd (omega arith)
  skip_lem (suc k) t n (m ∷ ms) c is chain h =
      let (j, js, run, rest, shorter, same) = skip_lem k t m ms c is chain.3 (omega arith) in
      let size = length-view info cluster_size n c is in
      let over : drop cluster_size (content info c (n ∷ m ∷ ms)) ≡ content info c (m ∷ ms) =
        subst (λ z. drop z (content info c (n ∷ m ∷ ms)) ≡ content info c (m ∷ ms)) size
          (drop-append_self (view info c n) (content info c (m ∷ ms))) in
      (
        j,
        js,
        skip-step k t n m chain.1 chain.2 ∙ run,
        rest,
        omega arith,
        sym (
              drop-drop cluster_size (k * cluster_size) (suc k * cluster_size)
                (content info c (n ∷ m ∷ ms)) (suc_times k cluster_size))
            ∙ ap (drop (k * cluster_size)) over
            ∙ same,
      )

  -- With fewer than 2 ^ 32 clusters, the loop ends by its condition.
  pub skip_over-small :
      (k : ℕ) (t : FileAllocationTable) (n m : ℕ)
      → k < word32
      → skip_clusters info fresh victims cluster_size kernel_buffer k t n ≡ ok (true, m)
      → skip_over info fresh victims cluster_size kernel_buffer k t n ≡ ok (true, m)
  unfolding skip_over
  skip_over-small k t n m h run =
      let rounds : min k word32 ≡ k = omega arith in
      let small : ltb k word32 ≡ true = ground arith in
      let end : Bool → Bool × ℕ → Outcome (Bool × ℕ) =
        λ b (found, reached). if found && not b then spin else ok (found, reached) in
      let body : ℕ → Bool → Outcome (Bool × ℕ) =
        λ j b. skip_clusters info fresh victims cluster_size kernel_buffer j t n >>= end b in
      ap (λ j. body j (ltb k word32)) rounds ∙ ap (body k) small ∙ ap (λ r. r >>= end true) run

  -- What doDataInterchange gives for a read of the bytes at an offset of the content of a chain.
  abbrev pub ReadsFile : Clusters → List ℕ → Outcome (Bool × List ℕ × Clusters) → Type 0
  ReadsFile c bytes r =
      (c' : Clusters) × (r ≡ ok (true, bytes, c'))
      × SameView info c c'
      × IsCoherent info cluster_size c'

  -- The read, from the cluster at the offset on.
  read-from :
      (fuel : ℕ) (t : FileAllocationTable) (start : ℕ) (offset size : ℕ) (buffer : List ℕ)
      (c : Clusters) (m : ℕ) (ms : List ℕ) (all : List ℕ)
      → 0 < cluster_size
      → IsCoherent info cluster_size c
      → 0 < size
      → length buffer ≡ size
      → offset + size ≤ length all
      → length (m ∷ ms) ≤ fuel
      → skip_over info fresh victims cluster_size kernel_buffer (offset / cluster_size) t start
        ≡ ok (true, m)
      → Chain info t m ms
      → drop (offset / cluster_size * cluster_size) all ≡ content info c (m ∷ ms)
      → ReadsFile c (slice offset size all) (
          do_data_interchange info fresh victims cluster_size kernel_buffer fuel false t start
            offset size buffer c)
  unfolding do_data_interchange
  read-from fuel t start offset size buffer c m ms all pos is some_size room inside enough skipped
        rest same =
      let k = offset / cluster_size in
      let o = offset % cluster_size in
      let parts = div-add-mod' offset cluster_size in
      let below = mod-lt offset pos in
      let left = length-drop (k * cluster_size) (all) in
      let same_length = ap length same in
      let (c', run, views, is') =
        loop_lem info fresh victims cluster_size fuel t o size m ms 0 o buffer c rest is some_size
          refl below room (omega arith) (omega arith) in
      let none_taken : size - 0 ≡ size = omega arith in
      let bytes = slice o size (content info c (m ∷ ms)) in
      let count = length-slice o size (content info c (m ∷ ms)) (omega arith) in
      let whole : splice buffer 0 bytes ≡ bytes =
        ap (λ d. bytes ++ d) (drop_all (0 + length bytes) buffer (omega arith))
        ∙ append-nil bytes in
      let there : bytes ≡ slice offset size (all) =
        ap (λ d. take size (drop o d)) (sym same)
        ∙ ap (take size) (drop-drop (k * cluster_size) o offset (all) (sym parts)) in
      (
        c',
        ap
              (λ r. r >>= λ (found, cluster). elim found [
                | true ↦
                    interchange_loop info fresh victims cluster_size kernel_buffer fuel false t o
                      size cluster 0 buffer c
                | false ↦ ok (false, buffer, c)
              ])
              skipped
            ∙ run
            ∙ ap (λ z. ok (true, splice buffer 0 (slice o z (content info c (m ∷ ms))), c'))
                none_taken
            ∙ ap (λ b. ok (true, b, c')) (whole ∙ there),
        views,
        is',
      )

  -- doDataInterchange of at least one byte, from the clusters of a chain of fewer than 2 ^ 32 clusters to kernel
  -- memory of that size, where the clusters of the chain and those in the cache are numbered from 2 on and have
  -- sector numbers below 2 ^ 32, the bytes asked for are in the chain and the cache agrees with the
  -- device but for dirty bytes: with a round for each cluster it returns true, with the bytes at the
  -- offset of the content of the chain. Whatever clusters the cache has purged for it, no such cluster's
  -- bytes have changed, and the cache still agrees with the device.
  pub do_data_interchange-read :
      (fuel : ℕ) (t : FileAllocationTable) (start : ℕ) (ns : List ℕ) (offset size : ℕ)
      (buffer : List ℕ) (c : Clusters)
      → 0 < cluster_size
      → Chain info t start ns
      → length ns < word32
      → IsCoherent info cluster_size c
      → 0 < size
      → length buffer ≡ size
      → offset + size ≤ length (content info c (start ∷ ns))
      → length (start ∷ ns) ≤ fuel
      → ReadsFile c (slice offset size (content info c (start ∷ ns))) (
          do_data_interchange info fresh victims cluster_size kernel_buffer fuel false t start
            offset size buffer c)
  do_data_interchange-read fuel t start ns offset size buffer c pos chain few is some_size room
        inside enough =
      let k = offset / cluster_size in
      let parts = div-add-mod' offset cluster_size in
      let total = length-content info cluster_size c (start ∷ ns) is in
      let reached : k < length (start ∷ ns) = lt_of_mul-lt-mul_right cluster_size (omega arith) in
      let (m, ms, skipped, rest, shorter, same) = skip_lem k t start ns c is chain (omega arith) in
      read-from fuel t start offset size buffer c m ms (content info c (start ∷ ns)) pos is
        some_size room inside (omega arith) (skip_over-small k t start m (omega arith) skipped) rest
        same
