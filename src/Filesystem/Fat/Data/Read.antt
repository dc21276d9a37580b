-- ===== src/Filesystem/Fat/Data/Read.antt =====
-- doDataInterchange into kernel memory against the bytes of a chain of clusters.
use bek_os.Common.{
  ℕ, zero, suc, ◌+◌, ◌-◌, min, ◌≤◌, ◌<◌, ◌≡◌, refl, sym, ap, ◌∙◌, subst, Bool, true, false, List,
  [], ◌∷◌, dec_lt, arith,
}
use bek_os.Common.Tests.{◌==◌, ltb, if◌then◌else◌}
use bek_os.Common.Lists.{length, slice, splice, length-append, length-splice, splice-splice}
use bek_os.Common.Outcome.{Outcome, ok, ◌>>=◌}
use bek_os.Common.Memory.{memory_write, memory_write_lem}
use bek_os.Library.TransactionalBuffer.{kernel_buffer}
use bek_os.Filesystem.Fat.{
  FatInfo, FileAllocationTable, get_cluster_type, is_next_pointer, get_next_cluster,
}
use bek_os.Filesystem.Fat.Data.{Clusters, ignore, fetch_cluster, copy_cluster, interchange_loop}
use bek_os.Filesystem.Fat.Data.Cache.{
  IsPlaced, view, IsCoherent, length-view, SameView, fetch_cluster_lem,
}
use bek_os.Filesystem.Fat.Data.Content.{
  Chain, content, content-SameView, slice-append, slice-append_over, length-slice,
}

module _ (info : FatInfo) (fresh : List ℕ) (victims : ℕ → List ℕ) (cluster_size : ℕ) where
  -- A read of `n` bytes: what the loop gives, by the bytes that it takes.
  abbrev pub Reads : Clusters → List ℕ → ℕ → List ℕ → Outcome (Bool × List ℕ × Clusters) → Type 0
  Reads c buffer completed bytes r =
      (c' : Clusters) × (r ≡ ok (true, splice buffer completed bytes, c'))
      × SameView info c c'
      × IsCoherent info cluster_size c'

  copy_cluster-read :
      (c : Clusters) (buffer : List ℕ) (n o k completed : ℕ)
      → IsPlaced info n
      → IsCoherent info cluster_size c
      → o + k ≤ cluster_size
      → completed + k ≤ length buffer
      → (c' : Clusters) × (fetch_cluster info fresh victims cluster_size c n true
            >>= copy_cluster info fresh victims cluster_size kernel_buffer false buffer n o k
                completed
          ≡ ok (splice buffer completed (slice o k (view info c n)), c'))
        × SameView info c c'
        × IsCoherent info cluster_size c'
  unfolding copy_cluster
  copy_cluster-read c buffer n o k completed placed is h l =
      let (item, c', fetched, same, views, is') =
        fetch_cluster_lem info cluster_size fresh victims c n placed is in
      let size = length-view info cluster_size n c is in
      let bytes = length-slice o k (view info c n) (omega arith) in
      (
        c',
        ap
              (λ r.
                r
                >>= copy_cluster info fresh victims cluster_size kernel_buffer false buffer n o k
                    completed)
              fetched
            ∙ ap
                (λ bs.
                  ignore buffer (memory_write buffer completed (slice o k bs)) >>= λ b. ok (b, c'))
                same
            ∙ ap (λ w. ignore buffer w >>= λ b. ok (b, c'))
                (memory_write_lem buffer completed (slice o k (view info c n)) (omega arith)),
        views,
        is',
      )

  -- The loop, with the offset in the first cluster written as `w`, and its count of bytes as `k`.
  abbrev run :
      ℕ
      → FileAllocationTable
      → ℕ
      → ℕ
      → ℕ
      → ℕ
      → List ℕ
      → Clusters
      → Outcome (Bool × List ℕ × Clusters)
  run fuel t within size n completed buffer c =
      interchange_loop info fresh victims cluster_size kernel_buffer fuel false t within size n
        completed buffer c

  abbrev after :
      ℕ
      → FileAllocationTable
      → ℕ
      → ℕ
      → ℕ
      → ℕ
      → ℕ
      → Bool
      → List ℕ × Clusters
      → Outcome (Bool × List ℕ × Clusters)
  after fuel t within size n completed k done (buffer', c') = elim done [
    | true ↦ ok (true, buffer', c')
    | false ↦ get_next_cluster t n >>= λ next. elim (is_next_pointer (get_cluster_type next)) [
      | true ↦ run fuel t within size next (completed + k) buffer' c'
      | false ↦ ok (false, buffer', c')
    ]
  ]

  run-step :
      (fuel : ℕ) (t : FileAllocationTable) (within size n completed w k : ℕ) (buffer : List ℕ)
      (c : Clusters) (p : List ℕ × Clusters) (done : Bool)
      → completed < size
      → (if completed == 0 then within else 0) ≡ w
      → min (size - completed) (cluster_size - w) ≡ k
      → (fetch_cluster info fresh victims cluster_size c n true
          >>= copy_cluster info fresh victims cluster_size kernel_buffer false buffer n w k
              completed)
        ≡ ok p
      → (completed + k == size) ≡ done
      → run (suc fuel) t within size n completed buffer c
        ≡ after fuel t within size n completed k done p
  unfolding interchange_loop
  run-step fuel t within size n completed w k buffer c p done h e f moved d =
      let more : ltb completed size ≡ true = ground arith in
      let rest : Outcome (List ℕ × Clusters) → ℕ → Outcome (Bool × List ℕ × Clusters) = λ r k.
        r >>= λ (b', c'). after fuel t within size n completed k (completed + k == size) (b', c') in
      let body : Bool → ℕ → ℕ → Outcome (Bool × List ℕ × Clusters) = λ b w k. elim b [
        | true ↦
            rest
              (fetch_cluster info fresh victims cluster_size c n true
                >>= copy_cluster info fresh victims cluster_size kernel_buffer false buffer n w k
                    completed)
              k
        | false ↦ ok (true, buffer, c)
      ] in
      let first = if completed == 0 then within else 0 in
      ap (λ b. body b first (min (size - completed) (cluster_size - first))) more
      ∙ ap (λ w. body true w (min (size - completed) (cluster_size - w))) e
      ∙ ap (body true w) f
      ∙ ap (λ r. rest r k) moved
      ∙ ap (λ done. after fuel t within size n completed k done p) d

  after-next :
      (fuel : ℕ) (t : FileAllocationTable) (within size n completed k m : ℕ) (p : List ℕ × Clusters)
      → get_next_cluster t n ≡ ok m
      → is_next_pointer (get_cluster_type m) ≡ true
      → after fuel t within size n completed k false p
        ≡ run fuel t within size m (completed + k) p.0 p.1
  after-next fuel t within size n completed k m p e f =
      let go_on : ℕ → Bool → Outcome (Bool × List ℕ × Clusters) = λ next b. elim b [
        | true ↦ run fuel t within size next (completed + k) p.0 p.1
        | false ↦ ok (false, p.0, p.1)
      ] in
      ap (λ r. r >>= λ next. go_on next (is_next_pointer (get_cluster_type next))) e
      ∙ ap (go_on m) f

  -- One cluster, and what is read from those behind it.
  read_on :
      (t : FileAllocationTable) (c c₁ : Clusters) (buffer : List ℕ) (n m : ℕ) (ms : List ℕ)
      (w k completed left : ℕ) (r : Outcome (Bool × List ℕ × Clusters))
      → Chain info t m ms
      → IsCoherent info cluster_size c
      → SameView info c c₁
      → w ≤ cluster_size
      → k ≡ cluster_size - w
      → k ≤ left
      → completed + k ≤ length buffer
      → Reads c₁
          (splice buffer completed (slice w k (view info c n)))
          (completed + k)
          (slice 0 (left - k) (content info c₁ (m ∷ ms)))
          r
      → Reads c buffer completed (slice w left (content info c (n ∷ m ∷ ms))) r
  read_on t c c₁ buffer n m ms w k completed left r chain is same h e l fits (c₂, ran, same', is') =
      let size = length-view info cluster_size n c is in
      let ys = slice w k (view info c n) in
      let count = length-slice w k (view info c n) (omega arith) in
      let tail = content-SameView info t c c₁ m ms chain same in
      let joined =
        splice-splice buffer completed ys (slice 0 (left - k) (content info c (m ∷ ms)))
          (omega arith) in
      let parts =
        slice-append_over w left k (view info c n) (content info c (m ∷ ms)) (omega arith)
          (omega arith) l in
      (
        c₂,
        ran
            ∙ ap (λ b. ok (true, b, c₂))
                (ap
                    (λ z.
                      splice (splice buffer completed ys) (completed + k) (slice 0 (left - k) z))
                    tail
                  ∙ ap
                      (λ j.
                        splice (splice buffer completed ys) (completed + j)
                          (slice 0 (left - k) (content info c (m ∷ ms))))
                      (sym count)
                  ∙ joined
                  ∙ ap (splice buffer completed) (sym parts)),
        λ n p. same' n p ∙ same n p,
        is',
      )

  -- The last cluster of a read.
  loop-last :
      (fuel : ℕ) (t : FileAllocationTable) (within size n : ℕ) (ns : List ℕ) (completed w : ℕ)
      (buffer : List ℕ) (c : Clusters)
      → IsPlaced info n
      → IsCoherent info cluster_size c
      → completed < size
      → (if completed == 0 then within else 0) ≡ w
      → w < cluster_size
      → length buffer ≡ size
      → size - completed ≤ cluster_size - w
      → Reads c buffer completed
          (slice w (size - completed) (content info c (n ∷ ns)))
          (run (suc fuel) t within size n completed buffer c)
  loop-last fuel t within size n ns completed w buffer c placed is more e inside room fits =
      let left = size - completed in
      let (c₁, moved, same, is₁) =
        copy_cluster-read c buffer n w left completed placed is (omega arith) (omega arith) in
      let size_n = length-view info cluster_size n c is in
      (
        c₁,
        run-step fuel t within size n completed w left buffer c
              (splice buffer completed (slice w left (view info c n)), c₁) true more e (omega arith)
              moved (ground arith)
            ∙ ap (λ b. ok (true, splice buffer completed b, c₁))
                (sym (slice-append w left (view info c n) (content info c ns) (omega arith))),
        same,
        is₁,
      )

  pub loop_lem :
      (fuel : ℕ) (t : FileAllocationTable) (within size n : ℕ) (ns : List ℕ) (completed w : ℕ)
      (buffer : List ℕ) (c : Clusters)
      → Chain info t n ns
      → IsCoherent info cluster_size c
      → completed < size
      → (if completed == 0 then within else 0) ≡ w
      → w < cluster_size
      → length buffer ≡ size
      → w + (size - completed) ≤ length (content info c (n ∷ ns))
      → length (n ∷ ns) ≤ fuel
      → Reads c buffer completed
          (slice w (size - completed) (content info c (n ∷ ns)))
          (run fuel t within size n completed buffer c)
  loop_lem zero t within size n ns completed w buffer c chain is more e inside room enough f =
      absurd (omega arith)
  loop_lem (suc fuel) t within size n [] completed w buffer c chain is more e inside room enough f =
      let size_n = length-view info cluster_size n c is in
      let whole = length-append (view info c n) [] in
      let fits : size - completed ≤ cluster_size - w = omega arith in
      loop-last fuel t within size n [] completed w buffer c chain is more e inside room fits
  loop_lem (suc fuel) t within size n (m ∷ ms) completed w buffer c chain is more e inside room
        enough f =
      let left = size - completed in
      let k = cluster_size - w in
      elim (dec_lt k left) [
        | no fits ↦
            loop-last fuel t within size n (m ∷ ms) completed w buffer c chain.0 is more e inside
              room (omega arith)
        | yes over ↦
            let (c₁, moved, same, is₁) =
              copy_cluster-read c buffer n w k completed chain.0 is (omega arith) (omega arith) in
            let size_n = length-view info cluster_size n c is in
            let b₁ = splice buffer completed (slice w k (view info c n)) in
            let count = length-slice w k (view info c n) (omega arith) in
            let room₁ : length b₁ ≡ length buffer =
              length-splice buffer completed (slice w k (view info c n)) (omega arith) in
            let whole = length-append (view info c n) (content info c (m ∷ ms)) in
            let tail = ap length (content-SameView info t c c₁ m ms chain.3 same) in
            let later : (if completed + k == 0 then within else 0) ≡ 0 = ground arith in
            let rest =
              loop_lem fuel t within size m ms (completed + k) 0 b₁ c₁ chain.3 is₁ (omega arith)
                later (omega arith) (room₁ ∙ room) (omega arith) (omega arith) in
            let r = run fuel t within size m (completed + k) b₁ c₁ in
            let rest' : Reads c₁ b₁ (completed + k) (slice 0 (left - k) (content info c₁ (m ∷ ms)))
                r =
              subst (λ j. Reads c₁ b₁ (completed + k) (slice 0 j (content info c₁ (m ∷ ms))) r)
                (omega arith) rest in
            subst (Reads c buffer completed (slice w left (content info c (n ∷ m ∷ ms))))
              (sym (
                run-step fuel t within size n completed w k buffer c (b₁, c₁) false more e
                  (omega arith) moved (ground arith)
                ∙ after-next fuel t within size n completed k m (b₁, c₁) chain.1 chain.2))
              (read_on t c c₁ buffer n m ms w k completed left r chain.3 is same (omega arith) refl
                (omega arith) (omega arith) rest')
      ]
