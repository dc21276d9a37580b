-- ===== src/Filesystem/Fat/Data/Content.antt =====
-- Chains of clusters and their bytes.
use bek_os.Common.{
  ℕ, ◌+◌, ◌-◌, ◌≤◌, ◌≡◌, sym, ap, ap₂, ◌∙◌, subst, true, List, [], ◌∷◌, ◌++◌, arith,
}
use bek_os.Common.Lists.{
  length, take, drop, slice, length-take, length-drop, take-append, drop-append, drop-append_self,
  take-add,
}
use bek_os.Common.Outcome.{ok}
use bek_os.Filesystem.Fat.{
  FatInfo, FileAllocationTable, get_cluster_type, is_next_pointer, get_next_cluster,
}
use bek_os.Filesystem.Fat.Data.{Clusters}
use bek_os.Filesystem.Fat.Data.Cache.{IsPlaced, view, SameView}

-- The clusters behind one in its chain, all in the data area.
abbrev pub Chain : FatInfo → FileAllocationTable → ℕ → List ℕ → Type 0
Chain info t n [] = IsPlaced info n
Chain info t n (m ∷ ms) =
    IsPlaced info n
    × (get_next_cluster t n ≡ ok m)
    × (is_next_pointer (get_cluster_type m) ≡ true)
    × Chain info t m ms

pub Chain-IsPlaced :
    (info : FatInfo) (t : FileAllocationTable) (n : ℕ) (ns : List ℕ)
    → Chain info t n ns
    → IsPlaced info n
Chain-IsPlaced info t n [] h = h
Chain-IsPlaced info t n (m ∷ ms) h = h.0

-- The bytes of clusters one after the other.
abbrev pub content : FatInfo → Clusters → List ℕ → List ℕ
content info c [] = []
content info c (n ∷ ns) = view info c n ++ content info c ns

pub content-SameView :
    (info : FatInfo) (t : FileAllocationTable) (c c' : Clusters) (n : ℕ) (ns : List ℕ)
    → Chain info t n ns
    → SameView info c c'
    → content info c' (n ∷ ns) ≡ content info c (n ∷ ns)
content-SameView info t c c' n [] chain h = ap (λ a. a ++ []) (h n chain)
content-SameView info t c c' n (m ∷ ms) chain h =
    ap₂ (λ a b. a ++ b) (h n chain.0) (content-SameView info t c c' m ms chain.3 h)

pub slice-append :
    (i n : ℕ) (xs ys : List ℕ) → i + n ≤ length xs → slice i n (xs ++ ys) ≡ slice i n xs
slice-append i n xs ys h =
    let rest = length-drop i xs in
    ap (take n) (drop-append i xs ys (omega arith)) ∙ take-append n (drop i xs) ys (omega arith)

-- A slice over the end of the first part.
pub slice-append_over :
    (i n k : ℕ) (xs ys : List ℕ)
    → i ≤ length xs
    → k ≡ length xs - i
    → k ≤ n
    → slice i n (xs ++ ys) ≡ slice i k xs ++ slice 0 (n - k) ys
slice-append_over i n k xs ys h e l =
    let rest = length-drop i xs in
    let front = drop i xs in
    let gone : drop k (front ++ ys) ≡ ys =
      subst (λ k. drop k (front ++ ys) ≡ ys) (rest ∙ sym e) (drop-append_self front ys) in
    ap (take n) (drop-append i xs ys h)
    ∙ take-add k (n - k) n (front ++ ys) (omega arith)
    ∙ ap₂ (λ a b. a ++ take (n - k) b) (take-append k front ys (omega arith)) gone

pub length-slice : (i n : ℕ) (xs : List ℕ) → i + n ≤ length xs → length (slice i n xs) ≡ n
length-slice i n xs h = let a = length-take n (drop i xs) in let b = length-drop i xs in omega arith
