-- ===== src/Memory/Invariant/Marks.antt =====
-- The list of maps under `mem_free` of speakeasy/memmgr.py: the marks on freed maps, and the
-- removal of the maps of a block.
use speakeasy.Base.{
  ℕ, ◌+◌, ◌<◌, true, ◌≡◌, ◌≢◌, refl, sym, ap, ◌∙◌, ◌⊎◌, inl, inr, some, List, [], ◌∷◌, arith, All,
  All-map, All-zip, ◌&&◌, ltb, leb, Bool-cases, if◌then◌else◌, ◌==◌,
}
use mathlib.Core.Path.{subst}
use speakeasy.Memory.State.{MemMap, find_map, mark_free, in_block, remove_map, remove_maps}
use speakeasy.Memory.Invariant.{IsSameBlock, AreBlocksApart, AreApart, Pairwise, swap-IsApart}

-- the maps of the other blocks
unfoldable pub outside_block : ℕ → List MemMap → List MemMap
outside_block block [] = []
outside_block block (m ∷ ms) =
    let rest = outside_block block ms in if m.block_base == block then rest else m ∷ rest

-- what freeing an allocation does to the list
abbrev pub marked : MemMap → MemMap
marked m = record m { free = true }

module _ (P : MemMap → Type 0) (keep : (m : MemMap) → P m → P (marked m)) where
  pub All-mark_free : (a : ℕ) (ms : List MemMap) → All P ms → All P (mark_free a ms)
  unfolding mark_free
  All-mark_free a [] h = tt
  All-mark_free a (m ∷ ms) h = elim (Bool-cases (leb m.base a && ltb a (m.base + m.size))) [
    | inl here ↦ rw here (keep m h.0, h.1)
    | inr there ↦ rw there (h.0, All-mark_free a ms h.1)
  ]

pub Pairwise-mark_free :
    (a : ℕ) (ms : List MemMap) → Pairwise AreApart ms → Pairwise AreApart (mark_free a ms)
unfolding mark_free
Pairwise-mark_free a [] h = tt
Pairwise-mark_free a (m ∷ ms) h = elim (Bool-cases (leb m.base a && ltb a (m.base + m.size))) [
  | inl here ↦ rw here (h.0, h.1)
  | inr there ↦
      rw there (All-mark_free (AreApart m) (λ n r. r) a ms h.0, Pairwise-mark_free a ms h.1)
]

module _ (P : MemMap → Type 0) where
  pub All-outside_block : (block : ℕ) (ms : List MemMap) → All P ms → All P (outside_block block ms)
  unfolding outside_block
  All-outside_block block [] h = tt
  All-outside_block block (m ∷ ms) h = elim (Bool-cases (m.block_base == block)) [
    | inl same ↦ rw same (All-outside_block block ms h.1)
    | inr other ↦ rw other (h.0, All-outside_block block ms h.1)
  ]

  pub All-in_block : (block : ℕ) (ms : List MemMap) → All P ms → All P (in_block block ms)
  unfolding in_block
  All-in_block block [] h = tt
  All-in_block block (m ∷ ms) h = elim (Bool-cases (m.block_base == block)) [
    | inl same ↦ rw same (h.0, All-in_block block ms h.1)
    | inr other ↦ rw other (All-in_block block ms h.1)
  ]

  pub All-find_map :
      (a : ℕ) (ms : List MemMap) {m : MemMap} → All P ms → find_map a ms ≡ some m → P m
  unfolding find_map
  All-find_map a [] h e = absurd (ground arith)
  All-find_map a (n ∷ ms) {m} h e = elim (Bool-cases (leb n.base a && ltb a (n.base + n.size))) [
    | inl here ↦ let same : m ≡ n = ground arith in rw same h.0
    | inr there ↦ All-find_map a ms h.1 (ground arith)
  ]

pub Pairwise-outside_block :
    (block : ℕ) (ms : List MemMap)
    → Pairwise AreApart ms
    → Pairwise AreApart (outside_block block ms)
unfolding outside_block
Pairwise-outside_block block [] h = tt
Pairwise-outside_block block (m ∷ ms) h = elim (Bool-cases (m.block_base == block)) [
  | inl same ↦ rw same (Pairwise-outside_block block ms h.1)
  | inr other ↦
      rw other (All-outside_block (AreApart m) block ms h.0, Pairwise-outside_block block ms h.1)
]

pub remove_maps_skip :
    (ml : List MemMap) (m : MemMap) (ms : List MemMap)
    → All (λ n. n.base ≢ m.base) ml
    → remove_maps ml (m ∷ ms) ≡ m ∷ remove_maps ml ms
unfolding remove_maps remove_map
remove_maps_skip [] m ms h = refl
remove_maps_skip (n ∷ ml) m ms h = elim (Bool-cases (m.base == n.base)) [
  | inl same ↦ absurd (h.0 (ground arith))
  | inr other ↦ rw other (remove_maps_skip ml m (remove_map n.base ms) h.1)
]

pub remove_map_head : (m : MemMap) (ms : List MemMap) → remove_map m.base (m ∷ ms) ≡ ms
unfolding remove_map
remove_map_head m ms = ground arith

-- Removing the maps of a block one by one, by their bases, leaves the maps of the other blocks.
pub remove_maps-in_block :
    (block : ℕ) (ms : List MemMap)
    → All (λ m. 0 < m.size) ms
    → Pairwise AreApart ms
    → remove_maps (in_block block ms) ms ≡ outside_block block ms
unfolding remove_maps in_block outside_block
remove_maps-in_block block [] pos h = refl
remove_maps-in_block block (m ∷ ms) pos h = elim (Bool-cases (m.block_base == block)) [
  | inl same ↦ rw same (
      ap (remove_maps (in_block block ms)) (remove_map_head m ms)
      ∙ remove_maps-in_block block ms pos.1 h.1)
  | inr other ↦ rw other (
      remove_maps_skip (in_block block ms) m ms (
        All-in_block (λ n. n.base ≢ m.base) block ms
          (All-map (λ n. (0 < n.size) × AreApart m n) (λ n. n.base ≢ m.base) (λ n r. omega arith) ms
            (All-zip (λ n. 0 < n.size) (AreApart m) ms pos.1 h.0)))
      ∙ ap (◌∷◌ m) (remove_maps-in_block block ms pos.1 h.1))
]

pub outside_block_ne :
    (block : ℕ) (ms : List MemMap) → All (λ m. m.block_base ≢ block) (outside_block block ms)
unfolding outside_block
outside_block_ne block [] = tt
outside_block_ne block (m ∷ ms) = elim (Bool-cases (m.block_base == block)) [
  | inl same ↦ rw same (outside_block_ne block ms)
  | inr other ↦ rw other ((λ e. ground arith), outside_block_ne block ms)
]

abbrev pub AreBlocksFine : MemMap → MemMap → Type 0
AreBlocksFine m n = IsSameBlock m n ⊎ AreBlocksApart m n

pub swap_fine : (m n : MemMap) → AreBlocksFine m n → AreBlocksFine n m
swap_fine m n (inl same) = inl (sym same.0, sym same.1)
swap_fine m n (inr away) =
    inr (swap-IsApart m.block_base m.block_size n.block_base n.block_size away)

-- the block of a map that is found, against the blocks of all
pub find_map-blocks :
    (a : ℕ) (ms : List MemMap) {mm : MemMap}
    → Pairwise AreApart ms
    → find_map a ms ≡ some mm
    → All (AreBlocksFine mm) ms
unfolding find_map
find_map-blocks a [] h e = tt
find_map-blocks a (n ∷ ms) {mm} h e = elim (Bool-cases (leb n.base a && ltb a (n.base + n.size))) [
  | inl here ↦
      let same : mm ≡ n = ground arith in
      subst (λ k. All (AreBlocksFine k) (n ∷ ms)) (sym same)
        (inl (refl, refl), All-map (AreApart n) (AreBlocksFine n) (λ m r. r.1) ms h.0)
  | inr there ↦
      let found : find_map a ms ≡ some mm = ground arith in
      (swap_fine n mm (All-find_map (AreApart n) a ms h.0 found).1, find_map-blocks a ms h.1 found)
]
