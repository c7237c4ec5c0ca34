-- ===== src/Memory/Invariant/Freeing.antt =====
-- `mem_free` of speakeasy/memmgr.py keeps the invariant, never fails in a sound state, and unmaps
-- a block exactly when its last allocation is freed.
use speakeasy.Base.{
  ℕ, ◌<◌, true, false, not, ◌≡◌, ◌⊎◌, ◌≢◌, refl, sym, ap, ◌∙◌, inl, inr, none, some, List, arith,
  All, All-map, All-zip, ◌||◌, Bool-cases, Option-cases,
}
use speakeasy.Memory.Engine.{Engine}
use speakeasy.Memory.State.{MemMap, Manager, ok, find_map, mark_free, in_block, all_free}
use speakeasy.Memory.Manager.{get_address_map, free_block, free_map, mem_free}
use speakeasy.Memory.Invariant.{IsPlaced, IsBelowOffset, IsSound}
use speakeasy.Memory.Invariant.Marks.{
  outside_block, AreBlocksFine, All-mark_free, Pairwise-mark_free, All-outside_block, All-find_map,
  Pairwise-outside_block, remove_maps-in_block, outside_block_ne, find_map-blocks,
}

module _ (g : Engine) where
  marked_IsSound :
      (s : Manager g) (a : ℕ) → IsSound g s → IsSound g (record s { maps = mark_free a s.maps })
  marked_IsSound s a h = record {
    placed = All-mark_free (IsPlaced g s.engine) (λ m p. p) a s.maps h.placed;
    apart = Pairwise-mark_free a s.maps h.apart;
    shared = elim h.shared [
      | inl none_yet ↦ inl none_yet
      | inr b ↦ inr (record {
        is_page = b.is_page;
        aligned = b.aligned;
        in_space = b.in_space;
        is_mapped = b.is_mapped;
        below = All-mark_free (IsBelowOffset g s) (λ m p. p) a s.maps b.below;
      })
    ];
    small_block = h.small_block;
    reserves = h.reserves;
  }

  abbrev pub freed : Manager g → g.State → MemMap → Manager g
  freed s en mm = record s {
    block_base = 0;
    engine = en;
    maps = outside_block mm.block_base s.maps;
  }

  still-IsPlaced :
      (e en : g.State) (mm m : MemMap)
      → g.unmap_range e mm.block_base mm.block_size ≡ some en
      → (IsPlaced g e m × AreBlocksFine mm m)
      → m.block_base ≢ mm.block_base
      → IsPlaced g en m
  still-IsPlaced e en mm m h (p, inl same) other = absurd (other (sym same.0))
  still-IsPlaced e en mm m h (p, inr away) other = (
    p.0,
    p.1,
    p.2,
    p.3,
    p.4,
    p.5,
    λ q inside. ground (arith, g.unmap_covers e en mm.block_base mm.block_size q h, p.6 q inside),
  )

  freed-IsSound :
      (s : Manager g) (en : g.State) (mm : MemMap)
      → IsSound g s
      → All (AreBlocksFine mm) s.maps
      → g.unmap_range s.engine mm.block_base mm.block_size ≡ some en
      → IsSound g (freed s en mm)
  freed-IsSound s en mm h fine e = record {
    placed =
        All-map (λ m. (IsPlaced g s.engine m × AreBlocksFine mm m) × (m.block_base ≢ mm.block_base))
          (IsPlaced g en) (λ m r. still-IsPlaced s.engine en mm m e r.0 r.1) rest
          (All-zip (λ m. IsPlaced g s.engine m × AreBlocksFine mm m)
            (λ m. m.block_base ≢ mm.block_base) rest
            (All-outside_block (λ m. IsPlaced g s.engine m × AreBlocksFine mm m) mm.block_base
              s.maps (All-zip (IsPlaced g s.engine) (AreBlocksFine mm) s.maps h.placed fine))
            (outside_block_ne mm.block_base s.maps));
    apart = Pairwise-outside_block mm.block_base s.maps h.apart;
    shared = inl refl;
    small_block = h.small_block;
    reserves = h.reserves;
  }
    where
      rest : List MemMap
      rest = outside_block mm.block_base s.maps

  -- the engine unmaps the block of an allocation
  unmap_placed :
      (e : g.State) (mm : MemMap)
      → IsPlaced g e mm
      → (en : g.State) × (g.unmap_range e mm.block_base mm.block_size ≡ some en)
  unmap_placed e mm p =
      g.unmap_mapped e mm.block_base mm.block_size
        (record { base_aligned = p.3; size_aligned = p.4; nonempty = omega arith; in_space = p.5 })
        p.6

  free_map_last :
      (s : Manager g) (mm : MemMap)
      → s.keep_memory_on_free ≡ false
      → all_free (in_block mm.block_base s.maps) ≡ true
      → free_map g s mm ≡ free_block g s mm (in_block mm.block_base s.maps)
  unfolding free_map
  free_map_last s mm drop last = ground arith

  -- the state after `mm.free = True`
  abbrev pub after_mark : Manager g → ℕ → Manager g
  after_mark s a = record s { maps = mark_free a s.maps }

  module _ (s : Manager g) (a : ℕ) (h : IsSound g s) where
    -- a block whose maps are all free
    free_block_lem :
        (mm : MemMap)
        → find_map a s.maps ≡ some mm
        → (en : g.State) × (g.unmap_range s.engine mm.block_base mm.block_size ≡ some en)
          × (free_block g (after_mark s a) mm (in_block mm.block_base (mark_free a s.maps))
              ≡ (ok tt, freed (after_mark s a) en mm))
    unfolding free_block
    free_block_lem mm found =
        let marked = marked_IsSound s a h in
        let (en, unmapped) =
          unmap_placed s.engine mm (All-find_map (IsPlaced g s.engine) a s.maps h.placed found) in
        let pos =
          All-map (IsPlaced g s.engine) (λ m. 0 < m.size) (λ m p. p.2) (mark_free a s.maps)
            marked.placed in
        let left = remove_maps-in_block mm.block_base (mark_free a s.maps) pos marked.apart in
        (
          en,
          unmapped,
          rw (unmapped, free_block)
              (ap (λ ms. (ok tt, record s { block_base = 0; engine = en; maps = ms })) left),
        )

    mem_free-none : find_map a s.maps ≡ none → mem_free g s a ≡ (ok tt, s)
    unfolding mem_free get_address_map
    mem_free-none e = rw (e, mem_free) refl

    mem_free_kept :
        (mm : MemMap)
        → find_map a s.maps ≡ some mm
        → ((s.keep_memory_on_free || not (all_free (in_block mm.block_base (mark_free a s.maps))))
            ≡ true)
        → mem_free g s a ≡ (ok tt, (after_mark s a))
    unfolding mem_free get_address_map free_map
    mem_free_kept mm e k = rw (e, mem_free) (ground arith)

    mem_free_last :
        (mm : MemMap)
        → find_map a s.maps ≡ some mm
        → s.keep_memory_on_free ≡ false
        → all_free (in_block mm.block_base (mark_free a s.maps)) ≡ true
        → (en : g.State) × (g.unmap_range s.engine mm.block_base mm.block_size ≡ some en)
          × (mem_free g s a ≡ (ok tt, freed (after_mark s a) en mm))
    unfolding mem_free get_address_map
    mem_free_last mm found drop last =
        let (en, unmapped, done) = free_block_lem mm found in
        (en, unmapped, rw (found, mem_free) (free_map_last (after_mark s a) mm drop last ∙ done))

    -- In a sound state, when an address of an allocation is freed, the allocation is marked as free.
    -- If the config keeps freed memory, or the block has an allocation that is not free, nothing else
    -- changes. Otherwise the engine unmaps exactly the block, and exactly the maps of the block are
    -- removed.
    pub mem_free_block :
        (mm : MemMap)
        → find_map a s.maps ≡ some mm
        → (((s.keep_memory_on_free ≡ true)
              ⊎ (all_free (in_block mm.block_base (mark_free a s.maps)) ≡ false))
            × (mem_free g s a ≡ (ok tt, (after_mark s a))))
          ⊎ ((s.keep_memory_on_free ≡ false)
              × (all_free (in_block mm.block_base (mark_free a s.maps)) ≡ true)
              × (en : g.State) × (g.unmap_range s.engine mm.block_base mm.block_size ≡ some en)
              × (mem_free g s a ≡ (ok tt, freed (after_mark s a) en mm)))
    mem_free_block mm found = elim (Bool-cases s.keep_memory_on_free) [
      | inl keep ↦ inl (inl keep, mem_free_kept mm found (ground arith))
      | inr drop ↦ elim (Bool-cases (all_free (in_block mm.block_base (mark_free a s.maps)))) [
        | inl last ↦
            let (en, unmapped, done) = mem_free_last mm found drop last in
            inr (drop, last, en, unmapped, done)
        | inr used ↦ inl (inr used, mem_free_kept mm found (ground arith))
      ]
    ]

    -- In a sound state `mem_free` never raises, and the state is sound again: no allocation that
    -- stays loses its memory.
    pub mem_free-IsSound : ((mem_free g s a).0 ≡ ok tt) × IsSound g (mem_free g s a).1
    mem_free-IsSound = elim (Option-cases (find_map a s.maps)) [
      | inl none_there ↦ rw (mem_free-none none_there) (refl, h)
      | inr (mm, found) ↦
          elim (Bool-cases (
            s.keep_memory_on_free
            || not (all_free (in_block mm.block_base (mark_free a s.maps))))) [
              | inl kept ↦ rw (mem_free_kept mm found kept) (refl, marked_IsSound s a h)
              | inr last ↦
                  let (en, unmapped, done) = mem_free_last mm found (ground arith) (ground arith) in
                  rw done (
                    refl,
                    freed-IsSound (after_mark s a) en mm (marked_IsSound s a h)
                        (All-mark_free (AreBlocksFine mm) (λ n p. p) a s.maps
                          (find_map-blocks a s.maps h.apart found))
                        unmapped,
                  )
            ]
    ]
