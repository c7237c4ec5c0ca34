-- ===== src/Memory/Invariant/Blocks.antt =====
-- The shared block of small allocations of speakeasy/memmgr.py: what an allocation in it keeps,
-- and what a new block sets up.
use speakeasy.Base.{
  ℕ, ◌+◌, ◌≤◌, ◌<◌, Bool, ◌≡◌, refl, inl, inr, Option, none, some, List, [], ◌∷◌, arith, All,
  All-append, All-map, All-zip, Option-cases,
}
use speakeasy.Memory.Pages.{page_size, page_total}
use speakeasy.Memory.Engine.{Engine}
use speakeasy.Memory.State.{MemMap, Manager, Outcome-cases, ok, mem_map_init, perm_mem_rwx}
use speakeasy.Memory.Search.{IsAligned, IsFree}
use speakeasy.Memory.Search.First.{get_valid_ranges-IsFirstFree}
use speakeasy.Memory.Manager.{get_valid_ranges, append_map, map_in_block, new_block}
use speakeasy.Memory.Invariant.{
  AreApart, Pairwise, IsPlaced, IsBelowOffset, HasBlock, IsSound, Pairwise-append, IsFree-IsApart,
  IsMapped-new, IsPlaced-map_range,
}

module _ (g : Engine) where
  -- the invariant but for the shared block
  pub record HasMaps (s : Manager g) : Type 0 where
    pub placed : All (IsPlaced g s.engine) s.maps
    pub apart : Pairwise AreApart s.maps
    pub reserves : All IsAligned s.mem_reserves

  -- an allocation in the shared block is apart from one that is below the offset or elsewhere
  below-AreApart :
      (s : Manager g) (m n : MemMap)
      → IsPlaced g s.engine m × IsBelowOffset g s m
      → n.base ≡ s.block_base + s.block_offset
      → n.block_base ≡ s.block_base
      → n.block_size ≡ page_size
      → s.block_offset + n.size ≤ page_size
      → AreApart m n
  below-AreApart s m n (p, inl same) base bb bs room = (omega arith, inl (omega arith))
  below-AreApart s m n (p, inr other) base bb bs room = (omega arith, inr (omega arith))

  still_below :
      (s : Manager g) (size : ℕ) (m : MemMap)
      → IsBelowOffset g s m
      → IsBelowOffset g (record s { block_offset = s.block_offset + size }) m
  still_below s size m (inl h) = inl (h.0, h.1, omega arith)
  still_below s size m (inr h) = inr h

  pub map_in_block-IsSound :
      (s : Manager g) (size perms flags : ℕ) (tag : Option (List ℕ)) (shared : Bool)
      (process : Option ℕ)
      → HasMaps s
      → HasBlock g s
      → 0 < size
      → s.block_offset + size ≤ page_size
      → IsSound g (map_in_block g s size perms tag flags shared process).1
  unfolding map_in_block append_map mem_map_init
  map_in_block-IsSound s size perms flags tag shared process maps block pos room = record {
    placed = All-append (IsPlaced g s.engine) s.maps (n ∷ []) maps.placed (
      (
        omega arith,
        omega arith,
        pos,
        block.aligned,
        omega arith,
        omega arith,
        rw block.is_page block.is_mapped,
      ),
      tt,
    );
    apart = Pairwise-append AreApart s.maps n maps.apart (
        All-map (λ m. IsPlaced g s.engine m × IsBelowOffset g s m) (λ m. AreApart m n)
          (λ m h. below-AreApart s m n h refl refl block.is_page room) s.maps
          (All-zip (IsPlaced g s.engine) (IsBelowOffset g s) s.maps maps.placed block.below));
    shared = inr (record {
      is_page = block.is_page;
      aligned = block.aligned;
      in_space = block.in_space;
      is_mapped = block.is_mapped;
      below =
          All-append (IsBelowOffset g s') s.maps (n ∷ [])
            (All-map (IsBelowOffset g s) (IsBelowOffset g s') (still_below s size) s.maps
              block.below)
            (inl (refl, block.is_page, omega arith), tt);
    });
    small_block = omega arith;
    reserves = maps.reserves;
  }
    where
      n : MemMap
      n =
          mem_map_init (s.block_base + s.block_offset) size tag (some perms) flags s.block_base
            s.block_size shared process

      s' : Manager g
      s' = record s { block_offset = s.block_offset + size }

  -- the block that `new_block` maps is apart from every other block
  new_below :
      (s s' : Manager g) (m : MemMap)
      → IsFree s s'.block_base page_size
      → IsPlaced g s.engine m
      → IsBelowOffset g s' m
  new_below s s' m free p = inr (
      IsFree-IsApart s s'.block_base page_size m.block_base m.block_size (omega arith) (omega arith)
        free p.6)

  pub record IsNewBlock (s s' : Manager g) : Type 0 where
    pub maps : HasMaps s'
    pub block : HasBlock g s'
    pub same_maps : s'.maps ≡ s.maps
    pub offset : s'.block_offset ≡ 0

  abbrev with_block : Manager g → ℕ → ℕ → g.State → Manager g
  with_block s b t en = record s { block_base = b; block_size = t; engine = en; block_offset = 0 }

  mapped_block :
      (s : Manager g)
      → IsSound g s
      → (b t : ℕ) (en : g.State) → get_valid_ranges g s page_size none ≡ ok (b, t)
      → g.map_range s.engine b t perm_mem_rwx ≡ some en
      → IsNewBlock s (with_block s b t en)
  unfolding page_total
  mapped_block s h b t en found mapped =
      let (total, first) = get_valid_ranges-IsFirstFree s h.reserves page_size none found in
      let page : t ≡ page_size = total in
      let checks = g.map_checks s.engine en b t perm_mem_rwx mapped in
      let placed = IsPlaced-map_range g s.engine en b t perm_mem_rwx s.maps mapped h.placed in
      record {
        maps = record { placed = placed; apart = h.apart; reserves = h.reserves };
        block = record {
          is_page = page;
          aligned = checks.base_aligned;
          in_space = omega arith;
          is_mapped = rw (← page) (IsMapped-new g s.engine en b t perm_mem_rwx mapped);
          below =
              All-map (IsPlaced g s.engine) (IsBelowOffset g (with_block s b t en))
                (λ m p. new_below s (with_block s b t en) m (rw (← page) first.is_free) p) s.maps
                h.placed;
        };
        same_maps = refl;
        offset = refl;
      }

  pub new_block_lem :
      (s s' : Manager g) → IsSound g s → new_block g s ≡ (ok tt, s') → IsNewBlock s s'
  unfolding new_block
  new_block_lem s s' h e = elim (Outcome-cases (get_valid_ranges g s page_size none)) [
    | inl (x, failed) ↦ absurd (ground arith)
    | inr ((b, t), found) ↦ elim (Option-cases (g.map_range s.engine b t perm_mem_rwx)) [
      | inl refused ↦ absurd (ground arith)
      | inr (en, mapped) ↦
          let same : s' ≡ with_block s b t en = ground arith in
          rw same (mapped_block s h b t en found mapped)
    ]
  ]
