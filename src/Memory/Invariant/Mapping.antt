-- ===== src/Memory/Invariant/Mapping.antt =====
-- `mem_map` of speakeasy/memmgr.py keeps the invariant: a new allocation shares no byte with
-- another.
use speakeasy.Base.{
  ℕ, ◌≤◌, ◌<◌, Bool, ◌≡◌, refl, inl, inr, Option, none, some, List, [], ◌∷◌, ◌++◌, arith,
  All-append, All-map, ltb, Bool-cases, Option-cases, if◌then◌else◌,
}
use speakeasy.Memory.Pages.{page_size}
use speakeasy.Memory.Pages.Scan.{page_total_pos, le-page_total}
use speakeasy.Memory.Engine.{Engine}
use speakeasy.Memory.State.{MemMap, Manager, Outcome-cases, ok, engine_error, mem_map_init, fired}
use speakeasy.Memory.Search.{IsFree}
use speakeasy.Memory.Search.First.{get_valid_ranges-IsFirstFree}
use speakeasy.Memory.Manager.{get_valid_ranges, append_map, map_large, mem_map, is_small}
use speakeasy.Memory.Invariant.{
  AreApart, IsPlaced, IsBelowOffset, HasBlock, IsSound, Pairwise-append, swap-IsApart,
  IsFree-IsApart, IsMapped-map_range, IsMapped-new, IsPlaced-map_range,
}
use speakeasy.Memory.Invariant.Small.{
  IsAllocated, Allocates, Allocates-ok, Allocates-raise, map_small_lem,
}

module _ (g : Engine) where
  -- an allocation that is its own block, on a free range
  free_AreApart :
      (s : Manager g) (b t : ℕ) (m mm : MemMap)
      → IsFree s b t
      → 0 < t
      → IsPlaced g s.engine m
      → mm.base ≡ b
      → mm.size ≡ t
      → mm.block_base ≡ b
      → mm.block_size ≡ t
      → AreApart m mm
  free_AreApart s b t m mm free pos p eb es mb ms =
      elim (IsFree-IsApart s b t m.block_base m.block_size pos (omega arith) free p.6) [
        | inl low ↦ (inr (omega arith), inr (inr (omega arith)))
        | inr high ↦ (inl (omega arith), inr (inl (omega arith)))
      ]

  -- the state after `emu_eng.mem_map` and `maps.append`
  abbrev added : Manager g → g.State → MemMap → Manager g
  added s en mm = record s {
    engine = en;
    maps = s.maps ++ mm ∷ [];
    hook_calls = s.hook_calls ++ fired mm s.hooks;
  }

  HasBlock-added :
      (s : Manager g) (en : g.State) (b t perms : ℕ) (mm : MemMap)
      → IsFree s b t
      → 0 < t
      → g.map_range s.engine b t perms ≡ some en
      → mm.block_base ≡ b
      → mm.block_size ≡ t
      → HasBlock g s
      → HasBlock g (added s en mm)
  HasBlock-added s en b t perms mm free pos mapped mb ms block = record {
    is_page = block.is_page;
    aligned = block.aligned;
    in_space = block.in_space;
    is_mapped = IsMapped-map_range g s.engine en b t perms _ _ mapped block.is_mapped;
    below = All-append (IsBelowOffset g (added s en mm)) s.maps (mm ∷ []) block.below (
      inr (
          rw (mb, ms)
            (swap-IsApart b t s.block_base page_size (
              IsFree-IsApart s b t s.block_base page_size pos (omega arith) free block.is_mapped))),
      tt,
    );
  }

  added-IsSound :
      (s : Manager g) (en : g.State) (b t perms : ℕ) (mm : MemMap)
      → IsSound g s
      → g.map_range s.engine b t perms ≡ some en
      → IsFree s b t
      → mm.base ≡ b
      → mm.size ≡ t
      → mm.block_base ≡ b
      → mm.block_size ≡ t
      → IsSound g (added s en mm)
  added-IsSound s en b t perms mm h mapped free eb es mb ms =
      let checks = g.map_checks s.engine en b t perms mapped in
      record {
        placed =
            All-append (IsPlaced g en) s.maps (mm ∷ [])
              (IsPlaced-map_range g s.engine en b t perms s.maps mapped h.placed)
              (
                (
                  omega arith,
                  omega arith,
                  omega arith,
                  omega arith,
                  omega arith,
                  omega arith,
                  rw (mb, ms) (IsMapped-new g s.engine en b t perms mapped),
                ),
                tt,
              );
        apart = Pairwise-append AreApart s.maps mm h.apart (
            All-map (IsPlaced g s.engine) (λ m. AreApart m mm)
              (λ m p. free_AreApart s b t m mm free checks.nonempty p eb es mb ms) s.maps h.placed);
        shared = elim h.shared [
          | inl none_yet ↦ inl none_yet
          | inr block ↦
              inr (HasBlock-added s en b t perms mm free checks.nonempty mapped mb ms block)
        ];
        small_block = h.small_block;
        reserves = h.reserves;
      }

  large-IsAllocated :
      (s : Manager g) (size : ℕ) (addr : Option ℕ) (perms flags : ℕ) (tag : Option (List ℕ))
      (shared : Bool) (process : Option ℕ) (b t : ℕ) (en : g.State)
      → IsSound g s
      → get_valid_ranges g s size addr ≡ ok (b, t)
      → g.map_range s.engine b t perms ≡ some en
      → IsAllocated g s
          (append_map g
            (record s { engine = en })
            (mem_map_init b t tag
              (some perms)
              flags
              b
              (if ltb s.block_size t then t else s.block_size)
              shared
              process))
          b
          size
  unfolding append_map mem_map_init
  large-IsAllocated s size addr perms flags tag shared process b t en h found mapped =
      let (total, first) = get_valid_ranges-IsFirstFree s h.reserves size addr found in
      let big : page_size ≤ t = omega (arith, total, page_total_pos size) in
      let small = h.small_block in
      let whole : (if ltb s.block_size t then t else s.block_size) ≡ t = ground arith in
      let checks = g.map_checks s.engine en b t perms mapped in
      rw whole (record {
        mm = mem_map_init b t tag (some perms) flags b t shared process;
        maps = refl;
        mm_base = refl;
        mm_size = omega (arith, total, le-page_total size);
        mm_free = refl;
        sound =
            added-IsSound s en b t perms
              (mem_map_init b t tag (some perms) flags b t shared process) h mapped first.is_free
              refl refl refl refl;
      })

  map_large_lem :
      (s : Manager g) (size : ℕ) (addr : Option ℕ) (perms flags : ℕ) (tag : Option (List ℕ))
      (shared : Bool) (process : Option ℕ)
      → IsSound g s
      → Allocates g s size (map_large g s size addr perms tag flags shared process)
  unfolding map_large
  map_large_lem s size addr perms flags tag shared process h =
      elim (Outcome-cases (get_valid_ranges g s size addr)) [
        | inl (x, failed) ↦ rw (failed, map_large) (Allocates-raise g s s size x)
        | inr ((b, t), found) ↦ elim (Option-cases (g.map_range s.engine b t perms)) [
          | inl refused ↦ rw (found, refused, map_large) (Allocates-raise g s s size engine_error)
          | inr (en, mapped) ↦
              rw (found, mapped, map_large)
                (Allocates-ok g s _ b size (
                  large-IsAllocated s size addr perms flags tag shared process b t en h found
                    mapped))
        ]
      ]

  -- In a sound state, an allocation that `mem_map` returns is a new entry at the returned address
  -- with at least the requested size, and the state is sound again: in particular no two
  -- allocations share a byte, and the engine maps every block.
  pub mem_map-IsSound :
      (s : Manager g) (size : ℕ) (addr : Option ℕ) (perms : ℕ) (tag : Option (List ℕ)) (flags : ℕ)
      (shared : Bool) (process : Option ℕ) (base : ℕ)
      → IsSound g s
      → (mem_map g s size addr perms tag flags shared process).0 ≡ ok base
      → IsAllocated g s (mem_map g s size addr perms tag flags shared process).1 base size
  unfolding mem_map is_small
  mem_map-IsSound s size none perms tag flags shared process base h =
      elim (Bool-cases (is_small g size none)) [
        | inl small ↦
            rw small (map_small_lem g s size perms flags tag shared _ h (ground arith) base)
        | inr large ↦ rw large (map_large_lem s size none perms flags tag shared _ h base)
      ]
  mem_map-IsSound s size (some a) perms tag flags shared process base h =
      map_large_lem s size (some a) perms flags tag shared _ h base
