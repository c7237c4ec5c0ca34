-- ===== src/Memory/Invariant/Success.antt =====
-- When `mem_map` of speakeasy/memmgr.py succeeds: below an address limit the engine never refuses
-- what the search found.
use speakeasy.Base.{
  ℕ, ◌+◌, ◌≤◌, ◌<◌, ◌^◌, Bool, true, ◌≡◌, ◌≢◌, ◌⊎◌, inl, inr, Option, none, some, List, arith,
  Bool-cases,
}
use speakeasy.Memory.Pages.{page_size}
use speakeasy.Memory.Pages.Scan.{page_total_pos, page_total_aligned}
use speakeasy.Memory.Engine.{Engine}
use speakeasy.Memory.State.{
  Manager, Outcome-cases, ok, raise, engine_error, crosses, addr_or, perm_mem_rwx,
}
use speakeasy.Memory.Search.{HasAlignedReserves}
use speakeasy.Memory.Search.Lowest.{start}
use speakeasy.Memory.Search.First.{get_valid_ranges-IsFirstFree, get_valid_ranges_raise}
use speakeasy.Memory.Manager.{
  emu_reserved, emu_reserved_end, overlaps_reserved, memory_get_valid_ranges, get_valid_ranges,
  mem_map, map_small, map_large, map_in_block, new_block, is_small,
}

module _ (g : Engine) where
  found_in_space :
      (s : Manager g) (size : ℕ) (addr : Option ℕ) (l b t : ℕ)
      → s.address_limit ≡ some l
      → l ≤ 2 ^ 64
      → start s addr < l
      → (l ≤ emu_reserved) ⊎ (emu_reserved_end < l)
      → get_valid_ranges g s size addr ≡ ok (b, t)
      → b + t ≤ 2 ^ 64
  unfolding get_valid_ranges memory_get_valid_ranges crosses addr_or overlaps_reserved
  found_in_space s size addr l b t set fits below behind e = ground arith

  -- what the search finds can be mapped
  engine_maps :
      (s : Manager g) (size : ℕ) (addr : Option ℕ) (l b t perms : ℕ)
      → HasAlignedReserves s
      → s.address_limit ≡ some l
      → l ≤ 2 ^ 64
      → start s addr < l
      → (l ≤ emu_reserved) ⊎ (emu_reserved_end < l)
      → get_valid_ranges g s size addr ≡ ok (b, t)
      → (en : g.State) × (g.map_range s.engine b t perms ≡ some en)
  engine_maps s size addr l b t perms a set fits below behind found =
      let (total, first) = get_valid_ranges-IsFirstFree s a size addr found in
      let page = page_total_pos size in
      let whole = page_total_aligned size in
      g.map_free s.engine b t perms
        (record {
          base_aligned = first.aligned;
          size_aligned = rw total whole;
          nonempty = omega arith;
          in_space = found_in_space s size addr l b t set fits below behind found;
        })
        (λ p inside. let free = first.is_free p inside in ground arith)

  -- the search itself raises for lack of a free range alone
  search-ne :
      (s : Manager g) (size : ℕ) (addr : Option ℕ)
      → HasAlignedReserves s
      → get_valid_ranges g s size addr ≢ raise engine_error
  search-ne s size addr a e =
      let (l, set, same, below, full) = get_valid_ranges_raise s a size addr e in cc

  map_large-ne :
      (s : Manager g) (size : ℕ) (addr : Option ℕ) (perms : ℕ) (tag : Option (List ℕ)) (flags : ℕ)
      (shared : Bool) (process : Option ℕ) (l : ℕ)
      → HasAlignedReserves s
      → s.address_limit ≡ some l
      → l ≤ 2 ^ 64
      → start s addr < l
      → (l ≤ emu_reserved) ⊎ (emu_reserved_end < l)
      → (map_large g s size addr perms tag flags shared process).0 ≢ raise engine_error
  unfolding map_large
  map_large-ne s size addr perms tag flags shared process l a set fits below behind e =
      elim (Outcome-cases (get_valid_ranges g s size addr)) [
        | inl (x, failed) ↦ search-ne s size addr a (ground arith)
        | inr ((b, t), found) ↦
            let (en, mapped) = engine_maps s size addr l b t perms a set fits below behind found in
            absurd (ground arith)
      ]

  new_block-ne :
      (s : Manager g) (l : ℕ)
      → HasAlignedReserves s
      → s.address_limit ≡ some l
      → l ≤ 2 ^ 64
      → start s none < l
      → (l ≤ emu_reserved) ⊎ (emu_reserved_end < l)
      → (new_block g s).0 ≢ raise engine_error
  unfolding new_block
  new_block-ne s l a set fits below behind e =
      elim (Outcome-cases (get_valid_ranges g s page_size none)) [
        | inl (x, failed) ↦ search-ne s page_size none a (ground arith)
        | inr ((b, t), found) ↦
            let (en, mapped) =
              engine_maps s page_size none l b t perm_mem_rwx a set fits below behind found in
            absurd (ground arith)
      ]

  map_small-ne :
      (s : Manager g) (size : ℕ) (perms : ℕ) (tag : Option (List ℕ)) (flags : ℕ) (shared : Bool)
      (process : Option ℕ) (l : ℕ)
      → HasAlignedReserves s
      → s.address_limit ≡ some l
      → l ≤ 2 ^ 64
      → start s none < l
      → (l ≤ emu_reserved) ⊎ (emu_reserved_end < l)
      → (map_small g s size perms tag flags shared process).0 ≢ raise engine_error
  unfolding map_small map_in_block
  map_small-ne s size perms tag flags shared process l a set fits below behind e =
      let block = new_block-ne s l a set fits below behind in ground arith

  small_start :
      (s : Manager g) (size : ℕ) (addr : Option ℕ) (l : ℕ)
      → is_small g size addr ≡ true
      → start s addr < l
      → start s none < l
  unfolding is_small
  small_start s size none l small below = below
  small_start s size (some b) l small below = cc

  -- Where all reserved ranges of the manager start at page addresses, the address limit is at most
  -- 2 ^ 64 and not within the reserved range of the emulator, and the search starts below the limit,
  -- `mem_map` fails only for lack of a free range: the engine never refuses.
  pub mem_map-ne-engine_error :
      (s : Manager g) (size : ℕ) (addr : Option ℕ) (perms : ℕ) (tag : Option (List ℕ)) (flags : ℕ)
      (shared : Bool) (process : Option ℕ) (l : ℕ)
      → HasAlignedReserves s
      → s.address_limit ≡ some l
      → l ≤ 2 ^ 64
      → start s addr < l
      → (l ≤ emu_reserved) ⊎ (emu_reserved_end < l)
      → (mem_map g s size addr perms tag flags shared process).0 ≢ raise engine_error
  unfolding mem_map
  mem_map-ne-engine_error s size addr perms tag flags shared process l a set fits below behind =
      elim (Bool-cases (is_small g size addr)) [
        | inl small ↦
            rw (small, mem_map)
              (map_small-ne s size perms tag flags shared _ l a set fits
                (small_start s size addr l small below) behind)
        | inr large ↦
            rw (large, mem_map)
              (map_large-ne s size addr perms tag flags shared _ l a set fits below behind)
      ]
