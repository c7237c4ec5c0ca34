-- ===== src/Memory/Manager.antt =====
-- `MemoryManager` of speakeasy/memmgr.py: each method takes the manager and returns the new one
-- beside its result, also when it raises.
use speakeasy.Base.{
  ℕ, ◌+◌, ◌-◌, ◌%◌, Bool, false, not, ◌&&◌, ◌||◌, Option, none, some, List, [], ◌∷◌, ◌++◌, ltb,
  ◌==◌, if◌then◌else◌,
}
use speakeasy.Memory.Pages.{page_size, sorted_set, scan, page_total}
use speakeasy.Memory.Engine.{Engine}
use speakeasy.Memory.State.{
  MapHook, allocation_granularity, MemMap, Manager, Outcome, ok, raise, out_of_memory, engine_error,
  perm_mem_rwx, mem_map_init, fired, find_map, remove_map, remove_maps, mark_free, in_block,
  all_free, region_pages, reserve_pages, addr_or, crosses, limit_value, map_process, is_found,
  found_tag, without_base, find_base, perms_or_rwx, as_some,
}

-- MemoryManager.__init__, with the engine and the settings that the class takes from elsewhere
unfoldable pub manager_init :
    (g : Engine) → g.State → List MapHook → Option ℕ → Option ℕ → Bool → Manager g
manager_init g engine hooks current_process address_limit keep_memory_on_free = record {
  maps = [];
  mem_reserves = [];
  block_base = 0;
  block_size = 0;
  block_offset = 0;
  alloc_base = allocation_granularity;
  engine = engine;
  hooks = hooks;
  hook_calls = [];
  current_process = current_process;
  address_limit = address_limit;
  keep_memory_on_free = keep_memory_on_free;
}

-- EMU_RESERVED and EMU_RESERVED_END of speakeasy/windows/common.py
abbrev pub emu_reserved : ℕ
emu_reserved = 0xFEEDF000

abbrev pub emu_reserved_end : ℕ
emu_reserved_end = emu_reserved + 0x4000

-- `base < EMU_RESERVED_END and base + total > EMU_RESERVED`
unfoldable pub overlaps_reserved : ℕ → ℕ → Bool
overlaps_reserved base total = ltb base emu_reserved_end && ltb emu_reserved (base + total)

module _ (g : Engine) where
  -- curr
  unfoldable pub occupied : Manager g → List ℕ
  occupied s = region_pages (g.regions s.engine) ++ reserve_pages s.mem_reserves

  -- MemoryManager.get_valid_ranges
  unfoldable pub memory_get_valid_ranges : Manager g → ℕ → Option ℕ → Outcome (ℕ × ℕ)
  memory_get_valid_ranges s size addr =
      let total = page_total size in
      let start = addr_or addr s.alloc_base in
      let base = scan total (start - start % page_size) (sorted_set (occupied s)) in
      if crosses s.address_limit start (base + total)
      then raise (out_of_memory total (limit_value s.address_limit))
      else ok (base, total)

  -- WindowsEmulator.get_valid_ranges, which overrides it in every emulator: a range that overlaps
  -- the reserved range of the emulator is searched for again behind that
  unfoldable pub get_valid_ranges : Manager g → ℕ → Option ℕ → Outcome (ℕ × ℕ)
  get_valid_ranges s size addr = elim (memory_get_valid_ranges s size addr) [
    | raise e ↦ raise e
    | ok (base, total) ↦
        if overlaps_reserved base total
        then memory_get_valid_ranges s size (some emu_reserved_end)
        else ok (base, total)
  ]

  -- `self.maps.append(mm)` and `self._hook_mem_map_dispatch(mm)`
  unfoldable pub append_map : Manager g → MemMap → Manager g
  append_map s mm = record s {
    maps = s.maps ++ mm ∷ [];
    hook_calls = s.hook_calls ++ fired mm s.hooks;
  }

  -- the map in the shared block, once the block has room
  unfoldable pub map_in_block :
      Manager g → ℕ → ℕ → Option (List ℕ) → ℕ → Bool → Option ℕ → Outcome ℕ × Manager g
  map_in_block s size perms tag flags shared process =
      let addr = s.block_base + s.block_offset in
      let mm =
        mem_map_init addr size tag (some perms) flags s.block_base s.block_size shared process in
      (ok addr, append_map (record s { block_offset = s.block_offset + size }) mm)

  -- a new shared block: its base and size are set before the engine maps it
  unfoldable pub new_block : Manager g → Outcome (Unit {0}) × Manager g
  new_block s = elim (get_valid_ranges s page_size none) [
    | raise e ↦ (raise e, s)
    | ok (base, size) ↦
        let s' : Manager g = record s { block_base = base; block_size = size } in
        elim (g.map_range s.engine base size perm_mem_rwx) [
          | none ↦ (raise engine_error, s')
          | some e ↦ (ok tt, record s' { engine = e; block_offset = 0 })
        ]
  ]

  -- `not self.block_base or addr + size > self.block_base + self.page_size`
  unfoldable pub needs_block : Manager g → ℕ → Bool
  needs_block s size =
      s.block_base == 0 || ltb (s.block_base + page_size) (s.block_base + s.block_offset + size)

  unfoldable pub map_small :
      Manager g → ℕ → ℕ → Option (List ℕ) → ℕ → Bool → Option ℕ → Outcome ℕ × Manager g
  map_small s size perms tag flags shared process =
      let padded = size + (0x10 - size % 0x10) in
      if needs_block s padded
      then (let (made, s') = new_block s in
          elim made [
            | raise e ↦ (raise e, s')
            | ok _ ↦ map_in_block s' padded perms tag flags shared process
          ])
      else map_in_block s padded perms tag flags shared process

  unfoldable pub map_large :
      Manager g → ℕ → Option ℕ → ℕ → Option (List ℕ) → ℕ → Bool → Option ℕ → Outcome ℕ × Manager g
  map_large s size base perms tag flags shared process = elim (get_valid_ranges s size base) [
    | raise e ↦ (raise e, s)
    | ok (base, size) ↦
        let block_size = if ltb s.block_size size then size else s.block_size in
        let mm = mem_map_init base size tag (some perms) flags base block_size shared process in
        elim (g.map_range s.engine base size perms) [
          | none ↦ (raise engine_error, s)
          | some e ↦ (ok base, append_map (record s { engine = e }) mm)
        ]
  ]

  -- `size < self.page_size and size % self.page_size`, with no base
  unfoldable pub is_small : ℕ → Option ℕ → Bool
  is_small size none = ltb size page_size && not (size % page_size == 0)
  is_small size (some base) = false

  unfoldable pub mem_map :
      Manager g → ℕ → Option ℕ → ℕ → Option (List ℕ) → ℕ → Bool → Option ℕ → Outcome ℕ × Manager g
  mem_map s size base perms tag flags shared process =
      let process' = map_process process tag s.current_process in
      if is_small size base
      then map_small s size perms tag flags shared process'
      else map_large s size base perms tag flags shared process'

  unfoldable pub get_address_map : Manager g → ℕ → Option MemMap
  get_address_map s address = find_map address s.maps

  unfoldable pub get_reserve_map : Manager g → ℕ → Option MemMap
  get_reserve_map s address = find_map address s.mem_reserves

  unfoldable pub is_address_valid : Manager g → ℕ → Bool
  is_address_valid s address =
      is_found (get_address_map s address) || is_found (get_reserve_map s address)

  unfoldable pub get_address_tag : Manager g → ℕ → Option (List ℕ)
  get_address_tag s address = found_tag (get_address_map s address)

  -- `mem_unmap`, then the removal of the maps of the block
  unfoldable pub free_block : Manager g → MemMap → List MemMap → Outcome (Unit {0}) × Manager g
  free_block s mm ml =
      let s' : Manager g = record s { block_base = 0 } in
      elim (g.unmap_range s.engine mm.block_base mm.block_size) [
        | none ↦ (raise engine_error, s')
        | some e ↦ (ok tt, record s' { engine = e; maps = remove_maps ml s.maps })
      ]

  -- the block of the freed map is unmapped when all of its maps are free
  unfoldable pub free_map : Manager g → MemMap → Outcome (Unit {0}) × Manager g
  free_map s mm =
      let ml = in_block mm.block_base s.maps in
      if s.keep_memory_on_free
      then (ok tt, s)
      else if all_free ml
      then free_block s mm ml
      else (ok tt, s)

  unfoldable pub mem_free : Manager g → ℕ → Outcome (Unit {0}) × Manager g
  mem_free s base = elim (get_address_map s base) [
    | none ↦ (ok tt, s)
    | some mm ↦ free_map (record s { maps = mark_free base s.maps }) mm
  ]

  -- `self.mem_reserves.append(mm)`
  unfoldable pub append_reserve :
      Manager g → ℕ → ℕ → Option ℕ → Option (List ℕ) → ℕ → Bool → Outcome ℕ × Manager g
  append_reserve s base size perms tag flags shared =
      let mm = mem_map_init base size tag perms flags base s.block_size shared none in
      (ok base, record s { mem_reserves = s.mem_reserves ++ mm ∷ [] })

  unfoldable pub mem_reserve :
      Manager g → ℕ → Option ℕ → Option ℕ → Option (List ℕ) → ℕ → Bool → Outcome ℕ × Manager g
  mem_reserve s size (some base) perms tag flags shared =
      append_reserve s base size perms tag flags shared
  mem_reserve s size none perms tag flags shared = elim (get_valid_ranges s size none) [
    | raise e ↦ (raise e, s)
    | ok (base, size) ↦ append_reserve s base size perms tag flags shared
  ]

  unfoldable pub mem_unreserve : Manager g → ℕ → Manager g
  mem_unreserve s base = record s { mem_reserves = without_base base s.mem_reserves }

  -- the result is `none` if no range is reserved at the address
  unfoldable pub mem_map_reserve : Manager g → ℕ → Outcome (Option ℕ) × Manager g
  mem_map_reserve s mapped_base = elim (find_base mapped_base s.mem_reserves) [
    | none ↦ (ok none, s)
    | some r ↦
        let s' : Manager g = record s { mem_reserves = remove_map r.base s.mem_reserves } in
        let (made, s'') =
          mem_map s' r.size (some r.base) (perms_or_rwx r.prot) r.tag 0 false none in
        (as_some made, s'')
  ]

  -- `allocations_from`: the state at the start and at the end of the block, and the block between
  unfoldable pub allocations_from :
      {A : Type 0} → Manager g → ℕ → (Manager g → A × Manager g) → A × Manager g
  allocations_from s base block =
      let (result, s') = block (record s { alloc_base = base; block_base = 0; block_offset = 0 }) in
      (result, record s' { alloc_base = s.alloc_base; block_base = 0; block_offset = 0 })
