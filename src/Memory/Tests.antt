-- ===== src/Memory/Tests.antt =====
-- The memory manager on small inputs, and its theorems at inputs where their hypotheses hold.
use speakeasy.Base.{
  ℕ, ◌+◌, ◌%◌, ◌≤◌, ◌<◌, Bool, true, false, ◌≡◌, ◌≢◌, refl, inl, ◌⊎◌, ◌++◌, Option, none, some,
  List, [], ◌∷◌, arith,
}
use speakeasy.Memory.Pages.{page_size, pages_from, range, insert, sorted_set, scan, page_total}
use speakeasy.Memory.Tag.{
  hex_digit, hex_fuel, hex, base_addr_tag, is_prefix, is_substring, is_bad, replace_bad,
  with_address, map_tag,
}
use speakeasy.Memory.Engine.{covered}
use speakeasy.Memory.Engine.PageList.{
  page_list, numbers, page_regions, none_mapped, all_mapped, without, is_page_range, run, map_run,
  unmap_run,
}
use speakeasy.Memory.State.{
  MemMap, Manager, Outcome, MemError, ok, raise, out_of_memory, engine_error, perm_mem_rwx,
  mem_map_init, hook_fires, fired, find_map, remove_map, remove_maps, mark_free, in_block, all_free,
  region_pages, reserve_pages, addr_or, crosses, limit_value, starts_with_emu, map_process,
  find_base, perms_or_rwx,
}
use speakeasy.Memory.Manager.{
  manager_init, occupied, overlaps_reserved, memory_get_valid_ranges, get_valid_ranges, append_map,
  map_in_block, new_block, needs_block, map_small, map_large, is_small, mem_map, get_address_map,
  free_block, free_map, mem_free, append_reserve, mem_reserve, mem_map_reserve,
}
use speakeasy.Memory.Search.{reserved, IsFree, page_of}
use speakeasy.Memory.Search.Lowest.{start}
use speakeasy.Memory.Search.First.{IsFirstFree, get_valid_ranges_raise}
use speakeasy.Memory.Invariant.{IsSound}
use speakeasy.Memory.Invariant.Small.{IsAllocated}
use speakeasy.Memory.Invariant.Mapping.{mem_map-IsSound}
use speakeasy.Memory.Invariant.Freeing
use speakeasy.Memory.Invariant.Reserving
use speakeasy.Memory.Invariant.Success.{mem_map-ne-engine_error}

program : Unit {0}
unfolding pages_from range insert sorted_set scan page_total numbers page_regions none_mapped
    all_mapped without is_page_range run map_run unmap_run mem_map_init hook_fires fired find_map
    remove_map remove_maps mark_free in_block all_free region_pages reserve_pages addr_or crosses
    limit_value starts_with_emu map_process find_base perms_or_rwx manager_init occupied
    get_valid_ranges memory_get_valid_ranges overlaps_reserved append_map map_in_block new_block
    needs_block map_small map_large is_small mem_map get_address_map free_block free_map mem_free
    append_reserve mem_reserve mem_map_reserve map_tag with_address hex_digit hex_fuel hex
    base_addr_tag is_prefix is_substring is_bad replace_bad
program = tt

abbrev limit : ℕ
limit = 0x7FFF0000

abbrev empty : Manager page_list
empty = manager_init page_list [] [] none (some limit) false

init-IsSound : IsSound page_list empty
unfolding manager_init
init-IsSound = record {
  placed = tt;
  apart = tt;
  shared = inl refl;
  small_block = omega arith;
  reserves = tt;
}

-- an allocation of 0x20 bytes in the shared block, and one of a page and a bit
abbrev small : Outcome ℕ × Manager page_list
small = mem_map page_list empty 0x20 none perm_mem_rwx none 0 false none

abbrev large : Outcome ℕ × Manager page_list
large = mem_map page_list small.1 0x1001 none perm_mem_rwx (some (b'a' ∷ b':' ∷ [])) 0 false none

small_base : small.0 ≡ ok 0x10000
unfolding program
small_base = refl

large_base : large.0 ≡ ok 0x11000
unfolding program
large_base = refl

-- a[:].0x11000 with the colon replaced
large_tag :
    get_address_map page_list large.1 0x12FFF
    ≡ some (
        mem_map_init 0x11000 0x2000
          (some (b'a' ∷ b'_' ∷ []))
          (some perm_mem_rwx)
          0
          0x11000
          0x2000
          false
          none)
unfolding program
large_tag = refl

mem_map-IsSound_example : IsAllocated page_list empty small.1 0x10000 0x20
mem_map-IsSound_example =
    mem_map-IsSound page_list empty 0x20 none perm_mem_rwx none 0 false none 0x10000 init-IsSound
      small_base

small-IsSound : IsSound page_list small.1
small-IsSound = mem_map-IsSound_example.sound

large-IsSound : IsSound page_list large.1
large-IsSound =
    (mem_map-IsSound page_list small.1 0x1001 none perm_mem_rwx (some (b'a' ∷ b':' ∷ [])) 0 false
      none 0x11000 small-IsSound large_base).sound

abbrev tight : Manager page_list
tight = record empty { address_limit = some 0x10800 }

get_valid_ranges_raise_example :
    (limit : ℕ) × (tight.address_limit ≡ some limit)
    × (out_of_memory 0x1000 0x10800 ≡ out_of_memory (page_total 0x800) limit)
    × (start tight none < limit)
    × ((b : ℕ)
        → b % page_size ≡ 0
        → page_of (start tight none) ≤ b
        → IsFree tight b (page_total 0x800)
        → overlaps_reserved b (page_total 0x800) ≡ false
        → limit < b + page_total 0x800)
unfolding program
get_valid_ranges_raise_example = get_valid_ranges_raise tight tt 0x800 none refl

mem_map-ne-engine_error_example :
    (mem_map page_list empty 0x20 none perm_mem_rwx none 0 false none).0 ≢ raise engine_error
unfolding manager_init addr_or
mem_map-ne-engine_error_example =
    mem_map-ne-engine_error page_list empty 0x20 none perm_mem_rwx none 0 false none limit tt refl
      (omega arith) (omega arith) (inl (omega arith))

abbrev first_map : MemMap
first_map = mem_map_init 0x10000 0x30 none (some perm_mem_rwx) 0 0x10000 0x1000 false none

abbrev second_map : MemMap
second_map =
    mem_map_init 0x11000 0x2000 (some (b'a' ∷ b':' ∷ [])) (some perm_mem_rwx) 0 0x11000 0x2000 false
      none

get_address_map_part_example : get_address_map page_list large.1 0x12FFF ≡ some second_map
unfolding program
get_address_map_part_example =
    Reserving.get_address_map_part page_list large.1 (first_map ∷ []) [] second_map 0x12FFF
      large-IsSound refl refl

mem_free-IsSound_example :
    ((mem_free page_list large.1 0x11000).0 ≡ ok tt)
    × IsSound page_list (mem_free page_list large.1 0x11000).1
mem_free-IsSound_example = Freeing.mem_free-IsSound page_list large.1 0x11000 large-IsSound

mem_free_block_example :
    (((◌≡◌ {A = Bool} false true)
        ⊎ (all_free (in_block 0x11000 (mark_free 0x11000 large.1.maps)) ≡ false))
      × (mem_free page_list large.1 0x11000
          ≡ (ok tt, (Freeing.after_mark page_list large.1 0x11000))))
    ⊎ ((◌≡◌ {A = Bool} false false)
        × (all_free (in_block 0x11000 (mark_free 0x11000 large.1.maps)) ≡ true)
        × (en : List ℕ) × (unmap_run large.1.engine 0x11000 0x2000 ≡ some en)
        × (mem_free page_list large.1 0x11000 ≡ (
          ok tt,
          Freeing.freed page_list (Freeing.after_mark page_list large.1 0x11000) en second_map,
        )))
unfolding program
mem_free_block_example =
    Freeing.mem_free_block page_list large.1 0x11000 large-IsSound second_map refl

-- the engine keeps the page of the shared block alone
freed_pages : (mem_free page_list large.1 0x11000).1.engine ≡ 16 ∷ []
unfolding program
freed_pages = refl

abbrev holding : Outcome ℕ × Manager page_list
holding = mem_reserve page_list empty 0x1800 none none none 0 false

mem_reserve-IsSound_example :
    ((e : MemError) × (◌≡◌ {A = Option ℕ} (some 0x20000) none)
      × (get_valid_ranges page_list empty 0x1800 none ≡ raise e)
      × (mem_reserve page_list empty 0x1800 (some 0x20000) none none 0 false ≡ (raise e, empty)))
    ⊎ ((b : ℕ) × (n : ℕ) × (s' : Manager page_list) × (mem_reserve page_list empty 0x1800
            (some 0x20000)
            none
            none
            0
            false
          ≡ (ok b, s'))
        × (s'.mem_reserves
            ≡ empty.mem_reserves ++ mem_map_init b n none none 0 b empty.block_size false none ∷ [])
        × (s'.maps ≡ empty.maps)
        × (((◌≡◌ {A = Option ℕ} (some 0x20000) (some b)) × (n ≡ 0x1800))
            ⊎ ((◌≡◌ {A = Option ℕ} (some 0x20000) none)
                × (n ≡ page_total 0x1800)
                × IsFirstFree empty (start empty none) b n))
        × IsSound page_list s')
unfolding addr_or
mem_reserve-IsSound_example =
    Reserving.mem_reserve-IsSound page_list empty 0x1800 (some 0x20000) none none 0 false
      init-IsSound refl

abbrev held : MemMap
held = mem_map_init 0x10000 0x2000 none none 0 0x10000 0 false none

-- the state with the reservation is the state of the start but for its reserved ranges
holding-IsSound : IsSound page_list holding.1
unfolding program
holding-IsSound = record {
  placed = tt;
  apart = tt;
  shared = inl refl;
  small_block = omega arith;
  reserves = (refl, tt);
}

mem_map_reserve_exact_example :
    ((mem_map_reserve page_list holding.1 0x10000).0 ≡ ok (some 0x10000))
    × IsAllocated page_list
        (record holding.1 { mem_reserves = remove_map 0x10000 holding.1.mem_reserves })
        (mem_map_reserve page_list holding.1 0x10000).1
        0x10000
        0x2000
    × ((mem_map_reserve page_list holding.1 0x10000).1.mem_reserves
        ≡ remove_map 0x10000 holding.1.mem_reserves)
unfolding program covered reserved
mem_map_reserve_exact_example =
    Reserving.mem_map_reserve_exact page_list holding.1 0x10000 held limit holding-IsSound refl refl
      (omega arith) (omega arith) (λ p h. refl) refl
