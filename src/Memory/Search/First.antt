-- ===== src/Memory/Search/First.antt =====
-- `get_valid_ranges` of speakeasy/windows/winemu.py, on that of speakeasy/memmgr.py: its result is the
-- first free range outside the reserved range of the emulator, and its refusals are those of the
-- address limit.
use speakeasy.Base.{
  ℕ, ◌+◌, ◌%◌, ◌≤◌, ◌<◌, true, false, sym, ◌≡◌, Option, some, arith, Bool-cases, inl, inr, ◌∙◌,
}
use speakeasy.Memory.Pages.{page_size, page_total}
use speakeasy.Memory.Engine.{Engine}
use speakeasy.Memory.State.{Manager, Outcome-cases, ok, raise, MemError, out_of_memory, addr_or}
use speakeasy.Memory.Manager.{
  emu_reserved_end, overlaps_reserved, memory_get_valid_ranges, get_valid_ranges,
}
use speakeasy.Memory.Search.{page_of, HasAlignedReserves, IsFree}
use speakeasy.Memory.Search.Lowest.{
  start, IsLowest, memory_get_valid_ranges-IsLowest, memory_get_valid_ranges_raise,
}

module _ {g : Engine} where
  -- `base` is the first page from `first` on at which `total` bytes are free and lie outside the
  -- reserved range of the emulator
  pub record IsFirstFree (s : Manager g) (first base total : ℕ) : Type 0 where
    pub aligned : base % page_size ≡ 0
    pub after : page_of first ≤ base
    pub is_free : IsFree s base total
    pub outside : overlaps_reserved base total ≡ false
    pub is_first :
        (b : ℕ)
        → b % page_size ≡ 0
        → page_of first ≤ b
        → IsFree s b total
        → overlaps_reserved b total ≡ false
        → base ≤ b

  module _ (s : Manager g) (a : HasAlignedReserves s) where
    -- a free range outside the reserved range of the emulator is behind it, if the first free range
    -- overlaps it
    behind_reserved :
        (first base total b : ℕ)
        → IsLowest s first base total
        → overlaps_reserved base total ≡ true
        → b % page_size ≡ 0
        → page_of first ≤ b
        → IsFree s b total
        → overlaps_reserved b total ≡ false
        → emu_reserved_end ≤ b
    unfolding overlaps_reserved
    behind_reserved first base total b lowest over ab after free out =
        let low = lowest.is_first b ab after free in ground arith

    kept :
        (first base total : ℕ)
        → IsLowest s first base total
        → overlaps_reserved base total ≡ false
        → IsFirstFree s first base total
    kept first base total lowest out = record {
      aligned = lowest.aligned;
      after = lowest.after;
      is_free = lowest.is_free;
      outside = out;
      is_first = λ b ab after free outside. lowest.is_first b ab after free;
    }

    searched_again :
        (first b base total : ℕ)
        → IsLowest s first b total
        → overlaps_reserved b total ≡ true
        → IsLowest s emu_reserved_end base total
        → IsFirstFree s first base total
    unfolding overlaps_reserved
    searched_again first b base total lowest over second =
        let below : b < emu_reserved_end = ground (arith, over) in
        let behind : emu_reserved_end ≤ base = omega (arith, second.after) in
        record {
          aligned = second.aligned;
          after = omega (arith, lowest.after);
          is_free = second.is_free;
          outside = ground (arith, behind);
          is_first = λ c ac after free outside.
              let c_behind = behind_reserved first b total c lowest over ac after free outside in
              second.is_first c ac (omega (arith, c_behind)) free;
        }

    start_below :
        (first base total : ℕ)
        → IsLowest s first base total
        → overlaps_reserved base total ≡ true
        → first < emu_reserved_end
    unfolding overlaps_reserved
    start_below first base total lowest over =
        let below : base < emu_reserved_end = ground (arith, over) in
        omega (arith, lowest.after, lowest.aligned)

    pub get_valid_ranges-IsFirstFree :
        (size : ℕ) (addr : Option ℕ) {base total : ℕ}
        → get_valid_ranges g s size addr ≡ ok (base, total)
        → (total ≡ page_total size) × IsFirstFree s (start s addr) base total
    unfolding get_valid_ranges addr_or
    get_valid_ranges-IsFirstFree size addr {base} {total} h =
        elim (Outcome-cases (memory_get_valid_ranges g s size addr)) [
          | inl (x, failed) ↦ absurd (ground arith)
          | inr ((b, t), found) ↦
              let (whole, lowest) = memory_get_valid_ranges-IsLowest s a size addr found in
              elim (Bool-cases (overlaps_reserved b t)) [
                | inl over ↦
                    let again : memory_get_valid_ranges g s size (some emu_reserved_end)
                        ≡ ok (base, total) =
                      ground arith in
                    let (whole', second) =
                      memory_get_valid_ranges-IsLowest s a size (some emu_reserved_end) again in
                    let same : t ≡ total = whole ∙ sym whole' in
                    (
                      whole',
                      searched_again (start s addr) b base total (rw same at lowest)
                          (rw same at over) second,
                    )
                | inr fits ↦
                    let same : (base ≡ b) × (total ≡ t) = ground arith in
                    rw (same.0, same.1) (whole, kept (start s addr) b t lowest fits)
              ]
        ]

    -- `get_valid_ranges` raises only if every free range from the start on that lies outside the
    -- reserved range of the emulator ends above the limit, and the search started below the limit,
    -- if all reserved ranges of the manager start at page addresses.
    pub get_valid_ranges_raise :
        (size : ℕ) (addr : Option ℕ) {e : MemError}
        → get_valid_ranges g s size addr ≡ raise e
        → (limit : ℕ) × (s.address_limit ≡ some limit)
          × (e ≡ out_of_memory (page_total size) limit)
          × (start s addr < limit)
          × ((b : ℕ)
              → b % page_size ≡ 0
              → page_of (start s addr) ≤ b
              → IsFree s b (page_total size)
              → overlaps_reserved b (page_total size) ≡ false
              → limit < b + page_total size)
    unfolding get_valid_ranges addr_or
    get_valid_ranges_raise size addr {e} h =
        elim (Outcome-cases (memory_get_valid_ranges g s size addr)) [
          | inl (x, failed) ↦
              let same : raise e ≡ memory_get_valid_ranges g s size addr = ground arith in
              let (limit, set, value, below, above) =
                memory_get_valid_ranges_raise s a size addr (sym same) in
              (limit, set, value, below, λ b ab after free outside. above b ab after free)
          | inr ((b, t), found) ↦
              let (whole, lowest) = memory_get_valid_ranges-IsLowest s a size addr found in
              elim (Bool-cases (overlaps_reserved b t)) [
                | inr fits ↦ absurd (ground arith)
                | inl over ↦
                    let again : memory_get_valid_ranges g s size (some emu_reserved_end) ≡ raise e =
                      ground arith in
                    let (limit, set, value, below, above) =
                      memory_get_valid_ranges_raise s a size (some emu_reserved_end) again in
                    let low : emu_reserved_end < limit = below in
                    let start_low = start_below (start s addr) b t lowest over in
                    (
                      limit,
                      set,
                      value,
                      omega (arith, low, start_low),
                      λ c ac after free outside.
                          let behind =
                            behind_reserved (start s addr) b t c lowest over ac after
                              (rw whole free) (rw whole outside) in
                          let after_page : page_of emu_reserved_end ≤ c = omega (arith, behind) in
                          above c ac after_page free,
                    )
              ]
        ]
