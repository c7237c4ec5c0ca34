-- ===== src/Memory/Search/Lowest.antt =====
-- The search of `get_valid_ranges` of speakeasy/memmgr.py: it finds the first free range, and its
-- refusals are those of the address limit.
use speakeasy.Base.{
  ℕ, ◌+◌, ◌%◌, ◌≤◌, ◌<◌, Bool, true, ◌⊎◌, ◌≡◌, refl, Option, none, some, List, if◌then◌else◌, arith,
  Bool-cases, inl, inr, ◌∙◌,
}
use speakeasy.Memory.Pages.{page_size, sorted_set, scan, page_total}
use speakeasy.Memory.Pages.Scan.{
  IsAbove-sorted_set, le-scan, scan_free, scan_aligned, scan_first, page_total_aligned,
}
use speakeasy.Memory.Engine.{Engine}
use speakeasy.Memory.State.{
  Manager, Outcome, ok, raise, MemError, out_of_memory, addr_or, crosses, limit_value,
}
use speakeasy.Memory.Manager.{occupied, memory_get_valid_ranges}
use speakeasy.Memory.Search.{
  page_of, HasAlignedReserves, IsFree, is_taken, mem-occupied, is_taken-page_of, occupied_aligned,
  All-of-mem,
}

crosses_limit :
    (limit : Option ℕ) (first last : ℕ)
    → crosses limit first last ≡ true
    → (l : ℕ) × (limit ≡ some l) × (limit_value limit ≡ l) × (first < l) × (l < last)
unfolding crosses limit_value
crosses_limit none first last h = cc
crosses_limit (some l) first last h = (l, refl, refl, ground arith, ground arith)

range_of_ok :
    (over : Bool) (e : MemError) {b t base total : ℕ}
    → if◌then◌else◌ {A = Outcome (ℕ × ℕ)} over (raise e) (ok (b, t)) ≡ ok (base, total)
    → (base ≡ b) × (total ≡ t)
range_of_ok over e h = ground arith

error_of_raise :
    (over : Bool) (r : ℕ × ℕ) {e e' : MemError}
    → if◌then◌else◌ {A = Outcome (ℕ × ℕ)} over (raise e) (ok r) ≡ raise e'
    → (over ≡ true) × (e' ≡ e)
error_of_raise over r h = ground arith

module _ {g : Engine} where
  -- where the search starts: the page of `addr`, or of the allocation base
  abbrev pub start : Manager g → Option ℕ → ℕ
  start s addr = addr_or addr s.alloc_base

  -- `base` is the first page from `first` on at which `total` bytes are free
  pub record IsLowest (s : Manager g) (first base total : ℕ) : Type 0 where
    pub aligned : base % page_size ≡ 0
    pub after : page_of first ≤ base
    pub is_free : IsFree s base total
    pub is_first : (b : ℕ) → b % page_size ≡ 0 → page_of first ≤ b → IsFree s b total → base ≤ b

  module _ (s : Manager g) (a : HasAlignedReserves s) where
    scan-IsLowest :
        (first size : ℕ)
        → IsLowest s first
            (scan (page_total size) (page_of first) (sorted_set (occupied g s)))
            (page_total size)
    scan-IsLowest first size = record {
      aligned = scan_aligned total (page_of first) curr (omega arith) (occupied_aligned s a);
      after = le-scan total (page_of first) curr;
      is_free = λ p h. elim (Bool-cases (is_taken s p)) [
        | inl taken ↦
            let q : ℕ = page_of p in
            let there = is_taken-page_of s a p taken in
            ground (
              arith,
              mem-occupied s a q,
              scan_aligned total (page_of first) curr (omega arith) (occupied_aligned s a),
              scan_free total (page_of first) 0 q curr (IsAbove-sorted_set (occupied g s)),
              page_total_aligned size,
            )
        | inr free ↦ free
      ];
      is_first = λ b ab after free.
          scan_first total (page_of first) b curr (omega arith) ab (occupied_aligned s a) after (
            All-of-mem (λ p. (p < b) ⊎ (b + total ≤ p)) curr
              (λ p m. ground (arith, mem-occupied s a p, free p)));
    }
      where
        total : ℕ
        total = page_total size

        curr : List ℕ
        curr = sorted_set (occupied g s)

    pub memory_get_valid_ranges-IsLowest :
        (size : ℕ) (addr : Option ℕ) {base total : ℕ}
        → memory_get_valid_ranges g s size addr ≡ ok (base, total)
        → (total ≡ page_total size) × IsLowest s (start s addr) base total
    unfolding memory_get_valid_ranges
    memory_get_valid_ranges-IsLowest size addr {base} {total} h =
        let found = scan-IsLowest (start s addr) size in
        let (b, t) = range_of_ok _ _ h in rw (b, t) (refl, found)

    pub memory_get_valid_ranges_raise :
        (size : ℕ) (addr : Option ℕ) {e : MemError}
        → memory_get_valid_ranges g s size addr ≡ raise e
        → (limit : ℕ) × (s.address_limit ≡ some limit)
          × (e ≡ out_of_memory (page_total size) limit)
          × (start s addr < limit)
          × ((b : ℕ)
              → b % page_size ≡ 0
              → page_of (start s addr) ≤ b
              → IsFree s b (page_total size)
              → limit < b + page_total size)
    unfolding memory_get_valid_ranges
    memory_get_valid_ranges_raise size addr {e} h =
        let found = scan-IsLowest (start s addr) size in
        let (over, same) = error_of_raise _ _ h in
        let (limit, set, value, below, above) =
          crosses_limit s.address_limit (start s addr) _ over in
        (
          limit,
          set,
          same ∙ rw value,
          below,
          λ b ab after free. omega (arith, found.is_first b ab after free),
        )
