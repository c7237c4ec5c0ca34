-- ===== src/Memory/Search.antt =====
-- `get_valid_ranges` of speakeasy/memmgr.py: the range that it returns is free and the first,
-- and it raises only if no range fits.
pub mod Lowest
pub mod First
use speakeasy.Base.{
  ℕ, ◌+◌, ◌-◌, ◌*◌, ◌/◌, ◌%◌, ◌≤◌, ◌<◌, Bool, true, false, not, ◌&&◌, ◌||◌, ◌⊎◌, ◌≡◌, refl, Option,
  none, some, List, [], ◌∷◌, ◌++◌, ltb, leb, ◌==◌, if◌then◌else◌, arith, All, Bool-cases, inl, inr,
  sym, ◌∙◌,
}
use speakeasy.Memory.Pages.{page_size, range, sorted_set, scan, page_total}
use speakeasy.Memory.Pages.Scan.{
  mem, mem-append, mem-sorted_set, mem-pages_from, IsAbove-sorted_set, le-scan, scan_free,
  scan_aligned, scan_first, page_total_aligned, page_total_pos,
}
use speakeasy.Memory.Engine.{Engine, Region, IsWhole, covered, in_range}
use speakeasy.Memory.State.{
  MemMap, Manager, Outcome, ok, raise, MemError, out_of_memory, region_pages, reserve_pages,
  addr_or, crosses, limit_value,
}
use speakeasy.Memory.Manager.{occupied, get_valid_ranges}

unfoldable pub reserved : List MemMap → ℕ → Bool
reserved [] p = false
reserved (r ∷ rs) p = in_range r.base r.size p || reserved rs p

abbrev pub IsAligned : MemMap → Type 0
IsAligned r = r.base % page_size ≡ 0

abbrev pub page_of : ℕ → ℕ
page_of p = p - p % page_size

pub mem-range :
    (p first last : ℕ)
    → first % page_size ≡ 0
    → mem p (range first last) ≡ (leb first p && (ltb p last && p % page_size == 0))
unfolding range
mem-range p first last a =
    ground (arith, mem-pages_from p ((last - first + (page_size - 1)) / page_size) first)

mem-region_pages :
    (p : ℕ) (regions : List Region)
    → All IsWhole regions
    → mem p (region_pages regions) ≡ (covered regions p && p % page_size == 0)
unfolding region_pages covered
mem-region_pages p [] w = refl
mem-region_pages p ((first, last) ∷ regions) w = ground (
  arith,
  mem-append p (range first last) (region_pages regions),
  mem-range p first last w.0.0,
  mem-region_pages p regions w.1,
)

mem-reserve_pages :
    (p : ℕ) (rs : List MemMap)
    → All IsAligned rs
    → mem p (reserve_pages rs) ≡ (reserved rs p && p % page_size == 0)
unfolding reserve_pages reserved
mem-reserve_pages p [] a = refl
mem-reserve_pages p (r ∷ rs) a = ground (
  arith,
  mem-append p (range r.base (r.base + r.size)) (reserve_pages rs),
  mem-range p r.base (r.base + r.size) a.0,
  mem-reserve_pages p rs a.1,
)

covered-page_of :
    (p : ℕ) (regions : List Region)
    → All IsWhole regions
    → covered regions p ≡ true
    → covered regions (page_of p) ≡ true
unfolding covered
covered-page_of p [] w h = h
covered-page_of p ((first, last) ∷ regions) w h = ground (arith, covered-page_of p regions w.1)

reserved-page_of :
    (p : ℕ) (rs : List MemMap)
    → All IsAligned rs
    → reserved rs p ≡ true
    → reserved rs (page_of p) ≡ true
unfolding reserved
reserved-page_of p [] a h = h
reserved-page_of p (r ∷ rs) a h = ground (arith, reserved-page_of p rs a.1)

pub All-of-mem {ℓ} : (P : ℕ → Type ℓ) (xs : List ℕ) → ((p : ℕ) → mem p xs ≡ true → P p) → All P xs
All-of-mem P [] h = tt
All-of-mem P (x ∷ xs) h = (h x (ground arith), All-of-mem P xs (λ p m. h p (ground arith)))

module _ {g : Engine} where
  -- an address that no allocation and no reserved range holds
  abbrev pub is_taken : Manager g → ℕ → Bool
  is_taken s p = covered (g.regions s.engine) p || reserved s.mem_reserves p

  abbrev pub IsFree : Manager g → ℕ → ℕ → Type 0
  IsFree s base size = (p : ℕ) → in_range base size p ≡ true → is_taken s p ≡ false

  -- the reserved ranges start at pages
  abbrev pub HasAlignedReserves : Manager g → Type 0
  HasAlignedReserves s = All IsAligned s.mem_reserves

  module _ (s : Manager g) (a : HasAlignedReserves s) where
    pub mem-occupied :
        (p : ℕ) → mem p (sorted_set (occupied g s)) ≡ (is_taken s p && p % page_size == 0)
    unfolding occupied
    mem-occupied p =
        let regions = g.regions s.engine in
        ground (
          arith,
          mem-sorted_set p (region_pages regions ++ reserve_pages s.mem_reserves),
          mem-append p (region_pages regions) (reserve_pages s.mem_reserves),
          mem-region_pages p regions (g.regions_aligned s.engine),
          mem-reserve_pages p s.mem_reserves a,
        )

    pub is_taken-page_of : (p : ℕ) → is_taken s p ≡ true → is_taken s (page_of p) ≡ true
    is_taken-page_of p h = ground (
      arith,
      covered-page_of p (g.regions s.engine) (g.regions_aligned s.engine),
      reserved-page_of p s.mem_reserves a,
    )

    pub occupied_aligned : All (λ p. p % page_size ≡ 0) (sorted_set (occupied g s))
    occupied_aligned =
        All-of-mem (λ p. p % page_size ≡ 0) (sorted_set (occupied g s))
          (λ p m. ground (arith, mem-occupied p))
