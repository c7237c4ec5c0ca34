-- ===== src/Memory/Engine/PageList.antt =====
-- An engine that keeps the numbers of its mapped pages: what the manager relies on can be had.
use speakeasy.Base.{
  ℕ, zero, suc, ◌+◌, ◌*◌, ◌/◌, ◌%◌, ◌^◌, ◌-◌, Bool, true, false, not, ◌&&◌, ◌||◌, ◌≡◌, refl, sym,
  ◌∙◌, Option, none, some, List, [], ◌∷◌, ◌++◌, ltb, leb, ◌==◌, if◌then◌else◌, arith, All,
}
use speakeasy.Memory.Pages.{page_size}
use speakeasy.Memory.Pages.Scan.{mem, mem-append}
use speakeasy.Memory.Engine.{Region, IsWhole, covered, in_range, IsPageRange, Engine}

-- `n` pages from number `k` on
unfoldable pub numbers : ℕ → ℕ → List ℕ
numbers zero k = []
numbers (suc n) k = k ∷ numbers n (k + 1)

unfoldable pub page_regions : List ℕ → List Region
page_regions [] = []
page_regions (k ∷ ks) = (k * page_size, k * page_size + (page_size - 1)) ∷ page_regions ks

unfoldable pub none_mapped : List ℕ → List ℕ → Bool
none_mapped [] ks = true
none_mapped (n ∷ ns) ks = not (mem n ks) && none_mapped ns ks

unfoldable pub all_mapped : List ℕ → List ℕ → Bool
all_mapped [] ks = true
all_mapped (n ∷ ns) ks = mem n ks && all_mapped ns ks

unfoldable pub without : List ℕ → List ℕ → List ℕ
without ns [] = []
without ns (k ∷ ks) = let rest = without ns ks in if mem k ns then rest else k ∷ rest

unfoldable pub is_page_range : ℕ → ℕ → Bool
is_page_range base size =
    base % page_size == 0 && (size % page_size == 0 && (ltb 0 size && leb (base + size) (2 ^ 64)))

unfoldable pub run : ℕ → ℕ → List ℕ
run base size = numbers (size / page_size) (base / page_size)

unfoldable pub map_run : List ℕ → ℕ → ℕ → ℕ → Option (List ℕ)
map_run ks base size perms =
    if is_page_range base size && none_mapped (run base size) ks
    then some (run base size ++ ks)
    else none

unfoldable pub unmap_run : List ℕ → ℕ → ℕ → Option (List ℕ)
unmap_run ks base size =
    if is_page_range base size && all_mapped (run base size) ks
    then some (without (run base size) ks)
    else none

mem-numbers : (p n k : ℕ) → mem p (numbers n k) ≡ (leb k p && ltb p (k + n))
unfolding numbers
mem-numbers p zero k = ground arith
mem-numbers p (suc n) k = ground (arith, mem-numbers p n (k + 1))

mem-without : (p : ℕ) (ns ks : List ℕ) → mem p (without ns ks) ≡ (mem p ks && not (mem p ns))
unfolding without
mem-without p ns [] = refl
mem-without p ns (k ∷ ks) = ground (arith, mem-without p ns ks)

covered-page_regions : (ks : List ℕ) (p : ℕ) → covered (page_regions ks) p ≡ mem (p / page_size) ks
unfolding covered page_regions
covered-page_regions [] p = refl
covered-page_regions (k ∷ ks) p = ground (arith, covered-page_regions ks p)

in_range-run :
    (base size p : ℕ)
    → is_page_range base size ≡ true
    → mem (p / page_size) (run base size) ≡ in_range base size p
unfolding run is_page_range
in_range-run base size p h =
    ground (arith, mem-numbers (p / page_size) (size / page_size) (base / page_size))

is_page_range-of : (base size : ℕ) → IsPageRange base size → is_page_range base size ≡ true
unfolding is_page_range
is_page_range-of base size r = ground arith

pub page_regions_aligned : (ks : List ℕ) → All IsWhole (page_regions ks)
unfolding page_regions
page_regions_aligned [] = tt
page_regions_aligned (k ∷ ks) = ((omega arith, omega arith), page_regions_aligned ks)

none_mapped-of :
    (ns ks : List ℕ) → ((n : ℕ) → mem n ns ≡ true → mem n ks ≡ false) → none_mapped ns ks ≡ true
unfolding none_mapped
none_mapped-of [] ks h = refl
none_mapped-of (n ∷ ns) ks h =
    let rest = none_mapped-of ns ks (λ m e. h m (ground arith)) in ground (arith, h n, rest)

all_mapped-of :
    (ns ks : List ℕ) → ((n : ℕ) → mem n ns ≡ true → mem n ks ≡ true) → all_mapped ns ks ≡ true
unfolding all_mapped
all_mapped-of [] ks h = refl
all_mapped-of (n ∷ ns) ks h =
    let rest = all_mapped-of ns ks (λ m e. h m (ground arith)) in ground (arith, h n, rest)

-- a page number of the run, at its first address
run-in_range :
    (ks : List ℕ) (base size n : ℕ)
    → is_page_range base size ≡ true
    → mem n (run base size) ≡ true
    → (in_range base size (n * page_size) ≡ true)
      × (covered (page_regions ks) (n * page_size) ≡ mem n ks)
run-in_range ks base size n r m =
    let e : n * page_size / page_size ≡ n = omega arith in
    (
      sym (in_range-run base size (n * page_size) r) ∙ rw e m,
      covered-page_regions ks (n * page_size) ∙ rw e,
    )

pub map_run_free :
    (ks : List ℕ) (base size perms : ℕ)
    → IsPageRange base size
    → ((p : ℕ) → in_range base size p ≡ true → covered (page_regions ks) p ≡ false)
    → (e : List ℕ) × (map_run ks base size perms ≡ some e)
unfolding map_run
map_run_free ks base size perms r free =
    let fits = is_page_range-of base size r in
    let none_there = none_mapped-of (run base size) ks (λ n m.
      let (there, same) = run-in_range ks base size n fits m in
      sym same ∙ free (n * page_size) there) in
    (run base size ++ ks, rw (fits, none_there))

pub unmap_run_mapped :
    (ks : List ℕ) (base size : ℕ)
    → IsPageRange base size
    → ((p : ℕ) → in_range base size p ≡ true → covered (page_regions ks) p ≡ true)
    → (e : List ℕ) × (unmap_run ks base size ≡ some e)
unfolding unmap_run
unmap_run_mapped ks base size r mapped =
    let fits = is_page_range-of base size r in
    let all_there = all_mapped-of (run base size) ks (λ n m.
      let (there, same) = run-in_range ks base size n fits m in
      sym same ∙ mapped (n * page_size) there) in
    (without (run base size) ks, rw (fits, all_there))

pub map_run_covers :
    (ks e : List ℕ) (base size perms p : ℕ)
    → map_run ks base size perms ≡ some e
    → covered (page_regions e) p ≡ (covered (page_regions ks) p || in_range base size p)
unfolding map_run
map_run_covers ks e base size perms p h = ground (
  arith,
  covered-page_regions e p,
  covered-page_regions ks p,
  mem-append (p / page_size) (run base size) ks,
  in_range-run base size p,
)

pub unmap_run_covers :
    (ks e : List ℕ) (base size p : ℕ)
    → unmap_run ks base size ≡ some e
    → covered (page_regions e) p ≡ (covered (page_regions ks) p && not (in_range base size p))
unfolding unmap_run
unmap_run_covers ks e base size p h = ground (
  arith,
  covered-page_regions e p,
  covered-page_regions ks p,
  mem-without (p / page_size) (run base size) ks,
  in_range-run base size p,
)

pub map_run_checks :
    (ks e : List ℕ) (base size perms : ℕ)
    → map_run ks base size perms ≡ some e
    → IsPageRange base size
unfolding map_run is_page_range
map_run_checks ks e base size perms h = ground arith

abbrev pub page_list : Engine
page_list = record {
  State = List ℕ;
  regions = page_regions;
  map_range = map_run;
  unmap_range = unmap_run;
  regions_aligned = page_regions_aligned;
  map_covers = map_run_covers;
  unmap_covers = unmap_run_covers;
  map_checks = map_run_checks;
  map_free = map_run_free;
  unmap_mapped = unmap_run_mapped;
}
