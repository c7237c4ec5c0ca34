-- ===== src/Memory/Pages.antt =====
-- The page arithmetic of speakeasy/memmgr.py: the occupied pages, and the scan of
-- `get_valid_ranges` over them. The proofs stand in the module below.
pub mod Scan
use speakeasy.Base.{ℕ, zero, suc, ◌+◌, ◌-◌, ◌/◌, ◌%◌, List, [], ◌∷◌, ltb, leb, ◌==◌, if◌then◌else◌}

-- self.page_size
abbrev pub page_size : ℕ
page_size = 0x1000

-- `n` pages from `first` on
unfoldable pub pages_from : ℕ → ℕ → List ℕ
pages_from zero first = []
pages_from (suc n) first = first ∷ pages_from n (first + page_size)

-- range(first, last, page_size): it has ceil((last - first) / page_size) items, and none if
-- `last <= first`
unfoldable pub range : ℕ → ℕ → List ℕ
unfolding pages_from
range first last = pages_from ((last - first + (page_size - 1)) / page_size) first

unfoldable pub insert : ℕ → List ℕ → List ℕ
insert x [] = x ∷ []
insert x (y ∷ ys) = if ltb x y then x ∷ y ∷ ys else if x == y then y ∷ ys else y ∷ insert x ys

-- sorted(set(curr))
unfoldable pub sorted_set : List ℕ → List ℕ
unfolding insert
sorted_set [] = []
sorted_set (x ∷ xs) = insert x (sorted_set xs)

-- the loop `for page in curr`, on the sorted pages
unfoldable pub scan : ℕ → ℕ → List ℕ → ℕ
scan total base [] = base
scan total base (page ∷ curr) =
    let rest = scan total (if leb base page then page + page_size else base) curr in
    if leb (base + total) page then base else rest

-- `total` of `get_valid_ranges`: the size of an allocation in whole pages
unfoldable pub page_total : ℕ → ℕ
page_total size =
    if ltb size page_size
    then page_size
    else if ltb 0 (size % page_size)
    then size + (page_size - size % page_size)
    else size
