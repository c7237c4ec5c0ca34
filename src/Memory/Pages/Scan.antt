-- ===== src/Memory/Pages/Scan.antt =====
-- The occupied pages as a set, and the loop of `get_valid_ranges`: the range that it finds is
-- free, aligned and the first.
use speakeasy.Base.{
  ℕ, zero, suc, ◌+◌, ◌*◌, ◌%◌, ◌≤◌, ◌<◌, ◌≡◌, refl, Bool, true, false, List, [], ◌∷◌, ◌++◌, ltb,
  leb, ◌==◌, ◌||◌, ◌&&◌, ◌⊎◌, inl, inr, if◌then◌else◌, arith, All, Bool-cases, ltb→lt,
}
use speakeasy.Memory.Pages.{page_size, pages_from, insert, sorted_set, scan, page_total}

abbrev pub mem : ℕ → List ℕ → Bool
mem p [] = false
mem p (x ∷ xs) = p == x || mem p xs

-- every item is above `low`, and the list is strictly ascending
abbrev pub IsAbove : ℕ → List ℕ → Type 0
IsAbove low [] = Unit
IsAbove low (x ∷ xs) = (low ≤ x) × IsAbove (suc x) xs

pub mem-append : (p : ℕ) (xs ys : List ℕ) → mem p (xs ++ ys) ≡ (mem p xs || mem p ys)
mem-append p [] ys = refl
mem-append p (x ∷ xs) ys = ground (arith, mem-append p xs ys)

pub mem-insert : (p x : ℕ) (ys : List ℕ) → mem p (insert x ys) ≡ (p == x || mem p ys)
unfolding insert
mem-insert p x [] = refl
mem-insert p x (y ∷ ys) = ground (arith, mem-insert p x ys)

pub mem-sorted_set : (p : ℕ) (xs : List ℕ) → mem p (sorted_set xs) ≡ mem p xs
unfolding sorted_set
mem-sorted_set p [] = refl
mem-sorted_set p (x ∷ xs) = ground (arith, mem-insert p x (sorted_set xs), mem-sorted_set p xs)

IsAbove-insert : (low x : ℕ) (ys : List ℕ) → low ≤ x → IsAbove low ys → IsAbove low (insert x ys)
unfolding insert
IsAbove-insert low x [] h a = (h, tt)
IsAbove-insert low x (y ∷ ys) h a = elim (Bool-cases (ltb x y)) [
  | inl less ↦ rw less (h, (ltb→lt x y less, a.1))
  | inr more ↦ rw more (elim (Bool-cases (x == y)) [
    | inl same ↦ rw same a
    | inr other ↦ rw other (a.0, IsAbove-insert (suc y) x ys (ground arith) a.1)
  ])
]

pub IsAbove-sorted_set : (xs : List ℕ) → IsAbove 0 (sorted_set xs)
unfolding sorted_set
IsAbove-sorted_set [] = tt
IsAbove-sorted_set (x ∷ xs) =
    IsAbove-insert 0 x (sorted_set xs) (omega arith) (IsAbove-sorted_set xs)

pub mem-pages_from :
    (p n first : ℕ)
    → mem p (pages_from n first)
      ≡ (leb first p && (ltb p (first + n * page_size) && p % page_size == first % page_size))
unfolding pages_from
mem-pages_from p zero first = ground arith
mem-pages_from p (suc n) first = ground (arith, mem-pages_from p n (first + page_size))

pub le-scan : (total base : ℕ) (curr : List ℕ) → base ≤ scan total base curr
unfolding scan
le-scan total base [] = omega arith
le-scan total base (page ∷ curr) =
    ground (arith, le-scan total (if leb base page then page + page_size else base) curr)

-- a page of an ascending list is not below its bound
IsAbove-mem : (low p : ℕ) (xs : List ℕ) → IsAbove low xs → mem p xs ≡ true → low ≤ p
IsAbove-mem low p [] a h = ground arith
IsAbove-mem low p (x ∷ xs) a h = ground (arith, IsAbove-mem (suc x) p xs a.1)

pub scan_free :
    (total base low p : ℕ) (curr : List ℕ)
    → IsAbove low curr
    → mem p curr ≡ true
    → (p < scan total base curr) ⊎ (scan total base curr + total ≤ p)
unfolding scan
scan_free total base low p [] a m = ground arith
scan_free total base low p (page ∷ curr) a m =
    let next : ℕ = if leb base page then page + page_size else base in
    ground (
      arith,
      le-scan total next curr,
      IsAbove-mem (suc page) p curr a.1,
      scan_free total next (suc page) p curr a.1,
    )

pub scan_aligned :
    (total base : ℕ) (curr : List ℕ)
    → base % page_size ≡ 0
    → All (λ p. p % page_size ≡ 0) curr
    → scan total base curr % page_size ≡ 0
unfolding scan
scan_aligned total base [] b a = b
scan_aligned total base (page ∷ curr) b a =
    ground (arith, scan_aligned total (if leb base page then page + page_size else base) curr)

-- no aligned free range starts between the start of the search and the result
pub scan_first :
    (total base b : ℕ) (curr : List ℕ)
    → base % page_size ≡ 0
    → b % page_size ≡ 0
    → All (λ p. p % page_size ≡ 0) curr
    → base ≤ b
    → All (λ p. (p < b) ⊎ (b + total ≤ p)) curr
    → scan total base curr ≤ b
unfolding scan
scan_first total base b [] ba bb ca h f = h
scan_first total base b (page ∷ curr) ba bb ca h f =
    ground (arith, scan_first total (if leb base page then page + page_size else base) b curr)

pub page_total_aligned : (size : ℕ) → page_total size % page_size ≡ 0
unfolding page_total
page_total_aligned size = ground arith

pub le-page_total : (size : ℕ) → size ≤ page_total size
unfolding page_total
le-page_total size = ground arith

pub page_total_pos : (size : ℕ) → page_size ≤ page_total size
unfolding page_total
page_total_pos size = ground arith
