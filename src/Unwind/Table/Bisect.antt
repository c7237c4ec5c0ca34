-- ===== src/Unwind/Table/Bisect.antt =====
-- The binary search of `lookup_function_entry` (speakeasy/windows/unwind.py) on the begins of a
-- .pdata table: it finds the entry that holds the pc.
use speakeasy.Base.{
  ℕ, zero, suc, ◌+◌, ◌-◌, ◌/◌, ◌%◌, ◌≤◌, ◌<◌, ◌≡◌, ◌*◌, ◌⊎◌, refl, inl, inr, true, false, some, leb,
  List, [], ◌∷◌, length, ltb, ◌==◌, Bool-cases, ==_iff, ltb→lt, arith,
}
use speakeasy.Base.Int.{pos}
use speakeasy.Unwind.{
  ok, Reader, read_bytes, Entry, iter_unpack, RuntimeFunction, read_runtime_function,
}
use speakeasy.Unwind.Table.{begin_at, bisect_right, holds, primary, entry_at, search_pdata}

-- the index `n` of the first entry that begins after the pc
pub record IsSplit (base pc : ℕ) (entries : List Entry) (n : ℕ) : Type 0 where
  pub inside : n ≤ length entries
  pub before : (i : ℕ) → i < n → base + begin_at entries i ≤ pc
  pub after : (i : ℕ) → n ≤ i → i < length entries → pc < base + begin_at entries i

abbrev pub IsAscending : List Entry → Type 0
IsAscending entries =
    (i j : ℕ) → i ≤ j → j < length entries → begin_at entries i ≤ begin_at entries j

module _ (base pc : ℕ) (entries : List Entry) (sorted : IsAscending entries) where
  -- The rounds of the search keep what is known of the entries outside `lo` and `hi`, and there is
  -- fuel for all of them.
  pub bisect_right-IsSplit :
      (fuel lo hi : ℕ)
      → hi - lo < fuel
      → lo ≤ hi
      → hi ≤ length entries
      → ((i : ℕ) → i < lo → base + begin_at entries i ≤ pc)
      → ((i : ℕ) → hi ≤ i → i < length entries → pc < base + begin_at entries i)
      → IsSplit base pc entries (bisect_right fuel base pc entries lo hi)
  unfolding bisect_right
  bisect_right-IsSplit zero lo hi enough order inside before after = absurd (omega arith)
  bisect_right-IsSplit (suc fuel) lo hi enough order inside before after =
      elim (Bool-cases (ltb lo hi)) [
        | inr done ↦ rw done (record {
          inside = omega arith;
          before = before;
          after = λ i p q. after i (ground arith) q;
        })
        | inl more ↦
            let mid = (lo + hi) / 2 in
            let less : lo < hi = ltb→lt lo hi more in
            elim (Bool-cases (ltb pc (base + begin_at entries mid))) [
              | inl left ↦ rw more (
                  rw left (
                    bisect_right-IsSplit fuel lo mid (omega arith) (omega arith) (omega arith)
                      before
                      (λ i p q.
                        omega
                          (arith, sorted mid i p q, ltb→lt pc (base + begin_at entries mid) left))))
              | inr right ↦ rw more (
                  rw right (
                    bisect_right-IsSplit fuel (mid + 1) hi (omega arith) (omega arith) inside
                      (λ i p. ground (arith, sorted i mid, right)) after))
            ]
      ]

-- the last entry below the split is the one that holds the pc, if one does
unfoldable pub end_at : List Entry → ℕ → ℕ
end_at [] i = 0
end_at (e ∷ entries) zero = e.1
end_at (e ∷ entries) (suc i) = end_at entries i

abbrev pub AreApart : List Entry → Type 0
AreApart entries = (i j : ℕ) → i < j → j < length entries → end_at entries i ≤ begin_at entries j

module _ (base pc : ℕ) (entries : List Entry) where
  -- In a sorted table whose entries do not overlap, the entry that holds the pc, if there is one, is
  -- the entry that the binary search selects.
  pub bisect_right-holds :
      (i : ℕ)
      → IsAscending entries
      → AreApart entries
      → i < length entries
      → base + begin_at entries i ≤ pc
      → pc < base + end_at entries i
      → bisect_right (suc (length entries)) base pc entries 0 (length entries) ≡ suc i
  bisect_right-holds i sorted apart inside from to =
      let n = bisect_right (suc (length entries)) base pc entries 0 (length entries) in
      let found : IsSplit base pc entries n =
        bisect_right-IsSplit base pc entries sorted (suc (length entries)) 0 (length entries)
          (omega arith) (omega arith) (omega arith) (λ j p. absurd (omega arith))
          (λ j p q. absurd (omega arith)) in
      elim (Bool-cases (ltb n (suc i))) [
        | inl low ↦ absurd (omega (arith, found.after i (ground arith) inside))
        | inr high ↦ elim (Bool-cases (n == suc i)) [
          | inl same ↦ (==_iff n (suc i)).0 same
          | inr above ↦ absurd (
              omega (
                arith,
                found.before (suc i) (ground arith),
                found.inside,
                apart i (suc i) (omega arith) (ground (arith, found.inside)),
              ))
        ]
      ]

-- In a .pdata table that is sorted and does not overlap, where entry `i` holds the pc and its bytes
-- are read as a function with that begin and end, the lookup of the pc gives that function if its
-- unwind info is even, and the primary function that is read at the unwind info less 1 if it is odd.
pub search_pdata-entry_at :
    (read : Reader) (image_base rva size pc i : ℕ) (bytes : List ℕ) (entries : List Entry)
    (fn result : RuntimeFunction)
    → read_bytes read (pos (image_base + rva)) (size - size % 12) ≡ ok bytes
    → iter_unpack bytes ≡ ok entries
    → IsAscending entries
    → AreApart entries
    → i < length entries
    → image_base + begin_at entries i ≤ pc
    → pc < image_base + end_at entries i
    → read_runtime_function read image_base (image_base + rva + 12 * i) ≡ ok fn
    → fn.begin ≡ begin_at entries i
    → fn.end ≡ end_at entries i
    → ((fn.unwind_info % 2 ≡ 0) × (result ≡ fn))
      ⊎ ((fn.unwind_info % 2 ≡ 1)
          × (read_runtime_function read image_base (image_base + (fn.unwind_info - 1)) ≡ ok result))
    → search_pdata read image_base rva size pc ≡ ok (some result)
unfolding search_pdata entry_at holds primary
search_pdata-entry_at read image_base rva size pc i bytes entries fn result whole decoded sorted
      apart inside from to entry begins ends kind =
    let some_entry : (suc i == 0) ≡ false = ground arith in
    let selected : suc i - 1 ≡ i = omega arith in
    let lower : leb (image_base + fn.begin) pc ≡ true = rw begins (ground arith) in
    let upper : ltb pc (image_base + fn.end) ≡ true = rw ends (ground arith) in
    rw whole (
      rw decoded (
        rw (bisect_right-holds image_base pc entries i sorted apart inside from to) (
          rw (some_entry, selected)
            (rw entry (
              rw (lower, upper)
                (elim kind [
                  | inl (even, same) ↦
                      let usual : (fn.unwind_info % 2 == 1) ≡ false = ground arith in
                      rw (usual, same) refl
                  | inr (odd, read_primary) ↦
                      let chained : (fn.unwind_info % 2 == 1) ≡ true = ground arith in
                      rw chained (rw read_primary refl)
                ]))))))
