-- ===== src/Unwind/Table.antt =====
-- The function tables of speakeasy/windows/unwind.py: the search of a table that the sample added,
-- and of the .pdata of an image.
pub mod Bisect
pub mod Linear
mod Tests
use speakeasy.Base.{
  ℕ, zero, suc, ◌+◌, ◌-◌, ◌*◌, ◌/◌, ◌%◌, Bool, ◌&&◌, Option, none, some, List, [], ◌∷◌, length,
  take, drop, ltb, leb, ◌==◌, if◌then◌else◌,
}
use Prim.Native.Nat.{min}
use speakeasy.Base.Int.{pos}
use speakeasy.Unwind.{
  Result, ok, ◌>>=◌, Reader, read_bytes, unpack, from_bytes, u32, Entry, iter_unpack,
  RuntimeFunction, read_runtime_function,
}

pub record FunctionTable : Type 0 where
  pub identifier : ℕ
  pub base : ℕ
  pub begin : ℕ
  pub end : ℕ
  pub count : ℕ
  pub callback : ℕ

-- per_page of `read_function_table`
abbrev pub per_page : ℕ
per_page = 0x1000 / 12

-- `begin <= pc - base < end`; the difference can be negative
unfoldable pub holds : ℕ → ℕ → Entry → Bool
holds base pc e = leb (base + e.0) pc && ltb pc (base + e.1)

-- the index of the first entry that holds the pc, counted from `i`
unfoldable pub find_entry : ℕ → ℕ → ℕ → List Entry → Option ℕ
find_entry base pc i [] = none
find_entry base pc i (e ∷ entries) =
    if holds base pc e then some i else find_entry base pc (i + 1) entries

-- read_function_table: the entries from `first` on, one page of them
unfoldable pub read_page : Reader → FunctionTable → ℕ → Result (List Entry)
read_page read table first = do
  bytes ←
      read_bytes read (pos (table.identifier + 12 * first))
        (12 * min per_page (table.count - first))
  iter_unpack bytes

-- The loop over the pages of the table, which reads a page only when the pages before it do not
-- hold the pc. One unit of fuel is one page; `count + 1` units are enough.
unfoldable pub search_pages : ℕ → Reader → FunctionTable → ℕ → ℕ → Result (Option RuntimeFunction)
search_pages zero read table pc first = ok none
search_pages (suc fuel) read table pc first =
    let page = (do
      entries ← read_page read table first
      (elim (find_entry table.base pc first entries) [
        | some i ↦ (do
          fn ← read_runtime_function read table.base (table.identifier + 12 * i)
          ok (some fn))
        | none ↦ search_pages fuel read table pc (first + per_page)
      ])) in
    if ltb first table.count then page else ok none

unfoldable pub search_function_table : Reader → FunctionTable → ℕ → Result (Option RuntimeFunction)
search_function_table read table pc = search_pages (suc table.count) read table pc 0

unfoldable pub begin_at : List Entry → ℕ → ℕ
begin_at [] i = 0
begin_at (e ∷ entries) zero = e.0
begin_at (e ∷ entries) (suc i) = begin_at entries i

-- bisect.bisect_right(begins, pc - base) between `lo` and `hi`, with one unit of fuel a round
unfoldable pub bisect_right : ℕ → ℕ → ℕ → List Entry → ℕ → ℕ → ℕ
bisect_right zero base pc entries lo hi = lo
bisect_right (suc fuel) base pc entries lo hi =
    let mid = (lo + hi) / 2 in
    let before = ltb pc (base + begin_at entries mid) in
    let rest =
      bisect_right fuel base pc entries (if before then lo else mid + 1)
        (if before then mid else hi) in
    if ltb lo hi then rest else lo

-- an entry whose unwind info is odd points at the primary entry
unfoldable pub primary : Reader → ℕ → RuntimeFunction → Result RuntimeFunction
primary read image_base fn =
    if fn.unwind_info % 2 == 1
    then read_runtime_function read image_base (image_base + (fn.unwind_info - 1))
    else ok fn

-- the entry at index `i` of the table, if it holds the pc
unfoldable pub entry_at : Reader → ℕ → ℕ → ℕ → ℕ → Result (Option RuntimeFunction)
entry_at read image_base table pc i = do
  fn ← read_runtime_function read image_base (table + 12 * i)
  (if holds image_base pc (fn.begin, fn.end, fn.unwind_info)
      then (do f ← primary read image_base fn; ok (some f))
      else ok none)

unfoldable pub search_pdata : Reader → ℕ → ℕ → ℕ → ℕ → Result (Option RuntimeFunction)
search_pdata read image_base rva size pc = do
  let table = image_base + rva
  bytes ← read_bytes read (pos table) (size - size % 12)
  entries ← iter_unpack bytes
  let n = bisect_right (suc (length entries)) image_base pc entries 0 (length entries)
  if n == 0 then ok none else entry_at read image_base table pc (n - 1)

unfoldable pub is_mz : List ℕ → Bool
is_mz (a ∷ b ∷ []) = a == b'M' && b == b'Z'
is_mz bytes = Bool.false

-- the address and the size of the exception directory, from the headers
unfoldable pub read_directory : Reader → ℕ → Result (ℕ × ℕ)
read_directory read image_base = do
  e_lfanew ← u32 read (pos (image_base + 0x3C))
  bytes ← read_bytes read (pos (image_base + e_lfanew + 0x18 + 0x70 + 8 * 3)) 8
  _ ← unpack 8 bytes
  ok (from_bytes (take 4 bytes), from_bytes (drop 4 bytes))

unfoldable pub lookup_image : Reader → ℕ → ℕ → Result (Option RuntimeFunction)
lookup_image read image_base pc = do
  (rva, size) ← read_directory read image_base
  (if rva == 0 then ok none else search_pdata read image_base rva size pc)

unfoldable pub lookup_function_entry : Reader → ℕ → ℕ → Result (Option RuntimeFunction)
lookup_function_entry read image_base pc = do
  magic ← read_bytes read (pos image_base) 2
  (if is_mz magic then lookup_image read image_base pc else ok none)
