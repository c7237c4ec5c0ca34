-- ===== src/Seh64/Tables.antt =====
-- The API of the function tables, of speakeasy/windows/seh64.py.
use speakeasy.Base.{
  ℕ, zero, suc, ◌+◌, ◌%◌, Bool, true, false, Option, none, some, List, [], ◌∷◌, ◌++◌, ◌==◌, ◌≡◌,
  if◌then◌else◌,
}
use Prim.Native.Nat.{min, max}
use speakeasy.Base.Int.{pos}
use speakeasy.Unwind.{Reader, Entry, RuntimeFunction, read_runtime_function}
use speakeasy.Unwind
use speakeasy.Unwind.Frame.{Context, virtual_unwind}
use speakeasy.Unwind.Table.{FunctionTable, read_page, per_page}
use speakeasy.Seh.{Guest, M, ◌>>=◌, ◌>>◌, return, from_result, mem_write, write_ptr, read_context}
use speakeasy.Seh64.{Modules, find_function}
use speakeasy.Seh64.Frames.{packed}
use speakeasy.Base.{ltb, All, ==_iff, refl, sym, ap}

-- the entries of all pages of a table from `first` on; `count + 1` units of fuel are enough, as each
-- page has one entry at least
unfoldable pub read_pages : ℕ → Reader → FunctionTable → ℕ → Unwind.Result (List Entry)
read_pages zero read table first = Unwind.ok []
read_pages (suc fuel) read table first =
    let rest = read_pages fuel read table (first + per_page) in
    if ltb first table.count then with_page (read_page read table first) rest else Unwind.ok []
  where
    with_page : Unwind.Result (List Entry) → Unwind.Result (List Entry) → Unwind.Result (List Entry)
    with_page (Unwind.raise e) rest = Unwind.raise e
    with_page (Unwind.ok page) (Unwind.raise e) = Unwind.raise e
    with_page (Unwind.ok page) (Unwind.ok entries) = Unwind.ok (page ++ entries)

-- the smallest begin and the largest end of entries
unfoldable pub min_begin : ℕ → List Entry → ℕ
min_begin best [] = best
min_begin best (e ∷ entries) = min_begin (min best e.0) entries

unfoldable pub max_end : ℕ → List Entry → ℕ
max_end best [] = best
max_end best (e ∷ entries) = max_end (max best e.1) entries

-- the table with its bounds, if it has entries
unfoldable pub append_table :
    ℕ → ℕ → ℕ → List Entry → List FunctionTable → Bool × List FunctionTable
append_table table count base [] tables = (false, tables)
append_table table count base (e ∷ entries) tables = (
  true,
  tables
      ++ record {
        identifier = table;
        base = base;
        begin = base + min_begin e.0 entries;
        end = base + max_end e.1 entries;
        count = count;
        callback = 0;
      }
        ∷ [],
)

unfoldable pub added :
    ℕ
    → ℕ
    → ℕ
    → List FunctionTable
    → Unwind.Result (List Entry)
    → Unwind.Result (Bool × List FunctionTable)
added table count base tables (Unwind.raise e) = Unwind.raise e
added table count base tables (Unwind.ok entries) =
    Unwind.ok (append_table table count base entries tables)

unfoldable pub add_function_table :
    Reader → ℕ → ℕ → ℕ → List FunctionTable → Unwind.Result (Bool × List FunctionTable)
add_function_table read table count base tables = added table count base tables (
    read_pages (suc count) read
      (record { identifier = table; base = base; begin = 0; end = 0; count = count; callback = 0 })
      0)

unfoldable pub install_function_table_callback :
    ℕ → ℕ → ℕ → ℕ → List FunctionTable → Bool × List FunctionTable
install_function_table_callback identifier base length callback tables =
    if identifier % 4 == 3
    then (
      true,
      tables
          ++ record {
            identifier = identifier;
            base = base;
            begin = base;
            end = base + length;
            count = 0;
            callback = callback;
          }
            ∷ [],
    )
    else (false, tables)

-- The first table of the identifier goes. `remove` compares all fields, and an equal table before it
-- would have its identifier.
unfoldable pub delete_function_table : ℕ → List FunctionTable → Bool × List FunctionTable
delete_function_table identifier [] = (false, [])
delete_function_table identifier (t ∷ tables) =
    let rest = delete_function_table identifier tables in
    if t.identifier == identifier then (true, tables) else (rest.0, t ∷ rest.1)

module _ (g : Guest Context) (ms : Modules g.State) where
  -- the base of the image, if the caller wants it, and the address of the entry
  unfoldable pub entry_of_function : ℕ → Option RuntimeFunction → M g.State ℕ
  entry_of_function image_base_out none = return 0
  entry_of_function image_base_out (some fn) = do
    (if image_base_out == 0 then return tt else write_ptr g image_base_out fn.image_base)
    return fn.address

  unfoldable pub lookup_function_entry : ℕ → ℕ → M g.State ℕ
  lookup_function_entry pc image_base_out w =
      (do fn ← from_result (find_function g ms w.guest pc); entry_of_function image_base_out fn) w

  -- RtlVirtualUnwind
  unfoldable pub rtl_virtual_unwind : ℕ → ℕ → ℕ → ℕ → ℕ → ℕ → ℕ → M g.State ℕ
  rtl_virtual_unwind handler_type image_base pc entry context handler_data_out frame_out w =
      (do
        fn ← from_result (read_runtime_function (g.read w.guest) image_base entry)
        ctx ← read_context g context
        (info, caller) ← from_result (virtual_unwind (g.read w.guest) fn pc ctx handler_type)
        mem_write g (pos context) (g.encode_context caller)
        write_ptr g handler_data_out info.handler_data
        frame ← packed info.establisher_frame
        write_ptr g frame_out frame
        return info.handler)
        w

-- The table of the identifier is the last one: it goes, and the others stay.
delete_last :
    (identifier : ℕ) (tables : List FunctionTable) (t : FunctionTable)
    → All (λ (u : FunctionTable). (u.identifier == identifier) ≡ false) tables
    → t.identifier ≡ identifier
    → delete_function_table identifier (tables ++ t ∷ []) ≡ (true, tables)
unfolding delete_function_table
delete_last identifier [] t others here = rw ((==_iff t.identifier identifier).1 here) refl
delete_last identifier (u ∷ tables) t others here =
    rw (others.0, delete_last identifier tables t others.1 here) refl

-- RtlDeleteFunctionTable with the identifier of a table that RtlAddFunctionTable added succeeds and
-- gives the tables before the call back, if none of them had this identifier.
pub delete_function_table-add_function_table :
    (read : Reader) (table count base : ℕ) (tables tables' : List FunctionTable)
    → All (λ (u : FunctionTable). (u.identifier == table) ≡ false) tables
    → add_function_table read table count base tables ≡ Unwind.ok (true, tables')
    → delete_function_table table tables' ≡ (true, tables)
unfolding add_function_table added append_table
delete_function_table-add_function_table read table count base tables tables' others eq =
    of_entries (read_pages (suc count) read _ 0) eq
  where
    of_entries :
        (r : Unwind.Result (List Entry))
        → added table count base tables r ≡ Unwind.ok (true, tables')
        → delete_function_table table tables' ≡ (true, tables)
    of_entries (Unwind.raise e) eq = cc eq
    of_entries (Unwind.ok []) eq = cc eq
    of_entries (Unwind.ok (e ∷ entries)) eq =
        rw (sym (ap (λ o. tables_of o) eq)) (delete_last table tables _ others refl)
      where
        tables_of : Unwind.Result (Bool × List FunctionTable) → List FunctionTable
        tables_of (Unwind.ok (b, ts)) = ts
        tables_of (Unwind.raise e) = tables
