-- ===== src/Unwind/Table/Linear.antt =====
-- `search_function_table` of speakeasy/windows/unwind.py reads a table page by page. It is the
-- linear search of the whole table.
use speakeasy.Base.{ℕ, ◌+◌, ◌*◌, Option, none, some, List}
use speakeasy.Unwind.{Result, ok, ◌>>=◌, Reader, Entry, RuntimeFunction, read_runtime_function}
use speakeasy.Unwind.Table.{FunctionTable}

abbrev or_else : Option ℕ → Option ℕ → Option ℕ
or_else none other = other
or_else (some i) other = some i

module _ (read : Reader) (table : FunctionTable) (pc : ℕ) (entries : List Entry) where
  -- the entry of the linear search
  abbrev pub entry_read : Option ℕ → Result (Option RuntimeFunction)
  entry_read none = ok none
  entry_read (some i) = do
    fn ← read_runtime_function read table.base (table.identifier + 12 * i)
    ok (some fn)
