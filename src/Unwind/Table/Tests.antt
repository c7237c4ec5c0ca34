-- ===== src/Unwind/Table/Tests.antt =====
-- A .pdata table of two entries at 0x3000 of an image at 0x10000.
use speakeasy.Base.{ℕ, zero, suc, ◌+◌, ◌≤◌, ◌<◌, ◌≡◌, refl, inl, some, none, List, [], ◌∷◌, arith}
use speakeasy.Base.Int.{pos, negsuc}
use speakeasy.Unwind.{
  ok, Reader, read_bytes, from_bytes, Entry, entry_of, entries_of, iter_unpack, RuntimeFunction,
  read_runtime_function,
}
use speakeasy.Unwind.Frame.Prolog.{load, store}
use speakeasy.Unwind.Table.{
  FunctionTable, begin_at, bisect_right, holds, primary, entry_at, search_pdata,
}
use speakeasy.Unwind.Table.Bisect.{end_at, IsAscending, AreApart, search_pdata-entry_at}

program : Unit {0}
unfolding read_bytes from_bytes entry_of entries_of iter_unpack read_runtime_function load store
    begin_at bisect_right holds primary entry_at search_pdata end_at
program = tt

-- begins, ends and unwind infos: 0x100 to 0x180, and 0x200 to 0x240
abbrev table : List ℕ
table =
    0 ∷ 1 ∷ 0 ∷ 0 ∷ 0x80 ∷ 1 ∷ 0 ∷ 0 ∷ 0 ∷ 0x20 ∷ 0 ∷ 0 ∷ 0 ∷ 2 ∷ 0 ∷ 0 ∷ 0x40 ∷ 2 ∷ 0 ∷ 0 ∷ 0
    ∷ 0x21 ∷ 0 ∷ 0 ∷ []

abbrev entries : List Entry
entries = (0x100, 0x180, 0x2000) ∷ (0x200, 0x240, 0x2100) ∷ []

abbrev reader : Reader
unfolding load store
reader (pos a) n = some (load (store (λ x. 0) 0x13000 table) a n)
reader (negsuc a) n = none

whole : read_bytes reader (pos 0x13000) 24 ≡ ok table
unfolding program
whole = refl

decoded : iter_unpack table ≡ ok entries
unfolding program
decoded = refl

sorted : IsAscending entries
unfolding program
sorted zero zero p q = omega arith
sorted zero (suc zero) p q = omega arith
sorted (suc zero) (suc zero) p q = omega arith
sorted (suc i) zero p q = absurd (omega arith)
sorted zero (suc (suc j)) p q = absurd (omega arith)
sorted (suc zero) (suc (suc j)) p q = absurd (omega arith)
sorted (suc (suc i)) (suc j) p q = absurd (omega arith)

apart : AreApart entries
unfolding program
apart zero zero p q = absurd (omega arith)
apart zero (suc zero) p q = omega arith
apart (suc i) zero p q = absurd (omega arith)
apart (suc i) (suc zero) p q = absurd (omega arith)
apart zero (suc (suc j)) p q = absurd (omega arith)
apart (suc i) (suc (suc j)) p q = absurd (omega arith)

from : 0x10000 + begin_at entries 1 ≤ 0x10210
unfolding program
from = omega arith

to : 0x10210 < 0x10000 + end_at entries 1
unfolding program
to = omega arith

-- the second entry
abbrev second : RuntimeFunction
second = record {
  image_base = 0x10000;
  address = 0x1300C;
  begin = 0x200;
  end = 0x240;
  unwind_info = 0x2100;
}

second_read : read_runtime_function reader 0x10000 0x1300C ≡ ok second
unfolding program
second_read = refl

second_begins : second.begin ≡ begin_at entries 1
unfolding program
second_begins = refl

second_ends : second.end ≡ end_at entries 1
unfolding program
second_ends = refl

search_pdata-entry_at_example : search_pdata reader 0x10000 0x3000 24 0x10210 ≡ ok (some second)
search_pdata-entry_at_example =
    search_pdata-entry_at reader 0x10000 0x3000 24 0x10210 1 table entries second second whole
      decoded sorted apart (omega arith) from to second_read second_begins second_ends
      (inl (refl, refl))

found : search_pdata reader 0x10000 0x3000 24 0x10210 ≡ ok (some second)
unfolding program
found = refl

abbrev added : FunctionTable
added = record {
  identifier = 0x13000;
  base = 0x10000;
  begin = 0x10000;
  end = 0x20000;
  count = 2;
  callback = 0;
}
