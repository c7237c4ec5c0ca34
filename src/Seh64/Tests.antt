-- ===== src/Seh64/Tests.antt =====
-- Runs of the x64 dispatch on concrete guests.
use speakeasy.Base.{true, none, List, [], ◌∷◌, ◌≡◌, ◌≢◌, refl, if◌then◌else◌, ◌==◌}
use speakeasy.Unwind.{
  from_bytes, read_bytes, unpack, u16, u32, u64, entry_of, entries_of, iter_unpack,
  read_runtime_function,
}
use speakeasy.Unwind.Info.{read_codes, info_of, count_of, read_unwind_info}
use speakeasy.Unwind.Table.{
  FunctionTable, holds, find_entry, read_page, search_pages, search_function_table,
}
use speakeasy.Unwind.Frame.{
  Context, set_gpr, add_rsp, prolog_offset_of, is_chained, any_set_fpreg, establisher_frame,
  undo_codes, undo_chain, has_common_bit, handler_of, unwind_leaf, virtual_unwind,
}
use speakeasy.Unwind.Frame.Prolog.{Bytes, load, store, to_bytes}
use speakeasy.Callbacks.{alloca, aligned, scratch_to}
use speakeasy.Seh.{Guest, World, ok, resume, value, alloc, mem_read, mem_write, set_flag, resume_at}
use speakeasy.Seh.Records.{
  ExceptionRecord, read_record, record_of, pack, record_bytes, exception_record, masked,
}
use speakeasy.Seh.Dispatch.{is_noncontinuable}
use speakeasy.Seh.ByteMachine.{Machine, machine_guest, world}
use speakeasy.Seh32.{unwind_flags}
use speakeasy.Seh64.{
  Modules, find_in_tables, or_tables, then_tables, find_in_module, find_function, unwound_turn,
  found_turn, turn,
}
use speakeasy.Seh64.Frames.{
  dispatch_exception, unwind_to, rtl_unwind_ex, is_target, target_context, unwind_frame,
  unwind_turn, unwind_walk, unwind_record,
}
use speakeasy.Unwind
use speakeasy.Seh64.Tables.{
  read_pages, min_begin, max_end, append_table, added, add_function_table, delete_function_table,
  delete_function_table-add_function_table,
}
use speakeasy.Seh64.Walk.{AtTarget, dispatch_exception-noncontinuable, rtl_unwind_ex-AtTarget}

abbrev context : Context
context = record { gpr = λ r. if r == 4 then 0x900 else 0; rip = 0x5010; xmm = λ r. (0, 0) }

abbrev guest : Guest Context
guest = machine_guest 8 context (λ c. to_bytes 8 c.rip) (λ bytes. context) (λ c. c.rip)

-- a table at 0x3000 with one function, from 0x5000 to 0x5100, whose unwind info is at 0x5200
abbrev modules : Modules Machine
modules = record {
  module_base = λ s pc. none;
  tables = λ s.
      record {
        identifier = 0x3000;
        base = 0x5000;
        begin = 0x5000;
        end = 0x5100;
        count = 1;
        callback = 0;
      }
      ∷ [];
  callbacks = λ s. [];
}

-- the flags of an exception at 0x2000 are 1
abbrev memory : Bytes
memory x =
    if x == 0x2004
    then 1
    else if x == 0x3005
    then 1
    else if x == 0x3009
    then 2
    else if x == 0x5200
    then 1
    else 0

abbrev machine : Machine
machine = record { memory = memory }

abbrev fields : ExceptionRecord
fields = record_of 8 (load memory 0x2000 152)

read_fields : read_record guest 0x2000 (world machine) ≡ (ok fields, world machine)
unfolding read_record mem_read
read_fields = refl

fields_flags : is_noncontinuable fields.flags ≡ true
unfolding is_noncontinuable record_of from_bytes load
fields_flags = refl

dispatch_exception-noncontinuable_example :
    (dispatch_exception guest modules 0x2000 0x3000 (world machine)).0 ≢ ok (value 0)
dispatch_exception-noncontinuable_example =
    dispatch_exception-noncontinuable guest modules 0x2000 0x3000 (world machine) (world machine)
      fields read_fields fields_flags (value 0)

-- an unwind to the frame at 0x900
abbrev after : World Machine
after = (rtl_unwind_ex guest modules 0x900 0x5050 0 7 (world machine)).1

abbrev target : Context
target = target_context 0x5050 7 context

unwind_ok :
    rtl_unwind_ex guest modules 0x900 0x5050 0 7 (world machine) ≡ (ok (resume target), after)
unfolding rtl_unwind_ex unwind_to unwind_record unwind_walk unwind_turn unwind_frame is_target
    resume_at alloc mem_write load store alloca aligned scratch_to from_bytes to_bytes record_bytes
    pack exception_record masked set_flag unwind_flags turn found_turn find_function find_in_module
    then_tables or_tables find_in_tables unwound_turn search_function_table search_pages read_page
    iter_unpack entries_of entry_of read_bytes find_entry holds read_runtime_function virtual_unwind
    read_unwind_info info_of count_of read_codes establisher_frame prolog_offset_of is_chained
    any_set_fpreg undo_chain undo_codes handler_of has_common_bit unwind_leaf u64 u32 unpack add_rsp
    set_gpr target_context
unwind_ok = refl

rtl_unwind_ex-AtTarget_example : AtTarget 0x5050 7 (resume target)
rtl_unwind_ex-AtTarget_example =
    rtl_unwind_ex-AtTarget guest modules 0x900 0x5050 0 7 (world machine) after (resume target)
      unwind_ok

-- a table of one function that the sample adds to those of the modules
abbrev added_tables : List FunctionTable
added_tables =
    record {
      identifier = 0x3001;
      base = 0x5000;
      begin = 0x5000;
      end = 0x5000;
      count = 1;
      callback = 0;
    }
    ∷ []

abbrev tables_after : List FunctionTable
tables_after =
    record {
      identifier = 0x3001;
      base = 0x5000;
      begin = 0x5000;
      end = 0x5000;
      count = 1;
      callback = 0;
    }
    ∷ record {
      identifier = 0x3000;
      base = 0x6000;
      begin = 0x6000;
      end = 0x6100;
      count = 1;
      callback = 0;
    }
    ∷ []

added_ok :
    add_function_table (guest.read machine) 0x3000 1 0x6000 added_tables
    ≡ Unwind.ok (true, tables_after)
unfolding add_function_table added append_table read_pages read_page read_bytes iter_unpack
    entries_of entry_of from_bytes load min_begin max_end
added_ok = refl

delete_function_table-add_function_table_example :
    delete_function_table 0x3000 tables_after ≡ (true, added_tables)
delete_function_table-add_function_table_example =
    delete_function_table-add_function_table (guest.read machine) 0x3000 1 0x6000 added_tables
      tables_after (refl, tt) added_ok
