-- ===== src/Seh/Entry.antt =====
-- The entry points of speakeasy/windows/seh.py, over the dispatcher of an architecture.
use speakeasy.Base.{ℕ, ◌+◌, Option, none, some, List, if◌then◌else◌}
use speakeasy.Base.Int.{in_field}
use speakeasy.Seh.{
  Guest, World, Unhandled, Outcome, ok, failed, unhandled, no_return, M, ◌>>=◌, ◌>>◌, Result, value,
  write_ptr, alloc, read_context, resume_at,
}
use speakeasy.Seh.Cpu.{CpuException}
use speakeasy.Seh.Records.{exception_record, record_bytes}
use speakeasy.Seh.Dispatch.{is_noncontinuable}

module _ {Context : Type 0} (g : Guest Context)
    (dispatch_exception : ℕ → ℕ → M g.State (Result Context)) where
  unfoldable pub raise_in_caller : ℕ → ℕ → List ℕ → M g.State (Result Context)
  raise_in_caller code flags params w =
      (do
        let ctx = g.caller_context w.guest
        record_address ← alloc g (
            record_bytes g.ptr_size
              (exception_record g.ptr_size code flags (g.instruction_pointer ctx) params))
        context ← alloc g (g.encode_context ctx)
        dispatch_exception record_address context)
        w

  -- the `except UnhandledException` of `raise_exception`
  unfoldable pub or_zero :
      ℕ → Outcome (Result Context) × World g.State → Outcome (Result Context) × World g.State
  or_zero flags (unhandled u, w) =
      if is_noncontinuable flags then (unhandled u, w) else (ok (value 0), w)
  or_zero flags (ok r, w) = (ok r, w)
  or_zero flags (failed e, w) = (failed e, w)
  or_zero flags (no_return, w) = (no_return, w)

  unfoldable pub raise_exception : ℕ → ℕ → List ℕ → M g.State (Result Context)
  raise_exception code flags params w = or_zero flags (raise_in_caller code flags params w)

  unfoldable pub rtl_raise_exception : ℕ → M g.State (Result Context)
  rtl_raise_exception record_address w =
      (do
        let ctx = g.caller_context w.guest
        write_ptr g (record_address + (8 + g.ptr_size)) (g.instruction_pointer ctx)
        context ← alloc g (g.encode_context ctx)
        dispatch_exception record_address context)
        w

  -- the error of `dispatch_fault` for an exception that no handler takes
  unfoldable pub or_error :
      Option Unhandled
      → Outcome (Result Context) × World g.State
      → Outcome (Result Context) × World g.State
  or_error (some error) (unhandled u, w) = (unhandled error, w)
  or_error none (unhandled u, w) = (unhandled u, w)
  or_error error (ok r, w) = (ok r, w)
  or_error error (failed e, w) = (failed e, w)
  or_error error (no_return, w) = (no_return, w)

  -- `guest_callbacks.current(emu).context = context`
  abbrev set_handler_context : ℕ → M g.State (Unit {0})
  set_handler_context context w =
      (ok tt, record w { handler = record w.handler { context = context } })

  -- the inner `dispatch` of `dispatch_fault`, at the context of the fault
  unfoldable pub dispatch_cpu_exception :
      CpuException → Option Unhandled → Context → M g.State (Result Context)
  dispatch_cpu_exception e error ctx = do
    context ← alloc g (g.encode_context ctx)
    set_handler_context context
    (λ w. or_error error (
        (do
          record_address ← alloc g (
              record_bytes g.ptr_size
                (exception_record g.ptr_size e.code 0 (in_field g.ptr_size e.address) e.params))
          dispatch_exception record_address context)
          w))

  -- RtlRestoreContext and NtContinue
  unfoldable pub restore_context : ℕ → M g.State (Result Context)
  restore_context address = do ctx ← read_context g address; resume_at g ctx
