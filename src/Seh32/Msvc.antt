-- ===== src/Seh32/Msvc.antt =====
-- `MsvcFrame` and the language handlers of MSVC frames, of speakeasy/windows/seh32.py.
use Prim.Native.Nat.{bit_xor}
use speakeasy.Base.{
  ℕ, zero, suc, ◌+◌, ◌*◌, ◌/◌, ◌%◌, ◌^◌, Bool, true, false, ◌||◌, not, List, [], ◌∷◌, ◌++◌, ◌==◌,
  if◌then◌else◌, take, drop,
}
use speakeasy.Base.Int.{ℤ, pos, negsuc, sub_ℕ}
use speakeasy.Unwind.{from_bytes}
use speakeasy.Unwind.Frame.Prolog.{to_bytes}
use speakeasy.Seh.{
  Guest, M, ◌>>=◌, ◌>>◌, return, Result, value, as_long, mem_read, read_u32, write_u32, alloc,
  guest_call, read_context, resume_at,
}
use speakeasy.Seh32.{Context32, max_frames, reg_ebp, unwind_registrations}

-- MsvcFrame: its scope table is behind the header, `none_level` is outside of all scopes
pub record Frame : Type 0 where
  pub registration : ℕ
  pub ebp : ℕ
  pub scope_table : ℕ
  pub none_level : ℕ

-- MsvcFrame.__init__; FRAME_POINTER is 0x10
unfoldable pub frame_init : ℕ → ℕ → ℕ → ℕ → Frame
frame_init registration scope_table header none_level = record {
  registration = registration;
  ebp = registration + 0x10;
  scope_table = scope_table + header;
  none_level = none_level;
}

-- the enclosing level, the filter (0 for a __finally) and the handler of a scope
pub record Scope : Type 0 where
  pub enclosing : ℕ
  pub filter : ℕ
  pub handler : ℕ

unfoldable pub scope_of : List ℕ → Scope
scope_of bytes = record {
  enclosing = from_bytes (take 4 bytes);
  filter = from_bytes (take 4 (drop 4 bytes));
  handler = from_bytes (drop 8 bytes);
}

-- `flags & UNWINDING`
unfoldable pub is_unwinding : ℕ → Bool
is_unwinding flags = not (flags / 2 % 4 == 0)

-- what a filter decides: below 0, 0 and above 0
pub data Verdict : Type 0 where
  continue_execution : Verdict
  continue_search : Verdict
  execute_handler : Verdict

unfoldable pub verdict_of : ℤ → Verdict
verdict_of (pos zero) = continue_search
verdict_of (pos (suc n)) = execute_handler
verdict_of (negsuc n) = continue_execution

module _ (g : Guest Context32) where
  -- the property `try_level`, at 0x0C of the registration, and its setter
  unfoldable pub try_level : Frame → M g.State ℕ
  try_level f = read_u32 g (pos (f.registration + 0x0C))

  unfoldable pub set_try_level : Frame → ℕ → M g.State (Unit {0})
  set_try_level f level = write_u32 g (pos (f.registration + 0x0C)) level

  unfoldable pub scope : Frame → ℕ → M g.State Scope
  scope f level = do
    bytes ← mem_read g (pos (f.scope_table + 12 * level)) 12
    return (scope_of bytes)

  -- MsvcFrame.call
  unfoldable pub frame_call : Frame → ℕ → M g.State ℕ
  frame_call f function =
      guest_call g (record { function = function; args = []; registers = (reg_ebp, f.ebp) ∷ [] })

  -- the __finally block of a scope that has no filter
  unfoldable pub finally_call : Frame → Scope → M g.State (Unit {0})
  finally_call f s = if s.filter == 0 then (do _ ← frame_call f s.handler; return tt) else return tt

  -- the loop of `local_unwind`
  unfoldable pub leave_scopes : ℕ → Frame → ℕ → M g.State (Unit {0})
  leave_scopes zero f stop = return tt
  leave_scopes (suc n) f stop = do
    level ← try_level f
    (elim (level == f.none_level || level == stop) [
      | true ↦ return tt
      | false ↦ (do
        again ← try_level f
        s ← scope f again
        set_try_level f s.enclosing
        finally_call f s
        leave_scopes n f stop)
    ])

  unfoldable pub local_unwind : Frame → ℕ → M g.State (Unit {0})
  local_unwind f stop = leave_scopes max_frames f stop

  -- an __except block: unwind the inner frames and scopes, then continue at the block
  unfoldable pub execute_block : Frame → ℕ → ℕ → ℕ → Scope → M g.State (Result Context32)
  execute_block f record_address context level s = do
    unwind_registrations g f.registration record_address
    local_unwind f level
    set_try_level f s.enclosing
    ctx ← read_context g context
    esp ← read_u32 g (sub_ℕ f.registration 8)
    resume_at g (record ctx { ebp = f.ebp % 2 ^ 32; esp = esp; eip = s.handler })

  -- the loop of `msvc_handler` over the scopes; ExceptionContinueSearch is 1
  unfoldable pub run_filters : ℕ → Frame → ℕ → ℕ → ℕ → M g.State (Result Context32)
  run_filters zero f record_address context level = return (value 1)
  run_filters (suc n) f record_address context level = elim (level == f.none_level) [
    | true ↦ return (value 1)
    | false ↦ (do
      s ← scope f level
      (elim (s.filter == 0) [
        | true ↦ run_filters n f record_address context s.enclosing
        | false ↦ (do
          verdict ← frame_call f s.filter
          (elim (verdict_of (as_long verdict)) [
            | continue_execution ↦ return (value 0)
            | execute_handler ↦ execute_block f record_address context level s
            | continue_search ↦ run_filters n f record_address context s.enclosing
          ]))
      ]))
  ]

  -- the branch of `msvc_handler` that runs filters; EXCEPTION_POINTERS is -0x04
  unfoldable pub search_scopes : Frame → ℕ → ℕ → M g.State (Result Context32)
  search_scopes f record_address context = do
    pointers ← alloc g (to_bytes 4 record_address ++ to_bytes 4 context)
    write_u32 g (sub_ℕ f.registration 4) pointers
    level ← try_level f
    run_filters max_frames f record_address context level

  unfoldable pub msvc_handler : Frame → ℕ → ℕ → M g.State (Result Context32)
  msvc_handler f record_address context = do
    flags ← read_u32 g (pos (record_address + 4))
    (if is_unwinding flags
        then (do local_unwind f f.none_level; return (value 1))
        else search_scopes f record_address context)

  -- SCOPE_TABLE is 0x08, TRYLEVEL_NONE_SEH3 is -1
  unfoldable pub except_handler3 : ℕ → ℕ → ℕ → M g.State (Result Context32)
  except_handler3 record_address registration context = do
    scope_table ← read_u32 g (pos (registration + 8))
    msvc_handler (frame_init registration scope_table 0 0xFFFFFFFF) record_address context

  -- SEH4_SCOPE_TABLE_HEADER is 0x10, TRYLEVEL_NONE_SEH4 is -2
  unfoldable pub except_handler4_common : ℕ → ℕ → ℕ → ℕ → M g.State (Result Context32)
  except_handler4_common cookie record_address registration context = do
    encoded ← read_u32 g (pos (registration + 8))
    key ← read_u32 g (pos cookie)
    msvc_handler (frame_init registration (bit_xor encoded key) 0x10 0xFFFFFFFE) record_address
        context
