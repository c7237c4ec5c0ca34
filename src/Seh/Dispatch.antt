-- ===== src/Seh/Dispatch.antt =====
-- `Dispatch` of speakeasy/windows/seh.py: an exception that is dispatched.
use speakeasy.Base.{
  ℕ, ◌%◌, Bool, true, false, ◌&&◌, ◌||◌, Option, none, some, List, [], ◌∷◌, ◌++◌, ◌==◌,
  if◌then◌else◌,
}
use speakeasy.Base.Int.{ℤ, pos, negsuc}
use speakeasy.Seh.{
  Guest, Unhandled, invalid_access, unhandled_exception, ok, M, ◌>>=◌, ◌>>◌, return, throw, Result,
  as_long, alloc, guest_call, read_context, resume_at,
}
use speakeasy.Seh.Records.{pack, read_record}

pub record Exception : Type 0 where
  pub record_address : ℕ
  pub context : ℕ
  pub code : ℕ
  pub flags : ℕ
  pub address : ℕ
  pub information : List ℕ
  -- EXCEPTION_POINTERS
  pub pointers : ℕ

abbrev pub status_access_violation : ℕ
status_access_violation = 0xC0000005

abbrev pub status_guard_page_violation : ℕ
status_guard_page_violation = 0x80000001

abbrev pub status_noncontinuable_exception : ℕ
status_noncontinuable_exception = 0xC0000025

-- MEMORY_FAULTS
unfoldable pub is_memory_fault : ℕ → Bool
is_memory_fault code = code == status_access_violation || code == status_guard_page_violation

-- ACCESS_TYPES: read, write and fetch
unfoldable pub is_access : ℕ → Bool
is_access access = access == 0 || access == 1 || access == 8

-- UnhandledException.__init__
unfoldable pub unhandled_error : ℕ → ℕ → List ℕ → Unhandled
unhandled_error code address [] = unhandled_exception code address
unhandled_error code address (access ∷ []) = unhandled_exception code address
unhandled_error code address (access ∷ target ∷ information) =
    if code == status_access_violation && is_access access
    then invalid_access access target address
    else unhandled_exception code address

-- information[1]
unfoldable pub second : List ℕ → ℕ
second [] = 0
second (a ∷ []) = 0
second (a ∷ b ∷ information) = b

-- EXCEPTION_NONCONTINUABLE is 1
unfoldable pub is_noncontinuable : ℕ → Bool
is_noncontinuable flags = flags % 2 == 1

-- EXCEPTION_CONTINUE_EXECUTION is -1
unfoldable pub is_continue_execution : ℤ → Bool
is_continue_execution (pos n) = false
is_continue_execution (negsuc n) = n == 0

module _ {Context : Type 0} (g : Guest Context) where
  -- Dispatch.__init__
  unfoldable pub dispatch_init : ℕ → ℕ → M g.State Exception
  dispatch_init record_address context = do
    fields ← read_record g record_address
    pointers ← alloc g (pack g.ptr_size (record_address ∷ context ∷ []))
    return (record {
      record_address = record_address;
      context = context;
      code = fields.code;
      flags = fields.flags;
      address = fields.address;
      information = fields.information;
      pointers = pointers;
    })

  -- emu.record_exception, but for the registers of its argument
  unfoldable pub record_exception : Exception → ℕ → M g.State (Unit {0})
  record_exception e handler w = (
    ok tt,
    record w {
      recorded =
          w.recorded
          ++ record {
            code = e.code;
            address = e.address;
            handler = handler;
            faulting_address = if is_memory_fault e.code then some (second e.information) else none;
          }
            ∷ [];
    },
  )

  -- offer: the new value of `reported` is True
  unfoldable pub offer : Exception → Bool → ℕ → M g.State (Unit {0})
  offer e true handler = return tt
  offer e false handler = do _ ← read_context g e.context; record_exception e handler

  -- vectored: if a handler continues execution, and the new `reported`
  unfoldable pub vectored : Exception → Bool → List ℕ → M g.State (Bool × Bool)
  vectored e reported [] = return (false, reported)
  vectored e reported (handler ∷ handlers) = do
    offer e reported handler
    verdict ← guest_call g (record { function = handler; args = e.pointers ∷ []; registers = [] })
    (if is_continue_execution (as_long verdict)
        then return (true, true)
        else vectored e true handlers)

  -- Dispatch.resume
  unfoldable pub resume_exception : Exception → M g.State (Result Context)
  resume_exception e =
      if is_noncontinuable e.flags
      then throw (unhandled_error status_noncontinuable_exception e.address [])
      else (do ctx ← read_context g e.context; resume_at g ctx)

  -- the call of the top-level filter, which is not 0
  unfoldable pub call_filter : Exception → Bool → ℕ → M g.State (Result Context)
  call_filter e reported filter = do
    offer e reported filter
    verdict ← guest_call g (record { function = filter; args = e.pointers ∷ []; registers = [] })
    (if is_continue_execution (as_long verdict)
        then resume_exception e
        else throw (unhandled_error e.code e.address e.information))

  unfoldable pub unhandled_filter : Exception → Bool → M g.State (Result Context)
  unhandled_filter e reported w =
      (if g.unhandled_exception_handler w.guest == 0
          then throw (unhandled_error e.code e.address e.information)
          else call_filter e reported (g.unhandled_exception_handler w.guest))
        w

  -- the result of the frames, or of the filter
  unfoldable pub or_filter : Exception → Bool → Option (Result Context) → M g.State (Result Context)
  or_filter e reported (some r) = return r
  or_filter e reported none = unhandled_filter e reported

  -- the frames of an architecture give a result, or the new `reported`
  abbrev pub Frames : Type 0
  Frames = Exception → Bool → M g.State (Option (Result Context) × Bool)

  unfoldable pub offer_frames : Frames → Exception → Bool × Bool → M g.State (Result Context)
  offer_frames frames e (taken, reported) =
      if taken
      then resume_exception e
      else (do (result, reported') ← frames e reported; or_filter e reported' result)

  -- vectored handlers, then frames, then the filter
  unfoldable pub offer_all : Frames → Exception → M g.State (Result Context)
  offer_all frames e w = (vectored e false (g.veh_handlers w.guest) >>= offer_frames frames e) w

  -- the `dispatch_exception` of an architecture
  unfoldable pub dispatch_with : Frames → ℕ → ℕ → M g.State (Result Context)
  dispatch_with frames record_address context = do
    e ← dispatch_init record_address context
    offer_all frames e
