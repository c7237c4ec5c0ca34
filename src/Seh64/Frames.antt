-- ===== src/Seh64/Frames.antt =====
-- The dispatch and the unwind of speakeasy/windows/seh64.py along the frames. A walk has MAX_FRAMES
-- turns, as in the source.
use speakeasy.Base.{
  ℕ, zero, suc, ◌%◌, ◌^◌, Bool, true, false, Option, none, some, List, [], ◌∷◌, ◌++◌, ◌==◌,
  if◌then◌else◌, replicate,
}
use speakeasy.Base.Int.{ℤ, pos, negsuc}
use speakeasy.Unwind.{struct_error}
use speakeasy.Unwind.Frame.{Context, set_gpr}
use speakeasy.Unwind.Frame.Prolog.{to_bytes}
use speakeasy.Seh.{
  Guest, ok, failed, M, from_option, ◌>>=◌, ◌>>◌, return, throw, Result, set_flag, alloc, mem_write,
  guest_call, resume_at, read_context,
}
use speakeasy.Seh.Records.{ExceptionRecord, exception_record, record_bytes, read_record}
use speakeasy.Seh.Dispatch.{Exception, offer, resume_exception, dispatch_with, unhandled_error}
use speakeasy.Seh32.{status_unwind, unwind_flags}
use speakeasy.Seh64.{
  Modules, Frame, Turn, stop, skip, frame, fault, turn, max_frames, exception_handlers,
  termination_handlers,
}

abbrev pub status_invalid_unwind_target : ℕ
status_invalid_unwind_target = 0xC0000029

-- DispatcherContext: "<9QII"
abbrev pub dispatcher_context_size : ℕ
dispatcher_context_size = 80

-- _dispatcher_context, at an establisher frame; numbers have 64 bits
unfoldable pub dispatcher_context_of : Frame → ℕ → ℕ → ℕ → List ℕ
dispatcher_context_of f establisher_frame context target_ip =
    to_bytes 8 f.frame_ctx.rip
    ++ (to_bytes 8 f.fn.image_base
        ++ (to_bytes 8 f.fn.address
            ++ (to_bytes 8 establisher_frame
                ++ (to_bytes 8 target_ip
                    ++ (to_bytes 8 context
                        ++ (to_bytes 8 f.info.handler
                            ++ (to_bytes 8 f.info.handler_data ++ replicate 16 0)))))))

-- `info.establisher_frame == target_frame`
unfoldable pub is_target : ℤ → ℕ → Bool
is_target (pos address) target_frame = address == target_frame
is_target (negsuc address) target_frame = false

-- The bytes of a number below 0 are an error: struct.error, or OverflowError of `to_bytes`, which no
-- code of the dispatch catches either.
unfoldable pub packed : {S : Type 0} → ℤ → M S ℕ
packed (pos n) w = (ok n, w)
packed (negsuc n) w = (failed struct_error, w)

-- the target frame at the target, with the return value in rax
unfoldable pub target_context : ℕ → ℕ → Context → Context
target_context target_ip return_value ctx =
    set_gpr 0 return_value (record ctx { rip = target_ip % 2 ^ 64 })

module _ (g : Guest Context) (ms : Modules g.State) where
  -- the writes for a handler of a frame, and its establisher frame
  unfoldable pub prepare : Frame → Context → ℕ → ℕ → ℕ → M g.State ℕ
  prepare f ctx unwound dispatcher_context target_ip = do
    mem_write g (pos unwound) (g.encode_context ctx)
    establisher_frame ← packed f.info.establisher_frame
    mem_write g (pos dispatcher_context)
        (dispatcher_context_of f establisher_frame unwound target_ip)
    return establisher_frame

  -- the offer of the exception to the handler of a frame: its disposition
  unfoldable pub call_frame : Exception → Frame → ℕ → ℕ → Bool → M g.State ℕ
  call_frame e f unwound dispatcher_context reported = do
    establisher_frame ← prepare f f.caller unwound dispatcher_context 0
    offer g e reported f.info.handler
    guest_call g (record {
      function = f.info.handler;
      args = e.record_address ∷ establisher_frame ∷ e.context ∷ dispatcher_context ∷ [];
      registers = [];
    })

  -- the offer to the handler of a frame, if it has one; `rest` goes on at the caller
  unfoldable pub offer_frame :
      Exception
      → ℕ
      → ℕ
      → Bool
      → (Bool → Context → M g.State (Option (Result Context) × Bool))
      → Frame
      → M g.State (Option (Result Context) × Bool)
  offer_frame e unwound dispatcher_context reported rest f =
      if f.info.handler == 0 then rest reported f.caller else (do
        disposition ← call_frame e f unwound dispatcher_context reported
        (if disposition == 0
            then (do r ← resume_exception g e; return (some r, true))
            else rest true f.caller))

  unfoldable pub offer_turn :
      Exception
      → ℕ
      → ℕ
      → Bool
      → (Bool → Context → M g.State (Option (Result Context) × Bool))
      → Turn
      → M g.State (Option (Result Context) × Bool)
  offer_turn e unwound dispatcher_context reported rest stop = return (none, reported)
  offer_turn e unwound dispatcher_context reported rest fault = from_option none
  offer_turn e unwound dispatcher_context reported rest (skip next) = rest reported next
  offer_turn e unwound dispatcher_context reported rest (frame f) =
      offer_frame e unwound dispatcher_context reported rest f

  -- the loop of `dispatch_exception` over the frames from a context on
  unfoldable pub offer_walk :
      ℕ → Exception → ℕ → ℕ → Bool → Context → M g.State (Option (Result Context) × Bool)
  offer_walk zero e unwound dispatcher_context reported ctx w = (ok (none, reported), w)
  offer_walk (suc n) e unwound dispatcher_context reported ctx w =
      offer_turn e unwound dispatcher_context reported (offer_walk n e unwound dispatcher_context)
        (turn g ms w.guest ctx exception_handlers) w

  -- the frames of `dispatch_exception`
  unfoldable pub offer_frames : Exception → Bool → M g.State (Option (Result Context) × Bool)
  offer_frames e reported = do
    ctx ← read_context g e.context
    unwound ← alloc g (g.encode_context ctx)
    dispatcher_context ← alloc g (replicate dispatcher_context_size 0)
    offer_walk max_frames e unwound dispatcher_context reported ctx

  unfoldable pub dispatch_exception : ℕ → ℕ → M g.State (Result Context)
  dispatch_exception = dispatch_with g offer_frames

  -- the record with EXCEPTION_TARGET_UNWIND, which is bit 5, and its write at the target
  unfoldable pub mark_target : Bool → ExceptionRecord → ℕ → M g.State (Unit {0})
  mark_target true fields record_address =
      mem_write g (pos record_address)
        (record_bytes g.ptr_size (record fields { flags = set_flag 5 fields.flags }))
  mark_target false fields record_address = return tt

  -- the call of the termination handler of a frame
  unfoldable pub terminate : ExceptionRecord → ℕ → ℕ → ℕ → ℕ → Bool → Frame → M g.State (Unit {0})
  terminate fields record_address unwound dispatcher_context target_ip at_target f = do
    mark_target at_target fields record_address
    establisher_frame ← prepare f f.frame_ctx unwound dispatcher_context target_ip
    _ ← guest_call g (record {
      function = f.info.handler;
      args = record_address ∷ establisher_frame ∷ unwound ∷ dispatcher_context ∷ [];
      registers = [];
    })
    return tt

  -- the unwind of a frame; `rest` goes on at the caller
  unfoldable pub unwind_frame :
      ExceptionRecord
      → ℕ
      → ℕ
      → ℕ
      → ℕ
      → ℕ
      → ℕ
      → (Context → M g.State (Result Context))
      → Frame
      → M g.State (Result Context)
  unwind_frame fields record_address unwound dispatcher_context target_frame target_ip return_value
        rest f =
      do
        (if f.info.handler == 0
            then return tt
            else terminate fields record_address unwound dispatcher_context target_ip
                (is_target f.info.establisher_frame target_frame) f)
        (if is_target f.info.establisher_frame target_frame
            then resume_at g (target_context target_ip return_value f.frame_ctx)
            else rest f.caller)

  unfoldable pub unwind_turn :
      ExceptionRecord
      → ℕ
      → ℕ
      → ℕ
      → ℕ
      → ℕ
      → ℕ
      → (Context → M g.State (Result Context))
      → Turn
      → M g.State (Result Context)
  unwind_turn fields record_address unwound dispatcher_context target_frame target_ip return_value
        rest stop =
      throw (unhandled_error status_invalid_unwind_target target_ip [])
  unwind_turn fields record_address unwound dispatcher_context target_frame target_ip return_value
        rest fault =
      from_option none
  unwind_turn fields record_address unwound dispatcher_context target_frame target_ip return_value
        rest (skip next) =
      rest next
  unwind_turn fields record_address unwound dispatcher_context target_frame target_ip return_value
        rest (frame f) =
      unwind_frame fields record_address unwound dispatcher_context target_frame target_ip
        return_value rest f

  -- the loop of `unwind_to`
  unfoldable pub unwind_walk :
      ℕ → ExceptionRecord → ℕ → ℕ → ℕ → ℕ → ℕ → ℕ → Context → M g.State (Result Context)
  unwind_walk zero fields record_address unwound dispatcher_context target_frame target_ip
        return_value ctx w =
      throw (unhandled_error status_invalid_unwind_target target_ip []) w
  unwind_walk (suc n) fields record_address unwound dispatcher_context target_frame target_ip
        return_value ctx w =
      unwind_turn fields record_address unwound dispatcher_context target_frame target_ip
        return_value
        (unwind_walk n fields record_address unwound dispatcher_context target_frame target_ip
          return_value)
        (turn g ms w.guest ctx termination_handlers) w

  -- the record of an unwind: that of the caller, or a new one
  unfoldable pub unwind_record : ℕ → Context → M g.State ExceptionRecord
  unwind_record record_address ctx =
      if record_address == 0
      then return (exception_record g.ptr_size status_unwind 0 ctx.rip [])
      else read_record g record_address

  unfoldable pub unwind_to : Context → ℕ → ℕ → ℕ → ℕ → M g.State (Result Context)
  unwind_to ctx target_frame target_ip record_address return_value = do
    fields ← unwind_record record_address ctx
    let marked = record fields { flags = unwind_flags target_frame fields.flags }
    unwinding ← alloc g (record_bytes g.ptr_size marked)
    unwound ← alloc g (g.encode_context ctx)
    dispatcher_context ← alloc g (replicate dispatcher_context_size 0)
    unwind_walk max_frames marked unwinding unwound dispatcher_context target_frame target_ip
        return_value ctx

  unfoldable pub rtl_unwind_ex : ℕ → ℕ → ℕ → ℕ → M g.State (Result Context)
  rtl_unwind_ex target_frame target_ip record_address return_value w =
      unwind_to (g.caller_context w.guest) target_frame target_ip record_address return_value w
