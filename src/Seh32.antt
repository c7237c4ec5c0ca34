-- ===== src/Seh32.antt =====
-- speakeasy/windows/seh32.py: x86 exception dispatch along the chain of registrations, and the
-- handlers of MSVC frames. The loops of generators that read the chain or a scope table have
-- MAX_FRAMES turns, as in the source.
pub mod Msvc
pub mod Chain
pub mod Calls
pub mod Unwinding
mod Tests
use speakeasy.Base.{
  ℕ, zero, suc, ◌+◌, ◌*◌, ◌/◌, ◌%◌, ◌^◌, Bool, true, false, ◌&&◌, ◌||◌, not, Option, none, some,
  List, [], ◌∷◌, ◌++◌, ltb, ◌==◌, if◌then◌else◌, take, drop, replicate, length,
}
use speakeasy.Base.Int.{pos}
use speakeasy.Unwind.{from_bytes}
use speakeasy.Unwind.Frame.Prolog.{to_bytes}
use speakeasy.Seh.{
  GuestCall, Guest, World, Outcome, ok, failed, M, bind, ◌>>=◌, ◌>>◌, return, Result, resume,
  set_flag, alloc, guest_call, resume_at,
}
use speakeasy.Seh.Records.{ExceptionRecord, exception_record, record_bytes, read_record}
use speakeasy.Seh.Dispatch.{Exception, offer, resume_exception, dispatch_with}

-- CONTEXT: the registers that the handlers set, and all the others
pub record Context32 : Type 0 where
  pub eax : ℕ
  pub ebp : ℕ
  pub esp : ℕ
  pub eip : ℕ
  pub others : List ℕ

-- MAX_FRAMES of speakeasy/windows/seh.py
abbrev pub max_frames : ℕ
max_frames = 4096

-- END_OF_CHAIN
abbrev pub end_of_chain : ℕ
end_of_chain = 0xFFFFFFFF

-- STATUS_UNWIND
abbrev pub status_unwind : ℕ
status_unwind = 0xC0000027

-- X86_REG_EBP of speakeasy/winenv/arch.py
abbrev pub reg_ebp : ℕ
reg_ebp = 1004

-- the flags of an unwind: EXCEPTION_UNWINDING is bit 1, EXCEPTION_EXIT_UNWIND bit 2
unfoldable pub unwind_flags : ℕ → ℕ → ℕ
unwind_flags target_frame flags =
    if target_frame == 0 then set_flag 2 (set_flag 1 flags) else set_flag 1 flags

-- the end of the chain
unfoldable pub is_end : ℕ → Bool
is_end registration = registration == 0 || registration == end_of_chain

-- "registrations are in stack order": the loop of an unwind ends here
unfoldable pub is_target : ℕ → ℕ → Bool
is_target target_frame registration =
    registration == target_frame || not (target_frame == 0) && ltb target_frame registration

module _ (g : Guest Context32) where
  -- the arguments of the call, in memory below a saved EBP and a return address
  unfoldable pub frame_bytes : ℕ → ℕ → ℕ → ℕ → ℕ → List ℕ
  frame_bytes ebp record_address registration context dispatcher_context =
      to_bytes 4 ebp
      ++ (to_bytes 4 0
          ++ (to_bytes 4 record_address
              ++ (to_bytes 4 registration
                  ++ (to_bytes 4 context ++ to_bytes 4 dispatcher_context))))

  unfoldable pub call_handler : ℕ → ℕ → ℕ → ℕ → ℕ → M g.State ℕ
  call_handler handler record_address registration context dispatcher_context w =
      (do
        frame ← alloc g (
            frame_bytes (g.reg_read w.guest reg_ebp) record_address registration context
              dispatcher_context)
        guest_call g (record {
          function = handler;
          args = record_address ∷ registration ∷ context ∷ dispatcher_context ∷ [];
          registers = (reg_ebp, frame) ∷ [];
        }))
        w

  -- the read of a registration: next and handler
  abbrev pub entry : List ℕ → ℕ × ℕ
  entry bytes = (from_bytes (take 4 bytes), from_bytes (drop 4 bytes))

  -- the offer to the handler of a registration, whose bytes are read; `rest` goes on at the next one
  unfoldable pub offer_entry :
      Exception
      → ℕ
      → Bool
      → ℕ
      → (ℕ → M g.State (Option (Result Context32) × Bool))
      → Option (List ℕ)
      → M g.State (Option (Result Context32) × Bool)
  offer_entry e dispatcher_context reported registration rest none = return (none, reported)
  offer_entry e dispatcher_context reported registration rest (some bytes) = do
    offer g e reported (entry bytes).1
    disposition ←
        call_handler (entry bytes).1 e.record_address registration e.context dispatcher_context
    (if disposition == 0
        then (do r ← resume_exception g e; return (some r, true))
        else rest (entry bytes).0)

  -- the loop of `dispatch_exception` over the registrations from one on
  unfoldable pub offer_registrations :
      ℕ → Exception → ℕ → Bool → ℕ → M g.State (Option (Result Context32) × Bool)
  offer_registrations zero e dispatcher_context reported registration w = (ok (none, reported), w)
  offer_registrations (suc n) e dispatcher_context reported registration w =
      (if is_end registration
          then return (none, reported)
          else offer_entry e dispatcher_context reported registration
              (offer_registrations n e dispatcher_context true)
              (g.read w.guest (pos registration) 8))
        w

  -- the frames of `dispatch_exception`
  unfoldable pub offer_frames : Exception → Bool → M g.State (Option (Result Context32) × Bool)
  offer_frames e reported = do
    dispatcher_context ← alloc g (replicate 4 0)
    (λ w. offer_registrations max_frames e dispatcher_context reported (g.exception_list w.guest) w)

  unfoldable pub dispatch_exception : ℕ → ℕ → M g.State (Result Context32)
  dispatch_exception = dispatch_with g offer_frames

  -- set_exception_list
  unfoldable pub unlink : ℕ → M g.State (Unit {0})
  unlink next w = (ok tt, record w { guest = g.set_exception_list next w.guest })

  -- the call of the handler of a registration, whose bytes are read, and its removal
  unfoldable pub unwind_entry :
      ℕ → ℕ → ℕ → ℕ → ℕ → (ℕ → M g.State (Unit {0})) → Option (List ℕ) → M g.State (Unit {0})
  unwind_entry target_frame record_address context dispatcher_context registration rest none =
      return tt
  unwind_entry target_frame record_address context dispatcher_context registration rest
        (some bytes) =
      if is_target target_frame registration then return tt else (do
        _ ← call_handler (entry bytes).1 record_address registration context dispatcher_context
        unlink (entry bytes).0
        rest (entry bytes).0)

  -- the loop of `unwind_registrations`
  unfoldable pub unwind_from : ℕ → ℕ → ℕ → ℕ → ℕ → ℕ → M g.State (Unit {0})
  unwind_from zero target_frame record_address context dispatcher_context registration w =
      (ok tt, w)
  unwind_from (suc n) target_frame record_address context dispatcher_context registration w =
      (if is_end registration
          then return tt
          else unwind_entry target_frame record_address context dispatcher_context registration
              (unwind_from n target_frame record_address context dispatcher_context)
              (g.read w.guest (pos registration) 8))
        w

  -- the record of an unwind: that of the caller, or a new one
  unfoldable pub unwind_record : ℕ → M g.State ExceptionRecord
  unwind_record record_address =
      if record_address == 0
      then return (exception_record g.ptr_size status_unwind 0 0 [])
      else read_record g record_address

  unfoldable pub unwind_registrations : ℕ → ℕ → M g.State (Unit {0})
  unwind_registrations target_frame record_address = do
    fields ← unwind_record record_address
    let flags = unwind_flags target_frame fields.flags
    unwinding ← alloc g (record_bytes g.ptr_size (record fields { flags = flags }))
    context ← (λ w. alloc g (g.encode_context (g.thread_context w.guest)) w)
    dispatcher_context ← alloc g (replicate 4 0)
    (λ w.
        unwind_from max_frames target_frame unwinding context dispatcher_context
          (g.exception_list w.guest) w)

  unfoldable pub rtl_unwind : ℕ → ℕ → ℕ → M g.State (Result Context32)
  rtl_unwind target_frame record_address return_value w =
      (do
        let caller = g.caller_context w.guest
        unwind_registrations target_frame record_address
        resume_at g (record caller { eax = return_value % 2 ^ 32 }))
        w
