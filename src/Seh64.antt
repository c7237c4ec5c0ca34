-- ===== src/Seh64.antt =====
-- speakeasy/windows/seh64.py: x64 exception dispatch along the frames that unwind data describes.
pub mod Tables
pub mod Frames
pub mod Handler
pub mod Walk
mod Tests
use speakeasy.Base.{
  ℕ, zero, suc, ◌+◌, ◌*◌, ◌/◌, ◌%◌, ◌^◌, Bool, true, false, ◌&&◌, ◌||◌, not, Option, none, some,
  List, [], ◌∷◌, ◌++◌, leb, ltb, ◌==◌, if◌then◌else◌, take, drop, replicate, length,
}
use speakeasy.Base.Int.{pos, negsuc, ℤ}
use speakeasy.Unwind.{RuntimeFunction, Reader}
use speakeasy.Unwind
use speakeasy.Unwind.Frame.{Context, FrameInfo, rsp, set_gpr, virtual_unwind, unwind_leaf}
use speakeasy.Unwind.Frame.Prolog.{to_bytes}
use speakeasy.Unwind.Table.{FunctionTable, lookup_function_entry, search_function_table}
use speakeasy.Callbacks.{CallbackFrame, unwind_frame}
use speakeasy.Seh.{
  GuestCall, Guest, World, Outcome, ok, failed, unhandled, M, bind, ◌>>=◌, ◌>>◌, return, throw,
  Result, resume, set_flag, alloc, mem_write, guest_call, resume_at, read_context,
}
use speakeasy.Seh.Records.{ExceptionRecord, exception_record, record_bytes, read_record}
use speakeasy.Seh.Dispatch.{Exception, offer, resume_exception, dispatch_with, unhandled_error}

-- the addresses of speakeasy/windows/common.py that the emulator reserves
abbrev pub emu_reserved : ℕ
emu_reserved = 0xFEEDF000

abbrev pub emu_reserved_end : ℕ
emu_reserved_end = emu_reserved + 0x4000

abbrev pub guest_callback_return_addr : ℕ
guest_callback_return_addr = emu_reserved + 8

-- MAX_FRAMES of speakeasy/windows/seh.py
abbrev pub max_frames : ℕ
max_frames = 4096

-- What the walk reads beside the guest: the base of the module of an address, the tables that the
-- sample added, and the callback frames of the run.
pub record Modules (S : Type 0) : Type 0 where
  pub module_base : S → ℕ → Option ℕ
  pub tables : S → List FunctionTable
  pub callbacks : S → List CallbackFrame

-- UNW_FLAG_EHANDLER and UNW_FLAG_UHANDLER
abbrev pub exception_handlers : ℕ
exception_handlers = 1

abbrev pub termination_handlers : ℕ
termination_handlers = 2

-- a frame of the walk: its context, function and info, and the context of its caller
pub record Frame : Type 0 where
  pub frame_ctx : Context
  pub fn : RuntimeFunction
  pub info : FrameInfo
  pub caller : Context

-- One turn of `walk_frames`: the end of the walk, a step without a frame, a frame, or UcError of the
-- read of a CONTEXT. A leaf function has no unwind data.
pub data Turn : Type 0 where
  stop : Turn
  skip : Context → Turn
  frame : Frame → Turn
  fault : Turn

unfoldable pub leaf_turn : Unwind.Result Context → Turn
leaf_turn (Unwind.ok ctx) = skip ctx
leaf_turn (Unwind.raise e) = stop

unfoldable pub unwound_turn : Context → RuntimeFunction → Unwind.Result (FrameInfo × Context) → Turn
unwound_turn ctx fn (Unwind.ok (info, caller)) =
    frame (record { frame_ctx = ctx; fn = fn; info = info; caller = caller })
unwound_turn ctx fn (Unwind.raise e) = stop

unfoldable pub callback_turn : Option Context → Turn
callback_turn none = fault
callback_turn (some ctx) = skip ctx

module _ (g : Guest Context) (ms : Modules g.State) where
  abbrev pub reader : g.State → Reader
  reader s = g.read s

  -- the tables of `find_function` in order: the first table of the pc that has no callback is searched
  unfoldable pub find_in_tables :
      g.State → ℕ → List FunctionTable → Unwind.Result (Option RuntimeFunction)
  find_in_tables s pc [] = Unwind.ok none
  find_in_tables s pc (t ∷ tables) =
      if leb t.begin pc && ltb pc t.end && t.callback == 0
      then search_function_table (reader s) t pc
      else find_in_tables s pc tables

  unfoldable pub or_tables :
      g.State → ℕ → Option RuntimeFunction → Unwind.Result (Option RuntimeFunction)
  or_tables s pc (some fn) = Unwind.ok (some fn)
  or_tables s pc none = find_in_tables s pc (ms.tables s)

  unfoldable pub find_in_module : g.State → ℕ → Option ℕ → Unwind.Result (Option RuntimeFunction)
  find_in_module s pc none = Unwind.ok none
  find_in_module s pc (some base) = lookup_function_entry (reader s) base pc

  unfoldable pub then_tables :
      g.State → ℕ → Unwind.Result (Option RuntimeFunction) → Unwind.Result (Option RuntimeFunction)
  then_tables s pc (Unwind.ok fn) = or_tables s pc fn
  then_tables s pc (Unwind.raise e) = Unwind.raise e

  unfoldable pub find_function : g.State → ℕ → Unwind.Result (Option RuntimeFunction)
  find_function s pc = then_tables s pc (find_in_module s pc (ms.module_base s pc))

  -- read of a CONTEXT by `unwind_frame`
  abbrev pub context_at : g.State → ℕ → Option Context
  context_at s address = elim (g.read s (pos address) g.context_size) [
    | none ↦ none
    | some bytes ↦ some (g.decode_context bytes)
  ]

  unfoldable pub found_turn : g.State → Context → ℕ → Unwind.Result (Option RuntimeFunction) → Turn
  found_turn s ctx handler_type (Unwind.raise e) = stop
  found_turn s ctx handler_type (Unwind.ok none) = leaf_turn (unwind_leaf (reader s) ctx)
  found_turn s ctx handler_type (Unwind.ok (some fn)) =
      unwound_turn ctx fn (virtual_unwind (reader s) fn ctx.rip ctx handler_type)

  unfoldable pub turn : g.State → Context → ℕ → Turn
  turn s ctx handler_type =
      if ctx.rip == guest_callback_return_addr
      then callback_turn (unwind_frame (context_at s) 8 (ms.callbacks s) ctx)
      else if ctx.rip == 0 || leb emu_reserved ctx.rip && ltb ctx.rip emu_reserved_end
      then stop
      else found_turn s ctx handler_type (find_function s ctx.rip)
