-- ===== src/Callbacks.antt =====
-- speakeasy/windows/guest_callbacks.py: the stack of guest callback frames, and the search for the
-- address of a fault. The list of frames has the last frame, `guest_callbacks[-1]`, first.
pub mod Fault
pub mod Frames
mod Tests
use speakeasy.Base.{
  ℕ, zero, suc, ◌+◌, ◌-◌, ◌*◌, ◌/◌, ◌%◌, ◌^◌, Bool, true, false, Option, none, some, List, [], ◌∷◌,
  length, leb, ltb, ◌==◌, ◌&&◌, if◌then◌else◌,
}
use speakeasy.Base.Int.{ℤ, pos, negsuc, sub_ℕ, neg_part, pos_part}
use speakeasy.Memory.Engine.{Region}
use speakeasy.Unwind.Frame.{Context, rsp, set_gpr}

-- HandlerState, but for its generator
pub record HandlerState : Type 0 where
  pub scratch : ℕ
  pub context : ℕ

-- GuestCallbackFrame: what this module reads of it
pub record CallbackFrame : Type 0 where
  pub stack_pointer : ℕ
  pub return_address : ℕ
  pub handler : Option HandlerState

-- the last address of the first region that holds the address
unfoldable pub region_end : List Region → ℕ → Option ℕ
region_end [] current = none
region_end ((first, last) ∷ regions) current =
    if leb first current && leb current last then some last else region_end regions current

-- the loop of `get_first_unmapped` up to `stop`, with one unit of fuel a turn
unfoldable pub unmapped_from : ℕ → List Region → ℕ → ℕ → ℕ → ℕ
unmapped_from zero regions address stop current = address
unmapped_from (suc fuel) regions address stop current =
    let found : ℕ = elim (region_end regions current) [
      | none ↦ current
      | some end ↦ unmapped_from fuel regions address stop (end + 1)
    ] in
    if ltb current stop then found else address

-- a turn moves on by one address at least
unfoldable pub get_first_unmapped : List Region → ℕ → ℕ → ℕ
get_first_unmapped regions address size =
    unmapped_from (suc size) regions address (address + size) address

unfoldable pub drop_abandoned : ℕ → List CallbackFrame → List CallbackFrame
drop_abandoned sp [] = []
drop_abandoned sp (f ∷ callbacks) =
    let rest = drop_abandoned sp callbacks in if leb f.stack_pointer sp then rest else f ∷ callbacks

-- `address & ~0xF`, also below 0
unfoldable pub aligned : ℤ → ℤ
aligned (pos n) = pos (n - n % 16)
aligned (negsuc n) = negsuc (n / 16 * 16 + 15)

-- `frame.stack_pointer - address`
unfoldable pub scratch_to : ℕ → ℤ → ℕ
scratch_to sp (pos a) = sp - a
scratch_to sp (negsuc a) = sp + suc a

-- the address of the data, and the new state of the handler; the data is written there
unfoldable pub alloca : CallbackFrame → HandlerState → List ℕ → ℤ × HandlerState
alloca frame state bytes =
    let address = aligned (sub_ℕ frame.stack_pointer (state.scratch + length bytes)) in
    (address, record state { scratch = scratch_to frame.stack_pointer address })

-- [f for f in guest_callbacks if f.stack_pointer >= ctx.Rsp]
unfoldable pub frames_above : ℕ → List CallbackFrame → List CallbackFrame
frames_above sp [] = []
frames_above sp (f ∷ callbacks) =
    let rest = frames_above sp callbacks in if leb sp f.stack_pointer then f ∷ rest else rest

-- min of the frames by their stack pointer: the first frame of the Python list, which is the last of
-- this one, if several have it
unfoldable pub lowest : CallbackFrame → List CallbackFrame → CallbackFrame
lowest best [] = best
lowest best (f ∷ frames) =
    lowest (if leb f.stack_pointer best.stack_pointer then f else best) frames

-- the address of the context that the handler interrupted, 0 if there is none
unfoldable pub handler_context : Option HandlerState → ℕ
handler_context none = 0
handler_context (some state) = state.context

-- the context that the handler interrupted, or the return of the frame
unfoldable pub unwind_to : (ℕ → Option Context) → ℕ → CallbackFrame → Context → Option Context
unwind_to read_context ptr_size f ctx =
    if handler_context f.handler == 0
    then some (set_gpr 4 (f.stack_pointer + ptr_size) (record ctx { rip = f.return_address }))
    else read_context (handler_context f.handler)

-- `min` of the frames, if there is one
unfoldable pub unwind_lowest :
    (ℕ → Option Context) → ℕ → List CallbackFrame → Context → Option Context
unwind_lowest read_context ptr_size [] ctx = some (record ctx { rip = 0 })
unwind_lowest read_context ptr_size (f ∷ frames) ctx =
    unwind_to read_context ptr_size (lowest f frames) ctx

-- unwind_frame, with the read of a CONTEXT from guest memory, which can fail, and the pointer size
unfoldable pub unwind_frame :
    (ℕ → Option Context) → ℕ → List CallbackFrame → Context → Option Context
unwind_frame read_context ptr_size callbacks ctx =
    unwind_lowest read_context ptr_size (frames_above (rsp ctx) callbacks) ctx
