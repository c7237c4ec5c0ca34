-- ===== src/Callbacks/Tests.antt =====
-- Three nested frames, and two regions with a hole between them.
use speakeasy.Base.{ℕ, ◌+◌, ◌≤◌, ◌≡◌, ◌≢◌, ◌^◌, refl, ◌⊎◌, none, some, List, [], ◌∷◌, ◌%◌, arith}
use speakeasy.Base.Int.{pos}
use speakeasy.Memory.Engine.{Region}
use speakeasy.Unwind.Frame.{Context, rsp}
use speakeasy.Callbacks.{
  HandlerState, CallbackFrame, region_end, unmapped_from, get_first_unmapped, drop_abandoned,
  aligned, scratch_to, alloca, frames_above, handler_context, unwind_frame,
}
use speakeasy.Callbacks.Fault.{IsFirstUnmapped, AllMapped, get_first_unmapped_lem}
use speakeasy.Callbacks.Frames.{
  IsNested, drop_abandoned-frames_above, alloca_lem, unwind_frame-unwind_to,
}

program : Unit {0}
unfolding region_end unmapped_from get_first_unmapped drop_abandoned aligned scratch_to alloca
    frames_above
program = tt

abbrev frame : ℕ → CallbackFrame
frame sp = record { stack_pointer = sp; return_address = 0x4000; handler = none }

abbrev callbacks : List CallbackFrame
callbacks = frame 0x100 ∷ frame 0x200 ∷ frame 0x300 ∷ []

abbrev regions : List Region
regions = (0x1000, 0x1FFF) ∷ (0x3000, 0x3FFF) ∷ []

abbrev state : HandlerState
state = record { scratch = 8; context = 0 }

abbrev ctx : Context
ctx = record { gpr = λ r. 0x180; rip = 0; xmm = λ r. (0, 0) }

nested : IsNested callbacks
nested = ((omega arith, (omega arith, tt)), ((omega arith, tt), (tt, tt)))

get_first_unmapped_lem_example :
    ((get_first_unmapped regions 0x1FF0 0x40 ≡ 0x1FF0) × AllMapped regions 0x1FF0 (0x1FF0 + 0x40))
    ⊎ IsFirstUnmapped regions 0x1FF0 (0x1FF0 + 0x40) (get_first_unmapped regions 0x1FF0 0x40)
get_first_unmapped_lem_example = get_first_unmapped_lem regions 0x1FF0 0x40

drop_abandoned-frames_above_example : drop_abandoned 0x200 callbacks ≡ frames_above 0x201 callbacks
drop_abandoned-frames_above_example = drop_abandoned-frames_above 0x200 callbacks nested

alloca_lem_example :
    (a : ℕ) × ((alloca (frame 0x100) state (1 ∷ 2 ∷ [])).0 ≡ pos a)
    × (a % 16 ≡ 0)
    × (a + 2 + 8 ≤ 0x100)
    × (a + (alloca (frame 0x100) state (1 ∷ 2 ∷ [])).1.scratch ≡ 0x100)
alloca_lem_example = alloca_lem (frame 0x100) state (1 ∷ 2 ∷ []) (omega arith)

unwind_frame-unwind_to_example :
    ((handler_context none ≡ 0)
      × (result : Context) × (unwind_frame
            (λ a. none)
            8
            (frame 0x100 ∷ frame 0x200 ∷ frame 0x300 ∷ [])
            ctx
          ≡ some result)
      × (result.rip ≡ 0x4000)
      × (rsp result ≡ (0x200 + 8) % 2 ^ 64)
      × ((r : ℕ) → r ≢ 4 → result.gpr r ≡ ctx.gpr r))
    ⊎ ((handler_context none ≢ 0)
        × (unwind_frame (λ a. none) 8 (frame 0x100 ∷ frame 0x200 ∷ frame 0x300 ∷ []) ctx ≡ none))
unwind_frame-unwind_to_example =
    unwind_frame-unwind_to (λ a. none) 8 (frame 0x100 ∷ []) (frame 0x300 ∷ []) (frame 0x200) ctx
      (omega arith, tt) (omega arith) (omega arith, tt)

values :
    (get_first_unmapped regions 0x1FF0 0x40 ≡ 0x2000)
    × (drop_abandoned 0x200 callbacks ≡ frame 0x300 ∷ [])
    × ((alloca (frame 0x100) state (1 ∷ 2 ∷ [])).0 ≡ pos 0xF0)
unfolding program
values = (refl, refl, refl)
