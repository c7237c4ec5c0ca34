-- ===== src/Callbacks/Frames.antt =====
-- The stack of callback frames of speakeasy/windows/guest_callbacks.py: `drop_abandoned`, `alloca` and
-- `unwind_frame`.
use speakeasy.Base.{
  ℕ, suc, ◌+◌, ◌-◌, ◌%◌, ◌≤◌, ◌<◌, ◌≡◌, refl, sym, ap, inl, inr, true, false, Option, List, [], ◌∷◌,
  ◌++◌, length, leb, Bool-cases, All, All-map, arith, ◌^◌, ◌≢◌, ◌⊎◌, some, ◌==◌, ==_iff, ◌∙◌,
  if◌then◌else◌,
}
use speakeasy.Base.Int.{pos}
use speakeasy.Unwind.Frame.{Context, rsp, set_gpr}
use speakeasy.Callbacks.{
  HandlerState, CallbackFrame, handler_context, drop_abandoned, aligned, scratch_to, alloca,
  frames_above, lowest, unwind_to, unwind_lowest, unwind_frame,
}

-- each frame is at or below the frames that it interrupted
abbrev pub IsNested : List CallbackFrame → Type 0
IsNested [] = Unit
IsNested (f ∷ callbacks) =
    All (λ g. f.stack_pointer ≤ g.stack_pointer) callbacks × IsNested callbacks

All-above :
    (sp : ℕ) (callbacks : List CallbackFrame)
    → All (λ g. sp ≤ g.stack_pointer) callbacks
    → frames_above sp callbacks ≡ callbacks
unfolding frames_above
All-above sp [] h = refl
All-above sp (f ∷ callbacks) h =
    let here : leb sp f.stack_pointer ≡ true = ground (arith, h.0) in
    rw here (ap (λ l. f ∷ l) (All-above sp callbacks h.1))

-- Of a nested stack, `drop_abandoned` drops exactly the frames at or below the stack pointer: those
-- above it stay, in their order.
pub drop_abandoned-frames_above :
    (sp : ℕ) (callbacks : List CallbackFrame)
    → IsNested callbacks
    → drop_abandoned sp callbacks ≡ frames_above (suc sp) callbacks
unfolding drop_abandoned frames_above
drop_abandoned-frames_above sp [] h = refl
drop_abandoned-frames_above sp (f ∷ callbacks) h = elim (Bool-cases (leb f.stack_pointer sp)) [
  | inl below ↦
      let gone : leb (suc sp) f.stack_pointer ≡ false = ground (arith, below) in
      rw (below, gone) (drop_abandoned-frames_above sp callbacks h.1)
  | inr above ↦
      let kept : leb (suc sp) f.stack_pointer ≡ true = ground (arith, above) in
      let rest : All (λ g. suc sp ≤ g.stack_pointer) callbacks =
        All-map (λ g. f.stack_pointer ≤ g.stack_pointer) (λ g. suc sp ≤ g.stack_pointer)
          (λ g p. ground (arith, above)) callbacks h.0 in
      rw (above, kept) (ap (λ l. f ∷ l) (sym (All-above (suc sp) callbacks rest)))
]

-- `alloca` gives an address that is a multiple of 16, where the data ends at or below the scratch
-- data of the handler, and the new scratch area reaches from the frame down to the address: no two
-- allocations of a frame overlap.
pub alloca_lem :
    (frame : CallbackFrame) (state : HandlerState) (bytes : List ℕ)
    → state.scratch + length bytes ≤ frame.stack_pointer
    → (a : ℕ) × ((alloca frame state bytes).0 ≡ pos a)
      × (a % 16 ≡ 0)
      × (a + length bytes + state.scratch ≤ frame.stack_pointer)
      × (a + (alloca frame state bytes).1.scratch ≡ frame.stack_pointer)
unfolding alloca aligned scratch_to
alloca_lem frame state bytes fits =
    let top : ℕ = frame.stack_pointer - (state.scratch + length bytes) in
    let in_stack : leb (state.scratch + length bytes) frame.stack_pointer ≡ true = ground arith in
    rw in_stack (top - top % 16, refl, omega arith, omega arith, omega arith)

-- a frame below the frames of a list stays the lowest
lowest_first :
    (f : CallbackFrame) (frames : List CallbackFrame)
    → All (λ g. f.stack_pointer < g.stack_pointer) frames
    → lowest f frames ≡ f
unfolding lowest
lowest_first f [] h = refl
lowest_first f (g ∷ frames) h =
    let higher : leb g.stack_pointer f.stack_pointer ≡ false = ground (arith, h.0) in
    rw higher (lowest_first f frames h.1)

frames_above_part :
    (sp : ℕ) (before after : List CallbackFrame) (f : CallbackFrame)
    → All (λ g. g.stack_pointer < sp) before
    → sp ≤ f.stack_pointer
    → All (λ g. f.stack_pointer < g.stack_pointer) after
    → frames_above sp (before ++ f ∷ after) ≡ f ∷ after
unfolding frames_above
frames_above_part sp [] after f below here above =
    let kept : leb sp f.stack_pointer ≡ true = ground arith in
    rw kept (
      ap (λ l. f ∷ l)
        (All-above sp after (
          All-map (λ g. f.stack_pointer < g.stack_pointer) (λ g. sp ≤ g.stack_pointer)
            (λ g p. omega arith) after above)))
frames_above_part sp (g ∷ before) after f below here above =
    let gone : leb sp g.stack_pointer ≡ false = ground (arith, below.0) in
    rw gone (frames_above_part sp before after f below.1 here above)

-- In a stack of frames, `unwind_frame` continues at the caller of the innermost frame that the
-- context is not above: the frames that the context left already have no effect. When the frame's
-- handler has no CONTEXT (address 0), rip is the return address of the frame and rsp is one pointer
-- above its stack pointer, with the other registers as they were; otherwise the result is the CONTEXT that is read at the handler's address.
pub unwind_frame-unwind_to :
    (read_context : ℕ → Option Context) (ptr_size : ℕ) (before after : List CallbackFrame)
    (f : CallbackFrame) (ctx : Context)
    → All (λ g. g.stack_pointer < rsp ctx) before
    → rsp ctx ≤ f.stack_pointer
    → All (λ g. f.stack_pointer < g.stack_pointer) after
    → ((handler_context f.handler ≡ 0)
        × (result : Context) × (unwind_frame read_context ptr_size (before ++ f ∷ after) ctx
            ≡ some result)
        × (result.rip ≡ f.return_address)
        × (rsp result ≡ (f.stack_pointer + ptr_size) % 2 ^ 64)
        × ((r : ℕ) → r ≢ 4 → result.gpr r ≡ ctx.gpr r))
      ⊎ ((handler_context f.handler ≢ 0)
          × (unwind_frame read_context ptr_size (before ++ f ∷ after) ctx
              ≡ read_context (handler_context f.handler)))
unfolding unwind_frame unwind_lowest unwind_to set_gpr
unwind_frame-unwind_to read_context ptr_size before after f ctx below here above =
    let at_frame : unwind_frame read_context ptr_size (before ++ f ∷ after) ctx
        ≡ unwind_to read_context ptr_size f ctx =
      rw (frames_above_part (rsp ctx) before after f below here above) (
        ap (λ (g : CallbackFrame). unwind_to read_context ptr_size g ctx)
          (lowest_first f after above)) in
    elim (Bool-cases (handler_context f.handler == 0)) [
      | inl returns ↦ inl (
        (==_iff (handler_context f.handler) 0).0 returns,
        record ctx {
          gpr = λ q. if 4 == q then (f.stack_pointer + ptr_size) % 2 ^ 64 else ctx.gpr q;
          rip = f.return_address;
        },
        at_frame ∙ rw returns refl,
        refl,
        refl,
        λ r other. let others : (4 == r) ≡ false = ground arith in rw others refl,
      )
      | inr resumes ↦ inr (ground (arith, resumes), at_frame ∙ rw resumes refl)
    ]
