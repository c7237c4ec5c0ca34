-- ===== src/Unwind/Frame/Caller.antt =====
-- `virtual_unwind` and `unwind_leaf` of speakeasy/windows/unwind.py give the state of the caller.
use speakeasy.Base.{
  ℕ, zero, suc, ◌+◌, ◌-◌, ◌^◌, ◌<◌, ◌≡◌, refl, ap, ◌∙◌, false, Bool, ◌&&◌, leb, ◌⊎◌, inl, inr,
  Bool-cases, if◌then◌else◌, List, length, arith, some,
}
use speakeasy.Base.Int.{ℤ, pos}
use speakeasy.Unwind.{ok, Reader, read_bytes, from_bytes, unpack, u32, u64, RuntimeFunction}
use speakeasy.Unwind.Info.{UnwindInfo, read_unwind_info}
use speakeasy.Unwind.Frame.{
  Context, rsp, undo_chain, virtual_unwind, unwind_leaf, handler_of, has_common_bit,
  establisher_frame, prolog_offset_of, max_chain,
}
use speakeasy.Unwind.Frame.Prolog.{Bytes, load, Step, total_depth, steps_of, pushed_rsp}
use speakeasy.Unwind.Frame.Chain.{Link, IsChain, all_steps, last_link, undo_chain_lem}
use speakeasy.Unwind.Frame.Undo.{restored, add_rsp-restored, IsKept, undo_steps}

length-load : (m : Bytes) (a n : ℕ) → length (load m a n) ≡ n
unfolding load
length-load m a zero = refl
length-load m a (suc n) = omega (arith, length-load m (a + 1) n)

u64-load :
    (read : Reader) (m' : Bytes) (a : ℕ)
    → read (pos a) 8 ≡ some (load m' a 8)
    → u64 read (pos a) ≡ ok (from_bytes (load m' a 8))
unfolding u64 read_bytes unpack
u64-load read m' a h = rw (h, u64, read_bytes) (rw (unpack, length-load m' a 8) refl)

-- the caller's registers: the pushed ones as they were, rsp above the return address
abbrev pub caller : (ℕ → ℕ) → List Step → ℕ → Bytes → Context → Context
caller regs steps sp m' ctx = record (restored regs steps (sp + 8) ctx) {
  rip = from_bytes (load m' sp 8);
}

-- the info has a handler of the type, and the pc, at an offset of the function, is behind the prolog
abbrev pub offers_handler : UnwindInfo → ℕ → ℕ → Bool
offers_handler info offset handler_type =
    has_common_bit 5 info.flags handler_type && leb info.prolog_size offset

module _ (read : Reader) (regs : ℕ → ℕ) (l : Link) (links : List Link) (pc offset : ℕ) (m' : Bytes)
    (m : Bytes) (sp : ℕ) (ctx : Context) where
  abbrev steps : List (ℕ × Step)
  steps = all_steps l links

  abbrev base : ℕ
  base = l.fn.image_base

  abbrev frame : ℤ
  frame = establisher_frame l.info (prolog_offset_of l.fn pc) ctx

  -- the function and the info at the end of the chain, which have the handler
  abbrev last_fn : RuntimeFunction
  last_fn = (last_link l links).fn

  abbrev last_info : UnwindInfo
  last_info = (last_link l links).info

  module _ (k : IsKept read regs offset m' (sp + 8) steps m sp) (w : sp + 8 < 2 ^ 64) where
    left :
        unwind_leaf read (restored regs (steps_of steps) sp ctx)
        ≡ ok (caller regs (steps_of steps) sp m' ctx)
    unfolding unwind_leaf
    left =
        let none_there = pushed_rsp steps k.usual in
        let there : Context = record ctx { rip = from_bytes (load m' sp 8) } in
        rw none_there (
          rw (u64-load read m' sp (k.reads sp (omega arith) (omega arith))) (
            ap (λ (c : Context). ok c)
              (add_rsp-restored regs (steps_of steps) sp 8 there none_there w)))

    unwound :
        length links < max_chain
        → IsChain read base pc l links
        → ((r : ℕ) → regs r < 2 ^ 64)
        → rsp ctx ≡ sp - total_depth (steps_of steps)
        → undo_chain max_chain read base pc frame l.fn l.info (ctx, false)
          ≡ ok (last_fn, last_info, restored regs (steps_of steps) sp ctx, false)
    unwound short chain small at =
        undo_chain_lem read frame base pc offset max_chain l.info l links (ctx, false)
          (restored regs (steps_of steps) sp ctx, false) short chain k.ran
          (undo_steps read regs l.info offset frame false m' (sp + 8) small steps m sp ctx k
            (omega arith) at)

  abbrev asked : ℕ → Bool
  asked = offers_handler last_info (prolog_offset_of last_fn pc)

  handler_lem :
      (handler_type rva : ℕ)
      → (asked handler_type ≡ false) ⊎ (u32 read (pos last_info.trailer) ≡ ok rva)
      → handler_of read base pc handler_type last_fn last_info
        ≡ ok (if asked handler_type then (base + rva, last_info.trailer + 4) else (0, 0))
  unfolding handler_of
  handler_lem handler_type rva readable = elim (Bool-cases (asked handler_type)) [
    | inr none_there ↦ rw none_there refl
    | inl there ↦ elim readable [
      | inl none_there ↦ absurd (ground arith)
      | inr read_rva ↦ rw there (rw read_rva refl)
    ]
  ]

  -- A frame of a function with a chain of at most 32 unwind infos, whose prolog pushed registers
  -- other than rsp and moved rsp by allocations of all three forms, up to the pc. For every handler
  -- type, `virtual_unwind` gives the caller's rsp, the return address and the pushed registers, and
  -- keeps the other registers, if the body kept the slots of the pushes, the stack is readable and
  -- rsp is where the prolog left it. Codes of the prolog behind the pc have no effect. The handler
  -- and its data are those behind the codes of the last info if this has a handler of the type and
  -- the pc is behind its prolog, where their address is readable, and 0 otherwise.
  pub virtual_unwind-caller :
      (handler_type rva : ℕ)
      → read_unwind_info read (base + l.fn.unwind_info) ≡ ok l.info
      → length links < max_chain
      → IsChain read base pc l links
      → IsKept read regs offset m' (sp + 8) steps m sp
      → ((r : ℕ) → regs r < 2 ^ 64)
      → sp + 8 < 2 ^ 64
      → rsp ctx ≡ sp - total_depth (steps_of steps)
      → (asked handler_type ≡ false) ⊎ (u32 read (pos last_info.trailer) ≡ ok rva)
      → virtual_unwind read l.fn pc ctx handler_type
        ≡ ok (
          record {
            establisher_frame = frame;
            handler = if asked handler_type then base + rva else 0;
            handler_data = if asked handler_type then last_info.trailer + 4 else 0;
          },
          caller regs (steps_of steps) sp m' ctx,
        )
  unfolding virtual_unwind
  virtual_unwind-caller handler_type rva e short chain k small w at readable =
      let handler = handler_lem handler_type rva readable in
      let walked = unwound k w short chain small at in
      elim (Bool-cases (asked handler_type)) [
        | inl there ↦
            let offered : handler_of read base pc handler_type last_fn last_info
                ≡ ok (base + rva, last_info.trailer + 4) =
              handler ∙ rw there refl in
            rw e (rw walked (rw offered (rw (left k w) (rw there refl))))
        | inr none_there ↦
            let none_offered : handler_of read base pc handler_type last_fn last_info ≡ ok (0, 0) =
              handler ∙ rw none_there refl in
            rw e (rw walked (rw none_offered (rw (left k w) (rw none_there refl))))
      ]
