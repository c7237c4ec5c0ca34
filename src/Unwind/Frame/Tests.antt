-- ===== src/Unwind/Frame/Tests.antt =====
-- A function with a handler that pushes rbx and allocates 32 bytes, and a part of it that pushes rsi,
-- whose unwind info is chained to that of the function, with these infos in the memory of the test. The
-- part is unwound from its body.
use speakeasy.Base.{
  ℕ, ◌+◌, ◌-◌, ◌≡◌, refl, inr, true, none, some, List, [], ◌∷◌, ◌==◌, if◌then◌else◌, arith,
}
use speakeasy.Base.Int.{pos, negsuc}
use speakeasy.Unwind.{
  Reader, ok, read_bytes, from_bytes, unpack, u32, entry_of, read_runtime_function,
}
use speakeasy.Unwind.Info.{slots, read_codes, info_of, count_of, read_unwind_info}
use speakeasy.Unwind.Frame.{
  Context, has_common_bit, is_chained, prolog_offset_of, virtual_unwind, establisher_frame,
}
use speakeasy.Unwind.Frame.Prolog.{
  Bytes, to_bytes, load, store, Step, push, alloc_small, depth, total_depth, run_step, run, code_of,
  codes_of, steps_of, is_pushed, IsUsual, is_saved,
}
use speakeasy.Unwind.Frame.Undo.{IsKept}
use speakeasy.Unwind.Frame.Chain.{Link, IsChain}
use speakeasy.Unwind.Frame.Caller.{offers_handler, caller, virtual_unwind-caller}

program : Unit {0}
unfolding read_bytes from_bytes slots read_codes info_of count_of read_unwind_info is_chained
    prolog_offset_of to_bytes load store depth total_depth run_step run code_of codes_of steps_of
    is_pushed IsUsual is_saved
program = tt

abbrev steps : List (ℕ × Step)
steps = (1, push 3) ∷ (5, alloc_small 3) ∷ (1, push 6) ∷ []

abbrev regs : ℕ → ℕ
regs r = if r == 3 then 0x1234 else if r == 6 then 0x4321 else 0

-- the infos at 0x2000 and 0x2020, and the return address 0x5678
abbrev at_entry : Bytes
unfolding store
at_entry =
    store
      (store
        (store (λ x. 0) 0x2000
          (0x21 ∷ 1 ∷ 1 ∷ 0 ∷ 1 ∷ 0x60 ∷ 0 ∷ 0 ∷ 0 ∷ 1 ∷ 0 ∷ 0 ∷ 0x80 ∷ 1 ∷ 0 ∷ 0 ∷ 0x20 ∷ 0x10
            ∷ []))
        0x2020 (9 ∷ 5 ∷ 2 ∷ 0 ∷ 5 ∷ 0x32 ∷ 1 ∷ 0x30 ∷ 0x34 ∷ 0x12 ∷ []))
      0x8008 (0x78 ∷ 0x56 ∷ [])

abbrev memory : Bytes
unfolding run steps_of
memory = (run regs (steps_of steps) (at_entry, 0x8008)).0

abbrev reader : Reader
reader (pos a) n = some (load memory a n)
reader (negsuc a) n = none

abbrev part : Link
unfolding codes_of
part = record {
  fn = record {
    image_base = 0x1000;
    address = 0;
    begin = 0x180;
    end = 0x200;
    unwind_info = 0x1000;
  };
  info = record {
    flags = 4;
    prolog_size = 1;
    frame_reg = 0;
    frame_offset = 0;
    codes = codes_of ((1, push 6) ∷ []);
    trailer = 0x2008;
  };
  later = [];
  steps = (1, push 6) ∷ [];
}

abbrev function : Link
unfolding codes_of
function = record {
  fn = record {
    image_base = 0x1000;
    address = 0x2008;
    begin = 0x100;
    end = 0x180;
    unwind_info = 0x1020;
  };
  info = record {
    flags = 1;
    prolog_size = 5;
    frame_reg = 0;
    frame_offset = 0;
    codes = codes_of ((1, push 3) ∷ (5, alloc_small 3) ∷ []);
    trailer = 0x2028;
  };
  later = [];
  steps = (1, push 3) ∷ (5, alloc_small 3) ∷ [];
}

-- rbx and rsi have another value in the body
abbrev ctx : Context
ctx = record { gpr = λ r. if r == 4 then 0x7FD8 else 0x99; rip = 0x1190; xmm = λ r. (0, 0) }

decoded : read_unwind_info reader 0x2000 ≡ ok part.info
unfolding program
decoded = refl

chain : IsChain reader 0x1000 0x1190 part (function ∷ [])
unfolding program entry_of read_runtime_function
chain = (
  (refl, tt, (omega arith, tt)),
  refl,
  refl,
  refl,
  ((refl, tt, (omega arith, (omega arith, tt))), refl),
)

rsp_at : 0x7FD8 ≡ 0x8008 - total_depth (steps_of steps)
unfolding program
rsp_at = refl

kept : IsKept reader regs 5 memory (0x8008 + 8) steps at_entry 0x8008
unfolding program
kept = record {
  usual = (ground arith, (tt, (ground arith, tt)));
  ran = (omega arith, (omega arith, (omega arith, tt)));
  fits = omega arith;
  below = omega arith;
  reads = λ a p q. refl;
  same = λ x p. refl;
}

rva_read : u32 reader (pos 0x2028) ≡ ok 0x1234
unfolding program u32 unpack
rva_read = refl

virtual_unwind-caller_example :
    virtual_unwind reader part.fn 0x1190 ctx 1
    ≡ ok (
      record {
        establisher_frame = establisher_frame part.info (prolog_offset_of part.fn 0x1190) ctx;
        handler =
            if offers_handler function.info (prolog_offset_of function.fn 0x1190) 1
            then 0x1000 + 0x1234
            else 0;
        handler_data =
            if offers_handler function.info (prolog_offset_of function.fn 0x1190) 1
            then 0x2028 + 4
            else 0;
      },
      caller regs (steps_of steps) 0x8008 memory ctx,
    )
unfolding part
virtual_unwind-caller_example =
    virtual_unwind-caller reader regs part (function ∷ []) 0x1190 5 memory at_entry 0x8008 ctx 1
      0x1234 decoded (omega arith) chain kept (λ r. ground arith) (omega arith) rsp_at
      (inr rva_read)

values :
    ((caller regs (steps_of steps) 0x8008 memory ctx).gpr 3 ≡ 0x1234)
    × ((caller regs (steps_of steps) 0x8008 memory ctx).gpr 6 ≡ 0x4321)
    × ((caller regs (steps_of steps) 0x8008 memory ctx).gpr 4 ≡ 0x8010)
    × ((caller regs (steps_of steps) 0x8008 memory ctx).rip ≡ 0x5678)
    × (offers_handler function.info (prolog_offset_of function.fn 0x1190) 1 ≡ true)
unfolding program has_common_bit
values = (refl, refl, refl, refl, refl)
