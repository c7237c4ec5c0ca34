-- ===== src/Unwind/Frame.antt =====
-- `virtual_unwind` of speakeasy/windows/unwind.py. The context after an error is not modelled.
pub mod Prolog
pub mod Undo
pub mod Chain
pub mod Caller
mod Tests
use speakeasy.Base.{
  ℕ, zero, suc, ◌+◌, ◌-◌, ◌*◌, ◌/◌, ◌%◌, ◌^◌, Bool, true, false, ◌&&◌, ◌||◌, not, List, [], ◌∷◌,
  length, take, drop, ltb, leb, ◌==◌, if◌then◌else◌,
}
use speakeasy.Base.Int.{ℤ, pos, ◌+ℤ◌, sub_ℕ}
use speakeasy.Unwind.{
  Error, unwind_error, struct_error, Result, ok, raise, ◌>>=◌, Reader, read_bytes, from_bytes, u32,
  u64, RuntimeFunction, read_runtime_function,
}
use speakeasy.Unwind.Info.{UnwindCode, UnwindInfo, read_unwind_info}

-- CONTEXT64, whose general registers are numbered as in GPRS: number 4 is Rsp
pub record Context : Type 0 where
  pub gpr : ℕ → ℕ
  pub rip : ℕ
  -- Low and High
  pub xmm : ℕ → ℕ × ℕ

abbrev pub rsp : Context → ℕ
rsp ctx = ctx.gpr 4

-- setattr of a register, a c_uint64
unfoldable pub set_gpr : ℕ → ℕ → Context → Context
set_gpr r value ctx = record ctx { gpr = λ q. if r == q then value % 2 ^ 64 else ctx.gpr q }

-- `ctx.Rsp += n`
unfoldable pub add_rsp : ℕ → Context → Context
add_rsp n ctx = set_gpr 4 (rsp ctx + n) ctx

-- MAX_CHAIN
abbrev pub max_chain : ℕ
max_chain = 32

-- _prolog_offset: pc - image_base - begin modulo 2 ^ 32
unfoldable pub prolog_offset_of : RuntimeFunction → ℕ → ℕ
prolog_offset_of fn pc = (pc + (2 ^ 32 - (fn.image_base + fn.begin) % 2 ^ 32)) % 2 ^ 32

-- UNW_FLAG_CHAININFO is 4
unfoldable pub is_chained : ℕ → Bool
is_chained flags = flags / 4 % 2 == 1

-- any UWOP_SET_FPREG that ran
unfoldable pub any_set_fpreg : ℕ → List UnwindCode → Bool
any_set_fpreg offset [] = false
any_set_fpreg offset (c ∷ codes) =
    c.op == 3 && leb c.prolog_offset offset || any_set_fpreg offset codes

-- the frame pointer less the scaled offset; the difference can be negative
unfoldable pub frame_base : UnwindInfo → Context → ℤ
frame_base info ctx = sub_ℕ (ctx.gpr info.frame_reg) (16 * info.frame_offset)

-- _establisher_frame
unfoldable pub establisher_frame : UnwindInfo → ℕ → Context → ℤ
establisher_frame info offset ctx =
    let frame_set =
      leb info.prolog_size offset || is_chained info.flags || any_set_fpreg offset info.codes in
    if not (info.frame_reg == 0) && frame_set then frame_base info ctx else pos (rsp ctx)

-- `ctx.Rsp = getattr(ctx, GPRS[info.frame_reg]) - 16 * info.frame_offset`, modulo 2 ^ 64
unfoldable pub restore_rsp : UnwindInfo → Context → Context
restore_rsp info ctx = set_gpr 4 (ctx.gpr info.frame_reg + (2 ^ 64 - 16 * info.frame_offset)) ctx

-- the "<QQ" of a saved XMM register
unfoldable pub load_xmm : Reader → ℤ → ℕ → Context → Result Context
load_xmm read addr r ctx = do
  bytes ← read_bytes read addr 16
  (if length bytes == 16
      then ok (record ctx {
        xmm = λ q.
            if r == q then (from_bytes (take 8 bytes), from_bytes (drop 8 bytes)) else ctx.xmm q;
      })
      else raise struct_error)

-- the read of a general register
unfoldable pub load_gpr : Reader → ℤ → ℕ → Context → Result Context
load_gpr read addr r ctx = do value ← u64 read addr; ok (set_gpr r value ctx)

-- UWOP_PUSH_MACHFRAME
unfoldable pub load_machine_frame : Reader → ℕ → Context → Result Context
load_machine_frame read sp ctx = do
  rip ← u64 read (pos sp)
  new_rsp ← u64 read (pos (sp + 24))
  ok (set_gpr 4 new_rsp (record ctx { rip = rip }))

-- one code whose instruction ran: the context, and if it is a machine frame
unfoldable pub undo :
    Reader → UnwindInfo → ℤ → UnwindCode → Context × Bool → Result (Context × Bool)
undo read info frame c (ctx, machine) =
    if c.op == 0
    then (do ctx' ← load_gpr read (pos (rsp ctx)) c.info ctx; ok (add_rsp 8 ctx', machine))
    else if c.op == 1
    then ok (add_rsp (if c.info == 0 then c.operand * 8 else c.operand) ctx, machine)
    else if c.op == 2
    then ok (add_rsp (c.info * 8 + 8) ctx, machine)
    else if c.op == 3
    then ok (restore_rsp info ctx, machine)
    else if c.op == 4
    then (do ctx' ← load_gpr read (frame +ℤ pos (c.operand * 8)) c.info ctx; ok (ctx', machine))
    else if c.op == 5
    then (do ctx' ← load_gpr read (frame +ℤ pos c.operand) c.info ctx; ok (ctx', machine))
    else if c.op == 8
    then (do ctx' ← load_xmm read (frame +ℤ pos (c.operand * 16)) c.info ctx; ok (ctx', machine))
    else if c.op == 9
    then (do ctx' ← load_xmm read (frame +ℤ pos c.operand) c.info ctx; ok (ctx', machine))
    else if c.op == 10
    then (do
      ctx' ← load_machine_frame read (rsp ctx + (if c.info == 0 then 0 else 8)) ctx
      ok (ctx', true))
    else ok (ctx, machine)

-- the loop over the codes of one info
unfoldable pub undo_codes :
    Reader → UnwindInfo → ℕ → ℤ → List UnwindCode → Context × Bool → Result (Context × Bool)
undo_codes read info offset frame [] state = ok state
undo_codes read info offset frame (c ∷ codes) state =
    if ltb offset c.prolog_offset
    then undo_codes read info offset frame codes state
    else (do state' ← undo read info frame c state; undo_codes read info offset frame codes state')

-- the last function and info of the chain, and the state
abbrev pub Unwound : Type 0
Unwound = RuntimeFunction × UnwindInfo × Context × Bool

-- The loop over the chain: `turns` are left of its MAX_CHAIN turns.
unfoldable pub undo_chain :
    ℕ → Reader → ℕ → ℕ → ℤ → RuntimeFunction → UnwindInfo → Context × Bool → Result Unwound
undo_chain zero read base pc frame fn info state = raise unwind_error
undo_chain (suc turns) read base pc frame fn info state = do
  state' ← undo_codes read info (prolog_offset_of fn pc) frame info.codes state
  (if is_chained info.flags
      then (do
        fn' ← read_runtime_function read base info.trailer
        info' ← read_unwind_info read (base + fn'.unwind_info)
        undo_chain turns read base pc frame fn' info' state')
      else ok (fn, info, state'.0, state'.1))

pub record FrameInfo : Type 0 where
  pub establisher_frame : ℤ
  pub handler : ℕ
  pub handler_data : ℕ

-- `flags & mask != 0`, for flags of `n` bits
unfoldable pub has_common_bit : ℕ → ℕ → ℕ → Bool
has_common_bit zero flags mask = false
has_common_bit (suc n) flags mask =
    flags % 2 == 1 && mask % 2 == 1 || has_common_bit n (flags / 2) (mask / 2)

-- the handler and its data, 0 if there is none
unfoldable pub handler_of : Reader → ℕ → ℕ → ℕ → RuntimeFunction → UnwindInfo → Result (ℕ × ℕ)
handler_of read base pc handler_type fn info =
    if has_common_bit 5 info.flags handler_type && leb info.prolog_size (prolog_offset_of fn pc)
    then (do rva ← u32 read (pos info.trailer); ok (base + rva, info.trailer + 4))
    else ok (0, 0)

unfoldable pub unwind_leaf : Reader → Context → Result Context
unwind_leaf read ctx = do rip ← u64 read (pos (rsp ctx)); ok (add_rsp 8 (record ctx { rip = rip }))

unfoldable pub virtual_unwind :
    Reader → RuntimeFunction → ℕ → Context → ℕ → Result (FrameInfo × Context)
virtual_unwind read fn pc ctx handler_type = do
  let base = fn.image_base
  info ← read_unwind_info read (base + fn.unwind_info)
  let frame = establisher_frame info (prolog_offset_of fn pc) ctx
  (fn', info', ctx', machine) ← undo_chain max_chain read base pc frame fn info (ctx, false)
  (handler, data_address) ← handler_of read base pc handler_type fn' info'
  ctx'' ← (if machine then ok ctx' else unwind_leaf read ctx')
  ok (record { establisher_frame = frame; handler = handler; handler_data = data_address }, ctx'')
