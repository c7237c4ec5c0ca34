-- ===== src/Seh.antt =====
-- speakeasy/windows/seh.py and the steps of the generator handlers of
-- speakeasy/windows/guest_callbacks.py: the world in which an exception is dispatched. A generator
-- handler is a function of the world, and a guest function that it calls is a step of the guest.
pub mod Records
pub mod Dispatch
pub mod Cpu
pub mod Entry
pub mod Preserves
pub mod Bounds
pub mod Outcomes
pub mod ByteMachine
mod Tests
use speakeasy.Base.{
  ℕ, zero, suc, ◌+◌, ◌-◌, ◌*◌, ◌/◌, ◌%◌, ◌^◌, Bool, Option, none, some, List, [], ◌∷◌, ◌++◌, length,
  ltb, ◌==◌, if◌then◌else◌, not,
}
use speakeasy.Base.Int.{ℤ, pos, negsuc}
use speakeasy.Unwind.{Error, uc_error, from_bytes}
use speakeasy.Unwind
use speakeasy.Unwind.Frame.Prolog.{to_bytes}
use speakeasy.Callbacks.{HandlerState, aligned, scratch_to, alloca}

-- GuestCall; a register is known by its number
pub record GuestCall : Type 0 where
  pub function : ℕ
  pub args : List ℕ
  pub registers : List (ℕ × ℕ)

-- What the handlers use of the emulator and of the guest. `call` runs a guest function: its return
-- value and the guest after it, or `none` if it does not return to the handler.
pub record Guest (Context : Type 0) : Type 1 where
  pub State : Type 0
  pub read : State → ℤ → ℕ → Option (List ℕ)
  pub write : State → ℤ → List ℕ → Option State
  pub call : GuestCall → State → Option (ℕ × State)
  pub ptr_size : ℕ
  pub thread_context : State → Context
  pub caller_context : State → Context
  pub encode_context : Context → List ℕ
  pub decode_context : List ℕ → Context
  pub context_size : ℕ
  pub instruction_pointer : Context → ℕ
  pub reg_read : State → ℕ → ℕ
  pub veh_handlers : State → List ℕ
  pub unhandled_exception_handler : State → ℕ
  -- the head of the registration chain, in the TEB
  pub exception_list : State → ℕ
  pub set_exception_list : ℕ → State → State

-- an event of the report: code, address, first handler, and the address of a memory fault
pub record Recorded : Type 0 where
  pub code : ℕ
  pub address : ℕ
  pub handler : ℕ
  pub faulting_address : Option ℕ

-- the state of the guest and of the handler frame that runs, with what it did
pub record World (S : Type 0) : Type 0 where
  pub guest : S
  pub stack_pointer : ℕ
  pub handler : HandlerState
  pub calls : List GuestCall
  pub recorded : List Recorded
  -- note_seh_resume
  pub resumed : List ℕ

-- UnhandledException: the error of a memory fault with its access code and address, or of its code
pub data Unhandled : Type 0 where
  invalid_access : ℕ → ℕ → ℕ → Unhandled
  unhandled_exception : ℕ → ℕ → Unhandled

-- a result, an error that no handler raises, UnhandledException, or a guest call that did not return
pub data Outcome (A : Type 0) : Type 0 where
  ok : A → Outcome A
  failed : Error → Outcome A
  unhandled : Unhandled → Outcome A
  no_return : Outcome A

abbrev pub M : Type 0 → Type 0 → Type 0
M S A = World S → Outcome A × World S

abbrev pub bind : {S A B : Type 0} → Outcome A × World S → (A → M S B) → Outcome B × World S
bind (ok a, w) f = f a w
bind (failed e, w) f = (failed e, w)
bind (unhandled u, w) f = (unhandled u, w)
bind (no_return, w) f = (no_return, w)

infixl 5 ◌>>=◌ ◌>>◌
abbrev pub ◌>>=◌ : {S A B : Type 0} → M S A → (A → M S B) → M S B
◌>>=◌ m f w = bind (m w) f

abbrev pub ◌>>◌ : {S B : Type 0} → M S (Unit {0}) → M S B → M S B
◌>>◌ m k w = bind (m w) (λ _. k)

abbrev pub return : {S A : Type 0} → A → M S A
return a w = (ok a, w)

abbrev pub throw : {S A : Type 0} → Unhandled → M S A
throw u w = (unhandled u, w)

abbrev pub from_option : {S A : Type 0} → Option A → M S A
from_option none w = (failed uc_error, w)
from_option (some a) w = (ok a, w)

-- an error of unwinding
abbrev pub from_result : {S A : Type 0} → Unwind.Result A → M S A
from_result (Unwind.ok a) w = (ok a, w)
from_result (Unwind.raise e) w = (failed e, w)

-- the result of a handler: Resume at a context, or the return value
pub data Result (Context : Type 0) : Type 0 where
  resume : Context → Result Context
  value : ℕ → Result Context

-- as_long: a 32-bit number as a signed number
unfoldable pub as_long : ℕ → ℤ
as_long v = if ltb (v % 2 ^ 32) (2 ^ 31) then pos (v % 2 ^ 32) else negsuc (2 ^ 32 - 1 - v % 2 ^ 32)

-- `flags |= 2 ^ bit`
unfoldable pub set_flag : ℕ → ℕ → ℕ
set_flag bit flags = if flags / 2 ^ bit % 2 == 1 then flags else flags + 2 ^ bit

module _ {Context : Type 0} (g : Guest Context) where
  abbrev pub with_guest : World g.State → Option g.State → Outcome (Unit {0}) × World g.State
  with_guest w none = (failed uc_error, w)
  with_guest w (some s) = (ok tt, record w { guest = s })

  -- emu.mem_read and emu.mem_write
  unfoldable pub mem_read : ℤ → ℕ → M g.State (List ℕ)
  mem_read address size w = from_option (g.read w.guest address size) w

  unfoldable pub mem_write : ℤ → List ℕ → M g.State (Unit {0})
  mem_write address bytes w = with_guest w (g.write w.guest address bytes)

  -- _u32 and _write_u32
  unfoldable pub read_u32 : ℤ → M g.State ℕ
  read_u32 address = do bytes ← mem_read address 4; return (from_bytes bytes)

  unfoldable pub write_u32 : ℤ → ℕ → M g.State (Unit {0})
  write_u32 address v = mem_write address (to_bytes 4 v)

  -- a stack address below 0 is no address: the write fails
  abbrev pub written : ℤ → List ℕ → M g.State ℕ
  written (pos address) bytes = do mem_write (pos address) bytes; return address
  written (negsuc address) bytes = λ w. (failed uc_error, w)

  abbrev pub top : World g.State → List ℕ → ℤ × HandlerState
  top w bytes =
      alloca (record { stack_pointer = w.stack_pointer; return_address = 0; handler = none })
        w.handler bytes

  -- guest_callbacks.alloca
  unfoldable pub alloc : List ℕ → M g.State ℕ
  alloc bytes w = written (top w bytes).0 bytes (record w { handler = (top w bytes).1 })

  abbrev pub returned : World g.State → Option (ℕ × g.State) → Outcome ℕ × World g.State
  returned w none = (no_return, w)
  returned w (some (result, s)) = (ok result, record w { guest = s })

  -- the yield of a GuestCall
  unfoldable pub guest_call : GuestCall → M g.State ℕ
  guest_call c w = returned (record w { calls = w.calls ++ c ∷ [] }) (g.call c w.guest)

  -- emu.write_ptr
  unfoldable pub write_ptr : ℕ → ℕ → M g.State (Unit {0})
  write_ptr address v = mem_write (pos address) (to_bytes g.ptr_size v)

  -- read_context and resume_at
  unfoldable pub read_context : ℕ → M g.State Context
  read_context address = do
    bytes ← mem_read (pos address) g.context_size
    return (g.decode_context bytes)

  unfoldable pub resume_at : Context → M g.State (Result Context)
  resume_at ctx w =
      (ok (resume ctx), record w { resumed = w.resumed ++ g.instruction_pointer ctx ∷ [] })
