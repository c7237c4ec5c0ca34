-- ===== src/Seh/Preserves.antt =====
-- What the reads and the writes of a handler of speakeasy/windows/seh.py keep of the world.
use speakeasy.Base.{
  ℕ, ◌+◌, ◌-◌, ◌%◌, ◌≤◌, length, leb, leb→le, ap, arith, Bool, true, false, Option, none, some,
  List, ◌≡◌, refl, if◌then◌else◌,
}
use speakeasy.Base.Int.{ℤ, pos, negsuc, pos_part}
use speakeasy.Callbacks.{HandlerState, aligned, alloca}
use speakeasy.Seh.{
  Guest, World, Outcome, ok, failed, unhandled, no_return, M, bind, from_option, with_guest,
  written, top, ◌>>=◌, return, mem_read, mem_write, alloc,
}
use speakeasy.Seh.Records.{read_record}
use speakeasy.Seh.Dispatch.{dispatch_init}

-- a program keeps a property of the world, whatever its outcome is
pub record Preserves {S A : Type 0} (P : World S → Type 0) (m : M S A) : Type 0 where
  pub keeps : (w : World S) → P w → P (m w).1

pub bind-keeps :
    {S A B : Type 0} (P : World S → Type 0) (r : Outcome A × World S) (f : A → M S B)
    → P r.1
    → ((a : A) (w' : World S) → P w' → P (f a w').1)
    → P (bind r f).1
bind-keeps P (ok a, w') f p rest = rest a w' p
bind-keeps P (failed e, w') f p rest = p
bind-keeps P (unhandled u, w') f p rest = p
bind-keeps P (no_return, w') f p rest = p

pub bind-Preserves :
    {S A B : Type 0} {P : World S → Type 0} {m : M S A} {f : A → M S B}
    → Preserves P m
    → ((a : A) → Preserves P (f a))
    → Preserves P (m >>= f)
bind-Preserves {P = P} {m = m} {f = f} first rest = record {
  keeps = λ w p. bind-keeps P (m w) f (first.keeps w p) (λ a. (rest a).keeps);
}

pub return-Preserves :
    {S A : Type 0} {P : World S → Type 0} {a : A} → Preserves P (return {S = S} a)
return-Preserves = record { keeps = λ w p. p }

pub if-Preserves :
    {S A : Type 0} {P : World S → Type 0} {m m' : M S A} (b : Bool)
    → Preserves P m
    → Preserves P m'
    → Preserves P (if b then m else m')
if-Preserves true first second = first
if-Preserves false first second = second

pub from_option-keeps :
    {S A : Type 0} (P : World S → Type 0) (o : Option A) (w : World S) → P w → P (from_option o w).1
from_option-keeps P none w p = p
from_option-keeps P (some a) w p = p

-- the address that `alloca` gives has the data below the stack pointer of the frame
below :
    (sp k a : ℕ) (b : Bool)
    → leb k sp ≡ b
    → aligned (if b then pos (sp - k) else negsuc (k - sp - 1)) ≡ pos a
    → a + k ≤ sp
unfolding aligned
below sp k a true in_stack eq =
    let le = leb→le k sp in_stack in
    let top : sp - k - (sp - k) % 16 ≡ a = ap pos_part eq in omega arith
below sp k a false in_stack eq = cc eq

-- A property that the reads keep, that the writes of data below the stack pointer keep, and that does
-- not speak of the state of the handler.
module _ {Context : Type 0} (g : Guest Context) (P : World g.State → Type 0)
    (P-write : (w : World g.State) (address : ℕ) (bytes : List ℕ) (s : g.State)
      → address + length bytes ≤ w.stack_pointer
      → g.write w.guest (pos address) bytes ≡ some s
      → P w
      → P (record w { guest = s }))
    (P-handler : (w : World g.State) (h : HandlerState) → P w → P (record w { handler = h })) where
  with_guest-keeps :
      (w : World g.State) (address : ℕ) (bytes : List ℕ) (o : Option g.State)
      → address + length bytes ≤ w.stack_pointer
      → g.write w.guest (pos address) bytes ≡ o
      → P w
      → P (with_guest g w o).1
  with_guest-keeps w address bytes none in_stack eq p = p
  with_guest-keeps w address bytes (some s) in_stack eq p = P-write w address bytes s in_stack eq p

  pub mem_read-Preserves : (address : ℤ) (size : ℕ) → Preserves P (mem_read g address size)
  unfolding mem_read
  mem_read-Preserves address size = record {
    keeps = λ w p. from_option-keeps P (g.read w.guest address size) w p;
  }

  written-keeps :
      (w : World g.State) (z : ℤ) (bytes : List ℕ)
      → ((a : ℕ) → z ≡ pos a → a + length bytes ≤ w.stack_pointer)
      → P w
      → P (written g z bytes w).1
  unfolding mem_write
  written-keeps w (pos address) bytes in_stack p =
      bind-keeps P (mem_write g (pos address) bytes w) (λ _. return address)
        (with_guest-keeps w address bytes (g.write w.guest (pos address) bytes)
          (in_stack address refl) refl p)
        (λ a w' p'. p')
  written-keeps w (negsuc address) bytes in_stack p = p

  pub alloc-Preserves : (bytes : List ℕ) → Preserves P (alloc g bytes)
  unfolding alloc alloca
  alloc-Preserves bytes = record {
    keeps = λ w p.
        written-keeps (record w { handler = (top g w bytes).1 }) (top g w bytes).0 bytes
          (λ a eq.
            let fits =
              below w.stack_pointer (w.handler.scratch + length bytes) a
                (leb (w.handler.scratch + length bytes) w.stack_pointer) refl eq in
            omega arith)
          (P-handler w (top g w bytes).1 p);
  }

  pub read_record-Preserves : (address : ℕ) → Preserves P (read_record g address)
  unfolding read_record
  read_record-Preserves address =
      bind-Preserves (mem_read-Preserves (pos address) _) (λ _. return-Preserves)

  pub dispatch_init-Preserves :
      (record_address context : ℕ) → Preserves P (dispatch_init g record_address context)
  unfolding dispatch_init
  dispatch_init-Preserves record_address context =
      bind-Preserves (read_record-Preserves record_address)
        (λ fields. bind-Preserves (alloc-Preserves _) (λ _. return-Preserves))
