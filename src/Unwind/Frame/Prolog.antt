-- ===== src/Unwind/Frame/Prolog.antt =====
-- Prologs, and that `virtual_unwind` undoes them: the instructions of a prolog run on registers and
-- byte memory, as an independent description of what the unwind codes stand for.
use speakeasy.Base.{
  ℕ, zero, suc, ◌+◌, ◌-◌, ◌*◌, ◌/◌, ◌%◌, ◌^◌, ◌≤◌, ◌<◌, ◌≡◌, refl, ◌∙◌, ◌≢◌, ◌⊎◌, inr, Bool, false,
  ◌&&◌, ◌||◌, List, [], ◌∷◌, ◌++◌, length, ltb, leb, ◌==◌, if◌then◌else◌, All, arith,
}
use native.Mathlib.Nat.{pow-suc}
use speakeasy.Unwind.{from_bytes}
use speakeasy.Unwind.Info.{UnwindCode}

abbrev pub Bytes : Type 0
Bytes = ℕ → ℕ

-- the bytes of a number, the lowest first
unfoldable pub to_bytes : ℕ → ℕ → List ℕ
to_bytes zero v = []
to_bytes (suc n) v = v % 256 ∷ to_bytes n (v / 256)

unfoldable pub load : Bytes → ℕ → ℕ → List ℕ
load m a zero = []
load m a (suc n) = m a ∷ load m (a + 1) n

unfoldable pub store : Bytes → ℕ → List ℕ → Bytes
store m a [] = m
store m a (b ∷ bytes) = λ x. if x == a then b else store m (a + 1) bytes x

-- push of a register, and sub rsp of a multiple of 8 in the small form (at most 128), of one in the
-- large form with a 16-bit operand, and of any number in the large form with a 32-bit operand
pub data Step : Type 0 where
  push : ℕ → Step
  alloc_small : ℕ → Step
  alloc_scaled : ℕ → Step
  alloc_large : ℕ → Step

-- how far a step moves rsp
unfoldable pub depth : Step → ℕ
depth (push r) = 8
depth (alloc_small n) = n * 8 + 8
depth (alloc_scaled n) = n * 8
depth (alloc_large n) = n

unfoldable pub total_depth : List Step → ℕ
total_depth [] = 0
total_depth (s ∷ steps) = depth s + total_depth steps

-- memory and rsp after a step, with the registers before it: a step changes no other register
unfoldable pub run_step : (ℕ → ℕ) → Step → Bytes × ℕ → Bytes × ℕ
run_step regs (push r) (m, sp) = (store m (sp - 8) (to_bytes 8 (regs r)), sp - 8)
run_step regs (alloc_small n) (m, sp) = (m, sp - (n * 8 + 8))
run_step regs (alloc_scaled n) (m, sp) = (m, sp - n * 8)
run_step regs (alloc_large n) (m, sp) = (m, sp - n)

unfoldable pub run : (ℕ → ℕ) → List Step → Bytes × ℕ → Bytes × ℕ
run regs [] state = state
run regs (s ∷ steps) state = run regs steps (run_step regs s state)

-- the unwind code of a step that ends at an offset of the prolog
unfoldable pub code_of : ℕ → Step → UnwindCode
code_of offset (push r) = record { prolog_offset = offset; op = 0; info = r; operand = 0 }
code_of offset (alloc_small n) = record { prolog_offset = offset; op = 2; info = n; operand = 0 }
code_of offset (alloc_scaled n) = record { prolog_offset = offset; op = 1; info = 0; operand = n }
code_of offset (alloc_large n) = record { prolog_offset = offset; op = 1; info = 1; operand = n }

-- the codes of a prolog: those of the last instructions come first
unfoldable pub codes_of : List (ℕ × Step) → List UnwindCode
codes_of [] = []
codes_of ((offset, s) ∷ steps) = codes_of steps ++ code_of offset s ∷ []

unfoldable pub steps_of : List (ℕ × Step) → List Step
steps_of [] = []
steps_of ((offset, s) ∷ steps) = s ∷ steps_of steps

unfoldable pub is_pushed : ℕ → List Step → Bool
is_pushed r [] = false
is_pushed r (push q ∷ steps) = q == r || is_pushed r steps
is_pushed r (s ∷ steps) = is_pushed r steps

-- a push is of another register than rsp
unfoldable pub IsUsual : Step → Type 0
IsUsual (push r) = r ≢ 4
IsUsual (alloc_small n) = Unit {0}
IsUsual (alloc_scaled n) = Unit {0}
IsUsual (alloc_large n) = Unit {0}

pub from_bytes-to_bytes : (n v : ℕ) → v < 256 ^ n → from_bytes (to_bytes n v) ≡ v
unfolding from_bytes to_bytes
from_bytes-to_bytes zero v h = omega arith
from_bytes-to_bytes (suc n) v h =
    let smaller : v < 256 ^ n * 256 = rw (pow-suc 256 n) at h in
    omega (arith, from_bytes-to_bytes n (v / 256) (omega arith))

pub length-to_bytes : (n v : ℕ) → length (to_bytes n v) ≡ n
unfolding to_bytes
length-to_bytes zero v = refl
length-to_bytes (suc n) v = omega (arith, length-to_bytes n (v / 256))

pub store_other :
    (m : Bytes) (a : ℕ) (bytes : List ℕ) (x : ℕ)
    → x < a ⊎ a + length bytes ≤ x
    → store m a bytes x ≡ m x
unfolding store
store_other m a [] x h = refl
store_other m a (b ∷ bytes) x h = ground (arith, store_other m (a + 1) bytes x)

pub load-store :
    (m m' : Bytes) (a : ℕ) (bytes : List ℕ)
    → ((x : ℕ) → a ≤ x → x < a + length bytes → m' x ≡ store m a bytes x)
    → load m' a (length bytes) ≡ bytes
unfolding load store
load-store m m' a [] h = refl
load-store m m' a (b ∷ bytes) h =
    ground (arith, h a, load-store m m' (a + 1) bytes (λ x p q. ground (arith, h x)))

-- the bytes that the body must keep: the slots of the pushes
unfoldable pub is_saved : List Step → ℕ → ℕ → Bool
is_saved [] sp x = false
is_saved (push r ∷ steps) sp x = leb (sp - 8) x && ltb x sp || is_saved steps (sp - 8) x
is_saved (alloc_small n ∷ steps) sp x = is_saved steps (sp - (n * 8 + 8)) x
is_saved (alloc_scaled n ∷ steps) sp x = is_saved steps (sp - n * 8) x
is_saved (alloc_large n ∷ steps) sp x = is_saved steps (sp - n) x

pub run_sp :
    (regs : ℕ → ℕ) (steps : List Step) (m : Bytes) (sp : ℕ)
    → (run regs steps (m, sp)).1 ≡ sp - total_depth steps
unfolding run run_step total_depth depth
run_sp regs [] m sp = omega arith
run_sp regs (push r ∷ steps) m sp =
    omega (arith, run_sp regs steps (store m (sp - 8) (to_bytes 8 (regs r))) (sp - 8))
run_sp regs (alloc_small n ∷ steps) m sp = omega (arith, run_sp regs steps m (sp - (n * 8 + 8)))
run_sp regs (alloc_scaled n ∷ steps) m sp = omega (arith, run_sp regs steps m (sp - n * 8))
run_sp regs (alloc_large n ∷ steps) m sp = omega (arith, run_sp regs steps m (sp - n))

-- a prolog writes below rsp only
pub run_above :
    (regs : ℕ → ℕ) (steps : List Step) (m : Bytes) (sp x : ℕ)
    → total_depth steps ≤ sp
    → sp ≤ x
    → (run regs steps (m, sp)).0 x ≡ m x
unfolding run run_step total_depth depth
run_above regs [] m sp x fits p = refl
run_above regs (push r ∷ steps) m sp x fits p =
    run_above regs steps (store m (sp - 8) (to_bytes 8 (regs r))) (sp - 8) x (omega arith)
      (omega arith)
    ∙ store_other m (sp - 8) (to_bytes 8 (regs r)) x
        (inr (omega (arith, length-to_bytes 8 (regs r))))
run_above regs (alloc_small n ∷ steps) m sp x fits p =
    run_above regs steps m (sp - (n * 8 + 8)) x (omega arith) (omega arith)
run_above regs (alloc_scaled n ∷ steps) m sp x fits p =
    run_above regs steps m (sp - n * 8) x (omega arith) (omega arith)
run_above regs (alloc_large n ∷ steps) m sp x fits p =
    run_above regs steps m (sp - n) x (omega arith) (omega arith)

pub pushed_rsp :
    (steps : List (ℕ × Step)) → All (λ p. IsUsual p.1) steps → is_pushed 4 (steps_of steps) ≡ false
unfolding is_pushed steps_of IsUsual
pushed_rsp [] h = refl
pushed_rsp ((o, push r) ∷ steps) h = ground (arith, h.0, pushed_rsp steps h.1)
pushed_rsp ((o, alloc_small n) ∷ steps) h = pushed_rsp steps h.1
pushed_rsp ((o, alloc_scaled n) ∷ steps) h = pushed_rsp steps h.1
pushed_rsp ((o, alloc_large n) ∷ steps) h = pushed_rsp steps h.1
