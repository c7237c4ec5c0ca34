-- ===== src/Breakpoints.antt =====
-- speakeasy/windows/hardware_breakpoints.py: execute breakpoints from the debug registers of a thread.
pub mod Hooks
mod Tests
use speakeasy.Base.{
  ℕ, zero, suc, ◌+◌, ◌*◌, ◌/◌, ◌%◌, ◌^◌, Bool, true, false, not, ◌&&◌, ◌||◌, Option, none, some,
  List, [], ◌∷◌, ◌++◌, ◌==◌, if◌then◌else◌,
}

-- a thread, known by its number, with its debug registers: `dr i` is Dr0 to Dr3
pub record Thread : Type 0 where
  pub id : ℕ
  pub dr : ℕ → ℕ
  pub dr6 : ℕ
  pub dr7 : ℕ

-- a breakpoint that Dr7 enables, locally or globally, with the R/W field of execution
unfoldable pub is_execute : Thread → ℕ → Bool
is_execute t i = not (t.dr7 / 2 ^ (2 * i) % 4 == 0) && t.dr7 / 2 ^ (16 + 4 * i) % 4 == 0

unfoldable pub index_of : ℕ → List (ℕ × ℕ) → Option ℕ
index_of address [] = none
index_of address ((a, i) ∷ breakpoints) =
    if a == address then some i else index_of address breakpoints

-- breakpoints.setdefault(address, i)
unfoldable pub set_default : ℕ → ℕ → List (ℕ × ℕ) → List (ℕ × ℕ)
set_default address i breakpoints = elim (index_of address breakpoints) [
  | none ↦ breakpoints ++ (address, i) ∷ []
  | some j ↦ breakpoints
]

-- one turn of the loop of `execute_breakpoints`
unfoldable pub add_breakpoint : Thread → ℕ → List (ℕ × ℕ) → List (ℕ × ℕ)
add_breakpoint t i breakpoints =
    if is_execute t i then set_default (t.dr i) i breakpoints else breakpoints

unfoldable pub execute_breakpoints : Thread → List (ℕ × ℕ)
execute_breakpoints t =
    add_breakpoint t 3 (add_breakpoint t 2 (add_breakpoint t 1 (add_breakpoint t 0 [])))

-- the addresses of the hooks; `resume` is a thread and the breakpoint that the resume flag skips
pub record Breakpoints : Type 0 where
  pub hooks : List ℕ
  pub resume : Option (Option ℕ × ℕ)

unfoldable pub is_hooked : ℕ → List ℕ → Bool
is_hooked address [] = false
is_hooked address (a ∷ hooks) = a == address || is_hooked address hooks

unfoldable pub is_wanted : ℕ → List (ℕ × ℕ) → Bool
is_wanted address [] = false
is_wanted address ((a, i) ∷ wanted) = a == address || is_wanted address wanted

-- the hooks that stay
unfoldable pub keep_wanted : List (ℕ × ℕ) → List ℕ → List ℕ
keep_wanted wanted [] = []
keep_wanted wanted (a ∷ hooks) =
    let rest = keep_wanted wanted hooks in if is_wanted a wanted then a ∷ rest else rest

-- the addresses of the new hooks
unfoldable pub missing : List ℕ → List (ℕ × ℕ) → List ℕ
missing hooks [] = []
missing hooks ((a, i) ∷ wanted) =
    let rest = missing hooks wanted in if is_hooked a hooks then rest else a ∷ rest

-- `wanted` of `update`
unfoldable pub wanted_of : Option Thread → Bool → List (ℕ × ℕ)
wanted_of none is_kernel_mode = []
wanted_of (some t) is_kernel_mode = if is_kernel_mode then [] else execute_breakpoints t

unfoldable pub update : Option Thread → Bool → Breakpoints → Breakpoints
update thread is_kernel_mode b =
    let wanted = wanted_of thread is_kernel_mode in
    record b { hooks = keep_wanted wanted b.hooks ++ missing b.hooks wanted }

abbrev pub id_of : Option Thread → Option ℕ
id_of none = none
id_of (some t) = some t.id

unfoldable pub resume_at : Option Thread → ℕ → Breakpoints → Breakpoints
resume_at thread address b =
    if is_hooked address b.hooks
    then record b { resume = some (id_of thread, address) }
    else record b { resume = none }

unfoldable pub same_thread : Option ℕ → Option ℕ → Bool
same_thread none none = true
same_thread none (some b) = false
same_thread (some a) none = false
same_thread (some a) (some b) = a == b

-- `resume == (thread, address)`, for a resume that is set
unfoldable pub is_resumed : Option (Option ℕ × ℕ) → Option Thread → ℕ → Bool
is_resumed none thread address = false
is_resumed (some (id, at)) thread address = same_thread id (id_of thread) && at == address

-- `Dr6 |= 1 << index`
unfoldable pub set_dr6 : ℕ → Thread → Thread
set_dr6 index t = if t.dr6 / 2 ^ index % 2 == 1 then t else record t { dr6 = t.dr6 + 2 ^ index }

-- the exception of a hit: the thread with its new Dr6, if the address is a breakpoint of the thread
unfoldable pub raised : Option Thread → ℕ → Option Thread
raised none address = none
raised (some t) address = elim (index_of address (execute_breakpoints t)) [
  | none ↦ none
  | some index ↦ some (set_dr6 index t)
]

-- _hit: the thread if STATUS_SINGLE_STEP is raised, and the state, which the resume has left
unfoldable pub hit : Option Thread → ℕ → Breakpoints → Option Thread × Breakpoints
hit thread address b =
    let b' : Breakpoints = record b { resume = none } in
    if is_resumed b.resume thread address then (none, b') else (raised thread address, b')
