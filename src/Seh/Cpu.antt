-- ===== src/Seh/Cpu.antt =====
-- speakeasy/windows/cpu_exceptions.py: the exceptions of interrupts, instructions and memory faults.
use speakeasy.Base.{
  ℕ, ◌+◌, Bool, false, ◌&&◌, ◌||◌, not, Option, none, some, List, [], ◌∷◌, ◌==◌, ◌≡◌, ◌↔◌, ◌⊎◌,
  if◌then◌else◌, arith,
}
use speakeasy.Base.Int.{ℤ, pos, sub_ℕ}

-- CpuException; the addresses before a small pc are below 0
pub record CpuException : Type 0 where
  pub code : ℕ
  pub address : ℤ
  pub pc : ℤ
  pub params : List ℕ

-- an exception at the pc
abbrev at_pc : ℕ → ℤ → List ℕ → CpuException
at_pc code pc params = record { code = code; address = pc; pc = pc; params = params }

unfoldable pub general_protection : ℤ → CpuException
general_protection pc = at_pc 0xC0000005 pc (0 ∷ 0xFFFFFFFFFFFFFFFF ∷ [])

-- `code_bytes == bytes((first, second))`
unfoldable pub is_bytes : ℕ → ℕ → List ℕ → Bool
is_bytes first second (a ∷ b ∷ []) = a == first && b == second
is_bytes first second [] = false
is_bytes first second (a ∷ []) = false
is_bytes first second (a ∷ b ∷ c ∷ bytes) = false

-- DEBUG_SERVICE_NO_EXCEPTION
unfoldable pub is_no_exception : ℕ → Bool
is_no_exception rax = rax == 1 || (rax == 3 || (rax == 4 || rax == 5))

-- interrupt 1
unfoldable pub from_debug_trap : ℕ → List ℕ → Bool → CpuException
from_debug_trap pc code_bytes trap_flag =
    if not trap_flag && is_bytes 0xCD 1 code_bytes
    then general_protection (sub_ℕ pc 2)
    else at_pc 0x80000004 (pos pc) []

-- INT_DEBUG_SERVICE
unfoldable pub from_debug_service : ℕ → ℕ → Option CpuException
from_debug_service pc rax =
    if is_no_exception rax
    then none
    else some (record { code = 0x80000003; address = pos (pc + 1); pc = pos pc; params = rax ∷ [] })

-- INT_BREAKPOINT is 0x03, INT_ASSERTION 0x2C and INT_DEBUG_SERVICE 0x2D
unfoldable pub from_interrupt : ℕ → ℕ → List ℕ → ℕ → Bool → Option CpuException
from_interrupt intno pc code_bytes rax trap_flag =
    if intno == 0
    then some (at_pc 0xC0000094 (pos pc) [])
    else if intno == 1
    then some (from_debug_trap pc code_bytes trap_flag)
    else if intno == 0x03
    then some (at_pc 0x80000003 (sub_ℕ pc 1) (0 ∷ []))
    else if intno == 0x2D
    then from_debug_service pc rax
    else if intno == 0x2C
    then some (at_pc 0xC0000420 (sub_ℕ pc 2) [])
    else if is_bytes 0xCD intno code_bytes
    then some (general_protection (sub_ℕ pc 2))
    else some (general_protection (pos pc))

unfoldable pub skip_debug_service : ℕ → ℕ
skip_debug_service pc = pc + 1

-- `code_bytes[:1] == b"\xf1"`
unfoldable pub is_icebp : List ℕ → Bool
is_icebp [] = false
is_icebp (a ∷ bytes) = a == 0xF1

unfoldable pub from_invalid_instruction : ℕ → List ℕ → CpuException
from_invalid_instruction pc code_bytes =
    if is_icebp code_bytes then at_pc 0x80000004 (pos (pc + 1)) [] else at_pc 0xC000001D (pos pc) []

unfoldable pub privileged_instruction : ℕ → CpuException
privileged_instruction pc = at_pc 0xC0000096 (pos pc) []

-- the names of accesses
pub data Access : Type 0 where
  read write fetch : Access

-- ACCESS_CODES, with 0 for an access that has no name
unfoldable pub access_code : Option Access → ℕ
access_code none = 0
access_code (some read) = 0
access_code (some write) = 1
access_code (some fetch) = 8

unfoldable pub memory_fault : ℕ → ℕ → Option Access → ℕ → CpuException
memory_fault pc address access code = at_pc code (pos pc) (access_code access ∷ address ∷ [])

-- An interrupt raises no exception exactly when it is `int 2d` with one of the debug services 1, 3, 4
-- and 5 in rax: an exception for every other interrupt, with any bytes before the pc.
pub from_interrupt-none :
    (intno pc : ℕ) (code_bytes : List ℕ) (rax : ℕ) (trap_flag : Bool)
    → (from_interrupt intno pc code_bytes rax trap_flag ≡ none)
      ↔ ((intno ≡ 0x2D) × ((rax ≡ 1) ⊎ (rax ≡ 3) ⊎ (rax ≡ 4) ⊎ (rax ≡ 5)))
unfolding from_interrupt from_debug_service is_no_exception
from_interrupt-none intno pc code_bytes rax trap_flag = ground arith
