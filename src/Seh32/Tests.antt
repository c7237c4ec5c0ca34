-- ===== src/Seh32/Tests.antt =====
-- Runs of the x86 dispatch on concrete guests.
use mathlib.Core.Path.{subst}
use speakeasy.Base.{
  ℕ, ◌+◌, ◌≤◌, Option, none, some, List, [], ◌∷◌, ◌++◌, ◌≡◌, inl, refl, ap, ◌∙◌, length, arith, All,
  ltb, leb, if◌then◌else◌, ◌==◌, ◌&&◌,
}
use speakeasy.Base.Int.{pos}
use speakeasy.Unwind.{from_bytes}
use speakeasy.Unwind.Frame.Prolog.{Bytes, load, to_bytes}
use speakeasy.Seh.{GuestCall, Guest, World}
use speakeasy.Seh.ByteMachine.{
  Machine, teb, head_of, set_head, machine_write, machine_guest, world, same_handlers, same_head,
  load_above, load_below, head_of-set_head,
}
use speakeasy.Seh32.{Context32, dispatch_exception, unwind_registrations, is_end, is_target}
use speakeasy.Seh32.Chain.{dispatch_exception-Within}
use speakeasy.Seh32.Calls.{Registration, functions, InMemory, Linked, IsStop}
use speakeasy.Seh32.Unwinding.{HeadSet, unwind_registrations-order}

abbrev context : Context32
context = record { eax = 0; ebp = 0; esp = 0x800; eip = 0x401000; others = [] }

abbrev guest : Guest Context32
guest = machine_guest 4 context (λ c. to_bytes 8 c.eip) (λ bytes. context) (λ c. c.eip)

-- two registrations, at 0x1000 and 0x1010, and an exception that is not continuable at 0x2000; the
-- head of the chain, 0x1000, is in the TEB
abbrev memory : Bytes
memory x =
    if x == 0x1000
    then 0x10
    else if x == 0x1001
    then 0x10
    else if x == 0x1005
    then 0x51
    else if leb 0x1010 x && ltb x 0x1014
    then 0xFF
    else if x == 0x1015
    then 0x52
    else if x == 0x2004
    then 1
    else if x == teb + 1
    then 0x10
    else 0

abbrev machine : Machine
machine = record { memory = memory }

abbrev outer : Registration
outer = record { address = 0x1010; next = 0xFFFFFFFF; handler = 0x5200 }

abbrev chain : List Registration
chain = record { address = 0x1000; next = 0x1010; handler = 0x5100 } ∷ outer ∷ []

dispatch_exception-Within_example :
    length (dispatch_exception guest 0x2000 0x3000 (world machine)).1.calls ≤ 0 + (1 + 4097)
dispatch_exception-Within_example =
    dispatch_exception-Within guest same_handlers 0x2000 0x3000 (world machine)

abbrev Kept : Machine → Machine → Type 0
Kept s s' = All (λ r. InMemory guest s r) chain → All (λ r. InMemory guest s' r) chain

by_call :
    (c : GuestCall) (s s' : Machine) (v : ℕ)
    → ◌≡◌ {A = Option (ℕ × Machine)} (some (1, s)) (some (v, s'))
    → Kept s s'
by_call c s s' v eq listed =
    subst (λ t. All (λ r. InMemory guest t r) chain) (ap (λ o. state_of o) eq) listed
  where
    state_of : Option (ℕ × Machine) → Machine
    state_of none = s
    state_of (some (n, t)) = t

by_write :
    (s s' : Machine) (address : ℕ) (bytes : List ℕ)
    → address + length bytes ≤ 0x800
    → machine_write s (pos address) bytes ≡ some s'
    → Kept s s'
by_write s s' address bytes below eq ((b1, r1, n1, h1), ((b2, r2, n2, h2), u)) =
    subst (λ t. All (λ r. InMemory guest t r) chain) (ap (λ o. state_of o) eq)
      (
        (
          b1,
          ap (λ l. some l) (load_above s.memory address bytes 0x1000 8 (omega arith)) ∙ r1,
          n1,
          h1,
        ),
        (
          (
            b2,
            ap (λ l. some l) (load_above s.memory address bytes 0x1010 8 (omega arith)) ∙ r2,
            n2,
            h2,
          ),
          u,
        ),
      )
  where
    state_of : Option Machine → Machine
    state_of none = s
    state_of (some t) = t

-- a change of the head of the chain keeps the registrations
by_unlink : (s : Machine) (next : ℕ) → Kept s (set_head next s)
unfolding set_head
by_unlink s next ((b1, r1, n1, h1), ((b2, r2, n2, h2), u)) = (
  (
    b1,
    ap (λ l. some l) (load_below s.memory teb (to_bytes 4 next) 0x1000 8 (omega arith)) ∙ r1,
    n1,
    h1,
  ),
  (
    (
      b2,
      ap (λ l. some l) (load_below s.memory teb (to_bytes 4 next) 0x1010 8 (omega arith)) ∙ r2,
      n2,
      h2,
    ),
    u,
  ),
)

heads : All (HeadSet guest) chain
heads = (
  λ s. head_of-set_head 0x1010 s (omega arith),
  (λ s. head_of-set_head 0xFFFFFFFF s (omega arith), tt),
)

listed : All (λ r. InMemory guest machine r) chain
unfolding load from_bytes
listed = ((load memory 0x1000 8, refl, refl, refl), ((load memory 0x1010 8, refl, refl, refl), tt))

linked : Linked 0 (head_of machine) chain 0xFFFFFFFF
unfolding is_end is_target head_of load from_bytes
linked = (refl, refl, refl, (refl, refl, refl, refl))

ends : IsStop 0 0xFFFFFFFF
unfolding is_end
ends = inl refl

unwind_registrations-order_example :
    (made : List ℕ) × (left : List ℕ) × (made ++ left ≡ 0x5100 ∷ 0x5200 ∷ [])
    × (functions (unwind_registrations guest 0 0 (world machine)).1.calls ≡ made)
unwind_registrations-order_example =
    unwind_registrations-order guest 0x800 chain by_call by_write by_unlink heads same_head 0 0
      0xFFFFFFFF (world machine) (omega arith) linked ends (listed, refl)

abbrev after : World Machine
after = (unwind_registrations guest 0 0 (world machine)).1
