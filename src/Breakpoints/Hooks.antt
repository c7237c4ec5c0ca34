-- ===== src/Breakpoints/Hooks.antt =====
-- What the hooks and hits of speakeasy/windows/hardware_breakpoints.py are.
use speakeasy.Base.{
  ℕ, zero, suc, ◌≡◌, refl, sym, ap, ◌∙◌, inl, inr, Bool, true, false, not, ◌&&◌, ◌||◌, Option, none,
  some, List, [], ◌∷◌, ◌++◌, ◌==◌, if◌then◌else◌, Bool-cases, Option-cases, ==_iff, arith,
}
use speakeasy.Breakpoints.{
  Thread, is_execute, index_of, set_default, add_breakpoint, execute_breakpoints, Breakpoints,
  is_hooked, is_wanted, keep_wanted, missing, wanted_of, update, id_of, resume_at, same_thread,
  is_resumed, raised, hit,
}

is_hooked-append :
    (x : ℕ) (before after : List ℕ)
    → is_hooked x (before ++ after) ≡ (is_hooked x before || is_hooked x after)
unfolding is_hooked
is_hooked-append x [] after = refl
is_hooked-append x (a ∷ before) after = ground (arith, is_hooked-append x before after)

is_hooked-keep_wanted :
    (x : ℕ) (wanted : List (ℕ × ℕ)) (hooks : List ℕ)
    → is_hooked x (keep_wanted wanted hooks) ≡ (is_hooked x hooks && is_wanted x wanted)
unfolding is_hooked keep_wanted
is_hooked-keep_wanted x wanted [] = refl
is_hooked-keep_wanted x wanted (a ∷ hooks) = elim (Bool-cases (a == x)) [
  | inl same ↦ ground (
    arith,
    ap (λ k. is_wanted k wanted) ((==_iff a x).0 same),
    is_hooked-keep_wanted x wanted hooks,
  )
  | inr other ↦ ground (arith, is_hooked-keep_wanted x wanted hooks)
]

is_hooked-missing :
    (x : ℕ) (hooks : List ℕ) (wanted : List (ℕ × ℕ))
    → is_hooked x (missing hooks wanted) ≡ (is_wanted x wanted && not (is_hooked x hooks))
unfolding is_hooked missing is_wanted
is_hooked-missing x hooks [] = refl
is_hooked-missing x hooks ((a, i) ∷ wanted) = elim (Bool-cases (a == x)) [
  | inl same ↦
      ground
        (arith, ap (λ k. is_hooked k hooks) ((==_iff a x).0 same), is_hooked-missing x hooks wanted)
  | inr other ↦ ground (arith, is_hooked-missing x hooks wanted)
]

-- After `update`, an address has a hook exactly if it is a wanted breakpoint, whatever the hooks were.
pub update-is_hooked :
    (thread : Option Thread) (is_kernel_mode : Bool) (b : Breakpoints) (x : ℕ)
    → is_hooked x (update thread is_kernel_mode b).hooks
      ≡ is_wanted x (wanted_of thread is_kernel_mode)
unfolding update
update-is_hooked thread is_kernel_mode b x =
    is_hooked-append x (keep_wanted (wanted_of thread is_kernel_mode) b.hooks)
      (missing b.hooks (wanted_of thread is_kernel_mode))
    ∙ ground (
      arith,
      is_hooked-keep_wanted x (wanted_of thread is_kernel_mode) b.hooks,
      is_hooked-missing x b.hooks (wanted_of thread is_kernel_mode),
    )

same_thread_refl : (id : Option ℕ) → same_thread id id ≡ true
unfolding same_thread
same_thread_refl none = refl
same_thread_refl (some a) = ground arith

-- After `resume_at` a hooked address, the first hit of the thread at the address raises nothing, and the
-- second hit raises what a hit without the resume raises: the breakpoint is skipped one time only.
pub hit-resume_at :
    (thread : Option Thread) (address : ℕ) (b : Breakpoints)
    → is_hooked address b.hooks ≡ true
    → ((hit thread address (resume_at thread address b)).0 ≡ none)
      × ((hit thread address (hit thread address (resume_at thread address b)).1).0
          ≡ raised thread address)
unfolding hit resume_at is_resumed
hit-resume_at thread address b hooked =
    let here : (address == address) ≡ true = ground arith in
    rw hooked (rw (same_thread_refl (id_of thread)) (rw here (refl, refl)))

-- the lowest index from `i` on, of `n` indices, that is an execute breakpoint at the address
unfoldable pub lowest_index : ℕ → ℕ → Thread → ℕ → Option ℕ
lowest_index zero i t address = none
lowest_index (suc n) i t address =
    let rest = lowest_index n (suc i) t address in
    if is_execute t i && t.dr i == address then some i else rest

abbrev or_else : Option ℕ → Option ℕ → Option ℕ
or_else none other = other
or_else (some i) other = some i

index_of-append :
    (x a i : ℕ) (breakpoints : List (ℕ × ℕ))
    → index_of x (breakpoints ++ (a, i) ∷ [])
      ≡ or_else (index_of x breakpoints) (if a == x then some i else none)
unfolding index_of
index_of-append x a i [] = refl
index_of-append x a i ((c, j) ∷ breakpoints) = elim (Bool-cases (c == x)) [
  | inl same ↦ rw same refl
  | inr other ↦ rw other (index_of-append x a i breakpoints)
]

-- an index for an address that is there already does not count
or_else_there :
    (x a i j : ℕ) (breakpoints : List (ℕ × ℕ))
    → index_of a breakpoints ≡ some j
    → index_of x breakpoints ≡ or_else (index_of x breakpoints) (if a == x then some i else none)
or_else_there x a i j breakpoints e = elim (Bool-cases (a == x)) [
  | inl same ↦
      let found : index_of x breakpoints ≡ some j =
        ap (λ k. index_of k breakpoints) (sym ((==_iff a x).0 same)) ∙ e in
      rw found refl
  | inr other ↦ rw other (or_none (index_of x breakpoints))
]
  where
    or_none : (r : Option ℕ) → r ≡ or_else r none
    or_none none = refl
    or_none (some k) = refl

index_of-set_default :
    (x a i : ℕ) (breakpoints : List (ℕ × ℕ))
    → index_of x (set_default a i breakpoints)
      ≡ or_else (index_of x breakpoints) (if a == x then some i else none)
unfolding set_default
index_of-set_default x a i breakpoints = elim (Option-cases (index_of a breakpoints)) [
  | inl new ↦ rw (new, set_default) (index_of-append x a i breakpoints)
  | inr (j, there) ↦ rw (there, set_default) (or_else_there x a i j breakpoints there)
]

-- the index of one turn
abbrev turn : Thread → ℕ → ℕ → Option ℕ
turn t x i = if is_execute t i && t.dr i == x then some i else none

index_of-add_breakpoint :
    (t : Thread) (x i : ℕ) (breakpoints : List (ℕ × ℕ))
    → index_of x (add_breakpoint t i breakpoints) ≡ or_else (index_of x breakpoints) (turn t x i)
unfolding add_breakpoint
index_of-add_breakpoint t x i breakpoints = elim (Bool-cases (is_execute t i)) [
  | inl on ↦ rw on (index_of-set_default x (t.dr i) i breakpoints)
  | inr off ↦ rw off (or_none (index_of x breakpoints))
]
  where
    or_none : (r : Option ℕ) → r ≡ or_else r none
    or_none none = refl
    or_none (some k) = refl

-- The index that `execute_breakpoints` has for an address is the lowest index of a debug register that
-- holds the address and that Dr7 enables for execution, if there is one.
pub execute_breakpoints_lem :
    (t : Thread) (x : ℕ) → index_of x (execute_breakpoints t) ≡ lowest_index 4 0 t x
unfolding execute_breakpoints lowest_index index_of
execute_breakpoints_lem t x =
    index_of-add_breakpoint t x 3 _
    ∙ ap (λ r. or_else r (turn t x 3))
        (index_of-add_breakpoint t x 2 _
          ∙ ap (λ r. or_else r (turn t x 2))
              (index_of-add_breakpoint t x 1 _
                ∙ ap (λ r. or_else r (turn t x 1)) (index_of-add_breakpoint t x 0 [])))
    ∙ joined (is_execute t 0 && t.dr 0 == x) (is_execute t 1 && t.dr 1 == x)
        (is_execute t 2 && t.dr 2 == x) (is_execute t 3 && t.dr 3 == x)
  where
    joined :
        (a b c d : Bool)
        → or_else
            (or_else
              (or_else (if a then some 0 else none) (if b then some 1 else none))
              (if c then some 2 else none))
            (if d then some 3 else none)
          ≡ (if a
              then some 0
              else if b
              then some 1
              else if c
              then some 2
              else if d
              then some 3
              else none)
    joined true b c d = refl
    joined false true c d = refl
    joined false false true d = refl
    joined false false false true = refl
    joined false false false false = refl
