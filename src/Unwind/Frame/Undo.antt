-- ===== src/Unwind/Frame/Undo.antt =====
-- `virtual_unwind` undoes a prolog: the inductive lemma on the codes, and the theorem on a frame.
use mathlib.Core.Path.{fun_ext}
use speakeasy.Base.{
  ℕ, ◌+◌, ◌-◌, ◌*◌, ◌^◌, ◌≤◌, ◌<◌, ◌≡◌, refl, sym, ap, ◌∙◌, inl, inr, Bool, true, false, List, [],
  ◌∷◌, ◌++◌, ltb, ◌==◌, if◌then◌else◌, Bool-cases, ==_iff, All, arith, some,
}
use speakeasy.Base.Int.{ℤ, pos}
use speakeasy.Unwind.{Result, ok, raise, ◌>>=◌, Reader, read_bytes, unpack, u64}
use speakeasy.Unwind.Info.{UnwindCode, UnwindInfo}
use speakeasy.Unwind.Frame.{Context, rsp, set_gpr, add_rsp, load_gpr, undo, undo_codes}
use speakeasy.Unwind.Frame.Prolog.{
  Bytes, to_bytes, load, store, Step, push, alloc_small, alloc_scaled, alloc_large, depth,
  total_depth, run_step, run, code_of, codes_of, steps_of, is_pushed, IsUsual, is_saved,
  from_bytes-to_bytes, length-to_bytes, load-store, run_above, pushed_rsp,
}

-- the registers after the unwinding of some steps
abbrev pub restored : (ℕ → ℕ) → List Step → ℕ → Context → Context
restored regs steps sp ctx = record ctx {
  gpr = λ r. if is_pushed r steps then regs r else if r == 4 then sp else ctx.gpr r;
}

bind_step :
    {A B C : Type 0} (r : Result A) (f : A → Result C) (g : A → Result B) (h : B → Result C)
    → ((a : A) → f a ≡ (g a >>= h))
    → (r >>= f) ≡ ((r >>= g) >>= h)
bind_step (ok a) f g h e = e a
bind_step (raise x) f g h e = refl

pub undo_codes-append :
    (read : Reader) (info : UnwindInfo) (offset : ℕ) (frame : ℤ) (xs ys : List UnwindCode)
    (state : Context × Bool)
    → undo_codes read info offset frame (xs ++ ys) state
      ≡ (undo_codes read info offset frame xs state >>= λ s. undo_codes read info offset frame ys s)
unfolding undo_codes
undo_codes-append read info offset frame [] ys state = refl
undo_codes-append read info offset frame (c ∷ xs) ys state =
    elim (Bool-cases (ltb offset c.prolog_offset)) [
      | inl later ↦ rw later (undo_codes-append read info offset frame xs ys state)
      | inr done ↦ rw done (
          bind_step (undo read info frame c state) _ _ _
            (λ s. undo_codes-append read info offset frame xs ys s))
    ]

pub undo_codes_later :
    (read : Reader) (info : UnwindInfo) (offset : ℕ) (frame : ℤ) (xs : List UnwindCode)
    (state : Context × Bool)
    → All (λ c. offset < c.prolog_offset) xs
    → undo_codes read info offset frame xs state ≡ ok state
unfolding undo_codes
undo_codes_later read info offset frame [] state h = refl
undo_codes_later read info offset frame (c ∷ xs) state h =
    ground (arith, h.0, undo_codes_later read info offset frame xs state h.1)

unpack-to_bytes : (n v : ℕ) → v < 256 ^ n → unpack n (to_bytes n v) ≡ ok v
unfolding unpack
unpack-to_bytes n v small = rw (length-to_bytes n v, from_bytes-to_bytes n v small) (ground arith)

load-to_bytes :
    (m m' : Bytes) (a n v : ℕ)
    → ((x : ℕ) → a ≤ x → x < a + n → m' x ≡ store m a (to_bytes n v) x)
    → load m' a n ≡ to_bytes n v
load-to_bytes m m' a n v same =
    ap (load m' a) (sym (length-to_bytes n v))
    ∙ load-store m m' a (to_bytes n v) (λ x p q. same x p (omega (arith, length-to_bytes n v)))

-- the read of a slot that a push of `v` wrote
u64_slot :
    (read : Reader) (m m' : Bytes) (a v : ℕ)
    → v < 2 ^ 64
    → read (pos a) 8 ≡ some (load m' a 8)
    → ((x : ℕ) → a ≤ x → x < a + 8 → m' x ≡ store m a (to_bytes 8 v) x)
    → u64 read (pos a) ≡ ok v
unfolding u64 read_bytes
u64_slot read m m' a v small h same =
    rw (h, u64, read_bytes) (rw (load-to_bytes m m' a 8 v same) (unpack-to_bytes 8 v (omega arith)))

pub code_of_offset : (o : ℕ) (s : Step) → (code_of o s).prolog_offset ≡ o
unfolding code_of
code_of_offset o (push r) = refl
code_of_offset o (alloc_small n) = refl
code_of_offset o (alloc_scaled n) = refl
code_of_offset o (alloc_large n) = refl

undo_last :
    (read : Reader) (info : UnwindInfo) (offset : ℕ) (frame : ℤ) (xs : List UnwindCode)
    (c : UnwindCode) (s s1 s2 : Context × Bool)
    → c.prolog_offset ≤ offset
    → undo_codes read info offset frame xs s ≡ ok s1
    → undo read info frame c s1 ≡ ok s2
    → undo_codes read info offset frame (xs ++ c ∷ []) s ≡ ok s2
unfolding undo_codes
undo_last read info offset frame xs c s s1 s2 ran before last =
    let now : ltb offset c.prolog_offset ≡ false = ground arith in
    undo_codes-append read info offset frame xs (c ∷ []) s ∙ rw before (rw now (rw last refl))

pub add_rsp-restored :
    (regs : ℕ → ℕ) (steps : List Step) (sp d : ℕ) (ctx : Context)
    → is_pushed 4 steps ≡ false
    → sp + d < 2 ^ 64
    → add_rsp d (restored regs steps sp ctx) ≡ restored regs steps (sp + d) ctx
unfolding add_rsp set_gpr
add_rsp-restored regs steps sp d ctx other small =
    ap (λ (g : ℕ → ℕ). record ctx { gpr = g })
      (fun_ext (λ r. elim (Bool-cases (r == 4)) [
        | inl at ↦
            let e : r ≡ 4 = (==_iff r 4).0 at in
            ground (arith, other, ap (λ q. is_pushed q steps) e)
        | inr off ↦ ground arith
      ]))

set_gpr-restored :
    (regs : ℕ → ℕ) (steps : List Step) (sp r : ℕ) (ctx : Context)
    → regs r < 2 ^ 64
    → set_gpr r (regs r) (restored regs steps sp ctx) ≡ restored regs (push r ∷ steps) sp ctx
unfolding set_gpr is_pushed
set_gpr-restored regs steps sp r ctx small =
    ap (λ (g : ℕ → ℕ). record ctx { gpr = g })
      (fun_ext (λ q. elim (Bool-cases (r == q)) [
        | inl same ↦ ground (arith, ap regs ((==_iff r q).0 same))
        | inr off ↦ rw off refl
      ]))

-- what the undoing needs of the reader and of the memory at the unwinding
pub record ReadsStack (read : Reader) (m' : Bytes) (low high : ℕ) : Type 0 where
  pub reads : (a : ℕ) → low ≤ a → a + 8 ≤ high → read (pos a) 8 ≡ some (load m' a 8)

module _ (read : Reader) (regs : ℕ → ℕ) (info : UnwindInfo) (frame : ℤ) (machine : Bool) where
  -- the code of an instruction that has moved rsp from `sp` to `sp - d`
  undo_step :
      (o : ℕ) (s : Step) (steps : List Step) (sp : ℕ) (ctx : Context)
      → IsUsual s
      → is_pushed 4 steps ≡ false
      → depth s ≤ sp
      → sp < 2 ^ 64
      → ((r : ℕ) → regs r < 2 ^ 64)
      → ((r : ℕ) → s ≡ push r → u64 read (pos (sp - 8)) ≡ ok (regs r))
      → undo read info frame (code_of o s) (restored regs steps (sp - depth s) ctx, machine)
        ≡ ok (restored regs (s ∷ steps) sp ctx, machine)
  unfolding undo code_of depth is_pushed IsUsual load_gpr
  undo_step o (push r) steps sp ctx u other fits w small slot =
      let whole : sp - 8 + 8 ≡ sp = omega arith in
      let none_yet : is_pushed 4 (push r ∷ steps) ≡ false = ground (arith, other, u) in
      rw other (
        rw (slot r refl) (
          ap (λ (c : Context). ok (c, machine))
            (ap (add_rsp 8) (set_gpr-restored regs steps (sp - 8) r ctx (small r))
              ∙ add_rsp-restored regs (push r ∷ steps) (sp - 8) 8 ctx none_yet (omega arith)
              ∙ rw whole refl)))
  undo_step o (alloc_small n) steps sp ctx u other fits w small slot =
      let whole : sp - (n * 8 + 8) + (n * 8 + 8) ≡ sp = omega arith in
      ap (λ (c : Context). ok (c, machine))
        (add_rsp-restored regs steps (sp - (n * 8 + 8)) (n * 8 + 8) ctx other (omega arith)
          ∙ rw whole refl)
  undo_step o (alloc_scaled n) steps sp ctx u other fits w small slot =
      let whole : sp - n * 8 + n * 8 ≡ sp = omega arith in
      ap (λ (c : Context). ok (c, machine))
        (add_rsp-restored regs steps (sp - n * 8) (n * 8) ctx other (omega arith) ∙ rw whole refl)
  undo_step o (alloc_large n) steps sp ctx u other fits w small slot =
      let whole : sp - n + n ≡ sp = omega arith in
      ap (λ (c : Context). ok (c, machine))
        (add_rsp-restored regs steps (sp - n) n ctx other (omega arith) ∙ rw whole refl)

module _ (read : Reader) (regs : ℕ → ℕ) (offset : ℕ) (m' : Bytes) (high : ℕ) where
  -- what the undoing needs of the registers and of the reader, and that the body kept the slots
  pub record IsKept (steps : List (ℕ × Step)) (m : Bytes) (sp : ℕ) : Type 0 where
    pub usual : All (λ p. IsUsual p.1) steps
    pub ran : All (λ p. p.0 ≤ offset) steps
    pub fits : total_depth (steps_of steps) ≤ sp
    pub below : sp ≤ high
    pub reads :
        (a : ℕ)
        → sp - total_depth (steps_of steps) ≤ a
        → a + 8 ≤ high
        → read (pos a) 8 ≡ some (load m' a 8)
    pub same :
        (x : ℕ)
        → is_saved (steps_of steps) sp x ≡ true
        → m' x ≡ (run regs (steps_of steps) (m, sp)).0 x

  IsKept-rest :
      (o : ℕ) (s : Step) (steps : List (ℕ × Step)) (m : Bytes) (sp : ℕ)
      → IsKept ((o, s) ∷ steps) m sp
      → IsKept steps (run_step regs s (m, sp)).0 (sp - depth s)
  unfolding steps_of total_depth depth is_saved run run_step
  IsKept-rest o (push r) steps m sp k = record {
    usual = k.usual.1;
    ran = k.ran.1;
    fits = omega (arith, k.fits);
    below = omega (arith, k.below);
    reads = λ a p q. k.reads a (omega (arith, p)) q;
    same = λ x p. k.same x (ground (arith, p));
  }
  IsKept-rest o (alloc_small n) steps m sp k = record {
    usual = k.usual.1;
    ran = k.ran.1;
    fits = omega (arith, k.fits);
    below = omega (arith, k.below);
    reads = λ a p q. k.reads a (omega (arith, p)) q;
    same = λ x p. k.same x p;
  }
  IsKept-rest o (alloc_scaled n) steps m sp k = record {
    usual = k.usual.1;
    ran = k.ran.1;
    fits = omega (arith, k.fits);
    below = omega (arith, k.below);
    reads = λ a p q. k.reads a (omega (arith, p)) q;
    same = λ x p. k.same x p;
  }
  IsKept-rest o (alloc_large n) steps m sp k = record {
    usual = k.usual.1;
    ran = k.ran.1;
    fits = omega (arith, k.fits);
    below = omega (arith, k.below);
    reads = λ a p q. k.reads a (omega (arith, p)) q;
    same = λ x p. k.same x p;
  }

  -- the slot of the first push, after all the steps
  slot :
      (o r : ℕ) (steps : List (ℕ × Step)) (m : Bytes) (sp : ℕ)
      → IsKept ((o, push r) ∷ steps) m sp
      → regs r < 2 ^ 64
      → u64 read (pos (sp - 8)) ≡ ok (regs r)
  unfolding steps_of total_depth depth is_saved run run_step
  slot o r steps m sp k small =
      u64_slot read m m' (sp - 8) (regs r) small
        (k.reads (sp - 8) (omega arith) (omega (arith, k.below, k.fits)))
        (λ x p q.
          k.same x (ground (arith, k.fits))
          ∙ run_above regs (steps_of steps) (store m (sp - 8) (to_bytes 8 (regs r))) (sp - 8) x
              (omega (arith, k.fits)) p)

module _ (read : Reader) (regs : ℕ → ℕ) (info : UnwindInfo) (offset : ℕ) (frame : ℤ)
    (machine : Bool) (m' : Bytes) (high : ℕ) (small : (r : ℕ) → regs r < 2 ^ 64) where
  pub undo_steps :
      (steps : List (ℕ × Step)) (m : Bytes) (sp : ℕ) (ctx : Context)
      → IsKept read regs offset m' high steps m sp
      → sp < 2 ^ 64
      → rsp ctx ≡ sp - total_depth (steps_of steps)
      → undo_codes read info offset frame (codes_of steps) (ctx, machine)
        ≡ ok (restored regs (steps_of steps) sp ctx, machine)
  unfolding undo_codes codes_of steps_of is_pushed total_depth run_step
  undo_steps [] m sp ctx k w at =
      ap (λ (g : ℕ → ℕ). ok (record ctx { gpr = g }, machine))
        (fun_ext (λ r. elim (Bool-cases (r == 4)) [
          | inl is_rsp ↦ ground (arith, ap ctx.gpr ((==_iff r 4).0 is_rsp), at)
          | inr off ↦ rw off refl
        ]))
  undo_steps ((o, s) ∷ steps) m sp ctx k w at =
      let rest = IsKept-rest read regs offset m' high o s steps m sp k in
      undo_last read info offset frame (codes_of steps) (code_of o s) (ctx, machine) _ _
        (rw (code_of_offset o s) k.ran.0)
        (undo_steps steps (run_step regs s (m, sp)).0 (sp - depth s) ctx rest (omega arith)
          (omega (arith, at)))
        (undo_step read regs info frame machine o s (steps_of steps) sp ctx k.usual.0
          (pushed_rsp steps k.usual.1) (omega (arith, k.fits)) w small
          (λ r e. slot read regs offset m' high o r steps m sp (rw e at k) (small r)))
