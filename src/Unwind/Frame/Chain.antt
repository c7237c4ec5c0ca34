-- ===== src/Unwind/Frame/Chain.antt =====
-- The chain of unwind infos that `virtual_unwind` of speakeasy/windows/unwind.py follows: it undoes
-- the steps of all infos of the chain, those of the first info first.
use mathlib.Core.Path.{fun_ext}
use mathlib.Core.List.{append-nil, append_assoc}
use speakeasy.Base.{
  ℕ, zero, suc, ◌+◌, ◌≤◌, ◌<◌, ◌≡◌, refl, sym, ap, ◌∙◌, Bool, true, false, List, [], ◌∷◌, ◌++◌,
  length, ltb, All, arith,
}
use speakeasy.Base.Int.{ℤ}
use speakeasy.Unwind.{Result, ok, raise, ◌>>=◌, Reader, RuntimeFunction, read_runtime_function}
use speakeasy.Unwind.Info.{UnwindCode, UnwindInfo, read_unwind_info}
use speakeasy.Unwind.Frame.{Context, undo, undo_codes, undo_chain, is_chained, prolog_offset_of}
use speakeasy.Unwind.Frame.Prolog.{
  Step, push, alloc_small, alloc_scaled, alloc_large, code_of, codes_of,
}
use speakeasy.Unwind.Frame.Undo.{undo_codes-append, undo_codes_later, code_of_offset}

-- a function of the chain with its info: the codes behind the pc, and the steps of the others
pub record Link : Type 0 where
  pub fn : RuntimeFunction
  pub info : UnwindInfo
  pub later : List UnwindCode
  pub steps : List (ℕ × Step)

abbrev pub IsLink : ℕ → Link → Type 0
IsLink pc l =
    (l.info.codes ≡ l.later ++ codes_of l.steps)
    × All (λ c. prolog_offset_of l.fn pc < c.prolog_offset) l.later
    × All (λ p. p.0 ≤ prolog_offset_of l.fn pc) l.steps

-- a link and those that it leads to; the last one is not chained
abbrev pub IsChain : Reader → ℕ → ℕ → Link → List Link → Type 0
IsChain read base pc l [] = IsLink pc l × (is_chained l.info.flags ≡ false)
IsChain read base pc l (k ∷ links) =
    IsLink pc l
    × (is_chained l.info.flags ≡ true)
    × (read_runtime_function read base l.info.trailer ≡ ok k.fn)
    × (read_unwind_info read (base + k.fn.unwind_info) ≡ ok k.info)
    × IsChain read base pc k links

-- the steps in the order in which they ran: those of the last link first
abbrev pub all_steps : Link → List Link → List (ℕ × Step)
all_steps l [] = l.steps
all_steps l (k ∷ links) = all_steps k links ++ l.steps

abbrev pub last_link : Link → List Link → Link
last_link l [] = l
last_link l (k ∷ links) = last_link k links

codes_of-append : (xs ys : List (ℕ × Step)) → codes_of (xs ++ ys) ≡ codes_of ys ++ codes_of xs
unfolding codes_of
codes_of-append [] ys = sym (append-nil (codes_of ys))
codes_of-append ((o, s) ∷ xs) ys =
    ap (λ cs. cs ++ code_of o s ∷ []) (codes_of-append xs ys)
    ∙ append_assoc (codes_of ys) (codes_of xs) (code_of o s ∷ [])

All-parts : {A : Type 0} (P : A → Type 0) (xs ys : List A) → All P (xs ++ ys) → All P xs × All P ys
All-parts P [] ys h = (tt, h)
All-parts P (x ∷ xs) ys h = let (a, b) = All-parts P xs ys h.1 in ((h.0, a), b)

bind_ok :
    {A B : Type 0} (r : Result A) (f : A → Result B) (b : B)
    → (r >>= f) ≡ ok b
    → (a : A) × (r ≡ ok a) × (f a ≡ ok b)
bind_ok (ok a) f b e = (a, refl, e)
bind_ok (raise x) f b e = cc e

module _ (read : Reader) (frame : ℤ) where
  -- the code of a step is undone in the same way with every info
  undo_same :
      (info info' : UnwindInfo) (o : ℕ) (s : Step) (state : Context × Bool)
      → undo read info frame (code_of o s) state ≡ undo read info' frame (code_of o s) state
  unfolding undo code_of
  undo_same info info' o (push r) state = refl
  undo_same info info' o (alloc_small n) state = refl
  undo_same info info' o (alloc_scaled n) state = refl
  undo_same info info' o (alloc_large n) state = refl

  -- one code that ran, before other codes
  undo_one :
      (info : UnwindInfo) (offset o : ℕ) (s : Step) (state : Context × Bool)
      → o ≤ offset
      → undo_codes read info offset frame (code_of o s ∷ []) state
        ≡ (undo read info frame (code_of o s) state >>= λ s'. ok s')
  unfolding undo_codes
  undo_one info offset o s state ran =
      let now : ltb offset (code_of o s).prolog_offset ≡ false =
        rw (code_of_offset o s) (ground arith) in
      rw now refl

  -- and so are the codes of steps that ran at the offsets of both
  undo_codes_same :
      (info info' : UnwindInfo) (offset offset' : ℕ) (steps : List (ℕ × Step))
      (state : Context × Bool)
      → All (λ p. p.0 ≤ offset) steps
      → All (λ p. p.0 ≤ offset') steps
      → undo_codes read info offset frame (codes_of steps) state
        ≡ undo_codes read info' offset' frame (codes_of steps) state
  unfolding codes_of undo_codes
  undo_codes_same info info' offset offset' [] state h h' = refl
  undo_codes_same info info' offset offset' ((o, s) ∷ steps) state h h' =
      undo_codes-append read info offset frame (codes_of steps) (code_of o s ∷ []) state
      ∙ rw (undo_codes_same info info' offset offset' steps state h.1 h'.1) (
          ap (λ f. undo_codes read info' offset' frame (codes_of steps) state >>= f)
            (fun_ext (λ t.
              undo_one info offset o s t h.0
              ∙ ap (λ r. r >>= λ s'. ok s') (undo_same info info' o s t)
              ∙ sym (undo_one info' offset' o s t h'.0))))
      ∙ sym (undo_codes-append read info' offset' frame (codes_of steps) (code_of o s ∷ []) state)

  -- the codes of a link
  link_codes :
      (pc offset : ℕ) (info' : UnwindInfo) (l : Link) (state : Context × Bool)
      → IsLink pc l
      → All (λ p. p.0 ≤ offset) l.steps
      → undo_codes read l.info (prolog_offset_of l.fn pc) frame l.info.codes state
        ≡ undo_codes read info' offset frame (codes_of l.steps) state
  link_codes pc offset info' l state (split, behind, ran) h =
      ap (λ cs. undo_codes read l.info (prolog_offset_of l.fn pc) frame cs state) split
      ∙ undo_codes-append read l.info (prolog_offset_of l.fn pc) frame l.later (codes_of l.steps)
          state
      ∙ rw (undo_codes_later read l.info (prolog_offset_of l.fn pc) frame l.later state behind)
          (undo_codes_same l.info info' (prolog_offset_of l.fn pc) offset l.steps state ran h)

  -- The walk of the chain undoes the codes of all its steps.
  pub undo_chain_lem :
      (base pc offset turns : ℕ) (info' : UnwindInfo) (l : Link) (links : List Link)
      (state end : Context × Bool)
      → length links < turns
      → IsChain read base pc l links
      → All (λ p. p.0 ≤ offset) (all_steps l links)
      → undo_codes read info' offset frame (codes_of (all_steps l links)) state ≡ ok end
      → undo_chain turns read base pc frame l.fn l.info state
        ≡ ok ((last_link l links).fn, (last_link l links).info, end.0, end.1)
  unfolding undo_chain
  undo_chain_lem base pc offset zero info' l links state end enough chain ran done =
      absurd (omega arith)
  undo_chain_lem base pc offset (suc turns) info' l [] state end enough (link, single) ran done =
      rw (link_codes pc offset info' l state link ran ∙ done) (rw single refl)
  undo_chain_lem base pc offset (suc turns) info' l (k ∷ links) state end enough
        (link, chained, next_fn, next_info, chain) ran done =
      let (ran_rest, ran_link) = All-parts (λ p. p.0 ≤ offset) (all_steps k links) l.steps ran in
      let (mid, first, rest) =
        bind_ok (undo_codes read info' offset frame (codes_of l.steps) state)
          (λ s. undo_codes read info' offset frame (codes_of (all_steps k links)) s) end
          (sym (
              undo_codes-append read info' offset frame (codes_of l.steps)
                (codes_of (all_steps k links)) state)
            ∙ ap (λ cs. undo_codes read info' offset frame cs state)
                (sym (codes_of-append (all_steps k links) l.steps))
            ∙ done) in
      let here : undo_codes read l.info (prolog_offset_of l.fn pc) frame l.info.codes state
          ≡ ok mid =
        link_codes pc offset info' l state link ran_link ∙ first in
      rw here (
        rw chained (
          rw next_fn (
            rw next_info (
              undo_chain_lem base pc offset turns info' k links mid end (omega arith) chain ran_rest
                rest))))
