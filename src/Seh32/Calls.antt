-- ===== src/Seh32/Calls.antt =====
-- The calls of handlers that a run of speakeasy/windows/seh32.py has made.
use mathlib.Core.List.{append_assoc, append-nil}
use speakeasy.Base.{ℕ, true, false, some, List, [], ◌∷◌, ◌++◌, map, ◌≡◌, ◌⊎◌, refl, sym, ap, ◌∙◌}
use speakeasy.Base.Int.{pos}
use speakeasy.Seh.{GuestCall, Guest, World, Outcome, ok, failed, unhandled, no_return, M, bind}
use speakeasy.Seh32.{Context32, is_end, is_target, entry}

-- a registration of the chain
pub record Registration : Type 0 where
  pub address : ℕ
  pub next : ℕ
  pub handler : ℕ

abbrev pub functions : List GuestCall → List ℕ
functions calls = map (λ (c : GuestCall). c.function) calls

abbrev pub handlers_of : List Registration → List ℕ
handlers_of regs = map (λ (r : Registration). r.handler) regs

-- the registrations from one address to another one, all of them above the target of an unwind
abbrev pub Linked : ℕ → ℕ → List Registration → ℕ → Type 0
Linked target_frame first [] last = first ≡ last
Linked target_frame first (r ∷ regs) last =
    (first ≡ r.address)
    × (is_end r.address ≡ false)
    × (is_target target_frame r.address ≡ false)
    × Linked target_frame r.next regs last

-- where an unwind stops
abbrev pub IsStop : ℕ → ℕ → Type 0
IsStop target_frame last = (is_end last ≡ true) ⊎ (is_target target_frame last ≡ true)

module _ (g : Guest Context32) where
  -- the memory has the registration
  abbrev pub InMemory : g.State → Registration → Type 0
  InMemory s r =
      (bytes : List ℕ) × (g.read s (pos r.address) 8 ≡ some bytes)
      × ((entry g bytes).0 ≡ r.next)
      × ((entry g bytes).1 ≡ r.handler)

  -- what a run has called of some handlers, and all of them if it gives a result
  pub record Calls {A : Type 0} (w : World g.State) (handlers : List ℕ)
      (r : Outcome A × World g.State) : Type 0 where
    pub made : List ℕ
    pub left : List ℕ
    pub called : functions r.1.calls ≡ functions w.calls ++ made
    pub in_order : made ++ left ≡ handlers
    pub complete : (a : A) → r.0 ≡ ok a → left ≡ []

  pub functions-append :
      (calls : List GuestCall) (c : GuestCall)
      → functions (calls ++ c ∷ []) ≡ functions calls ++ c.function ∷ []
  functions-append [] c = refl
  functions-append (d ∷ calls) c = ap (λ fs. d.function ∷ fs) (functions-append calls c)

  pub seq-Calls :
      {A B : Type 0} (w : World g.State) (first rest : List ℕ) (r : Outcome A × World g.State)
      (f : A → M g.State B)
      → Calls w first r
      → ((a : A) (w' : World g.State) → r ≡ (ok a, w') → Calls w' rest (f a w'))
      → Calls w (first ++ rest) (bind r f)
  seq-Calls w first rest (ok a, w') f c later =
      let d = later a w' refl in
      let all_made : c.made ≡ first =
        sym (append-nil c.made) ∙ ap (λ l. c.made ++ l) (sym (c.complete a refl)) ∙ c.in_order in
      record {
        made = c.made ++ d.made;
        left = d.left;
        called =
            d.called
            ∙ ap (λ l. l ++ d.made) c.called
            ∙ append_assoc (functions w.calls) c.made d.made;
        in_order =
            append_assoc c.made d.made d.left
            ∙ ap (λ l. l ++ (d.made ++ d.left)) all_made
            ∙ ap (λ l. first ++ l) d.in_order;
        complete = d.complete;
      }
  seq-Calls w first rest (failed e', w') f c later = record {
    made = c.made;
    left = c.left ++ rest;
    called = c.called;
    in_order = sym (append_assoc c.made c.left rest) ∙ ap (λ l. l ++ rest) c.in_order;
    complete = λ a e. cc e;
  }
  seq-Calls w first rest (unhandled u, w') f c later = record {
    made = c.made;
    left = c.left ++ rest;
    called = c.called;
    in_order = sym (append_assoc c.made c.left rest) ∙ ap (λ l. l ++ rest) c.in_order;
    complete = λ a e. cc e;
  }
  seq-Calls w first rest (no_return, w') f c later = record {
    made = c.made;
    left = c.left ++ rest;
    called = c.called;
    in_order = sym (append_assoc c.made c.left rest) ∙ ap (λ l. l ++ rest) c.in_order;
    complete = λ a e. cc e;
  }

  pub from-Kept :
      {A : Type 0} (w w' : World g.State) (handlers : List ℕ) (r : Outcome A × World g.State)
      → functions w'.calls ≡ functions w.calls
      → Calls w' handlers r
      → Calls w handlers r
  from-Kept w w' handlers r same c = record {
    made = c.made;
    left = c.left;
    called = c.called ∙ ap (λ l. l ++ c.made) same;
    in_order = c.in_order;
    complete = c.complete;
  }

  pub none-Calls :
      {A : Type 0} (w : World g.State) (handlers : List ℕ) (r : Outcome A × World g.State)
      → functions r.1.calls ≡ functions w.calls
      → ((a : A) → r.0 ≡ ok a → handlers ≡ [])
      → Calls w handlers r
  none-Calls w handlers r same complete = record {
    made = [];
    left = handlers;
    called = same ∙ sym (append-nil (functions w.calls));
    in_order = refl;
    complete = complete;
  }
