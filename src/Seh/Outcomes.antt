-- ===== src/Seh/Outcomes.antt =====
-- What the dispatch of speakeasy/windows/seh.py gives for an exception that is not continuable.
use mathlib.Core.Path.{subst}
use speakeasy.Base.{
  ℕ, Bool, true, false, Option, none, [], ◌∷◌, ◌≡◌, ◌≢◌, refl, ap, ◌∙◌, if◌then◌else◌, ◌==◌,
}
use speakeasy.Seh.{
  Guest, World, Unhandled, Outcome, ok, failed, unhandled, no_return, M, bind, from_option, ◌>>=◌,
  return, throw, Result, alloc, guest_call, as_long,
}
use speakeasy.Seh.Records.{ExceptionRecord, read_record, pack}
use speakeasy.Seh.Dispatch.{
  Exception, dispatch_init, offer, vectored, resume_exception, call_filter, unhandled_filter,
  or_filter, offer_frames, offer_all, dispatch_with, is_continue_execution, is_noncontinuable,
}

-- a result, if there is one, has a property
abbrev pub Holds : {A : Type 0} → (A → Type 0) → Outcome A → Type 0
Holds Q (ok a) = Q a
Holds Q (failed e) = Unit {0}
Holds Q (unhandled u) = Unit {0}
Holds Q no_return = Unit {0}

-- so has each result of a program
pub record Yields {S A : Type 0} (Q : A → Type 0) (m : M S A) : Type 0 where
  pub yields : (w : World S) → Holds Q (m w).0

pub bind-Holds :
    {S A B : Type 0} (R : A → Type 0) (Q : B → Type 0) (r : Outcome A × World S) (f : A → M S B)
    → Holds R r.0
    → ((a : A) → R a → (w : World S) → Holds Q (f a w).0)
    → Holds Q (bind r f).0
bind-Holds R Q (ok a, w) f first rest = rest a first w
bind-Holds R Q (failed e, w) f first rest = tt
bind-Holds R Q (unhandled u, w) f first rest = tt
bind-Holds R Q (no_return, w) f first rest = tt

anything : {A : Type 0} (o : Outcome A) → Holds (λ a. Unit {0}) o
anything (ok a) = tt
anything (failed e) = tt
anything (unhandled u) = tt
anything no_return = tt

-- what the first program gives does not matter
pub bind-Yields :
    {S A B : Type 0} {Q : B → Type 0} (m : M S A) {f : A → M S B}
    → ((a : A) → Yields Q (f a))
    → Yields Q (m >>= f)
bind-Yields {Q = Q} m {f = f} rest = record {
  yields = λ w. bind-Holds (λ a. Unit {0}) Q (m w) f (anything (m w).0) (λ a _. (rest a).yields);
}

pub if-Yields :
    {S A : Type 0} {Q : A → Type 0} {m m' : M S A} (b : Bool)
    → Yields Q m
    → Yields Q m'
    → Yields Q (if b then m else m')
if-Yields true first second = first
if-Yields false first second = second

pub return-Yields : {S A : Type 0} {Q : A → Type 0} {a : A} → Q a → Yields {S = S} Q (return a)
return-Yields q = record { yields = λ w. q }

pub throw-Yields : {S A : Type 0} {Q : A → Type 0} {u : Unhandled} → Yields {S = S} Q (throw u)
throw-Yields = record { yields = λ w. tt }

pub from_none-Yields : {S A : Type 0} {Q : A → Type 0} → Yields {S = S} Q (from_option none)
from_none-Yields = record { yields = λ w. tt }

-- no result at all
abbrev pub Never : {A : Type 0} → A → Type 0
Never a = ⊥

pub Never-Yields :
    {S A B : Type 0} {Q : B → Type 0} {m : M S A}
    → Yields Never m
    → (f : A → M S B) → Yields Q (m >>= f)
Never-Yields {Q = Q} {m = m} never f = record {
  yields = λ w. bind-Holds Never Q (m w) f (never.yields w) (λ a. elim [ ]);
}

pub Never-no_result : {A : Type 0} (o : Outcome A) → Holds Never o → (a : A) → o ≢ ok a
Never-no_result o never a eq = subst (λ o'. Holds Never o') eq never

module _ {Context : Type 0} (g : Guest Context) where
  module _ (e : Exception) (noncontinuable : is_noncontinuable e.flags ≡ true) where
    pub resume_exception-Yields : Yields Never (resume_exception g e)
    unfolding resume_exception
    resume_exception-Yields = rw noncontinuable throw-Yields

    unhandled_filter-Yields : (reported : Bool) → Yields Never (unhandled_filter g e reported)
    unfolding unhandled_filter call_filter
    unhandled_filter-Yields reported = record {
      yields = λ w.
          (if-Yields (g.unhandled_exception_handler w.guest == 0) throw-Yields (
              bind-Yields (offer g e reported (g.unhandled_exception_handler w.guest)) (λ _.
                bind-Yields (guest_call g _) (λ verdict.
                  if-Yields (is_continue_execution (as_long verdict)) resume_exception-Yields
                    throw-Yields)))).yields
            w;
    }

    or_filter-Yields :
        (reported : Bool) (result : Option (Result Context))
        → result ≡ none
        → Yields Never (or_filter g e reported result)
    unfolding or_filter
    or_filter-Yields reported result eq = rw eq (unhandled_filter-Yields reported)

    module _ (frames : Exception → Bool → M g.State (Option (Result Context) × Bool))
        (frames-Yields : (reported : Bool) → Yields (λ r. r.0 ≡ none) (frames e reported)) where
      offer_frames-Yields : (r : Bool × Bool) → Yields Never (offer_frames g frames e r)
      unfolding offer_frames
      offer_frames-Yields (taken, reported) = if-Yields taken resume_exception-Yields (record {
        yields = λ w.
            bind-Holds (λ r. r.0 ≡ none) Never (frames e reported w) _
              ((frames-Yields reported).yields w)
              (λ r none_taken. (or_filter-Yields r.1 r.0 none_taken).yields);
      })

      pub offer_all-Yields : Yields Never (offer_all g frames e)
      unfolding offer_all
      offer_all-Yields = record {
        yields = λ w.
            (bind-Yields (vectored g e false (g.veh_handlers w.guest)) offer_frames-Yields).yields
              w;
      }

  -- the flags of the exception are those of its record
  dispatch_init-Holds :
      (record_address context : ℕ) (w w' : World g.State) (fields : ExceptionRecord)
      → read_record g record_address w ≡ (ok fields, w')
      → Holds (λ e. e.flags ≡ fields.flags) (dispatch_init g record_address context w).0
  unfolding dispatch_init
  dispatch_init-Holds record_address context w w' fields eq = rw eq (
      bind-Holds (λ p. Unit {0}) (λ e. e.flags ≡ fields.flags)
        (alloc g (pack g.ptr_size (record_address ∷ context ∷ [])) w') _
        (anything (alloc g (pack g.ptr_size (record_address ∷ context ∷ [])) w').0) (λ p _ v. refl))

  pub dispatch_with-Never :
      (frames : Exception → Bool → M g.State (Option (Result Context) × Bool))
      (frames-Yields : (e : Exception)
        → is_noncontinuable e.flags ≡ true
        → (reported : Bool) → Yields (λ r. r.0 ≡ none) (frames e reported))
      (record_address context : ℕ) (w w' : World g.State) (fields : ExceptionRecord)
      → read_record g record_address w ≡ (ok fields, w')
      → is_noncontinuable fields.flags ≡ true
      → Holds Never (dispatch_with g frames record_address context w).0
  unfolding dispatch_with
  dispatch_with-Never frames frames-Yields record_address context w w' fields eq noncontinuable =
      bind-Holds (λ e. e.flags ≡ fields.flags) Never (dispatch_init g record_address context w)
        (offer_all g frames) (dispatch_init-Holds record_address context w w' fields eq)
        (λ e same v.
          let flag = ap (λ f. is_noncontinuable f) same ∙ noncontinuable in
          (offer_all-Yields e flag frames (frames-Yields e flag)).yields v)
