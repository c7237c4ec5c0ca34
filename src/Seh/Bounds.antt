-- ===== src/Seh/Bounds.antt =====
-- How many guest functions a dispatch of speakeasy/windows/seh.py calls.
use speakeasy.Base.{
  ℕ, ◌+◌, ◌≤◌, Bool, true, false, Option, none, some, List, [], ◌∷◌, ◌++◌, length, ◌≡◌, refl, ap,
  ◌∙◌, arith, ◌==◌, if◌then◌else◌, length-append,
}
use speakeasy.Base.Int.{ℤ, pos, negsuc}
use speakeasy.Seh.{
  GuestCall, Guest, World, Unhandled, Outcome, ok, failed, unhandled, no_return, M, bind,
  from_option, with_guest, returned, written, top, ◌>>=◌, ◌>>◌, return, throw, Result, mem_read,
  mem_write, alloc, guest_call, read_context, resume_at, as_long,
}
use speakeasy.Seh.Records.{read_record}
use speakeasy.Seh.Preserves.{dispatch_init-Preserves}
use speakeasy.Seh.Dispatch.{
  Exception, dispatch_init, record_exception, offer, vectored, resume_exception, call_filter,
  unhandled_filter, or_filter, offer_frames, offer_all, dispatch_with, is_continue_execution,
  is_noncontinuable,
}

-- a run from one world to another calls at most `n` guest functions
abbrev pub Within : {S A : Type 0} → ℕ → World S → Outcome A × World S → Type 0
Within n w r = length r.1.calls ≤ length w.calls + n

-- so does each run of a program
pub record Bounded {S A : Type 0} (n : ℕ) (m : M S A) : Type 0 where
  pub within : (w : World S) → Within n w (m w)

pub bind-Within :
    {S A B : Type 0} (n k : ℕ) (w : World S) (r : Outcome A × World S) (f : A → M S B)
    → Within n w r
    → ((a : A) (w' : World S) → Within k w' (f a w'))
    → Within (n + k) w (bind r f)
bind-Within n k w (ok a, w') f within rest = let later = rest a w' in omega arith
bind-Within n k w (failed e, w') f within rest = omega arith
bind-Within n k w (unhandled u, w') f within rest = omega arith
bind-Within n k w (no_return, w') f within rest = omega arith

-- the run of the rest is known to start where the first run ends
pub bind-Within_later :
    {S A B : Type 0} (P : World S → Type 0) (k : ℕ) (w : World S) (r : Outcome A × World S)
    (f : A → M S B)
    → P r.1
    → Within 0 w r
    → ((a : A) (w' : World S) → P w' → Within k w' (f a w'))
    → Within k w (bind r f)
bind-Within_later P k w (ok a, w') f p within rest = let later = rest a w' p in omega arith
bind-Within_later P k w (failed e, w') f p within rest = omega arith
bind-Within_later P k w (unhandled u, w') f p within rest = omega arith
bind-Within_later P k w (no_return, w') f p within rest = omega arith

pub bind-Bounded :
    {S A B : Type 0} {m : M S A} {f : A → M S B} (n k : ℕ)
    → Bounded n m
    → ((a : A) → Bounded k (f a))
    → Bounded (n + k) (m >>= f)
bind-Bounded {m = m} {f = f} n k first rest = record {
  within = λ w. bind-Within n k w (m w) f (first.within w) (λ a. (rest a).within);
}

pub then-Bounded :
    {S B : Type 0} {m : M S (Unit {0})} {k' : M S B} (n k : ℕ)
    → Bounded n m
    → Bounded k k'
    → Bounded (n + k) (m >> k')
then-Bounded {m = m} {k' = k'} n k first rest = record {
  within = λ w. bind-Within n k w (m w) (λ _. k') (first.within w) (λ _. rest.within);
}

pub if-Bounded :
    {S A : Type 0} {m m' : M S A} (n : ℕ) (b : Bool)
    → Bounded n m
    → Bounded n m'
    → Bounded n (if b then m else m')
if-Bounded n true first second = first
if-Bounded n false first second = second

pub return-Bounded : {S A : Type 0} {a : A} → Bounded {S = S} 0 (return a)
return-Bounded = record { within = λ w. omega arith }

pub from_option-Bounded : {S A : Type 0} (o : Option A) → Bounded {S = S} 0 (from_option o)
from_option-Bounded none = record { within = λ w. omega arith }
from_option-Bounded (some a) = record { within = λ w. omega arith }

pub throw-Bounded : {S A : Type 0} {u : Unhandled} → Bounded {S = S} {A = A} 0 (throw u)
throw-Bounded = record { within = λ w. omega arith }

pub Bounded-more : {S A : Type 0} {m : M S A} (n k : ℕ) → n ≤ k → Bounded n m → Bounded k m
Bounded-more n k le bounded = record { within = λ w. let b = bounded.within w in omega arith }

from_option-Within : {S A : Type 0} (o : Option A) (w : World S) → Within 0 w (from_option o w)
from_option-Within none w = omega arith
from_option-Within (some a) w = omega arith

module _ {Context : Type 0} (g : Guest Context) where
  with_guest-Within : (w : World g.State) (o : Option g.State) → Within 0 w (with_guest g w o)
  with_guest-Within w none = omega arith
  with_guest-Within w (some s) = omega arith

  returned-Within :
      (c : GuestCall) (w : World g.State) (o : Option (ℕ × g.State))
      → Within 1 w (returned g (record w { calls = w.calls ++ c ∷ [] }) o)
  returned-Within c w none = let l = length-append w.calls (c ∷ []) in omega arith
  returned-Within c w (some r) = let l = length-append w.calls (c ∷ []) in omega arith

  pub mem_read-Bounded : (address : ℤ) (size : ℕ) → Bounded 0 (mem_read g address size)
  unfolding mem_read
  mem_read-Bounded address size = record {
    within = λ w. from_option-Within (g.read w.guest address size) w;
  }

  pub mem_write-Bounded : (address : ℤ) (bytes : List ℕ) → Bounded 0 (mem_write g address bytes)
  unfolding mem_write
  mem_write-Bounded address bytes = record {
    within = λ w. with_guest-Within w (g.write w.guest address bytes);
  }

  pub guest_call-Bounded : (c : GuestCall) → Bounded 1 (guest_call g c)
  unfolding guest_call
  guest_call-Bounded c = record { within = λ w. returned-Within c w (g.call c w.guest) }

  written-Bounded : (address : ℤ) (bytes : List ℕ) → Bounded 0 (written g address bytes)
  written-Bounded (pos address) bytes =
      then-Bounded 0 0 (mem_write-Bounded (pos address) bytes) return-Bounded
  written-Bounded (negsuc address) bytes = record { within = λ w. omega arith }

  pub alloc-Bounded : (bytes : List ℕ) → Bounded 0 (alloc g bytes)
  unfolding alloc
  alloc-Bounded bytes = record {
    within = λ w.
        (written-Bounded (top g w bytes).0 bytes).within (record w { handler = (top g w bytes).1 });
  }

  pub read_context-Bounded : (address : ℕ) → Bounded 0 (read_context g address)
  unfolding read_context
  read_context-Bounded address =
      bind-Bounded 0 0 (mem_read-Bounded (pos address) g.context_size) (λ _. return-Bounded)

  pub read_record-Bounded : (address : ℕ) → Bounded 0 (read_record g address)
  unfolding read_record
  read_record-Bounded address = bind-Bounded 0 0 (mem_read-Bounded _ _) (λ _. return-Bounded)

  pub dispatch_init-Bounded :
      (record_address context : ℕ) → Bounded 0 (dispatch_init g record_address context)
  unfolding dispatch_init
  dispatch_init-Bounded record_address context =
      bind-Bounded 0 0 (read_record-Bounded record_address)
        (λ fields. bind-Bounded 0 0 (alloc-Bounded _) (λ _. return-Bounded))

  record_exception-Bounded :
      (e : Exception) (handler : ℕ) → Bounded 0 (record_exception g e handler)
  unfolding record_exception
  record_exception-Bounded e handler = record { within = λ w. omega arith }

  pub offer-Bounded :
      (e : Exception) (reported : Bool) (handler : ℕ) → Bounded 0 (offer g e reported handler)
  unfolding offer
  offer-Bounded e true handler = return-Bounded
  offer-Bounded e false handler =
      bind-Bounded 0 0 (read_context-Bounded e.context) (λ _. record_exception-Bounded e handler)

  resume_at-Bounded : (ctx : Context) → Bounded 0 (resume_at g ctx)
  unfolding resume_at
  resume_at-Bounded ctx = record { within = λ w. omega arith }

  pub resume_exception-Bounded : (e : Exception) → Bounded 0 (resume_exception g e)
  unfolding resume_exception
  resume_exception-Bounded e =
      if-Bounded 0 (is_noncontinuable e.flags) throw-Bounded
        (bind-Bounded 0 0 (read_context-Bounded e.context) resume_at-Bounded)

  pub vectored-Bounded :
      (e : Exception) (reported : Bool) (handlers : List ℕ)
      → Bounded (length handlers) (vectored g e reported handlers)
  unfolding vectored
  vectored-Bounded e reported [] = return-Bounded
  vectored-Bounded e reported (handler ∷ handlers) =
      Bounded-more (0 + (1 + length handlers)) (length (handler ∷ handlers)) (omega arith) (
        then-Bounded 0 (1 + length handlers) (offer-Bounded e reported handler) (
          bind-Bounded 1 (length handlers) (guest_call-Bounded _) (λ verdict.
            if-Bounded (length handlers) (is_continue_execution (as_long verdict))
              (Bounded-more 0 (length handlers) (omega arith) return-Bounded)
              (vectored-Bounded e true handlers))))

  call_filter-Bounded :
      (e : Exception) (reported : Bool) (filter : ℕ) → Bounded 1 (call_filter g e reported filter)
  unfolding call_filter
  call_filter-Bounded e reported filter = then-Bounded 0 1 (offer-Bounded e reported filter) (
      bind-Bounded 1 0 (guest_call-Bounded _) (λ verdict.
        if-Bounded 0 (is_continue_execution (as_long verdict)) (resume_exception-Bounded e)
          throw-Bounded))

  pub unhandled_filter-Bounded :
      (e : Exception) (reported : Bool) → Bounded 1 (unhandled_filter g e reported)
  unfolding unhandled_filter
  unhandled_filter-Bounded e reported = record {
    within = λ w.
        (if-Bounded 1 (g.unhandled_exception_handler w.guest == 0)
            (Bounded-more 0 1 (omega arith) throw-Bounded)
            (call_filter-Bounded e reported (g.unhandled_exception_handler w.guest))).within
          w;
  }

  or_filter-Bounded :
      (e : Exception) (reported : Bool) (result : Option (Result Context))
      → Bounded 1 (or_filter g e reported result)
  unfolding or_filter
  or_filter-Bounded e reported (some r) = Bounded-more 0 1 (omega arith) return-Bounded
  or_filter-Bounded e reported none = unhandled_filter-Bounded e reported

  -- A write of the guest's memory does not change the list of the vectored handlers, which is not in
  -- that memory. The frames of an architecture call at most `n` guest functions.
  module _
      (same_handlers : (s s' : g.State) (address : ℤ) (bytes : List ℕ)
        → g.write s address bytes ≡ some s'
        → g.veh_handlers s' ≡ g.veh_handlers s)
      (frames : Exception → Bool → M g.State (Option (Result Context) × Bool)) (n : ℕ)
      (frames-Bounded : (e : Exception) (reported : Bool) → Bounded n (frames e reported)) where
    offer_frames-Bounded :
        (e : Exception) (r : Bool × Bool) → Bounded (n + 1) (offer_frames g frames e r)
    unfolding offer_frames
    offer_frames-Bounded e (taken, reported) =
        if-Bounded (n + 1) taken (Bounded-more 0 (n + 1) (omega arith) (resume_exception-Bounded e))
          (bind-Bounded n 1 (frames-Bounded e reported) (λ r. or_filter-Bounded e r.1 r.0))

    offer_all-Within :
        (e : Exception) (w : World g.State)
        → Within (length (g.veh_handlers w.guest) + (n + 1)) w (offer_all g frames e w)
    unfolding offer_all
    offer_all-Within e w =
        (bind-Bounded (length (g.veh_handlers w.guest)) (n + 1)
            (vectored-Bounded e false (g.veh_handlers w.guest)) (offer_frames-Bounded e)).within
          w

    pub dispatch_with-Within :
        (record_address context : ℕ) (w : World g.State)
        → Within
            (length (g.veh_handlers w.guest) + (n + 1))
            w
            (dispatch_with g frames record_address context w)
    unfolding dispatch_with
    dispatch_with-Within record_address context w =
        bind-Within_later (λ w'. g.veh_handlers w'.guest ≡ g.veh_handlers w.guest)
          (length (g.veh_handlers w.guest) + (n + 1)) w (dispatch_init g record_address context w)
          (offer_all g frames)
          ((dispatch_init-Preserves g (λ w'. g.veh_handlers w'.guest ≡ g.veh_handlers w.guest)
              (λ w' address bytes s in_stack eq p.
                same_handlers w'.guest s (pos address) bytes eq ∙ p)
              (λ w' h p. p) record_address context).keeps
            w refl)
          ((dispatch_init-Bounded record_address context).within w)
          (λ e w' same.
            let all = offer_all-Within e w' in
            let count : length (g.veh_handlers w'.guest) ≡ length (g.veh_handlers w.guest) =
              ap length same in
            omega arith)
