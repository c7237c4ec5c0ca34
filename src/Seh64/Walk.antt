-- ===== src/Seh64/Walk.antt =====
-- The dispatch and the unwind along the frames, of speakeasy/windows/seh64.py.
use mathlib.Core.Path.{subst}
use speakeasy.Base.{
  ℕ, zero, suc, ◌+◌, ◌%◌, ◌^◌, ◌≤◌, Bool, true, Option, none, some, List, length, ◌≡◌, ◌≢◌, refl,
  arith, ◌==◌, if◌then◌else◌, replicate,
}
use speakeasy.Base.Int.{ℤ, pos, negsuc}
use speakeasy.Unwind.Frame.{Context, set_gpr}
use speakeasy.Seh.{Guest, World, ok, M, return, Result, resume, alloc, resume_at, read_context}
use speakeasy.Seh.Records.{ExceptionRecord, read_record}
use speakeasy.Seh.Dispatch.{Exception, is_noncontinuable}
use speakeasy.Seh.Bounds.{
  Bounded, bind-Bounded, then-Bounded, if-Bounded, return-Bounded, Bounded-more,
  from_option-Bounded, mem_write-Bounded, alloc-Bounded, guest_call-Bounded, offer-Bounded,
  read_context-Bounded, resume_exception-Bounded, dispatch_with-Within,
}
use speakeasy.Seh.Outcomes.{
  Holds, Yields, bind-Yields, if-Yields, return-Yields, throw-Yields, from_none-Yields,
  resume_exception-Yields, dispatch_with-Never, Never-Yields, Never-no_result,
}
use speakeasy.Seh64.{
  Modules, Frame, Turn, stop, skip, frame, fault, turn, max_frames, exception_handlers,
  termination_handlers,
}
use speakeasy.Seh64.Frames.{
  dispatcher_context_size, packed, prepare, call_frame, offer_frame, offer_turn, offer_walk,
  offer_frames, dispatch_exception, is_target, terminate, target_context, unwind_frame, unwind_turn,
  unwind_walk, unwind_record, unwind_to, rtl_unwind_ex, dispatcher_context_of,
}

packed-Bounded : {S : Type 0} (z : ℤ) → Bounded {S = S} 0 (packed z)
unfolding packed
packed-Bounded (pos n) = record { within = λ w. omega arith }
packed-Bounded (negsuc n) = record { within = λ w. omega arith }

-- a result of an unwind: the guest continues at the target with the return value in rax
abbrev pub AtTarget : ℕ → ℕ → Result Context → Type 0
AtTarget target_ip return_value r =
    (ctx : Context) × (r ≡ resume ctx)
    × (ctx.rip ≡ target_ip % 2 ^ 64)
    × (ctx.gpr 0 ≡ return_value % 2 ^ 64)

module _ (g : Guest Context) (ms : Modules g.State) where
  prepare-Bounded :
      (f : Frame) (ctx : Context) (unwound dispatcher_context target_ip : ℕ)
      → Bounded 0 (prepare g ms f ctx unwound dispatcher_context target_ip)
  unfolding prepare
  prepare-Bounded f ctx unwound dispatcher_context target_ip =
      then-Bounded 0 0 (mem_write-Bounded g (pos unwound) (g.encode_context ctx)) (
        bind-Bounded 0 0 (packed-Bounded f.info.establisher_frame) (λ establisher_frame.
          then-Bounded 0 0
            (mem_write-Bounded g (pos dispatcher_context)
              (dispatcher_context_of f establisher_frame unwound target_ip))
            return-Bounded))

  call_frame-Bounded :
      (e : Exception) (f : Frame) (unwound dispatcher_context : ℕ) (reported : Bool)
      → Bounded 1 (call_frame g ms e f unwound dispatcher_context reported)
  unfolding call_frame
  call_frame-Bounded e f unwound dispatcher_context reported =
      bind-Bounded 0 1 (prepare-Bounded f f.caller unwound dispatcher_context 0)
        (λ establisher_frame.
          then-Bounded 0 1 (offer-Bounded g e reported f.info.handler) (guest_call-Bounded g _))

  offer_frame-Bounded :
      (n : ℕ) (e : Exception) (unwound dispatcher_context : ℕ) (reported : Bool)
      (rest : Bool → Context → M g.State (Option (Result Context) × Bool)) (f : Frame)
      → ((reported' : Bool) (ctx : Context) → Bounded n (rest reported' ctx))
      → Bounded (1 + n) (offer_frame g ms e unwound dispatcher_context reported rest f)
  unfolding offer_frame
  offer_frame-Bounded n e unwound dispatcher_context reported rest f later =
      if-Bounded (1 + n) (f.info.handler == 0)
        (Bounded-more n (1 + n) (omega arith) (later reported f.caller))
        (bind-Bounded 1 n (call_frame-Bounded e f unwound dispatcher_context reported)
          (λ disposition.
            if-Bounded n (disposition == 0)
              (Bounded-more 0 n (omega arith)
                (bind-Bounded 0 0 (resume_exception-Bounded g e) (λ r. return-Bounded)))
              (later true f.caller)))

  offer_turn-Bounded :
      (n : ℕ) (e : Exception) (unwound dispatcher_context : ℕ) (reported : Bool)
      (rest : Bool → Context → M g.State (Option (Result Context) × Bool)) (t : Turn)
      → ((reported' : Bool) (ctx : Context) → Bounded n (rest reported' ctx))
      → Bounded (1 + n) (offer_turn g ms e unwound dispatcher_context reported rest t)
  unfolding offer_turn
  offer_turn-Bounded n e unwound dispatcher_context reported rest stop later =
      Bounded-more 0 (1 + n) (omega arith) return-Bounded
  offer_turn-Bounded n e unwound dispatcher_context reported rest fault later =
      Bounded-more 0 (1 + n) (omega arith) (from_option-Bounded none)
  offer_turn-Bounded n e unwound dispatcher_context reported rest (skip next) later =
      Bounded-more n (1 + n) (omega arith) (later reported next)
  offer_turn-Bounded n e unwound dispatcher_context reported rest (frame f) later =
      offer_frame-Bounded n e unwound dispatcher_context reported rest f later

  offer_walk-Bounded :
      (n : ℕ) (e : Exception) (unwound dispatcher_context : ℕ) (reported : Bool) (ctx : Context)
      → Bounded n (offer_walk g ms n e unwound dispatcher_context reported ctx)
  unfolding offer_walk
  offer_walk-Bounded zero e unwound dispatcher_context reported ctx = record {
    within = λ w. omega arith;
  }
  offer_walk-Bounded (suc n) e unwound dispatcher_context reported ctx = record {
    within = λ w.
        (Bounded-more (1 + n) (suc n) (omega arith) (
            offer_turn-Bounded n e unwound dispatcher_context reported
              (offer_walk g ms n e unwound dispatcher_context)
              (turn g ms w.guest ctx exception_handlers)
              (offer_walk-Bounded n e unwound dispatcher_context))).within
          w;
  }

  offer_frames-Bounded :
      (e : Exception) (reported : Bool) → Bounded max_frames (offer_frames g ms e reported)
  unfolding offer_frames
  offer_frames-Bounded e reported =
      bind-Bounded 0 max_frames (read_context-Bounded g e.context) (λ ctx.
        bind-Bounded 0 max_frames (alloc-Bounded g (g.encode_context ctx)) (λ unwound.
          bind-Bounded 0 max_frames (alloc-Bounded g (replicate dispatcher_context_size 0))
            (λ dispatcher_context.
              offer_walk-Bounded max_frames e unwound dispatcher_context reported ctx)))

  -- A dispatch ends, and calls at most 4097 guest functions beside the vectored handlers, whatever the
  -- stack, the unwind data and the guest functions are. Writes of guest memory are assumed to keep the
  -- list of vectored handlers.
  pub dispatch_exception-Within :
      (same_handlers : (s s' : g.State) (address : ℤ) (bytes : List ℕ)
        → g.write s address bytes ≡ some s'
        → g.veh_handlers s' ≡ g.veh_handlers s)
      (record_address context : ℕ) (w : World g.State)
      → length (dispatch_exception g ms record_address context w).1.calls
        ≤ length w.calls + (length (g.veh_handlers w.guest) + 4097)
  unfolding dispatch_exception
  dispatch_exception-Within same_handlers =
      dispatch_with-Within g same_handlers (offer_frames g ms) max_frames offer_frames-Bounded

  module _ (e : Exception) (noncontinuable : is_noncontinuable e.flags ≡ true) where
    offer_turn-Yields :
        (unwound dispatcher_context : ℕ) (reported : Bool)
        (rest : Bool → Context → M g.State (Option (Result Context) × Bool)) (t : Turn)
        → ((reported' : Bool) (ctx : Context) → Yields (λ r. r.0 ≡ none) (rest reported' ctx))
        → Yields (λ r. r.0 ≡ none) (offer_turn g ms e unwound dispatcher_context reported rest t)
    unfolding offer_turn offer_frame
    offer_turn-Yields unwound dispatcher_context reported rest stop later = return-Yields refl
    offer_turn-Yields unwound dispatcher_context reported rest fault later = from_none-Yields
    offer_turn-Yields unwound dispatcher_context reported rest (skip next) later =
        later reported next
    offer_turn-Yields unwound dispatcher_context reported rest (frame f) later =
        if-Yields (f.info.handler == 0) (later reported f.caller) (
          bind-Yields (call_frame g ms e f unwound dispatcher_context reported) (λ disposition.
            if-Yields (disposition == 0)
              (Never-Yields (resume_exception-Yields g e noncontinuable)
                (λ r. return (some r, true)))
              (later true f.caller)))

    offer_walk-Yields :
        (n unwound dispatcher_context : ℕ) (reported : Bool) (ctx : Context)
        → Yields (λ r. r.0 ≡ none) (offer_walk g ms n e unwound dispatcher_context reported ctx)
    unfolding offer_walk
    offer_walk-Yields zero unwound dispatcher_context reported ctx = record { yields = λ w. refl }
    offer_walk-Yields (suc n) unwound dispatcher_context reported ctx = record {
      yields = λ w.
          (offer_turn-Yields unwound dispatcher_context reported
              (offer_walk g ms n e unwound dispatcher_context)
              (turn g ms w.guest ctx exception_handlers)
              (offer_walk-Yields n unwound dispatcher_context)).yields
            w;
    }

    offer_frames-Yields :
        (reported : Bool) → Yields (λ r. r.0 ≡ none) (offer_frames g ms e reported)
    unfolding offer_frames
    offer_frames-Yields reported = bind-Yields (read_context g e.context) (λ ctx.
        bind-Yields (alloc g (g.encode_context ctx)) (λ unwound.
          bind-Yields (alloc g (replicate dispatcher_context_size 0)) (λ dispatcher_context.
            offer_walk-Yields max_frames unwound dispatcher_context reported ctx)))

  -- If the record of an exception has EXCEPTION_NONCONTINUABLE, the dispatch does not resume a
  -- context or return a value, whatever the handlers of the guest answer.
  pub dispatch_exception-noncontinuable :
      (record_address context : ℕ) (w w' : World g.State) (fields : ExceptionRecord)
      → read_record g record_address w ≡ (ok fields, w')
      → is_noncontinuable fields.flags ≡ true
      → (r : Result Context) → (dispatch_exception g ms record_address context w).0 ≢ ok r
  unfolding dispatch_exception
  dispatch_exception-noncontinuable record_address context w w' fields eq noncontinuable =
      Never-no_result _ (
        dispatch_with-Never g (offer_frames g ms) offer_frames-Yields record_address context w w'
          fields eq noncontinuable)

  module _ (fields : ExceptionRecord)
      (record_address unwound dispatcher_context target_frame target_ip return_value : ℕ) where
    resume_at-Yields :
        (ctx : Context)
        → Yields
            (AtTarget target_ip return_value)
            (resume_at g (target_context target_ip return_value ctx))
    unfolding resume_at target_context set_gpr
    resume_at-Yields ctx = record {
      yields = λ w. (target_context target_ip return_value ctx, refl, refl, refl);
    }

    unwind_turn-Yields :
        (rest : Context → M g.State (Result Context)) (t : Turn)
        → ((ctx : Context) → Yields (AtTarget target_ip return_value) (rest ctx))
        → Yields (AtTarget target_ip return_value) (
            unwind_turn g ms fields record_address unwound dispatcher_context target_frame target_ip
              return_value rest t)
    unfolding unwind_turn unwind_frame
    unwind_turn-Yields rest stop later = throw-Yields
    unwind_turn-Yields rest fault later = from_none-Yields
    unwind_turn-Yields rest (skip next) later = later next
    unwind_turn-Yields rest (frame f) later =
        bind-Yields
          (if f.info.handler == 0
            then return tt
            else terminate g ms fields record_address unwound dispatcher_context target_ip
                (is_target f.info.establisher_frame target_frame) f)
          (λ _.
            if-Yields (is_target f.info.establisher_frame target_frame)
              (resume_at-Yields f.frame_ctx) (later f.caller))

    unwind_walk-Yields :
        (n : ℕ) (ctx : Context)
        → Yields (AtTarget target_ip return_value) (
            unwind_walk g ms n fields record_address unwound dispatcher_context target_frame
              target_ip return_value ctx)
    unfolding unwind_walk
    unwind_walk-Yields zero ctx = record { yields = λ w. tt }
    unwind_walk-Yields (suc n) ctx = record {
      yields = λ w.
          (unwind_turn-Yields
              (unwind_walk g ms n fields record_address unwound dispatcher_context target_frame
                target_ip return_value)
              (turn g ms w.guest ctx termination_handlers) (unwind_walk-Yields n)).yields
            w;
    }

  -- If RtlUnwindEx gives a result, it resumes a context at the target address with the return value in
  -- rax, both as numbers of 64 bits, whatever the guest functions do.
  pub rtl_unwind_ex-AtTarget :
      (target_frame target_ip record_address return_value : ℕ) (w w' : World g.State)
      (r : Result Context)
      → rtl_unwind_ex g ms target_frame target_ip record_address return_value w ≡ (ok r, w')
      → AtTarget target_ip return_value r
  unfolding rtl_unwind_ex unwind_to
  rtl_unwind_ex-AtTarget target_frame target_ip record_address return_value w w' r eq =
      subst (λ o. Holds (AtTarget target_ip return_value) o.0) eq
        ((unwind_to-Yields (g.caller_context w.guest)).yields w)
    where
      unwind_to-Yields :
          (ctx : Context)
          → Yields
              (AtTarget target_ip return_value)
              (unwind_to g ms ctx target_frame target_ip record_address return_value)
      unwind_to-Yields ctx = bind-Yields (unwind_record g ms record_address ctx) (λ fields.
          bind-Yields (alloc g _) (λ unwinding.
            bind-Yields (alloc g (g.encode_context ctx)) (λ unwound.
              bind-Yields (alloc g (replicate dispatcher_context_size 0)) (λ dispatcher_context.
                unwind_walk-Yields _ unwinding unwound dispatcher_context target_frame target_ip
                  return_value max_frames ctx))))
