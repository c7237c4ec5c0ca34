-- ===== src/Seh32/Chain.antt =====
-- The dispatch along the registrations, of speakeasy/windows/seh32.py.
use speakeasy.Base.{
  ℕ, zero, suc, ◌+◌, ◌≤◌, Bool, true, Option, none, some, List, length, ◌≡◌, ◌≢◌, refl, arith, ◌==◌,
  replicate,
}
use speakeasy.Base.Int.{ℤ, pos}
use speakeasy.Seh.{Guest, World, ok, M, return, Result, alloc}
use speakeasy.Seh.Records.{ExceptionRecord, read_record}
use speakeasy.Seh.Dispatch.{Exception, offer, is_noncontinuable}
use speakeasy.Seh.Bounds.{
  Bounded, bind-Bounded, then-Bounded, if-Bounded, return-Bounded, Bounded-more, alloc-Bounded,
  guest_call-Bounded, offer-Bounded, resume_exception-Bounded, dispatch_with-Within,
}
use speakeasy.Seh.Outcomes.{
  Yields, bind-Yields, if-Yields, return-Yields, resume_exception-Yields, dispatch_with-Never,
  Never-Yields, Never-no_result,
}
use speakeasy.Seh32.{
  Context32, max_frames, is_end, reg_ebp, frame_bytes, call_handler, entry, offer_entry,
  offer_registrations, offer_frames, dispatch_exception,
}

module _ (g : Guest Context32) where
  call_handler-Bounded :
      (handler record_address registration context dispatcher_context : ℕ)
      → Bounded 1 (call_handler g handler record_address registration context dispatcher_context)
  unfolding call_handler
  call_handler-Bounded handler record_address registration context dispatcher_context = record {
    within = λ w.
        (bind-Bounded 0 1
            (alloc-Bounded g (
              frame_bytes g (g.reg_read w.guest reg_ebp) record_address registration context
                dispatcher_context))
            (λ frame. guest_call-Bounded g _)).within
          w;
  }

  offer_entry-Bounded :
      (n : ℕ) (e : Exception) (dispatcher_context : ℕ) (reported : Bool) (registration : ℕ)
      (rest : ℕ → M g.State (Option (Result Context32) × Bool)) (bytes : Option (List ℕ))
      → ((next : ℕ) → Bounded n (rest next))
      → Bounded (1 + n) (offer_entry g e dispatcher_context reported registration rest bytes)
  unfolding offer_entry
  offer_entry-Bounded n e dispatcher_context reported registration rest none later =
      Bounded-more 0 (1 + n) (omega arith) return-Bounded
  offer_entry-Bounded n e dispatcher_context reported registration rest (some bytes) later =
      Bounded-more (0 + (1 + n)) (1 + n) (omega arith) (
        then-Bounded 0 (1 + n) (offer-Bounded g e reported (entry g bytes).1) (
          bind-Bounded 1 n
            (call_handler-Bounded (entry g bytes).1 e.record_address registration e.context
              dispatcher_context)
            (λ disposition.
              if-Bounded n (disposition == 0)
                (Bounded-more 0 n (omega arith)
                  (bind-Bounded 0 0 (resume_exception-Bounded g e) (λ r. return-Bounded)))
                (later (entry g bytes).0))))

  offer_registrations-Bounded :
      (n : ℕ) (e : Exception) (dispatcher_context : ℕ) (reported : Bool) (registration : ℕ)
      → Bounded n (offer_registrations g n e dispatcher_context reported registration)
  unfolding offer_registrations
  offer_registrations-Bounded zero e dispatcher_context reported registration = record {
    within = λ w. omega arith;
  }
  offer_registrations-Bounded (suc n) e dispatcher_context reported registration = record {
    within = λ w.
        (Bounded-more (1 + n) (suc n) (omega arith) (
            if-Bounded (1 + n) (is_end registration)
              (Bounded-more 0 (1 + n) (omega arith) return-Bounded)
              (offer_entry-Bounded n e dispatcher_context reported registration
                (offer_registrations g n e dispatcher_context true)
                (g.read w.guest (pos registration) 8)
                (offer_registrations-Bounded n e dispatcher_context true)))).within
          w;
  }

  offer_frames-Bounded :
      (e : Exception) (reported : Bool) → Bounded max_frames (offer_frames g e reported)
  unfolding offer_frames
  offer_frames-Bounded e reported =
      bind-Bounded 0 max_frames (alloc-Bounded g (replicate 4 0)) (λ dispatcher_context. record {
        within = λ w.
            (offer_registrations-Bounded max_frames e dispatcher_context reported
                (g.exception_list w.guest)).within
              w;
      })

  -- A dispatch ends, and calls at most 4097 guest functions beside the vectored handlers, whatever the
  -- chain of registrations and the guest functions are: also if the chain is a loop. Writes of guest
  -- memory are assumed to keep the list of vectored handlers.
  pub dispatch_exception-Within :
      (same_handlers : (s s' : g.State) (address : ℤ) (bytes : List ℕ)
        → g.write s address bytes ≡ some s'
        → g.veh_handlers s' ≡ g.veh_handlers s)
      (record_address context : ℕ) (w : World g.State)
      → length (dispatch_exception g record_address context w).1.calls
        ≤ length w.calls + (length (g.veh_handlers w.guest) + 4097)
  unfolding dispatch_exception
  dispatch_exception-Within same_handlers =
      dispatch_with-Within g same_handlers (offer_frames g) max_frames offer_frames-Bounded

  module _ (e : Exception) (noncontinuable : is_noncontinuable e.flags ≡ true) where
    offer_entry-Yields :
        (dispatcher_context : ℕ) (reported : Bool) (registration : ℕ)
        (rest : ℕ → M g.State (Option (Result Context32) × Bool)) (bytes : Option (List ℕ))
        → ((next : ℕ) → Yields (λ r. r.0 ≡ none) (rest next))
        → Yields
            (λ r. r.0 ≡ none)
            (offer_entry g e dispatcher_context reported registration rest bytes)
    unfolding offer_entry
    offer_entry-Yields dispatcher_context reported registration rest none later = return-Yields refl
    offer_entry-Yields dispatcher_context reported registration rest (some bytes) later =
        bind-Yields (offer g e reported (entry g bytes).1) (λ _.
          bind-Yields
            (call_handler g (entry g bytes).1 e.record_address registration e.context
              dispatcher_context)
            (λ disposition.
              if-Yields (disposition == 0)
                (Never-Yields (resume_exception-Yields g e noncontinuable)
                  (λ r. return (some r, true)))
                (later (entry g bytes).0)))

    offer_registrations-Yields :
        (n dispatcher_context : ℕ) (reported : Bool) (registration : ℕ)
        → Yields
            (λ r. r.0 ≡ none)
            (offer_registrations g n e dispatcher_context reported registration)
    unfolding offer_registrations
    offer_registrations-Yields zero dispatcher_context reported registration = record {
      yields = λ w. refl;
    }
    offer_registrations-Yields (suc n) dispatcher_context reported registration = record {
      yields = λ w.
          (if-Yields (is_end registration) (return-Yields refl) (
              offer_entry-Yields dispatcher_context reported registration _
                (g.read w.guest (pos registration) 8)
                (offer_registrations-Yields n dispatcher_context true))).yields
            w;
    }

    offer_frames-Yields : (reported : Bool) → Yields (λ r. r.0 ≡ none) (offer_frames g e reported)
    unfolding offer_frames
    offer_frames-Yields reported = bind-Yields (alloc g (replicate 4 0)) (λ dispatcher_context.
        record {
          yields = λ w.
              (offer_registrations-Yields max_frames dispatcher_context reported
                  (g.exception_list w.guest)).yields
                w;
        })

  -- If the record of an exception has EXCEPTION_NONCONTINUABLE, the dispatch does not resume a
  -- context or return a value, whatever the handlers of the guest answer.
  pub dispatch_exception-noncontinuable :
      (record_address context : ℕ) (w w' : World g.State) (fields : ExceptionRecord)
      → read_record g record_address w ≡ (ok fields, w')
      → is_noncontinuable fields.flags ≡ true
      → (r : Result Context32) → (dispatch_exception g record_address context w).0 ≢ ok r
  unfolding dispatch_exception
  dispatch_exception-noncontinuable record_address context w w' fields eq noncontinuable =
      Never-no_result _ (
        dispatch_with-Never g (offer_frames g) offer_frames-Yields record_address context w w'
          fields eq noncontinuable)
