-- ===== src/Seh32/Unwinding.antt =====
-- The unwind of the registrations, of speakeasy/windows/seh32.py: which handlers it calls, in which
-- order, and what is left of the chain.
use mathlib.Core.Path.{subst}
use speakeasy.Base.{
  ℕ, zero, suc, ◌+◌, ◌≤◌, ◌<◌, true, false, Option, none, some, List, [], ◌∷◌, ◌++◌, length,
  replicate, ◌==◌, ◌≡◌, inl, inr, Bool-cases, refl, sym, ◌∙◌, arith, All,
}
use speakeasy.Base.Int.{pos}
use speakeasy.Seh.{
  GuestCall, Guest, World, Outcome, ok, failed, unhandled, no_return, M, bind, ◌>>◌, alloc,
  guest_call, returned,
}
use speakeasy.Seh.Preserves.{
  Preserves, alloc-Preserves, if-Preserves, return-Preserves, read_record-Preserves,
}
use speakeasy.Seh32.Calls.{
  Registration, functions, handlers_of, Linked, IsStop, InMemory, Calls, functions-append,
  seq-Calls, from-Kept, none-Calls,
}
use speakeasy.Seh32.{
  Context32, is_end, is_target, reg_ebp, frame_bytes, call_handler, unlink, unwind_entry,
  unwind_from, unwind_record, unwind_registrations, max_frames,
}

module _ (g : Guest Context32) where
  -- the head of the chain after a registration is removed
  abbrev pub HeadSet : Registration → Type 0
  HeadSet r = (s : g.State) → g.exception_list (g.set_exception_list r.next s) ≡ r.next

  -- The registrations `all` are in memory, and the guest functions, the writes below the stack pointer
  -- and the removal of registrations from the chain do not change them there. The removal of a
  -- registration makes the next one the head of the chain.
  module _ (sp : ℕ) (all : List Registration)
      (by_call : (c : GuestCall) (s s' : g.State) (v : ℕ)
        → g.call c s ≡ some (v, s')
        → All (InMemory g s) all
        → All (InMemory g s') all)
      (by_write : (s s' : g.State) (address : ℕ) (bytes : List ℕ)
        → address + length bytes ≤ sp
        → g.write s (pos address) bytes ≡ some s'
        → All (InMemory g s) all
        → All (InMemory g s') all)
      (by_unlink : (s : g.State) (next : ℕ)
        → All (InMemory g s) all
        → All (InMemory g (g.set_exception_list next s)) all)
      (head_set : All HeadSet all) where
    -- the world has the registrations in memory, and the stack pointer
    abbrev pub Listed : World g.State → Type 0
    Listed w = All (InMemory g w.guest) all × (w.stack_pointer ≡ sp)

    abbrev Kept : World g.State → World g.State → Type 0
    Kept w w' = (functions w'.calls ≡ functions w.calls) × Listed w'

    write-Listed :
        (w : World g.State) (address : ℕ) (bytes : List ℕ) (s : g.State)
        → address + length bytes ≤ w.stack_pointer
        → g.write w.guest (pos address) bytes ≡ some s
        → Listed w
        → Listed (record w { guest = s })
    write-Listed w address bytes s in_stack eq listed = (
      by_write w.guest s address bytes
          (subst (λ top. address + length bytes ≤ top) listed.1 in_stack) eq listed.0,
      listed.1,
    )

    alloc-Kept : (bytes : List ℕ) (w : World g.State) → Listed w → Kept w (alloc g bytes w).1
    alloc-Kept bytes w listed =
        (alloc-Preserves g (Kept w)
            (λ w' address bs s in_stack eq p. (p.0, write-Listed w' address bs s in_stack eq p.1))
            (λ w' h p. p) bytes).keeps
          w (refl, listed)

    returned-Calls :
        (c : GuestCall) (w : World g.State) (o : Option (ℕ × g.State))
        → g.call c w.guest ≡ o
        → Listed w
        → Calls g w (c.function ∷ []) (returned g (record w { calls = w.calls ++ c ∷ [] }) o)
          × Listed (returned g (record w { calls = w.calls ++ c ∷ [] }) o).1
    returned-Calls c w none eq listed = (
      record {
        made = c.function ∷ [];
        left = [];
        called = functions-append g w.calls c;
        in_order = refl;
        complete = λ a e. refl;
      },
      listed,
    )
    returned-Calls c w (some (v, s)) eq listed = (
      record {
        made = c.function ∷ [];
        left = [];
        called = functions-append g w.calls c;
        in_order = refl;
        complete = λ a e. refl;
      },
      (by_call c w.guest s v eq listed.0, listed.1),
    )

    abbrev Handled : {A : Type 0} → World g.State → List ℕ → Outcome A × World g.State → Type 0
    Handled w handlers r = Calls g w handlers r × Listed r.1

    -- the call after the write of its frame
    after_alloc :
        (handler : ℕ) (args : List ℕ) (w : World g.State) (r : Outcome ℕ × World g.State)
        → Kept w r.1
        → Handled w (handler ∷ []) (
            bind r (λ frame.
              guest_call g
                (record { function = handler; args = args; registers = (reg_ebp, frame) ∷ [] })))
    unfolding guest_call
    after_alloc handler args w (ok frame, w') kept =
        let c : GuestCall = record {
          function = handler;
          args = args;
          registers = (reg_ebp, frame) ∷ [];
        } in
        let after = returned-Calls c w' (g.call c w'.guest) refl kept.1 in
        (from-Kept g w w' (handler ∷ []) _ kept.0 after.0, after.1)
    after_alloc handler args w (failed e', w') kept =
        (none-Calls g w (handler ∷ []) (failed e', w') kept.0 (λ a e. cc e), kept.1)
    after_alloc handler args w (unhandled u, w') kept =
        (none-Calls g w (handler ∷ []) (unhandled u, w') kept.0 (λ a e. cc e), kept.1)
    after_alloc handler args w (no_return, w') kept =
        (none-Calls g w (handler ∷ []) (no_return, w') kept.0 (λ a e. cc e), kept.1)

    -- the call of the handler of a registration
    call_handler-Calls :
        (handler record_address registration context dispatcher_context : ℕ) (w : World g.State)
        → Listed w
        → Handled w
            (handler ∷ [])
            (call_handler g handler record_address registration context dispatcher_context w)
    unfolding call_handler
    call_handler-Calls handler record_address registration context dispatcher_context w listed =
        after_alloc handler (record_address ∷ registration ∷ context ∷ dispatcher_context ∷ []) w
          (alloc g
            (frame_bytes g (g.reg_read w.guest reg_ebp) record_address registration context
              dispatcher_context)
            w)
          (alloc-Kept _ w listed)

    -- what an unwind leaves of the chain
    abbrev Ends : ℕ → Outcome (Unit {0}) × World g.State → Type 0
    Ends last r = r.0 ≡ ok tt → g.exception_list r.1.guest ≡ last

    bind-Ends :
        {A : Type 0} (last : ℕ) (r : Outcome A × World g.State) (f : A → M g.State (Unit {0}))
        → ((a : A) (w' : World g.State) → r ≡ (ok a, w') → Ends last (f a w'))
        → Ends last (bind r f)
    bind-Ends last (ok a, w') f later e = later a w' refl e
    bind-Ends last (failed e', w') f later e = cc e
    bind-Ends last (unhandled u, w') f later e = cc e
    bind-Ends last (no_return, w') f later e = cc e

    module _ (target_frame record_address context dispatcher_context : ℕ) where
      abbrev unwind : ℕ → ℕ → M g.State (Unit {0})
      unwind n = unwind_from g n target_frame record_address context dispatcher_context

      abbrev after_call : ℕ → Registration → ℕ → M g.State (Unit {0})
      after_call n r _ = unlink g r.next >> unwind n r.next

      target-stops :
          (n address : ℕ) (w : World g.State) (bytes : Option (List ℕ))
          → is_target target_frame address ≡ true
          → unwind_entry g target_frame record_address context dispatcher_context address
              (unwind n)
              bytes
              w
            ≡ (ok tt, w)
      unfolding unwind_entry
      target-stops n address w none eq = refl
      target-stops n address w (some bytes) eq = rw eq refl

      unwind_from-stops :
          (n last : ℕ) (w : World g.State)
          → IsStop target_frame last
          → unwind (suc n) last w ≡ (ok tt, w)
      unfolding unwind_from
      unwind_from-stops n last w (inl eq) = rw eq refl
      unwind_from-stops n last w (inr eq) = elim (Bool-cases (is_end last)) [
        | inl end ↦ rw end refl
        | inr end ↦ rw end (target-stops n last w (g.read w.guest (pos last) 8) eq)
      ]

      unwind_from-step :
          (n : ℕ) (r : Registration) (w : World g.State)
          → is_end r.address ≡ false
          → is_target target_frame r.address ≡ false
          → InMemory g w.guest r
          → unwind (suc n) r.address w
            ≡ bind
                (call_handler g r.handler record_address r.address context dispatcher_context w)
                (after_call n r)
      unfolding unwind_from unwind_entry
      unwind_from-step n r w end target (bytes, read, next, handler) =
          rw (end, read, target, next, handler) refl

      abbrev unlinked : Registration → World g.State → World g.State
      unlinked r w = record w { guest = g.set_exception_list r.next w.guest }

      after_call_lem :
          (n : ℕ) (r : Registration) (a : ℕ) (w : World g.State) (handlers : List ℕ) (last : ℕ)
          → Calls g (unlinked r w) handlers (unwind n r.next (unlinked r w))
            × Ends last (unwind n r.next (unlinked r w))
          → Calls g w handlers (after_call n r a w) × Ends last (after_call n r a w)
      unfolding unlink
      after_call_lem n r a w handlers last later =
          (from-Kept g w (unlinked r w) handlers _ refl later.0, later.1)

      unwind_from_lem :
          (n first : ℕ) (regs : List Registration) (last : ℕ) (w : World g.State)
          → length regs < n
          → Linked target_frame first regs last
          → IsStop target_frame last
          → Listed w
          → ((s : g.State) → All (InMemory g s) all → All (InMemory g s) regs)
          → All HeadSet regs
          → g.exception_list w.guest ≡ first
          → Calls g w (handlers_of regs) (unwind n first w) × Ends last (unwind n first w)
      unwind_from_lem zero first regs last w less linked stops listed sub heads head =
          elim (no_fuel (length regs) less) [ ]
        where
          no_fuel : (k : ℕ) → k < 0 → ⊥
          no_fuel k k_less = omega (arith, k_less)
      unwind_from_lem (suc n) first [] last w less linked stops listed sub heads head =
          rw (linked, unwind_from-stops n last w stops)
            (none-Calls g w [] (ok tt, w) refl (λ a e. refl), λ e. head ∙ linked)
      unwind_from_lem (suc n) first (r ∷ regs) last w less (eq, end, target, linked) stops listed
            sub heads head =
          let made =
            call_handler-Calls r.handler record_address r.address context dispatcher_context w
              listed in
          let rest : (a : ℕ) (w' : World g.State)
              → called ≡ (ok a, w')
              → Calls g w' (handlers_of regs) (after_call n r a w')
                × Ends last (after_call n r a w') =
            λ a w' e.
              let listed' : Listed w' = subst (λ o. Listed o.1) e made.1 in
              after_call_lem n r a w' (handlers_of regs) last (
                unwind_from_lem n r.next regs last (unlinked r w') (omega (arith, less)) linked
                  stops (by_unlink w'.guest r.next listed'.0, listed'.1) (λ s l. (sub s l).1)
                  heads.1 (heads.0 w'.guest)) in
          rw (eq, unwind_from-step n r w end target (sub w.guest listed.0).0)
            (
              seq-Calls g w (r.handler ∷ []) (handlers_of regs) called (after_call n r) made.0
                  (λ a w' e. (rest a w' e).0),
              bind-Ends last called (after_call n r) (λ a w' e. (rest a w' e).1),
            )
        where
          called : Outcome ℕ × World g.State
          called = call_handler g r.handler record_address r.address context dispatcher_context w

    -- Writes below the stack pointer do not change the head of the chain in the TEB.
    module _
        (same_head : (s s' : g.State) (address : ℕ) (bytes : List ℕ)
          → address + length bytes ≤ sp
          → g.write s (pos address) bytes ≡ some s'
          → g.exception_list s' ≡ g.exception_list s) where
      abbrev Ready : World g.State → World g.State → Type 0
      Ready w w' = Kept w w' × (g.exception_list w'.guest ≡ g.exception_list w.guest)

      abbrev Goal : World g.State → List ℕ → ℕ → Outcome (Unit {0}) × World g.State → Type 0
      Goal w handlers last r = Calls g w handlers r × Ends last r

      setup :
          {A : Type 0} (w : World g.State) (handlers : List ℕ) (last : ℕ)
          (r : Outcome A × World g.State) (f : A → M g.State (Unit {0}))
          → Ready w r.1
          → ((a : A) (w' : World g.State) → Ready w w' → Goal w handlers last (f a w'))
          → Goal w handlers last (bind r f)
      setup w handlers last (ok a, w') f ready later = later a w' ready
      setup w handlers last (failed e', w') f ready later =
          (none-Calls g w handlers (failed e', w') ready.0.0 (λ a e. cc e), λ e. cc e)
      setup w handlers last (unhandled u, w') f ready later =
          (none-Calls g w handlers (unhandled u, w') ready.0.0 (λ a e. cc e), λ e. cc e)
      setup w handlers last (no_return, w') f ready later =
          (none-Calls g w handlers (no_return, w') ready.0.0 (λ a e. cc e), λ e. cc e)

      module _ (w : World g.State) where
        Ready-write :
            (w' : World g.State) (address : ℕ) (bytes : List ℕ) (s : g.State)
            → address + length bytes ≤ w'.stack_pointer
            → g.write w'.guest (pos address) bytes ≡ some s
            → Ready w w'
            → Ready w (record w' { guest = s })
        Ready-write w' address bytes s in_stack eq p = (
          (p.0.0, write-Listed w' address bytes s in_stack eq p.0.1),
          same_head w'.guest s address bytes
                (subst (λ top. address + length bytes ≤ top) p.0.1.1 in_stack) eq
              ∙ p.1,
        )

        alloc-Ready : (bytes : List ℕ) → Preserves (Ready w) (alloc g bytes)
        alloc-Ready bytes = alloc-Preserves g (Ready w) Ready-write (λ w' h p. p) bytes

        record-Ready : (record_address : ℕ) → Preserves (Ready w) (unwind_record g record_address)
        unfolding unwind_record
        record-Ready record_address =
            if-Preserves (record_address == 0) return-Preserves
              (read_record-Preserves g (Ready w) Ready-write (λ w' h p. p) record_address)

      unwind_registrations-Goal :
          (target_frame record_address last : ℕ) (w : World g.State)
          → length all < 4096
          → Linked target_frame (g.exception_list w.guest) all last
          → IsStop target_frame last
          → Listed w
          → Goal w (handlers_of all) last (unwind_registrations g target_frame record_address w)
      unfolding unwind_registrations
      unwind_registrations-Goal target_frame record_address last w less linked stops listed =
          setup w hs last (unwind_record g record_address w) _
            ((record-Ready w record_address).keeps w ((refl, listed), refl))
            (λ fields w1 ready1.
              setup w hs last (alloc g _ w1) _ ((alloc-Ready w _).keeps w1 ready1)
                (λ unwinding w2 ready2.
                  setup w hs last (alloc g (g.encode_context (g.thread_context w2.guest)) w2) _
                    ((alloc-Ready w _).keeps w2 ready2)
                    (λ context w3 ready3.
                      setup w hs last (alloc g (replicate 4 0) w3) _
                        ((alloc-Ready w _).keeps w3 ready3)
                        (λ dispatcher_context w4 ready4.
                          run unwinding context dispatcher_context w4 ready4))))
        where
          hs : List ℕ
          hs = handlers_of all

          run :
              (unwinding context dispatcher_context : ℕ) (w' : World g.State)
              → Ready w w'
              → Goal w hs last (
                  unwind_from g max_frames target_frame unwinding context dispatcher_context
                    (g.exception_list w'.guest)
                    w')
          run unwinding context dispatcher_context w' ready =
              let linked' : Linked target_frame (g.exception_list w'.guest) all last =
                subst (λ h. Linked target_frame h all last) (sym ready.1) linked in
              let done =
                unwind_from_lem target_frame unwinding context dispatcher_context max_frames
                  (g.exception_list w'.guest) all last w' less linked' stops ready.0.1 (λ s l. l)
                  head_set refl in
              (from-Kept g w w' hs _ ready.0.0 done.0, done.1)

      -- The registrations above the target of an unwind are in guest memory, fewer than 4096; guest
      -- functions, writes below the stack pointer and changes of the head of the chain in the TEB do
      -- not change them; writes below the stack pointer do not change that head either; and the head
      -- that is set when a registration is removed is read back. Then the unwind calls handlers of
      -- these registrations only, each at most once and in the order of the chain, whatever its
      -- outcome is.
      pub unwind_registrations-order :
          (target_frame record_address last : ℕ) (w : World g.State)
          → length all < 4096
          → Linked target_frame (g.exception_list w.guest) all last
          → IsStop target_frame last
          → Listed w
          → (made : List ℕ) × (left : List ℕ) × (made ++ left ≡ handlers_of all)
            × (functions (unwind_registrations g target_frame record_address w).1.calls
                ≡ functions w.calls ++ made)
      unwind_registrations-order target_frame record_address last w less linked stops listed =
          let c =
            (unwind_registrations-Goal target_frame record_address last w less linked stops
              listed).0 in
          (c.made, c.left, c.in_order, c.called)
