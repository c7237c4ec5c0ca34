-- ===== src/Breakpoints/Tests.antt =====
-- A thread with breakpoints in Dr0 and Dr2.
use speakeasy.Base.{◌≡◌, refl, true, false, none, some, [], ◌∷◌, ◌==◌, if◌then◌else◌}
use speakeasy.Breakpoints.{
  Thread, is_execute, index_of, set_default, add_breakpoint, execute_breakpoints, Breakpoints,
  is_hooked, is_wanted, keep_wanted, missing, wanted_of, update, resume_at, same_thread, is_resumed,
  set_dr6, raised, hit,
}
use speakeasy.Breakpoints.Hooks.{
  update-is_hooked, hit-resume_at, lowest_index, execute_breakpoints_lem,
}

program : Unit {0}
unfolding is_execute index_of set_default add_breakpoint execute_breakpoints is_hooked is_wanted
    keep_wanted missing wanted_of update resume_at same_thread is_resumed set_dr6 raised hit
program = tt

abbrev thread : Thread
thread = record { id = 1; dr = λ i. if i == 0 then 0x1000 else 0x2000; dr6 = 0; dr7 = 0x11 }

abbrev hooked : Breakpoints
hooked = record { hooks = 0x2000 ∷ 0x3000 ∷ []; resume = none }

update-is_hooked_example :
    is_hooked 0x1000 (update (some thread) false hooked).hooks
    ≡ is_wanted 0x1000 (wanted_of (some thread) false)
update-is_hooked_example = update-is_hooked (some thread) false hooked 0x1000

is_there : is_hooked 0x2000 hooked.hooks ≡ true
unfolding program
is_there = refl

hit-resume_at_example :
    ((hit (some thread) 0x2000 (resume_at (some thread) 0x2000 hooked)).0 ≡ none)
    × ((hit
          (some thread)
          0x2000
          (hit (some thread) 0x2000 (resume_at (some thread) 0x2000 hooked)).1).0
        ≡ raised (some thread) 0x2000)
hit-resume_at_example = hit-resume_at (some thread) 0x2000 hooked is_there

execute_breakpoints_lem_example :
    index_of 0x2000 (execute_breakpoints thread) ≡ lowest_index 4 0 thread 0x2000
execute_breakpoints_lem_example = execute_breakpoints_lem thread 0x2000

values :
    (execute_breakpoints thread ≡ (0x1000, 0) ∷ (0x2000, 2) ∷ [])
    × ((update (some thread) false hooked).hooks ≡ 0x2000 ∷ 0x1000 ∷ [])
    × (raised (some thread) 0x2000 ≡ some (record thread { dr6 = 4 }))
unfolding program
values = (refl, refl, refl)
