-- ===== src/Examples/Races.antt =====
-- Tests: an order of steps in which a task is started but never asked to stop.
use svcinit.Common.{ℕ, ◌≡◌, refl, false, none, [], ◌∷◌}
use svcinit.Step.{Step, setup, start, stop}
use svcinit.Wrapper.{Wrapper}
use svcinit.Manager.{live}
use svcinit.Run.{
  System, Goroutine, Reach, begin, and_next, launches, signals, begins, reports, ends, joins,
  verifies, passes, awaits, cancels, spawned, signalled, begun, reported,
}
use svcinit.Run.Program.{Plan}
use svcinit.Run.Once.{occ}
use svcinit.Examples.{broken, fresh_wrapper}

abbrev plan : Plan
plan = (0, 0 ∷ []) ∷ []

abbrev wrappers : ℕ → Wrapper ℕ
wrappers i = fresh_wrapper

abbrev State : Type 0
State = (s : System ℕ) × Reach plan false wrappers live s

abbrev worker : Step → Goroutine
worker st = record { stage = 0; step = st; tw = 0; pc = spawned }

-- The task is set up, and its start is launched and has signalled that it is there.
abbrev starting : State
unfolding svcinit.Run.do_launch svcinit.Wrapper.check_start_step svcinit.Run.Program.run_program
    svcinit.Wrapper.check_run_step svcinit.Run.on_error svcinit.Run.quiet
    svcinit.Errors.Builder.has_errors svcinit.Run.end_step svcinit.Run.begin_step
starting = (
  _,
  and_next
      (and_next
        (and_next
          (and_next
            (and_next
              (and_next
                (and_next
                  (and_next (and_next begin (launches {k = 0} {i = 0} {st = setup} refl 0))
                    (signals [] (worker setup) [] refl refl))
                  (begins [] (record (worker setup) { pc = signalled }) [] 7 refl refl refl))
                (reports [] (record (worker setup) { pc = begun }) [] none refl refl))
              (ends [] (record (worker setup) { pc = reported }) [] refl refl))
            (joins {k = 0} {st = setup} {b = false} refl refl))
          (verifies {k = 0} refl refl))
        (launches {k = 0} {i = 0} {st = start} refl 1))
      (signals [] (worker start) [] refl refl),
)

-- A stop is asked for at once: the stop step is checked, and passed over without an error, before the
-- start step is recorded; then the start step begins.
abbrev raced : State
unfolding svcinit.Run.do_launch svcinit.Wrapper.check_start_step svcinit.Run.all_started
    svcinit.Wrapper.check_run_step svcinit.Run.on_error svcinit.Run.quiet svcinit.Run.begin_step
    starting
raced = (
  _,
  and_next
      (and_next
        (and_next
          (and_next (and_next (and_next starting.1 (passes {k = 0} refl refl)) (cancels broken))
            (awaits refl (broken, refl)))
          (launches {k = 0} {i = 0} {st = stop} refl 1))
        (joins {k = 0} {st = stop} {b = false} refl refl))
      (begins [] (record (worker start) { pc = signalled }) [] 2 refl refl refl),
)

raced_steps : (raced.0.wrappers 0).execute_steps ≡ setup ∷ start ∷ []
unfolding raced
raced_steps = refl

raced_running : raced.0.go ≡ record (worker start) { pc = begun } ∷ []
unfolding raced
raced_running = refl

raced_stops : occ 0 stop raced.0.todo ≡ 0
unfolding raced
raced_stops = refl

raced_errors : raced.0.stop_errs ≡ []
unfolding raced
raced_errors = refl
