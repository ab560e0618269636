-- ===== src/Examples/Runs.antt =====
-- Tests: whole runs of the manager.
mod Returned
use svcinit.Common.{
  any, is_nil, if◌then◌else◌, ℕ, suc, ◌+◌, ◌≤◌, ◌≡◌, refl, true, false, none, some, List, [], ◌∷◌,
  returned, arith,
}
use svcinit.Errors.{plain}
use svcinit.Errors.Sentinel
use svcinit.Context.{
  background, with_cancel, Nodes, done, or_canceled, context_cancel,
  start_step_manager_from_context, finished_closed, finished_err,
}
use svcinit.Run.Contexts.{step_context, base_of, end_start, stop_reaches_start}
use svcinit.Step.{Step, setup, start, stop, teardown, contains}
use svcinit.Task.{Task, no_info}
use svcinit.Wrapper.{Wrapper}
use svcinit.Manager.{live}
use svcinit.Run.{
  System, Goroutine, Reach, initial, do_launch, begin, and_next, launches, signals, begins, reports,
  ends, joins, verifies, passes, awaits, cancels, joins_running, spawned, reported, signalled,
  begun,
}
use svcinit.Run.Program.{Plan, Instr}
use svcinit.Run.Measure.{measure, and_own, none_taken, OwnSteps-bounded}
use svcinit.Run.Ends.{Ends, run_ends}
use svcinit.Errors.{is, is_opt}
use svcinit.Errors.Builder
use svcinit.Run.Once.{occ, live as live_goroutines}
use svcinit.Run.Order.{Unique, Reach-at_most_once}
use svcinit.Run.Reports.{causes, setup_failures, stop_reports}
use svcinit.Run.Reports.Outcome.{history, stop_cause, by_startup, by_caller, first_of, run_outcome}
use svcinit.Run.Down.Finish.{Reach-torn_down}
use svcinit.Examples.{broken, fresh_wrapper}

-- A task that is only set up and torn down.
abbrev holder : Task ℕ
holder = record {
  run = λ _ _ w. (returned none, suc w);
  task_info = some (λ _. record no_info { name = "holder"; steps = some (setup ∷ teardown ∷ []) });
  stringer = none;
  type_name = "*main.holder";
}

abbrev plan : Plan
plan = (0, 0 ∷ []) ∷ []

plan-Unique : Unique plan
plan-Unique i = ground arith

abbrev wrappers : ℕ → Wrapper ℕ
wrappers i = record fresh_wrapper { task = holder }

abbrev State : Type 0
State = (s : System ℕ) × Reach plan false wrappers live s

abbrev worker : Step → Goroutine
worker st = record { stage = 0; step = st; tw = 0; pc = spawned }

-- The whole of the setup: its goroutine runs and ends, and it is waited for.
abbrev set_up : State
unfolding svcinit.Run.do_launch svcinit.Wrapper.check_start_step svcinit.Run.Program.run_program
    svcinit.Wrapper.check_run_step svcinit.Run.on_error svcinit.Run.quiet
    svcinit.Errors.Builder.has_errors
set_up = (
  _,
  and_next
      (and_next
        (and_next
          (and_next
            (and_next
              (and_next (and_next begin (launches {k = 0} {i = 0} {st = setup} refl 0))
                (signals [] (worker setup) [] refl refl))
              (begins [] (record (worker setup) { pc = signalled }) [] 7 refl refl refl))
            (reports [] (record (worker setup) { pc = begun }) [] none refl refl))
          (ends [] (record (worker setup) { pc = reported }) [] refl refl))
        (joins {k = 0} {st = setup} {b = false} refl refl))
      (verifies {k = 0} refl refl),
)

-- The start is passed over, the run is stopped, and the stop is passed over.
abbrev stopped : State
unfolding svcinit.Run.do_launch svcinit.Wrapper.check_start_step svcinit.Run.all_started
    svcinit.Run.on_error svcinit.Run.quiet svcinit.Run.none_running svcinit.Run.end_step
    svcinit.Run.begin_step set_up
stopped = (
  _,
  and_next
      (and_next
        (and_next
          (and_next
            (and_next
              (and_next (and_next set_up.1 (launches {k = 0} {i = 0} {st = start} refl 1))
                (passes {k = 0} refl refl))
              (cancels broken))
            (awaits refl (broken, refl)))
          (launches {k = 0} {i = 0} {st = stop} refl 1))
        (joins {k = 0} {st = stop} {b = false} refl refl))
      (joins_running {b = false} refl refl),
)

abbrev finished : State
unfolding svcinit.Run.do_launch svcinit.Wrapper.check_start_step svcinit.Wrapper.check_run_step
    svcinit.Run.on_error svcinit.Run.quiet svcinit.Run.end_step svcinit.Run.begin_step stopped
finished = (
  _,
  and_next
      (and_next
        (and_next
          (and_next
            (and_next (and_next stopped.1 (launches {k = 0} {i = 0} {st = teardown} refl 1))
              (signals [] (worker teardown) [] refl refl))
            (begins [] (record (worker teardown) { pc = signalled }) [] 2 refl refl refl))
          (reports [] (record (worker teardown) { pc = begun }) [] (some broken) refl refl))
        (ends [] (record (worker teardown) { pc = reported }) [] refl refl))
      (joins {k = 0} {st = teardown} {b = false} refl refl),
)

finished_steps : (finished.0.wrappers 0).execute_steps ≡ setup ∷ start ∷ stop ∷ teardown ∷ []
unfolding finished
finished_steps = refl

Reach-torn_down_example : contains (finished.0.wrappers 0).execute_steps teardown ≡ true
unfolding svcinit.Wrapper.check_run_step finished
Reach-torn_down_example =
    Reach-torn_down plan false plan-Unique wrappers live (λ i. refl) 0 (ground arith) (λ w w'. refl)
      finished.0 finished.1 refl refl refl refl

Reach-at_most_once_example :
    occ 0 teardown stopped.0.todo + live_goroutines 0 teardown stopped.0.go ≤ 1
unfolding stopped
Reach-at_most_once_example =
    Reach-at_most_once plan false plan-Unique wrappers live (λ i. refl) stopped.1 refl 0 teardown

abbrev rest : List Instr → List Instr
rest [] = []
rest (x ∷ xs) = xs

abbrev start_state : System ℕ
start_state = initial plan false wrappers live

abbrev launched : System ℕ
launched = do_launch 0 0 setup 0 (rest start_state.todo) start_state

OwnSteps-bounded_example : 1 + measure plan false launched ≤ measure plan false start_state
unfolding svcinit.Run.Program.run_program
OwnSteps-bounded_example =
    OwnSteps-bounded plan false
      (and_own none_taken (launches {k = 0} {i = 0} {st = setup} refl 0, refl))

run_ends_example : Ends plan false stopped.0
unfolding svcinit.Run.do_launch stopped
run_ends_example = run_ends plan false 4 stopped.0 (broken, refl)

-- A task that asks for a start step manager: its stop step cancels its start step, which fails.
abbrev managed : Wrapper ℕ
managed = record fresh_wrapper {
  add_options = record fresh_wrapper.add_options { start_step_manager = true };
}

abbrev no_cancels : Nodes
no_cancels m = none

stop_reaches_start_example :
    let (start_ctx, started) =
      step_context 0 start background (with_cancel 9 background) 1 2 managed in
    let ssm =
      start_step_manager_from_context (step_context 1 stop background background 3 4 started).0 in
    let (possible, asked) =
      context_cancel ssm
        (base_of 0 managed background (with_cancel 9 background))
        none
        no_cancels in
    let ended =
      end_start 1 2
        (base_of 0 managed background (with_cancel 9 background))
        (some (some broken))
        asked in
    (possible ≡ true)
    × (done asked start_ctx
        ≡ some (record { err = plain Sentinel.canceled; cause = or_canceled none }))
    × (finished_closed ssm asked ≡ false)
    × (finished_closed ssm ended ≡ true)
    × (finished_err ssm ended ≡ some broken)
unfolding svcinit.Wrapper.current_options done step_context base_of svcinit.Errors.is
stop_reaches_start_example =
    stop_reaches_start 0 1 managed background (with_cancel 9 background) background background 1 2 3
      4 refl refl none (some broken) no_cancels refl refl refl refl
