-- ===== src/Examples/Stages.antt =====
-- Tests: a run over two stages.
use svcinit.Common.{ℕ, suc, ◌≡◌, refl, true, false, none, some, List, [], ◌∷◌, returned, arith}
use svcinit.Step.{Step, setup, start, stop, contains}
use svcinit.Task.{Task, no_info}
use svcinit.Wrapper.{Wrapper}
use svcinit.Manager.{live}
use svcinit.Run.{
  System, Goroutine, Reach, begin, and_next, launches, signals, begins, reports, ends, joins,
  verifies, passes, awaits, cancels, spawned, reported, signalled, begun,
}
use svcinit.Run.Program.{Plan, Instr}
use svcinit.Run.Once.{occ}
use svcinit.Run.Order.{Unique}
use svcinit.Run.Barrier.Alone.{alone_with, launch_alone}
use svcinit.Run.Stages.Before.{is_over, stages_in_order}
use svcinit.Run.Stages.Ready.{setup_before_next_stage}
use svcinit.Examples.{broken, fresh_wrapper}

-- A task that is started and stopped, and has no setup.
abbrev server : Task ℕ
server = record {
  run = λ _ _ w. (returned none, suc w);
  task_info = some (λ _. record no_info { name = "server"; steps = some (start ∷ stop ∷ []) });
  stringer = none;
  type_name = "*main.server";
}

abbrev first_stage : Plan
first_stage = (0, 0 ∷ []) ∷ []

abbrev last_stage : Plan
last_stage = (1, 1 ∷ []) ∷ []

abbrev both_stages : Plan
both_stages = (0, 0 ∷ []) ∷ (1, 1 ∷ []) ∷ []

both_stages-Unique : Unique both_stages
both_stages-Unique i = ground arith

abbrev wrappers : ℕ → Wrapper ℕ
wrappers i = record fresh_wrapper { task = server }

abbrev State : Type 0
State = (s : System ℕ) × Reach both_stages false wrappers live s

abbrev of_task : ℕ → Step → Goroutine
of_task i st = record { stage = i; step = st; tw = i; pc = spawned }

-- The first stage is set up and started; its start step has signalled and is not yet in its code.
abbrev first_started : State
unfolding svcinit.Run.do_launch svcinit.Wrapper.check_start_step svcinit.Run.Program.run_program
    svcinit.Run.quiet svcinit.Errors.Builder.has_errors svcinit.Run.all_started
first_started = (
  _,
  and_next
      (and_next
        (and_next
          (and_next
            (and_next (and_next begin (launches {k = 0} {i = 0} {st = setup} refl 0))
              (joins {k = 0} {st = setup} {b = false} refl refl))
            (verifies {k = 0} refl refl))
          (launches {k = 0} {i = 0} {st = start} refl 1))
        (signals [] (of_task 0 start) [] refl refl))
      (passes {k = 0} refl refl),
)

-- The second stage is started too; both start steps run, and the run is stopped.
abbrev both_started : State
unfolding svcinit.Run.do_launch svcinit.Wrapper.check_start_step svcinit.Run.quiet
    svcinit.Errors.Builder.has_errors svcinit.Run.all_started svcinit.Wrapper.check_run_step
    svcinit.Run.begin_step first_started
both_started = (
  _,
  and_next
      (and_next
        (and_next
          (and_next
            (and_next
              (and_next
                (and_next
                  (and_next
                    (and_next
                      (and_next first_started.1 (
                        begins [] (record (of_task 0 start) { pc = signalled }) [] 0 refl refl
                          refl))
                      (launches {k = 1} {i = 1} {st = setup} refl 0))
                    (joins {k = 1} {st = setup} {b = false} refl refl))
                  (verifies {k = 1} refl refl))
                (launches {k = 1} {i = 1} {st = start} refl 1))
              (signals [] (of_task 1 start) (record (of_task 0 start) { pc = begun } ∷ []) refl
                refl))
            (begins [] (record (of_task 1 start) { pc = signalled })
              (record (of_task 0 start) { pc = begun } ∷ []) 0 refl refl refl))
          (passes {k = 1} refl refl))
        (cancels broken))
      (awaits refl (broken, refl)),
)

-- The last stage is stopped, while its start step and that of the first stage go on.
abbrev last_stopped : State
unfolding svcinit.Run.do_launch svcinit.Wrapper.check_start_step svcinit.Run.quiet
    svcinit.Wrapper.check_run_step svcinit.Run.begin_step svcinit.Run.end_step svcinit.Run.on_error
    both_started
last_stopped = (
  _,
  and_next
      (and_next
        (and_next
          (and_next
            (and_next (and_next both_started.1 (launches {k = 1} {i = 1} {st = stop} refl 1))
              (signals [] (of_task 1 stop) _ refl refl))
            (begins [] (record (of_task 1 stop) { pc = signalled }) _ 0 refl refl refl))
          (reports [] (record (of_task 1 stop) { pc = begun }) _ none refl refl))
        (ends [] (record (of_task 1 stop) { pc = reported }) _ refl refl))
      (joins {k = 1} {st = stop} {b = false} refl refl),
)

setup_before_next_stage_example :
    (contains (first_started.0.wrappers 0).execute_steps setup ≡ true)
    × (occ 0 start first_started.0.todo ≡ 0)
    × (is_over 0 start first_started.0.go ≡ true)
unfolding first_started svcinit.Wrapper.check_run_step
setup_before_next_stage_example =
    setup_before_next_stage 0 1 first_stage last_stage false wrappers live (λ w w'. refl) refl refl
      (ground arith) first_started.0 first_started.1 refl refl

launch_alone_example : alone_with 1 setup first_started.0.go ≡ true
unfolding first_started
launch_alone_example =
    launch_alone both_stages false both_stages-Unique wrappers live (λ i. refl) first_started.0
      first_started.1 refl refl

abbrev rest : List Instr → List Instr
rest [] = []
rest (x ∷ xs) = xs

stages_in_order_example :
    (occ 1 stop (rest last_stopped.0.todo) ≡ 0) × (is_over 1 stop last_stopped.0.go ≡ true)
unfolding last_stopped
stages_in_order_example =
    stages_in_order 1 0 stop last_stage first_stage false refl refl wrappers live last_stopped.0
      last_stopped.1 refl refl
