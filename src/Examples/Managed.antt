-- ===== src/Examples/Managed.antt =====
-- Tests: the run of a manager, from New on.
use svcinit.Common.{ℕ, ◌≡◌, refl, true, some, List, [], ◌∷◌, map}
use svcinit.Step.{setup}
use svcinit.Wrapper.{Wrapper}
use svcinit.Wrapper.Phase.{Phase, IsLifecycle}
use svcinit.Context.{Ctx, with_value, logger}
use svcinit.Manager.{
  Manager, ManagerOption, with_stages, apply_options, default_manager, stage_tasks,
}
use svcinit.Manager.Running.{Call, adds_task, shuts_down, after_calls}
use svcinit.Manager.Running.Added.{added}
use svcinit.Run.{System, Reach, begin, and_next, launches}
use svcinit.Run.Begin.{begin_run}
use svcinit.Run.Managed.{plan_of, store_of, pointed}
use svcinit.Run.Managed.Laws.{managed_run}
use svcinit.Examples.{ctx, counter, fresh_wrapper}

abbrev options : List (ManagerOption ℕ)
options = with_stages ("db" ∷ "http" ∷ []) ∷ []

-- A task for each stage.
abbrev calls : List (Call ℕ)
calls = adds_task 0 "http" (some counter) [] ∷ adds_task 0 "db" (some counter) [] ∷ []

abbrev made_manager : Manager ℕ
made_manager = apply_options default_manager options

abbrev logged : Ctx
logged = with_value (logger 0) ctx

abbrev running_manager : Manager ℕ
running_manager = (begin_run ctx (shuts_down ∷ []) (after_calls calls made_manager) 0).1

-- The first stage's task is being set up.
abbrev one_launch :
    (s : System ℕ) × Reach
      (plan_of running_manager)
      true
      (store_of fresh_wrapper running_manager)
      running_manager.startup
      s
unfolding svcinit.Run.Program.run_program plan_of begin_run svcinit.Manager.Running.perform
    svcinit.Manager.add_task apply_options default_manager svcinit.Wrapper.new_task_wrapper
    svcinit.Manager.shutdown
one_launch = (_, and_next begin (launches {k = 0} {i = 0} {st = setup} refl 0))

managed_run_example :
    (pointed (store_of fresh_wrapper running_manager) (plan_of running_manager)
      ≡ map (λ stage. added stage calls) made_manager.stages)
    × ((i : ℕ) → (p : Phase) × IsLifecycle (one_launch.0.wrappers i).execute_steps p)
unfolding svcinit.Manager.new begin_run svcinit.Manager.Running.perform svcinit.Manager.add_task
    svcinit.Wrapper.new_task_wrapper one_launch svcinit.Run.do_launch
    svcinit.Wrapper.check_start_step store_of svcinit.Manager.shutdown
managed_run_example =
    managed_run options calls (shuts_down ∷ []) made_manager running_manager ctx logged 0
      fresh_wrapper one_launch.0 refl refl refl refl one_launch.1 refl
