-- ===== src/Examples/Fixed.antt =====
-- Tests: the run of a k8sinit manager, from New on.
use svcinit.Common.{ℕ, String, Action, ◌≡◌, refl, none, some, List, [], ◌∷◌, ◌++◌, map, returned}
use svcinit.Step.{setup}
use svcinit.Context.{Ctx, with_value, logger}
use svcinit.Default.{Woken, context_done}
use svcinit.Wrapper.Phase.{Phase, IsLifecycle}
use svcinit.Manager.{Manager, apply_options, default_manager, stage_tasks}
use svcinit.Run.{System, Reach, begin, and_next, launches}
use svcinit.Run.Managed.{plan_of, store_of, pointed}
use svcinit.K8sinit.{all_stages, default_settings, required_options, add_signals}
use svcinit.K8sinit.Handlers.{Handlers, new_handlers}
use svcinit.K8sinit.Calls.{Call, adds_task, sets_health_task, perform_all, forward_begin_run}
use svcinit.K8sinit.Calls.Adds.{signal_calls, all_as_calls}
use svcinit.Manager.Running.Added.{added}
use svcinit.K8sinit.Calls.Runs.{k8sinit_run}
use svcinit.Examples.{ctx, counter, fresh_wrapper}

abbrev wait_for : List ℕ → Ctx → Action ℕ Woken
wait_for ss c w = (returned (context_done none), w)

abbrev show_signals : List ℕ → String
show_signals ss = "[]"

-- The manager with its signal task.
abbrev made_manager : Manager ℕ
made_manager =
    add_signals wait_for show_signals default_settings 0
      (apply_options default_manager (required_options default_settings))

abbrev calls : List (Call ℕ)
calls = sets_health_task 0 (some counter) [] ∷ adds_task 0 "ready" (some counter) [] ∷ []

abbrev logged : Ctx
logged = with_value (logger 0) ctx

abbrev running : Handlers ℕ
running = (forward_begin_run ctx [] (perform_all calls (new_handlers made_manager)) 0).1

-- The signal task, the first of the run, has no setup to launch.
abbrev one_launch :
    (s : System ℕ) × Reach
      (plan_of running.manager)
      running.manager.enforce_shutdown_timeout
      (store_of fresh_wrapper running.manager)
      running.manager.startup
      s
unfolding svcinit.Run.Program.run_program plan_of forward_begin_run svcinit.K8sinit.Calls.perform
    new_handlers svcinit.Wrapper.new_task_wrapper add_signals svcinit.Manager.add_task apply_options
    default_manager default_settings required_options
one_launch = (_, and_next begin (launches {k = 0} {i = 0} {st = setup} refl 0))

k8sinit_run_example :
    (pointed (store_of fresh_wrapper running.manager) (plan_of running.manager)
      ≡ map
          (λ stage. added stage (signal_calls wait_for show_signals 0 [] ++ all_as_calls calls))
          all_stages)
    × ((i : ℕ) → (p : Phase) × IsLifecycle (one_launch.0.wrappers i).execute_steps p)
unfolding svcinit.K8sinit.new forward_begin_run svcinit.K8sinit.Calls.perform new_handlers
    svcinit.Wrapper.new_task_wrapper one_launch svcinit.Run.do_launch
    svcinit.Wrapper.check_start_step store_of
k8sinit_run_example =
    k8sinit_run wait_for show_signals 0 0 [] calls [] made_manager ctx logged running fresh_wrapper
      one_launch.0 refl refl refl refl one_launch.1 refl
