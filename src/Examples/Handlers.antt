-- ===== src/Examples/Handlers.antt =====
-- Tests: the handlers of a Kubernetes manager.
use svcinit.Common.{ℕ, ◌+◌, ◌≡◌, refl, true, none, some, [], ◌∷◌, ◌++◌, returned}
use svcinit.Errors.{Error, is_opt}
use svcinit.Step.{setup, stop, step_eq}
use svcinit.Task.{task_has_step}
use svcinit.HealthHandler.{HealthHandler, with_service_started, build_health_handler}
use svcinit.Manager.{Manager, stage_tasks}
use svcinit.K8sinit.{all_stages}
use svcinit.K8sinit.Handlers.{
  Handlers, new_handlers, set_health_handler, set_health_task, started_probe, terminating_probe,
}
use svcinit.K8sinit.Probes.{added_to, refusal, set_health_handler-once}
use svcinit.Examples.{ctx, idle, counter}

-- Adds ten when the service has started, and does nothing when it terminates.
abbrev handler : HealthHandler ℕ
unfolding build_health_handler
handler = build_health_handler (with_service_started (some (λ _ w. 10 + w)) ∷ [])

abbrev before : Handlers ℕ
unfolding new_handlers
before = new_handlers (record idle { stages = all_stages })

set_health_handler-once_example :
    let k' = set_health_handler 0 (some handler) [] before in
    (stage_tasks "service" k'.manager.tasks
      ≡ stage_tasks "service" before.manager.tasks ++ added_to 0 handler [] "service")
    × (k'.manager.init_errors ≡ before.manager.init_errors)
    × ((e : Error) × (is_opt (refusal (some handler)) (some e) ≡ true)
        × (set_health_handler 0 (some handler) [] k' ≡ record k' {
          manager = record k'.manager { init_errors = k'.manager.init_errors ++ e ∷ [] };
        }))
    × (task_has_step (started_probe 0 handler) 3 setup ≡ step_eq setup setup)
    × (task_has_step (terminating_probe 0 handler) 3 setup ≡ step_eq setup stop)
    × ((started_probe 0 handler).run ctx setup 3 ≡ (returned none, handler.service_started ctx 3))
    × ((terminating_probe 0 handler).run ctx stop 3
        ≡ (returned none, handler.service_terminating ctx 3))
unfolding new_handlers
set_health_handler-once_example =
    set_health_handler-once 0 3 handler [] [] before "service" ctx setup (some handler) refl refl
      refl

-- The handler is called.
started_counts : handler.service_started ctx 3 ≡ 13
unfolding build_health_handler svcinit.HealthHandler.call_or_skip
started_counts = refl

-- A second health task is not added.
second_health_task :
    stage_tasks "management"
      (set_health_task 0
        (some counter)
        []
        (set_health_task 0 (some counter) [] before)).manager.tasks
    ≡ stage_tasks "management" (set_health_task 0 (some counter) [] before).manager.tasks
unfolding set_health_task svcinit.Manager.add_init_error svcinit.Manager.add_task new_handlers
second_health_task = refl
