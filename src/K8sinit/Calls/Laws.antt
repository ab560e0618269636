-- ===== src/K8sinit/Calls/Laws.antt =====
-- k8sinit: what any sequence of calls leaves of the wrapped manager and of the handlers.
use svcinit.Common.{
  ◌≡◌, refl, ap, ◌∙◌, String, Bool, true, false, Option, none, some, List, [], ◌∷◌, map,
  if◌then◌else◌, is_some,
}
use svcinit.Errors.{Error}
use svcinit.Task.{Task, TaskOption, task_func}
use svcinit.Service.{service_as_task}
use svcinit.Manager.{Manager, add_task, add_init_error}
use svcinit.Manager.Adds.{func_or_panic}
use svcinit.Manager.Running.Added.{perform-stages}
use svcinit.Manager.Running
use svcinit.Manager.Tidy.{Tidy, perform-Tidy}
use svcinit.K8sinit.Handlers.{
  Handlers, accept_health_handler, started_probe, terminating_probe, flush_task,
}
use svcinit.K8sinit.Calls.{
  Call, adds_task, adds_func, adds_service, sets_health_handler, sets_health_task,
  sets_telemetry_handler, sets_telemetry_task, shuts_down, perform, perform_all, held_health,
  held_telemetry, health_of, telemetry_of, health_task_of, telemetry_task_of, first_some,
  perform-Keeps,
}

module _ {W : Type 0} where
  -- What calls of the wrapped manager preserve, calls of the k8sinit manager do.
  module _ (P : Manager W → Type 0)
      (kept : (c : Running.Call W) (m : Manager W) → P m → P (Running.perform c m)) where
    added :
        (w : W) (stage : String) (task : Option (Task W)) (options : List (TaskOption W))
        (m : Manager W)
        → P m
        → P (add_task w stage task options m)
    unfolding Running.perform
    added w stage task options m h = kept (Running.adds_task w stage task options) m h

    refused : (e : Error) (m : Manager W) → P m → P (add_init_error (some e) m)
    unfolding Running.perform
    refused e m h = kept (Running.adds_init_error (some e)) m h

    either :
        (b : Bool) (x y : Handlers W) → P x.manager → P y.manager → P (if b then x else y).manager
    either true x y h g = h
    either false x y h g = g

    pub perform-kept : (c : Call W) (k : Handlers W) → P k.manager → P (perform c k).manager
    unfolding perform accept_health_handler add_init_error Running.perform
    perform-kept (adds_task w stage task options) k h = added w stage task options k.manager h
    perform-kept (adds_func w stage f options) k h =
        added w stage (some (task_func (func_or_panic f))) options k.manager h
    perform-kept (adds_service w stage none options) k h = added w stage none options k.manager h
    perform-kept (adds_service w stage (some s) options) k h =
        added w stage (some (service_as_task s)) options k.manager h
    perform-kept (sets_health_handler w none options) k h = refused _ k.manager h
    perform-kept (sets_health_handler w (some handler) options) k h =
        either k.health_handler_set _ _ (refused _ k.manager h) (
          added w "service" (some (terminating_probe w handler)) options _
            (added w "ready" (some (started_probe w handler)) options k.manager h))
    perform-kept (sets_health_task w task options) k h =
        either (is_some k.health_task) _ _ (refused _ k.manager h)
          (added w "management" task options k.manager h)
    perform-kept (sets_telemetry_handler w none options) k h = refused _ k.manager h
    perform-kept (sets_telemetry_handler w (some handler) options) k h =
        either k.telemetry_handler_set _ _ (refused _ k.manager h)
          (added w "service" (some (flush_task w handler)) options k.manager h)
    perform-kept (sets_telemetry_task w task options) k h =
        either (is_some k.telemetry_task) _ _ (refused _ k.manager h)
          (added w "management" task options k.manager h)
    perform-kept shuts_down k h = kept Running.shuts_down k.manager h

  -- The handlers and tasks in use are the first that were offered; the manager stays tidy.
  pub perform_all-first :
      (cs : List (Call W)) (k : Handlers W)
      → Tidy k.manager
      → let k' = perform_all cs k in
        (held_health k' ≡ first_some (held_health k) (map health_of cs))
        × (held_telemetry k' ≡ first_some (held_telemetry k) (map telemetry_of cs))
        × (k'.health_task ≡ first_some k.health_task (map health_task_of cs))
        × (k'.telemetry_task ≡ first_some k.telemetry_task (map telemetry_task_of cs))
        × (k'.manager.stages ≡ k.manager.stages)
        × Tidy k'.manager
  perform_all-first [] k t = (refl, refl, refl, refl, refl, t)
  perform_all-first (c ∷ cs) k t =
      let k' = perform c k in
      let (a, b, d, e) = perform-Keeps c k in
      let tidy = perform-kept Tidy perform-Tidy c k t in
      let stages =
        perform-kept (λ m. m.stages ≡ k.manager.stages) (λ x m h. perform-stages x m ∙ h) c k
          refl in
      let rest = perform_all-first cs k' tidy in
      (
        rest.0 ∙ ap (λ o. first_some o (map health_of cs)) a,
        rest.1 ∙ ap (λ o. first_some o (map telemetry_of cs)) b,
        rest.2 ∙ ap (λ o. first_some o (map health_task_of cs)) d,
        rest.3 ∙ ap (λ o. first_some o (map telemetry_task_of cs)) e,
        rest.4 ∙ stages,
        rest.5,
      )
