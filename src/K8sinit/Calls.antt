-- ===== src/K8sinit/Calls.antt =====
-- k8sinit/manager.go: the calls that reach the wrapped manager, and what any sequence of calls on a
-- k8sinit manager leaves of its handlers and tasks.
pub mod Laws
pub mod Life
pub mod Adds
pub mod Runs
use svcinit.Common.{
  ◌≡◌, refl, ap, sym, ◌∙◌, String, Bool, true, false, Option, none, some, List, [], ◌∷◌, map, arith,
  if◌then◌else◌, is_some, Action,
}
use svcinit.Errors.{Error}
use svcinit.Context.{Ctx}
use svcinit.Task.{Task, TaskOption}
use svcinit.Service.{Service}
use svcinit.HealthHandler.{HealthHandler}
use svcinit.Manager.{Manager, add_task, add_init_error}
use svcinit.Manager
use svcinit.Manager.Adds.{
  TaskFunc, func_or_panic, add_task_func, add_service, init_add_task, init_check_add_task,
}
use svcinit.Manager.Running
use svcinit.Manager.Tidy.{Tidy, perform-Tidy}
use svcinit.Run.Begin.{Begun, begin_run}
use svcinit.K8sinit.Handlers.{
  Handlers, TelemetryHandler, register, refuse, set_health_handler, set_health_task,
  set_telemetry_handler, set_telemetry_task, accept_health_handler, started_probe,
  terminating_probe, flush_task,
}

module _ {W : Type 0} where
  unfoldable pub forward_task_func :
      W → String → Option (TaskFunc W) → List (TaskOption W) → Handlers W → Handlers W
  unfolding add_task_func
  forward_task_func w stage f options k = record k {
    manager = add_task_func w stage f options k.manager;
  }

  unfoldable pub forward_service :
      W → String → Option (Service W) → List (TaskOption W) → Handlers W → Handlers W
  unfolding add_service
  forward_service w stage service options k = record k {
    manager = add_service w stage service options k.manager;
  }

  unfoldable pub forward_shutdown : Handlers W → Handlers W
  unfolding Manager.shutdown
  forward_shutdown k = record k { manager = Manager.shutdown k.manager }

  -- Run and RunWithStopErrors, up to the first stage: what follows is the wrapped manager's.
  unfoldable pub forward_begin_run :
      Ctx → List (Running.Call W) → Handlers W → W → Begun × Handlers W × W
  unfolding begin_run
  forward_begin_run ctx during k w =
      let (b, m, w') = begin_run ctx during k.manager w in (b, record k { manager = m }, w')

  -- Code that runs on the wrapped manager.
  abbrev on_manager : {A : Type 0} → Action (Manager W × W) A → Action (Handlers W × W) A
  on_manager act (k, w) =
      let (r, (m, w')) = act (k.manager, w) in (r, (record k { manager = m }, w'))

  module _ {T : Type 0} (as_task : T → Option (Task W)) (stage : String)
      (options : List (TaskOption W)) where
    unfoldable pub forward_init_task : Action W T → Action (Handlers W × W) T
    unfolding init_add_task
    forward_init_task init = on_manager (init_add_task as_task stage options init)

    unfoldable pub forward_init_check_task :
        Action W (T × Option Error) → Action (Handlers W × W) (T × Option Error)
    unfolding init_check_add_task
    forward_init_check_task init = on_manager (init_check_add_task as_task stage options init)

-- A call on a k8sinit manager.
pub data Call (W : Type 0) : Type 0 where
  adds_task : W → String → Option (Task W) → List (TaskOption W) → Call W
  adds_func : W → String → Option (TaskFunc W) → List (TaskOption W) → Call W
  adds_service : W → String → Option (Service W) → List (TaskOption W) → Call W
  sets_health_handler : W → Option (HealthHandler W) → List (TaskOption W) → Call W
  sets_health_task : W → Option (Task W) → List (TaskOption W) → Call W
  sets_telemetry_handler : W → Option (TelemetryHandler W) → List (TaskOption W) → Call W
  sets_telemetry_task : W → Option (Task W) → List (TaskOption W) → Call W
  shuts_down : Call W

module _ {W : Type 0} where
  unfoldable pub perform : Call W → Handlers W → Handlers W
  unfolding add_task forward_task_func forward_service set_health_handler set_health_task
      set_telemetry_handler set_telemetry_task forward_shutdown
  perform (adds_task w stage task options) k = register w stage task options k
  perform (adds_func w stage f options) k = forward_task_func w stage f options k
  perform (adds_service w stage service options) k = forward_service w stage service options k
  perform (sets_health_handler w handler options) k = set_health_handler w handler options k
  perform (sets_health_task w task options) k = set_health_task w task options k
  perform (sets_telemetry_handler w handler options) k = set_telemetry_handler w handler options k
  perform (sets_telemetry_task w task options) k = set_telemetry_task w task options k
  perform shuts_down k = forward_shutdown k

  abbrev pub perform_all : List (Call W) → Handlers W → Handlers W
  perform_all [] k = k
  perform_all (c ∷ cs) k = perform_all cs (perform c k)

  -- The handlers that were set.
  abbrev pub held_health : Handlers W → Option (HealthHandler W)
  held_health k = if k.health_handler_set then some k.health_handler else none

  abbrev pub held_telemetry : Handlers W → Option (TelemetryHandler W)
  held_telemetry k = if k.telemetry_handler_set then some k.telemetry_handler else none

  -- What a call offers.
  abbrev pub health_of : Call W → Option (HealthHandler W)
  health_of (sets_health_handler w handler options) = handler
  health_of c = none

  abbrev pub telemetry_of : Call W → Option (TelemetryHandler W)
  telemetry_of (sets_telemetry_handler w handler options) = handler
  telemetry_of c = none

  abbrev pub health_task_of : Call W → Option (Task W)
  health_task_of (sets_health_task w task options) = task
  health_task_of c = none

  abbrev pub telemetry_task_of : Call W → Option (Task W)
  telemetry_task_of (sets_telemetry_task w task options) = task
  telemetry_task_of c = none

-- The first that is not nil.
abbrev pub or_first {ℓ} : {A : Type ℓ} → Option A → Option A → Option A
or_first none o = o
or_first (some x) o = some x

abbrev pub first_some {ℓ} : {A : Type ℓ} → Option A → List (Option A) → Option A
first_some o [] = o
first_some o (p ∷ ps) = first_some (or_first o p) ps

module _ {W : Type 0} where
  -- Each call keeps what was set, and sets what it offers where nothing was.
  abbrev pub Keeps : Call W → Handlers W → Handlers W → Type 0
  Keeps c k k' =
      (held_health k' ≡ or_first (held_health k) (health_of c))
      × (held_telemetry k' ≡ or_first (held_telemetry k) (telemetry_of c))
      × (k'.health_task ≡ or_first k.health_task (health_task_of c))
      × (k'.telemetry_task ≡ or_first k.telemetry_task (telemetry_task_of c))

  pub perform-Keeps : (c : Call W) (k : Handlers W) → Keeps c k (perform c k)
  unfolding perform accept_health_handler add_init_error
  perform-Keeps (adds_task w stage task options) k = ground arith
  perform-Keeps (adds_func w stage f options) k = ground arith
  perform-Keeps (adds_service w stage service options) k = ground arith
  perform-Keeps (sets_health_handler w none options) k = ground arith
  perform-Keeps (sets_health_handler w (some handler) options) k = ground arith
  perform-Keeps (sets_health_task w task options) k = ground arith
  perform-Keeps (sets_telemetry_handler w none options) k = ground arith
  perform-Keeps (sets_telemetry_handler w (some handler) options) k = ground arith
  perform-Keeps (sets_telemetry_task w task options) k = ground arith
  perform-Keeps shuts_down k = ground arith
