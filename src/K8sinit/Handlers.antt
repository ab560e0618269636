-- ===== src/K8sinit/Handlers.antt =====
-- k8sinit/health.go and k8sinit/telemetry.go: the handlers and tasks of a manager, each of which is set
-- once, and the tasks that call the handlers.
use svcinit.Common.{
  String, Bool, true, false, Option, none, some, List, [], ◌∷◌, returned, if◌then◌else◌, is_some,
}
use svcinit.Errors.{Error, wrapped, sentinel}
use svcinit.Errors.Sentinel
use svcinit.Context.{Ctx}
use svcinit.Step.{setup, stop}
use svcinit.Task.{Task, TaskOption}
use svcinit.Build.{BuildFunc, with_step, with_name, new_task_build}
use svcinit.Build
use svcinit.HealthHandler.{HealthHandler}
use svcinit.Manager.{Manager, add_task, add_init_error}

-- TelemetryHandler, an interface with the one method `FlushTelemetry`.
abbrev pub TelemetryHandler : Type 0 → Type 0
TelemetryHandler W = BuildFunc W

-- The fields of the k8sinit manager that change after `New`: the wrapped manager, the handlers and
-- the tasks.
pub record Handlers (W : Type 0) : Type 0 where
  pub manager : Manager W
  pub health_handler : HealthHandler W
  pub health_handler_set : Bool
  pub health_task : Option (Task W)
  pub telemetry_handler : TelemetryHandler W
  pub telemetry_handler_set : Bool
  pub telemetry_task : Option (Task W)

-- BuildTelemetryHandlerOption, and `BuildTelemetryHandler`: the last option counts.
pub data TelemetryOption (W : Type 0) : Type 0 where
  with_flush_telemetry : Option (BuildFunc W) → TelemetryOption W

abbrev pub nil_handler : String → Error
nil_handler text = wrapped text [] (sentinel Sentinel.initialization)

abbrev pub set_before : String → Error
set_before text = wrapped text [] (sentinel Sentinel.already_initialized)

module _ {W : Type 0} where
  unfoldable pub last_flush : Option (BuildFunc W) → List (TelemetryOption W) → Option (BuildFunc W)
  last_flush f [] = f
  last_flush f (with_flush_telemetry g ∷ os) = last_flush g os

  unfoldable pub flush_telemetry : Option (BuildFunc W) → TelemetryHandler W
  flush_telemetry none ctx w = (returned none, w)
  flush_telemetry (some f) ctx w = f ctx w

  unfoldable pub build_telemetry_handler : List (TelemetryOption W) → TelemetryHandler W
  unfolding last_flush flush_telemetry
  build_telemetry_handler options = flush_telemetry (last_flush none options)

  -- noopHealthHandler and noopTelemetryHandler
  abbrev pub noop_health_handler : HealthHandler W
  noop_health_handler = record { service_started = λ ctx w. w; service_terminating = λ ctx w. w }

  abbrev pub noop_telemetry_handler : TelemetryHandler W
  noop_telemetry_handler ctx w = (returned none, w)

  -- What `New` leaves of these fields, around the manager that it wraps.
  unfoldable pub new_handlers : Manager W → Handlers W
  new_handlers m = record {
    manager = m;
    health_handler = noop_health_handler;
    health_handler_set = false;
    health_task = none;
    telemetry_handler = noop_telemetry_handler;
    telemetry_handler_set = false;
    telemetry_task = none;
  }

  -- A function that signals the handler and succeeds.
  abbrev pub signals : (Ctx → W → W) → BuildFunc W
  signals f ctx w = (returned none, f ctx w)

  -- The tasks that `SetHealthHandler` and `SetTelemetryHandler` add. The first two read the handler
  -- from the manager when they run; it is set once.
  unfoldable pub started_probe : W → HealthHandler W → Task W
  unfolding Build.as_task new_task_build
  started_probe w handler = Build.as_task (
      new_task_build w (
        with_step setup (some (signals handler.service_started))
        ∷ with_name "health: started probe"
        ∷ []))

  unfoldable pub terminating_probe : W → HealthHandler W → Task W
  unfolding Build.as_task new_task_build
  terminating_probe w handler = Build.as_task (
      new_task_build w (
        with_step stop (some (signals handler.service_terminating))
        ∷ with_name "health: terminating probe"
        ∷ []))

  unfoldable pub flush_task : W → TelemetryHandler W → Task W
  unfolding Build.as_task new_task_build
  flush_task w handler =
      Build.as_task
        (new_task_build w (with_step stop (some handler) ∷ with_name "telemetry: flush" ∷ []))

  abbrev pub refuse : Error → Handlers W → Handlers W
  unfolding add_init_error
  refuse e k = record k { manager = add_init_error (some e) k.manager }

  -- `AddTask`
  abbrev pub register : W → String → Option (Task W) → List (TaskOption W) → Handlers W → Handlers W
  unfolding add_task
  register w stage task options k = record k { manager = add_task w stage task options k.manager }

  -- The first handler is kept, and its tasks are added.
  unfoldable pub accept_health_handler :
      W → HealthHandler W → List (TaskOption W) → Handlers W → Handlers W
  unfolding register started_probe terminating_probe
  accept_health_handler w handler options k =
      register w "service" (some (terminating_probe w handler)) options (
        register w "ready" (some (started_probe w handler)) options
          (record k { health_handler = handler; health_handler_set = true }))

  unfoldable pub set_health_handler :
      W → Option (HealthHandler W) → List (TaskOption W) → Handlers W → Handlers W
  unfolding refuse accept_health_handler
  set_health_handler w none options k = refuse (nil_handler "%w: health handler cannot be nil") k
  set_health_handler w (some handler) options k =
      if k.health_handler_set
      then refuse (set_before "%w: health handler was already set") k
      else accept_health_handler w handler options k

  unfoldable pub set_health_task :
      W → Option (Task W) → List (TaskOption W) → Handlers W → Handlers W
  unfolding refuse register
  set_health_task w task options k =
      if is_some k.health_task
      then refuse (set_before "%w: health task was already set") k
      else register w "management" task options (record k { health_task = task })

  unfoldable pub set_telemetry_handler :
      W → Option (TelemetryHandler W) → List (TaskOption W) → Handlers W → Handlers W
  unfolding refuse register flush_task
  set_telemetry_handler w none options k =
      refuse (nil_handler "%w: telemetry handler cannot be nil") k
  set_telemetry_handler w (some handler) options k =
      if k.telemetry_handler_set
      then refuse (set_before "%w: telemetry handler was already set") k
      else register w "service" (some (flush_task w handler)) options
          (record k { telemetry_handler = handler; telemetry_handler_set = true })

  unfoldable pub set_telemetry_task :
      W → Option (Task W) → List (TaskOption W) → Handlers W → Handlers W
  unfolding refuse register
  set_telemetry_task w task options k =
      if is_some k.telemetry_task
      then refuse (set_before "%w: telemetry task was already set") k
      else register w "management" task options (record k { telemetry_task = task })
