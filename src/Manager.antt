-- ===== src/Manager.antt =====
-- manager.go, and the parts of run.go and run_helpers.go that act on the manager under its mutex.
-- Each operation here holds `m.mu` from start to end, or runs before the manager is shared.
pub mod Valid
pub mod Register
pub mod Running
pub mod Tidy
pub mod Adds
use svcinit.Common.{
  Action, ℕ, ℤ, pos, suc, zero, String, Bool, true, false, not, ◌&&◌, ◌||◌, Option, none, some,
  List, [], ◌∷◌, ◌++◌, ◌+◌, if◌then◌else◌, is_some, is_nil, str_eq,
}
use svcinit.Errors.{Error, plain, wrapped, sentinel, new_invalid_stage, nil, cons}
use svcinit.Errors.Sentinel
use svcinit.Context.{Ctx}
use svcinit.Step.{Step, Arg, CallbackStep}
use svcinit.Task.{Task, TaskOption, TaskCallback, TaskErrorHandler, get_task_info, task_has_step}
use svcinit.Wrapper.{Wrapper, new_task_wrapper}

-- `startupCtx` and `startupCancel`: not made yet, made, or cancelled with a cause. The first
-- cancellation is final, as svcinit.Context.Laws shows of contexts.
pub data Startup : Type 0 where
  absent live : Startup
  cancelled : Error → Startup

abbrev pub cancel_startup : Error → Startup → Startup
cancel_startup cause live = cancelled cause
cancel_startup cause s = s

abbrev pub BeforeRun : Type 0 → Type 0
BeforeRun W = Ctx → Action W (Ctx × Option Error)

abbrev pub AfterRun : Type 0 → Type 0
AfterRun W = Ctx → Option Error → Option Error → Action W (Option Error)

abbrev pub ManagerCallback : Type 0 → Type 0
ManagerCallback W = Ctx → String → Step → CallbackStep → Action W (Unit {0})

-- stageTasks: a map from stages to wrappers, with one entry for each key.
abbrev pub StageTasks : Type 0 → Type 0
StageTasks W = List (String × List (Wrapper W))

-- `tasksRunning` and the contexts of a run belong to svcinit.Run.
pub record Manager (W : Type 0) : Type 0 where
  pub stages : List String
  pub tasks : StageTasks W
  pub shutdown_timeout : ℤ
  pub teardown_timeout : ℤ
  pub enforce_shutdown_timeout : Bool
  pub before_run : List (BeforeRun W)
  pub after_run : List (AfterRun W)
  pub manager_callbacks : List (ManagerCallback W)
  pub task_callbacks : List (TaskCallback W)
  pub task_error_handler : Option (TaskErrorHandler W)
  pub logger : ℕ
  pub is_running : Bool
  pub startup : Startup
  pub pending_startup_cancel : Option Error
  pub init_errors : List Error

-- `slices.Contains` on strings, and membership in the map `seen`.
abbrev pub has_string : List String → String → Bool
has_string [] s = false
has_string (x ∷ xs) s = str_eq x s || has_string xs s

pub duplicate_stage : String → Error
duplicate_stage stage =
    wrapped "%w: duplicate stage '%s'" (Arg.text stage ∷ []) (sentinel Sentinel.invalid_stage)

pub blank_stage : Error
blank_stage = wrapped "%w: blank stage not allowed" [] (sentinel Sentinel.invalid_stage)

-- The loop of `init` in run.go, with the stages seen so far.
unfoldable pub check_stages : List String → List String → Option Error
check_stages seen [] = none
check_stages seen (stage ∷ stages) =
    let rest = check_stages (stage ∷ seen) stages in
    if str_eq stage ""
    then some blank_stage
    else if has_string seen stage
    then some (duplicate_stage stage)
    else rest

unfoldable pub init_stages : List String → Option Error
unfolding check_stages
init_stages stages =
    if is_nil stages then some (plain Sentinel.no_stage) else check_stages [] stages

-- Option: a function on `*Manager`, which only the package can write.
pub data ManagerOption (W : Type 0) : Type 0 where
  with_logger : ℕ → ManagerOption W
  with_stages : List String → ManagerOption W
  with_shutdown_timeout with_teardown_timeout : ℤ → ManagerOption W
  with_enforce_shutdown_timeout : Bool → ManagerOption W
  with_before_run : BeforeRun W → ManagerOption W
  with_after_run : AfterRun W → ManagerOption W
  with_manager_callback : List (ManagerCallback W) → ManagerOption W
  with_task_callback : List (TaskCallback W) → ManagerOption W
  with_task_error_handler : Option (TaskErrorHandler W) → ManagerOption W

module _ {W : Type 0} where
  unfoldable pub apply_option : Manager W → ManagerOption W → Manager W
  apply_option m (with_logger l) = record m { logger = l }
  apply_option m (with_stages stages) = record m { stages = stages }
  apply_option m (with_shutdown_timeout t) = record m { shutdown_timeout = t }
  apply_option m (with_teardown_timeout t) = record m { teardown_timeout = t }
  apply_option m (with_enforce_shutdown_timeout b) = record m { enforce_shutdown_timeout = b }
  apply_option m (with_before_run f) = record m { before_run = m.before_run ++ f ∷ [] }
  apply_option m (with_after_run f) = record m { after_run = m.after_run ++ f ∷ [] }
  apply_option m (with_manager_callback cs) = record m {
    manager_callbacks = m.manager_callbacks ++ cs;
  }
  apply_option m (with_task_callback cs) = record m { task_callbacks = m.task_callbacks ++ cs }
  apply_option m (with_task_error_handler h) = record m { task_error_handler = h }

  unfoldable pub apply_options : Manager W → List (ManagerOption W) → Manager W
  unfolding apply_option
  apply_options m [] = m
  apply_options m (o ∷ os) = apply_options (apply_option m o) os

  -- 10 seconds, in nanoseconds.
  unfoldable pub default_manager : Manager W
  default_manager = record {
    stages = "default" ∷ [];
    tasks = [];
    shutdown_timeout = pos 10_000_000_000;
    teardown_timeout = pos 0;
    enforce_shutdown_timeout = true;
    before_run = [];
    after_run = [];
    manager_callbacks = [];
    task_callbacks = [];
    task_error_handler = none;
    logger = 0;
    is_running = false;
    startup = absent;
    pending_startup_cancel = none;
    init_errors = [];
  }

-- `stageTasks.add` and `stageTasks.stageTasks`, over what a stage holds.
module _ {V : Type 0} where
  unfoldable pub add : String → V → List (String × List V) → List (String × List V)
  add stage tw [] = (stage, tw ∷ []) ∷ []
  add stage tw ((k, tws) ∷ m) =
      if str_eq k stage then (k, tws ++ tw ∷ []) ∷ m else (k, tws) ∷ add stage tw m

  unfoldable pub stage_tasks : String → List (String × List V) → List V
  stage_tasks stage [] = []
  stage_tasks stage ((k, tws) ∷ m) = if str_eq k stage then tws else stage_tasks stage m

abbrev pub cannot_add : Error
cannot_add = wrapped "%w: cannot add task" [] (sentinel Sentinel.already_running)

abbrev pub in_run : Error → Error
in_run err =
    wrapped "%w: initialization error: %w" [] (cons (plain Sentinel.already_running) (cons err nil))

-- `(*Manager, error)`.
pub data NewResult (W : Type 0) : Type 0 where
  made : Manager W → NewResult W
  failed : Error → NewResult W

abbrev pub finish_new : {W : Type 0} → Manager W → Option Error → NewResult W
finish_new m none = made m
finish_new m (some e) = failed e

module _ {W : Type 0} where
  unfoldable pub new : List (ManagerOption W) → NewResult W
  unfolding apply_options init_stages default_manager
  new options = let m = apply_options default_manager options in finish_new m (init_stages m.stages)

  unfoldable pub count_step : W → Step → List (Wrapper W) → ℕ
  unfolding task_has_step
  count_step w s [] = 0
  count_step w s (tw ∷ tws) =
      if task_has_step tw.task w s then suc (count_step w s tws) else count_step w s tws

  unfoldable pub step_task_count : W → Step → StageTasks W → ℕ
  unfolding count_step
  step_task_count w s [] = 0
  step_task_count w s ((k, tws) ∷ m) = count_step w s tws + step_task_count w s m

  unfoldable pub request_startup_cancel : Error → Manager W → Manager W
  request_startup_cancel cause m = elim m.startup [
    | absent ↦
        if is_some m.pending_startup_cancel
        then m
        else record m { pending_startup_cancel = some cause }
    | s ↦ record m { startup = cancel_startup cause s }
  ]

  unfoldable pub shutdown : Manager W → Manager W
  unfolding request_startup_cancel
  shutdown m = request_startup_cancel (plain Sentinel.exit) m

  -- `addInitError`, and `AddInitError` around it.
  unfoldable pub add_init_error_locked : Error → Manager W → Manager W
  unfolding request_startup_cancel
  add_init_error_locked err m =
      if m.is_running
      then request_startup_cancel (in_run err) m
      else record m { init_errors = m.init_errors ++ err ∷ [] }

  unfoldable pub add_init_error : Option Error → Manager W → Manager W
  unfolding add_init_error_locked
  add_init_error none m = m
  add_init_error (some err) m = add_init_error_locked err m

  -- `AddTask` once the manager is known not to run, and the task not to be nil.
  abbrev pub register : Option Error → String → Task W → List (TaskOption W) → Manager W → Manager W
  register (some err) stage task options m = add_init_error_locked err m
  register none stage task options m =
      if not (has_string m.stages stage)
      then add_init_error_locked (new_invalid_stage stage) m
      else record m { tasks = add stage (new_task_wrapper task options) m.tasks }

  -- The rest of `AddTask`, on a manager that does not run.
  unfoldable pub add_idle :
      W → String → Option (Task W) → List (TaskOption W) → Manager W → Manager W
  unfolding add_init_error_locked add get_task_info
  add_idle w stage none options m = add_init_error_locked (plain Sentinel.nil_task) m
  add_idle w stage (some t) options m = register (get_task_info t w).init_error stage t options m

  unfoldable pub add_task :
      W → String → Option (Task W) → List (TaskOption W) → Manager W → Manager W
  unfolding request_startup_cancel add_idle
  add_task w stage task options m =
      if m.is_running then request_startup_cancel cannot_add m else add_idle w stage task options m
