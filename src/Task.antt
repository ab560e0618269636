-- ===== src/Task.antt =====
-- task.go, callback.go and task_helpers.go: tasks, their metadata and options. `W` is the state of
-- everything outside of the manager, which the code of tasks and callbacks reads and changes.
use svcinit.Common.{
  String, Bool, true, false, Option, none, some, List, [], ◌∷◌, ◌++◌, Action, pure, str_eq, not,
  if◌then◌else◌,
}
use svcinit.Errors.{Error, plain}
use svcinit.Errors.Sentinel
use svcinit.Context.{Ctx}
use svcinit.Step.{Step, CallbackStep, all_steps, contains}

-- TaskInstanceOption: the interface is sealed by an unexported method, and these are the values
-- that the package makes.
pub data InstanceOption : Type 0 where
  cancel_context : Bool → InstanceOption
  start_step_manager : InstanceOption

-- `steps` is nil (all steps) or a slice.
pub record TaskInfo (W : Type 0) : Type 0 where
  pub name : String
  pub steps : Option (List Step)
  pub options : List InstanceOption
  pub init_error : Option Error
  pub skipped : Option (Ctx → Option Error → Action W (Unit {0}))

-- `run` is the one method of the interface `Task`; `task_info` and `stringer` are there if the task
-- implements `TaskWithInfo` and `fmt.Stringer`, and `type_name` is its type as "%T" shows it.
pub record Task (W : Type 0) : Type 0 where
  pub run : Ctx → Step → Action W (Option Error)
  pub task_info : Option (W → TaskInfo W)
  pub stringer : Option (W → String)
  pub type_name : String

abbrev pub TaskCallback : Type 0 → Type 0
TaskCallback W = Ctx → Task W → String → Step → CallbackStep → Option Error → Action W (Unit {0})

abbrev pub TaskHandler : Type 0 → Type 0
TaskHandler W = Ctx → Task W → Step → Action W (Option Error)

abbrev pub TaskErrorHandler : Type 0 → Type 0
TaskErrorHandler W = Ctx → Task W → Step → Option Error → Action W (Option Error)

-- taskOptions
pub record TaskOptions (W : Type 0) : Type 0 where
  pub cancel_context : Bool
  pub start_step_manager : Bool
  pub callbacks : List (TaskCallback W)
  pub handler : Option (TaskHandler W)

-- TaskOption: the options above, and those for [Manager.AddTask] alone.
pub data TaskOption (W : Type 0) : Type 0 where
  instance_option : InstanceOption → TaskOption W
  with_handler : Option (TaskHandler W) → TaskOption W
  with_callback : List (TaskCallback W) → TaskOption W

module _ {W : Type 0} where
  abbrev pub no_options : TaskOptions W
  no_options = record {
    cancel_context = false;
    start_step_manager = false;
    callbacks = [];
    handler = none;
  }

  unfoldable pub apply_task_instance_opt : TaskOptions W → InstanceOption → TaskOptions W
  apply_task_instance_opt o (cancel_context b) = record o { cancel_context = b }
  apply_task_instance_opt o start_step_manager = record o { start_step_manager = true }

  unfoldable pub apply_task_opt : TaskOptions W → TaskOption W → TaskOptions W
  unfolding apply_task_instance_opt
  apply_task_opt o (instance_option i) = apply_task_instance_opt o i
  apply_task_opt o (with_handler h) = record o { handler = h }
  apply_task_opt o (with_callback cs) = record o { callbacks = o.callbacks ++ cs }

  abbrev pub no_info : TaskInfo W
  no_info = record { name = ""; steps = none; options = []; init_error = none; skipped = none }

  unfoldable pub get_task_info : Task W → W → TaskInfo W
  get_task_info task w = elim task.task_info [ none ↦ no_info | some info ↦ info w ]

  unfoldable pub get_task_name : Task W → W → String
  unfolding get_task_info
  get_task_name task w = (get_task_info task w).name

  unfoldable pub get_task_description : Task W → W → String
  unfolding get_task_name
  get_task_description task w = elim task.stringer [
    | some string ↦ string w
    | none ↦ if not (str_eq (get_task_name task w) "") then get_task_name task w else task.type_name
  ]

  unfoldable pub task_steps : Task W → W → List Step
  unfolding get_task_info
  task_steps task w = elim (get_task_info task w).steps [ some steps ↦ steps | none ↦ all_steps ]

  unfoldable pub task_has_step : Task W → W → Step → Bool
  unfolding task_steps contains
  task_has_step task w step = contains (task_steps task w) step

  -- TaskFunc: a function as a task.
  unfoldable pub task_func : (Ctx → Step → Action W (Option Error)) → Task W
  task_func f = record {
    run = f;
    task_info = none;
    stringer = some (λ _. "svcinit.TaskFunc");
    type_name = "svcinit.TaskFunc";
  }

  -- errorTask
  unfoldable pub error_task : Error → Task W
  error_task e = record {
    run = λ _ _. pure (some e);
    task_info = none;
    stringer = none;
    type_name = "*svcinit.errorTask";
  }

  unfoldable pub check_nil_task : Option (Task W) → Task W
  unfolding error_task
  check_nil_task none = error_task (plain Sentinel.nil_task)
  check_nil_task (some task) = task

-- taskOrderedSteps: those of `all_steps` that are in the list, in that order.
ordered_from : List Step → List Step → List Step
unfolding contains
ordered_from [] steps = []
ordered_from (s ∷ ss) steps =
    if contains steps s then s ∷ ordered_from ss steps else ordered_from ss steps

unfoldable pub task_ordered_steps : List Step → List Step
unfolding ordered_from
task_ordered_steps [] = []
task_ordered_steps steps = ordered_from all_steps steps
