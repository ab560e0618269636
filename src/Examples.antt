-- ===== src/Examples.antt =====
-- Test data: a world that counts calls, tasks, a manager and a plan. The tests are in the children.
mod Lifecycles
mod Managers
mod Builds
mod Values
mod Wrapped
mod Services
mod Runs
mod Races
mod Instances
mod Futures
mod Handlers
mod Stages
mod Managed
mod Fixed
use svcinit.Common.{ℕ, suc, String, Option, none, some, List, [], ◌∷◌, returned, ◌++◌, pos, false}
use svcinit.Errors.{Error, plain}
use svcinit.Context.{Ctx, background}
use svcinit.Step.{Step, setup, start, stop}
use svcinit.Task.{Task, no_info}
use svcinit.Wrapper.{Wrapper, new_task_wrapper}
use svcinit.Manager.{Manager, Startup, absent}

abbrev pub no_logger : ℕ
no_logger = 0

abbrev pub ctx : Ctx
ctx = background

-- An error of a task.
abbrev pub broken : Error
broken = plain 100

-- Counts its calls, and succeeds.
abbrev pub counter : Task ℕ
counter = record {
  run = λ _ _ w. (returned none, suc w);
  task_info = none;
  stringer = none;
  type_name = "*main.counter";
}

-- Counts its calls, and fails; it has no stop step.
abbrev pub failing : Task ℕ
failing = record {
  run = λ _ _ w. (returned (some broken), suc w);
  task_info = some (λ _. record no_info { name = "failing"; steps = some (setup ∷ start ∷ []) });
  stringer = none;
  type_name = "*main.failing";
}

abbrev pub fresh_wrapper : Wrapper ℕ
fresh_wrapper = record {
  task = counter;
  add_options = record {
    cancel_context = false;
    start_step_manager = false;
    callbacks = [];
    handler = none;
  };
  execute_steps = [];
  start_cancel = none;
  finish_ctx = none;
}

abbrev pub ready_wrapper : Wrapper ℕ
ready_wrapper = record fresh_wrapper { execute_steps = setup ∷ [] }

abbrev pub idle : Manager ℕ
idle = record {
  stages = "db" ∷ "http" ∷ [];
  tasks = ("db", fresh_wrapper ∷ []) ∷ [];
  shutdown_timeout = pos 10;
  teardown_timeout = pos 0;
  enforce_shutdown_timeout = false;
  before_run = [];
  after_run = [];
  manager_callbacks = [];
  task_callbacks = [];
  task_error_handler = none;
  logger = no_logger;
  is_running = false;
  startup = absent;
  pending_startup_cancel = none;
  init_errors = [];
}
