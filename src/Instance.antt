-- ===== src/Instance.antt =====
-- instancetask/build.go: tasks whose setup makes some data that the other
-- steps are given. What such a task keeps while it runs is a `Store`, and its steps run over the store
-- and the world `W`.
pub mod Make
pub mod Lookup
pub mod Laws
pub mod Setup
pub mod Data
pub mod Forward
use svcinit.Common.{
  String, Bool, true, false, Option, none, some, List, [], ◌∷◌, ◌++◌, Action, Outcome, returned,
  panicked, if◌then◌else◌, is_some, map,
}
use mathlib.Core.Option
use svcinit.Errors.{Error, plain, wrapped, sentinel}
use svcinit.Errors.Sentinel
use svcinit.Context.{Ctx}
use svcinit.Step.{Step, setup, start, stop, teardown}
use svcinit.Task.{Task, TaskInfo, InstanceOption}
use svcinit.Build.{
  BuildFunc, Skipped, TaskBuild, TaskBuildState, BuildOption, with_step, no_build,
  apply_build_options, init, insert,
}
use svcinit.Build

abbrev pub SetupFunc : Type 0 → Type 0 → Type 0
SetupFunc T W = Ctx → Action W (T × Option Error)

abbrev pub DataFunc : Type 0 → Type 0 → Type 0
DataFunc T W = Ctx → T → Action W (Option Error)

-- `datum` is the pointer `data`, and then come the `parent` and `state` pointers of the inner build.
pub record Store (T W : Type 0) : Type 0 where
  pub datum : Option T
  pub parent : Option (Task W)
  pub state : TaskBuildState

pub not_initialized : Error
not_initialized = wrapped "%w: data not initialized" [] (sentinel Sentinel.not_initialized)

pub no_parent_data : Error
no_parent_data =
    wrapped "%w: data returned from setup doesn't implement Task to be set as parent" []
      (sentinel Sentinel.initialization)

module _ {T W : Type 0} where
  -- Code from outside of the task, which cannot reach its store.
  abbrev pub outside : {A : Type 0} → Action W A → Action (Store T W × W) A
  outside m (st, w) = let (r, w') = m w in (r, (st, w'))

  abbrev pub lift_skipped : Skipped W → Skipped (Store T W × W)
  lift_skipped f ctx cause = outside (f ctx cause)

  abbrev lift_info : TaskInfo W → TaskInfo (Store T W × W)
  lift_info info = record {
    name = info.name;
    steps = info.steps;
    options = info.options;
    init_error = info.init_error;
    skipped = Option.map lift_skipped info.skipped;
  }

  -- A task from outside, as a task over the store and the world.
  unfoldable pub lift_task : Task W → Task (Store T W × W)
  lift_task task = record {
    run = λ ctx s. outside (task.run ctx s);
    task_info = Option.map (λ info (st, w). lift_info (info w)) task.task_info;
    stringer = Option.map (λ string (st, w). string w) task.stringer;
    type_name = task.type_name;
  }

  -- The build that the options of the package svcinit make: its step functions are set afterwards.
  unfoldable pub lift_build : TaskBuild W → TaskBuild (Store T W × W)
  unfolding lift_task
  lift_build t = record {
    step_func = [];
    parent = Option.map lift_task t.parent;
    state = t.state;
    options = t.options;
    skipped = map lift_skipped t.skipped;
    name = t.name;
  }

  unfoldable pub task_data : T → Store T W → T × Option Error
  unfolding not_initialized
  task_data empty st = elim st.datum [ none ↦ (empty, some not_initialized) | some d ↦ (d, none) ]

  -- The function of a step: it is given the data.
  unfoldable pub with_data : T → DataFunc T W → BuildFunc (Store T W × W)
  unfolding task_data
  with_data empty f ctx (st, w) =
      let (d, err) = task_data empty st in
      if is_some err then (returned err, (st, w)) else outside (f ctx d) (st, w)

  -- `t.build.SetParent(tt)`. `shape` has the keys of the build's step functions.
  unfoldable pub set_parent :
      TaskBuild (Store T W × W) → Task W → Action (Store T W × W) (Option Error)
  unfolding lift_task Build.set_parent
  set_parent shape task (st, w) =
      let (t, err) = Build.set_parent (st, w) (some (lift_task task)) shape in
      (returned err, (record st { parent = some task; state = t.state }, w))

  -- The type assertion `any(data).(svcinit.Task)` is `as_task`.
  abbrev pub adopt :
      TaskBuild (Store T W × W) → Bool → Option (Task W) → Action (Store T W × W) (Option Error)
  unfolding no_parent_data set_parent
  adopt shape false task v = (returned none, v)
  adopt shape true none v = (returned (some no_parent_data), v)
  adopt shape true (some task) v = set_parent shape task v

  abbrev pub after_setup :
      TaskBuild (Store T W × W)
      → Bool
      → (T → Option (Task W))
      → Outcome (T × Option Error)
      → Action (Store T W × W) (Option Error)
  unfolding adopt
  after_setup shape pfs as_task panicked v = (panicked, v)
  after_setup shape pfs as_task (returned (d, some err)) v = (returned (some err), v)
  after_setup shape pfs as_task (returned (d, none)) (st, w) =
      adopt shape pfs (as_task d) (record st { datum = some d }, w)

  unfoldable pub run_setup :
      TaskBuild (Store T W × W)
      → Bool
      → (T → Option (Task W))
      → SetupFunc T W
      → BuildFunc (Store T W × W)
  unfolding after_setup
  run_setup shape pfs as_task f ctx (st, w) =
      if is_some st.datum
      then (returned (some (plain Sentinel.already_initialized)), (st, w))
      else let (r, w') = f ctx w in after_setup shape pfs as_task r (st, w')

  -- The inner build as it is now.
  unfoldable pub current : TaskBuild (Store T W × W) → Store T W → TaskBuild (Store T W × W)
  unfolding lift_task
  current t st = record t { parent = Option.map lift_task st.parent; state = st.state }

  -- `Run` and `TaskInfo`, by embedding.
  unfoldable pub run :
      TaskBuild (Store T W × W) → Ctx → Step → Action (Store T W × W) (Option Error)
  unfolding current Build.run
  run t ctx s (st, w) = Build.run (current t st) ctx s (st, w)

  unfoldable pub task_info : TaskBuild (Store T W × W) → Store T W × W → TaskInfo (Store T W × W)
  unfolding current Build.task_info
  task_info t (st, w) = Build.task_info (current t st) (st, w)

  unfoldable pub string : TaskBuild (Store T W × W) → Store T W × W → String
  unfolding current Build.string
  string t (st, w) = Build.string (current t st) (st, w)

  unfoldable pub as_task : TaskBuild (Store T W × W) → Task (Store T W × W)
  unfolding run task_info string
  as_task t = record {
    run = run t;
    task_info = some (task_info t);
    stringer = some (string t);
    type_name = "*instancetask.Task";
  }
