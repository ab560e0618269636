-- ===== src/Instance/Make.antt =====
-- instancetask/build.go and instancetask/provider.go: the options, and `Build` and `Provider`, which make
-- a task from them.
use svcinit.Common.{String, Bool, true, false, Option, none, some, List, [], ◌∷◌, ◌++◌, returned}
use svcinit.Step.{Step, setup, start, stop, teardown}
use svcinit.Task.{Task, InstanceOption}
use svcinit.Build.{
  BuildFunc, Skipped, TaskBuild, BuildOption, with_step, no_build, apply_build_options, init,
  insert,
}
use svcinit.Build
use svcinit.Instance.{Store, SetupFunc, DataFunc, lift_build, with_data, run_setup}

-- BuildOption[T]
pub data InstanceBuildOption (T W : Type 0) : Type 0 where
  with_start with_stop with_teardown : Option (DataFunc T W) → InstanceBuildOption T W
  with_parent_from_setup : Bool → InstanceBuildOption T W
  with_name : String → InstanceBuildOption T W
  with_parent : Option (Task W) → InstanceBuildOption T W
  with_task_options : List InstanceOption → InstanceBuildOption T W
  with_skipped : Option (Skipped W) → InstanceBuildOption T W

-- buildOptions[T]
pub record BuildOptions (T W : Type 0) : Type 0 where
  pub step_func : List (Step × Option (DataFunc T W))
  pub parent_from_setup : Bool
  pub tb_options : List (BuildOption W)

module _ {T W : Type 0} where
  abbrev set_step : Step → Option (DataFunc T W) → BuildOptions T W → BuildOptions T W
  set_step s f o = record o { step_func = insert s f o.step_func }

  abbrev with_build_option : BuildOption W → BuildOptions T W → BuildOptions T W
  with_build_option option o = record o { tb_options = o.tb_options ++ option ∷ [] }

  unfoldable pub apply_instance_option :
      BuildOptions T W → InstanceBuildOption T W → BuildOptions T W
  unfolding insert
  apply_instance_option o (with_start f) = set_step start f o
  apply_instance_option o (with_stop f) = set_step stop f o
  apply_instance_option o (with_teardown f) = set_step teardown f o
  apply_instance_option o (with_parent_from_setup b) = record o { parent_from_setup = b }
  apply_instance_option o (with_name name) = with_build_option (Build.with_name name) o
  apply_instance_option o (with_parent parent) = with_build_option (Build.with_parent parent) o
  apply_instance_option o (with_task_options options) =
      with_build_option (Build.with_task_options options) o
  apply_instance_option o (with_skipped f) = with_build_option (Build.with_skipped f) o

  unfoldable pub apply_instance_options :
      BuildOptions T W → List (InstanceBuildOption T W) → BuildOptions T W
  unfolding apply_instance_option
  apply_instance_options o [] = o
  apply_instance_options o (x ∷ xs) = apply_instance_options (apply_instance_option o x) xs

  -- The loop over `optns.stepFunc`, in the order in which it yields the steps.
  unfoldable pub step_options :
      T → List (Step × Option (DataFunc T W)) → List (BuildOption (Store T W × W))
  unfolding with_data
  step_options empty [] = []
  step_options empty ((s, none) ∷ m) = with_step s none ∷ step_options empty m
  step_options empty ((s, some f) ∷ m) =
      with_step s (some (with_data empty f)) ∷ step_options empty m

  abbrev pub no_build_options : BuildOptions T W
  no_build_options = record { step_func = []; parent_from_setup = false; tb_options = [] }

  -- The inner build with a function for `setup`, before its `init`.
  unfoldable pub options_build :
      T → BuildOptions T W → Option (BuildFunc (Store T W × W)) → TaskBuild (Store T W × W)
  unfolding step_options lift_build apply_build_options
  options_build empty o f =
      apply_build_options (lift_build (apply_build_options no_build o.tb_options))
        (with_step setup f ∷ step_options empty o.step_func)

  -- `ret.build` refers to itself through `runSetup`, where only the keys of its functions matter: it
  -- is given the build with another function for `setup`.
  unfoldable pub instance_build :
      T
      → (T → Option (Task W))
      → Option (SetupFunc T W)
      → BuildOptions T W
      → TaskBuild (Store T W × W)
  unfolding options_build run_setup
  instance_build empty as_task none o = options_build empty o none
  instance_build empty as_task (some f) o = options_build empty o (
      some (
        run_setup (options_build empty o (some (λ ctx v. (returned none, v)))) o.parent_from_setup
          as_task f))

  -- The store of a new task, from the inner build's `init` in the world `w`.
  unfoldable pub new_store : W → T → BuildOptions T W → TaskBuild (Store T W × W) → Store T W
  unfolding apply_build_options init
  new_store w empty o t =
      let st : Store T W = record {
        datum = none;
        parent = (apply_build_options no_build o.tb_options).parent;
        state = t.state;
      } in
      record st { state = (init (st, w) t).state }

  -- `Build`: the inner build, which holds all that stays, and the store.
  unfoldable pub build :
      W
      → T
      → (T → Option (Task W))
      → Option (SetupFunc T W)
      → List (InstanceBuildOption T W)
      → TaskBuild (Store T W × W) × Store T W
  unfolding apply_instance_options instance_build new_store
  build w empty as_task f options =
      let o = apply_instance_options no_build_options options in
      let t = instance_build empty as_task f o in (t, new_store w empty o t)

  -- `Provider`, whose data are tasks: `as_task` is the type assertion on them.
  unfoldable pub provider :
      W
      → T
      → (T → Option (Task W))
      → Option (SetupFunc T W)
      → List (InstanceBuildOption T W)
      → TaskBuild (Store T W × W) × Store T W
  unfolding build
  provider w empty as_task f options =
      build w empty as_task f (options ++ with_parent_from_setup true ∷ [])
