-- ===== src/Build.antt =====
-- build.go: tasks built from a function for each step, over a parent to which the other steps go.
-- `map[Step]TaskBuildFunc` is an association list with one entry for each key, in the order in which
-- `maps.Keys` yields the keys; a nil function is `none`.
pub mod Steps
pub mod Init
pub mod Dispatch
use svcinit.Common.{
  String, Bool, true, false, not, ◌&&◌, ◌||◌, Option, none, some, List, [], ◌∷◌, ◌++◌, map, Action,
  pure, panic, if◌then◌else◌, is_some, is_nil, str_eq, for_each,
}
use svcinit.Errors.{Error, plain, wrapped, sentinel, build_joined_errors, new_invalid_task_step}
use svcinit.Errors.Sentinel
use svcinit.Context.{Ctx}
use svcinit.Step.{Step, Arg, step_eq, contains}
use svcinit.Task.{Task, TaskInfo, InstanceOption, no_info, get_task_info, task_steps, task_has_step}

abbrev pub BuildFunc : Type 0 → Type 0
BuildFunc W = Ctx → Action W (Option Error)

abbrev pub Skipped : Type 0 → Type 0
Skipped W = Ctx → Option Error → Action W (Unit {0})

-- taskBuildState
pub record TaskBuildState : Type 0 where
  pub steps : List Step
  pub init_error : Option Error

pub record TaskBuild (W : Type 0) : Type 0 where
  pub step_func : List (Step × Option (BuildFunc W))
  pub parent : Option (Task W)
  pub state : TaskBuildState
  pub options : List InstanceOption
  pub skipped : List (Skipped W)
  pub name : String

-- TaskBuildOption: a function on `*taskBuild`, which only the package can write.
pub data BuildOption (W : Type 0) : Type 0 where
  with_name : String → BuildOption W
  with_step : Step → Option (BuildFunc W) → BuildOption W
  with_parent : Option (Task W) → BuildOption W
  with_task_options : List InstanceOption → BuildOption W
  with_skipped : Option (Skipped W) → BuildOption W

module _ {V : Type 0} where
  -- `m[k]` with its second result, and `m[k] = v`.
  unfoldable pub lookup : Step → List (Step × V) → Option V
  lookup k [] = none
  lookup k ((j, v) ∷ m) = if step_eq j k then some v else lookup k m

  unfoldable pub insert : Step → V → List (Step × V) → List (Step × V)
  insert k v [] = (k, v) ∷ []
  insert k v ((j, u) ∷ m) = if step_eq j k then (k, v) ∷ m else (j, u) ∷ insert k v m

  abbrev pub keys : List (Step × V) → List Step
  keys [] = []
  keys ((k, v) ∷ m) = k ∷ keys m

  unfoldable pub has_nil : List (Step × Option V) → Bool
  has_nil [] = false
  has_nil ((k, v) ∷ m) = not (is_some v) || has_nil m

-- The loop over the parent's steps: the steps, and those that were there already.
unfoldable pub merge_steps : List Step → List Step → List Step → List Step × List Step
unfolding contains
merge_steps [] steps duplicated = (steps, duplicated)
merge_steps (s ∷ ss) steps duplicated =
    merge_steps ss (if not (contains steps s) then steps ++ s ∷ [] else steps)
      (if not (contains steps s) then duplicated else duplicated ++ s ∷ [])

pub duplicate_error : List Step → Error
duplicate_error duplicated =
    wrapped "%w: build task parent already has '%s' step(s)" (Arg.steps duplicated ∷ [])
      (sentinel Sentinel.duplicate_step)

abbrev pub duplicate_errors : List Step → List Error
unfolding duplicate_error
duplicate_errors duplicated = if is_nil duplicated then [] else duplicate_error duplicated ∷ []

pub run_duplicate_error : Step → Error
run_duplicate_error s =
    wrapped "%w: build task parent already has '%s' step" (Arg.step s ∷ [])
      (sentinel Sentinel.duplicate_step)

abbrev pub option_list : {A : Type 0} → Option A → List A
option_list none = []
option_list (some a) = a ∷ []

-- `cmp.Or` on two strings.
abbrev pub or_string : String → String → String
or_string s t = if str_eq s "" then t else s

module _ {W : Type 0} where
  unfoldable pub has_missing_step : TaskBuild W → Bool
  unfolding has_nil
  has_missing_step t = if is_nil t.step_func then not (is_some t.parent) else has_nil t.step_func

  abbrev pub missing_errors : TaskBuild W → List Error
  missing_errors t = if has_missing_step t then plain Sentinel.nil_task ∷ [] else []

  -- The state that `init` stores, for the parent that it loads, in the world `w` in which the
  -- parent's info is read.
  unfoldable pub compute_state : W → TaskBuild W → Option (Task W) → TaskBuildState
  unfolding merge_steps duplicate_error task_steps get_task_info
  compute_state w t none = record {
    steps = keys t.step_func;
    init_error = build_joined_errors (missing_errors t);
  }
  compute_state w t (some parent) =
      let merged = merge_steps (task_steps parent w) (keys t.step_func) [] in
      record {
        steps = merged.0;
        init_error = build_joined_errors (
            missing_errors t
            ++ (duplicate_errors merged.1 ++ option_list (get_task_info parent w).init_error));
      }

  unfoldable pub init : W → TaskBuild W → TaskBuild W
  unfolding compute_state
  init w t = record t { state = compute_state w t t.parent }

  abbrev pub no_build : TaskBuild W
  no_build = record {
    step_func = [];
    parent = none;
    state = record { steps = []; init_error = none };
    options = [];
    skipped = [];
    name = "";
  }

  unfoldable pub apply_build_option : TaskBuild W → BuildOption W → TaskBuild W
  unfolding insert
  apply_build_option t (with_name name) = record t { name = name }
  apply_build_option t (with_step s f) = record t { step_func = insert s f t.step_func }
  apply_build_option t (with_parent parent) = record t { parent = parent }
  apply_build_option t (with_task_options options) = record t { options = t.options ++ options }
  apply_build_option t (with_skipped f) = record t { skipped = t.skipped ++ option_list f }

  unfoldable pub apply_build_options : TaskBuild W → List (BuildOption W) → TaskBuild W
  unfolding apply_build_option
  apply_build_options t [] = t
  apply_build_options t (o ∷ os) = apply_build_options (apply_build_option t o) os

  unfoldable pub new_task_build : W → List (BuildOption W) → TaskBuild W
  unfolding init apply_build_options
  new_task_build w options = init w (apply_build_options no_build options)

  -- The new build and the error that `SetParent` returns.
  unfoldable pub set_parent : W → Option (Task W) → TaskBuild W → TaskBuild W × Option Error
  unfolding init
  set_parent w parent t =
      let t' = init w (record t { parent = parent }) in (t', t'.state.init_error)

  abbrev parent_info : TaskBuild W → W → TaskInfo W
  parent_info t w = elim t.parent [ none ↦ no_info | some p ↦ get_task_info p w ]

  -- All own callbacks in order, then the parent's.
  abbrev pub call_skipped : List (Skipped W) → Option (Skipped W) → Skipped W
  call_skipped fs parent ctx cause = for_each (λ f. f ctx cause) (fs ++ option_list parent)

  unfoldable pub task_info : TaskBuild W → W → TaskInfo W
  unfolding get_task_info
  task_info t w =
      let info = parent_info t w in
      record {
        name = or_string t.name info.name;
        steps = some t.state.steps;
        options = info.options ++ t.options;
        init_error = t.state.init_error;
        skipped =
            if not (is_nil t.skipped) || is_some info.skipped
            then some (call_skipped t.skipped info.skipped)
            else none;
      }

  -- The parent, if it has the step.
  unfoldable pub parent_for : Option (Task W) → W → Step → Option (Task W)
  unfolding task_has_step
  parent_for none w s = none
  parent_for (some p) w s = if task_has_step p w s then some p else none

  -- A nil function is called, which panics.
  abbrev pub call_step : Option (BuildFunc W) → BuildFunc W
  call_step (some f) ctx = f ctx
  call_step none ctx = panic

  abbrev pub dispatch : Option (Option (BuildFunc W)) → Option (Task W) → Step → BuildFunc W
  dispatch (some f) (some parent) s ctx = pure (some (run_duplicate_error s))
  dispatch (some f) none s ctx = call_step f ctx
  dispatch none (some parent) s ctx = parent.run ctx s
  dispatch none none s ctx = pure (some (new_invalid_task_step s))

  unfoldable pub run : TaskBuild W → Ctx → Step → Action W (Option Error)
  unfolding lookup parent_for
  run t ctx s w = dispatch (lookup s t.step_func) (parent_for t.parent w s) s ctx w

  unfoldable pub string : TaskBuild W → W → String
  unfolding task_info
  string t w =
      if not (str_eq (task_info t w).name "") then (task_info t w).name else "*svcinit.taskBuild"

  -- The build as a task, while its parent is not replaced.
  unfoldable pub as_task : TaskBuild W → Task W
  unfolding run task_info string
  as_task t = record {
    run = run t;
    task_info = some (task_info t);
    stringer = some (string t);
    type_name = "*svcinit.taskBuild";
  }
