-- ===== src/Wrapper.antt =====
-- task_wrapper.go: a task with its options and the steps that it has done. The manager's thread
-- asks `check_start_step`, and a goroutine then calls `check_run_step` and `run`.
pub mod Phase
pub mod Lifecycle
pub mod Run
pub mod History
use svcinit.Common.{
  ℕ, String, Bool, true, false, not, ◌&&◌, ◌||◌, Option, none, some, List, [], ◌∷◌, ◌++◌, Action,
  Outcome, returned, panicked, ◌>>=◌, ◌>>◌, pure, modify, if◌then◌else◌, for_each, is_some,
}
use svcinit.Errors.{Error, wrapped, sentinel}
use svcinit.Errors.Sentinel
use svcinit.Context.{Ctx}
use svcinit.Step.{
  Step, setup, start, stop, teardown, other, CallbackStep, before, after, step_eq, contains, step,
  steps,
}
use svcinit.Task.{
  Task, TaskOptions, TaskOption, TaskCallback, TaskErrorHandler, no_options, apply_task_opt,
  apply_task_instance_opt, get_task_info, task_has_step, InstanceOption,
}

-- The contexts of the start step manager are nodes of svcinit.Context.
pub record Wrapper (W : Type 0) : Type 0 where
  pub task : Task W
  pub add_options : TaskOptions W
  pub execute_steps : List Step
  pub start_cancel : Option ℕ
  pub finish_ctx : Option ℕ

module _ {W : Type 0} where
  unfoldable pub apply_all : TaskOptions W → List (TaskOption W) → TaskOptions W
  unfolding apply_task_opt
  apply_all o [] = o
  apply_all o (x ∷ xs) = apply_all (apply_task_opt o x) xs

  unfoldable pub apply_all_instance : TaskOptions W → List InstanceOption → TaskOptions W
  unfolding apply_task_instance_opt
  apply_all_instance o [] = o
  apply_all_instance o (x ∷ xs) = apply_all_instance (apply_task_instance_opt o x) xs

  unfoldable pub new_task_wrapper : Task W → List (TaskOption W) → Wrapper W
  unfolding apply_all
  new_task_wrapper task options = record {
    task = task;
    add_options = apply_all no_options options;
    execute_steps = [];
    start_cancel = none;
    finish_ctx = none;
  }

  unfoldable pub current_options : Wrapper W → W → TaskOptions W
  unfolding apply_all_instance get_task_info
  current_options tw w = apply_all_instance tw.add_options (get_task_info tw.task w).options

  unfoldable pub internal_add_step_done : Step → Wrapper W → Wrapper W
  internal_add_step_done s tw = record tw { execute_steps = tw.execute_steps ++ s ∷ [] }

  unfoldable pub internal_can_start_step : Wrapper W → W → Step → Bool
  unfolding task_has_step current_options
  internal_can_start_step tw w s =
      if task_has_step tw.task w s
      then true
      else if step_eq s stop
      then (current_options tw w).start_step_manager
      else false

unfoldable pub internal_steps_are_done_any : List Step → List Step → Bool
unfolding contains
internal_steps_are_done_any done [] = false
internal_steps_are_done_any done (s ∷ ss) = contains done s || internal_steps_are_done_any done ss

-- A Boolean result and an error, as Go returns them.
abbrev pub Answer : Type 0
Answer = Bool × Option Error

invalid_order : List Step → Step → Error
invalid_order done s =
    wrapped "%w: invalid order for step '%s': already done '%s'" (step s ∷ steps done ∷ [])
      (sentinel Sentinel.invalid_step_order)

not_a_valid_step : Step → Error
not_a_valid_step s =
    wrapped "%w: step '%s' is not a valid step" (step s ∷ []) (sentinel Sentinel.invalid_task_step)

-- `internalPrevStepIsDone`, over the steps that are done: each case ends in the error of the last
-- line unless its test returns first.
unfoldable pub internal_prev_step_is_done : List Step → Step → Answer
unfolding internal_steps_are_done_any invalid_order not_a_valid_step
internal_prev_step_is_done done setup =
    if not (internal_steps_are_done_any done (setup ∷ start ∷ stop ∷ teardown ∷ []))
    then (true, none)
    else (false, some (invalid_order done setup))
internal_prev_step_is_done done start =
    if not (internal_steps_are_done_any done (start ∷ stop ∷ teardown ∷ []))
    then (internal_steps_are_done_any done (setup ∷ []), none)
    else (false, some (invalid_order done start))
internal_prev_step_is_done done stop =
    if not (internal_steps_are_done_any done (stop ∷ teardown ∷ []))
    then (internal_steps_are_done_any done (start ∷ []), none)
    else (false, some (invalid_order done stop))
internal_prev_step_is_done done teardown =
    if not (internal_steps_are_done_any done (teardown ∷ []))
    then (internal_steps_are_done_any done (setup ∷ []), none)
    else (false, some (invalid_order done teardown))
internal_prev_step_is_done done (other n) = (false, some (not_a_valid_step (other n)))

-- The state of a goroutine that runs a task: the wrapper, and everything outside.
abbrev pub State : Type 0 → Type 0
State W = Wrapper W × W

module _ {W : Type 0} where
  -- The mutex is held throughout. `w` is what the task's own methods read.
  unfoldable pub check_start_step : W → Step → Wrapper W → Answer × Wrapper W
  unfolding internal_can_start_step internal_prev_step_is_done internal_add_step_done
  check_start_step w s tw =
      let can = internal_can_start_step tw w s in
      let (prev, err) = internal_prev_step_is_done tw.execute_steps s in
      if is_some err
      then ((false, err), tw)
      else if not can && prev
      then ((can && prev, none), internal_add_step_done s tw)
      else ((can && prev, none), tw)

  unfoldable pub check_run_step : W → Step → Wrapper W → Bool
  unfolding task_has_step
  check_run_step w s tw = task_has_step tw.task w s

  -- Runs code of the task, which cannot reach its wrapper.
  abbrev outside : {A : Type 0} → Action W A → Action (State W) A
  outside m (tw, w) = let (r, w') = m w in (r, (tw, w'))

  unfoldable pub add_step_done : Step → Action (State W) (Unit {0})
  unfolding internal_add_step_done
  add_step_done s = modify (λ (tw, w). (internal_add_step_done s tw, w))

  abbrev notify :
      Ctx
      → Task W
      → String
      → Step
      → CallbackStep
      → Option Error
      → List (TaskCallback W)
      → Action W (Unit {0})
  notify ctx task stage s cs err = for_each (λ callback. callback ctx task stage s cs err)

  -- Both lists of callbacks: the manager's, then the task's.
  unfoldable pub run_callbacks :
      Ctx
      → String
      → Step
      → CallbackStep
      → Option Error
      → List (TaskCallback W)
      → Action (State W) (Unit {0})
  unfolding current_options
  run_callbacks ctx stage s cs err callbacks (tw, w) =
      let own = (current_options tw w).callbacks in
      outside (notify ctx tw.task stage s cs err callbacks >> notify ctx tw.task stage s cs err own)
        (tw, w)

  -- The task's handler, or the task itself.
  unfoldable pub call : Ctx → Step → Action (State W) (Option Error)
  unfolding current_options
  call ctx s (tw, w) = elim (current_options tw w).handler [
    | some handler ↦ outside (handler ctx tw.task s) (tw, w)
    | none ↦ outside (tw.task.run ctx s) (tw, w)
  ]

  unfoldable pub handle_error :
      Ctx → Step → Option (TaskErrorHandler W) → Option Error → Action (State W) (Option Error)
  handle_error ctx s none err (tw, w) = (returned err, (tw, w))
  handle_error ctx s (some handler) err (tw, w) = outside (handler ctx tw.task s err) (tw, w)

  unfoldable pub run :
      Ctx
      → String
      → Step
      → List (TaskCallback W)
      → Option (TaskErrorHandler W)
      → Action (State W) (Option Error)
  run ctx stage s callbacks handler = do
    run_callbacks ctx stage s before none callbacks
    if not (step_eq s setup) then add_step_done s else pure tt
    err ← call ctx s
    err' ← handle_error ctx s handler err
    if step_eq s setup && not (is_some err') then add_step_done s else pure tt
    run_callbacks ctx stage s after err' callbacks
    pure err'
