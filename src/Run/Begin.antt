-- ===== src/Run/Begin.antt =====
-- run.go: `runWithStopErrors` up to the start of the first stage, and `notifyTasksSkipped`.
pub mod Laws
use svcinit.Common.{
  String, ℕ, zero, suc, Bool, true, false, not, Option, none, some, List, [], ◌∷◌, ◌==◌,
  if◌then◌else◌, is_nil, Action, Outcome, returned, panicked, pure, ◌>>=◌, ◌>>◌,
}
use svcinit.Errors.{Error, plain, build_multi_errors}
use svcinit.Errors.Sentinel
use svcinit.Context.{Ctx, without_cancel, logger_to_context}
use svcinit.Step.{start}
use svcinit.Task.{get_task_info}
use svcinit.Wrapper.{Wrapper}
use svcinit.Manager.{
  Manager, StageTasks, Startup, live, cancelled, BeforeRun, stage_tasks, step_task_count,
}
use svcinit.Manager.Running.{Call, after_calls}

module _ {W : Type 0} where
  unfoldable pub notify_tasks : Ctx → Option Error → List (Wrapper W) → Action W (Unit {0})
  unfolding get_task_info
  notify_tasks ctx cause [] w = (returned tt, w)
  notify_tasks ctx cause (tw ∷ tws) w = elim (get_task_info tw.task w).skipped [
    | none ↦ notify_tasks ctx cause tws w
    | some skipped ↦ (skipped ctx cause >> notify_tasks ctx cause tws) w
  ]

  unfoldable pub notify_stages :
      Ctx → List String → StageTasks W → Option Error → Action W (Unit {0})
  unfolding notify_tasks stage_tasks
  notify_stages ctx [] tasks cause = pure tt
  notify_stages ctx (stage ∷ stages) tasks cause =
      notify_tasks ctx cause (stage_tasks stage tasks) >> notify_stages ctx stages tasks cause

  unfoldable pub notify_tasks_skipped :
      Ctx → List String → StageTasks W → Option Error → Action W (Unit {0})
  unfolding notify_stages
  notify_tasks_skipped ctx = notify_stages (without_cancel ctx)

  -- What the loop over the `beforeRun` callbacks leaves in `ctx` and `err`; the first error or panic
  -- ends it.
  unfoldable pub run_before : List (BeforeRun W) → Ctx → W → (Ctx × Outcome (Option Error)) × W
  run_before [] ctx w = ((ctx, returned none), w)
  run_before (f ∷ fs) ctx w =
      let (r, w') = f ctx w in
      elim r [
        | panicked ↦ ((ctx, panicked), w')
        | returned x ↦ elim x.1 [
          | some err ↦ ((x.0, returned (some err)), w')
          | none ↦ run_before fs x.0 w'
        ]
      ]

-- `Run` returns at once with an error, or returns it after it has told all tasks that they are
-- skipped, or goes on to the first stage, or panics.
pub data Begun : Type 0 where
  refused : Error → Begun
  aborted : Option Error → Begun
  proceeds : Ctx → Begun
  panics : Begun

-- `startupCancel` is made, and a cancellation that was asked for before is applied.
abbrev pub open_startup : Option Error → Startup
open_startup none = live
open_startup (some cause) = cancelled cause

module _ {W : Type 0} where
  abbrev pub ended : Begun → Manager W → Outcome (Unit {0}) × W → Begun × Manager W × W
  ended b m (returned u, w) = (b, m, w)
  ended b m (panicked, w) = (panics, m, w)

  -- The deferred call of `notifyTasksSkipped`, after `Run` has returned or while it panics.
  abbrev pub then_notify : Begun → Ctx → Option Error → Manager W → W → Begun × Manager W × W
  then_notify b ctx cause m w = ended b m (notify_tasks_skipped ctx m.stages m.tasks cause w)

  abbrev pub abort : Ctx → Option Error → Manager W → W → Begun × Manager W × W
  abort ctx cause = then_notify (aborted cause) ctx cause

  abbrev pub after_before : (Ctx × Outcome (Option Error)) × W → Manager W → Begun × Manager W × W
  after_before ((ctx, panicked), w) m = then_notify panics ctx none m w
  after_before ((ctx, returned (some err)), w) m = abort ctx (some err) m w
  after_before ((ctx, returned none), w) m =
      (proceeds ctx, record m { startup = open_startup m.pending_startup_cancel }, w)

  -- `during` are the calls on the manager that other goroutines, or the `beforeRun` callbacks
  -- themselves, make from the moment when it counts as running until its startup context is there.
  unfoldable pub begin_run : Ctx → List (Call W) → Manager W → W → Begun × Manager W × W
  unfolding notify_tasks_skipped run_before step_task_count build_multi_errors logger_to_context
  begin_run ctx during m w =
      let m' = record m { is_running = true } in
      if m.is_running
      then (refused (plain Sentinel.already_running), m, w)
      else if not (is_nil m.init_errors)
      then abort ctx (build_multi_errors m.init_errors) m' w
      else if step_task_count w start m.tasks == 0
      then abort ctx (some (plain Sentinel.no_start_task)) m' w
      else after_before (run_before m.before_run (logger_to_context ctx m.logger) w)
          (after_calls during m')
