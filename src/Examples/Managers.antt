-- ===== src/Examples/Managers.antt =====
-- Tests: the manager before, during and after a run.
use svcinit.Common.{
  List, ℕ, String, ◌||◌, not, ◌≡◌, refl, true, false, some, [], ◌∷◌, any, is_nil, is_some,
}
use svcinit.Errors.{Error, plain, fatal, is, is_opt, as_fatal_opt}
use svcinit.Errors.Sentinel
use svcinit.Manager.{Manager, init_stages, add_task}
use svcinit.Manager.Register.{Outcome, accepts, wrapper_of, add_task-Outcome}
use svcinit.Manager.Running.{
  Frozen, Call, shuts_down, adds_task, perform, requested, is_noop, perform_running,
}
use svcinit.Manager.Tidy.{Tidy, perform-Tidy}
use svcinit.Manager.Valid.{distinct_strings, init_stages_rejects, is_blank}
use svcinit.Run.Begin.{begin_run, refused, open_startup}
use svcinit.Run.Begin.Laws.{begin_run_once}
use svcinit.Run.Result.{final_cause}
use svcinit.Context.{Ctx, with_value, logger}
use svcinit.Examples.{ctx, counter, failing, idle, broken}

abbrev logged : Ctx
logged = with_value (logger 0) ctx

-- Shutdown is called while the `beforeRun` callbacks run.
abbrev meanwhile : List (Call ℕ)
meanwhile = shuts_down ∷ []

-- The run is asked to stop from its start on.
shut_down_early :
    (begin_run ctx meanwhile idle 0).1.startup ≡ open_startup (some (plain Sentinel.exit))
unfolding begin_run perform svcinit.Manager.request_startup_cancel svcinit.Manager.shutdown
shut_down_early = refl

begin_run_once_example :
    let (b, m', w') = begin_run ctx meanwhile idle 0 in
    (m'.is_running ≡ true)
    × ((ctx' : Ctx) (during' : List (Call ℕ)) (v : ℕ)
        → begin_run ctx' during' m' v ≡ (refused (plain Sentinel.already_running), m', v))
begin_run_once_example = begin_run_once ctx meanwhile idle 0

final_cause_fatal : final_cause (plain Sentinel.exit) (some (fatal broken)) ≡ some broken
unfolding final_cause is svcinit.Errors.as_fatal svcinit.Errors.unwrap_internal_errors
final_cause_fatal = refl

abbrev active : Manager ℕ
active = record idle { is_running = true }

perform_running_example :
    Frozen active (perform (adds_task 0 "db" (some counter) []) active)
    × (is_noop {W = ℕ} (adds_task 0 "db" (some counter) [])
          || is_some (requested (perform (adds_task 0 "db" (some counter) []) active))
        ≡ true)
perform_running_example = perform_running (adds_task 0 "db" (some counter) []) active refl

-- A task is added to a stage that the manager has.
add_task-Outcome_example :
    Outcome
      (accepts 0 "http" (some counter) idle)
      "http"
      (wrapper_of (some counter) [])
      idle
      (add_task 0 "http" (some counter) [] idle)
add_task-Outcome_example = add_task-Outcome 0 "http" (some counter) [] idle refl

accepted : accepts 0 "http" (some counter) idle ≡ true
unfolding svcinit.Task.get_task_info
accepted = refl

refused_task : accepts 0 "cache" (some counter) idle ≡ false
unfolding svcinit.Task.get_task_info
refused_task = refl

perform-Tidy_example : Tidy (perform (adds_task 0 "http" (some failing) []) idle)
perform-Tidy_example = perform-Tidy (adds_task 0 "http" (some failing) []) idle refl

init_stages_rejects_example :
    is_some (init_stages ("db" ∷ "http" ∷ "db" ∷ []))
    ≡ is_nil {A = String} ("db" ∷ "http" ∷ "db" ∷ [])
      || (any is_blank ("db" ∷ "http" ∷ "db" ∷ [])
          || not (distinct_strings ("db" ∷ "http" ∷ "db" ∷ [])))
init_stages_rejects_example = init_stages_rejects ("db" ∷ "http" ∷ "db" ∷ [])
