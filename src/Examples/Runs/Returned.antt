-- ===== src/Examples/Runs/Returned.antt =====
-- Tests: what a run returns.
use svcinit.Common.{
  pos, ◌≡◌, refl, false, not, ◌&&◌, ◌||◌, Option, none, some, [], ◌∷◌, any, is_nil, is_some,
  if◌then◌else◌,
}
use svcinit.Errors.{Error, plain, is, is_opt, as_fatal_opt}
use svcinit.Errors.Sentinel
use svcinit.Errors.Builder
use svcinit.Errors.Fatal.{holds_fatal_opt}
use svcinit.Run.Reports.{causes, setup_failures, stop_reports}
use svcinit.Run.Reports.Outcome.{history, stop_cause, by_startup, by_caller, first_of, run_outcome}
use svcinit.Run.Result.{shutdown_error, final_cause}
use svcinit.Run.Result.Returned.{woken_by, cause_matches, heard_in, run_result}
use svcinit.Examples.{broken}
use svcinit.Examples.Runs.{plan, wrappers, finished}

-- The teardown failed, and the run was stopped from outside.
run_outcome_example :
    let failures = setup_failures (history finished.1) in
    let setup_err = Builder.build finished.0.setup_errs in
    (is 100 (stop_cause setup_err (by_startup broken)) ≡ (
      if is_nil failures
      then is_opt 100 (first_of (causes (history finished.1)))
      else any (is 100) failures))
    × (is 100 (stop_cause setup_err (by_caller (plain 7)))
        ≡ (if is_nil failures then is 100 (plain 7) else any (is 100) failures))
    × (is_opt 100 (Builder.build finished.0.stop_errs)
        ≡ any (is_opt 100) (stop_reports (history finished.1)))
unfolding finished
run_outcome_example =
    run_outcome plan false wrappers 100 finished.0 finished.1 broken (plain 7) refl

finished_reports : stop_reports (history finished.1) ≡ some broken ∷ []
unfolding finished svcinit.Wrapper.check_start_step
finished_reports = refl

-- The context of the stop steps is past its deadline.
abbrev late : Option Error
late = some (plain Sentinel.deadline_exceeded)

abbrev stop_error : Option Error
stop_error = shutdown_error (pos 3) [] late (some broken ∷ []) none

run_result_example :
    let rs = history finished.1 in
    let abnormal = not (cause_matches Sentinel.exit none rs) in
    let cause =
      final_cause
        (stop_cause (Builder.build finished.0.setup_errs) (woken_by none broken))
        stop_error in
    (is_some cause ≡ abnormal || heard_in holds_fatal_opt (pos 3) late none rs)
    × (is_opt 100 cause
        ≡ abnormal && cause_matches 100 none rs || is_opt 100 (as_fatal_opt stop_error))
    × (is_opt 100 stop_error ≡ heard_in (is_opt 100) (pos 3) late none rs)
unfolding finished svcinit.Wrapper.check_start_step
run_result_example =
    run_result plan false wrappers 100 finished.0 finished.1 broken none (pos 3) late none []
      (some broken ∷ []) refl refl
