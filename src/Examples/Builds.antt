-- ===== src/Examples/Builds.antt =====
-- Tests: built tasks, services and futures.
use svcinit.Common.{
  ℕ, suc, ◌≡◌, refl, true, false, none, some, List, [], ◌∷◌, ◌++◌, map, if◌then◌else◌, any, is_some,
  returned,
}
use svcinit.Errors.{Error, plain, new_invalid_task_step}
use svcinit.Errors.Sentinel
use svcinit.Context.{Ctx}
use svcinit.Step.{Step, setup, start, stop, teardown, contains}
use svcinit.Task.{task_has_step}
use svcinit.Build.{
  TaskBuild, BuildFunc, BuildOption, with_step, with_parent, with_name, init, run, new_task_build,
  no_build,
}
use svcinit.Build.Dispatch.{Serves, run_unserved, run-Dispatched}
use svcinit.Service.{Service, implements, service_as_task, service_as_task_steps}
use svcinit.Future.{asks, resolves, fails, new_future, perform, perform_all, value_now, value_ready}
use svcinit.Future.{Future, value, is_closed, ctx_err}
use svcinit.Future.Laws.{resolved_once}
use svcinit.Future.Values.{
  Given, gives_ctx, gives_nowait, option_of, is_nowait, last_ctx, resolved_results, value-options,
}
use svcinit.Examples.{ctx, failing, broken}

abbrev start_func : BuildFunc ℕ
start_func _ w = (returned none, suc w)

abbrev options : List (BuildOption ℕ)
options = with_name "api" ∷ with_step stop (some start_func) ∷ with_parent (some failing) ∷ []

-- Its own stop, and its parent's setup and start.
abbrev build : TaskBuild ℕ
build = record no_build { step_func = (stop, some start_func) ∷ []; parent = some failing }

run-Dispatched_example :
    (f : BuildFunc ℕ) × Serves build 5 start f × ((c : Ctx) → run (init 0 build) c start 5 ≡ f c 5)
unfolding init contains svcinit.Errors.build_joined_errors svcinit.Build.has_missing_step
    task_has_step
run-Dispatched_example = run-Dispatched 0 5 build start refl refl

unserved_teardown :
    run (init 0 build) ctx teardown 0 ≡ (returned (some (new_invalid_task_step teardown)), 0)
unfolding init contains
unserved_teardown = run_unserved 0 0 build teardown ctx refl refl

build_steps : (new_task_build 0 options).state.steps ≡ stop ∷ setup ∷ start ∷ []
unfolding new_task_build
build_steps = refl

abbrev service : Service ℕ
service = record {
  start = start_func;
  stop = start_func;
  setup = none;
  teardown = some start_func;
  task_info = none;
  type_name = "*main.service";
}

service_as_task_steps_example :
    (task_has_step (service_as_task service) 0 setup ≡ implements service setup)
    × ((c : Ctx)
        → implements service setup ≡ false
        → (service_as_task service).run c setup 0 ≡ (returned none, 0))
service_as_task_steps_example = service_as_task_steps service 0 setup

abbrev unset : Future ℕ
unset = perform_all {T = ℕ} 0 (asks ∷ asks ∷ []) (new_future 0)

abbrev settled : Future ℕ
settled = perform_all 0 (asks ∷ fails (some broken) ∷ []) (perform 0 (resolves 7) unset).1

resolved_once_example :
    ((value_now 0 unset).0 ≡ (0, some (plain Sentinel.not_resolved)))
    × (value_ready 0 none unset ≡ [])
    × ((perform 0 (resolves 7) unset).0 ≡ false)
    × ((value_now 0 settled).0 ≡ (7, none))
    × (value_ready 0 none settled ≡ (7, none) ∷ [])
    × ((perform 0 (resolves 8) settled).0 ≡ true)
    × ((perform 0 (resolves 8) settled).1 ≡ settled)
resolved_once_example =
    resolved_once 0 (asks ∷ asks ∷ []) (asks ∷ fails (some broken) ∷ []) (resolves 7) (resolves 8)
      refl refl

-- A context that is done, and no wait.
abbrev given : List Given
given = gives_nowait ∷ gives_ctx (some (some broken)) ∷ []

value-options_example : (value 0 (map option_of given) unset).0 ≡ (
    if any is_nowait given
    then (if is_closed unset.latch
        then (unset.v, unset.err)
        else (0, some (plain Sentinel.not_resolved)))
      ∷ []
    else (if is_some (ctx_err (last_ctx none given))
        then (0, ctx_err (last_ctx none given)) ∷ []
        else [])
      ++ resolved_results 0 unset)
value-options_example = value-options 0 given unset
