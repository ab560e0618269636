-- ===== src/Examples/Services.antt =====
-- Tests: the default tasks and the manager with fixed stages.
use svcinit.Common.{String, Action, ℕ, suc, pos, ◌≡◌, refl, none, some, List, [], ◌∷◌, returned}
use svcinit.Errors.{timed_out}
use svcinit.Step.{start}
use svcinit.Default.{
  Woken, expired, context_done, with_timeout_task_error, new_timeout_task, timeout_run,
  TimeoutTaskOption,
}
use svcinit.Default.Laws.{expected_result, timeout_run_result}
use svcinit.Manager.{Manager, made, with_stages}
use svcinit.K8sinit.{SettingsOption, with_manager_options, with_shutdown_timeout, new}
use svcinit.K8sinit.Fixed.{IsFixed}
use svcinit.Manager.Tidy.{Tidy}
use svcinit.HealthHandler.{HealthHandler}
use svcinit.Context.{Ctx}
use svcinit.K8sinit.Handlers.{new_handlers}
use svcinit.K8sinit.Calls.{
  Call as K8sCall, sets_health_handler, shuts_down, perform_all, held_health, held_telemetry,
}
use svcinit.K8sinit.Calls.Life.{k8sinit_life}
use svcinit.Examples.{ctx, broken}

abbrev timeout_options : List TimeoutTaskOption
timeout_options = with_timeout_task_error (some broken) ∷ with_timeout_task_error none ∷ []

timeout_run_result_example :
    timeout_run
      (λ t c w. (returned expired, suc w))
      (new_timeout_task (pos 5) timeout_options)
      ctx
      start
      0
    ≡ (returned (expected_result (pos 5) timeout_options expired), 1)
timeout_run_result_example =
    timeout_run_result (λ t c w. (returned expired, suc w)) (pos 5) timeout_options ctx 0 expired 1
      refl

-- The last option resets the error, so that it is the default one.
reset_error : expected_result (pos 5) timeout_options expired ≡ some (timed_out (pos 5))
reset_error = refl

-- An attempt to run without stages.
abbrev settings : List (SettingsOption ℕ)
settings = with_manager_options (with_stages [] ∷ []) ∷ with_shutdown_timeout (pos 7) ∷ []

abbrev wait_for : List ℕ → Ctx → Action ℕ Woken
wait_for ss c w = (returned (context_done none), w)

abbrev show_signals : List ℕ → String
show_signals ss = "[]"

abbrev k8s_handler : HealthHandler ℕ
k8s_handler = record { service_started = λ c w. suc w; service_terminating = λ c w. w }

abbrev late_handler : HealthHandler ℕ
late_handler = record { service_started = λ c w. w; service_terminating = λ c w. w }

-- A nil handler and a second one are refused.
abbrev k8s_calls : List (K8sCall ℕ)
k8s_calls =
    sets_health_handler 0 none []
    ∷ sets_health_handler 0 (some k8s_handler) []
    ∷ sets_health_handler 0 (some late_handler) []
    ∷ shuts_down
    ∷ []

k8sinit_life_example :
    let (k, r) = new wait_for show_signals 0 settings in
    (m : Manager ℕ) × (r ≡ made m)
    × let h = perform_all k8s_calls (new_handlers m) in
      IsFixed k h.manager
      × Tidy h.manager
      × (held_health h ≡ some k8s_handler)
      × (held_telemetry h ≡ none)
      × (h.health_task ≡ none)
      × (h.telemetry_task ≡ none)
k8sinit_life_example = k8sinit_life wait_for show_signals 0 settings k8s_calls
