-- ===== src/Run/Callbacks.antt =====
-- run.go: the manager's callbacks around the tasks of a stage. `stage_events` is what `runStage` does in
-- its own thread, by what `checkStartStep` answers for each task; the end of the wait is not shown.
use svcinit.Common.{
  ℕ, suc, String, ◌≡◌, Bool, true, false, none, some, List, [], ◌∷◌, ◌++◌, arith, Action, for_each,
  if◌then◌else◌,
}
use svcinit.Errors.{Error, fatal}
use svcinit.Context.{Ctx, without_cancel}
use svcinit.Step.{Step, CallbackStep, before, after}
use svcinit.Wrapper.{Answer}
use svcinit.Manager.{ManagerCallback}

unfoldable pub run_manager_callbacks :
    {W : Type 0}
    → Ctx
    → String
    → Step
    → CallbackStep
    → List (ManagerCallback W)
    → Action W (Unit {0})
run_manager_callbacks ctx stage step cs callbacks =
    for_each (λ callback. callback (without_cancel ctx) stage step cs) callbacks

-- The callbacks are called, `onError` is called, or a goroutine is started for a task.
pub data Event : Type 0 where
  calls : CallbackStep → Event
  complains : Error → Event
  goes : ℕ → Event

-- `cbStepFn`, which runs once.
abbrev once : Bool → List Event
once called = if called then [] else calls before ∷ []

unfoldable pub stage_events : Bool → List (ℕ × Answer) → List Event
stage_events called [] = if called then calls after ∷ [] else []
stage_events called ((i, (ok, some err)) ∷ rest) = complains (fatal err) ∷ stage_events called rest
stage_events called ((i, (true, none)) ∷ rest) = once called ++ (goes i ∷ stage_events true rest)
stage_events called ((i, (false, none)) ∷ rest) = stage_events called rest

-- Whether a goroutine is started, and how often the callbacks are called.
abbrev pub any_goes : List (ℕ × Answer) → Bool
any_goes [] = false
any_goes ((i, (true, none)) ∷ rest) = true
any_goes ((i, answer) ∷ rest) = any_goes rest

abbrev pub count_calls : CallbackStep → List Event → ℕ
count_calls cs [] = 0
count_calls before (calls before ∷ es) = suc (count_calls before es)
count_calls after (calls after ∷ es) = suc (count_calls after es)
count_calls cs (e ∷ es) = count_calls cs es

called_once :
    (answers : List (ℕ × Answer))
    → (count_calls before (stage_events true answers) ≡ 0)
      × (count_calls after (stage_events true answers) ≡ 1)
unfolding stage_events
called_once [] = ground arith
called_once ((i, (ok, some e)) ∷ rest) = ground (arith, called_once rest)
called_once ((i, (true, none)) ∷ rest) = ground (arith, called_once rest)
called_once ((i, (false, none)) ∷ rest) = ground (arith, called_once rest)

-- The callbacks of a stage are called once before and once after if a goroutine is started for it, and
-- not at all otherwise.
pub stage_events-calls :
    (answers : List (ℕ × Answer))
    → let times : ℕ = if any_goes answers then 1 else 0 in
      (count_calls before (stage_events false answers) ≡ times)
      × (count_calls after (stage_events false answers) ≡ times)
unfolding stage_events
stage_events-calls [] = ground arith
stage_events-calls ((i, (ok, some e)) ∷ rest) = ground (arith, stage_events-calls rest)
stage_events-calls ((i, (true, none)) ∷ rest) = ground (arith, called_once rest)
stage_events-calls ((i, (false, none)) ∷ rest) = ground (arith, stage_events-calls rest)
