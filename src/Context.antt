-- ===== src/Context.antt =====
-- context.go, and what the program uses of the standard package `context`. A context is a chain of
-- values and cancellable nodes; a node is known by its number, and `Nodes` is what was cancelled.
pub mod Laws
use svcinit.Common.{ℕ, Bool, true, false, Option, none, some, ◌==◌, if◌then◌else◌, is_some}
use svcinit.Errors.{Error, plain, is}
use svcinit.Errors.Sentinel

-- startStepManager: `cancel` is the node of the "start" step's context, `finished` that of a
-- context which is cancelled with the step's error. `finished` hangs under `WithoutCancel`, so that
-- no other node can cancel it. The logger is left out.
pub record StartStepManager : Type 0 where
  pub cancel : Option ℕ
  pub finished : Option ℕ

-- The value under each of the package's keys, or under a key of other code.
pub data Value : Type 0 where
  logger : ℕ → Value
  start_step_manager : StartStepManager → Value
  cause : Option Error → Value
  foreign : (key value : ℕ) → Value

pub data Ctx : Type 0 where
  background : Ctx
  with_value : Value → Ctx → Ctx
  with_cancel : (node : ℕ) → Ctx → Ctx
  without_cancel : Ctx → Ctx

-- Of a cancelled node: `Err()` and `Cause()`.
pub record Cancelled : Type 0 where
  pub err : Error
  pub cause : Error

abbrev pub Nodes : Type 0
Nodes = ℕ → Option Cancelled

-- Whether a context is done, and how: by itself, or through its parent.
unfoldable pub done : Nodes → Ctx → Option Cancelled
done nodes background = none
done nodes (with_value v ctx) = done nodes ctx
done nodes (with_cancel n ctx) = elim (nodes n) [ some c ↦ some c | none ↦ done nodes ctx ]
done nodes (without_cancel ctx) = none

abbrev pub or_canceled : Option Error → Error
or_canceled none = plain Sentinel.canceled
or_canceled (some e) = e

-- The `CancelCauseFunc` of the context `with_cancel n parent`: only the first cancellation counts,
-- and a nil cause is `context.Canceled`.
unfoldable pub cancel : ℕ → Ctx → Option Error → Nodes → Nodes
unfolding done
cancel n parent c nodes m =
    if is_some (done nodes (with_cancel n parent))
    then nodes m
    else if m == n
    then some (record { err = plain Sentinel.canceled; cause = or_canceled c })
    else nodes m

unfoldable pub context_with_cause : Ctx → Option Error → Ctx
context_with_cause ctx c = with_value (cause c) ctx

unfoldable pub context_with_start_step_manager : Ctx → StartStepManager → Ctx
context_with_start_step_manager ctx ssm = with_value (start_step_manager ssm) ctx

unfoldable pub logger_to_context : Ctx → ℕ → Ctx
logger_to_context ctx l = with_value (logger l) ctx

-- A nil error under the key reads as no value.
unfoldable pub cause_from_context : Ctx → Option Error
cause_from_context background = none
cause_from_context (with_value (cause c) ctx) = c
cause_from_context (with_value v ctx) = cause_from_context ctx
cause_from_context (with_cancel n ctx) = cause_from_context ctx
cause_from_context (without_cancel ctx) = cause_from_context ctx

-- The noop instance where there is none.
unfoldable pub start_step_manager_from_context : Ctx → StartStepManager
start_step_manager_from_context background = record { cancel = none; finished = none }
start_step_manager_from_context (with_value (start_step_manager ssm) ctx) = ssm
start_step_manager_from_context (with_value v ctx) = start_step_manager_from_context ctx
start_step_manager_from_context (with_cancel n ctx) = start_step_manager_from_context ctx
start_step_manager_from_context (without_cancel ctx) = start_step_manager_from_context ctx

abbrev pub null_logger : ℕ
null_logger = 0

unfoldable pub logger_from_context : Ctx → ℕ
logger_from_context background = null_logger
logger_from_context (with_value (logger l) ctx) = l
logger_from_context (with_value v ctx) = logger_from_context ctx
logger_from_context (with_cancel n ctx) = logger_from_context ctx
logger_from_context (without_cancel ctx) = logger_from_context ctx

unfoldable pub can_context_cancel : StartStepManager → Bool
can_context_cancel ssm = is_some ssm.cancel

unfoldable pub can_finished : StartStepManager → Bool
can_finished ssm = is_some ssm.finished

-- Whether the cancellation was possible, and the nodes after it. `parent` is the context under
-- which the "start" step's node hangs.
unfoldable pub context_cancel : StartStepManager → Ctx → Option Error → Nodes → Bool × Nodes
unfolding cancel
context_cancel ssm parent c nodes = elim ssm.cancel [
  | none ↦ (false, nodes)
  | some n ↦ (true, cancel n parent c nodes)
]

-- Whether the channel of `Finished` is closed.
unfoldable pub finished_closed : StartStepManager → Nodes → Bool
finished_closed ssm nodes = elim ssm.finished [ none ↦ true | some n ↦ is_some (nodes n) ]

unfoldable pub finished_err : StartStepManager → Nodes → Option Error
finished_err ssm nodes = elim ssm.finished [
  | none ↦ none
  | some n ↦ elim (nodes n) [
    | none ↦ none
    | some c ↦ if is Sentinel.ssm_nil c.cause then none else some c.cause
  ]
]
