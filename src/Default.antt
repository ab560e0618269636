-- ===== src/Default.antt =====
-- default.go: the signal and timeout tasks. What the operating system's timers and signals do is a
-- parameter: the case that the task's `select` takes.
pub mod Laws
use svcinit.Common.{
  ℕ, ℤ, String, Bool, true, false, Option, none, some, List, [], ◌∷◌, Action, pure, ◌>>=◌, ◌>>◌,
  if◌then◌else◌,
}
use svcinit.Errors.{Error, received_signal, timed_out}
use svcinit.Context.{Ctx}
use svcinit.Step.{Step, setup, start, stop, teardown, other}
use svcinit.Task.{Task, InstanceOption, no_info}

-- The select of SignalTask: a signal, or the cause of a context that is done.
pub data Woken : Type 0 where
  signalled : ℕ → Woken
  context_done : Option Error → Woken

-- The select of TimeoutTask.
pub data Expiry : Type 0 where
  expired context_ended : Expiry

pub record TimeoutTask : Type 0 where
  pub timeout : ℤ
  pub return_nil_error : Bool
  pub timeout_err : Option Error

pub data TimeoutTaskOption : Type 0 where
  with_timeout_task_error : Option Error → TimeoutTaskOption
  without_timeout_task_error : TimeoutTaskOption

unfoldable pub apply_timeout_option : TimeoutTask → TimeoutTaskOption → TimeoutTask
apply_timeout_option t (with_timeout_task_error e) = record t { timeout_err = e }
apply_timeout_option t without_timeout_task_error = record t { return_nil_error = true }

unfoldable pub apply_timeout_options : TimeoutTask → List TimeoutTaskOption → TimeoutTask
unfolding apply_timeout_option
apply_timeout_options t [] = t
apply_timeout_options t (o ∷ os) = apply_timeout_options (apply_timeout_option t o) os

unfoldable pub new_timeout_task : ℤ → List TimeoutTaskOption → TimeoutTask
unfolding apply_timeout_options
new_timeout_task timeout options =
    apply_timeout_options
      (record { timeout = timeout; return_nil_error = false; timeout_err = none }) options

-- The error or the program's own TimeoutError.
abbrev pub or_timed_out : Option Error → ℤ → Error
or_timed_out (some e) timeout = e
or_timed_out none timeout = timed_out timeout

abbrev pub timeout_result : TimeoutTask → Expiry → Option Error
timeout_result t context_ended = none
timeout_result t expired =
    if t.return_nil_error then none else some (or_timed_out t.timeout_err t.timeout)

abbrev pub signal_result : Woken → Option Error
signal_result (signalled s) = some (received_signal s)
signal_result (context_done cause) = cause

module _ {W : Type 0} where
  unfoldable pub signal_run :
      (List ℕ → Ctx → Action W Woken) → List ℕ → Ctx → Step → Action W (Option Error)
  signal_run wait signals ctx start = do woken ← wait signals ctx; pure (signal_result woken)
  signal_run wait signals ctx s = pure none

  unfoldable pub timeout_run :
      (ℤ → Ctx → Action W Expiry) → TimeoutTask → Ctx → Step → Action W (Option Error)
  timeout_run wait t ctx start = do expiry ← wait t.timeout ctx; pure (timeout_result t expiry)
  timeout_run wait t ctx s = pure none

  -- `show` is what `fmt.Sprintf` makes of the signals, or of the timeout.
  unfoldable pub signal_task :
      (List ℕ → Ctx → Action W Woken) → (show : List ℕ → String) → List ℕ → Task W
  unfolding signal_run
  signal_task wait show signals = record {
    run = signal_run wait signals;
    task_info = some (λ _. record no_info {
      name = "signals";
      steps = some (start ∷ []);
      options = InstanceOption.cancel_context true ∷ [];
    });
    stringer = some (λ _. show signals);
    type_name = "*svcinit.TaskSignalTask";
  }

  unfoldable pub timeout_task :
      (ℤ → Ctx → Action W Expiry) → (show : ℤ → String) → TimeoutTask → Task W
  unfolding timeout_run
  timeout_task wait show t = record {
    run = timeout_run wait t;
    task_info = some (λ _. record no_info {
      name = "timeout";
      steps = some (start ∷ []);
      options = InstanceOption.cancel_context true ∷ [];
    });
    stringer = some (λ _. show t.timeout);
    type_name = "*svcinit.TaskTimeoutTask";
  }
