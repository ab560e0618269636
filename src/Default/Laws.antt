-- ===== src/Default/Laws.antt =====
-- What a timeout task returns, by the options it was made with.
use svcinit.Common.{
  ℤ, ◌≡◌, refl, Bool, true, false, ◌||◌, Option, none, some, List, [], ◌∷◌, arith, any,
  if◌then◌else◌, Action, returned, ap, ◌∙◌,
}
use svcinit.Errors.{Error}
use svcinit.Context.{Ctx}
use svcinit.Step.{start}
use svcinit.Default.{
  TimeoutTask, TimeoutTaskOption, with_timeout_task_error, without_timeout_task_error,
  apply_timeout_options, new_timeout_task, or_timed_out, Expiry, expired, context_ended,
  timeout_run, timeout_result,
}

abbrev pub is_silent : TimeoutTaskOption → Bool
is_silent without_timeout_task_error = true
is_silent o = false

-- The error that the last such option sets, or `e`.
abbrev pub last_error : Option Error → List TimeoutTaskOption → Option Error
last_error e [] = e
last_error e (with_timeout_task_error f ∷ os) = last_error f os
last_error e (o ∷ os) = last_error e os

-- What the options leave of a task.
apply_timeout_options_lem :
    (t : TimeoutTask) (os : List TimeoutTaskOption)
    → ((apply_timeout_options t os).timeout ≡ t.timeout)
      × ((apply_timeout_options t os).return_nil_error ≡ t.return_nil_error || any is_silent os)
      × ((apply_timeout_options t os).timeout_err ≡ last_error t.timeout_err os)
unfolding apply_timeout_options
apply_timeout_options_lem t [] = ground arith
apply_timeout_options_lem t (with_timeout_task_error e ∷ os) =
    apply_timeout_options_lem (record t { timeout_err = e }) os
apply_timeout_options_lem t (without_timeout_task_error ∷ os) =
    ground (arith, apply_timeout_options_lem (record t { return_nil_error = true }) os)

-- What a timeout task returns: nothing if its context ended, or if the options say so; else the
-- error that the last option for it sets, and TimeoutError if that is nil or there is none.
abbrev pub expected_result : ℤ → List TimeoutTaskOption → Expiry → Option Error
expected_result timeout os context_ended = none
expected_result timeout os expired =
    if any is_silent os then none else some (or_timed_out (last_error none os) timeout)

new_timeout_task-result :
    (timeout : ℤ) (os : List TimeoutTaskOption) (x : Expiry)
    → timeout_result (new_timeout_task timeout os) x ≡ expected_result timeout os x
unfolding new_timeout_task
new_timeout_task-result timeout os context_ended = refl
new_timeout_task-result timeout os expired =
    let (t, silent, e) =
      apply_timeout_options_lem
        (record { timeout = timeout; return_nil_error = false; timeout_err = none }) os in
    λ i. if silent i then none else some (or_timed_out (e i) (t i))

new_timeout_task-timeout :
    (timeout : ℤ) (os : List TimeoutTaskOption) → (new_timeout_task timeout os).timeout ≡ timeout
unfolding new_timeout_task
new_timeout_task-timeout timeout os =
    (apply_timeout_options_lem
      (record { timeout = timeout; return_nil_error = false; timeout_err = none }) os).0

module _ {W : Type 0} where
  run_wait :
      (wait : ℤ → Ctx → Action W Expiry) (t : TimeoutTask) (ctx : Ctx) (w : W) (x : Expiry) (w' : W)
      → wait t.timeout ctx w ≡ (returned x, w')
      → timeout_run wait t ctx start w ≡ (returned (timeout_result t x), w')
  unfolding timeout_run
  run_wait wait t ctx w x w' h = rw h refl

  -- If the wait of a timeout task's start returns, then the start returns by what ended the wait:
  -- nothing if it was the context, or if an option asks for no error; else the error that the last
  -- option for it set, and TimeoutError if that is nil or there is no such option.
  pub timeout_run_result :
      (wait : ℤ → Ctx → Action W Expiry) (timeout : ℤ) (os : List TimeoutTaskOption) (ctx : Ctx)
      (w : W) (x : Expiry) (w' : W)
      → wait timeout ctx w ≡ (returned x, w')
      → timeout_run wait (new_timeout_task timeout os) ctx start w
        ≡ (returned (expected_result timeout os x), w')
  timeout_run_result wait timeout os ctx w x w' h =
      run_wait wait (new_timeout_task timeout os) ctx w x w'
        (ap (λ t. wait t ctx w) (new_timeout_task-timeout timeout os) ∙ h)
      ∙ ap (λ e. (returned e, w')) (new_timeout_task-result timeout os x)
