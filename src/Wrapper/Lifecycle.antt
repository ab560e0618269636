-- ===== src/Wrapper/Lifecycle.antt =====
-- The wrapper's checks against the state machine, and what a task can have done at any time.
use svcinit.Common.{◌≡◌, refl, Bool, true, false, none, arith}
use svcinit.Errors.{is_opt}
use svcinit.Errors.Sentinel
use svcinit.Step.{Step}
use svcinit.Wrapper.{
  Wrapper, Answer, internal_prev_step_is_done, check_start_step, internal_can_start_step,
  internal_add_step_done,
}
use svcinit.Wrapper.Phase.{
  Phase, Verdict, granted, premature, wrong_order, invalid, permits, IsLifecycle, Says, next,
  internal_prev_step_is_done-permits, snoc-IsLifecycle,
}

module _ {W : Type 0} where
  -- What `check_start_step` answers and leaves behind, by whether the task has the step (`can`) and
  -- by the state machine's verdict. A step that the task lacks is passed over as done.
  abbrev pub CheckSays : (can : Bool) → Verdict → Step → (old new : Wrapper W) → Answer → Type 0
  CheckSays true granted s tw tw' (ok, err) = (ok ≡ true) × (err ≡ none) × (tw' ≡ tw)
  CheckSays false granted s tw tw' (ok, err) =
      (ok ≡ false) × (err ≡ none) × (tw' ≡ internal_add_step_done s tw)
  CheckSays can premature s tw tw' (ok, err) = (ok ≡ false) × (err ≡ none) × (tw' ≡ tw)
  CheckSays can wrong_order s tw tw' (ok, err) =
      (ok ≡ false) × (is_opt Sentinel.invalid_step_order err ≡ true) × (tw' ≡ tw)
  CheckSays can invalid s tw tw' (ok, err) =
      (ok ≡ false) × (is_opt Sentinel.invalid_task_step err ≡ true) × (tw' ≡ tw)

  -- The check after its two tests are known.
  check_by :
      (w : W) (s : Step) (tw : Wrapper W) (can : Bool) (v : Verdict)
      → internal_can_start_step tw w s ≡ can
      → (let (ok, err) = internal_prev_step_is_done tw.execute_steps s in Says v ok err)
      → let (answer, tw') = check_start_step w s tw in CheckSays can v s tw tw' answer
  unfolding check_start_step
  check_by w s tw true granted h p = ground arith
  check_by w s tw false granted h p = ground arith
  check_by w s tw can premature h p = ground arith
  check_by w s tw can wrong_order h p = ground arith
  check_by w s tw can invalid h p = ground arith

  -- On a task in a phase of its life, checkStartStep answers for every step as the state machine
  -- says: granted, not yet, or the error for a wrong order or an invalid step; and it records only
  -- a granted step that the task lacks.
  pub check_start_step-permits :
      (w : W) (s : Step) (tw : Wrapper W) {phase : Phase}
      → IsLifecycle tw.execute_steps phase
      → let (answer, tw') = check_start_step w s tw in
        CheckSays (internal_can_start_step tw w s) (permits phase s) s tw tw' answer
  check_start_step-permits w s tw {phase} l =
      check_by w s tw (internal_can_start_step tw w s) (permits phase s) refl
        (internal_prev_step_is_done-permits s l)

  -- After a check the task is still in a phase of its life.
  pub check_start_step-IsLifecycle :
      (w : W) (s : Step) (tw : Wrapper W) {phase : Phase}
      → IsLifecycle tw.execute_steps phase
      → (p : Phase) × IsLifecycle (check_start_step w s tw).1.execute_steps p
  unfolding internal_add_step_done
  check_start_step-IsLifecycle w s tw {phase} l =
      kept (internal_can_start_step tw w s) (permits phase s) refl
        (check_start_step-permits w s tw l)
    where
      kept :
          (can : Bool) (v : Verdict)
          → permits phase s ≡ v
          → (let (answer, tw') = check_start_step w s tw in CheckSays can v s tw tw' answer)
          → (p : Phase) × IsLifecycle (check_start_step w s tw).1.execute_steps p
      kept true granted e h = (phase, rw h.2 l)
      kept false granted e h = (next s, rw (h.2, internal_add_step_done) (snoc-IsLifecycle s l e))
      kept can premature e h = (phase, rw h.2 l)
      kept can wrong_order e h = (phase, rw h.2 l)
      kept can invalid e h = (phase, rw h.2 l)
