-- ===== src/Wrapper/History.antt =====
-- Every history of checks and runs of one task, whatever the task and the world do between them.
use svcinit.Common.{
  ◌≡◌, refl, Bool, true, Option, List, ◌++◌, String, Outcome, returned, panicked, some, none,
  append-nil,
}
use svcinit.Errors.{Error}
use svcinit.Context.{Ctx}
use svcinit.Step.{Step, setup, before}
use svcinit.Task.{Task, TaskOption, TaskCallback, TaskErrorHandler}
use svcinit.Wrapper.{
  Wrapper, check_start_step, new_task_wrapper, internal_can_start_step, run, run_callbacks,
}
use svcinit.Wrapper.Phase.{
  Phase, fresh, Verdict, granted, premature, wrong_order, invalid, permits, IsLifecycle, at_fresh,
  next, snoc-IsLifecycle,
}
use svcinit.Wrapper.Lifecycle.{CheckSays, check_start_step-permits, check_start_step-IsLifecycle}
use svcinit.Wrapper.Run.{recorded, attempt, run_records}

recorded-IsLifecycle :
    {done : List Step} {phase : Phase} (s : Step) (b : Outcome (Unit {0}))
    (o : Outcome (Option Error))
    → IsLifecycle done phase
    → permits phase s ≡ granted
    → (p : Phase) × IsLifecycle (done ++ recorded s b o) p
recorded-IsLifecycle {done} {phase} s panicked o l h = (phase, rw append-nil l)
recorded-IsLifecycle {done} {phase} setup (returned u) (returned (some e)) l h =
    (phase, rw append-nil l)
recorded-IsLifecycle {done} {phase} setup (returned u) panicked l h = (phase, rw append-nil l)
recorded-IsLifecycle s (returned u) o l h = (next s, snoc-IsLifecycle s l h)

module _ {W : Type 0} where
  -- A check that says yes.
  abbrev pub Allows : W → Step → Wrapper W → Type 0
  Allows w s tw = (check_start_step w s tw).0.0 ≡ true

  -- A wrapper's life: it is created, it is checked for any step at any time, and a step that a
  -- check allowed is run, in whatever world there is by then.
  pub data Life : Wrapper W → Type 0 where
    created : (task : Task W) (options : List (TaskOption W)) → Life (new_task_wrapper task options)
    checked : {tw : Wrapper W} → Life tw → (w : W) (s : Step) → Life (check_start_step w s tw).1
    ran :
        {tw : Wrapper W}
        → Life tw
        → (w : W) (s : Step) → Allows w s tw
        → (ctx : Ctx) (stage : String) (callbacks : List (TaskCallback W))
          (handler : Option (TaskErrorHandler W)) (w' : W)
        → Life (run ctx stage s callbacks handler (tw, w')).1.0

  allowed_permits :
      (w : W) (s : Step) (tw : Wrapper W) {phase : Phase}
      → IsLifecycle tw.execute_steps phase
      → Allows w s tw
      → permits phase s ≡ granted
  allowed_permits w s tw {phase} l a =
      by_verdict (internal_can_start_step tw w s) (permits phase s)
        (check_start_step-permits w s tw l)
    where
      by_verdict :
          (can : Bool) (v : Verdict)
          → (let (answer, tw') = check_start_step w s tw in CheckSays can v s tw tw' answer)
          → v ≡ granted
      by_verdict can granted h = refl
      by_verdict can premature h = cc
      by_verdict can wrong_order h = cc
      by_verdict can invalid h = cc

  -- In every history of one wrapper (created, checked for any step at any time, and run for a step
  -- right after a check allowed it) the steps done are one of the seven lists of the state machine.
  pub Life-IsLifecycle : {tw : Wrapper W} → Life tw → (p : Phase) × IsLifecycle tw.execute_steps p
  unfolding new_task_wrapper
  Life-IsLifecycle (created task options) = (fresh, at_fresh)
  Life-IsLifecycle (checked {tw = tw} l w s) =
      let (p, k) = Life-IsLifecycle l in check_start_step-IsLifecycle w s tw k
  Life-IsLifecycle (ran {tw = tw} l w s a ctx stage callbacks handler w') =
      let (p, k) = Life-IsLifecycle l in
      let (called, st) = run_callbacks ctx stage s before none callbacks (tw, w') in
      rw (run_records ctx stage callbacks handler s tw w') (
        recorded-IsLifecycle s called (attempt ctx stage callbacks handler s st).0 k
          (allowed_permits w s tw k a))
