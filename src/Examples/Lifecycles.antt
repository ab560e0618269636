-- ===== src/Examples/Lifecycles.antt =====
-- Tests: the life of a task, alone and in a run of the manager.
use svcinit.Common.{
  ℕ, suc, returned, panicked, ◌≡◌, refl, true, false, none, some, List, [], ◌∷◌, ◌++◌, arith,
}
use svcinit.Step.{setup, start, stop, before}
use svcinit.Task.{TaskCallback}
use svcinit.Wrapper.{
  Wrapper, new_task_wrapper, check_start_step, internal_can_start_step, internal_prev_step_is_done,
  run, run_callbacks,
}
use svcinit.Wrapper.Phase.{Phase, IsLifecycle, at_ready, permits, ready}
use svcinit.Wrapper.Lifecycle.{CheckSays, check_start_step-permits}
use svcinit.Wrapper.Run.{recorded, attempt, run_records}
use svcinit.Wrapper.History.{Life, created, checked, ran, Life-IsLifecycle}
use svcinit.Manager.{absent}
use svcinit.Run.{
  System, Goroutine, Reach, begin, and_next, initial, launches, signals, begins, reports, ends,
  joins, spawned, reported, signalled, begun, do_launch, on_error, begin_step, end_step,
}
use svcinit.Run.Program.{Plan, Instr, await, shutdown_program, run_program}
use svcinit.Run.Untouched.{is_free}
use svcinit.Run.Skips.{here, skipped_task_never_runs}
use svcinit.Run.Order.{Unique, Reach-IsLifecycle}
use svcinit.Examples.{ctx, broken, counter, failing, fresh_wrapper, ready_wrapper}

check_start_step-permits_example :
    let (answer, tw') = check_start_step 0 start ready_wrapper in
    CheckSays
      (internal_can_start_step ready_wrapper 0 start)
      (permits ready start)
      start
      ready_wrapper
      tw'
      answer
check_start_step-permits_example = check_start_step-permits 0 start ready_wrapper at_ready

-- A callback that counts its calls, and one that panics before a start.
abbrev count_callback : TaskCallback ℕ
count_callback _ _ _ _ _ _ w = (returned tt, suc w)

abbrev crash : TaskCallback ℕ
crash _ _ _ start before _ w = (panicked, w)
crash _ _ _ _ _ _ w = (returned tt, w)

run_records_example :
    let callbacks = count_callback ∷ crash ∷ [] in
    let (called, st) = run_callbacks ctx "db" setup before none callbacks (fresh_wrapper, 0) in
    (run ctx "db" setup callbacks none (fresh_wrapper, 0)).1.0 ≡ record fresh_wrapper {
      execute_steps = [] ++ recorded setup called (attempt ctx "db" callbacks none setup st).0;
    }
run_records_example = run_records ctx "db" (count_callback ∷ crash ∷ []) none setup fresh_wrapper 0

-- The start is not recorded after the panic.
run_crashed :
    (run ctx "db" start (count_callback ∷ crash ∷ []) none (ready_wrapper, 0)).1
    ≡ (ready_wrapper, 1)
unfolding run svcinit.Wrapper.run_callbacks
run_crashed = refl

-- A task that fails its setup is not recorded as set up, and its start is not allowed.
run_failed :
    (run ctx "db" setup [] none (record fresh_wrapper { task = failing }, 0)).1.0.execute_steps ≡ []
unfolding run svcinit.Wrapper.call svcinit.Wrapper.run_callbacks svcinit.Wrapper.handle_error
run_failed = refl

-- A wrapper that is checked for `stop` too early, then set up, then checked for `start`.
abbrev life :
    Life
      (check_start_step 5 start
        (run ctx "db" setup [] none
          ((check_start_step 0 stop (new_task_wrapper counter [])).1, 3)).1.0).1
unfolding check_start_step new_task_wrapper
life = checked (ran (checked (created counter []) 0 stop) 0 setup refl ctx "db" [] none 3) 5 start

Life-IsLifecycle_example :
    (p : Phase) × IsLifecycle
      (check_start_step 5 start
        (run ctx "db" setup [] none
          ((check_start_step 0 stop (new_task_wrapper counter [])).1, 3)).1.0).1.execute_steps
      p
Life-IsLifecycle_example = Life-IsLifecycle life

-- A run with two stages of one task each, up to the end of the setup.
abbrev plan : Plan
plan = (0, 0 ∷ []) ∷ (1, 1 ∷ []) ∷ []

plan-Unique : Unique plan
plan-Unique i = ground arith

abbrev wrappers : ℕ → Wrapper ℕ
wrappers i = fresh_wrapper

abbrev todo : List Instr
todo = run_program plan true

abbrev rest : List Instr → List Instr
rest [] = []
rest (x ∷ xs) = xs

abbrev launched : System ℕ
launched = do_launch 0 0 setup 0 (rest todo) (initial plan true wrappers absent)

abbrev worker : Goroutine
worker = record { stage = 0; step = setup; tw = 0; pc = spawned }

abbrev announced : System ℕ
announced = record launched { go = record worker { pc = signalled } ∷ [] }

abbrev inside : System ℕ
inside = record launched {
  go = record worker { pc = begun } ∷ [];
  wrappers = begin_step setup 0 launched.wrappers;
}

abbrev set_up : System ℕ
set_up = on_error setup none (record launched {
  go = record worker { pc = reported } ∷ [];
  wrappers = end_step setup 0 none inside.wrappers;
})

set_up-Reach : Reach plan true wrappers absent set_up
unfolding run_program do_launch check_start_step svcinit.Wrapper.check_run_step
set_up-Reach =
    and_next
      (and_next
        (and_next (and_next begin (launches {k = 0} {i = 0} {st = setup} refl 0))
          (signals [] worker [] refl refl))
        (begins [] (record worker { pc = signalled }) [] 7 refl refl refl))
      (reports [] (record worker { pc = begun }) [] none refl refl)

Reach-IsLifecycle_example : (p : Phase) × IsLifecycle (set_up.wrappers 0).execute_steps p
unfolding on_error do_launch check_start_step
Reach-IsLifecycle_example =
    Reach-IsLifecycle plan true plan-Unique wrappers absent (λ i. refl) set_up-Reach refl 0

-- The setup is recorded.
set_up_done : (set_up.wrappers 0).execute_steps ≡ setup ∷ []
unfolding do_launch check_start_step run_program end_step begin_step on_error
set_up_done = refl

-- The same, but the setup fails, and the stage is waited for.
abbrev broken_set_up : System ℕ
broken_set_up = on_error setup (some broken) (record launched {
  go = record worker { pc = reported } ∷ [];
  wrappers = end_step setup 0 (some broken) inside.wrappers;
})

abbrev failed : System ℕ
failed = record broken_set_up { go = []; todo = rest (rest todo) }

failed-Reach : Reach plan true wrappers absent failed
unfolding run_program do_launch check_start_step svcinit.Wrapper.check_run_step on_error
    svcinit.Run.quiet
failed-Reach =
    and_next
      (and_next
        (and_next
          (and_next
            (and_next (and_next begin (launches {k = 0} {i = 0} {st = setup} refl 0))
              (signals [] worker [] refl refl))
            (begins [] (record worker { pc = signalled }) [] 7 refl refl refl))
          (reports [] (record worker { pc = begun }) [] (some broken) refl refl))
        (ends [] (record worker { pc = reported }) [] refl refl))
      (joins {k = 0} {st = setup} {b = false} {rest = rest (rest todo)} refl refl)

abbrev stopping : System ℕ
stopping = record failed { todo = await ∷ shutdown_program plan true }

-- The task of the second stage.
skipped_task_never_runs_example :
    ((stopping.wrappers 1).execute_steps ≡ []) × (is_free 1 stopping.go ≡ true)
unfolding run_program do_launch on_error svcinit.Errors.Builder.has_errors
    svcinit.Errors.Builder.add svcinit.Errors.new_initialization_error check_start_step
skipped_task_never_runs_example =
    skipped_task_never_runs plan true wrappers absent 1 (ground arith) refl {k = 0}
      {rest = rest (rest (rest todo))} failed-Reach refl refl (ground arith) here
