-- ===== src/Run/Program.antt =====
-- run.go: what the thread of Run does, in order, as the loops of `start` and `shutdown` over the
-- stages lay it out.
use svcinit.Common.{ℕ, Bool, false, List, [], ◌∷◌}
use svcinit.Step.{Step, setup, start, stop, teardown}

-- The stages in order, each with the wrappers of its tasks as pointers. A stage is known by its
-- place.
abbrev pub Plan : Type 0
Plan = List (ℕ × List ℕ)

-- `launch` is the loop body of `runStageStep`; `started` its wait for the goroutines to start;
-- `join` the wait of `runStage`, which a timeout may cut short if it is enforced; `verify` the test
-- of the setup errors in `start`; `await` the select in `runWithStopErrors`; `join_running` the wait
-- of `shutdown` for all start steps.
pub data Instr : Type 0 where
  launch : (stage : ℕ) → Step → (tw : ℕ) → Instr
  join : (stage : ℕ) → Step → (enforce : Bool) → Instr
  started : (stage : ℕ) → Instr
  verify : (stage : ℕ) → Instr
  await : Instr
  join_running : (enforce : Bool) → Instr

unfoldable pub launch_all : ℕ → Step → List ℕ → List Instr → List Instr
launch_all k st [] rest = rest
launch_all k st (i ∷ is) rest = launch k st i ∷ launch_all k st is rest

-- `runStage`, followed by `rest`: the start step is given `tasksRunning` and only waits for its
-- goroutines to start, the others wait for their own group.
unfoldable pub run_stage : ℕ → Step → List ℕ → Bool → List Instr → List Instr
unfolding launch_all
run_stage k start is enforce rest = launch_all k start is (started k ∷ rest)
run_stage k st is enforce rest = launch_all k st is (join k st enforce ∷ rest)

-- `start`.
unfoldable pub start_program : Plan → List Instr → List Instr
unfolding run_stage
start_program [] rest = rest
start_program ((k, is) ∷ stages) rest =
    run_stage k setup is false (verify k ∷ run_stage k start is false (start_program stages rest))

-- The loops of `shutdown`, over the stages in reverse order.
unfoldable pub reversed_stages : Step → Bool → Plan → List Instr → List Instr
unfolding run_stage
reversed_stages st enforce [] rest = rest
reversed_stages st enforce ((k, is) ∷ stages) rest =
    reversed_stages st enforce stages (run_stage k st is enforce rest)

unfoldable pub shutdown_program : Plan → Bool → List Instr
unfolding reversed_stages
shutdown_program plan enforce =
    reversed_stages stop enforce plan
      (join_running enforce ∷ reversed_stages teardown false plan [])

unfoldable pub run_program : Plan → Bool → List Instr
unfolding start_program shutdown_program
run_program plan enforce = start_program plan (await ∷ shutdown_program plan enforce)
