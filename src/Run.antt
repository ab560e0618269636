-- ===== src/Run.antt =====
-- run.go: `start`, `shutdown`, `runStage` and `runStageStep` as a transition system. The thread that
-- called Run has a list of things to do; each task step is a goroutine; they interleave in any order.
pub mod Program
pub mod Era
pub mod Once
pub mod Invariant
pub mod Launch
pub mod Goroutines
pub mod Order
pub mod Barrier
pub mod Stages
pub mod Begin
pub mod Managed
pub mod Result
pub mod Reports
pub mod Untouched
pub mod Waits
pub mod Skips
pub mod Down
pub mod Measure
pub mod Ends
pub mod Contexts
pub mod Callbacks
use svcinit.Common.{
  ℕ, String, ◌≡◌, Bool, true, false, not, ◌&&◌, ◌||◌, Option, none, some, List, [], ◌∷◌, ◌++◌, map,
  any, ◌==◌, if◌then◌else◌, is_some,
}
use svcinit.Errors.{Error, plain, fatal, new_initialization_error}
use svcinit.Errors.Sentinel
use svcinit.Errors.Builder
use svcinit.Step.{Step, setup, start, stop, teardown, other, step_eq}
use svcinit.Wrapper.{Wrapper, check_start_step, check_run_step, internal_add_step_done}
use svcinit.Manager.{Startup, absent, live, cancelled, cancel_startup}
use Program.{
  Plan, Instr, launch, join, started, verify, await, join_running, shutdown_program, run_program,
}

-- Where a goroutine of `runStageStep` stands: before `startWg.Done()`, before `tw.run`, inside the
-- task's code with its step recorded (`setup` is recorded later), or after `onError`.
pub data Pc : Type 0 where
  spawned signalled begun reported : Pc

pub record Goroutine : Type 0 where
  pub stage : ℕ
  pub step : Step
  pub tw : ℕ
  pub pc : Pc

-- `wrappers` is the store that the stages' pointers point into; `setup_errs` and `stop_errs` are the
-- builders of `start` and `shutdown`; `expired` says that the shutdown context is done.
pub record System (W : Type 0) : Type 0 where
  pub todo : List Instr
  pub wrappers : ℕ → Wrapper W
  pub go : List Goroutine
  pub startup : Startup
  pub setup_errs : List Error
  pub stop_errs : List Error
  pub expired : Bool

-- `Wait()` of the group of one `runStage` call, and of `tasksRunning`: no goroutine of it is left.
unfoldable pub quiet : ℕ → Step → List Goroutine → Bool
quiet k st go = not (any (λ g. g.stage == k && step_eq g.step st) go)

unfoldable pub none_running : List Goroutine → Bool
none_running go = not (any (λ g. step_eq g.step start) go)

abbrev pub is_spawned : Pc → Bool
is_spawned spawned = true
is_spawned _ = false

-- `startWg.Wait()`.
unfoldable pub all_started : ℕ → List Goroutine → Bool
all_started k go = not (any (λ g. g.stage == k && (step_eq g.step start && is_spawned g.pc)) go)

abbrev pub IsCancelled : Startup → Type 0
IsCancelled s = (e : Error) × (s ≡ cancelled e)

module _ {W : Type 0} where
  abbrev pub update : (ℕ → Wrapper W) → ℕ → Wrapper W → ℕ → Wrapper W
  update f i tw j = if j == i then tw else f j

  -- The `onError` functions that `start` and `shutdown` pass to `runStage`.
  unfoldable pub on_error : Step → Option Error → System W → System W
  on_error setup none s = s
  on_error setup (some e) s =
      let ierr = new_initialization_error e in
      record s {
        startup = cancel_startup ierr s.startup;
        setup_errs = Builder.add (some ierr) s.setup_errs;
      }
  on_error start none s = record s { startup = cancel_startup (plain Sentinel.exit) s.startup }
  on_error start (some e) s = record s { startup = cancel_startup e s.startup }
  on_error stop err s = record s { stop_errs = Builder.add err s.stop_errs }
  on_error teardown err s = record s { stop_errs = Builder.add err s.stop_errs }
  on_error (other n) err s = s

  abbrev after_check : ℕ → Step → ℕ → Bool × Option Error → System W → System W
  after_check k st i (ok, some e) s = on_error st (some (fatal e)) s
  after_check k st i (true, none) s = record s {
    go = record { stage = k; step = st; tw = i; pc = spawned } ∷ s.go;
  }
  after_check k st i (false, none) s = s

  -- The loop body of `runStageStep`: the check, and then the error, the `continue` or the `go`.
  unfoldable pub do_launch : W → ℕ → Step → ℕ → List Instr → System W → System W
  do_launch w k st i rest s =
      let (answer, tw) = check_start_step w st (s.wrappers i) in
      after_check k st i answer (record s { todo = rest; wrappers = update s.wrappers i tw })

  -- In a goroutine: `addStepDone`, at the head of `tw.run` for all steps but `setup`, and after the
  -- call for a `setup` that succeeds.
  abbrev pub record_step : Step → ℕ → (ℕ → Wrapper W) → ℕ → Wrapper W
  record_step st i f = update f i (internal_add_step_done st (f i))

  unfoldable pub begin_step : Step → ℕ → (ℕ → Wrapper W) → ℕ → Wrapper W
  begin_step st i f = if not (step_eq st setup) then record_step st i f else f

  unfoldable pub end_step : Step → ℕ → Option Error → (ℕ → Wrapper W) → ℕ → Wrapper W
  end_step st i err f = if step_eq st setup && not (is_some err) then record_step st i f else f

  module _ (plan : Plan) (enforce : Bool) where
    pub data Next (s : System W) : System W → Type 0 where
      launches :
          {k i : ℕ} {st : Step} {rest : List Instr}
          → s.todo ≡ launch k st i ∷ rest
          → (w : W) → Next s (do_launch w k st i rest s)
      joins :
          {k : ℕ} {st : Step} {b : Bool} {rest : List Instr}
          → s.todo ≡ join k st b ∷ rest
          → quiet k st s.go ≡ true
          → Next s (record s { todo = rest })
      -- `waitGroupWaitWithContext` gives up.
      joins_late :
          {k : ℕ} {st : Step} {rest : List Instr}
          → s.todo ≡ join k st true ∷ rest
          → s.expired ≡ true
          → Next s (record s { todo = rest })
      passes :
          {k : ℕ} {rest : List Instr}
          → s.todo ≡ started k ∷ rest
          → all_started k s.go ≡ true
          → Next s (record s { todo = rest })
      verifies :
          {k : ℕ} {rest : List Instr}
          → s.todo ≡ verify k ∷ rest
          → Builder.has_errors s.setup_errs ≡ false
          → Next s (record s { todo = rest })
      -- `start` returns the setup error: no later stage is started.
      fails :
          {k : ℕ} {rest : List Instr}
          → s.todo ≡ verify k ∷ rest
          → Builder.has_errors s.setup_errs ≡ true
          → Next s (record s { todo = await ∷ shutdown_program plan enforce })
      awaits :
          {rest : List Instr}
          → s.todo ≡ await ∷ rest
          → IsCancelled s.startup
          → Next s (record s { todo = rest })
      joins_running :
          {b : Bool} {rest : List Instr}
          → s.todo ≡ join_running b ∷ rest
          → none_running s.go ≡ true
          → Next s (record s { todo = rest })
      joins_running_late :
          {rest : List Instr}
          → s.todo ≡ join_running true ∷ rest
          → s.expired ≡ true
          → Next s (record s { todo = rest })
      -- Shutdown is called, or the caller's context is done.
      cancels : (e : Error) → Next s (record s { startup = cancel_startup e s.startup })
      -- The shutdown timeout passes, or the shutdown context is cancelled.
      expires : Next s (record s { expired = true })
      signals :
          (pre : List Goroutine) (g : Goroutine) (post : List Goroutine)
          → s.go ≡ pre ++ g ∷ post
          → g.pc ≡ spawned
          → Next s (record s { go = pre ++ record g { pc = signalled } ∷ post })
      begins :
          (pre : List Goroutine) (g : Goroutine) (post : List Goroutine) (w : W)
          → s.go ≡ pre ++ g ∷ post
          → g.pc ≡ signalled
          → check_run_step w g.step (s.wrappers g.tw) ≡ true
          → Next s (record s {
            go = pre ++ record g { pc = begun } ∷ post;
            wrappers = begin_step g.step g.tw s.wrappers;
          })
      -- The stop step that only the start step manager needs is not run.
      skips :
          (pre : List Goroutine) (g : Goroutine) (post : List Goroutine) (w : W)
          → s.go ≡ pre ++ g ∷ post
          → g.pc ≡ signalled
          → check_run_step w g.step (s.wrappers g.tw) ≡ false
          → Next s (record s { go = pre ++ post })
      reports :
          (pre : List Goroutine) (g : Goroutine) (post : List Goroutine) (err : Option Error)
          → s.go ≡ pre ++ g ∷ post
          → g.pc ≡ begun
          → Next s (
              on_error g.step err (record s {
                go = pre ++ record g { pc = reported } ∷ post;
                wrappers = end_step g.step g.tw err s.wrappers;
              }))
      ends :
          (pre : List Goroutine) (g : Goroutine) (post : List Goroutine)
          → s.go ≡ pre ++ g ∷ post
          → g.pc ≡ reported
          → Next s (record s { go = pre ++ post })

    abbrev pub initial : (ℕ → Wrapper W) → Startup → System W
    initial wrappers startup = record {
      todo = run_program plan enforce;
      wrappers = wrappers;
      go = [];
      startup = startup;
      setup_errs = [];
      stop_errs = [];
      expired = false;
    }

    -- The states of a run from fresh wrappers.
    pub data Reach (wrappers : ℕ → Wrapper W) (startup : Startup) : System W → Type 0 where
      begin : Reach wrappers startup (initial wrappers startup)
      and_next : {s t : System W} → Reach wrappers startup s → Next s t → Reach wrappers startup t
