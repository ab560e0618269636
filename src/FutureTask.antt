-- ===== src/FutureTask.antt =====
-- futuretask/task.go: a task whose setup resolves a future. It is an instance task over a world that
-- holds the future besides the outside.
pub mod Laws
pub mod Skips
use svcinit.Common.{
  String, Bool, true, false, Option, none, some, List, [], ◌∷◌, ◌++◌, map, Action, Outcome,
  returned, panicked, if◌then◌else◌,
}
use svcinit.Errors.{Error, plain, wrapped, cons, nil}
use svcinit.Errors.Sentinel
use svcinit.Context.{Ctx}
use svcinit.Task.{Task}
use svcinit.Build.{TaskBuild, Skipped}
use svcinit.Future.{
  Future, is_closed, latch_done, new_future, resolve, resolve_error, value_now, value_ready,
}
use svcinit.Instance.{Store, SetupFunc}
use svcinit.Instance.Make.{InstanceBuildOption, with_skipped}
use svcinit.Instance.Make

unfoldable pub skip_error : Option Error → Error
skip_error none = plain Sentinel.task_skipped
skip_error (some cause) = wrapped "%w: %w" [] (cons (plain Sentinel.task_skipped) (cons cause nil))

abbrev and_return : {A : Type 0} → Outcome (Unit {0}) → A → Outcome A
and_return panicked a = panicked
and_return (returned u) a = returned a

module _ {T W : Type 0} where
  -- What the setup does with the result of the function that it was given.
  unfoldable pub settle : T → Outcome (T × Option Error) → Action (Future T × W) (T × Option Error)
  unfolding resolve resolve_error
  settle empty panicked v = (panicked, v)
  settle empty (returned (d, some err)) (fut, w) =
      let (r, fut') = resolve_error (some err) fut in (and_return r (empty, some err), (fut', w))
  settle empty (returned (d, none)) (fut, w) =
      let (r, fut') = resolve d fut in (and_return r (d, none), (fut', w))

  unfoldable pub future_setup : T → SetupFunc T W → SetupFunc T (Future T × W)
  unfolding settle
  future_setup empty f ctx (fut, w) = let (r, w') = f ctx w in settle empty r (fut, w')

  -- A nil function is replaced by one that fails.
  abbrev pub setup_or_nil : T → Option (SetupFunc T W) → SetupFunc T W
  setup_or_nil empty (some f) = f
  setup_or_nil empty none = λ ctx w. (returned (empty, some (plain Sentinel.nil_task)), w)

  -- The callback for a task that is skipped: `future.Done()`, and an error unless it is closed.
  unfoldable pub skip : Skipped (Future T × W)
  unfolding latch_done resolve_error skip_error
  skip ctx cause (fut, w) =
      let asked = record fut { latch = latch_done fut.latch } in
      if is_closed asked.latch
      then (returned tt, (asked, w))
      else let (r, fut') = resolve_error (some (skip_error cause)) asked in (r, (fut', w))

  -- `New`: the instance task, its store and its future.
  unfoldable pub new :
      W
      → T
      → (T → Option (Task (Future T × W)))
      → Option (SetupFunc T W)
      → List (InstanceBuildOption T (Future T × W))
      → (TaskBuild (Store T (Future T × W) × (Future T × W)) × Store T (Future T × W)) × Future T
  unfolding new_future Make.build future_setup skip
  new w empty as_task f options =
      let fut : Future T = new_future empty in
      (
        Make.build (fut, w) empty as_task (some (future_setup empty (setup_or_nil empty f)))
            (options ++ with_skipped (some skip) ∷ []),
        fut,
      )

module _ {T : Type 0} where
  abbrev pub wrap_value : T × Option Error → T × Option Error
  wrap_value (v, none) = (v, none)
  wrap_value (v, some err) = (v, some (wrapped "error resolving task data: %w" [] (cons err nil)))

  -- `Value`: with WithoutFutureWait, and the results that a waiting read may have.
  unfoldable pub task_value_now : T → Future T → (T × Option Error) × Future T
  unfolding value_now
  task_value_now empty fut = let (r, fut') = value_now empty fut in (wrap_value r, fut')

  unfoldable pub task_value_ready : T → Option Error → Future T → List (T × Option Error)
  unfolding value_ready
  task_value_ready empty ctx_err fut = map wrap_value (value_ready empty ctx_err fut)
