-- ===== src/Run/Result.antt =====
-- run.go: the errors that `shutdown` and `runWithStopErrors` return.
pub mod Returned
use svcinit.Common.{
  ℕ, ℤ, is_positive, ◌≡◌, refl, ◌∙◌, not, ◌&&◌, ◌||◌, Option, none, some, List, [], ◌∷◌, arith, any,
  Action, pure, ◌>>=◌, if◌then◌else◌,
}
use svcinit.Errors.{
  Error, plain, joined, nil, cons, is, is_opt, as_fatal, as_fatal_opt, unwrap_internal_errors,
}
use svcinit.Errors.Sentinel
use svcinit.Errors.Builder
use svcinit.Errors.Laws.{
  any-add, any-add_all, is_opt-build_multi_errors, is_opt-unwrap_internal_errors,
}
use svcinit.Context.{Ctx}
use svcinit.Manager.{AfterRun}

-- The cause of a context that is done: the manager's own timeout is reported under its own name.
unfoldable pub context_cause : Option Error → Option Error
unfolding is
context_cause none = none
context_cause (some c) =
    if is Sentinel.deadline_exceeded c then some (plain Sentinel.shutdown_timeout) else some c

-- The error of `shutdown`, from what its stop and teardown tasks reported, in order, and from how
-- its two contexts ended. Without a teardown timeout both are one context, and it is read once.
unfoldable pub shutdown_error :
    (teardown_timeout : ℤ) (stops : List (Option Error)) (stop_context : Option Error)
    (teardowns : List (Option Error)) (teardown_context : Option Error)
    → Option Error
unfolding context_cause
shutdown_error teardown_timeout stops stop_context teardowns teardown_context =
    let eb = Builder.add_all stops [] in
    let eb' =
      if is_positive teardown_timeout then Builder.add (context_cause stop_context) eb else eb in
    Builder.build (Builder.add (context_cause teardown_context) (Builder.add_all teardowns eb'))

abbrev no_exit : Error → Option Error
no_exit cause = if is Sentinel.exit cause then none else some cause

abbrev join_fatal : Option Error → Option Error → Option Error
join_fatal cause none = cause
join_fatal none (some e) = some e
join_fatal (some c) (some e) = some (joined (cons c (cons e nil)))

-- The cause before the `afterRun` callbacks: a normal exit is nil, and a fatal error of the shutdown
-- is joined to it.
unfoldable pub final_cause : Error → Option Error → Option Error
unfolding is as_fatal
final_cause cause stop_err =
    unwrap_internal_errors (join_fatal (no_exit cause) (as_fatal_opt stop_err))

module _ {W : Type 0} where
  unfoldable pub run_after :
      List (AfterRun W) → Ctx → Option Error → Option Error → Action W (Option Error)
  run_after [] ctx cause stop_err = pure cause
  run_after (f ∷ fs) ctx cause stop_err = do
    cause' ← f ctx cause stop_err
    run_after fs ctx cause' stop_err

  -- What `runWithStopErrors` returns as its cause.
  unfoldable pub finish_run :
      List (AfterRun W) → Ctx → Error → Option Error → Action W (Option Error)
  unfolding final_cause run_after
  finish_run fs ctx cause stop_err = run_after fs ctx (final_cause cause stop_err) stop_err

join_fatal_sees :
    (t : ℕ) (c e : Option Error) → is_opt t (join_fatal c e) ≡ is_opt t c || is_opt t e
unfolding is
join_fatal_sees t none none = refl
join_fatal_sees t none (some e) = refl
join_fatal_sees t (some c) none = ground arith
join_fatal_sees t (some c) (some e) = ground arith

-- The cause that Run returns before the afterRun callbacks matches an error exactly when the cause
-- of the stop does, unless that is a normal exit, or when the fatal error of the shutdown does.
pub is_opt-final_cause :
    (t : ℕ) (cause : Error) (stop_err : Option Error)
    → is_opt t (final_cause cause stop_err)
      ≡ not (is Sentinel.exit cause) && is t cause || is_opt t (as_fatal_opt stop_err)
unfolding final_cause
is_opt-final_cause t cause stop_err =
    is_opt-unwrap_internal_errors t (join_fatal (no_exit cause) (as_fatal_opt stop_err))
    ∙ ground (arith, join_fatal_sees t (no_exit cause) (as_fatal_opt stop_err))

-- The error of a shutdown matches a sentinel exactly when a stop task, a teardown task or the end
-- of a context does; the stop context counts only where there is a teardown timeout.
pub is_opt-shutdown_error :
    (t : ℕ) (td : ℤ) (stops : List (Option Error)) (sc : Option Error)
    (teardowns : List (Option Error)) (tc : Option Error)
    → is_opt t (shutdown_error td stops sc teardowns tc)
      ≡ any (is_opt t) stops
        || (is_positive td && is_opt t (context_cause sc)
            || (any (is_opt t) teardowns || is_opt t (context_cause tc)))
unfolding shutdown_error Builder.build
is_opt-shutdown_error t td stops sc teardowns tc =
    let eb = Builder.add_all stops [] in
    let ce = context_cause sc in
    let eb' = if is_positive td then Builder.add ce eb else eb in
    let all = Builder.add_all teardowns eb' in
    is_opt-build_multi_errors t (Builder.add (context_cause tc) all)
    ∙ ground (
      arith,
      any-add t (context_cause tc) all,
      any-add_all t teardowns eb',
      any-add t ce eb,
      any-add_all t stops [],
    )
