-- ===== src/Run/Result/Returned.antt =====
-- run.go: what a run returns, from what was reported in it.
use svcinit.Common.{
  ℕ, ℤ, is_positive, ◌≡◌, refl, ap, ap₂, ◌∙◌, not, ◌&&◌, ◌||◌, Bool, Option, none, some, List, [],
  ◌++◌, arith, any, any-append, is_some, is_nil, if◌then◌else◌,
}
use svcinit.Errors.{Error, is, is_opt, or_else, fatal, as_fatal_opt, unwrap_internal_errors}
use svcinit.Errors.Sentinel
use svcinit.Errors.Builder
use svcinit.Errors.Fatal.{holds_fatal_opt, build-holds_fatal, add-holds_fatal, add_all-holds_fatal}
use svcinit.Wrapper.{Wrapper}
use svcinit.Manager.{live, cancelled}
use svcinit.Run.{System, Reach}
use svcinit.Run.Program.{Plan}
use svcinit.Run.Reports.{Report, causes, setup_failures, stop_reports}
use svcinit.Run.Reports.Outcome.{
  Woken, by_caller, by_startup, stop_cause, first_of, history, run_outcome,
}
use svcinit.Run.Result.{
  context_cause, shutdown_error, final_cause, no_exit, join_fatal, is_opt-final_cause,
  is_opt-shutdown_error,
}

shutdown_error-holds_fatal :
    (td : ℤ) (stops : List (Option Error)) (sc : Option Error) (teardowns : List (Option Error))
    (tc : Option Error)
    → holds_fatal_opt (shutdown_error td stops sc teardowns tc)
      ≡ any holds_fatal_opt stops
        || (is_positive td && holds_fatal_opt (context_cause sc)
            || (any holds_fatal_opt teardowns || holds_fatal_opt (context_cause tc)))
unfolding shutdown_error
shutdown_error-holds_fatal td stops sc teardowns tc =
    let eb = Builder.add_all stops [] in
    let ce = context_cause sc in
    let eb' = if is_positive td then Builder.add ce eb else eb in
    let all = Builder.add_all teardowns eb' in
    build-holds_fatal (Builder.add (context_cause tc) all)
    ∙ ground (
      arith,
      add-holds_fatal (context_cause tc) all,
      add_all-holds_fatal teardowns eb',
      add-holds_fatal ce eb,
      add_all-holds_fatal stops [],
    )

is_some-unwrap_internal_errors : (e : Option Error) → is_some (unwrap_internal_errors e) ≡ is_some e
unfolding unwrap_internal_errors
is_some-unwrap_internal_errors none = refl
is_some-unwrap_internal_errors (some (fatal e)) = refl
is_some-unwrap_internal_errors (some _) = refl

is_some-join_fatal : (c e : Option Error) → is_some (join_fatal c e) ≡ is_some c || is_some e
is_some-join_fatal none none = refl
is_some-join_fatal none (some e) = refl
is_some-join_fatal (some c) none = refl
is_some-join_fatal (some c) (some e) = refl

is_some-final_cause :
    (cause : Error) (stop_err : Option Error)
    → is_some (final_cause cause stop_err)
      ≡ not (is Sentinel.exit cause) || holds_fatal_opt stop_err
unfolding final_cause
is_some-final_cause cause stop_err =
    is_some-unwrap_internal_errors (join_fatal (no_exit cause) (as_fatal_opt stop_err))
    ∙ ground (arith, is_some-join_fatal (no_exit cause) (as_fatal_opt stop_err))

-- What ends the wait: the caller's context with its cause, if that is given, or the startup context.
abbrev pub woken_by : Option Error → Error → Woken
woken_by none c = by_startup c
woken_by (some d) c = by_caller d

-- Whether the cause of the stop matches an error: any of the setup failures, or without one that of
-- the caller's context, or else the first cause that was reported.
abbrev pub cause_matches : ℕ → Option Error → List Report → Bool
cause_matches t d rs =
    if is_nil (setup_failures rs)
    then is_opt t (or_else d (first_of (causes rs)))
    else any (is t) (setup_failures rs)

-- Whether a report of a stop or teardown step, or the end of a context of the shutdown, has a
-- property; the stop context counts only where there is a teardown timeout.
abbrev pub heard_in :
    (Option Error → Bool)
    → (teardown_timeout : ℤ) → (stop_context teardown_context : Option Error) → List Report
    → Bool
heard_in p td sc tc rs =
    any p (stop_reports rs) || (is_positive td && p (context_cause sc) || p (context_cause tc))

split_reports :
    (p : Option Error → Bool) (td : ℤ) (sc tc : Option Error) (rs : List Report)
    (stops teardowns : List (Option Error))
    → stop_reports rs ≡ stops ++ teardowns
    → any p stops
        || (is_positive td && p (context_cause sc) || (any p teardowns || p (context_cause tc)))
      ≡ heard_in p td sc tc rs
split_reports p td sc tc rs stops teardowns q =
    ground (arith, ap (any p) q, any-append p stops teardowns)

module _ {W : Type 0} (plan : Plan) (enforce : Bool) (wrappers : ℕ → Wrapper W) where
  cause-matches :
      (t : ℕ) (s : System W) (r : Reach plan enforce wrappers live s) (c : Error) (d : Option Error)
      → s.startup ≡ cancelled c
      → is t (stop_cause (Builder.build s.setup_errs) (woken_by d c))
        ≡ cause_matches t d (history r)
  cause-matches t s r c none q = (run_outcome plan enforce wrappers t s r c c q).0
  cause-matches t s r c (some d) q = (run_outcome plan enforce wrappers t s r c d q).1

  -- What Run returns before the afterRun callbacks, in every reachable state of a run whose startup
  -- context was open at first and is cancelled, from the reports so far, those of the stop steps
  -- before those of the teardown steps, and from how the contexts of the shutdown ended: the cause
  -- is an error exactly when the cause of the stop is no normal exit or a report or the end of a
  -- context holds a fatal error; it matches an error exactly when the cause of the stop does,
  -- unless that is a normal exit, or when the fatal error of the shutdown does; and the stop error
  -- matches an error exactly when a report or the end of a context does. The cause of the stop is
  -- any of the setup failures, or without one that of the caller's context if it ended the wait, or
  -- else the first that was reported; the stop context counts only where there is a teardown
  -- timeout.
  pub run_result :
      (t : ℕ) (s : System W) (r : Reach plan enforce wrappers live s) (c : Error) (d : Option Error)
      (td : ℤ) (sc tc : Option Error) (stops teardowns : List (Option Error))
      → s.startup ≡ cancelled c
      → stop_reports (history r) ≡ stops ++ teardowns
      → let stop_err = shutdown_error td stops sc teardowns tc in
        let cause = final_cause (stop_cause (Builder.build s.setup_errs) (woken_by d c)) stop_err in
        let abnormal = not (cause_matches Sentinel.exit d (history r)) in
        (is_some cause ≡ abnormal || heard_in holds_fatal_opt td sc tc (history r))
        × (is_opt t cause
            ≡ abnormal && cause_matches t d (history r) || is_opt t (as_fatal_opt stop_err))
        × (is_opt t stop_err ≡ heard_in (is_opt t) td sc tc (history r))
  run_result t s r c d td sc tc stops teardowns q split =
      let stop_err = shutdown_error td stops sc teardowns tc in
      let first = stop_cause (Builder.build s.setup_errs) (woken_by d c) in
      let exits = cause-matches Sentinel.exit s r c d q in
      (
        is_some-final_cause first stop_err
            ∙ ap₂ (λ x y. not x || y) exits
                (shutdown_error-holds_fatal td stops sc teardowns tc
                  ∙ split_reports holds_fatal_opt td sc tc (history r) stops teardowns split),
        is_opt-final_cause t first stop_err
            ∙ ap₂ (λ x y. not x && y || is_opt t (as_fatal_opt stop_err)) exits
                (cause-matches t s r c d q),
        is_opt-shutdown_error t td stops sc teardowns tc
            ∙ split_reports (is_opt t) td sc tc (history r) stops teardowns split,
      )
