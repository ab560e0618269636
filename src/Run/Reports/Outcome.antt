-- ===== src/Run/Reports/Outcome.antt =====
-- run.go: the cause of a run's end and its stop errors, from what was reported in it.
use svcinit.Common.{
  arith, if◌then◌else◌, none, is_nil, any, ℕ, ◌≡◌, refl, ap, sym, ◌∙◌, Bool, Option, none, some,
  List, [], ◌∷◌, ◌++◌, any, is_nil, if◌then◌else◌,
}
use svcinit.Errors.{Error, is, is_opt, build_multi_errors}
use svcinit.Errors.Builder
use svcinit.Errors.Laws.{is_opt-build-add_all, is_opt-build_multi_errors}
use svcinit.Wrapper.{Wrapper}
use svcinit.Manager.{Startup, live, cancelled}
use svcinit.Run.{System, Reach, begin, and_next}
use svcinit.Run.Program.{Plan}
use svcinit.Run.Reports.{
  Report, causes, setup_failures, stop_reports, give, step_told, Next-Hears, causes-append,
  setup_failures-append, stop_reports-append, give-append, give-cancelled, add_all-append,
}

-- What ends the wait of `runWithStopErrors`: the caller's context or the startup context, with its
-- cause.
pub data Woken : Type 0 where
  by_caller by_startup : Error → Woken

-- The cause of the stop: that of the context, unless `start` returned an error.
unfoldable pub stop_cause : Option Error → Woken → Error
stop_cause (some setup_err) woken = setup_err
stop_cause none (by_caller cause) = cause
stop_cause none (by_startup cause) = cause

abbrev pub first_of : List Error → Option Error
first_of [] = none
first_of (e ∷ es) = some e

given_first : (es : List Error) (c : Error) → give es live ≡ cancelled c → some c ≡ first_of es
given_first [] c h = cc h
given_first (e ∷ es) c h = ground (arith, h, give-cancelled es e)

cause_of :
    (t : ℕ) (errs : List Error) (woken : Woken)
    → is t (stop_cause (build_multi_errors errs) woken)
      ≡ (if is_nil errs then is t (stop_cause none woken) else any (is t) errs)
unfolding stop_cause build_multi_errors
cause_of t [] woken = refl
cause_of t (e ∷ []) woken = is_opt-build_multi_errors t (e ∷ [])
cause_of t (e ∷ f ∷ errs) woken = is_opt-build_multi_errors t (e ∷ f ∷ errs)

module _ {W : Type 0} {plan : Plan} {enforce : Bool} {wrappers : ℕ → Wrapper W}
    {startup : Startup} where
  -- All that was reported up to a state, in order.
  abbrev pub history : {s : System W} → Reach plan enforce wrappers startup s → List Report
  history begin = []
  history (and_next {s = s} r n) = history r ++ step_told s n

  heard :
      {s : System W} (r : Reach plan enforce wrappers startup s)
      → (s.startup ≡ give (causes (history r)) startup)
        × (s.setup_errs ≡ setup_failures (history r))
        × (s.stop_errs ≡ Builder.add_all (stop_reports (history r)) [])
  unfolding Builder.add_all
  heard begin = (refl, refl, refl)
  heard (and_next {s = s} r n) =
      let (a, b, c) = heard r in
      let (x, y, z) = Next-Hears s n in
      let rs = step_told s n in
      (
        x
            ∙ (ap (give (causes rs)) a
                ∙ (sym (give-append (causes (history r)) (causes rs) startup)
                    ∙ ap (λ es. give es startup) (sym (causes-append (history r) rs)))),
        y ∙ (ap (λ es. es ++ setup_failures rs) b ∙ sym (setup_failures-append (history r) rs)),
        z
            ∙ (ap (Builder.add_all (stop_reports rs)) c
                ∙ (sym (add_all-append (stop_reports (history r)) (stop_reports rs) [])
                    ∙ ap (λ es. Builder.add_all es []) (sym (stop_reports-append (history r) rs)))),
      )

module _ {W : Type 0} (plan : Plan) (enforce : Bool) (wrappers : ℕ → Wrapper W) where
  -- In every reachable state of a run whose startup context was open at first and is cancelled: the
  -- cause of the stop matches an error, where no setup has failed, exactly when the first cause
  -- that was reported in the run does, or the cause of the caller's context if the select takes
  -- that one, and where a setup has failed, exactly when one of the setup failures does; and the
  -- errors gathered in the shutdown match an error exactly when one that a stop or teardown step,
  -- or the check before it, has reported does: none is lost.
  pub run_outcome :
      (t : ℕ) (s : System W) (r : Reach plan enforce wrappers live s) (c d : Error)
      → s.startup ≡ cancelled c
      → let failures = setup_failures (history r) in
        let setup_err = Builder.build s.setup_errs in
        (is t (stop_cause setup_err (by_startup c)) ≡ (
          if is_nil failures
          then is_opt t (first_of (causes (history r)))
          else any (is t) failures))
        × (is t (stop_cause setup_err (by_caller d))
            ≡ (if is_nil failures then is t d else any (is t) failures))
        × (is_opt t (Builder.build s.stop_errs) ≡ any (is_opt t) (stop_reports (history r)))
  unfolding Builder.build stop_cause
  run_outcome t s r c d q =
      let (a, b, e) = heard r in
      let failures = setup_failures (history r) in
      (
        ap (λ es. is t (stop_cause (build_multi_errors es) (by_startup c))) b
            ∙ (cause_of t failures (by_startup c)
                ∙ ap (λ o. if is_nil failures then is_opt t o else any (is t) failures)
                    (given_first (causes (history r)) c (sym a ∙ q))),
        ap (λ es. is t (stop_cause (build_multi_errors es) (by_caller d))) b
            ∙ cause_of t failures (by_caller d),
        ap (λ es. is_opt t (Builder.build es)) e
            ∙ is_opt-build-add_all t (stop_reports (history r)),
      )
