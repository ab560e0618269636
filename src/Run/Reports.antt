-- ===== src/Run/Reports.antt =====
-- run.go: what the tasks report during a run, in order, and what the run makes of it.
pub mod Outcome
use svcinit.Common.{
  ℕ, ◌≡◌, refl, ap, ap₂, sym, ◌∙◌, Bool, true, false, Option, none, some, List, [], ◌∷◌, ◌++◌,
  append-nil, arith, any, is_nil, if◌then◌else◌,
}
use svcinit.Errors.{Error, plain, fatal, is, is_opt, new_initialization_error}
use svcinit.Errors.Sentinel
use svcinit.Errors.Builder
use svcinit.Errors.Laws.{is_opt-build-add_all, is_opt-build_multi_errors}
use svcinit.Step.{Step, setup, start, stop, teardown, other}
use svcinit.Wrapper.{Wrapper, Answer, check_start_step}
use svcinit.Manager.{Startup, absent, live, cancelled, cancel_startup}
use svcinit.Run.{
  System, Next, launches, joins, joins_late, passes, verifies, fails, awaits, joins_running,
  joins_running_late, cancels, expires, signals, begins, skips, reports, ends, Reach, begin,
  and_next, on_error, do_launch, after_check, update, reported, end_step,
}
use svcinit.Run.Program.{Plan}

-- A setup failed; or a cause to stop came up; or a stop or teardown returned.
pub data Report : Type 0 where
  setup_failed : Error → Report
  asked : Error → Report
  stopped_with : Option Error → Report

-- What a step, or the check before it, tells the run.
abbrev pub told : Step → Option Error → List Report
told setup none = []
told setup (some e) = setup_failed e ∷ []
told start none = asked (plain Sentinel.exit) ∷ []
told start (some e) = asked e ∷ []
told stop err = stopped_with err ∷ []
told teardown err = stopped_with err ∷ []
told (other n) err = []

abbrev pub told_by_check : Step → Answer → List Report
told_by_check st (ok, some e) = told st (some (fatal e))
told_by_check st (ok, none) = []

abbrev pub causes : List Report → List Error
causes [] = []
causes (setup_failed e ∷ rs) = new_initialization_error e ∷ causes rs
causes (asked e ∷ rs) = e ∷ causes rs
causes (stopped_with err ∷ rs) = causes rs

abbrev pub setup_failures : List Report → List Error
setup_failures [] = []
setup_failures (setup_failed e ∷ rs) = new_initialization_error e ∷ setup_failures rs
setup_failures (r ∷ rs) = setup_failures rs

abbrev pub stop_reports : List Report → List (Option Error)
stop_reports [] = []
stop_reports (stopped_with err ∷ rs) = err ∷ stop_reports rs
stop_reports (r ∷ rs) = stop_reports rs

-- The startup context after requests to cancel it: the first one counts.
abbrev pub give : List Error → Startup → Startup
give [] s = s
give (e ∷ es) s = give es (cancel_startup e s)

pub causes-append : (xs ys : List Report) → causes (xs ++ ys) ≡ causes xs ++ causes ys
causes-append [] ys = refl
causes-append (setup_failed e ∷ xs) ys =
    ap (λ es. new_initialization_error e ∷ es) (causes-append xs ys)
causes-append (asked e ∷ xs) ys = ap (λ es. e ∷ es) (causes-append xs ys)
causes-append (stopped_with err ∷ xs) ys = causes-append xs ys

pub setup_failures-append :
    (xs ys : List Report) → setup_failures (xs ++ ys) ≡ setup_failures xs ++ setup_failures ys
setup_failures-append [] ys = refl
setup_failures-append (setup_failed e ∷ xs) ys =
    ap (λ es. new_initialization_error e ∷ es) (setup_failures-append xs ys)
setup_failures-append (asked e ∷ xs) ys = setup_failures-append xs ys
setup_failures-append (stopped_with err ∷ xs) ys = setup_failures-append xs ys

pub stop_reports-append :
    (xs ys : List Report) → stop_reports (xs ++ ys) ≡ stop_reports xs ++ stop_reports ys
stop_reports-append [] ys = refl
stop_reports-append (setup_failed e ∷ xs) ys = stop_reports-append xs ys
stop_reports-append (asked e ∷ xs) ys = stop_reports-append xs ys
stop_reports-append (stopped_with err ∷ xs) ys = ap (λ es. err ∷ es) (stop_reports-append xs ys)

pub give-append : (xs ys : List Error) (s : Startup) → give (xs ++ ys) s ≡ give ys (give xs s)
give-append [] ys s = refl
give-append (e ∷ xs) ys s = give-append xs ys (cancel_startup e s)

pub give-cancelled : (es : List Error) (c : Error) → give es (cancelled c) ≡ cancelled c
give-cancelled [] c = refl
give-cancelled (e ∷ es) c = give-cancelled es c

pub add_all-append :
    (xs ys : List (Option Error)) (errs : List Error)
    → Builder.add_all (xs ++ ys) errs ≡ Builder.add_all ys (Builder.add_all xs errs)
unfolding Builder.add_all
add_all-append [] ys errs = refl
add_all-append (e ∷ xs) ys errs = add_all-append xs ys (Builder.add e errs)

module _ {W : Type 0} where
  -- The state `t` is `s` with some reports heard.
  abbrev pub Hears : List Report → System W → System W → Type 0
  Hears rs s t =
      (t.startup ≡ give (causes rs) s.startup)
      × (t.setup_errs ≡ s.setup_errs ++ setup_failures rs)
      × (t.stop_errs ≡ Builder.add_all (stop_reports rs) s.stop_errs)

  unheard : (s : System W) → Hears [] s s
  unfolding Builder.add_all
  unheard s = (refl, sym (append-nil s.setup_errs), refl)

  on_error-Hears :
      (st : Step) (err : Option Error) (s : System W) → Hears (told st err) s (on_error st err s)
  unfolding on_error Builder.add_all Builder.add new_initialization_error
  on_error-Hears setup none s = unheard s
  on_error-Hears setup (some e) s = (refl, refl, refl)
  on_error-Hears start none s = (refl, sym (append-nil s.setup_errs), refl)
  on_error-Hears start (some e) s = (refl, sym (append-nil s.setup_errs), refl)
  on_error-Hears stop err s = (refl, sym (append-nil s.setup_errs), refl)
  on_error-Hears teardown err s = (refl, sym (append-nil s.setup_errs), refl)
  on_error-Hears (other n) err s = unheard s

  after_check-Hears :
      (k : ℕ) (st : Step) (i : ℕ) (a : Answer) (s : System W)
      → Hears (told_by_check st a) s (after_check k st i a s)
  after_check-Hears k st i (ok, some e) s = on_error-Hears st (some (fatal e)) s
  after_check-Hears k st i (true, none) s = unheard s
  after_check-Hears k st i (false, none) s = unheard s

  module _ {plan : Plan} {enforce : Bool} where
    -- What one step of the run tells it.
    abbrev pub step_told : (s : System W) {t : System W} → Next plan enforce s t → List Report
    step_told s (launches {i = i} {st = st} q w) =
        told_by_check st (check_start_step w st (s.wrappers i)).0
    step_told s (reports pre g post err q r) = told g.step err
    step_told s (cancels e) = asked e ∷ []
    step_told s n = []

    pub Next-Hears :
        (s : System W) {t : System W} (n : Next plan enforce s t) → Hears (step_told s n) s t
    unfolding do_launch Builder.add_all
    Next-Hears s (launches {k = k} {i = i} {st = st} {rest = rest} q w) =
        let (answer, tw) = check_start_step w st (s.wrappers i) in
        after_check-Hears k st i answer
          (record s { todo = rest; wrappers = update s.wrappers i tw })
    Next-Hears s (reports pre g post err q r) = on_error-Hears g.step err (record s {
      go = pre ++ record g { pc = reported } ∷ post;
      wrappers = end_step g.step g.tw err s.wrappers;
    })
    Next-Hears s (cancels e) = (refl, sym (append-nil s.setup_errs), refl)
    Next-Hears s (joins q r) = unheard s
    Next-Hears s (joins_late q r) = unheard s
    Next-Hears s (passes q r) = unheard s
    Next-Hears s (verifies q r) = unheard s
    Next-Hears s (fails q r) = unheard s
    Next-Hears s (awaits q r) = unheard s
    Next-Hears s (joins_running q r) = unheard s
    Next-Hears s (joins_running_late q r) = unheard s
    Next-Hears s expires = unheard s
    Next-Hears s (signals pre g post q r) = unheard s
    Next-Hears s (begins pre g post w q r c) = unheard s
    Next-Hears s (skips pre g post w q r c) = unheard s
    Next-Hears s (ends pre g post q r) = unheard s
