-- ===== src/Run/Stages/Grows.antt =====
-- What a run has recorded stays recorded: the steps done of a wrapper, and the setup errors.
use svcinit.Common.{
  ℕ, ◌≡◌, refl, ap, sym, ◌∙◌, Bool, true, false, not, ◌&&◌, Option, none, some, is_some, List, [],
  ◌∷◌, ◌++◌, arith, ◌==◌, ==_iff, if◌then◌else◌, Bool-cases, inl, inr,
}
use svcinit.Errors.{Error, fatal, new_initialization_error}
use svcinit.Errors.Builder
use svcinit.Step.{Step, setup, start, stop, teardown, other, step_eq, contains}
use svcinit.Wrapper.{Wrapper, check_start_step, internal_add_step_done}
use svcinit.Run.{
  System, Next, launches, joins, joins_late, passes, verifies, fails, awaits, joins_running,
  joins_running_late, cancels, expires, signals, begins, skips, reports, ends, on_error, do_launch,
  begin_step, end_step, update, record_step, after_check,
}
use svcinit.Run.Program.{Plan}
use svcinit.Run.Untouched.{on_error_same, after_check_same}

pub contains-append :
    (ss ts : List Step) (s : Step) → contains ss s ≡ true → contains (ss ++ ts) s ≡ true
unfolding contains
contains-append [] ts s h = absurd (cc)
contains-append (x ∷ ss) ts s h = ground (arith, contains-append ss ts s)

pub has_errors-snoc : (errs : List Error) (e : Error) → Builder.has_errors (errs ++ e ∷ []) ≡ true
unfolding Builder.has_errors
has_errors-snoc [] e = refl
has_errors-snoc (x ∷ errs) e = refl

has_errors-append :
    (errs es : List Error) → Builder.has_errors errs ≡ true → Builder.has_errors (errs ++ es) ≡ true
unfolding Builder.has_errors
has_errors-append [] es h = absurd (cc)
has_errors-append (x ∷ errs) es h = refl

pub has_errors-initialization :
    (e : Error) (errs : List Error)
    → Builder.has_errors (Builder.add (some (new_initialization_error e)) errs) ≡ true
unfolding Builder.add new_initialization_error
has_errors-initialization e errs = has_errors-snoc errs _

module _ {W : Type 0} (z : Step) where
  abbrev Done : (ℕ → Wrapper W) → ℕ → Type 0
  Done f i = contains (f i).execute_steps z ≡ true

  update-Done :
      (f : ℕ → Wrapper W) (j i : ℕ) (tw : Wrapper W)
      → (contains (f j).execute_steps z ≡ true → contains tw.execute_steps z ≡ true)
      → Done f i
      → Done (update f j tw) i
  update-Done f j i tw grow d = elim (Bool-cases (i == j)) [
    | inl q ↦
        ap (λ b. contains (if b then tw else f i).execute_steps z) q
        ∙ grow (ap (λ n. contains (f n).execute_steps z) (sym ((==_iff i j).0 q)) ∙ d)
    | inr q ↦ ap (λ b. contains (if b then tw else f i).execute_steps z) q ∙ d
  ]

  check-grows :
      (w : W) (st : Step) (tw : Wrapper W)
      → contains tw.execute_steps z ≡ true
      → contains (check_start_step w st tw).1.execute_steps z ≡ true
  unfolding check_start_step internal_add_step_done
  check-grows w st tw d = ground (arith, contains-append tw.execute_steps (st ∷ []) z d)

  record_if-Done :
      (b : Bool) (st : Step) (j : ℕ) (f : ℕ → Wrapper W) (i : ℕ)
      → Done f i
      → Done (if b then record_step st j f else f) i
  unfolding internal_add_step_done
  record_if-Done true st j f i d =
      update-Done f j i _ (contains-append (f j).execute_steps (st ∷ []) z) d
  record_if-Done false st j f i d = d

  -- What a step of the run makes of a task that has done a step: the step stays done.
  pub Next-done :
      {plan : Plan} {enforce : Bool} (s : System W) {t : System W} (i : ℕ)
      → Next plan enforce s t
      → contains (s.wrappers i).execute_steps z ≡ true
      → contains (t.wrappers i).execute_steps z ≡ true
  unfolding do_launch begin_step end_step
  Next-done s i (launches {k = k} {i = j} {st = st} {rest = rest} q w) d =
      let (answer, tw) = check_start_step w st (s.wrappers j) in
      let s' = record s { todo = rest; wrappers = update s.wrappers j tw } in
      ap (λ f. contains (f i).execute_steps z) (after_check_same k st j answer s').0
      ∙ update-Done s.wrappers j i tw (check-grows w st (s.wrappers j)) d
  Next-done s i (begins pre g post w q r c) d =
      record_if-Done (not (step_eq g.step setup)) g.step g.tw s.wrappers i d
  Next-done s i (reports pre g post err q r) d =
      ap (λ f. contains (f i).execute_steps z) (on_error_same g.step err _).0
      ∙ record_if-Done (step_eq g.step setup && not (is_some err)) g.step g.tw s.wrappers i d
  Next-done s i (joins q r) d = d
  Next-done s i (joins_late q r) d = d
  Next-done s i (passes q r) d = d
  Next-done s i (verifies q r) d = d
  Next-done s i (fails q r) d = d
  Next-done s i (awaits q r) d = d
  Next-done s i (joins_running q r) d = d
  Next-done s i (joins_running_late q r) d = d
  Next-done s i (cancels e) d = d
  Next-done s i expires d = d
  Next-done s i (signals pre g post q r) d = d
  Next-done s i (skips pre g post w q r c) d = d
  Next-done s i (ends pre g post q r) d = d

module _ {W : Type 0} where
  on_error-errors :
      (st : Step) (err : Option Error) (s : System W)
      → Builder.has_errors s.setup_errs ≡ true
      → Builder.has_errors (on_error st err s).setup_errs ≡ true
  unfolding on_error
  on_error-errors setup none s h = h
  on_error-errors setup (some e) s h = has_errors-initialization e s.setup_errs
  on_error-errors start none s h = h
  on_error-errors start (some e) s h = h
  on_error-errors stop err s h = h
  on_error-errors teardown err s h = h
  on_error-errors (other n) err s h = h

  after_check-errors :
      (k : ℕ) (st : Step) (j : ℕ) (a : Bool × Option Error) (s : System W)
      → Builder.has_errors s.setup_errs ≡ true
      → Builder.has_errors (after_check k st j a s).setup_errs ≡ true
  after_check-errors k st j (ok, some e) s h = on_error-errors st (some (fatal e)) s h
  after_check-errors k st j (true, none) s h = h
  after_check-errors k st j (false, none) s h = h

  -- Setup errors are never forgotten.
  pub Next-errors :
      {plan : Plan} {enforce : Bool} (s : System W) {t : System W}
      → Next plan enforce s t
      → Builder.has_errors s.setup_errs ≡ true
      → Builder.has_errors t.setup_errs ≡ true
  unfolding do_launch
  Next-errors s (launches {k = k} {i = j} {st = st} {rest = rest} q w) h =
      let (answer, tw) = check_start_step w st (s.wrappers j) in
      after_check-errors k st j answer (record s { todo = rest; wrappers = update s.wrappers j tw })
        h
  Next-errors s (reports pre g post err q r) h = on_error-errors g.step err _ h
  Next-errors s (joins q r) h = h
  Next-errors s (joins_late q r) h = h
  Next-errors s (passes q r) h = h
  Next-errors s (verifies q r) h = h
  Next-errors s (fails q r) h = h
  Next-errors s (awaits q r) h = h
  Next-errors s (joins_running q r) h = h
  Next-errors s (joins_running_late q r) h = h
  Next-errors s (cancels e) h = h
  Next-errors s expires h = h
  Next-errors s (signals pre g post q r) h = h
  Next-errors s (begins pre g post w q r c) h = h
  Next-errors s (skips pre g post w q r c) h = h
  Next-errors s (ends pre g post q r) h = h
