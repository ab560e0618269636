-- ===== src/Run/Ends.antt =====
-- A run comes to its end: its own steps are bounded, and it never stands still before the end.
use svcinit.Common.{
  ℕ, zero, suc, ◌<◌, ◌≡◌, refl, ap, Bool, true, false, Option, none, some, List, [], ◌∷◌, arith,
  Bool-cases, inl, inr, ◌⊎◌,
}
use svcinit.Errors.{Error, fatal}
use svcinit.Errors.Builder
use svcinit.Step.{Step, setup, start, stop, teardown, other}
use svcinit.Wrapper.{check_run_step}
use svcinit.Manager.{cancel_startup}
use svcinit.Run.{
  Goroutine, Pc, spawned, signalled, begun, reported, System, Next, launches, joins, joins_late,
  passes, verifies, fails, awaits, joins_running, joins_running_late, cancels, expires, signals,
  begins, skips, reports, ends, on_error, do_launch, after_check, IsCancelled, quiet, none_running,
  all_started,
}
use svcinit.Run.Program.{Plan, Instr, launch, join, started, verify, await, join_running}
use svcinit.Run.Measure.{measure, Own, Next-measure}

module _ {W : Type 0} where
  on_error-IsCancelled :
      (st : Step) (e : Option Error) (s : System W)
      → IsCancelled s.startup
      → IsCancelled (on_error st e s).startup
  unfolding on_error
  on_error-IsCancelled setup none s c = c
  on_error-IsCancelled setup (some e) s (x, h) = (x, ap (cancel_startup _) h)
  on_error-IsCancelled start none s (x, h) = (x, ap (cancel_startup _) h)
  on_error-IsCancelled start (some e) s (x, h) = (x, ap (cancel_startup e) h)
  on_error-IsCancelled stop e s c = c
  on_error-IsCancelled teardown e s c = c
  on_error-IsCancelled (other n) e s c = c

  after_check-IsCancelled :
      (k : ℕ) (st : Step) (i : ℕ) (a : Bool × Option Error) (s : System W)
      → IsCancelled s.startup
      → IsCancelled (after_check k st i a s).startup
  after_check-IsCancelled k st i (ok, some e) s c = on_error-IsCancelled st (some (fatal e)) s c
  after_check-IsCancelled k st i (true, none) s c = c
  after_check-IsCancelled k st i (false, none) s c = c

  do_launch-IsCancelled :
      (w : W) (k : ℕ) (st : Step) (i : ℕ) (rest : List Instr) (s : System W)
      → IsCancelled s.startup
      → IsCancelled (do_launch w k st i rest s).startup
  unfolding do_launch
  do_launch-IsCancelled w k st i rest s c = after_check-IsCancelled k st i _ _ c

  module _ (plan : Plan) (enforce : Bool) where
    abbrev pub Moves : System W → Type 0
    Moves s = (t : System W) × Own plan enforce s t

    goroutine-Moves :
        (w : W) (s : System W) (g : Goroutine) (go : List Goroutine) (pc : Pc)
        → s.go ≡ g ∷ go
        → g.pc ≡ pc
        → Moves s
    goroutine-Moves w s g go spawned q r = (_, (signals [] g go q r, refl))
    goroutine-Moves w s g go signalled q r =
        elim (Bool-cases (check_run_step w g.step (s.wrappers g.tw))) [
          | inl c ↦ (_, (begins [] g go w q r c, refl))
          | inr c ↦ (_, (skips [] g go w q r c, refl))
        ]
    goroutine-Moves w s g go begun q r = (_, (reports [] g go none q r, refl))
    goroutine-Moves w s g go reported q r = (_, (ends [] g go q r, refl))

    -- With no goroutine left, the thread of Run can do what is next, if the run is asked to stop.
    instr-Moves :
        (w : W) (s : System W) (x : Instr) (xs : List Instr)
        → IsCancelled s.startup
        → s.go ≡ []
        → s.todo ≡ x ∷ xs
        → Moves s
    unfolding quiet none_running all_started
    instr-Moves w s (launch k st i) xs c e q = (_, (launches q w, refl))
    instr-Moves w s (join k st b) xs c e q = (_, (joins q (ap (quiet k st) e), refl))
    instr-Moves w s (started k) xs c e q = (_, (passes q (ap (all_started k) e), refl))
    instr-Moves w s (verify k) xs c e q = elim (Bool-cases (Builder.has_errors s.setup_errs)) [
      | inl b ↦ (_, (fails q b, refl))
      | inr b ↦ (_, (verifies q b, refl))
    ]
    instr-Moves w s await xs c e q = (_, (awaits q c, refl))
    instr-Moves w s (join_running b) xs c e q = (_, (joins_running q (ap none_running e), refl))

    abbrev pub Finished : System W → Type 0
    Finished s = (s.todo ≡ []) × (s.go ≡ [])

    -- A run that is asked to stop never stands still before its end.
    progress :
        (w : W) (s : System W) (todo : List Instr) (go : List Goroutine)
        → IsCancelled s.startup
        → s.todo ≡ todo
        → s.go ≡ go
        → Finished s ⊎ Moves s
    progress w s todo (g ∷ go) c q e = inr (goroutine-Moves w s g go g.pc e refl)
    progress w s (x ∷ xs) [] c q e = inr (instr-Moves w s x xs c e q)
    progress w s [] [] c q e = inl (q, e)

    Next-IsCancelled :
        (s : System W) {t : System W}
        → Next plan enforce s t
        → IsCancelled s.startup
        → IsCancelled t.startup
    Next-IsCancelled s (launches {k = k} {i = i} {st = st} {rest = rest} q w) c =
        do_launch-IsCancelled w k st i rest s c
    Next-IsCancelled s (reports pre g post err q r) c = on_error-IsCancelled g.step err _ c
    Next-IsCancelled s (cancels e) (x, h) = (x, ap (cancel_startup e) h)
    Next-IsCancelled s (joins q r) c = c
    Next-IsCancelled s (joins_late q r) c = c
    Next-IsCancelled s (passes q r) c = c
    Next-IsCancelled s (verifies q r) c = c
    Next-IsCancelled s (fails q r) c = c
    Next-IsCancelled s (awaits q r) c = c
    Next-IsCancelled s (joins_running q r) c = c
    Next-IsCancelled s (joins_running_late q r) c = c
    Next-IsCancelled s expires c = c
    Next-IsCancelled s (signals pre g post q r) c = c
    Next-IsCancelled s (begins pre g post w q r b) c = c
    Next-IsCancelled s (skips pre g post w q r b) c = c
    Next-IsCancelled s (ends pre g post q r) c = c

    -- Whatever own steps it takes, the run takes another until it is finished, and it gets there.
    pub data Ends : System W → Type 0 where
      finished : {s : System W} → Finished s → Ends s
      goes_on : {s : System W} → Moves s → ((t : System W) → Own plan enforce s t → Ends t) → Ends s

    ends_within :
        (w : W) (n : ℕ) (s : System W) → measure plan enforce s < n → IsCancelled s.startup → Ends s
    ends_within w zero s m c = absurd (omega arith)
    ends_within w (suc n) s m c = elim (progress w s s.todo s.go c refl refl) [
      | inl f ↦ finished f
      | inr moves ↦ goes_on moves (λ t (step, own).
          ends_within w n t (omega (arith, m, Next-measure plan enforce s step own))
            (Next-IsCancelled s step c))
    ]

    -- A run that was asked to stop and whose tasks return comes to its end: from any state,
    -- whatever own steps it takes, it can take another one until the thread of Run has nothing left
    -- to do and no goroutine is left, and this state is reached.
    pub run_ends : W → (s : System W) → IsCancelled s.startup → Ends s
    run_ends w s c = ends_within w (suc (measure plan enforce s)) s (omega arith) c
