-- ===== src/Run/Stages/Promise.antt =====
-- run.go: what each step of a run makes of the setup of a task.
use svcinit.Common.{
  ℕ, ◌≤◌, ◌≡◌, refl, ap, ap₂, sym, ◌∙◌, subst, Bool, true, false, List, ◌∷◌, arith, all,
}
use svcinit.Errors.Builder
use svcinit.Step.{Step, setup}
use svcinit.Wrapper.{Wrapper, check_run_step}
use svcinit.Manager.{Startup}
use svcinit.Run.{
  Goroutine, signalled, begun, begin_step, System, Next, launches, joins, joins_late, passes,
  verifies, fails, awaits, joins_running, joins_running_late, cancels, expires, signals, begins,
  skips, reports, ends, do_launch, quiet,
}
use svcinit.Run.Program.{Plan, Instr, launch}
use svcinit.Run.Once.{occ}
use svcinit.Run.Waits.{late_absurd, do_launch_rest, gives_up}
use svcinit.Run.Untouched.{on_error_same}
use svcinit.Run.Barrier.{calm, covered, join-calm, started-calm}
use svcinit.Run.Barrier.Moves.{at_head, at_open, not-true, is_launch}
use svcinit.Run.Stages.Checked.{guarded, checked, guarded-shutdown_program}
use svcinit.Run.Stages.InSetup.{in_setup, calm-in_setup, after_check-in_setup}
use svcinit.Run.Stages.SetUp.{
  Fate, to_come, under_way, failed, launch_to_come, report_under_way, skip_under_way,
  move_under_way, end_under_way,
}

checked-tail :
    (j i : ℕ) {todo : List Instr} (x : Instr) (rest : List Instr)
    → todo ≡ x ∷ rest
    → checked j i todo ≡ true
    → checked j i rest ≡ true
checked-tail j i x rest q c = ground (arith, sym (ap (checked j i) q) ∙ c)

occ-tail :
    (j : ℕ) {todo : List Instr} (x : Instr) (rest : List Instr)
    → todo ≡ x ∷ rest
    → is_launch x ≡ false
    → 1 ≤ occ j setup todo
    → 1 ≤ occ j setup rest
occ-tail j x rest q n l = ground (arith, ap (occ j setup) q, n, l)

launched-guarded :
    (i k x : ℕ) (st : Step) {todo : List Instr} (rest : List Instr)
    → todo ≡ launch k st x ∷ rest
    → guarded i todo ≡ true
    → guarded i rest ≡ true
launched-guarded i k x st rest q g = ground (arith, sym (ap (guarded i) q) ∙ g)

module _ {W : Type 0} (plan : Plan) (enforce : Bool) (wrappers : ℕ → Wrapper W) (startup : Startup)
    (j i : ℕ) where
  abbrev pub has : W → Bool
  has w = check_run_step w setup (wrappers j)

  pub Next-guarded :
      (s : System W) {t : System W}
      → Next plan enforce s t
      → Builder.has_errors s.setup_errs ≡ true
      → guarded i s.todo ≡ true
      → guarded i t.todo ≡ true
  Next-guarded s (launches {k = k} {i = x} {st = st} {rest = rest} q w) h g =
      ap (guarded i) (do_launch_rest w k st x rest s).0 ∙ launched-guarded i k x st rest q g
  Next-guarded s (verifies q r) h g = absurd (cc (r, h))
  Next-guarded s (fails q r) h g = guarded-shutdown_program j i plan enforce
  Next-guarded s (reports pre x post err q r) h g =
      ap (guarded i) (on_error_same x.step err _).2 ∙ g
  Next-guarded s (joins q r) h g = sym (ap (guarded i) q) ∙ g
  Next-guarded s (joins_late q r) h g = sym (ap (guarded i) q) ∙ g
  Next-guarded s (passes q r) h g = sym (ap (guarded i) q) ∙ g
  Next-guarded s (awaits q r) h g = sym (ap (guarded i) q) ∙ g
  Next-guarded s (joins_running q r) h g = sym (ap (guarded i) q) ∙ g
  Next-guarded s (joins_running_late q r) h g = sym (ap (guarded i) q) ∙ g
  Next-guarded s (cancels e) h g = g
  Next-guarded s expires h g = g
  Next-guarded s (signals pre x post q r) h g = g
  Next-guarded s (begins pre x post w q r c) h g = g
  Next-guarded s (skips pre x post w q r c) h g = g
  Next-guarded s (ends pre x post q r) h g = g

  module _
      (static : (w w' : W)
        → check_run_step w setup (wrappers j) ≡ check_run_step w' setup (wrappers j)) where
    pub Next-to_come :
        {s t : System W}
        → ((w : W) → check_run_step w setup (s.wrappers j) ≡ has w)
        → Next plan enforce s t
        → 1 ≤ occ j setup s.todo
        → checked j i s.todo ≡ true
        → Fate j i has t
    Next-to_come {s} same (launches {k = k} {i = x} {st = st} {rest = rest} q w) l c =
        launch_to_come j i has k st x rest s w q (λ h w'. static w' w ∙ (sym (same w) ∙ h)) l c
    Next-to_come {s} same (fails q r) l c = failed r (guarded-shutdown_program j i plan enforce)
    Next-to_come {s} same (reports pre g post err q r) l c =
        let todo_is = (on_error_same g.step err _).2 in
        to_come (subst (λ todo. 1 ≤ occ j setup todo) (sym todo_is) l)
          (ap (checked j i) todo_is ∙ c)
    Next-to_come same (joins q r) l c = to_come (occ-tail j _ _ q refl l) (checked-tail j i _ _ q c)
    Next-to_come same (joins_late q r) l c =
        to_come (occ-tail j _ _ q refl l) (checked-tail j i _ _ q c)
    Next-to_come same (passes q r) l c =
        to_come (occ-tail j _ _ q refl l) (checked-tail j i _ _ q c)
    Next-to_come same (verifies q r) l c =
        to_come (occ-tail j _ _ q refl l) (checked-tail j i _ _ q c)
    Next-to_come same (awaits q r) l c =
        to_come (occ-tail j _ _ q refl l) (checked-tail j i _ _ q c)
    Next-to_come same (joins_running q r) l c =
        to_come (occ-tail j _ _ q refl l) (checked-tail j i _ _ q c)
    Next-to_come same (joins_running_late q r) l c =
        to_come (occ-tail j _ _ q refl l) (checked-tail j i _ _ q c)
    Next-to_come same (cancels e) l c = to_come l c
    Next-to_come same expires l c = to_come l c
    Next-to_come same (signals pre x post q r) l c = to_come l c
    Next-to_come same (begins pre x post w q r d) l c = to_come l c
    Next-to_come same (skips pre x post w q r d) l c = to_come l c
    Next-to_come same (ends pre x post q r) l c = to_come l c

    -- Between two stages no setup is under way.
    idle : {B : Type 0} (go : List Goroutine) → in_setup j go ≡ true → calm go ≡ true → B
    idle go p c = absurd (cc (p, calm-in_setup j go c))

    pub Next-under_way :
        {s t : System W}
        → ((w : W) → check_run_step w setup (s.wrappers j) ≡ has w)
        → gives_up s ≡ false
        → covered s.todo s.go ≡ true
        → Next plan enforce s t
        → in_setup j s.go ≡ true
        → guarded i s.todo ≡ true
        → ((w : W) → has w ≡ true)
        → Fate j i has t
    unfolding do_launch quiet
    Next-under_way {s} same h c (launches {k = k} {i = x} {st = st} {rest = rest} q w) p g all =
        under_way (after_check-in_setup j k st x _ _ p)
          (ap (guarded i) (do_launch_rest w k st x rest s).0 ∙ launched-guarded i k x st rest q g)
          all
    Next-under_way {s} same h c (joins {k = k} {st = st} {b = b} {rest = rest} q r) p g all =
        idle s.go p (join-calm k st b rest s.go (not-true _ r) (at_head s.go q c))
    Next-under_way {s} same h c (joins_late {rest = rest} q r) p g all =
        absurd (late_absurd s.todo _ rest s.expired q refl r h)
    Next-under_way {s} same h c (passes {k = k} {rest = rest} q r) p g all =
        idle s.go p (started-calm k rest s.go r (at_head s.go q c))
    Next-under_way {s} same h c (verifies q r) p g all = idle s.go p (at_open _ _ s.go q refl c)
    Next-under_way {s} same h c (fails q r) p g all = idle s.go p (at_open _ _ s.go q refl c)
    Next-under_way {s} same h c (awaits q r) p g all = idle s.go p (at_open _ _ s.go q refl c)
    Next-under_way {s} same h c (joins_running q r) p g all =
        idle s.go p (at_open _ _ s.go q refl c)
    Next-under_way {s} same h c (joins_running_late {rest = rest} q r) p g all =
        absurd (late_absurd s.todo _ rest s.expired q refl r h)
    Next-under_way same h c (cancels e) p g all = under_way p g all
    Next-under_way same h c expires p g all = under_way p g all
    Next-under_way {s} same h c (signals pre x post q r) p g all =
        move_under_way j i has s pre x post q p g all (record x { pc = signalled }) s.wrappers
          (λ u. ground arith)
    Next-under_way {s} same h c (begins pre x post w q r d) p g all =
        move_under_way j i has s pre x post q p g all (record x { pc = begun })
          (begin_step x.step x.tw s.wrappers) (λ u. ground arith)
    Next-under_way {s} same h c (skips pre x post w q r d) p g all =
        skip_under_way j i has s pre x post q p g all w
          (λ own st. ap₂ (λ y n. check_run_step w y (s.wrappers n)) st own ∙ same w) d
    Next-under_way {s} same h c (reports pre x post err q r) p g all =
        report_under_way j i has s pre x post q p g all err
    Next-under_way {s} same h c (ends pre x post q r) p g all =
        end_under_way j i has s pre x post q p g all r
