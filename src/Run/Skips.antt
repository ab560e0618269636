-- ===== src/Run/Skips.antt =====
-- Tasks of the stages behind a failed setup: `notifyTasksSkipped` tells them that they never run.
use svcinit.Common.{ℕ, ◌≤◌, ◌≡◌, refl, ap, sym, ◌∙◌, Bool, true, List, [], ◌∷◌, ◌++◌, arith}
use svcinit.Errors.Builder
use svcinit.Step.{Step, setup}
use svcinit.Wrapper.{Wrapper}
use svcinit.Manager.{Startup}
use svcinit.Run.{
  signalled, begun, reported, System, Next, launches, joins, joins_late, passes, verifies, fails,
  awaits, joins_running, joins_running_late, cancels, expires, signals, begins, skips, reports,
  ends, Reach, begin, and_next, do_launch, end_step,
}
use svcinit.Run.Program.{Plan, Instr, verify, await, shutdown_program}
use svcinit.Run.Once.{pointers, occ, occ-run_program, occ-shutdown_program}
use svcinit.Run.Untouched.{
  is_free, Untouched, other_goroutine, launched_less, on_error_same, after_check_same,
  launch-Untouched, begin_step-other, end_step-other,
}

module _ {W : Type 0} where
  do_launch_todo :
      (w : W) (k : ℕ) (st : Step) (j : ℕ) (rest : List Instr) (s : System W)
      → (do_launch w k st j rest s).todo ≡ rest
  unfolding do_launch
  do_launch_todo w k st j rest s = (after_check_same k st j _ _).1

  module _ {plan : Plan} {enforce : Bool} where
    Next-Untouched :
        (i : ℕ) (s : System W) {t : System W}
        → Next plan enforce s t
        → occ i setup t.todo ≡ occ i setup s.todo
        → Untouched i s.wrappers s.go
        → Untouched i t.wrappers t.go
    Next-Untouched i s (launches {k = k} {i = j} {st = st} {rest = rest} q w) o u =
        launch-Untouched i k j st rest w s
          (launched_less i k j st rest
            (sym (ap (occ i setup) (do_launch_todo w k st j rest s)) ∙ (o ∙ ap (occ i setup) q)))
          u
    Next-Untouched i s (joins q r) o u = u
    Next-Untouched i s (joins_late q r) o u = u
    Next-Untouched i s (passes q r) o u = u
    Next-Untouched i s (verifies q r) o u = u
    Next-Untouched i s (fails q r) o u = u
    Next-Untouched i s (awaits q r) o u = u
    Next-Untouched i s (joins_running q r) o u = u
    Next-Untouched i s (joins_running_late q r) o u = u
    Next-Untouched i s (cancels e) o u = u
    Next-Untouched i s expires o u = u
    Next-Untouched i s (signals pre g post q r) o (e, f) =
        (e, (other_goroutine i pre g post q f).2 signalled)
    Next-Untouched i s (begins pre g post w q r c) o (e, f) =
        let (apart, gone, moved) = other_goroutine i pre g post q f in
        (begin_step-other i g.tw g.step s.wrappers apart e, moved begun)
    Next-Untouched i s (skips pre g post w q r c) o (e, f) =
        (e, (other_goroutine i pre g post q f).1)
    Next-Untouched i s (reports pre g post err q r) o (e, f) =
        let (apart, gone, moved) = other_goroutine i pre g post q f in
        let s' = record s {
          go = pre ++ record g { pc = reported } ∷ post;
          wrappers = end_step g.step g.tw err s.wrappers;
        } in
        let (same_wrappers, same_go, same_todo) = on_error_same g.step err s' in
        (
          ap (λ h. (h i).execute_steps) same_wrappers
              ∙ end_step-other i g.tw g.step err s.wrappers apart e,
          ap (is_free i) same_go ∙ moved reported,
        )
    Next-Untouched i s (ends pre g post q r) o (e, f) = (e, (other_goroutine i pre g post q f).1)

    -- What is left to launch only shrinks.
    Next-occ :
        (i : ℕ) (s : System W) {t : System W}
        → Next plan enforce s t
        → occ i setup t.todo ≤ occ i setup s.todo
    Next-occ i s (launches {k = k} {i = j} {st = st} {rest = rest} q w) =
        ground (arith, ap (occ i setup) (do_launch_todo w k st j rest s), ap (occ i setup) q)
    Next-occ i s (joins q r) = omega (arith, ap (occ i setup) q)
    Next-occ i s (joins_late q r) = omega (arith, ap (occ i setup) q)
    Next-occ i s (passes q r) = omega (arith, ap (occ i setup) q)
    Next-occ i s (verifies q r) = omega (arith, ap (occ i setup) q)
    Next-occ i s (fails q r) = omega (arith, occ-shutdown_program i setup plan enforce)
    Next-occ i s (awaits q r) = omega (arith, ap (occ i setup) q)
    Next-occ i s (joins_running q r) = omega (arith, ap (occ i setup) q)
    Next-occ i s (joins_running_late q r) = omega (arith, ap (occ i setup) q)
    Next-occ i s (cancels e) = omega arith
    Next-occ i s expires = omega arith
    Next-occ i s (signals pre g post q r) = omega arith
    Next-occ i s (begins pre g post w q r c) = omega arith
    Next-occ i s (skips pre g post w q r c) = omega arith
    Next-occ i s (reports pre g post err q r) = omega (
      arith,
      ap (occ i setup)
          (on_error_same g.step err (record s {
            go = pre ++ record g { pc = reported } ∷ post;
            wrappers = end_step g.step g.tw err s.wrappers;
          })).2,
    )
    Next-occ i s (ends pre g post q r) = omega arith

  module _ (plan : Plan) (enforce : Bool) where
    -- Any number of steps.
    pub data Follows (s : System W) : System W → Type 0 where
      here : Follows s s
      further : {t u : System W} → Follows s t → Next plan enforce t u → Follows s u

    Follows-Untouched :
        (i : ℕ) (s : System W) {t : System W}
        → occ i setup s.todo ≡ 0
        → Follows s t
        → Untouched i s.wrappers s.go
        → (occ i setup t.todo ≡ 0) × Untouched i t.wrappers t.go
    Follows-Untouched i s o here u = (o, u)
    Follows-Untouched i s o (further {t = t} p n) u =
        let (z, v) = Follows-Untouched i s o p u in
        let less = Next-occ i t n in
        (omega (arith, z, less), Next-Untouched i t n (omega (arith, z, less)) v)

    module _ (wrappers : ℕ → Wrapper W) (startup : Startup) (i : ℕ) (unique : pointers i plan ≤ 1)
        (new : (wrappers i).execute_steps ≡ []) where
      Reach-occ : {s : System W} → Reach plan enforce wrappers startup s → occ i setup s.todo ≤ 1
      Reach-occ begin = omega (arith, occ-run_program i setup plan enforce, unique)
      Reach-occ (and_next {s = s} r n) = omega (arith, Reach-occ r, Next-occ i s n)

      -- A task whose setup is still to be launched has done nothing.
      pending-Untouched :
          {s : System W}
          → Reach plan enforce wrappers startup s
          → 1 ≤ occ i setup s.todo
          → Untouched i s.wrappers s.go
      pending-Untouched begin h = (new, refl)
      pending-Untouched (and_next {s = s} r n) h =
          let less = Next-occ i s n in
          let one = Reach-occ r in
          Next-Untouched i s n (omega (arith, h, less, one))
            (pending-Untouched r (omega (arith, h, less)))

      -- When the setup of a stage has failed, a task that stands in the plan once, is new, and
      -- whose own setup is only to be launched behind that stage, never runs: in every state that
      -- can follow, also with waits that give up, it has done no step and no goroutine is for it.
      pub skipped_task_never_runs :
          {s t : System W} {k : ℕ} {rest : List Instr}
          → Reach plan enforce wrappers startup s
          → s.todo ≡ verify k ∷ rest
          → Builder.has_errors s.setup_errs ≡ true
          → 1 ≤ occ i setup rest
          → Follows (record s { todo = await ∷ shutdown_program plan enforce }) t
          → ((t.wrappers i).execute_steps ≡ []) × (is_free i t.go ≡ true)
      skipped_task_never_runs {s = s} r q failed pending path =
          let u = pending-Untouched r (omega (arith, ap (occ i setup) q, pending)) in
          (Follows-Untouched i (record s { todo = await ∷ shutdown_program plan enforce })
            (omega (arith, occ-shutdown_program i setup plan enforce)) path u).1
