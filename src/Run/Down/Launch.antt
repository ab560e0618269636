-- ===== src/Run/Down/Launch.antt =====
-- The launch of a task's teardown settles the task.
use svcinit.Common.{
  ℕ, ◌+◌, ◌≡◌, refl, ap, sym, ◌∙◌, subst, Bool, true, false, ◌&&◌, ◌||◌, Option, none, some, List,
  [], ◌∷◌, arith, all, ==_iff, Bool-cases, inl, inr,
}
use svcinit.Errors.{Error}
use svcinit.Step.{Step, setup, start, stop, teardown, other, step_eq, step_eq_iff, contains}
use svcinit.Wrapper.{
  Wrapper, check_start_step, check_run_step, internal_add_step_done, internal_can_start_step,
}
use svcinit.Wrapper.Phase.{
  Phase, Verdict, granted, premature, wrong_order, invalid, permits, IsLifecycle, at_fresh,
  at_ready, at_running, at_stopped, torn_ready, torn_running, torn_stopped,
}
use svcinit.Wrapper.Lifecycle.{CheckSays, check_start_step-permits}
use svcinit.Run.{Goroutine, spawned, System, on_error, do_launch, update, after_check}
use svcinit.Run.Program.{Instr, launch, join, started, verify, await, join_running}
use svcinit.Run.Era.{Era, late, launch_era, allowed, safe}
use svcinit.Run.Once.{occ, live}
use svcinit.Run.Invariant.{fits, Inv}
use svcinit.Run.Launch.{update_self}
use svcinit.Run.Down.{Settled, is_down, pending, only_teardown, no_verify, contains-snoc}

late_only : (k : ℕ) (e : Era) → allowed (launch_era k teardown e) ≡ true → e ≡ late
late_only k e h = ground arith

-- What a late program still launches are teardowns, and it tests no setup errors.
late_program :
    (i : ℕ) (xs : List Instr)
    → safe late xs ≡ true
    → (no_verify xs ≡ true) × ((st : Step) → step_eq st teardown ≡ false → occ i st xs ≡ 0)
late_program i [] h = (refl, λ st n. refl)
late_program i (launch k setup j ∷ xs) h = absurd (ground arith)
late_program i (launch k start j ∷ xs) h = absurd (ground arith)
late_program i (launch k stop j ∷ xs) h = absurd (ground arith)
late_program i (launch k teardown j ∷ xs) h =
    let (v, o) = late_program i xs h in
    (v, λ st n. ground (arith, n, o st n, step_eq_iff teardown st, step_eq_iff st teardown))
late_program i (launch k (other n) j ∷ xs) h = absurd (ground arith)
late_program i (join k setup b ∷ xs) h = late_program i xs h
late_program i (join k start b ∷ xs) h = late_program i xs h
late_program i (join k stop b ∷ xs) h = late_program i xs h
late_program i (join k teardown b ∷ xs) h = late_program i xs h
late_program i (join k (other n) b ∷ xs) h = late_program i xs h
late_program i (started k ∷ xs) h = late_program i xs h
late_program i (verify k ∷ xs) h = absurd (ground arith)
late_program i (await ∷ xs) h = absurd (ground arith)
late_program i (join_running b ∷ xs) h = late_program i xs h

late_goroutines :
    (i : ℕ) (go : List Goroutine)
    → all (fits late) go ≡ true
    → live i teardown go ≡ 0
    → (only_teardown i go ≡ true) × (pending i go ≡ false)
late_goroutines i [] b l = (refl, refl)
late_goroutines i (g ∷ go) b l = ground (arith, late_goroutines i go)

down_unless_granted :
    {ss : List Step} {p : Phase}
    → IsLifecycle ss p
    → (permits p teardown ≡ granted → ⊥)
    → is_down ss ≡ true
unfolding contains
down_unless_granted at_fresh n = refl
down_unless_granted at_ready n = absurd (n refl)
down_unless_granted at_running n = absurd (n refl)
down_unless_granted at_stopped n = absurd (n refl)
down_unless_granted torn_ready n = refl
down_unless_granted torn_running n = refl
down_unless_granted torn_stopped n = refl

can_run :
    {W : Type 0} (w : W) (tw : Wrapper W)
    → internal_can_start_step tw w teardown ≡ check_run_step w teardown tw
unfolding internal_can_start_step check_run_step
can_run w tw = ground arith

module _ {W : Type 0} (k i : ℕ) (rest : List Instr) (s : System W)
    (v : Inv (launch k teardown i ∷ rest) s.wrappers s.go) where
  and_right : (a b : Bool) → a && b ≡ true → b ≡ true
  and_right a b h = ground arith

  is_late : v.era ≡ late
  is_late = late_only k v.era (ground (arith, v.era_safe))

  rest_late :
      (no_verify rest ≡ true) × ((st : Step) → step_eq st teardown ≡ false → occ i st rest ≡ 0)
  rest_late = late_program i rest (
      subst (λ e. safe e rest ≡ true) (ap (launch_era k teardown) is_late)
        (and_right (allowed (launch_era k teardown v.era)) _ v.era_safe))

  spent : occ i teardown rest + live i teardown s.go ≡ 0
  spent = ground (arith, v.once i teardown, ==_iff i i)

  go_late : (only_teardown i s.go ≡ true) × (pending i s.go ≡ false)
  go_late =
      late_goroutines i s.go (subst (λ e. all (fits e) s.go ≡ true) is_late v.bound)
        (omega (arith, spent))

  none_left : (st : Step) → occ i st rest ≡ 0
  none_left st = elim (Bool-cases (step_eq st teardown)) [
    | inl q ↦ ap (λ x. occ i x rest) ((step_eq_iff st teardown).0 q) ∙ omega (arith, spent)
    | inr q ↦ rest_late.1 st q
  ]

  -- No goroutine is started, and the task is down already.
  stays :
      (tw : Wrapper W)
      → is_down tw.execute_steps ≡ true
      → Settled i rest (update s.wrappers i tw) s.go
  stays tw d = record {
    unlaunched = none_left;
    passed_verify = rest_late.0;
    alone = go_late.0;
    down =
        ap (λ t. is_down t.execute_steps || pending i s.go) (update_self s.wrappers i tw)
        ∙ ground (arith, d);
    kept = λ p w. absurd (cc (p, go_late.1));
  }

  -- The teardown is started.
  goes :
      (tw : Wrapper W)
      → ((w : W) → check_run_step w teardown tw ≡ true)
      → Settled i rest
          (update s.wrappers i tw)
          (record { stage = k; step = teardown; tw = i; pc = spawned } ∷ s.go)
  goes tw has = record {
    unlaunched = none_left;
    passed_verify = rest_late.0;
    alone = ground (arith, go_late.0);
    down = ground (arith, ==_iff i i);
    kept = λ p w. ap (check_run_step w teardown) (update_self s.wrappers i tw) ∙ has w;
  }

  module _
      (static : (w w' : W)
        → check_run_step w teardown (s.wrappers i)
          ≡ check_run_step w' teardown (s.wrappers i)) where
    already :
        {p : Phase} {d : Verdict} {tw : Wrapper W}
        → IsLifecycle (s.wrappers i).execute_steps p
        → permits p teardown ≡ d
        → (d ≡ granted → ⊥)
        → tw ≡ s.wrappers i
        → is_down tw.execute_steps ≡ true
    already l h n e =
        ap (λ t. is_down t.execute_steps) e ∙ down_unless_granted l (λ q. n (sym h ∙ q))

    settles :
        (w : W) (p : Phase)
        → IsLifecycle (s.wrappers i).execute_steps p
        → (can : Bool) (d : Verdict) (ok : Bool) (err : Option Error) (tw : Wrapper W)
        → permits p teardown ≡ d
        → check_run_step w teardown (s.wrappers i) ≡ can
        → CheckSays can d teardown (s.wrappers i) tw (ok, err)
        → let t =
            after_check k teardown i
              (ok, err)
              (record s { todo = rest; wrappers = update s.wrappers i tw }) in
          Settled i t.todo t.wrappers t.go
    unfolding on_error internal_add_step_done
    settles w p l true granted true none tw h has c =
        goes tw (λ w'. ap (check_run_step w' teardown) c.2 ∙ (static w' w ∙ has))
    settles w p l false granted false none tw h has c = stays tw (
        ap (λ t. is_down t.execute_steps) c.2
        ∙ ground (arith, contains-snoc (s.wrappers i).execute_steps teardown))
    settles w p l can premature false none tw h has c =
        stays tw (already l h (λ q. absurd (cc q)) c.2)
    settles w p l can wrong_order false (some e) tw h has c =
        stays tw (already l h (λ q. absurd (cc q)) c.2)
    settles w p l can invalid false (some e) tw h has c =
        stays tw (already l h (λ q. absurd (cc q)) c.2)
    settles w p l can d ok err tw h has c = absurd (ground arith)

    -- The launch of the teardown of a task, in a run that keeps the invariant.
    pub do_launch-Settled :
        (w : W) → let t = do_launch w k teardown i rest s in Settled i t.todo t.wrappers t.go
    unfolding do_launch
    do_launch-Settled w =
        let (p, l, g) = v.alive i in
        let (answer, tw) = check_start_step w teardown (s.wrappers i) in
        settles w p l (check_run_step w teardown (s.wrappers i)) (permits p teardown) answer.0
          answer.1 tw refl refl
          (subst (λ can. CheckSays can (permits p teardown) teardown (s.wrappers i) tw answer)
            (can_run w (s.wrappers i)) (check_start_step-permits w teardown (s.wrappers i) l))
