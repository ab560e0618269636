-- ===== src/Run/Down/Static.antt =====
-- No step of a run replaces the task in a wrapper.
use svcinit.Common.{
  ℕ, ◌≡◌, refl, ap, sym, ◌∙◌, Bool, true, false, not, ◌&&◌, List, arith, ◌==◌, ==_iff,
  if◌then◌else◌, Bool-cases, inl, inr, is_some,
}
use svcinit.Step.{Step, setup, step_eq}
use svcinit.Wrapper.{Wrapper, check_start_step, internal_add_step_done}
use svcinit.Manager.{Startup}
use svcinit.Run.{
  Reach, begin, and_next, System, Next, launches, joins, joins_late, passes, verifies, fails,
  awaits, joins_running, joins_running_late, cancels, expires, signals, begins, skips, reports,
  ends, do_launch, update, record_step, begin_step, end_step,
}
use svcinit.Run.Program.{Plan, Instr}
use svcinit.Run.Untouched.{on_error_same, after_check_same}

module _ {W : Type 0} where
  update-task :
      (f : ℕ → Wrapper W) (j i : ℕ) (tw : Wrapper W)
      → tw.task ≡ (f j).task
      → (update f j tw i).task ≡ (f i).task
  update-task f j i tw h = elim (Bool-cases (i == j)) [
    | inl q ↦
        ap (λ b. (if b then tw else f i).task) q
        ∙ (h ∙ ap (λ n. (f n).task) (sym ((==_iff i j).0 q)))
    | inr q ↦ ap (λ b. (if b then tw else f i).task) q
  ]

  check_start_step-task :
      (w : W) (st : Step) (tw : Wrapper W) → (check_start_step w st tw).1.task ≡ tw.task
  unfolding check_start_step
  check_start_step-task w st tw = ground arith

  do_launch-task :
      (w : W) (k : ℕ) (st : Step) (j : ℕ) (rest : List Instr) (s : System W) (i : ℕ)
      → ((do_launch w k st j rest s).wrappers i).task ≡ (s.wrappers i).task
  unfolding do_launch
  do_launch-task w k st j rest s i =
      let (answer, tw) = check_start_step w st (s.wrappers j) in
      let s' = record s { todo = rest; wrappers = update s.wrappers j tw } in
      ap (λ f. (f i).task) (after_check_same k st j answer s').0
      ∙ update-task s.wrappers j i tw (check_start_step-task w st (s.wrappers j))

  recorded-task :
      (b : Bool) (st : Step) (j : ℕ) (f : ℕ → Wrapper W) (i : ℕ)
      → ((if b then record_step st j f else f) i).task ≡ (f i).task
  unfolding internal_add_step_done
  recorded-task true st j f i = update-task f j i _ refl
  recorded-task false st j f i = refl

  Next-task :
      {plan : Plan} {enforce : Bool} (s : System W) {t : System W} (i : ℕ)
      → Next plan enforce s t
      → (t.wrappers i).task ≡ (s.wrappers i).task
  unfolding begin_step end_step
  Next-task s i (launches {k = k} {i = j} {st = st} {rest = rest} q w) =
      do_launch-task w k st j rest s i
  Next-task s i (begins pre g post w q r c) =
      recorded-task (not (step_eq g.step setup)) g.step g.tw s.wrappers i
  Next-task s i (reports pre g post err q r) =
      ap (λ f. (f i).task) (on_error_same g.step err _).0
      ∙ recorded-task (step_eq g.step setup && not (is_some err)) g.step g.tw s.wrappers i
  Next-task s i (joins q r) = refl
  Next-task s i (joins_late q r) = refl
  Next-task s i (passes q r) = refl
  Next-task s i (verifies q r) = refl
  Next-task s i (fails q r) = refl
  Next-task s i (awaits q r) = refl
  Next-task s i (joins_running q r) = refl
  Next-task s i (joins_running_late q r) = refl
  Next-task s i (cancels e) = refl
  Next-task s i expires = refl
  Next-task s i (signals pre g post q r) = refl
  Next-task s i (skips pre g post w q r c) = refl
  Next-task s i (ends pre g post q r) = refl

  -- A wrapper keeps its task.
  pub Reach-task :
      {plan : Plan} {enforce : Bool} {wrappers : ℕ → Wrapper W} {startup : Startup} (i : ℕ)
      {s : System W}
      → Reach plan enforce wrappers startup s
      → (s.wrappers i).task ≡ (wrappers i).task
  Reach-task i begin = refl
  Reach-task i (and_next {s = s} r n) = Next-task s i n ∙ Reach-task i r
