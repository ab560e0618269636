-- ===== src/Run/Down/Others.antt =====
-- What leaves a settled task settled: instructions, and the wrappers and goroutines of other tasks.
use svcinit.Common.{
  ℕ, ◌≡◌, ◌≢◌, refl, ap, sym, ◌∙◌, Bool, true, false, ◌||◌, Option, none, some, List, ◌∷◌, arith,
  ◌==◌, ==_iff, if◌then◌else◌,
}
use svcinit.Errors.{Error, fatal}
use svcinit.Step.{Step, setup, start, stop, teardown, other, step_eq_refl}
use svcinit.Wrapper.{Wrapper, check_start_step, check_run_step}
use svcinit.Run.{Goroutine, System, on_error, do_launch, after_check, update, record_step}
use svcinit.Run.Program.{Instr, launch}
use svcinit.Run.Once.{occ}
use svcinit.Run.Launch.{update_other}
use svcinit.Run.Down.{Settled, is_down, pending, no_verify}

occ-tail :
    (i : ℕ) (st : Step) (x : Instr) (rest : List Instr)
    → occ i st (x ∷ rest) ≡ 0
    → occ i st rest ≡ 0
occ-tail i st x rest h = ground arith

no_verify-tail :
    (x : Instr) (rest : List Instr) → no_verify (x ∷ rest) ≡ true → no_verify rest ≡ true
no_verify-tail x rest h = ground arith

differs : (i j : ℕ) → j == i ≡ false → i ≢ j
differs i j o p = cc (o, (==_iff j i).1 (sym p))

pub launched_away :
    (i k j : ℕ) (st : Step) (rest : List Instr)
    → occ i st (launch k st j ∷ rest) ≡ 0
    → j == i ≡ false
launched_away i k j st rest h = ground (arith, step_eq_refl st)

module _ {W : Type 0} where
  pub tail-Settled :
      (i : ℕ) {todo : List Instr} (x : Instr) (rest : List Instr) {f : ℕ → Wrapper W}
      {go : List Goroutine}
      → todo ≡ x ∷ rest
      → Settled i todo f go
      → Settled i rest f go
  tail-Settled i x rest q v = record {
    unlaunched = λ st. occ-tail i st x rest (sym (ap (occ i st) q) ∙ v.unlaunched st);
    passed_verify = no_verify-tail x rest (sym (ap no_verify q) ∙ v.passed_verify);
    alone = v.alone;
    down = v.down;
    kept = v.kept;
  }

  -- What becomes of other tasks' wrappers does not matter.
  pub wrapper-Settled :
      (i : ℕ) {todo : List Instr} {f h : ℕ → Wrapper W} {go : List Goroutine}
      → h i ≡ f i
      → Settled i todo f go
      → Settled i todo h go
  wrapper-Settled i {go = go} e v = record {
    unlaunched = v.unlaunched;
    passed_verify = v.passed_verify;
    alone = v.alone;
    down = ap (λ tw. is_down tw.execute_steps || pending i go) e ∙ v.down;
    kept = λ p w. ap (check_run_step w teardown) e ∙ v.kept p w;
  }

  -- Nor does another task's goroutine.
  pub cons-Settled :
      (i : ℕ) {todo : List Instr} {f : ℕ → Wrapper W} {go : List Goroutine} (g : Goroutine)
      → g.tw == i ≡ false
      → Settled i todo f go
      → Settled i todo f (g ∷ go)
  cons-Settled i g o v = record {
    unlaunched = v.unlaunched;
    passed_verify = v.passed_verify;
    alone = ground (arith, o, v.alone);
    down = ground (arith, o, v.down);
    kept = λ p w. v.kept (ground (arith, p, o)) w;
  }

  abbrev pub SettledIn : ℕ → System W → Type 0
  SettledIn i s = Settled i s.todo s.wrappers s.go

  pub on_error-Settled :
      (i : ℕ) (st : Step) (err : Option Error) (s : System W)
      → SettledIn i s
      → SettledIn i (on_error st err s)
  unfolding on_error
  on_error-Settled i setup none s v = v
  on_error-Settled i setup (some e) s v = v
  on_error-Settled i start none s v = v
  on_error-Settled i start (some e) s v = v
  on_error-Settled i stop err s v = v
  on_error-Settled i teardown err s v = v
  on_error-Settled i (other n) err s v = v

  after_check-Settled :
      (i k : ℕ) (st : Step) (j : ℕ) (a : Bool × Option Error) (s : System W)
      → j == i ≡ false
      → SettledIn i s
      → SettledIn i (after_check k st j a s)
  after_check-Settled i k st j (ok, some e) s o v = on_error-Settled i st (some (fatal e)) s v
  after_check-Settled i k st j (true, none) s o v = cons-Settled i _ o v
  after_check-Settled i k st j (false, none) s o v = v

  -- The launch of another task's step.
  pub launch-Settled :
      (i k j : ℕ) (st : Step) (rest : List Instr) (w : W) (s : System W)
      → s.todo ≡ launch k st j ∷ rest
      → j == i ≡ false
      → SettledIn i s
      → SettledIn i (do_launch w k st j rest s)
  unfolding do_launch
  launch-Settled i k j st rest w s q o v =
      let (answer, tw) = check_start_step w st (s.wrappers j) in
      let s' = record s { todo = rest; wrappers = update s.wrappers j tw } in
      after_check-Settled i k st j answer s' o (
        wrapper-Settled i (update_other s.wrappers j tw i (differs i j o))
          (tail-Settled i (launch k st j) rest q v))

  pub record_if :
      (b : Bool) (i j : ℕ) (st : Step) (f : ℕ → Wrapper W)
      → j == i ≡ false
      → (if b then record_step st j f else f) i ≡ f i
  record_if true i j st f o = update_other f j _ i (differs i j o)
  record_if false i j st f o = refl
