-- ===== src/Run/Measure.antt =====
-- The run's own steps are bounded: each brings it nearer to its end.
use svcinit.Common.{
  ℕ, suc, ◌+◌, ◌≤◌, ◌<◌, ◌≡◌, refl, ap, Bool, true, false, Option, none, some, List, [], ◌∷◌, ◌++◌,
  arith,
}
use svcinit.Errors.{Error, fatal}
use svcinit.Step.{Step, setup, start, stop, teardown, other}
use svcinit.Run.{
  Goroutine, Pc, spawned, signalled, begun, reported, System, Next, launches, joins, joins_late,
  passes, verifies, fails, awaits, joins_running, joins_running_late, cancels, expires, signals,
  begins, skips, reports, ends, on_error, do_launch, after_check, end_step,
}
use svcinit.Run.Program.{
  Plan, Instr, launch, verify, await, launch_all, run_stage, reversed_stages, shutdown_program,
}
use svcinit.Run.Untouched.{on_error_same}

-- The steps that a goroutine still takes, and those that an instruction stands for. `c` is the cost
-- of a shutdown, to which the test of the setup errors may jump.
abbrev pub steps_left : Pc → ℕ
steps_left spawned = 4
steps_left signalled = 3
steps_left begun = 2
steps_left reported = 1

abbrev pub load : List Goroutine → ℕ
load [] = 0
load (g ∷ go) = steps_left g.pc + load go

abbrev instr_cost : ℕ → Instr → ℕ
instr_cost c (launch k st i) = 5
instr_cost c (verify k) = suc c
instr_cost c instr = 1

abbrev pub cost : ℕ → List Instr → ℕ
cost c [] = 0
cost c (x ∷ xs) = instr_cost c x + cost c xs

instr_cost-pos : (c : ℕ) (x : Instr) → 0 < instr_cost c x
instr_cost-pos c x = ground arith

load-append : (xs ys : List Goroutine) → load (xs ++ ys) ≡ load xs + load ys
load-append [] ys = omega arith
load-append (g ∷ xs) ys = omega (arith, load-append xs ys)

-- A goroutine that goes on, and one that is gone.
moved-load :
    (pre : List Goroutine) (g : Goroutine) (post go : List Goroutine) (pc : Pc)
    → go ≡ pre ++ g ∷ post
    → steps_left pc < steps_left g.pc
    → load (pre ++ record g { pc = pc } ∷ post) < load go
moved-load pre g post go pc q h =
    omega (
      arith,
      h,
      ap load q,
      load-append pre (g ∷ post),
      load-append pre (record g { pc = pc } ∷ post),
    )

some_left : (pc : Pc) → 0 < steps_left pc
some_left pc = ground arith

gone-load :
    (pre : List Goroutine) (g : Goroutine) (post go : List Goroutine)
    → go ≡ pre ++ g ∷ post
    → load (pre ++ post) < load go
gone-load pre g post go q =
    omega (arith, some_left g.pc, ap load q, load-append pre (g ∷ post), load-append pre post)

-- The cost of a shutdown does not depend on `c`.
cost-launch_all :
    (c d k : ℕ) (st : Step) (is : List ℕ) (xs : List Instr)
    → cost c xs ≡ cost d xs
    → cost c (launch_all k st is xs) ≡ cost d (launch_all k st is xs)
unfolding launch_all
cost-launch_all c d k st [] xs h = h
cost-launch_all c d k st (i ∷ is) xs h = omega (arith, cost-launch_all c d k st is xs h)

cost-run_stage :
    (c d k : ℕ) (st : Step) (is : List ℕ) (b : Bool) (xs : List Instr)
    → cost c xs ≡ cost d xs
    → cost c (run_stage k st is b xs) ≡ cost d (run_stage k st is b xs)
unfolding run_stage
cost-run_stage c d k setup is b xs h = cost-launch_all c d k setup is _ (omega (arith, h))
cost-run_stage c d k start is b xs h = cost-launch_all c d k start is _ (omega (arith, h))
cost-run_stage c d k stop is b xs h = cost-launch_all c d k stop is _ (omega (arith, h))
cost-run_stage c d k teardown is b xs h = cost-launch_all c d k teardown is _ (omega (arith, h))
cost-run_stage c d k (other n) is b xs h = cost-launch_all c d k (other n) is _ (omega (arith, h))

cost-reversed_stages :
    (c d : ℕ) (st : Step) (b : Bool) (plan : Plan) (xs : List Instr)
    → cost c xs ≡ cost d xs
    → cost c (reversed_stages st b plan xs) ≡ cost d (reversed_stages st b plan xs)
unfolding reversed_stages
cost-reversed_stages c d st b [] xs h = h
cost-reversed_stages c d st b ((k, is) ∷ plan) xs h =
    cost-reversed_stages c d st b plan _ (cost-run_stage c d k st is b xs h)

cost-shutdown_program :
    (c d : ℕ) (plan : Plan) (b : Bool)
    → cost c (shutdown_program plan b) ≡ cost d (shutdown_program plan b)
unfolding shutdown_program
cost-shutdown_program c d plan b =
    cost-reversed_stages c d stop b plan _
      (omega (arith, cost-reversed_stages c d teardown false plan [] refl))

abbrev pub shutdown_cost : Plan → Bool → ℕ
shutdown_cost plan enforce = cost 0 (await ∷ shutdown_program plan enforce)

module _ {W : Type 0} where
  on_error_go :
      (st : Step) (e : Option Error) (s : System W) → load (on_error st e s).go ≡ load s.go
  on_error_go st e s = ap load (on_error_same st e s).1

  after_check-load :
      (k : ℕ) (st : Step) (i : ℕ) (a : Bool × Option Error) (s : System W)
      → ((after_check k st i a s).todo ≡ s.todo)
        × (load (after_check k st i a s).go ≤ 4 + load s.go)
  after_check-load k st i (ok, some e) s =
      ((on_error_same st (some (fatal e)) s).2, omega (arith, on_error_go st (some (fatal e)) s))
  after_check-load k st i (true, none) s = (refl, omega arith)
  after_check-load k st i (false, none) s = (refl, omega arith)

  do_launch-load :
      (w : W) (k : ℕ) (st : Step) (i : ℕ) (rest : List Instr) (s : System W)
      → ((do_launch w k st i rest s).todo ≡ rest)
        × (load (do_launch w k st i rest s).go ≤ 4 + load s.go)
  unfolding do_launch
  do_launch-load w k st i rest s = after_check-load k st i _ _

  module _ (plan : Plan) (enforce : Bool) where
    abbrev pub measure : System W → ℕ
    measure s = cost (shutdown_cost plan enforce) s.todo + load s.go

    -- A step of the run's own: not a request to stop from outside, and not a timeout.
    abbrev pub is_own : {s t : System W} → Next plan enforce s t → Bool
    is_own (cancels e) = false
    is_own expires = false
    is_own n = true

    tail_measure :
        (s : System W) (x : Instr) (xs : List Instr)
        → s.todo ≡ x ∷ xs
        → measure (record s { todo = xs }) < measure s
    tail_measure s x xs q = omega (
      arith,
      ap (cost (shutdown_cost plan enforce)) q,
      instr_cost-pos (shutdown_cost plan enforce) x,
    )

    -- Each step of its own brings the run nearer to its end.
    pub Next-measure :
        (s : System W) {t : System W} (n : Next plan enforce s t)
        → is_own n ≡ true
        → measure t < measure s
    Next-measure s (launches {k = k} {i = i} {st = st} {rest = rest} q w) o = omega (
      arith,
      ap (cost (shutdown_cost plan enforce)) q,
      do_launch-load w k st i rest s,
      ap (cost (shutdown_cost plan enforce)) (do_launch-load w k st i rest s).0,
    )
    Next-measure s (joins {rest = rest} q r) o = tail_measure s _ rest q
    Next-measure s (joins_late {rest = rest} q r) o = tail_measure s _ rest q
    Next-measure s (passes {rest = rest} q r) o = tail_measure s _ rest q
    Next-measure s (verifies {rest = rest} q r) o = tail_measure s _ rest q
    Next-measure s (fails {rest = rest} q r) o = omega (
      arith,
      ap (cost (shutdown_cost plan enforce)) q,
      cost-shutdown_program (shutdown_cost plan enforce) 0 plan enforce,
    )
    Next-measure s (awaits {rest = rest} q r) o = tail_measure s _ rest q
    Next-measure s (joins_running {rest = rest} q r) o = tail_measure s _ rest q
    Next-measure s (joins_running_late {rest = rest} q r) o = tail_measure s _ rest q
    Next-measure s (cancels e) o = absurd (cc)
    Next-measure s expires o = absurd (cc)
    Next-measure s (signals pre g post q r) o =
        omega (arith, moved-load pre g post s.go signalled q (omega (arith, ap steps_left r)))
    Next-measure s (begins pre g post w q r c) o =
        omega (arith, moved-load pre g post s.go begun q (omega (arith, ap steps_left r)))
    Next-measure s (skips pre g post w q r c) o = omega (arith, gone-load pre g post s.go q)
    Next-measure s (reports pre g post err q r) o =
        let s' = record s {
          go = pre ++ record g { pc = reported } ∷ post;
          wrappers = end_step g.step g.tw err s.wrappers;
        } in
        omega (
          arith,
          ap (cost (shutdown_cost plan enforce)) (on_error_same g.step err s').2,
          on_error_go g.step err s',
          moved-load pre g post s.go reported q (omega (arith, ap steps_left r)),
        )
    Next-measure s (ends pre g post q r) o = omega (arith, gone-load pre g post s.go q)

    abbrev pub Own : System W → System W → Type 0
    Own s t = (n : Next plan enforce s t) × (is_own n ≡ true)

    -- Some number of its own steps.
    pub data OwnSteps (s : System W) : ℕ → System W → Type 0 where
      none_taken : OwnSteps s 0 s
      and_own : {n : ℕ} {t u : System W} → OwnSteps s n t → Own t u → OwnSteps s (suc n) u

    -- The steps that a run takes by itself, that is all but a call of Shutdown, the end of the
    -- caller's context and the passing of the shutdown timeout, are bounded from any state on:
    -- their number is at most the state's measure.
    pub OwnSteps-bounded :
        {s : System W} {n : ℕ} {t : System W} → OwnSteps s n t → n + measure t ≤ measure s
    OwnSteps-bounded none_taken = omega arith
    OwnSteps-bounded (and_own {t = t} o (n, own)) =
        omega (arith, OwnSteps-bounded o, Next-measure t n own)
