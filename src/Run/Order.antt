-- ===== src/Run/Order.antt =====
-- Under every interleaving of the goroutines, each task does its steps in order.
use svcinit.Common.{
  ℕ, ◌+◌, ◌≤◌, ◌≡◌, refl, ap, subst, Bool, true, false, not, ◌&&◌, List, [], ◌∷◌, ◌++◌, arith, all,
}
use svcinit.Step.{Step, stop, teardown, step_eq_iff}
use svcinit.Wrapper.{Wrapper}
use svcinit.Wrapper.Phase.{Phase, fresh, IsLifecycle, at_fresh}
use svcinit.Manager.{Startup}
use svcinit.Run.{
  Goroutine, signalled, reported, System, Next, launches, joins, joins_late, passes, verifies,
  fails, awaits, joins_running, joins_running_late, cancels, expires, signals, begins, skips,
  reports, ends, Reach, begin, and_next, quiet, none_running, end_step,
}
use svcinit.Run.Program.{
  Plan, Instr, join, started, verify, await, join_running, shutdown_program, run_program,
}
use svcinit.Run.Era.{
  Era, early, safe, join_era, running_era, run_program-safe, shutdown_program-safe, is_early,
}
use svcinit.Run.Waits.{gives_up, late_absurd, Reach-gives_up, enforce-before}
use svcinit.Run.Once.{pointers, occ, live, occ-run_program, occ-shutdown_program}
use svcinit.Run.Invariant.{fits, unrecorded, Inv, fits-join, fits-running}
use svcinit.Run.Launch.{do_launch-Inv, on_error-Inv}
use svcinit.Run.Goroutines.{move-Inv, remove-Inv, begin-Inv, end-Inv}

-- Each task of the manager has a wrapper of its own.
abbrev pub Unique : Plan → Type 0
Unique plan = (i : ℕ) → pointers i plan ≤ 1

-- In the early era no stop or teardown goroutine is left.
early_live :
    (i : ℕ) (go : List Goroutine)
    → all (fits early) go ≡ true
    → (live i stop go ≡ 0) × (live i teardown go ≡ 0)
early_live i [] b = (refl, refl)
early_live i (g ∷ go) b = ground (arith, early_live i go)

is_early→ : (e : Era) → is_early e ≡ true → e ≡ early
is_early→ e h = ground arith

and_true : (a b : Bool) → a && b ≡ true → (a ≡ true) × (b ≡ true)
and_true a b h = ground arith

not-true : (b : Bool) → not b ≡ true → b ≡ false
not-true b h = ground arith

-- What a failed setup leaves to do is launched at most once too.
shutdown_once :
    (plan : Plan) (enforce : Bool) (k : ℕ) (rest : List Instr) (go : List Goroutine) (i : ℕ)
    (st : Step)
    → pointers i plan ≤ 1
    → all (fits early) go ≡ true
    → occ i st (verify k ∷ rest) + live i st go ≤ 1
    → occ i st (await ∷ shutdown_program plan enforce) + live i st go ≤ 1
shutdown_once plan enforce k rest go i st u b o = ground (
  arith,
  occ-shutdown_program i st plan enforce,
  early_live i go b,
  step_eq_iff stop st,
  step_eq_iff teardown st,
)

module _ {W : Type 0} where
  -- An instruction that is no launch is done.
  advance-Inv :
      (instr : Instr) (rest : List Instr) (f : ℕ → Wrapper W) (go : List Goroutine) (e : Era)
      (v : Inv (instr ∷ rest) f go)
      → safe e rest ≡ true
      → all (fits e) go ≡ true
      → ((i : ℕ) (st : Step) → occ i st (instr ∷ rest) ≡ occ i st rest)
      → Inv rest f go
  advance-Inv instr rest f go e v s b o = record {
    era = e;
    era_safe = s;
    bound = b;
    once = λ i st. omega (arith, v.once i st, o i st);
    alive = v.alive;
  }

  module _ (plan : Plan) (enforce : Bool) (unique : Unique plan) where
    fail-Inv :
        (k : ℕ) (rest : List Instr) (f : ℕ → Wrapper W) (go : List Goroutine)
        → Inv (verify k ∷ rest) f go
        → Inv (await ∷ shutdown_program plan enforce) f go
    fail-Inv k rest f go v =
        let is = is_early→ v.era (and_true (is_early v.era) (safe v.era rest) v.era_safe).0 in
        let b = subst (λ e. all (fits e) go ≡ true) is v.bound in
        record {
          era = early;
          era_safe = shutdown_program-safe plan enforce;
          bound = b;
          once = λ i st. shutdown_once plan enforce k rest go i st (unique i) b (v.once i st);
          alive = v.alive;
        }

    join-Inv :
        (k : ℕ) (st : Step) (b : Bool) (rest : List Instr) (f : ℕ → Wrapper W) (go : List Goroutine)
        → quiet k st go ≡ true
        → Inv (join k st b ∷ rest) f go
        → Inv rest f go
    unfolding quiet
    join-Inv k st b rest f go q v =
        advance-Inv (join k st b) rest f go (join_era k st v.era) v v.era_safe
          (fits-join v.era k st go (not-true _ q) v.bound) (λ i t. refl)

    join_running-Inv :
        (b : Bool) (rest : List Instr) (f : ℕ → Wrapper W) (go : List Goroutine)
        → none_running go ≡ true
        → Inv (join_running b ∷ rest) f go
        → Inv rest f go
    unfolding none_running
    join_running-Inv b rest f go q v =
        advance-Inv (join_running b) rest f go (running_era v.era) v v.era_safe
          (fits-running v.era go (not-true _ q) v.bound) (λ i t. refl)

    -- The invariant at an equal list of instructions or of goroutines.
    abbrev at_todo :
        (s : System W) {todo : List Instr}
        → s.todo ≡ todo
        → Inv s.todo s.wrappers s.go
        → Inv todo s.wrappers s.go
    at_todo s e v = subst (λ t. Inv t s.wrappers s.go) e v

    abbrev at_go :
        (s : System W) {go : List Goroutine}
        → s.go ≡ go
        → Inv s.todo s.wrappers s.go
        → Inv s.todo s.wrappers go
    at_go s e v = subst (λ t. Inv s.todo s.wrappers t) e v

    next-Inv :
        (s : System W) {t : System W}
        → Next plan enforce s t
        → gives_up s ≡ false
        → Inv s.todo s.wrappers s.go
        → Inv t.todo t.wrappers t.go
    next-Inv s (launches {k = k} {i = i} {st = st} {rest = rest} e w) h v =
        do_launch-Inv k st i rest s (at_todo s e v) w
    next-Inv s (joins {k = k} {st = st} {b = b} {rest = rest} e q) h v =
        join-Inv k st b rest s.wrappers s.go q (at_todo s e v)
    next-Inv s (joins_late {k = k} {st = st} {rest = rest} e x) h v =
        absurd (late_absurd s.todo _ rest s.expired e refl x h)
    next-Inv s (passes {k = k} {rest = rest} e q) h v =
        let u = at_todo s e v in
        advance-Inv (started k) rest s.wrappers s.go u.era u u.era_safe u.bound (λ i t. refl)
    next-Inv s (verifies {k = k} {rest = rest} e q) h v =
        let u = at_todo s e v in
        advance-Inv (verify k) rest s.wrappers s.go u.era u
          (and_true (is_early u.era) _ u.era_safe).1 u.bound (λ i t. refl)
    next-Inv s (fails {k = k} {rest = rest} e q) h v =
        fail-Inv k rest s.wrappers s.go (at_todo s e v)
    next-Inv s (awaits {rest = rest} e q) h v =
        let u = at_todo s e v in
        advance-Inv await rest s.wrappers s.go u.era u (and_true (is_early u.era) _ u.era_safe).1
          u.bound (λ i t. refl)
    next-Inv s (joins_running {b = b} {rest = rest} e q) h v =
        join_running-Inv b rest s.wrappers s.go q (at_todo s e v)
    next-Inv s (joins_running_late {rest = rest} e x) h v =
        absurd (late_absurd s.todo _ rest s.expired e refl x h)
    next-Inv s (cancels e) h v = v
    next-Inv s expires h v = v
    next-Inv s (signals pre g post e q) h v =
        move-Inv s.todo s.wrappers pre g post (at_go s e v) signalled
          (λ un. ap (unrecorded g.step) q)
    next-Inv s (begins pre g post w e q c) h v =
        begin-Inv s.todo s.wrappers pre g post (at_go s e v) q
    next-Inv s (skips pre g post w e q c) h v =
        remove-Inv s.todo s.wrappers pre g post (at_go s e v)
    next-Inv s (reports pre g post err e q) h v =
        on_error-Inv g.step err
          (record s {
            go = pre ++ record g { pc = reported } ∷ post;
            wrappers = end_step g.step g.tw err s.wrappers;
          })
          (end-Inv s.todo s.wrappers pre g post (at_go s e v) err q)
    next-Inv s (ends pre g post e q) h v = remove-Inv s.todo s.wrappers pre g post (at_go s e v)

    module _ (wrappers : ℕ → Wrapper W) (startup : Startup)
        (new : (i : ℕ) → (wrappers i).execute_steps ≡ []) where
      initial-Inv : Inv (run_program plan enforce) wrappers []
      initial-Inv = record {
        era = early;
        era_safe = run_program-safe plan enforce;
        bound = refl;
        once = λ i st. omega (arith, occ-run_program i st plan enforce, unique i);
        alive = λ i. (fresh, rw (new i) at_fresh, tt);
      }

      pub reach-Inv :
          {s : System W}
          → Reach plan enforce wrappers startup s
          → enforce && s.expired ≡ false
          → Inv s.todo s.wrappers s.go
      reach-Inv begin h = initial-Inv
      reach-Inv (and_next {s = s} r n) h =
          let k = enforce-before plan wrappers startup enforce n h in
          next-Inv s n (Reach-gives_up plan wrappers startup enforce r k) (reach-Inv r k)

      -- In every reachable state of a run, where the plan has each wrapper at most once and the
      -- wrappers are new, and where the waits are not cut short by a timeout or that timeout has
      -- not passed yet, every task has done its steps in order and none twice: the steps done are
      -- one of the seven lists of the state machine, under every interleaving of the goroutines and
      -- whatever tasks return.
      pub Reach-IsLifecycle :
          {s : System W}
          → Reach plan enforce wrappers startup s
          → enforce && s.expired ≡ false
          → (i : ℕ) → (p : Phase) × IsLifecycle (s.wrappers i).execute_steps p
      Reach-IsLifecycle r h i = let (p, l, g) = (reach-Inv r h).alive i in (p, l)

      -- In every reachable state of a run whose plan has each wrapper at most once, whose wrappers
      -- are new, and whose shutdown waits are not cut short by a timeout, or whose timeout has not
      -- passed, the launches of a step of a task that are still to come and the goroutines that are
      -- in it are at most one together.
      pub Reach-at_most_once :
          {s : System W}
          → Reach plan enforce wrappers startup s
          → enforce && s.expired ≡ false
          → (i : ℕ) (st : Step) → occ i st s.todo + live i st s.go ≤ 1
      Reach-at_most_once r h = (reach-Inv r h).once
