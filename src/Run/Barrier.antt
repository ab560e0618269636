-- ===== src/Run/Barrier.antt =====
-- run.go: the waits of `runStage`. Between two stages no goroutine is left but start steps that have
-- signalled.
pub mod Moves
pub mod Alone
use svcinit.Common.{
  ℕ, ◌≡◌, refl, ap, sym, ◌∙◌, subst, Bool, true, false, not, ◌&&◌, ◌||◌, List, [], ◌∷◌, ◌++◌, arith,
  all, all-append, any, ◌==◌, ==_iff,
}
use svcinit.Step.{Step, setup, start, stop, teardown, other, step_eq, step_eq_refl}
use svcinit.Run.{Goroutine, Pc, spawned, is_spawned, quiet, all_started}
use svcinit.Run.Program.{
  verify, await, join_running, Plan, Instr, launch, join, started, verify, await, join_running,
  launch_all, run_stage, start_program, reversed_stages, shutdown_program, run_program,
}

-- The next wait of the program is for these goroutines, and only such are launched before it.
abbrev pub closing : ℕ → Step → List Instr → Bool
closing k st (launch j s i ∷ rest) = (j == k && step_eq s st) && closing k st rest
closing k st (join j s b ∷ rest) = j == k && step_eq s st
closing k st (started j ∷ rest) = j == k && step_eq start st
closing k st rest = false

-- What is launched is waited for.
abbrev pub well_joined : List Instr → Bool
well_joined [] = true
well_joined (launch k st i ∷ rest) = closing k st rest && well_joined rest
well_joined (x ∷ rest) = well_joined rest

abbrev pub has_started : Goroutine → Bool
has_started g = step_eq g.step start && not (is_spawned g.pc)

abbrev pub calm : List Goroutine → Bool
calm = all has_started

abbrev pub covered : List Instr → List Goroutine → Bool
covered todo = all (λ g. has_started g || closing g.stage g.step todo)

closing-launch_all :
    (k : ℕ) (st : Step) (is : List ℕ) (rest : List Instr)
    → closing k st rest ≡ true
    → well_joined rest ≡ true
    → (closing k st (launch_all k st is rest) ≡ true)
      × (well_joined (launch_all k st is rest) ≡ true)
unfolding launch_all
closing-launch_all k st [] rest c h = (c, h)
closing-launch_all k st (i ∷ is) rest c h =
    let (d, w) = closing-launch_all k st is rest c h in
    (ground (arith, d, ==_iff k k, step_eq_refl st), ground (arith, d, w))

well_joined-run_stage :
    (k : ℕ) (st : Step) (is : List ℕ) (b : Bool) (rest : List Instr)
    → well_joined rest ≡ true
    → well_joined (run_stage k st is b rest) ≡ true
unfolding run_stage
well_joined-run_stage k setup is b rest h =
    (closing-launch_all k setup is _ (ground (arith, ==_iff k k)) h).1
well_joined-run_stage k start is b rest h =
    (closing-launch_all k start is _ (ground (arith, ==_iff k k)) h).1
well_joined-run_stage k stop is b rest h =
    (closing-launch_all k stop is _ (ground (arith, ==_iff k k)) h).1
well_joined-run_stage k teardown is b rest h =
    (closing-launch_all k teardown is _ (ground (arith, ==_iff k k)) h).1
well_joined-run_stage k (other n) is b rest h =
    (closing-launch_all k (other n) is _ (ground (arith, ==_iff k k, step_eq_refl (other n))) h).1

well_joined-reversed_stages :
    (st : Step) (b : Bool) (plan : Plan) (rest : List Instr)
    → well_joined rest ≡ true
    → well_joined (reversed_stages st b plan rest) ≡ true
unfolding reversed_stages
well_joined-reversed_stages st b [] rest h = h
well_joined-reversed_stages st b ((k, is) ∷ plan) rest h =
    well_joined-reversed_stages st b plan _ (well_joined-run_stage k st is b rest h)

pub well_joined-shutdown_program :
    (plan : Plan) (b : Bool) → well_joined (shutdown_program plan b) ≡ true
unfolding shutdown_program
well_joined-shutdown_program plan b =
    well_joined-reversed_stages stop b plan _
      (well_joined-reversed_stages teardown false plan [] refl)

well_joined-start_program :
    (plan : Plan) (rest : List Instr)
    → well_joined rest ≡ true
    → well_joined (start_program plan rest) ≡ true
unfolding start_program
well_joined-start_program [] rest h = h
well_joined-start_program ((k, is) ∷ plan) rest h =
    well_joined-run_stage k setup is false _
      (well_joined-run_stage k start is false _ (well_joined-start_program plan rest h))

pub well_joined-run_program : (plan : Plan) (b : Bool) → well_joined (run_program plan b) ≡ true
unfolding run_program
well_joined-run_program plan b =
    well_joined-start_program plan _ (well_joined-shutdown_program plan b)

-- What holds of all goroutines still does when one has moved on, or is gone.
pub all-replace :
    (p : Goroutine → Bool) (pre : List Goroutine) (g g' : Goroutine) (post : List Goroutine)
    → (p g ≡ true → p g' ≡ true)
    → all p (pre ++ g ∷ post) ≡ true
    → all p (pre ++ g' ∷ post) ≡ true
all-replace p pre g g' post f h =
    ground (arith, f, all-append p pre (g ∷ post), all-append p pre (g' ∷ post))

pub all-remove :
    (p : Goroutine → Bool) (pre : List Goroutine) (g : Goroutine) (post : List Goroutine)
    → all p (pre ++ g ∷ post) ≡ true
    → all p (pre ++ post) ≡ true
all-remove p pre g post h = ground (arith, all-append p pre (g ∷ post), all-append p pre post)

==_sym : (a b : ℕ) → (a == b) ≡ (b == a)
==_sym a b = ground arith

step_eq_sym : (a b : Step) → step_eq a b ≡ step_eq b a
step_eq_sym a b = ground arith

-- At the wait for a stage nothing but its goroutines is left.
pub join-calm :
    (k : ℕ) (st : Step) (b : Bool) (rest : List Instr) (go : List Goroutine)
    → any (λ g. g.stage == k && step_eq g.step st) go ≡ false
    → covered (join k st b ∷ rest) go ≡ true
    → calm go ≡ true
join-calm k st b rest [] q h = refl
join-calm k st b rest (g ∷ go) q h =
    ground (arith, join-calm k st b rest go, ==_sym k g.stage, step_eq_sym st g.step)

pub started-calm :
    (k : ℕ) (rest : List Instr) (go : List Goroutine)
    → all_started k go ≡ true
    → covered (started k ∷ rest) go ≡ true
    → calm go ≡ true
unfolding all_started
started-calm k rest [] q h = refl
started-calm k rest (g ∷ go) q h =
    ground (arith, started-calm k rest go, ==_sym k g.stage, step_eq_sym start g.step)

-- Where the program waits for no goroutine and launches none.
abbrev pub is_open : Instr → Bool
is_open (verify k) = true
is_open await = true
is_open (join_running b) = true
is_open x = false

pub open-calm :
    (x : Instr) (rest : List Instr) (go : List Goroutine)
    → is_open x ≡ true
    → covered (x ∷ rest) go ≡ true
    → calm go ≡ true
open-calm x rest [] n h = refl
open-calm x rest (g ∷ go) n h = ground (arith, open-calm x rest go n)

pub calm-covered :
    (todo : List Instr) (go : List Goroutine) → calm go ≡ true → covered todo go ≡ true
calm-covered todo [] h = refl
calm-covered todo (g ∷ go) h = ground (arith, calm-covered todo go)

pub launched-covered :
    (k : ℕ) (st : Step) (i : ℕ) (rest : List Instr) (go : List Goroutine)
    → covered (launch k st i ∷ rest) go ≡ true
    → covered rest go ≡ true
launched-covered k st i rest [] h = refl
launched-covered k st i rest (g ∷ go) h = ground (arith, launched-covered k st i rest go)
