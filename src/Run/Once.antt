-- ===== src/Run/Once.antt =====
-- Each step of each task is launched at most once.
use svcinit.Common.{
  ℕ, suc, ◌+◌, ◌≤◌, ◌≡◌, Bool, false, ◌&&◌, List, [], ◌∷◌, ◌++◌, arith, ◌==◌, if◌then◌else◌,
}
use svcinit.Step.{Step, setup, start, stop, teardown, other, step_eq}
use svcinit.Run.{Goroutine}
use svcinit.Run.Program.{
  Plan, Instr, launch, join, started, verify, await, join_running, launch_all, run_stage,
  start_program, reversed_stages, shutdown_program, run_program,
}

-- How often a pointer stands in a list, and in a plan.
abbrev pub count : ℕ → List ℕ → ℕ
count i [] = 0
count i (j ∷ js) = if j == i then suc (count i js) else count i js

abbrev pub pointers : ℕ → Plan → ℕ
pointers i [] = 0
pointers i ((k, is) ∷ plan) = count i is + pointers i plan

-- How often the program launches a step of a wrapper.
abbrev pub occ : ℕ → Step → List Instr → ℕ
occ i st [] = 0
occ i st (launch k s j ∷ rest) =
    if j == i && step_eq s st then suc (occ i st rest) else occ i st rest
occ i st (instr ∷ rest) = occ i st rest

-- How many goroutines there are for it.
abbrev pub live : ℕ → Step → List Goroutine → ℕ
live i st [] = 0
live i st (g ∷ go) = if g.tw == i && step_eq g.step st then suc (live i st go) else live i st go

pub live-append :
    (i : ℕ) (st : Step) (xs ys : List Goroutine)
    → live i st (xs ++ ys) ≡ live i st xs + live i st ys
live-append i st [] ys = omega arith
live-append i st (g ∷ go) ys = ground (arith, live-append i st go ys)

occ-launch_all :
    (i k : ℕ) (st s : Step) (is : List ℕ) (rest : List Instr)
    → occ i st (launch_all k s is rest) ≡ (if step_eq s st then count i is else 0) + occ i st rest
unfolding launch_all
occ-launch_all i k st s [] rest = ground arith
occ-launch_all i k st s (j ∷ js) rest = ground (arith, occ-launch_all i k st s js rest)

pub occ-run_stage :
    (i k : ℕ) (st s : Step) (is : List ℕ) (b : Bool) (rest : List Instr)
    → occ i st (run_stage k s is b rest) ≡ (if step_eq s st then count i is else 0) + occ i st rest
unfolding run_stage
occ-run_stage i k st start is b rest = occ-launch_all i k st start is (started k ∷ rest)
occ-run_stage i k st setup is b rest = occ-launch_all i k st setup is (join k setup b ∷ rest)
occ-run_stage i k st stop is b rest = occ-launch_all i k st stop is (join k stop b ∷ rest)
occ-run_stage i k st teardown is b rest =
    occ-launch_all i k st teardown is (join k teardown b ∷ rest)
occ-run_stage i k st (other n) is b rest =
    occ-launch_all i k st (other n) is (join k (other n) b ∷ rest)

pub occ-reversed_stages :
    (i : ℕ) (st s : Step) (b : Bool) (plan : Plan) (rest : List Instr)
    → occ i st (reversed_stages s b plan rest)
      ≡ (if step_eq s st then pointers i plan else 0) + occ i st rest
unfolding reversed_stages
occ-reversed_stages i st s b [] rest = ground arith
occ-reversed_stages i st s b ((k, is) ∷ plan) rest = ground (
  arith,
  occ-reversed_stages i st s b plan (run_stage k s is b rest),
  occ-run_stage i k st s is b rest,
)

pub occ-shutdown_program :
    (i : ℕ) (st : Step) (plan : Plan) (b : Bool)
    → occ i st (shutdown_program plan b)
      ≡ (if step_eq stop st then pointers i plan else 0)
        + (if step_eq teardown st then pointers i plan else 0)
unfolding shutdown_program
occ-shutdown_program i st plan b = omega (
  arith,
  occ-reversed_stages i st stop b plan (join_running b ∷ reversed_stages teardown false plan []),
  occ-reversed_stages i st teardown false plan [],
)

pub occ-start_program :
    (i : ℕ) (st : Step) (plan : Plan) (rest : List Instr)
    → occ i st (start_program plan rest)
      ≡ (if step_eq setup st then pointers i plan else 0)
        + (if step_eq start st then pointers i plan else 0)
        + occ i st rest
unfolding start_program
occ-start_program i st [] rest = ground arith
occ-start_program i st ((k, is) ∷ plan) rest =
    let after = start_program plan rest in
    ground (
      arith,
      occ-start_program i st plan rest,
      occ-run_stage i k st start is false after,
      occ-run_stage i k st setup is false (verify k ∷ run_stage k start is false after),
    )

-- Every step of every wrapper is launched at most as often as the wrapper stands in the plan.
pub occ-run_program :
    (i : ℕ) (st : Step) (plan : Plan) (b : Bool) → occ i st (run_program plan b) ≤ pointers i plan
unfolding run_program
occ-run_program i st plan b = ground (
  arith,
  occ-start_program i st plan (await ∷ shutdown_program plan b),
  occ-shutdown_program i st plan b,
)
