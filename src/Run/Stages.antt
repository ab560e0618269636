-- ===== src/Run/Stages.antt =====
-- run.go: in which order the loops of `start` and `shutdown` come to the tasks of different stages:
-- a check of the program alone, and that the programs of all plans pass it.
pub mod Programs
pub mod Before
pub mod Checked
pub mod Grows
pub mod InSetup
pub mod SetUp
pub mod Promise
pub mod Started
pub mod Ready
use svcinit.Common.{
  ℕ, ◌+◌, ◌≤◌, ◌≡◌, refl, ap, sym, ◌∙◌, subst, Bool, true, false, not, ◌&&◌, ◌||◌, List, [], ◌∷◌,
  ◌++◌, arith, ◌==◌, if◌then◌else◌,
}
use svcinit.Step.{Step, setup, start, stop, teardown, other, step_eq, step_eq_iff}
use svcinit.Run.Program.{
  Plan, Instr, launch, join, started, verify, await, join_running, launch_all, run_stage,
  start_program, reversed_stages, shutdown_program, run_program,
}
use svcinit.Run.Once.{count, pointers, occ}

abbrev is_wait : Instr → Bool
is_wait (join k s b) = true
is_wait (started k) = true
is_wait x = false

-- The program waits before it launches the step of wrapper i.
abbrev pub fenced : ℕ → Step → List Instr → Bool
fenced i st (launch k s x ∷ rest) = not (x == i && step_eq s st) && fenced i st rest
fenced i st (verify k ∷ rest) = fenced i st rest
fenced i st (await ∷ rest) = fenced i st rest
fenced i st (join_running b ∷ rest) = fenced i st rest
fenced i st rest = true

-- There is such a wait between the launches of j and of i, and j is not launched after i.
abbrev pub orderly : ℕ → ℕ → Step → List Instr → Bool
orderly j i st [] = true
orderly j i st (launch k s x ∷ rest) =
    ((not (x == j && step_eq s st) || fenced i st rest)
      && (not (x == i && step_eq s st) || (occ j st rest == 0)))
    && orderly j i st rest
orderly j i st (x ∷ rest) = orderly j i st rest

run_stage_shape :
    (k : ℕ) (s : Step) (is : List ℕ) (b : Bool) (rest : List Instr)
    → (x : Instr) × (is_wait x ≡ true) × (run_stage k s is b rest ≡ launch_all k s is (x ∷ rest))
unfolding run_stage
run_stage_shape k setup is b rest = (join k setup b, refl, refl)
run_stage_shape k start is b rest = (started k, refl, refl)
run_stage_shape k stop is b rest = (join k stop b, refl, refl)
run_stage_shape k teardown is b rest = (join k teardown b, refl, refl)
run_stage_shape k (other n) is b rest = (join k (other n) b, refl, refl)

pub start-append :
    (xs ys : Plan) (rest : List Instr)
    → start_program (xs ++ ys) rest ≡ start_program xs (start_program ys rest)
unfolding start_program
start-append [] ys rest = refl
start-append ((k, is) ∷ xs) ys rest =
    ap (λ r. run_stage k setup is false (verify k ∷ run_stage k start is false r))
      (start-append xs ys rest)

pub reversed-append :
    (s : Step) (b : Bool) (xs ys : Plan) (rest : List Instr)
    → reversed_stages s b (xs ++ ys) rest ≡ reversed_stages s b ys (reversed_stages s b xs rest)
unfolding reversed_stages
reversed-append s b [] ys rest = refl
reversed-append s b ((k, is) ∷ xs) ys rest = reversed-append s b xs ys (run_stage k s is b rest)

module _ (j i : ℕ) (st : Step) where
  -- Why a stage is in order: its launches are of another step, or the later task is not in it, or
  -- the earlier one is neither in it nor launched afterwards.
  pub data Apart (s : Step) (is : List ℕ) (rest : List Instr) : Type 0 where
    another_step : step_eq s st ≡ false → Apart s is rest
    without_later : count i is ≡ 0 → Apart s is rest
    without_earlier : count j is ≡ 0 → occ j st rest ≡ 0 → Apart s is rest

  launches_other :
      (k : ℕ) (s : Step) (is : List ℕ) (rest : List Instr)
      → step_eq s st ≡ false
      → orderly j i st rest ≡ true
      → orderly j i st (launch_all k s is rest) ≡ true
  unfolding launch_all
  launches_other k s [] rest n h = h
  launches_other k s (x ∷ is) rest n h = ground (arith, launches_other k s is rest n h)

  launches_earlier :
      (k : ℕ) (s : Step) (is : List ℕ) (rest : List Instr)
      → count i is ≡ 0
      → fenced i st rest ≡ true
      → orderly j i st rest ≡ true
      → (fenced i st (launch_all k s is rest) ≡ true)
        × (orderly j i st (launch_all k s is rest) ≡ true)
  unfolding launch_all
  launches_earlier k s [] rest n f h = (f, h)
  launches_earlier k s (x ∷ is) rest n f h =
      ground (arith, launches_earlier k s is rest (ground arith) f h)

  launches_later :
      (k : ℕ) (s : Step) (is : List ℕ) (rest : List Instr)
      → count j is ≡ 0
      → occ j st rest ≡ 0
      → orderly j i st rest ≡ true
      → (occ j st (launch_all k s is rest) ≡ 0) × (orderly j i st (launch_all k s is rest) ≡ true)
  unfolding launch_all
  launches_later k s [] rest n o h = (o, h)
  launches_later k s (x ∷ is) rest n o h =
      ground (arith, launches_later k s is rest (ground arith) o h)

  after_wait :
      (x : Instr) (rest : List Instr)
      → is_wait x ≡ true
      → (fenced i st (x ∷ rest) ≡ true)
        × (occ j st (x ∷ rest) ≡ occ j st rest)
        × (orderly j i st (x ∷ rest) ≡ orderly j i st rest)
  after_wait x rest n = ground arith

  pub orderly-run_stage :
      (k : ℕ) (s : Step) (is : List ℕ) (b : Bool) (rest : List Instr)
      → Apart s is rest
      → orderly j i st rest ≡ true
      → orderly j i st (run_stage k s is b rest) ≡ true
  orderly-run_stage k s is b rest a h =
      let (x, n, e) = run_stage_shape k s is b rest in
      let (f, o, same) = after_wait x rest n in rw e (by x f o (same ∙ h) a)
    where
      by :
          (x : Instr)
          → fenced i st (x ∷ rest) ≡ true
          → occ j st (x ∷ rest) ≡ occ j st rest
          → orderly j i st (x ∷ rest) ≡ true
          → Apart s is rest
          → orderly j i st (launch_all k s is (x ∷ rest)) ≡ true
      by x f o h (another_step n) = launches_other k s is (x ∷ rest) n h
      by x f o h (without_later n) = (launches_earlier k s is (x ∷ rest) n f h).1
      by x f o h (without_earlier n z) = (launches_later k s is (x ∷ rest) n (o ∙ z) h).1
