-- ===== src/Run/Stages/Checked.antt =====
-- run.go: `start` tests the setup errors of a stage before it goes on to the next one: a check of
-- the program alone.
use svcinit.Common.{ℕ, ◌≡◌, refl, Bool, true, not, ◌&&◌, ◌||◌, List, [], ◌∷◌, ◌++◌, arith, ◌==◌}
use svcinit.Step.{setup, start, step_eq}
use svcinit.Run.Program.{
  Plan, Instr, launch, verify, await, launch_all, run_stage, start_program, shutdown_program,
  run_program,
}
use svcinit.Run.Once.{count, pointers, occ, occ-start_program, occ-shutdown_program}
use svcinit.Run.Stages.{start-append}

-- The program tests the setup errors before it launches the setup of wrapper i.
abbrev pub guarded : ℕ → List Instr → Bool
guarded i [] = true
guarded i (launch k s x ∷ rest) = not (x == i && step_eq s setup) && guarded i rest
guarded i (verify k ∷ rest) = true
guarded i (x ∷ rest) = guarded i rest

-- It does so after each launch of the setup of j.
abbrev pub checked : ℕ → ℕ → List Instr → Bool
checked j i [] = true
checked j i (launch k s x ∷ rest) =
    (not (x == j && step_eq s setup) || guarded i rest) && checked j i rest
checked j i (x ∷ rest) = checked j i rest

module _ (j i : ℕ) where
  none_guarded : (xs : List Instr) → occ i setup xs ≡ 0 → guarded i xs ≡ true
  none_guarded [] h = refl
  none_guarded (x ∷ xs) h = ground (arith, none_guarded xs)

  none_checked : (xs : List Instr) → occ j setup xs ≡ 0 → checked j i xs ≡ true
  none_checked [] h = refl
  none_checked (x ∷ xs) h = ground (arith, none_checked xs)

  checked-setups :
      (k : ℕ) (is : List ℕ) (rest : List Instr)
      → count i is ≡ 0
      → guarded i rest ≡ true
      → checked j i rest ≡ true
      → (guarded i (launch_all k setup is rest) ≡ true)
        × (checked j i (launch_all k setup is rest) ≡ true)
  unfolding launch_all
  checked-setups k [] rest n g c = (g, c)
  checked-setups k (x ∷ is) rest n g c = ground (arith, checked-setups k is rest (ground arith) g c)

  checked-starts :
      (k : ℕ) (is : List ℕ) (rest : List Instr)
      → checked j i rest ≡ true
      → checked j i (launch_all k start is rest) ≡ true
  unfolding launch_all
  checked-starts k [] rest c = c
  checked-starts k (x ∷ is) rest c = ground (arith, checked-starts k is rest)

  checked-start_program :
      (plan : Plan) (rest : List Instr)
      → pointers i plan ≡ 0
      → checked j i rest ≡ true
      → checked j i (start_program plan rest) ≡ true
  unfolding start_program run_stage
  checked-start_program [] rest n c = c
  checked-start_program ((k, is) ∷ plan) rest n c =
      (checked-setups k is _ (omega (arith, n)) refl
        (checked-starts k is _ (checked-start_program plan rest (omega (arith, n)) c))).1

  pub checked-run_program :
      (earlier later : Plan) (b : Bool)
      → pointers i earlier ≡ 0
      → pointers j later ≡ 0
      → checked j i (run_program (earlier ++ later) b) ≡ true
  unfolding run_program
  checked-run_program earlier later b n m =
      let end = await ∷ shutdown_program (earlier ++ later) b in
      rw (start-append earlier later end) (
        checked-start_program earlier _ n (
          none_checked (start_program later end) (
            ground (
              arith,
              m,
              occ-start_program j setup later end,
              occ-shutdown_program j setup (earlier ++ later) b,
            ))))

  pub guarded-shutdown_program :
      (plan : Plan) (b : Bool) → guarded i (await ∷ shutdown_program plan b) ≡ true
  guarded-shutdown_program plan b =
      none_guarded (shutdown_program plan b) (ground (arith, occ-shutdown_program i setup plan b))
