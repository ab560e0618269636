-- ===== src/Run/Stages/Started.antt =====
-- run.go: `start` launches the start steps of a stage before it goes on to the next one.
use svcinit.Common.{
  ℕ, ◌≡◌, refl, ap, sym, ◌∙◌, Bool, true, false, not, ◌&&◌, ◌||◌, List, [], ◌∷◌, ◌++◌, arith, ◌==◌,
  ==_iff,
}
use svcinit.Step.{Step, setup, start, step_eq}
use svcinit.Wrapper.{Wrapper}
use svcinit.Manager.{Startup}
use svcinit.Run.{Goroutine, System, Reach, begin, and_next}
use svcinit.Run.Program.{
  Plan, Instr, launch, await, launch_all, run_stage, start_program, shutdown_program, run_program,
}
use svcinit.Run.Once.{count, pointers, occ, occ-start_program, occ-shutdown_program}
use svcinit.Run.Waits.{enforce-before}
use svcinit.Run.Barrier.Moves.{
  Move, passes_over, starts, waits, gives_in, stays, goes_on, leaves, Reach-Move,
}
use svcinit.Run.Stages.{start-append}

-- After the setup of i the start of j is not launched any more.
abbrev begun_before : ℕ → ℕ → List Instr → Bool
begun_before j i [] = true
begun_before j i (launch k s x ∷ rest) =
    (not (x == i && step_eq s setup) || (occ j start rest == 0)) && begun_before j i rest
begun_before j i (x ∷ rest) = begun_before j i rest

module _ (j i : ℕ) where
  none_begun : (xs : List Instr) → occ j start xs ≡ 0 → begun_before j i xs ≡ true
  none_begun [] h = refl
  none_begun (x ∷ xs) h = ground (arith, none_begun xs)

  launch_all-begun :
      (k : ℕ) (s : Step) (is : List ℕ) (rest : List Instr)
      → count i is ≡ 0
      → begun_before j i rest ≡ true
      → begun_before j i (launch_all k s is rest) ≡ true
  unfolding launch_all
  launch_all-begun k s [] rest n c = c
  launch_all-begun k s (x ∷ is) rest n c =
      ground (arith, launch_all-begun k s is rest (ground arith) c)

  start_program-begun :
      (plan : Plan) (rest : List Instr)
      → pointers i plan ≡ 0
      → begun_before j i rest ≡ true
      → begun_before j i (start_program plan rest) ≡ true
  unfolding start_program run_stage
  start_program-begun [] rest n c = c
  start_program-begun ((k, is) ∷ plan) rest n c =
      let here : count i is ≡ 0 = omega (arith, n) in
      launch_all-begun k setup is _ here
        (launch_all-begun k start is _ here (start_program-begun plan rest (omega (arith, n)) c))

  run_program-begun :
      (earlier later : Plan) (b : Bool)
      → pointers i earlier ≡ 0
      → pointers j later ≡ 0
      → begun_before j i (run_program (earlier ++ later) b) ≡ true
  unfolding run_program
  run_program-begun earlier later b n m =
      let end = await ∷ shutdown_program (earlier ++ later) b in
      rw (start-append earlier later end) (
        start_program-begun earlier _ n (
          none_begun (start_program later end) (
            ground (
              arith,
              m,
              occ-start_program j start later end,
              occ-shutdown_program j start (earlier ++ later) b,
            ))))

  tail-begun :
      {todo : List Instr} (x : Instr) (rest : List Instr)
      → todo ≡ x ∷ rest
      → begun_before j i todo ≡ true
      → begun_before j i rest ≡ true
  tail-begun x rest q c = ground (arith, sym (ap (begun_before j i) q) ∙ c)

  Move-begun :
      {plan : Plan} {enforce : Bool} {todo todo' : List Instr} {go go' : List Goroutine}
      → Move plan enforce todo go todo' go'
      → begun_before j i todo ≡ true
      → begun_before j i todo' ≡ true
  Move-begun (passes_over q) c = tail-begun _ _ q c
  Move-begun (starts q) c = tail-begun _ _ q c
  Move-begun (waits q n a) c = tail-begun _ _ q c
  Move-begun {plan} {enforce} (gives_in a) c =
      none_begun (shutdown_program plan enforce)
        (ground (arith, occ-shutdown_program j start plan enforce))
  Move-begun stays c = c
  Move-begun (goes_on pre g post pc q n) c = c
  Move-begun (leaves pre g post q) c = c

  module _ {W : Type 0} (earlier later : Plan) (enforce : Bool) (wrappers : ℕ → Wrapper W)
      (startup : Startup) (behind : pointers i earlier ≡ 0) (before : pointers j later ≡ 0) where
    Reach-begun :
        {s : System W}
        → Reach (earlier ++ later) enforce wrappers startup s
        → enforce && s.expired ≡ false
        → begun_before j i s.todo ≡ true
    Reach-begun begin h = run_program-begun earlier later enforce behind before
    Reach-begun (and_next {s = s} r n) h =
        Move-begun (Reach-Move wrappers startup r n h)
          (Reach-begun r (enforce-before (earlier ++ later) wrappers startup enforce n h))

    -- At the launch of the setup of i no start of j is left to launch.
    pub started_before_next_stage :
        (s : System W) {k : ℕ} {rest : List Instr}
        → Reach (earlier ++ later) enforce wrappers startup s
        → enforce && s.expired ≡ false
        → s.todo ≡ launch k setup i ∷ rest
        → occ j start s.todo ≡ 0
    started_before_next_stage s r h q =
        ground (arith, ==_iff i i, ap (begun_before j i) q, ap (occ j start) q, Reach-begun r h)
