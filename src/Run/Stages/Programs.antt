-- ===== src/Run/Stages/Programs.antt =====
-- run.go: the programs of all plans launch the steps of the stages in order.
use svcinit.Common.{ℕ, ◌≡◌, refl, Bool, true, false, List, [], ◌∷◌, ◌++◌, arith}
use svcinit.Step.{Step, setup, start, stop, teardown, other, step_eq}
use svcinit.Run.Program.{Plan, Instr, start_program, reversed_stages, shutdown_program, run_program}
use svcinit.Run.Once.{
  count, pointers, occ, occ-run_stage, occ-reversed_stages, occ-start_program, occ-shutdown_program,
}
use svcinit.Run.Stages.{
  orderly, another_step, without_later, without_earlier, orderly-run_stage, start-append,
  reversed-append,
}

-- The plan whose stages a step comes to in this order: stop and teardown go through it backwards.
abbrev pub in_order : Step → (earlier later : Plan) → Plan
in_order stop earlier later = later ++ earlier
in_order teardown earlier later = later ++ earlier
in_order st earlier later = earlier ++ later

module _ (j i : ℕ) (st : Step) where
  starts_other :
      (plan : Plan) (rest : List Instr)
      → step_eq setup st ≡ false
      → step_eq start st ≡ false
      → orderly j i st rest ≡ true
      → orderly j i st (start_program plan rest) ≡ true
  unfolding start_program
  starts_other [] rest n m h = h
  starts_other ((k, is) ∷ plan) rest n m h =
      orderly-run_stage j i st k setup is false _ (another_step n) (
        orderly-run_stage j i st k start is false _ (another_step m) (starts_other plan rest n m h))

  starts_earlier :
      (plan : Plan) (rest : List Instr)
      → pointers i plan ≡ 0
      → orderly j i st rest ≡ true
      → orderly j i st (start_program plan rest) ≡ true
  unfolding start_program
  starts_earlier [] rest n h = h
  starts_earlier ((k, is) ∷ plan) rest n h =
      let here : count i is ≡ 0 = omega (arith, n) in
      orderly-run_stage j i st k setup is false _ (without_later here) (
        orderly-run_stage j i st k start is false _ (without_later here)
          (starts_earlier plan rest (omega (arith, n)) h))

  starts_later :
      (plan : Plan) (rest : List Instr)
      → pointers j plan ≡ 0
      → occ j st rest ≡ 0
      → orderly j i st rest ≡ true
      → orderly j i st (start_program plan rest) ≡ true
  unfolding start_program
  starts_later [] rest n o h = h
  starts_later ((k, is) ∷ plan) rest n o h =
      let here : count j is ≡ 0 = omega (arith, n) in
      let rest' = start_program plan rest in
      let o' : occ j st rest' ≡ 0 = ground (arith, n, o, occ-start_program j st plan rest) in
      orderly-run_stage j i st k setup is false _
        (without_earlier here (ground (arith, here, o', occ-run_stage j k st start is false rest')))
        (orderly-run_stage j i st k start is false rest' (without_earlier here o')
          (starts_later plan rest (omega (arith, n)) o h))

  module _ (s : Step) (b : Bool) where
    stops_other :
        (plan : Plan) (rest : List Instr)
        → step_eq s st ≡ false
        → orderly j i st rest ≡ true
        → orderly j i st (reversed_stages s b plan rest) ≡ true
    unfolding reversed_stages
    stops_other [] rest n h = h
    stops_other ((k, is) ∷ plan) rest n h =
        stops_other plan _ n (orderly-run_stage j i st k s is b rest (another_step n) h)

    stops_earlier :
        (plan : Plan) (rest : List Instr)
        → pointers i plan ≡ 0
        → orderly j i st rest ≡ true
        → orderly j i st (reversed_stages s b plan rest) ≡ true
    unfolding reversed_stages
    stops_earlier [] rest n h = h
    stops_earlier ((k, is) ∷ plan) rest n h =
        stops_earlier plan _ (omega (arith, n))
          (orderly-run_stage j i st k s is b rest (without_later (omega (arith, n))) h)

    stops_later :
        (plan : Plan) (rest : List Instr)
        → pointers j plan ≡ 0
        → occ j st rest ≡ 0
        → orderly j i st rest ≡ true
        → orderly j i st (reversed_stages s b plan rest) ≡ true
    unfolding reversed_stages
    stops_later [] rest n o h = h
    stops_later ((k, is) ∷ plan) rest n o h =
        let here : count j is ≡ 0 = omega (arith, n) in
        stops_later plan _ (omega (arith, n))
          (ground (arith, here, o, occ-run_stage j k st s is b rest))
          (orderly-run_stage j i st k s is b rest (without_earlier here o) h)

  -- Both orders of a plan in two parts.
  starts_in_order :
      (earlier later : Plan) (rest : List Instr)
      → pointers i earlier ≡ 0
      → pointers j later ≡ 0
      → occ j st rest ≡ 0
      → orderly j i st rest ≡ true
      → orderly j i st (start_program (earlier ++ later) rest) ≡ true
  starts_in_order earlier later rest n m o h =
      rw (start-append earlier later rest)
        (starts_earlier earlier _ n (starts_later later rest m o h))

  stops_in_order :
      (s : Step) (b : Bool) (earlier later : Plan) (rest : List Instr)
      → pointers i earlier ≡ 0
      → pointers j later ≡ 0
      → occ j st rest ≡ 0
      → orderly j i st rest ≡ true
      → orderly j i st (reversed_stages s b (later ++ earlier) rest) ≡ true
  stops_in_order s b earlier later rest n m o h =
      rw (reversed-append s b later earlier rest)
        (stops_earlier s b earlier _ n (stops_later s b later rest m o h))

pub orderly-shutdown_program :
    (j i : ℕ) (st : Step) (earlier later : Plan) (b : Bool)
    → pointers i earlier ≡ 0
    → pointers j later ≡ 0
    → orderly j i st (shutdown_program (in_order st earlier later) b) ≡ true
unfolding shutdown_program
orderly-shutdown_program j i setup earlier later b n m =
    let plan = earlier ++ later in
    stops_other j i setup stop b plan _ refl
      (stops_other j i setup teardown false plan [] refl refl)
orderly-shutdown_program j i start earlier later b n m =
    let plan = earlier ++ later in
    stops_other j i start stop b plan _ refl
      (stops_other j i start teardown false plan [] refl refl)
orderly-shutdown_program j i stop earlier later b n m =
    let plan = later ++ earlier in
    stops_in_order j i stop stop b earlier later _ n m
      (ground (arith, occ-reversed_stages j stop teardown false plan []))
      (stops_other j i stop teardown false plan [] refl refl)
orderly-shutdown_program j i teardown earlier later b n m =
    stops_other j i teardown stop b (later ++ earlier) _ refl
      (stops_in_order j i teardown teardown false earlier later [] n m refl refl)
orderly-shutdown_program j i (other x) earlier later b n m =
    let plan = earlier ++ later in
    stops_other j i (other x) stop b plan _ refl
      (stops_other j i (other x) teardown false plan [] refl refl)

-- In the program of every plan, where j is in the stages that the step comes to earlier and i only
-- in the others.
pub orderly-run_program :
    (j i : ℕ) (st : Step) (earlier later : Plan) (b : Bool)
    → pointers i earlier ≡ 0
    → pointers j later ≡ 0
    → orderly j i st (run_program (in_order st earlier later) b) ≡ true
unfolding run_program
orderly-run_program j i setup earlier later b n m =
    starts_in_order j i setup earlier later _ n m
      (ground (arith, occ-shutdown_program j setup (earlier ++ later) b))
      (orderly-shutdown_program j i setup earlier later b n m)
orderly-run_program j i start earlier later b n m =
    starts_in_order j i start earlier later _ n m
      (ground (arith, occ-shutdown_program j start (earlier ++ later) b))
      (orderly-shutdown_program j i start earlier later b n m)
orderly-run_program j i stop earlier later b n m =
    starts_other j i stop (later ++ earlier) _ refl refl
      (orderly-shutdown_program j i stop earlier later b n m)
orderly-run_program j i teardown earlier later b n m =
    starts_other j i teardown (later ++ earlier) _ refl refl
      (orderly-shutdown_program j i teardown earlier later b n m)
orderly-run_program j i (other x) earlier later b n m =
    starts_other j i (other x) (earlier ++ later) _ refl refl
      (orderly-shutdown_program j i (other x) earlier later b n m)
