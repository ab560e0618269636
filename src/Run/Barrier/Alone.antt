-- ===== src/Run/Barrier/Alone.antt =====
-- run.go: which goroutines are left while a stage is launched.
use svcinit.Common.{
  ℕ, ◌≡◌, refl, subst, Bool, true, false, not, ◌&&◌, ◌||◌, List, [], ◌∷◌, arith, all, ◌==◌, ==_iff,
  Bool-cases, inl, inr,
}
use svcinit.Step.{Step, teardown, step_eq, step_eq_iff}
use svcinit.Wrapper.{Wrapper}
use svcinit.Manager.{Startup}
use svcinit.Run.{Goroutine, System, Reach}
use svcinit.Run.Program.{Plan, Instr, launch}
use svcinit.Run.Era.{Era, late, launch_era, allowed}
use svcinit.Run.Invariant.{fits, Inv}
use svcinit.Run.Order.{Unique, reach-Inv}
use svcinit.Run.Barrier.{covered, has_started}
use svcinit.Run.Barrier.Moves.{at_head, Reach-covered}

-- Besides the step of the stage only start steps that have signalled are left, and at a teardown not
-- these either.
abbrev pub alone_with : ℕ → Step → List Goroutine → Bool
alone_with k st =
    all (λ g. (g.stage == k && step_eq g.step st) || (has_started g && not (step_eq st teardown)))

era_is_late : (k : ℕ) (e : Era) → allowed (launch_era k teardown e) ≡ true → e ≡ late
era_is_late k e a = ground arith

covered-alone :
    (k : ℕ) (st : Step) (i : ℕ) (rest : List Instr) (go : List Goroutine)
    → step_eq st teardown ≡ false
    → covered (launch k st i ∷ rest) go ≡ true
    → alone_with k st go ≡ true
covered-alone k st i rest [] n c = refl
covered-alone k st i rest (g ∷ go) n c = ground (
  arith,
  covered-alone k st i rest go,
  ==_iff k g.stage,
  ==_iff g.stage k,
  step_eq_iff st g.step,
  step_eq_iff g.step st,
)

late-alone :
    (k : ℕ) (i : ℕ) (rest : List Instr) (go : List Goroutine)
    → all (fits late) go ≡ true
    → covered (launch k teardown i ∷ rest) go ≡ true
    → alone_with k teardown go ≡ true
late-alone k i rest [] b c = refl
late-alone k i rest (g ∷ go) b c = ground (
  arith,
  late-alone k i rest go,
  ==_iff k g.stage,
  ==_iff g.stage k,
  step_eq_iff teardown g.step,
  step_eq_iff g.step teardown,
)

module _ {W : Type 0} (plan : Plan) (enforce : Bool) (unique : Unique plan)
    (wrappers : ℕ → Wrapper W) (startup : Startup)
    (new : (i : ℕ) → (wrappers i).execute_steps ≡ []) where
  -- Whenever a step of a stage is launched, the only goroutines left are those of that step of that
  -- stage and start steps that have signalled, and at a teardown not even these; in a run whose
  -- plan has each wrapper at most once, whose wrappers are new, and whose shutdown waits are not
  -- cut short by a timeout, or whose timeout has not passed.
  pub launch_alone :
      (s : System W) {k i : ℕ} {st : Step} {rest : List Instr}
      → Reach plan enforce wrappers startup s
      → enforce && s.expired ≡ false
      → s.todo ≡ launch k st i ∷ rest
      → alone_with k st s.go ≡ true
  launch_alone s {k} {i} {st} {rest} r h q =
      let c = at_head s.go q (Reach-covered wrappers startup r h).1 in
      elim (Bool-cases (step_eq st teardown)) [
        | inl t ↦
            let st_is = (step_eq_iff st teardown).0 t in
            let v =
              subst (λ x. Inv (launch k x i ∷ rest) s.wrappers s.go) st_is
                (subst (λ todo. Inv todo s.wrappers s.go) q
                  (reach-Inv plan enforce unique wrappers startup new r h)) in
            let era = era_is_late k v.era (ground (arith, v.era_safe)) in
            rw st_is (
              late-alone k i rest s.go (subst (λ e. all (fits e) s.go ≡ true) era v.bound)
                (subst (λ x. covered (launch k x i ∷ rest) s.go ≡ true) st_is c))
        | inr f ↦ covered-alone k st i rest s.go f c
      ]
