-- ===== src/Run/Stages/Before.antt =====
-- run.go: a stage begins when the stage before it is over.
use svcinit.Common.{
  ℕ, ◌≡◌, refl, ap, sym, ◌∙◌, subst, Bool, true, false, not, ◌&&◌, ◌||◌, List, [], ◌∷◌, arith, all,
  ◌==◌, ==_iff,
}
use svcinit.Step.{Step, step_eq, step_eq_refl}
use svcinit.Wrapper.{Wrapper}
use svcinit.Manager.{Startup}
use svcinit.Run.{Goroutine, spawned, System, Reach, begin, and_next}
use svcinit.Run.Program.{Plan, Instr, launch}
use svcinit.Run.Once.{pointers, occ}
use svcinit.Run.Waits.{enforce-before}
use svcinit.Run.Barrier.{calm, has_started, all-replace, all-remove}
use svcinit.Run.Barrier.Moves.{
  Move, passes_over, starts, waits, gives_in, stays, goes_on, leaves, Reach-Move,
}
use svcinit.Run.Stages.{orderly, fenced}
use svcinit.Run.Stages.Programs.{in_order, orderly-run_program, orderly-shutdown_program}

-- No goroutine is in that step of the wrapper, unless it is a start step that has signalled.
abbrev pub is_over : ℕ → Step → List Goroutine → Bool
is_over j st = all (λ g. not (g.tw == j && step_eq g.step st) || has_started g)

calm-over : (j : ℕ) (st : Step) (go : List Goroutine) → calm go ≡ true → is_over j st go ≡ true
calm-over j st [] h = refl
calm-over j st (g ∷ go) h = ground (arith, calm-over j st go)

wait-orderly :
    (j i : ℕ) (st : Step) (x : Instr) (rest : List Instr)
    → orderly j i st (x ∷ rest) ≡ true
    → orderly j i st rest ≡ true
wait-orderly j i st x rest h = ground arith

or_mono : (a b c : Bool) → (a ≡ true → b ≡ true) → a || c ≡ true → b || c ≡ true
or_mono a b c f h = ground arith

-- At the launch of a step of i, that of j is neither still to come nor under way.
orderly-over :
    (j i k : ℕ) (st : Step) (rest : List Instr) (over : Bool)
    → orderly j i st (launch k st i ∷ rest) ≡ true
    → over || fenced i st (launch k st i ∷ rest) ≡ true
    → (occ j st rest ≡ 0) × (over ≡ true)
orderly-over j i k st rest over h f = ground (arith, ==_iff i i, step_eq_refl st)

module _ (j i : ℕ) (st : Step) (earlier later : Plan) (enforce : Bool)
    (behind : pointers i earlier ≡ 0) (before : pointers j later ≡ 0) where
  abbrev Kept : List Instr → List Goroutine → Type 0
  Kept todo go = (orderly j i st todo ≡ true) × (is_over j st go || fenced i st todo ≡ true)

  launched-Kept :
      (k x : ℕ) (s : Step) (rest : List Instr) (go : List Goroutine)
      → Kept (launch k s x ∷ rest) go
      → (Kept rest go) × (Kept rest (record { stage = k; step = s; tw = x; pc = spawned } ∷ go))
  launched-Kept k x s rest go (h, f) = ground arith

  Move-Kept :
      {todo todo' : List Instr} {go go' : List Goroutine}
      → Move (in_order st earlier later) enforce todo go todo' go'
      → Kept todo go
      → Kept todo' go'
  Move-Kept {go = go} (passes_over {k = k} {i = x} {st = s} {rest = rest} q) v =
      (launched-Kept k x s rest go (subst (λ t. Kept t go) q v)).0
  Move-Kept {go = go} (starts {k = k} {i = x} {st = s} {rest = rest} q) v =
      (launched-Kept k x s rest go (subst (λ t. Kept t go) q v)).1
  Move-Kept {go = go} (waits {x} {rest} q n a) (h, f) = (
    wait-orderly j i st x rest (sym (ap (orderly j i st) q) ∙ h),
    ground (arith, calm-over j st go a),
  )
  Move-Kept {go = go} (gives_in a) (h, f) = (
    orderly-shutdown_program j i st earlier later enforce behind before,
    ground (arith, calm-over j st go a),
  )
  Move-Kept stays v = v
  Move-Kept {todo} (goes_on pre g post pc q n) (h, f) = (
    h,
    or_mono _ _ (fenced i st todo) (all-replace _ pre g _ post (λ old. ground (arith, n, old)))
        (sym (ap (λ go. is_over j st go || fenced i st todo) q) ∙ f),
  )
  Move-Kept {todo} (leaves pre g post q) (h, f) = (
    h,
    or_mono _ _ (fenced i st todo) (all-remove _ pre g post)
        (sym (ap (λ go. is_over j st go || fenced i st todo) q) ∙ f),
  )

  module _ {W : Type 0} (wrappers : ℕ → Wrapper W) (startup : Startup) where
    Reach-Kept :
        {s : System W}
        → Reach (in_order st earlier later) enforce wrappers startup s
        → enforce && s.expired ≡ false
        → Kept s.todo s.go
    Reach-Kept begin h = (orderly-run_program j i st earlier later enforce behind before, refl)
    Reach-Kept (and_next {s = s} r n) h =
        Move-Kept (Reach-Move wrappers startup r n h)
          (Reach-Kept r (enforce-before (in_order st earlier later) wrappers startup enforce n h))

    -- Setup and start go through the stages of the plan in order, stop and teardown in reverse
    -- order: when a step of a task i is launched, the same step of a task j of the stages that come
    -- earlier in that order is not to be launched afterwards, and no goroutine is in it any more,
    -- unless it is a start step that has signalled; in a run whose shutdown waits are not cut short
    -- by a timeout, or whose timeout has not passed, where i is not among the stages that come
    -- earlier and j not among the later ones.
    pub stages_in_order :
        (s : System W) {k : ℕ} {rest : List Instr}
        → Reach (in_order st earlier later) enforce wrappers startup s
        → enforce && s.expired ≡ false
        → s.todo ≡ launch k st i ∷ rest
        → (occ j st rest ≡ 0) × (is_over j st s.go ≡ true)
    stages_in_order s {k} {rest} r h q =
        let (o, f) = subst (λ t. Kept t s.go) q (Reach-Kept r h) in
        orderly-over j i k st rest (is_over j st s.go) o f
