-- ===== src/Run/Stages/Ready.antt =====
-- run.go: `start` goes on to the next stage when all tasks of this one are set up.
use svcinit.Common.{
  ℕ, ◌+◌, ◌≤◌, ◌≡◌, refl, ap, sym, ◌∙◌, Bool, true, false, ◌&&◌, List, [], ◌∷◌, ◌++◌, arith, ◌==◌,
  ==_iff, Bool-cases, inl, inr, all,
}
use svcinit.Step.{setup, start, contains, step_eq_iff}
use svcinit.Wrapper.{Wrapper, check_run_step}
use svcinit.Manager.{Startup}
use svcinit.Run.{Goroutine, System, Next, Reach, begin, and_next}
use svcinit.Run.Program.{Plan, Instr, launch, await, run_program, shutdown_program}
use svcinit.Run.Once.{pointers, occ, occ-start_program}
use svcinit.Run.Waits.{Reach-gives_up, enforce-before}
use svcinit.Run.Down.Static.{Reach-task}
use svcinit.Run.Barrier.Moves.{at_head, Reach-covered}
use svcinit.Run.Stages.Before.{stages_in_order, is_over}
use svcinit.Run.Barrier.{covered}
use svcinit.Run.Stages.Started.{started_before_next_stage}
use svcinit.Run.Stages.Checked.{guarded, checked-run_program}
use svcinit.Run.Stages.Grows.{Next-done, Next-errors}
use svcinit.Run.Stages.SetUp.{Fate, to_come, under_way, done, failed}
use svcinit.Run.Stages.Promise.{has, Next-guarded, Next-to_come, Next-under_way}

pointers-append : (i : ℕ) (xs ys : Plan) → pointers i (xs ++ ys) ≡ pointers i xs + pointers i ys
pointers-append i [] ys = omega arith
pointers-append i ((k, is) ∷ xs) ys = omega (arith, pointers-append i xs ys)

apart : (i j : ℕ) (plan : Plan) → pointers i plan ≡ 0 → 1 ≤ pointers j plan → i == j ≡ false
apart i j plan n l = elim (Bool-cases (i == j)) [
  | inl q ↦ absurd (omega (arith, n, l, ap (λ x. pointers x plan) ((==_iff i j).0 q)))
  | inr q ↦ q
]

-- The setup of i comes before the next test of the setup errors, being next.
not_guarded : (i k : ℕ) (rest : List Instr) → guarded i (launch k setup i ∷ rest) ≡ false
not_guarded i k rest = ground (arith, ==_iff i i)

-- At the launch of a setup, a start step that is left has signalled.
started_over :
    (j k i : ℕ) (rest : List Instr) (go : List Goroutine)
    → covered (launch k setup i ∷ rest) go ≡ true
    → is_over j start go ≡ true
started_over j k i rest [] c = refl
started_over j k i rest (g ∷ go) c =
    ground (arith, started_over j k i rest go, step_eq_iff g.step start, step_eq_iff setup g.step)

module _ {W : Type 0} (j i : ℕ) (earlier later : Plan) (enforce : Bool) (wrappers : ℕ → Wrapper W)
    (startup : Startup)
    (static : (w w' : W)
      → check_run_step w setup (wrappers j) ≡ check_run_step w' setup (wrappers j))
    (behind : pointers i earlier ≡ 0) (before : pointers j later ≡ 0)
    (planned : 1 ≤ pointers j earlier) where
  abbrev plan : Plan
  plan = earlier ++ later

  abbrev FateIn : System W → Type 0
  FateIn s = Fate j i (has plan enforce wrappers startup j i) s

  begins-to_come : 1 ≤ occ j setup (run_program plan enforce)
  unfolding run_program
  begins-to_come = ground (
    arith,
    planned,
    pointers-append j earlier later,
    occ-start_program j setup plan (await ∷ shutdown_program plan enforce),
  )

  same_check :
      {s : System W}
      → Reach plan enforce wrappers startup s
      → (w : W) → check_run_step w setup (s.wrappers j) ≡ check_run_step w setup (wrappers j)
  unfolding check_run_step
  same_check r w = rw (Reach-task j r) refl

  Next-Fate :
      {s t : System W}
      → Reach plan enforce wrappers startup s
      → enforce && t.expired ≡ false
      → Next plan enforce s t
      → FateIn s
      → FateIn t
  Next-Fate {s} r h n (to_come l c) =
      Next-to_come plan enforce wrappers startup j i static (same_check r) n l c
  Next-Fate {s} r h n (under_way p g all) =
      let k = enforce-before plan wrappers startup enforce n h in
      Next-under_way plan enforce wrappers startup j i static (same_check r)
        (Reach-gives_up plan wrappers startup enforce r k) (Reach-covered wrappers startup r k).1 n
        p g all
  Next-Fate {s} r h n (done d) = done (Next-done setup s j n d)
  Next-Fate {s} r h n (failed e g) =
      failed (Next-errors s n e) (Next-guarded plan enforce wrappers startup j i s n e g)

  Reach-Fate :
      {s : System W}
      → Reach plan enforce wrappers startup s
      → enforce && s.expired ≡ false
      → FateIn s
  Reach-Fate begin h =
      to_come begins-to_come (checked-run_program j i earlier later enforce behind before)
  Reach-Fate (and_next r n) h =
      Next-Fate r h n (Reach-Fate r (enforce-before plan wrappers startup enforce n h))

  set_up_by :
      (s : System W) (k : ℕ) (rest : List Instr)
      → s.todo ≡ launch k setup i ∷ rest
      → occ j setup rest ≡ 0
      → FateIn s
      → contains (s.wrappers j).execute_steps setup ≡ true
  set_up_by s k rest q o (done d) = d
  set_up_by s k rest q o (to_come l c) =
      absurd (ground (arith, l, ap (occ j setup) q, o, apart i j earlier behind planned))
  set_up_by s k rest q o (under_way p g all) =
      absurd (cc (sym (ap (guarded i) q) ∙ g, not_guarded i k rest))
  set_up_by s k rest q o (failed e g) =
      absurd (cc (sym (ap (guarded i) q) ∙ g, not_guarded i k rest))

  -- When `start` launches the setup of a task i, every task j of the stages before it is set up:
  -- its setup is done, its start is not to be launched any more, and if a goroutine of its start is
  -- left, that has signalled; in a run whose shutdown waits are not cut short by a timeout, or
  -- whose timeout has not passed, where i is not in the earlier part of the plan, j is in it and
  -- not in the later part, and whether j has a setup step does not change over time.
  pub setup_before_next_stage :
      (s : System W) {k : ℕ} {rest : List Instr}
      → Reach plan enforce wrappers startup s
      → enforce && s.expired ≡ false
      → s.todo ≡ launch k setup i ∷ rest
      → (contains (s.wrappers j).execute_steps setup ≡ true)
        × (occ j start s.todo ≡ 0)
        × (is_over j start s.go ≡ true)
  setup_before_next_stage s {k} {rest} r h q = (
    set_up_by s k rest q
        (stages_in_order j i setup earlier later enforce behind before wrappers startup s r h q).0
        (Reach-Fate r h),
    started_before_next_stage j i earlier later enforce wrappers startup behind before s r h q,
    started_over j k i rest s.go (at_head s.go q (Reach-covered wrappers startup r h).1),
  )
