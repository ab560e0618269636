-- ===== src/Run/Down/Finish.antt =====
-- In a finished run, every task that was set up has been torn down.
use svcinit.Common.{
  ℕ, ◌≤◌, ◌≡◌, refl, ap, ap₂, sym, ◌∙◌, subst, Bool, true, false, ◌&&◌, List, [], ◌∷◌, arith, ◌==◌,
  ==_iff, Bool-cases, inl, inr, ◌⊎◌,
}
use svcinit.Step.{Step, setup, contains, teardown, step_eq, step_eq_iff}
use svcinit.Wrapper.{Wrapper, check_run_step}
use svcinit.Manager.{Startup}
use svcinit.Run.{
  System, Next, launches, joins, joins_late, passes, verifies, fails, awaits, joins_running,
  joins_running_late, cancels, expires, signals, begins, skips, reports, ends, Reach, begin,
  and_next, do_launch,
}
use svcinit.Run.Program.{Plan, Instr, launch, await, run_program, shutdown_program}
use svcinit.Run.Once.{occ, pointers, occ-shutdown_program, occ-start_program}
use svcinit.Run.Invariant.{Inv}
use svcinit.Run.Order.{Unique, reach-Inv}
use svcinit.Run.Down.Static.{Reach-task}
use svcinit.Run.Waits.{enforce-before, do_launch_rest}
use svcinit.Run.Untouched.{on_error_same}
use svcinit.Run.Down.{is_down, pending}
use svcinit.Run.Down.Launch.{do_launch-Settled}
use svcinit.Run.Down.Others.{SettledIn}
use svcinit.Run.Down.Steps.{Next-Settled}

occ-fails :
    (i : ℕ) (plan : Plan) (enforce : Bool)
    → pointers i plan ≤ occ i teardown (await ∷ shutdown_program plan enforce)
occ-fails i plan enforce = ground (arith, occ-shutdown_program i teardown plan enforce)

occ-begins :
    (i : ℕ) (plan : Plan) (enforce : Bool)
    → pointers i plan ≤ occ i teardown (run_program plan enforce)
unfolding run_program
occ-begins i plan enforce = ground (
  arith,
  occ-start_program i teardown plan (await ∷ shutdown_program plan enforce),
  occ-fails i plan enforce,
)

-- What the program still launches, after one instruction that is not the one in question.
occ-skip :
    (i : ℕ) {todo : List Instr} (x : Instr) (rest : List Instr)
    → todo ≡ x ∷ rest
    → occ i teardown (x ∷ rest) ≡ occ i teardown rest
    → 1 ≤ occ i teardown todo
    → 1 ≤ occ i teardown rest
occ-skip i x rest q h l = omega (arith, ap (occ i teardown) q, h, l)

other_launch :
    (i k j : ℕ) (st : Step) (rest : List Instr)
    → j == i && step_eq st teardown ≡ false
    → occ i teardown (launch k st j ∷ rest) ≡ occ i teardown rest
other_launch i k j st rest h = ground (arith, h)

both : (a b : Bool) → a && b ≡ true → (a ≡ true) × (b ≡ true)
both a b h = ground arith

module _ {W : Type 0} (plan : Plan) (enforce : Bool) (unique : Unique plan)
    (wrappers : ℕ → Wrapper W) (startup : Startup) (new : (i : ℕ) → (wrappers i).execute_steps ≡ [])
    (i : ℕ) (planned : 1 ≤ pointers i plan)
    (static : (w w' : W)
      → check_run_step w teardown (wrappers i) ≡ check_run_step w' teardown (wrappers i)) where
  -- The teardown is still to be launched, or has been.
  abbrev Fate : System W → Type 0
  Fate s = (1 ≤ occ i teardown s.todo) ⊎ SettledIn i s

  still_static :
      {s : System W}
      → Reach plan enforce wrappers startup s
      → (w w' : W)
      → check_run_step w teardown (s.wrappers i) ≡ check_run_step w' teardown (s.wrappers i)
  unfolding check_run_step
  still_static r w w' = rw (Reach-task i r) (static w w')

  launched-Fate :
      (k j : ℕ) (st : Step) (rest : List Instr) (w : W) (s : System W)
      → Reach plan enforce wrappers startup s
      → enforce && s.expired ≡ false
      → s.todo ≡ launch k st j ∷ rest
      → 1 ≤ occ i teardown s.todo
      → Fate (do_launch w k st j rest s)
  launched-Fate k j st rest w s r h q l = elim (Bool-cases (j == i && step_eq st teardown)) [
    | inl own ↦ inr (
        let (at_i, at_step) = both (j == i) (step_eq st teardown) own in
        let st_is = (step_eq_iff st teardown).0 at_step in
        let j_is = (==_iff j i).0 at_i in
        let todo_is = q ∙ ap₂ (λ x n. launch k x n ∷ rest) st_is j_is in
        let v =
          subst (λ todo. Inv todo s.wrappers s.go) todo_is
            (reach-Inv plan enforce unique wrappers startup new r h) in
        subst (SettledIn i) (sym (ap₂ (λ x n. do_launch w k x n rest s) st_is j_is))
          (do_launch-Settled k i rest s v (still_static r) w))
    | inr o ↦ inl (
        subst (λ todo. 1 ≤ occ i teardown todo) (sym (do_launch_rest w k st j rest s).0)
          (occ-skip i (launch k st j) rest q (other_launch i k j st rest o) l))
  ]

  Next-Fate :
      (s : System W) {t : System W}
      → Reach plan enforce wrappers startup s
      → enforce && s.expired ≡ false
      → Next plan enforce s t
      → 1 ≤ occ i teardown s.todo
      → Fate t
  Next-Fate s r h (launches {k = k} {i = j} {st = st} {rest = rest} q w) l =
      launched-Fate k j st rest w s r h q l
  Next-Fate s r h (joins q c) l = inl (occ-skip i _ _ q refl l)
  Next-Fate s r h (joins_late q c) l = inl (occ-skip i _ _ q refl l)
  Next-Fate s r h (passes q c) l = inl (occ-skip i _ _ q refl l)
  Next-Fate s r h (verifies q c) l = inl (occ-skip i _ _ q refl l)
  Next-Fate s r h (fails q c) l = inl (omega (arith, planned, occ-fails i plan enforce))
  Next-Fate s r h (awaits q c) l = inl (occ-skip i _ _ q refl l)
  Next-Fate s r h (joins_running q c) l = inl (occ-skip i _ _ q refl l)
  Next-Fate s r h (joins_running_late q c) l = inl (occ-skip i _ _ q refl l)
  Next-Fate s r h (cancels x) l = inl l
  Next-Fate s r h expires l = inl l
  Next-Fate s r h (signals pre g post e q) l = inl l
  Next-Fate s r h (begins pre g post w e q c) l = inl l
  Next-Fate s r h (skips pre g post w e q c) l = inl l
  Next-Fate s r h (reports pre g post err e q) l =
      inl (subst (λ todo. 1 ≤ occ i teardown todo) (sym (on_error_same g.step err _).2) l)
  Next-Fate s r h (ends pre g post e q) l = inl l

  Reach-Fate :
      {s : System W} → Reach plan enforce wrappers startup s → enforce && s.expired ≡ false → Fate s
  Reach-Fate begin h = inl (omega (arith, planned, occ-begins i plan enforce))
  Reach-Fate (and_next {s = s} r n) h =
      let before = enforce-before plan wrappers startup enforce n h in
      elim (Reach-Fate r before) [
        | inl l ↦ Next-Fate s r before n l
        | inr v ↦ inr (Next-Settled plan enforce i s n v)
      ]

  down_at_end :
      (s : System W)
      → s.todo ≡ []
      → s.go ≡ []
      → Fate s
      → is_down (s.wrappers i).execute_steps ≡ true
  down_at_end s q e (inl l) = absurd (omega (arith, l, ap (occ i teardown) q))
  down_at_end s q e (inr v) = ground (arith, v.down, ap (pending i) e)

  -- At the end of a run whose plan has each wrapper at most once and the wrapper i at least once,
  -- whose wrappers are new, and whose shutdown waits are not cut short by a timeout, or whose
  -- timeout has not passed, every task that has done its setup has done its teardown, under every
  -- interleaving, whatever fails before or in between, provided that whether the task i has a
  -- teardown step does not change over time.
  pub Reach-torn_down :
      (s : System W)
      → Reach plan enforce wrappers startup s
      → enforce && s.expired ≡ false
      → s.todo ≡ []
      → s.go ≡ []
      → contains (s.wrappers i).execute_steps setup ≡ true
      → contains (s.wrappers i).execute_steps teardown ≡ true
  Reach-torn_down s r h q e up = ground (arith, up, down_at_end s q e (Reach-Fate r h))
