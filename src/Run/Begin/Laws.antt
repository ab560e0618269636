-- ===== src/Run/Begin/Laws.antt =====
-- A manager runs once, and only if it has something to run.
use svcinit.Common.{
  ◌≡◌, ◌≢◌, refl, Bool, true, false, not, Option, none, some, List, arith, ◌==◌, is_nil,
  if◌then◌else◌, ◌∙◌, Outcome, returned, panicked,
}
use svcinit.Errors.{Error, plain, build_multi_errors}
use svcinit.Errors.Sentinel
use svcinit.Context.{Ctx}
use svcinit.Step.{start}
use svcinit.Manager.{Manager, step_task_count}
use svcinit.Manager.Running.{Call, after_calls, after_calls-Kept}
use svcinit.Run.Begin.{
  Begun, refused, aborted, panics, proceeds, begin_run, after_before, open_startup, ended,
}

-- To show something of a conditional.
if_both :
    {A : Type 0} (P : A → Type 0) (b : Bool) {x y : A}
    → (b ≡ true → P x)
    → (b ≡ false → P y)
    → P (if b then x else y)
if_both P true hx hy = hx refl
if_both P false hx hy = hy refl

not-not : (b : Bool) → not b ≡ false → b ≡ true
not-not b h = ground arith

module _ {W : Type 0} where
  ended_running :
      (b : Begun) (m : Manager W) (r : Outcome (Unit {0}) × W)
      → (ended b m r).1.is_running ≡ m.is_running
  ended_running b m (returned u, w) = refl
  ended_running b m (panicked, w) = refl

  not_proceeding :
      (b : Begun) (m : Manager W) (r : Outcome (Unit {0}) × W) (c : Ctx)
      → b ≢ proceeds c
      → (ended b m r).0 ≢ proceeds c
  not_proceeding b m (returned u, w) c ne = ne
  not_proceeding b m (panicked, w) c ne = cc

  after_before_running :
      (r : (Ctx × Outcome (Option Error)) × W) (m : Manager W)
      → (after_before r m).1.is_running ≡ m.is_running
  after_before_running ((ctx, returned none), w) m = refl
  after_before_running ((ctx, returned (some e)), w) m = ended_running (aborted (some e)) m _
  after_before_running ((ctx, panicked), w) m = ended_running panics m _

  abbrev Runs : Begun × Manager W × W → Type 0
  Runs (b, m, w) = m.is_running ≡ true

  begin_run_running :
      (ctx : Ctx) (during : List (Call W)) (m : Manager W) (w : W)
      → (begin_run ctx during m w).1.is_running ≡ true
  unfolding begin_run
  begin_run_running ctx during m w =
      let m' : Manager W = record m { is_running = true } in
      if_both Runs m.is_running (λ h. h)
        (λ _.
          if_both Runs (not (is_nil m.init_errors)) (λ _. ended_running _ m' _)
            (λ _.
              if_both Runs (step_task_count w start m.tasks == 0) (λ _. ended_running _ m' _)
                (λ _.
                  after_before_running _ (after_calls during m')
                  ∙ (after_calls-Kept during m' refl).0)))

  begin_run-refused :
      (ctx : Ctx) (during : List (Call W)) (m : Manager W) (w : W)
      → m.is_running ≡ true
      → begin_run ctx during m w ≡ (refused (plain Sentinel.already_running), m, w)
  unfolding begin_run
  begin_run-refused ctx during m w h =
      if_both (λ r. r ≡ (refused (plain Sentinel.already_running), m, w)) m.is_running (λ _. refl)
        (λ k. absurd (cc (h, k)))

  -- A manager whose Run was called counts as running, whatever came of it, a panic of a callback
  -- included, and calling Run on it again is refused with ErrAlreadyRunning and changes nothing.
  pub begin_run_once :
      (ctx : Ctx) (during : List (Call W)) (m : Manager W) (w : W)
      → let (b, m', w') = begin_run ctx during m w in
        (m'.is_running ≡ true)
        × ((ctx' : Ctx) (during' : List (Call W)) (v : W)
            → begin_run ctx' during' m' v ≡ (refused (plain Sentinel.already_running), m', v))
  begin_run_once ctx during m w = (
    begin_run_running ctx during m w,
    λ ctx' during' v.
        begin_run-refused ctx' during' (begin_run ctx during m w).1 v
          (begin_run_running ctx during m w),
  )

  after_before_startup :
      (r : (Ctx × Outcome (Option Error)) × W) (m : Manager W) {c : Ctx}
      → (after_before r m).0 ≡ proceeds c
      → (after_before r m).1 ≡ record m { startup = open_startup m.pending_startup_cancel }
  after_before_startup ((ctx, returned none), w) m h = refl
  after_before_startup ((ctx, returned (some e)), w) m {c} h =
      absurd (not_proceeding (aborted (some e)) m _ c (cc) h)
  after_before_startup ((ctx, panicked), w) m {c} h = absurd (not_proceeding panics m _ c (cc) h)

  pub begin_run_proceeds :
      (ctx : Ctx) (during : List (Call W)) (m : Manager W) (w : W) (c : Ctx)
      → (begin_run ctx during m w).0 ≡ proceeds c
      → let n = after_calls during (record m { is_running = true }) in
        (m.is_running ≡ false)
        × (is_nil m.init_errors ≡ true)
        × ((step_task_count w start m.tasks == 0) ≡ false)
        × ((begin_run ctx during m w).1
            ≡ record n { startup = open_startup n.pending_startup_cancel })
        × (n.is_running ≡ true)
        × (n.stages ≡ m.stages)
        × (n.tasks ≡ m.tasks)
        × (n.init_errors ≡ m.init_errors)
  unfolding begin_run
  begin_run_proceeds ctx during m w c =
      let m' : Manager W = record m { is_running = true } in
      if_both Proceeds m.is_running (λ _ h. absurd (ground arith))
        (λ r.
          if_both (Proceeds_at r) (not (is_nil m.init_errors))
            (λ _ h.
              absurd (not_proceeding (aborted (build_multi_errors m.init_errors)) m' _ c (cc) h))
            (λ e.
              if_both (Proceeds_at r) (step_task_count w start m.tasks == 0)
                (λ _ h.
                  absurd
                    (not_proceeding (aborted (some (plain Sentinel.no_start_task))) m' _ c (cc) h))
                (λ n h.
                  let (runs, stages, tasks, errors) = after_calls-Kept during m' refl in
                  (
                    r,
                    not-not _ e,
                    n,
                    after_before_startup _ (after_calls during m') h,
                    runs,
                    stages,
                    tasks,
                    errors,
                  ))))
    where
      Proceeds : Begun × Manager W × W → Type 0
      Proceeds r =
          let n = after_calls during (record m { is_running = true }) in
          r.0 ≡ proceeds c
          → (m.is_running ≡ false)
            × (is_nil m.init_errors ≡ true)
            × ((step_task_count w start m.tasks == 0) ≡ false)
            × (r.1 ≡ record n { startup = open_startup n.pending_startup_cancel })
            × (n.is_running ≡ true)
            × (n.stages ≡ m.stages)
            × (n.tasks ≡ m.tasks)
            × (n.init_errors ≡ m.init_errors)

      Proceeds_at : m.is_running ≡ false → Begun × Manager W × W → Type 0
      Proceeds_at _ = Proceeds
