-- ===== src/Run/Contexts.antt =====
-- run.go, the goroutine of `runStageStep`: the context that it gives to the step, and what it cancels
-- when it ends. `n` and `m` are the nodes of the two contexts that a start step may create.
use svcinit.Common.{
  ℕ, ◌≡◌, refl, ap, ap₂, sym, subst, ◌∙◌, Bool, true, false, ◌||◌, Option, none, some, arith, ◌==◌,
  ==_iff, if◌then◌else◌, is_some,
}
use svcinit.Errors.{Error, plain, is, is_opt}
use svcinit.Errors.Sentinel
use svcinit.Context.{
  Ctx, with_cancel, without_cancel, StartStepManager, Nodes, Cancelled, done, cancel, or_canceled,
  context_with_start_step_manager, start_step_manager_from_context, context_cancel, finished_closed,
  finished_err,
}
use svcinit.Context.Laws.{
  finish_cause, ssm_nil_error, finished_err_after_finish, done-cancel_fresh, cancel_other,
}
use svcinit.Step.{Step, start, stop}
use svcinit.Wrapper.{Wrapper, current_options}

-- The context of a start step before it can be cancelled by its own stop step: the one that ends
-- with the first task, if the task asks for it.
abbrev pub start_base : Bool → (ctx task_done_ctx : Ctx) → Ctx
start_base cancel_context ctx task_done_ctx = if cancel_context then task_done_ctx else ctx

module _ {W : Type 0} where
  unfoldable pub base_of : W → Wrapper W → (ctx task_done_ctx : Ctx) → Ctx
  unfolding current_options
  base_of w tw ctx task_done_ctx =
      start_base (current_options tw w).cancel_context ctx task_done_ctx

  abbrev start_context : (ctx : Ctx) → Bool → (n m : ℕ) → Wrapper W → Ctx × Wrapper W
  start_context ctx true n m tw =
      (with_cancel n ctx, record tw { start_cancel = some n; finish_ctx = some m })
  start_context ctx false n m tw = (ctx, tw)

  abbrev stop_context : Ctx → Bool → Wrapper W → Ctx
  unfolding context_with_start_step_manager
  stop_context ctx false tw = ctx
  stop_context ctx true tw =
      if is_some tw.start_cancel || is_some tw.finish_ctx
      then context_with_start_step_manager ctx
          (record { cancel = tw.start_cancel; finished = tw.finish_ctx })
      else ctx

  -- The context that the step is run with, and the wrapper's fields for the stop step.
  unfoldable pub step_context :
      W → Step → (ctx task_done_ctx : Ctx) → (n m : ℕ) → Wrapper W → Ctx × Wrapper W
  unfolding base_of stop_context current_options
  step_context w start ctx task_done_ctx n m tw =
      start_context (base_of w tw ctx task_done_ctx) (current_options tw w).start_step_manager n m
        tw
  step_context w stop ctx task_done_ctx n m tw =
      (stop_context task_done_ctx (current_options tw w).start_step_manager tw, tw)
  step_context w s ctx task_done_ctx n m tw = (task_done_ctx, tw)

-- The end of a start step with these contexts, over `base`: the step's error, if it was run, or the
-- internal nil error; and then the deferred calls, the last one first.
unfoldable pub end_start : (n m : ℕ) → (base : Ctx) → Option (Option Error) → Nodes → Nodes
unfolding cancel
end_start n m base ran nodes =
    let finish : Option Error → Nodes → Nodes = cancel m (without_cancel (with_cancel n base)) in
    let after_run : Nodes = elim ran [
      | none ↦ nodes
      | some err ↦ finish (finish_cause err) nodes
    ] in
    cancel n base (some (plain Sentinel.canceled)) (finish ssm_nil_error after_run)

abbrev pub both : ℕ → ℕ → StartStepManager
both n m = record { cancel = some n; finished = some m }

not_same : (n m : ℕ) → (n == m) ≡ false → (m == n) ≡ false
not_same n m h = ground (arith, ==_iff n m, ==_iff m n)

-- What the manager says of the start step depends on the one node.
finished_at :
    (n m : ℕ) (s t : Nodes)
    → s m ≡ t m
    → (finished_closed (both n m) s ≡ finished_closed (both n m) t)
      × (finished_err (both n m) s ≡ finished_err (both n m) t)
unfolding finished_closed finished_err
finished_at n m s t e = (
  ap (λ o. is_some o) e,
  ap
      (λ (o : Option Cancelled).
        let r : Option Error = elim o [
          | none ↦ none
          | some c ↦ if is Sentinel.ssm_nil c.cause then none else some c.cause
        ] in
        r)
      e,
)

not_finished : (n m : ℕ) (nodes : Nodes) → nodes m ≡ none → finished_closed (both n m) nodes ≡ false
unfolding finished_closed
not_finished n m nodes k = ap (λ o. is_some o) k

-- The stop step's manager reaches the start step: it cancels the start step's context, and it says
-- that the start step has finished when that has ended, with its error.
reach_start :
    (n m : ℕ) (base : Ctx) (c err : Option Error) (nodes : Nodes)
    → (n == m) ≡ false
    → done nodes (with_cancel n base) ≡ none
    → nodes m ≡ none
    → is_opt Sentinel.ssm_nil err ≡ false
    → let (possible, asked) = context_cancel (both n m) base c nodes in
      let ended = end_start n m base (some err) asked in
      (possible ≡ true)
      × (done asked (with_cancel n base)
          ≡ some (record { err = plain Sentinel.canceled; cause = or_canceled c }))
      × (finished_closed (both n m) asked ≡ false)
      × (finished_closed (both n m) ended ≡ true)
      × (finished_err (both n m) ended ≡ err)
unfolding context_cancel end_start
reach_start n m base c err nodes d h k e =
    let asked = cancel n base c nodes in
    let untouched = cancel_other n base c nodes m (not_same n m d) in
    let (closed, error) =
      finished_err_after_finish (both n m) m (with_cancel n base) asked err refl (untouched ∙ k)
        e in
    let finish : Option Error → Nodes → Nodes = cancel m (without_cancel (with_cancel n base)) in
    let after = finish ssm_nil_error (finish (finish_cause err) asked) in
    let last = some (plain Sentinel.canceled) in
    let (closed_at, error_at) =
      finished_at n m (cancel n base last after) after
        (cancel_other n base last after m (not_same n m d)) in
    (
      refl,
      done-cancel_fresh n base c nodes h,
      not_finished n m asked (untouched ∙ k),
      closed_at ∙ closed,
      error_at ∙ error,
    )

module _ {W : Type 0} (w w' : W) (tw : Wrapper W) (ctx task_done_ctx ctx' task_done_ctx' : Ctx)
    (n m n' m' : ℕ) (managed : (current_options tw w).start_step_manager ≡ true)
    (managed' : (current_options tw w').start_step_manager ≡ true) where
  abbrev base : Ctx
  base = base_of w tw ctx task_done_ctx

  start_is :
      step_context w start ctx task_done_ctx n m tw
      ≡ (with_cancel n base, record tw { start_cancel = some n; finish_ctx = some m })
  unfolding step_context base_of
  start_is = ap (λ b. start_context base b n m tw) managed

  stop_is :
      start_step_manager_from_context
        (step_context w' stop ctx' task_done_ctx' n' m'
          (step_context w start ctx task_done_ctx n m tw).1).0
      ≡ both n m
  unfolding step_context start_step_manager_from_context stop_context current_options
      context_with_start_step_manager
  stop_is =
      ap
        (λ p.
          start_step_manager_from_context (step_context w' stop ctx' task_done_ctx' n' m' p.1).0)
        start_is
      ∙ ap
          (λ b. start_step_manager_from_context (
            stop_context task_done_ctx' b
              (record tw { start_cancel = some n; finish_ctx = some m })))
          managed'

  -- For a task with a start step manager, at the start and at the stop: where the start step's
  -- context is not done, the node of its end was not cancelled and is another one than that of its
  -- context, and the step's error does not match the internal nil error, the manager that the stop
  -- step finds in its context cancels the start step's context, with the given cause or Canceled;
  -- Finished is not closed by that; and once the start step has been run and its goroutine has
  -- ended, Finished is closed and FinishedErr is the step's error.
  pub stop_reaches_start :
      (c err : Option Error) (nodes : Nodes)
      → (n == m) ≡ false
      → done nodes (step_context w start ctx task_done_ctx n m tw).0 ≡ none
      → nodes m ≡ none
      → is_opt Sentinel.ssm_nil err ≡ false
      → let (start_ctx, started) = step_context w start ctx task_done_ctx n m tw in
        let ssm =
          start_step_manager_from_context
            (step_context w' stop ctx' task_done_ctx' n' m' started).0 in
        let (possible, asked) = context_cancel ssm (base_of w tw ctx task_done_ctx) c nodes in
        let ended = end_start n m (base_of w tw ctx task_done_ctx) (some err) asked in
        (possible ≡ true)
        × (done asked start_ctx
            ≡ some (record { err = plain Sentinel.canceled; cause = or_canceled c }))
        × (finished_closed ssm asked ≡ false)
        × (finished_closed ssm ended ≡ true)
        × (finished_err ssm ended ≡ err)
  stop_reaches_start c err nodes d h k e =
      let at_start = ap (λ p. p.0) start_is in
      let facts = reach_start n m base c err nodes d (sym (ap (done nodes) at_start) ∙ h) k e in
      subst
        (λ x.
          let (possible, asked) = context_cancel x.0 base c nodes in
          let ended = end_start n m base (some err) asked in
          (possible ≡ true)
          × (done asked x.1
              ≡ some (record { err = plain Sentinel.canceled; cause = or_canceled c }))
          × (finished_closed x.0 asked ≡ false)
          × (finished_closed x.0 ended ≡ true)
          × (finished_err x.0 ended ≡ err))
        (sym (ap₂ {C = StartStepManager × Ctx} (λ x y. (x, y)) stop_is at_start)) facts
