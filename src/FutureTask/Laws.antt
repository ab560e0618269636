-- ===== src/FutureTask/Laws.antt =====
-- The future of a task is resolved by its setup or when the task is skipped.
use svcinit.Common.{
  ◌≡◌, refl, ap, sym, ◌∙◌, subst, true, false, Option, none, some, List, [], ◌∷◌, ◌++◌, arith,
  returned, ◌||◌, ℕ, ◌==◌,
}
use svcinit.Errors.{Error, is_opt}
use svcinit.Errors.Sentinel
use svcinit.Context.{Ctx}
use svcinit.Step.{setup}
use svcinit.Task.{Task}
use svcinit.Build.{TaskBuild}
use svcinit.Build.Init.{parent_has}
use svcinit.Future.{Future, Latch, unset, waiting, closed, is_closed, new_future}
use svcinit.Instance.{Store, SetupFunc, run}
use svcinit.Instance.Make.{InstanceBuildOption, with_skipped, build}
use svcinit.Instance.Data.{first_setup-world}
use svcinit.FutureTask.{
  settle, future_setup, skip, skip_error, new, wrap_value, task_value_now, task_value_ready,
}

module _ {T : Type 0} where
  -- A future that nothing has resolved; it may have been asked for.
  pub record IsPending (empty : T) (fut : Future T) : Type 0 where
    pub not_closed : is_closed fut.latch ≡ false
    pub no_value : fut.v ≡ empty
    pub no_error : fut.err ≡ none

  -- What a read finds after a setup.
  abbrev pub found : T → T → Option Error → T × Option Error
  found empty d none = (d, none)
  found empty d (some e) = wrap_value (empty, some e)

  -- Both kinds of read find the result.
  abbrev pub Resolved : T → T × Option Error → Future T → Type 0
  Resolved empty r fut =
      (is_closed fut.latch ≡ true)
      × ((task_value_now empty fut).0 ≡ r)
      × (task_value_ready empty none fut ≡ r ∷ [])

module _ {T : Type 0} where
  skip-is :
      (t : ℕ) (empty : T) (cause : Option Error)
      → is_opt t (wrap_value (empty, some (skip_error cause))).1
        ≡ (Sentinel.task_skipped == t) || is_opt t cause
  unfolding skip_error svcinit.Errors.is
  skip-is t empty none = ground arith
  skip-is t empty (some e) = ground arith

module _ {T W : Type 0} where
  settle-Resolved :
      (empty d : T) (err : Option Error) (fut : Future T) (w : W)
      → IsPending empty fut
      → let (r, (fut', w')) = settle empty (returned (d, err)) (fut, w) in
        (w' ≡ w) × Resolved empty (found empty d err) fut'
  unfolding settle task_value_now task_value_ready
  settle-Resolved empty d none fut w p = ground (arith, p.not_closed, p.no_error)
  settle-Resolved empty d (some e) fut w p = ground (arith, p.not_closed, p.no_value)

  skip-closed :
      (ctx : Ctx) (cause : Option Error) (fut : Future T) (w : W)
      → is_closed fut.latch ≡ true
      → skip ctx cause (fut, w) ≡ (returned tt, (fut, w))
  unfolding skip
  skip-closed ctx cause fut w h = at_latch fut.latch h
    where
      at_latch :
          (l : Latch)
          → is_closed l ≡ true
          → skip ctx cause (record fut { latch = l }, w)
            ≡ (returned tt, (record fut { latch = l }, w))
      at_latch closed e = refl
      at_latch unset e = absurd (cc e)
      at_latch waiting e = absurd (cc e)

  skip-Resolved :
      (empty : T) (ctx : Ctx) (cause : Option Error) (fut : Future T) (w : W)
      → IsPending empty fut
      → let (r, (fut', w')) = skip ctx cause (fut, w) in
        (r ≡ returned tt)
        × (w' ≡ w)
        × Resolved empty (wrap_value (empty, some (skip_error cause))) fut'
  unfolding skip task_value_now task_value_ready
  skip-Resolved empty ctx cause fut w p = at_latch fut.latch p.not_closed
    where
      read :
          wrap_value (fut.v, some (skip_error cause)) ≡ wrap_value (empty, some (skip_error cause))
      read = ap (λ v. wrap_value (v, some (skip_error cause))) p.no_value

      at_latch :
          (l : Latch)
          → is_closed l ≡ false
          → let (r, (fut', w')) = skip ctx cause (record fut { latch = l }, w) in
            (r ≡ returned tt)
            × (w' ≡ w)
            × Resolved empty (wrap_value (empty, some (skip_error cause))) fut'
      at_latch closed e = absurd (cc e)
      at_latch unset e = (refl, refl, (refl, read, ap (λ r. r ∷ []) read))
      at_latch waiting e = (refl, refl, (refl, read, ap (λ r. r ∷ []) read))

  module _ (w0 : W) (empty : T) (as_task : T → Option (Task (Future T × W))) (f : SetupFunc T W)
      (options : List (InstanceBuildOption T (Future T × W))) where
    abbrev this : TaskBuild (Store T (Future T × W) × (Future T × W))
    this = (new w0 empty as_task (some f) options).0.0

    -- From an unresolved future, in a task that has no data yet and whose parent has no setup step:
    -- a setup whose function returns leaves the future resolved, for both kinds of read, with the
    -- data or, wrapped, with the function's error, and the callback for a skipped task then returns
    -- and changes nothing; and the callback alone returns and resolves it with an error that
    -- matches ErrTaskSkipped, the causes that the given cause matches, and no others.
    pub future-Resolved :
        (ctx ctx' : Ctx) (cause : Option Error) (t : ℕ) (st : Store T (Future T × W))
        (fut : Future T) (w w' : W) (d : T) (err : Option Error)
        → IsPending empty fut
        → st.datum ≡ none
        → parent_has st.parent (fut, w) setup ≡ false
        → f ctx w ≡ (returned (d, err), w')
        → let (outcome, (st', (fut', w''))) = run this ctx setup (st, (fut, w)) in
          let (o, (skipped, w1)) = skip ctx' cause (fut, w) in
          (w'' ≡ w')
          × Resolved empty (found empty d err) fut'
          × (skip ctx' cause (fut', w'') ≡ (returned tt, (fut', w'')))
          × (o ≡ returned tt)
          × Resolved empty (wrap_value (empty, some (skip_error cause))) skipped
          × (is_opt t (task_value_now empty skipped).0.1
              ≡ (Sentinel.task_skipped == t) || is_opt t cause)
    unfolding new build future_setup
    future-Resolved ctx ctx' cause t st fut w w' d err p q h e =
        let world =
          first_setup-world (new_future empty, w0) empty as_task (future_setup empty f)
            (options ++ with_skipped (some skip) ∷ []) ctx st (fut, w) q h
          ∙ ap (λ x. (settle empty x.0 (fut, x.1)).1) e in
        let (kept, resolved) = settle-Resolved empty d err fut w' p in
        let (returns', kept', resolved') = skip-Resolved empty ctx' cause fut w p in
        (
          ap (λ x. x.1) world ∙ kept,
          subst (λ x. Resolved empty (found empty d err) x.0) (sym world) resolved,
          skip-closed ctx' cause _ _ (ap (λ x. is_closed x.0.latch) world ∙ resolved.0),
          returns',
          resolved',
          ap (λ x. is_opt t x.1) resolved'.1 ∙ skip-is t empty cause,
        )
