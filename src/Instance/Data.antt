-- ===== src/Instance/Data.antt =====
-- The data of an instance task: none before its setup, and fixed after it.
use svcinit.Common.{
  ◌≡◌, refl, ap, sym, ◌∙◌, subst, Bool, true, false, Option, none, some, List, [], ◌∷◌,
  if◌then◌else◌, returned,
}
use mathlib.Core.Option
use svcinit.Errors.{Error, plain, is_opt}
use svcinit.Errors.Sentinel
use svcinit.Context.{Ctx}
use svcinit.Step.{Step, setup, step_eq}
use svcinit.Task.{Task}
use svcinit.Build.{TaskBuild, BuildFunc, lookup, parent_for, dispatch}
use svcinit.Build
use svcinit.Build.Init.{parent_has}
use svcinit.Instance.{
  Store, SetupFunc, DataFunc, with_data, run, current, outside, not_initialized, adopt,
}
use svcinit.Instance.Make.{InstanceBuildOption}
use svcinit.Instance.Laws.{
  run_own, opts, task, shape, setup_func, has_setup, has_step, step_with_data, with_data-none,
  with_data-some, lookup-task,
}
use svcinit.Instance.Lookup.{first, given}
use svcinit.Instance.Setup.{
  adopt_keeps, setup_unset, setup_set, setup_world, Keeps, dispatch-Keeps, lifted-if,
}

module _ {T W : Type 0} where
  module _ (w0 : W) (empty : T) (as_task : T → Option (Task W)) (f : SetupFunc T W)
      (options : List (InstanceBuildOption T W)) where
    abbrev this : TaskBuild (Store T W × W)
    this = task w0 empty as_task f options

    abbrev setup_of_this : BuildFunc (Store T W × W)
    setup_of_this = setup_func w0 empty as_task f options

    own-Keeps :
        (s : Step) (ctx : Ctx) (st : Store T W) (w : W) (d : T)
        → st.datum ≡ some d
        → (g : BuildFunc (Store T W × W)) → lookup s this.step_func ≡ some (some g)
        → Keeps st w g ctx
    own-Keeps s ctx st w d q g e =
        one (lookup s (opts w0 empty as_task f options).step_func) (step_eq setup s)
          (sym (lookup-task w0 empty as_task f options s) ∙ e)
      where
        one :
            (o : Option (Option (DataFunc T W))) (b : Bool)
            → first (Option.map (given empty) o) (if b then some (some setup_of_this) else none)
              ≡ some (some g)
            → Keeps st w g ctx
        one none true h =
            let is : setup_of_this ≡ g = cc h in
            subst (λ x. Keeps st w x ctx) is
              (ap (λ x. x.1.0) (setup_set _ _ as_task f ctx st w d q))
        one none false h = absurd (cc h)
        one (some none) b h = absurd (cc h)
        one (some (some k)) b h =
            let is : with_data empty k ≡ g = cc h in
            subst (λ x. Keeps st w x ctx) is (ap (λ x. x.1.0) (with_data-some empty k ctx st w d q))

    run_keeps :
        (ctx : Ctx) (s : Step) (st : Store T W) (w : W) (d : T)
        → st.datum ≡ some d
        → (run this ctx s (st, w)).1.0 ≡ st
    unfolding run current Build.run
    run_keeps ctx s st w d q =
        let (b, e) = lifted-if st.parent (st, w) s in
        ap (λ p. (dispatch (lookup s this.step_func) p s ctx (st, w)).1.0) e
        ∙ dispatch-Keeps (lookup s this.step_func) st.parent b ctx s st w (own-Keeps s ctx st w d q)

    -- The store after some runs of steps, each in a world of its own.
    unfoldable pub after_runs : List (Ctx × Step × W) → Store T W → Store T W
    after_runs [] st = st
    after_runs ((ctx, s, w) ∷ rest) st = after_runs rest (run this ctx s (st, w)).1.0

    runs_keep :
        (runs : List (Ctx × Step × W)) (st : Store T W) (d : T)
        → st.datum ≡ some d
        → after_runs runs st ≡ st
    unfolding after_runs
    runs_keep [] st d q = refl
    runs_keep ((ctx, s, w) ∷ rest) st d q =
        ap (after_runs rest) (run_keeps ctx s st w d q) ∙ runs_keep rest st d q

    -- Once an instance task has its data, its data, parent and computed steps never change again,
    -- whatever steps it is run for, in any order and in any worlds; and another setup is then
    -- refused with ErrAlreadyInitialized and does not call the setup function, where the parent has
    -- no setup step.
    pub after_runs_fixed :
        (runs : List (Ctx × Step × W)) (ctx : Ctx) (st : Store T W) (w : W) (d : T)
        → st.datum ≡ some d
        → parent_has st.parent w setup ≡ false
        → (after_runs runs st ≡ st)
          × (run this ctx setup (after_runs runs st, w)
              ≡ (returned (some (plain Sentinel.already_initialized)), (st, w)))
    after_runs_fixed runs ctx st w d q h =
        let same = runs_keep runs st d q in
        (
          same,
          ap (λ x. run this ctx setup (x, w)) same
              ∙ (run_own this ctx setup st w setup_of_this (has_setup w0 empty as_task f options) h
                  ∙ setup_set _ _ as_task f ctx st w d q),
        )

    -- A step of an instance task that runs before its data are there returns an error that matches
    -- ErrNotInitialized and does not call the step's function, where the parent lacks the step.
    pub run_before_setup :
        (ctx : Ctx) (s : Step) (g : DataFunc T W) (st : Store T W) (w : W)
        → lookup s (opts w0 empty as_task f options).step_func ≡ some (some g)
        → parent_has st.parent w s ≡ false
        → st.datum ≡ none
        → (e : Error) × (is_opt Sentinel.not_initialized (some e) ≡ true)
          × (run this ctx s (st, w) ≡ (returned (some e), (st, w)))
    unfolding not_initialized svcinit.Errors.is
    run_before_setup ctx s g st w e h q = (
      not_initialized,
      refl,
      run_own this ctx s st w (with_data empty g) (has_step w0 empty as_task f options s g e) h
          ∙ with_data-none empty g ctx st w q,
    )

    pub first_setup-world :
        (ctx : Ctx) (st : Store T W) (w : W)
        → st.datum ≡ none
        → parent_has st.parent w setup ≡ false
        → (run this ctx setup (st, w)).1.1 ≡ (f ctx w).1
    first_setup-world ctx st w q h =
        ap (λ x. x.1.1)
          (run_own this ctx setup st w setup_of_this (has_setup w0 empty as_task f options) h)
        ∙ setup_world (shape w0 empty as_task f options)
            (opts w0 empty as_task f options).parent_from_setup as_task f ctx st w q

    pub setup_runs :
        (ctx : Ctx) (st : Store T W) (w w' : W) (d : T)
        → st.datum ≡ none
        → parent_has st.parent w setup ≡ false
        → f ctx w ≡ (returned (d, none), w')
        → run this ctx setup (st, w)
          ≡ adopt
              (shape w0 empty as_task f options)
              (opts w0 empty as_task f options).parent_from_setup
              (as_task d)
              (record st { datum = some d }, w')
    setup_runs ctx st w w' d q h e =
        run_own this ctx setup st w setup_of_this (has_setup w0 empty as_task f options) h
        ∙ setup_unset _ _ as_task f ctx st w w' d q e

    -- The data that the setup function of an instance task returns without an error are the data
    -- that each of its other steps is given: after the setup step they are stored, the world is as
    -- the function left it, and a step with an own function runs that function on them; where no
    -- setup has stored data before, and the parent, as it is at each of the two steps, lacks the
    -- step.
    pub setup_then_step :
        (ctx ctx' : Ctx) (s : Step) (g : DataFunc T W) (st : Store T W) (w w' w1 : W) (d : T)
        → st.datum ≡ none
        → parent_has st.parent w setup ≡ false
        → f ctx w ≡ (returned (d, none), w')
        → lookup s (opts w0 empty as_task f options).step_func ≡ some (some g)
        → parent_has (run this ctx setup (st, w)).1.0.parent w1 s ≡ false
        → let (r, (st', w'')) = run this ctx setup (st, w) in
          (st'.datum ≡ some d)
          × (w'' ≡ w')
          × (run this ctx' s (st', w1) ≡ outside (g ctx' d) (st', w1))
    setup_then_step ctx ctx' s g st w w' w1 d q h e l n =
        let runs = setup_runs ctx st w w' d q h e in
        let (data_is, world_is) =
          adopt_keeps (shape w0 empty as_task f options)
            (opts w0 empty as_task f options).parent_from_setup (as_task d)
            (record st { datum = some d }) w' in
        let now = ap (λ x. x.1.0.datum) runs ∙ data_is in
        (
          now,
          ap (λ x. x.1.1) runs ∙ world_is,
          step_with_data w0 empty as_task f options ctx' s g (run this ctx setup (st, w)).1.0 w1 d l
              n now,
        )
