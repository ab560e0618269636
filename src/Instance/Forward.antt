-- ===== src/Instance/Forward.antt =====
-- A task made by `Provider` forwards the steps of the task that its setup returns.
use mathlib.Core.Option
use svcinit.Common.{
  ◌≡◌, refl, ap₂, sym, ◌∙◌, subst, Bool, true, false, Option, none, some, List, [], ◌∷◌, ◌++◌,
  if◌then◌else◌, is_some, returned,
}
use svcinit.Errors.{Error}
use svcinit.Context.{Ctx}
use svcinit.Step.{Step, setup, step_eq}
use svcinit.Task.{Task, task_has_step}
use svcinit.Build.{TaskBuild, BuildFunc, lookup, init}
use svcinit.Build
use svcinit.Build.Init.{parent_has, IsClean, init-IsClean}
use svcinit.Instance.{Store, SetupFunc, DataFunc, lift_task, run, outside, set_parent, adopt}
use svcinit.Instance.Make.{
  BuildOptions, InstanceBuildOption, with_parent_from_setup, provider, apply_instance_options,
  apply_instance_option, no_build_options,
}
use svcinit.Instance.Lookup.{first, given, lookup-options_build, options-IsProper}
use svcinit.Instance.Laws.{opts, task, shape, setup_func, lookup-task, run_parents, has_step-lift}
use svcinit.Instance.Data.{setup_runs}

module _ {T W : Type 0} where
  from_setup :
      (options : List (InstanceBuildOption T W)) (o : BuildOptions T W)
      → (apply_instance_options o (options ++ with_parent_from_setup true ∷ [])).parent_from_setup
        ≡ true
  unfolding apply_instance_options apply_instance_option
  from_setup [] o = refl
  from_setup (x ∷ xs) o = from_setup xs (apply_instance_option o x)

  module _ (w0 : W) (empty : T) (as_task : T → Option (Task W)) (f : SetupFunc T W)
      (options : List (InstanceBuildOption T W)) where
    -- What has no function in the build that `runSetup` sees has none in the build.
    shape_lacks :
        (s : Step)
        → lookup s (shape w0 empty as_task f options).step_func ≡ none
        → lookup s (task w0 empty as_task f options).step_func ≡ none
    shape_lacks s h =
        lookup-task w0 empty as_task f options s
        ∙ both (setup_func w0 empty as_task f options) (λ ctx v. (returned none, v))
            (lookup s (opts w0 empty as_task f options).step_func) (step_eq setup s)
            (sym (
                lookup-options_build empty s (opts w0 empty as_task f options) _
                  (options-IsProper options).0)
              ∙ h)
      where
        both :
            (g g' : BuildFunc (Store T W × W)) (o : Option (Option (DataFunc T W))) (b : Bool)
            → first (Option.map (given empty) o) (if b then some (some g') else none) ≡ none
            → first (Option.map (given empty) o) (if b then some (some g) else none) ≡ none
        both g g' none true e = absurd (cc e)
        both g g' none false e = refl
        both g g' (some x) b e = absurd (cc e)

    adopted :
        (ctx : Ctx) (s : Step) (st : Store T W) (w w1 : W) (p : Task W)
        → let (r, (st', w')) = set_parent (shape w0 empty as_task f options) p (st, w) in
          r ≡ returned none
          → task_has_step p w s ≡ true
          → task_has_step p w1 s ≡ true
          → run (task w0 empty as_task f options) ctx s (st', w1) ≡ outside (p.run ctx s) (st', w1)
    unfolding set_parent Build.set_parent init
    adopted ctx s st w w1 p r has has1 =
        run_parents (task w0 empty as_task f options) ctx s _ w1 p
          (shape_lacks s (absent _ (clean.apart s (has_step-lift p s st w ∙ has)))) refl has1
      where
        shaped : TaskBuild (Store T W × W)
        shaped = record (shape w0 empty as_task f options) { parent = some (lift_task p) }

        no_error : (o : Option Error) → returned o ≡ returned none → o ≡ none
        no_error o e = cc e

        clean : IsClean (st, w) shaped (some (lift_task p))
        clean = init-IsClean (st, w) shaped (no_error _ r)

        absent : {V : Type 0} (o : Option V) → is_some o ≡ false → o ≡ none
        absent none e = refl
        absent (some v) e = absurd (cc e)

    set_up_parent :
        (b : Bool) (o : Option (Task W)) (p : Task W) (v : Store T W × W)
        → b ≡ true
        → o ≡ some p
        → adopt (shape w0 empty as_task f options) b o v
          ≡ set_parent (shape w0 empty as_task f options) p v
    unfolding adopt
    set_up_parent b o p v h e = ap₂ (λ x y. adopt (shape w0 empty as_task f options) x y v) h e

  module _ (w0 : W) (empty : T) (as_task : T → Option (Task W)) (f : SetupFunc T W)
      (options : List (InstanceBuildOption T W)) where
    abbrev provided : TaskBuild (Store T W × W)
    provided = (provider w0 empty as_task (some f) options).0

    -- If the setup of a task made by Provider returns a task and the step succeeds, then every step
    -- that the returned task has then is run by it in any later world in which it still has that
    -- step, with what the setup stored, also if the options gave a function for some steps, since
    -- none of them is for such a step; where no setup has stored data before, and the parent that
    -- the task had before has no setup step.
    pub provider_forwards :
        (ctx ctx' : Ctx) (s : Step) (st : Store T W) (w w' w1 : W) (d : T) (p : Task W)
        → st.datum ≡ none
        → parent_has st.parent w setup ≡ false
        → f ctx w ≡ (returned (d, none), w')
        → as_task d ≡ some p
        → (run provided ctx setup (st, w)).0 ≡ returned none
        → task_has_step p w' s ≡ true
        → task_has_step p w1 s ≡ true
        → let (r, (st', w'')) = run provided ctx setup (st, w) in
          run provided ctx' s (st', w1) ≡ outside (p.run ctx' s) (st', w1)
    unfolding provider
    provider_forwards ctx ctx' s st w w' w1 d p q h e is ok has has1 =
        subst
          (λ x.
            x.0 ≡ returned none
            → run provided ctx' s (x.1.0, w1) ≡ outside (p.run ctx' s) (x.1.0, w1))
          (sym result)
          (λ r.
            adopted w0 empty as_task f all ctx' s (record st { datum = some d }) w' w1 p r has has1)
          ok
      where
        all : List (InstanceBuildOption T W)
        all = options ++ with_parent_from_setup true ∷ []

        result :
            run provided ctx setup (st, w)
            ≡ set_parent (shape w0 empty as_task f all) p (record st { datum = some d }, w')
        result =
            setup_runs w0 empty as_task f all ctx st w w' d q h e
            ∙ set_up_parent w0 empty as_task f all (opts w0 empty as_task f all).parent_from_setup
                (as_task d) p (record st { datum = some d }, w')
                (from_setup options no_build_options) is
