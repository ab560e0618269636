-- ===== src/Instance/Laws.antt =====
-- Where an instance task sends a step, and what the data are at each step.
use mathlib.Core.Option
use svcinit.Common.{
  ◌≡◌, refl, ap, ap₂, ◌∙◌, true, false, Option, none, some, List, if◌then◌else◌, is_some, Outcome,
  returned,
}
use svcinit.Errors.{Error}
use svcinit.Context.{Ctx}
use svcinit.Step.{Step, setup, step_eq}
use svcinit.Task.{Task, TaskInfo, task_has_step, get_task_info}
use svcinit.Build.{TaskBuild, BuildFunc, lookup, parent_for, dispatch, new_task_build}
use svcinit.Build
use svcinit.Build.Init.{parent_has}
use svcinit.Instance.{
  Store, SetupFunc, DataFunc, lift_task, with_data, run_setup, run, current, outside, task_data,
  not_initialized,
}
use svcinit.Instance.Make.{
  BuildOptions, InstanceBuildOption, instance_build, options_build, build, apply_instance_options,
  no_build_options,
}
use svcinit.Instance.Lookup.{lookup-options_build, given, first, options-IsProper}

module _ {T W : Type 0} where
  pub has_step-lift :
      (p : Task W) (s : Step) (st : Store T W) (w : W)
      → task_has_step (lift_task p) (st, w) s ≡ task_has_step p w s
  unfolding task_has_step lift_task get_task_info
  has_step-lift p s st w = by_info p.task_info
    where
      by_info :
          (o : Option (W → TaskInfo W))
          → task_has_step (lift_task (record p { task_info = o })) (st, w) s
            ≡ task_has_step (record p { task_info = o }) w s
      by_info none = refl
      by_info (some i) = refl

  module _ (t : TaskBuild (Store T W × W)) (ctx : Ctx) (s : Step) (st : Store T W) (w : W) where
    lifted_for :
        (p : Option (Task W))
        → parent_has p w s ≡ false
        → parent_for (Option.map lift_task p) (st, w) s ≡ none
    unfolding parent_for
    lifted_for none h = refl
    lifted_for (some p) h = rw (has_step-lift p s st w ∙ h) refl

    pub run_own :
        (g : BuildFunc (Store T W × W))
        → lookup s t.step_func ≡ some (some g)
        → parent_has st.parent w s ≡ false
        → run t ctx s (st, w) ≡ g ctx (st, w)
    unfolding run current Build.run
    run_own g e h = rw (e, lifted_for st.parent h) refl

    lifted_some :
        (p : Task W)
        → task_has_step p w s ≡ true
        → parent_for (some (lift_task {T = T} p)) (st, w) s ≡ some (lift_task p)
    unfolding parent_for
    lifted_some p h = rw (has_step-lift p s st w ∙ h) refl

    pub run_parents :
        (p : Task W)
        → lookup s t.step_func ≡ none
        → st.parent ≡ some p
        → task_has_step p w s ≡ true
        → run t ctx s (st, w) ≡ outside (p.run ctx s) (st, w)
    unfolding run current Build.run lift_task
    run_parents p e q h =
        ap₂ (λ o x. dispatch o x s ctx (st, w)) e
          (ap (λ x. parent_for (Option.map lift_task x) (st, w) s) q ∙ lifted_some p h)

  abbrev with_datum :
      T → DataFunc T W → Ctx → Store T W → W → Option T → Outcome (Option Error) × (Store T W × W)
  with_datum empty g ctx st w o =
      let (x, err) : T × Option Error = elim o [
        | none ↦ (empty, some not_initialized)
        | some y ↦ (y, none)
      ] in
      if is_some err then (returned err, (st, w)) else outside (g ctx x) (st, w)

  pub with_data-some :
      (empty : T) (g : DataFunc T W) (ctx : Ctx) (st : Store T W) (w : W) (d : T)
      → st.datum ≡ some d
      → with_data empty g ctx (st, w) ≡ outside (g ctx d) (st, w)
  unfolding with_data task_data
  with_data-some empty g ctx st w d q = ap (with_datum empty g ctx st w) q

  pub with_data-none :
      (empty : T) (g : DataFunc T W) (ctx : Ctx) (st : Store T W) (w : W)
      → st.datum ≡ none
      → with_data empty g ctx (st, w) ≡ (returned (some not_initialized), (st, w))
  unfolding with_data task_data
  with_data-none empty g ctx st w q = ap (with_datum empty g ctx st w) q

  module _ (w0 : W) (empty : T) (as_task : T → Option (Task W)) (f : SetupFunc T W)
      (options : List (InstanceBuildOption T W)) where
    abbrev pub opts : BuildOptions T W
    opts = apply_instance_options no_build_options options

    abbrev pub task : TaskBuild (Store T W × W)
    task = (build w0 empty as_task (some f) options).0

    -- The inner build as `runSetup` sees it.
    abbrev pub shape : TaskBuild (Store T W × W)
    shape = options_build empty opts (some (λ ctx v. (returned none, v)))

    abbrev pub setup_func : BuildFunc (Store T W × W)
    setup_func = run_setup shape opts.parent_from_setup as_task f

    -- Each step has the function that the options give for it; `setup` has `runSetup`.
    pub lookup-task :
        (s : Step)
        → lookup s task.step_func
          ≡ first
              (Option.map (given empty) (lookup s opts.step_func))
              (if step_eq setup s then some (some setup_func) else none)
    unfolding build instance_build
    lookup-task s = lookup-options_build empty s opts _ (options-IsProper options).0

    pub has_setup : lookup setup task.step_func ≡ some (some setup_func)
    has_setup =
        lookup-task setup
        ∙ ap (λ o. first (Option.map (given empty) o) (some (some setup_func)))
            (options-IsProper options).1

    pub has_step :
        (s : Step) (g : DataFunc T W)
        → lookup s opts.step_func ≡ some (some g)
        → lookup s task.step_func ≡ some (some (with_data empty g))
    has_step s g e =
        lookup-task s
        ∙ ap
            (λ o.
              first (Option.map (given empty) o)
                (if step_eq setup s then some (some setup_func) else none))
            e

    -- The data, once there, are passed to the function of a step.
    pub step_with_data :
        (ctx : Ctx) (s : Step) (g : DataFunc T W) (st : Store T W) (w : W) (d : T)
        → lookup s opts.step_func ≡ some (some g)
        → parent_has st.parent w s ≡ false
        → st.datum ≡ some d
        → run task ctx s (st, w) ≡ outside (g ctx d) (st, w)
    step_with_data ctx s g st w d e h q =
        run_own task ctx s st w (with_data empty g) (has_step s g e) h
        ∙ with_data-some empty g ctx st w d q
