-- ===== src/Instance/Setup.antt =====
-- One setup of an instance task, and what the functions of its inner build leave alone.
use svcinit.Common.{
  Outcome, panicked, ◌≡◌, refl, ap, ◌∙◌, Bool, true, false, Option, none, some, arith,
  if◌then◌else◌, is_some, returned,
}
use mathlib.Core.Option
use svcinit.Errors.{Error, plain}
use svcinit.Errors.Sentinel
use svcinit.Context.{Ctx}
use svcinit.Step.{Step}
use svcinit.Task.{Task, task_has_step}
use svcinit.Build.{TaskBuild, BuildFunc, parent_for, dispatch}
use svcinit.Instance.{Store, SetupFunc, lift_task, run_setup, set_parent, adopt, after_setup}

module _ {T W : Type 0} where
  pub adopt_keeps :
      (t : TaskBuild (Store T W × W)) (b : Bool) (p : Option (Task W)) (st : Store T W) (w : W)
      → ((adopt t b p (st, w)).1.0.datum ≡ st.datum) × ((adopt t b p (st, w)).1.1 ≡ w)
  unfolding set_parent adopt
  adopt_keeps t false p st w = (refl, refl)
  adopt_keeps t true none st w = (refl, refl)
  adopt_keeps t true (some p) st w = (refl, refl)

  -- A setup that has no data yet.
  pub setup_unset :
      (t : TaskBuild (Store T W × W)) (b : Bool) (as_task : T → Option (Task W)) (f : SetupFunc T W)
      (ctx : Ctx) (st : Store T W) (w w' : W) (d : T)
      → st.datum ≡ none
      → f ctx w ≡ (returned (d, none), w')
      → run_setup t b as_task f ctx (st, w)
        ≡ adopt t b (as_task d) (record st { datum = some d }, w')
  unfolding run_setup after_setup
  setup_unset t b as_task f ctx st w w' d q e =
      ap
        (λ o.
          if is_some o
          then (returned (some (plain Sentinel.already_initialized)), (st, w))
          else after_setup t b as_task (f ctx w).0 (st, (f ctx w).1))
        q
      ∙ ap (λ x. after_setup t b as_task x.0 (st, x.1)) e

  pub setup_set :
      (t : TaskBuild (Store T W × W)) (b : Bool) (as_task : T → Option (Task W)) (f : SetupFunc T W)
      (ctx : Ctx) (st : Store T W) (w : W) (d : T)
      → st.datum ≡ some d
      → run_setup t b as_task f ctx (st, w)
        ≡ (returned (some (plain Sentinel.already_initialized)), (st, w))
  unfolding run_setup
  setup_set t b as_task f ctx st w d q =
      ap
        (λ o.
          if is_some o
          then (returned (some (plain Sentinel.already_initialized)), (st, w))
          else after_setup t b as_task (f ctx w).0 (st, (f ctx w).1))
        q

  pub adopt_world :
      (t : TaskBuild (Store T W × W)) (b : Bool) (as_task : T → Option (Task W))
      (r : Outcome (T × Option Error)) (st : Store T W) (w : W)
      → (after_setup t b as_task r (st, w)).1.1 ≡ w
  unfolding after_setup
  adopt_world t b as_task panicked st w = refl
  adopt_world t b as_task (returned (d, some e)) st w = refl
  adopt_world t b as_task (returned (d, none)) st w =
      (adopt_keeps t b (as_task d) (record st { datum = some d }) w).1

  -- What a first setup does to the world, whatever comes of it.
  pub setup_world :
      (t : TaskBuild (Store T W × W)) (b : Bool) (as_task : T → Option (Task W)) (f : SetupFunc T W)
      (ctx : Ctx) (st : Store T W) (w : W)
      → st.datum ≡ none
      → (run_setup t b as_task f ctx (st, w)).1.1 ≡ (f ctx w).1
  unfolding run_setup
  setup_world t b as_task f ctx st w q =
      ap
        (λ o.
          (if is_some o
            then (returned (some (plain Sentinel.already_initialized)), (st, w))
            else after_setup t b as_task (f ctx w).0 (st, (f ctx w).1)).1.1)
        q
      ∙ adopt_world t b as_task (f ctx w).0 st (f ctx w).1

  -- A function of the inner build leaves a store that has data.
  abbrev pub Keeps : Store T W → W → BuildFunc (Store T W × W) → Ctx → Type 0
  Keeps st w g ctx = (g ctx (st, w)).1.0 ≡ st

  pub dispatch-Keeps :
      (o : Option (Option (BuildFunc (Store T W × W)))) (p : Option (Task W)) (b : Bool) (ctx : Ctx)
      (s : Step) (st : Store T W) (w : W)
      → ((g : BuildFunc (Store T W × W)) → o ≡ some (some g) → Keeps st w g ctx)
      → (dispatch o (if b then Option.map lift_task p else none) s ctx (st, w)).1.0 ≡ st
  unfolding lift_task
  dispatch-Keeps none none b ctx s st w h = ground arith
  dispatch-Keeps none (some p) true ctx s st w h = refl
  dispatch-Keeps none (some p) false ctx s st w h = refl
  dispatch-Keeps (some none) none b ctx s st w h = ground arith
  dispatch-Keeps (some none) (some p) true ctx s st w h = refl
  dispatch-Keeps (some none) (some p) false ctx s st w h = refl
  dispatch-Keeps (some (some g)) (some p) true ctx s st w h = refl
  dispatch-Keeps (some (some g)) (some p) false ctx s st w h = h g refl
  dispatch-Keeps (some (some g)) none true ctx s st w h = h g refl
  dispatch-Keeps (some (some g)) none false ctx s st w h = h g refl

  pub lifted-if :
      (p : Option (Task W)) (v : Store T W × W) (s : Step)
      → (b : Bool) × (parent_for (Option.map lift_task p) v s
          ≡ (if b then Option.map lift_task p else none))
  unfolding parent_for
  lifted-if none v s = (false, refl)
  lifted-if (some p) v s = (task_has_step (lift_task p) v s, refl)
