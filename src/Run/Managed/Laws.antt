-- ===== src/Run/Managed/Laws.antt =====
-- run.go over manager.go: every run of a manager that was made by New and filled by AddTask.
use svcinit.Common.{
  ℕ, ◌+◌, ◌≡◌, refl, ap, sym, ◌∙◌, subst, true, false, ◌&&◌, Option, none, some, List, [], ◌∷◌, map,
  arith, is_nil, ◌++◌, ◌≤◌, length, fun_ext, ap₂, Bool,
}
use svcinit.Errors.{Error}
use svcinit.Context.{Ctx}
use svcinit.Step.{Step}
use svcinit.Wrapper.{Wrapper}
use svcinit.Wrapper.Phase.{Phase, IsLifecycle}
use svcinit.Manager.{
  Manager, ManagerOption, StageTasks, NewResult, made, failed, new, finish_new, apply_options,
  apply_option, default_manager, stage_tasks, init_stages,
}
use svcinit.Manager.Running.{Call, perform, after_calls}
use svcinit.Manager.Running.Added.{added, after_calls-added, after_calls-stages}
use svcinit.Manager.Tidy.{Tidy, perform-Tidy}
use svcinit.Run.{System, Reach}
use svcinit.Run.Order.{Reach-IsLifecycle}
use svcinit.Run.Begin.{begin_run, proceeds}
use svcinit.Run.Begin.Laws.{begin_run_proceeds}
use svcinit.Run.Managed.{
  plan_of, store_of, pointed, plan_of-Unique, pointed-plan_from, unstarted_at,
  unstarted-stage_wrappers,
}

nil_steps : (ss : List Step) → is_nil ss ≡ true → ss ≡ []
nil_steps [] h = refl
nil_steps (s ∷ ss) h = absurd (cc)

pub no_errors : (es : List Error) → is_nil es ≡ true → length es ≤ 0
no_errors [] h = omega arith
no_errors (e ∷ es) h = absurd (cc)

from_zero : (i : ℕ) → 0 + i ≡ i
from_zero i = omega arith

module _ {W : Type 0} where
  abbrev tasks_of : NewResult W → StageTasks W
  tasks_of (made m) = m.tasks
  tasks_of (failed e) = []

  option_tasks : (m : Manager W) (o : ManagerOption W) → (apply_option m o).tasks ≡ m.tasks
  unfolding apply_option
  option_tasks m o = ground arith

  options_tasks :
      (m : Manager W) (os : List (ManagerOption W)) → (apply_options m os).tasks ≡ m.tasks
  unfolding apply_options
  options_tasks m [] = refl
  options_tasks m (o ∷ os) = options_tasks (apply_option m o) os ∙ option_tasks m o

  was_made : (m n : Manager W) (e : Option Error) → finish_new m e ≡ made n → m.tasks ≡ n.tasks
  was_made m n none h = ap tasks_of h
  was_made m n (some e) h = absurd (cc h)

  pub new-Tidy : (options : List (ManagerOption W)) (m : Manager W) → new options ≡ made m → Tidy m
  unfolding new default_manager
  new-Tidy options m h =
      let m' = apply_options default_manager options in
      let empty : m.tasks ≡ [] =
        sym (was_made m' m (init_stages m'.stages) h) ∙ options_tasks default_manager options in
      rw empty refl

  after_calls-Tidy : (cs : List (Call W)) (m : Manager W) → Tidy m → Tidy (after_calls cs m)
  after_calls-Tidy [] m t = t
  after_calls-Tidy (c ∷ cs) m t = after_calls-Tidy cs (perform c m) (perform-Tidy c m t)

  store_of-new :
      (tw : Wrapper W) (m : Manager W)
      → tw.execute_steps ≡ []
      → Tidy m
      → (i : ℕ) → (store_of tw m i).execute_steps ≡ []
  unfolding store_of
  store_of-new tw m h t i =
      nil_steps (store_of tw m i).execute_steps
        (unstarted_at tw _ (ap is_nil h) (unstarted-stage_wrappers m.stages m.stages m.tasks t) i)

  option_idle : (m : Manager W) (o : ManagerOption W) → (apply_option m o).is_running ≡ m.is_running
  unfolding apply_option
  option_idle m o = ground arith

  options_idle :
      (m : Manager W) (os : List (ManagerOption W)) → (apply_options m os).is_running ≡ m.is_running
  unfolding apply_options
  options_idle m [] = refl
  options_idle m (o ∷ os) = options_idle (apply_option m o) os ∙ option_idle m o

  abbrev idle_or : NewResult W → Bool
  idle_or (made m) = m.is_running
  idle_or (failed e) = false

  made_idle :
      (m n : Manager W) (e : Option Error) → finish_new m e ≡ made n → m.is_running ≡ n.is_running
  made_idle m n none h = ap idle_or h
  made_idle m n (some e) h = absurd (cc h)

  -- What New makes does not run and has no tasks.
  pub new_empty :
      (options : List (ManagerOption W)) (m : Manager W)
      → new options ≡ made m
      → (m.is_running ≡ false) × (m.tasks ≡ [])
  unfolding new default_manager
  new_empty options m h =
      let m' = apply_options default_manager options in
      (
        sym (made_idle m' m (init_stages m'.stages) h) ∙ options_idle default_manager options,
        sym (was_made m' m (init_stages m'.stages) h) ∙ options_tasks default_manager options,
      )

  -- A run of an idle manager after calls on it: its plan points to what stood in the stages before,
  -- and behind that to the tasks that the calls name, and every task goes through its steps in order.
  pub prepared_run :
      (calls during : List (Call W)) (m n : Manager W) (ctx c : Ctx) (w : W) (tw : Wrapper W)
      (s : System W)
      → Tidy m
      → m.is_running ≡ false
      → (begin_run ctx during (after_calls calls m) w).0 ≡ proceeds c
      → (begin_run ctx during (after_calls calls m) w).1 ≡ n
      → tw.execute_steps ≡ []
      → Reach (plan_of n) n.enforce_shutdown_timeout (store_of tw n) n.startup s
      → n.enforce_shutdown_timeout && s.expired ≡ false
      → (pointed (store_of tw n) (plan_of n)
          ≡ map (λ stage. stage_tasks stage m.tasks ++ added stage calls) m.stages)
        × ((i : ℕ) → (p : Phase) × IsLifecycle (s.wrappers i).execute_steps p)
  unfolding plan_of store_of
  prepared_run calls during m n ctx c w tw s tidy idle runs is_n fresh r h =
      let before = after_calls calls m in
      let (a, errors, d, kept, running, stages, tasks, e) =
        begin_run_proceeds ctx during before w c runs in
      let tidy' = subst Tidy (sym kept ∙ is_n) (
        after_calls-Tidy during (record before { is_running = true })
          (after_calls-Tidy calls m tidy)) in
      let same_stages : n.stages ≡ m.stages =
        ap (λ x. x.stages) (sym is_n ∙ kept) ∙ (stages ∙ after_calls-stages calls m) in
      let same_tasks : n.tasks ≡ before.tasks = ap (λ x. x.tasks) (sym is_n ∙ kept) ∙ tasks in
      (
        pointed-plan_from (store_of tw n) tw 0 0 n.stages n.tasks
              (λ i. ap (store_of tw n) (from_zero i))
            ∙ (ap₂ (λ ss ts. map (λ stage. stage_tasks stage ts) ss) same_stages same_tasks
                ∙ ap (λ f. map f m.stages)
                    (fun_ext (λ stage.
                      after_calls-added calls m stage idle (no_errors before.init_errors errors)))),
        Reach-IsLifecycle (plan_of n) n.enforce_shutdown_timeout (plan_of-Unique n) (store_of tw n)
            n.startup (store_of-new tw n fresh tidy') r h,
      )

  -- For a manager that New has made with any options, after any calls of AddTask, AddInitError and
  -- Shutdown, where Run goes on to its first stage, whatever is called meanwhile: each stage has
  -- the tasks that the AddTask calls before Run named it for, all of them and in the order of the
  -- calls (the stages of the run's plan point to the wrappers that newTaskWrapper makes of them,
  -- and to nothing else); and in every reachable state of that run, where the manager does not
  -- enforce its shutdown timeout or that has not passed, every task has done its steps in order and
  -- none twice; whatever new wrapper tw stands for the numbers that are not in the plan.
  pub managed_run :
      (options : List (ManagerOption W)) (calls during : List (Call W)) (m n : Manager W)
      (ctx c : Ctx) (w : W) (tw : Wrapper W) (s : System W)
      → new options ≡ made m
      → (begin_run ctx during (after_calls calls m) w).0 ≡ proceeds c
      → (begin_run ctx during (after_calls calls m) w).1 ≡ n
      → tw.execute_steps ≡ []
      → Reach (plan_of n) n.enforce_shutdown_timeout (store_of tw n) n.startup s
      → n.enforce_shutdown_timeout && s.expired ≡ false
      → (pointed (store_of tw n) (plan_of n) ≡ map (λ stage. added stage calls) m.stages)
        × ((i : ℕ) → (p : Phase) × IsLifecycle (s.wrappers i).execute_steps p)
  unfolding stage_tasks
  managed_run options calls during m n ctx c w tw s made_m runs is_n fresh r h =
      let (idle, empty) = new_empty options m made_m in
      let (points, once) =
        prepared_run calls during m n ctx c w tw s (new-Tidy options m made_m) idle runs is_n fresh
          r h in
      (
        points ∙ ap (λ ts. map (λ stage. stage_tasks stage ts ++ added stage calls) m.stages) empty,
        once,
      )
