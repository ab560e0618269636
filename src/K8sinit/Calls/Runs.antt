-- ===== src/K8sinit/Calls/Runs.antt =====
-- k8sinit: the run of a manager, from New on.
use svcinit.Common.{
  ℕ, String, ◌≡◌, refl, ap, sym, ◌∙◌, subst, false, List, [], ◌++◌, map, Action, arith,
}
use svcinit.Context.{Ctx}
use svcinit.Default.{Woken}
use svcinit.Wrapper.{Wrapper}
use svcinit.Wrapper.Phase.{Phase, IsLifecycle}
use svcinit.Manager.{Manager, NewResult, made, failed, add_task}
use svcinit.Manager
use svcinit.Manager.Running.{after_calls}
use svcinit.Manager.Running
use svcinit.Manager.Running.Added.{added, after_calls-Grows, after_calls-stages}
use svcinit.Run.{System, Reach}
use svcinit.Run.Begin.{begin_run, proceeds}
use svcinit.Run.Begin.Laws.{begin_run_proceeds}
use svcinit.Run.Managed.{plan_of, store_of, pointed}
use svcinit.Run.Managed.Laws.{managed_run, new_empty, no_errors}
use svcinit.K8sinit.{
  Settings, SettingsOption, new, all_stages, finish_new, add_signals, apply_settings_options,
  default_settings, required_options,
}
use svcinit.K8sinit.Handlers.{Handlers, new_handlers}
use svcinit.K8sinit.Calls.{Call, perform_all, forward_begin_run}
use svcinit.K8sinit.Fixed.{new-IsFixed}
use svcinit.K8sinit.Calls.Adds.{
  all_as_calls, after_calls-append, perform_all-as_calls, signal_calls, add_signals-calls,
}

abbrev manager_or : {W : Type 0} → Manager W → NewResult W → Manager W
manager_or d (made m) = m
manager_or d (failed e) = d

module _ {W : Type 0} (wait : List ℕ → Ctx → Action W Woken) (show : List ℕ → String) where
  -- The manager that the library's New makes, before the signal task.
  underlying :
      (k : Settings W) (w : W) (r : NewResult W) (m : Manager W)
      → finish_new wait show k w r ≡ made m
      → (m0 : Manager W) × (r ≡ made m0) × (m ≡ add_signals wait show k w m0)
  underlying k w (made m0) m h = (m0, refl, ap (manager_or m) (sym h))
  underlying k w (failed e) m h = absurd (cc h)

  -- For a manager that k8sinit's New has made with any options, after any calls on it, where Run
  -- goes on to its first stage, whatever is called meanwhile: each of the four stages has, in
  -- order, the task for the signals, in the stage of management and unless the options disable it
  -- or leave no signals, and the tasks that the calls add: those of AddTask, AddTaskFunc and
  -- AddService, the two probes of a health handler, the flush of a telemetry handler, and the
  -- health and telemetry tasks, none of them refused; and in every reachable state of that run in
  -- which the shutdown timeout has not passed, every task has done its steps in order and none
  -- twice; whatever new wrapper tw stands for the numbers that are not in the plan.
  pub k8sinit_run :
      (w v : W) (options : List (SettingsOption W)) (cs : List (Call W))
      (during : List (Running.Call W)) (m : Manager W) (ctx c : Ctx) (h : Handlers W)
      (tw : Wrapper W) (s : System W)
      → (new wait show w options).1 ≡ made m
      → (forward_begin_run ctx during (perform_all cs (new_handlers m)) v).0 ≡ proceeds c
      → (forward_begin_run ctx during (perform_all cs (new_handlers m)) v).1 ≡ h
      → tw.execute_steps ≡ []
      → Reach
          (plan_of h.manager)
          h.manager.enforce_shutdown_timeout
          (store_of tw h.manager)
          h.manager.startup
          s
      → s.expired ≡ false
      → (pointed (store_of tw h.manager) (plan_of h.manager)
          ≡ map
              (λ stage. added stage (signal_calls wait show w options ++ all_as_calls cs))
              all_stages)
        × ((i : ℕ) → (p : Phase) × IsLifecycle (s.wrappers i).execute_steps p)
  unfolding forward_begin_run new new_handlers
  k8sinit_run w v options cs during m ctx c h tw s is_made runs is_h fresh r in_time =
      let k = apply_settings_options default_settings options in
      let before = (perform_all cs (new_handlers m)).manager in
      let (m0, is_made0, signals) =
        underlying k w (Manager.new (k.manager_options ++ required_options k)) m is_made in
      let (idle0, empty0) = new_empty (k.manager_options ++ required_options k) m0 is_made0 in
      let extra = signal_calls wait show w options in
      let from0 : m ≡ after_calls extra m0 = signals ∙ add_signals-calls wait show w options m0 in
      let idle : m.is_running ≡ false =
        ap (λ n. n.is_running) from0 ∙ (after_calls-Grows extra m0 idle0).0 in
      let errors = no_errors before.init_errors (begin_run_proceeds ctx during before v c runs).1 in
      let same : before ≡ after_calls (extra ++ all_as_calls cs) m0 =
        perform_all-as_calls cs (new_handlers m) idle errors
        ∙ (ap (after_calls (all_as_calls cs)) from0
            ∙ sym (after_calls-append extra (all_as_calls cs) m0)) in
      let (m', is_made', fixed) = new-IsFixed wait show w options in
      let four : m0.stages ≡ all_stages =
        sym (ap (λ n. n.stages) from0 ∙ after_calls-stages extra m0)
        ∙ (ap (λ r. (manager_or m r).stages) (sym is_made ∙ is_made') ∙ fixed.four_stages) in
      let (points, once) =
        managed_run (k.manager_options ++ required_options k) (extra ++ all_as_calls cs) during m0
          h.manager ctx c v tw s is_made0
          (subst (λ n. (begin_run ctx during n v).0 ≡ proceeds c) same runs)
          (subst (λ n. (begin_run ctx during n v).1 ≡ h.manager) same (ap (λ x. x.manager) is_h))
          fresh r (ground (arith, in_time)) in
      (points ∙ ap (map (λ stage. added stage (extra ++ all_as_calls cs))) four, once)
