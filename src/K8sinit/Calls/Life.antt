-- ===== src/K8sinit/Calls/Life.antt =====
-- k8sinit: a manager from New on, through any calls.
use svcinit.Common.{
  ℕ, String, ◌≡◌, refl, subst, Bool, true, false, Option, none, some, List, [], ◌∷◌, ◌++◌, map,
  Action, if◌then◌else◌,
}
use svcinit.Context.{Ctx}
use svcinit.Task.{Task}
use svcinit.Default.{Woken, signal_task}
use svcinit.Manager.{
  Manager, NewResult, made, failed, add_task, apply_options, default_manager, add_init_error,
  request_startup_cancel,
}
use svcinit.Manager
use svcinit.Manager.Running
use svcinit.Manager.Tidy.{Tidy, perform-Tidy}
use svcinit.Run.Managed.Laws.{new-Tidy}
use svcinit.K8sinit.{
  Settings, SettingsOption, new, add_signals, finish_new, apply_settings_options, default_settings,
  required_options,
}
use svcinit.K8sinit.Fixed.{
  IsFixed, Kept-IsFixed, add_task-Kept, error-Kept, request-Kept, new-IsFixed,
}
use svcinit.K8sinit.Handlers.{Handlers, new_handlers}
use svcinit.K8sinit.Calls.{
  Call, perform_all, perform, held_health, held_telemetry, health_of, telemetry_of, health_task_of,
  telemetry_task_of, first_some,
}
use svcinit.K8sinit.Calls.Laws.{perform-kept, perform_all-first}

module _ {W : Type 0} where
  call-IsFixed :
      (k : Settings W) (c : Running.Call W) (m : Manager W)
      → IsFixed k m
      → IsFixed k (Running.perform c m)
  unfolding Running.perform add_init_error Manager.shutdown
  call-IsFixed k (Running.adds_task w stage task options) m f =
      Kept-IsFixed k {m = m} (add_task-Kept w stage task options m) f
  call-IsFixed k (Running.adds_init_error none) m f = f
  call-IsFixed k (Running.adds_init_error (some e)) m f = Kept-IsFixed k {m = m} (error-Kept e m) f
  call-IsFixed k Running.shuts_down m f = Kept-IsFixed k {m = m} (request-Kept _ m) f

  calls-IsFixed :
      (k : Settings W) (cs : List (Call W)) (h : Handlers W)
      → IsFixed k h.manager
      → IsFixed k (perform_all cs h).manager
  calls-IsFixed k [] h f = f
  calls-IsFixed k (c ∷ cs) h f =
      calls-IsFixed k cs (perform c h) (perform-kept (IsFixed k) (call-IsFixed k) c h f)

  module _ (wait : List ℕ → Ctx → Action W Woken) (show : List ℕ → String) where
    signals-Tidy :
        (k : Settings W) (w : W) (m : Manager W) → Tidy m → Tidy (add_signals wait show k w m)
    unfolding add_signals Running.perform
    signals-Tidy k w m t = by _
      where
        signals : Option (Task W)
        signals = some (signal_task wait show k.handle_signals)

        by : (b : Bool) → Tidy (if b then add_task w "management" signals [] m else m)
        by true = perform-Tidy (Running.adds_task w "management" signals []) m t
        by false = t

    abbrev MadeTidy : NewResult W → Type 0
    MadeTidy (made m) = Tidy m
    MadeTidy (failed e) = Unit

    finished-Tidy :
        (k : Settings W) (w : W) (r : NewResult W) (n : Manager W)
        → ((m : Manager W) → r ≡ made m → Tidy m)
        → finish_new wait show k w r ≡ made n
        → Tidy n
    finished-Tidy k w (made m) n t h = subst MadeTidy h (signals-Tidy k w m (t m refl))
    finished-Tidy k w (failed e) n t h = absurd (cc h)

    k8s-Tidy :
        (w : W) (options : List (SettingsOption W)) (n : Manager W)
        → (new wait show w options).1 ≡ made n
        → Tidy n
    unfolding new
    k8s-Tidy w options n h =
        let k = apply_settings_options default_settings options in
        finished-Tidy k w (Manager.new (k.manager_options ++ required_options k)) n
          (new-Tidy (k.manager_options ++ required_options k)) h

    -- k8sinit's New never returns an error, whatever options it is given; and after any sequence of
    -- calls on its manager the wrapped manager still has the four stages, enforces its shutdown
    -- timeout and has the timeouts of the settings, all of its tasks stand under its stages and
    -- have done no step, and the health handler, the telemetry handler, the health task and the
    -- telemetry task are each the first that a call has offered and that is not nil, or not set
    -- where none has.
    pub k8sinit_life :
        (w : W) (options : List (SettingsOption W)) (cs : List (Call W))
        → let (k, r) = new wait show w options in
          (m : Manager W) × (r ≡ made m)
          × let h = perform_all cs (new_handlers m) in
            IsFixed k h.manager
            × Tidy h.manager
            × (held_health h ≡ first_some none (map health_of cs))
            × (held_telemetry h ≡ first_some none (map telemetry_of cs))
            × (h.health_task ≡ first_some none (map health_task_of cs))
            × (h.telemetry_task ≡ first_some none (map telemetry_task_of cs))
    unfolding new_handlers
    k8sinit_life w options cs =
        let k = (new wait show w options).0 in
        let (m, e, f) = new-IsFixed wait show w options in
        let (a, b, c, d, s, t) = perform_all-first cs (new_handlers m) (k8s-Tidy w options m e) in
        (m, e, (calls-IsFixed k cs (new_handlers m) f, t, a, b, c, d))
