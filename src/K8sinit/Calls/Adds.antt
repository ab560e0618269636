-- ===== src/K8sinit/Calls/Adds.antt =====
-- k8sinit: which tasks the calls on a manager and its options add, if nothing is refused.
use svcinit.Common.{
  ℕ, String, ◌≡◌, ◌⊎◌, ◌≤◌, inl, inr, refl, ap, ap₂, sym, ◌∙◌, Bool, true, false, not, ◌&&◌, ◌||◌,
  none, some, List, [], ◌∷◌, ◌++◌, arith, any, length, length-append, is_nil, is_some, Action,
  if◌then◌else◌,
}
use svcinit.Errors.{Error}
use svcinit.Context.{Ctx}
use svcinit.Task.{task_func}
use svcinit.Service.{service_as_task}
use svcinit.Default.{Woken, signal_task}
use svcinit.Manager.{Manager, add_task, add_init_error}
use svcinit.Manager.Adds.{func_or_panic}
use svcinit.Manager.Register.{idle_error}
use svcinit.Manager.Running.{after_calls}
use svcinit.Manager.Running.Added.{perform-Grows}
use svcinit.Manager.Running
use svcinit.K8sinit.{
  Settings, SettingsOption, with_logger, with_shutdown_timeout, with_teardown_timeout,
  with_manager_options, with_handle_signals, with_disable_signal_handling, apply_settings_options,
  default_settings, add_signals,
}
use svcinit.K8sinit.Handlers.{
  Handlers, accept_health_handler, started_probe, terminating_probe, flush_task, refuse, register,
  nil_handler, set_before,
}
use svcinit.K8sinit.Calls.{
  Call, adds_task, adds_func, adds_service, sets_health_handler, sets_health_task,
  sets_telemetry_handler, sets_telemetry_task, shuts_down, perform, perform_all,
}
use svcinit.K8sinit.Calls.Laws.{perform-kept}

module _ {W : Type 0} where
  -- The calls of the wrapped manager that a call comes to, if it is not refused.
  abbrev pub as_calls : Call W → List (Running.Call W)
  as_calls (adds_task w stage task options) = Running.adds_task w stage task options ∷ []
  as_calls (adds_func w stage f options) =
      Running.adds_task w stage (some (task_func (func_or_panic f))) options ∷ []
  as_calls (adds_service w stage none options) = Running.adds_task w stage none options ∷ []
  as_calls (adds_service w stage (some service) options) =
      Running.adds_task w stage (some (service_as_task service)) options ∷ []
  as_calls (sets_health_handler w none options) = []
  as_calls (sets_health_handler w (some handler) options) =
      Running.adds_task w "ready" (some (started_probe w handler)) options
      ∷ Running.adds_task w "service" (some (terminating_probe w handler)) options
      ∷ []
  as_calls (sets_health_task w task options) = Running.adds_task w "management" task options ∷ []
  as_calls (sets_telemetry_handler w none options) = []
  as_calls (sets_telemetry_handler w (some handler) options) =
      Running.adds_task w "service" (some (flush_task w handler)) options ∷ []
  as_calls (sets_telemetry_task w task options) = Running.adds_task w "management" task options ∷ []
  as_calls shuts_down = Running.shuts_down ∷ []

  abbrev pub all_as_calls : List (Call W) → List (Running.Call W)
  all_as_calls [] = []
  all_as_calls (c ∷ cs) = as_calls c ++ all_as_calls cs

  pub after_calls-append :
      (xs ys : List (Running.Call W)) (m : Manager W)
      → after_calls (xs ++ ys) m ≡ after_calls ys (after_calls xs m)
  after_calls-append [] ys m = refl
  after_calls-append (x ∷ xs) ys m = after_calls-append xs ys (Running.perform x m)

  -- A manager that did not refuse anything, or that has an initialization error.
  abbrev Comes : List (Running.Call W) → Manager W → Manager W → Type 0
  Comes cs m n = (n ≡ after_calls cs m) ⊎ (1 ≤ length n.init_errors)

  -- What a call comes to.
  abbrev Came : Call W → Handlers W → Handlers W → Type 0
  Came c k k' = Comes (as_calls c) k.manager k'.manager

  refused :
      (e : Error) (c : Call W) (k : Handlers W)
      → k.manager.is_running ≡ false
      → Came c k (refuse e k)
  unfolding add_init_error
  refused e c k idle = inr (
      omega (
        arith,
        ap (λ n. length n.init_errors) (idle_error e k.manager idle),
        length-append {0} k.manager.init_errors (e ∷ []),
      ))

  -- A call that is refused if something was set before, and that otherwise comes to what it should.
  unless_set :
      (b : Bool) (e : Error) (c : Call W) (k k' : Handlers W)
      → k.manager.is_running ≡ false
      → k'.manager ≡ after_calls (as_calls c) k.manager
      → Came c k (if b then refuse e k else k')
  unless_set true e c k k' idle h = refused e c k idle
  unless_set false e c k k' idle h = inl h

  perform-Came :
      (c : Call W) (k : Handlers W) → k.manager.is_running ≡ false → Came c k (perform c k)
  unfolding perform accept_health_handler Running.perform
  perform-Came (adds_task w stage task options) k idle = inl refl
  perform-Came (adds_func w stage f options) k idle = inl refl
  perform-Came (adds_service w stage none options) k idle = inl refl
  perform-Came (adds_service w stage (some s) options) k idle = inl refl
  perform-Came (sets_health_handler w none options) k idle =
      refused (nil_handler "%w: health handler cannot be nil") (sets_health_handler w none options)
        k idle
  perform-Came (sets_health_handler w (some handler) options) k idle =
      unless_set k.health_handler_set (set_before "%w: health handler was already set")
        (sets_health_handler w (some handler) options) k (accept_health_handler w handler options k)
        idle refl
  perform-Came (sets_health_task w task options) k idle =
      unless_set (is_some k.health_task) (set_before "%w: health task was already set")
        (sets_health_task w task options) k
        (register w "management" task options (record k { health_task = task })) idle refl
  perform-Came (sets_telemetry_handler w none options) k idle =
      refused (nil_handler "%w: telemetry handler cannot be nil")
        (sets_telemetry_handler w none options) k idle
  perform-Came (sets_telemetry_handler w (some handler) options) k idle =
      unless_set k.telemetry_handler_set (set_before "%w: telemetry handler was already set")
        (sets_telemetry_handler w (some handler) options) k
        (register w "service" (some (flush_task w handler)) options
          (record k { telemetry_handler = handler; telemetry_handler_set = true }))
        idle refl
  perform-Came (sets_telemetry_task w task options) k idle =
      unless_set (is_some k.telemetry_task) (set_before "%w: telemetry task was already set")
        (sets_telemetry_task w task options) k
        (register w "management" task options (record k { telemetry_task = task })) idle refl
  perform-Came shuts_down k idle = inl refl

  -- Idle, and with at least as many errors.
  abbrev AtLeast : ℕ → Manager W → Type 0
  AtLeast n m = (m.is_running ≡ false) × (n ≤ length m.init_errors)

  call-AtLeast :
      (n : ℕ) (c : Running.Call W) (m : Manager W) → AtLeast n m → AtLeast n (Running.perform c m)
  call-AtLeast n c m (idle, h) =
      let (idle', grows) = perform-Grows c m idle in (idle', omega (arith, h, grows))

  all-AtLeast :
      (n : ℕ) (cs : List (Call W)) (k : Handlers W)
      → AtLeast n k.manager
      → AtLeast n (perform_all cs k).manager
  all-AtLeast n [] k h = h
  all-AtLeast n (c ∷ cs) k h =
      all-AtLeast n cs (perform c k) (perform-kept (AtLeast n) (call-AtLeast n) c k h)

  -- Calls that leave no initialization error come to calls of the wrapped manager.
  pub perform_all-as_calls :
      (cs : List (Call W)) (k : Handlers W)
      → k.manager.is_running ≡ false
      → length (perform_all cs k).manager.init_errors ≤ 0
      → (perform_all cs k).manager ≡ after_calls (all_as_calls cs) k.manager
  perform_all-as_calls [] k idle z = refl
  perform_all-as_calls (c ∷ cs) k idle z =
      let k' = perform c k in
      let (idle', _) = perform-kept (AtLeast 0) (call-AtLeast 0) c k (idle, omega arith) in
      elim (perform-Came c k idle) [
        | inl same ↦
            perform_all-as_calls cs k' idle' z
            ∙ (ap (after_calls (all_as_calls cs)) same
                ∙ sym (after_calls-append (as_calls c) (all_as_calls cs) k.manager))
        | inr one ↦ absurd (omega (arith, (all-AtLeast 1 cs k' (idle', one)).1, z))
      ]

-- The signals of the last WithHandleSignals, and whether WithDisableSignalHandling is given.
abbrev pub last_signals : {W : Type 0} → List ℕ → List (SettingsOption W) → List ℕ
last_signals ss [] = ss
last_signals ss (with_handle_signals given ∷ os) = last_signals given os
last_signals ss (o ∷ os) = last_signals ss os

abbrev pub is_disable : {W : Type 0} → SettingsOption W → Bool
is_disable with_disable_signal_handling = true
is_disable o = false

module _ {W : Type 0} where
  settings_signals :
      (os : List (SettingsOption W)) (k : Settings W)
      → ((apply_settings_options k os).handle_signals ≡ last_signals k.handle_signals os)
        × ((apply_settings_options k os).disable_signal_handling
            ≡ k.disable_signal_handling || any is_disable os)
  unfolding apply_settings_options
  settings_signals [] k = ground arith
  settings_signals (with_logger l ∷ os) k = settings_signals os _
  settings_signals (with_shutdown_timeout t ∷ os) k = settings_signals os _
  settings_signals (with_teardown_timeout t ∷ os) k = settings_signals os _
  settings_signals (with_manager_options ms ∷ os) k = settings_signals os _
  settings_signals (with_handle_signals ss ∷ os) k = settings_signals os _
  settings_signals (with_disable_signal_handling ∷ os) k =
      let (a, b) = settings_signals os (record k { disable_signal_handling = true }) in
      (a, b ∙ ground arith)

  one_call :
      (b : Bool) (c : Running.Call W) (m : Manager W)
      → (if b then Running.perform c m else m) ≡ after_calls (if b then c ∷ [] else []) m
  one_call true c m = refl
  one_call false c m = refl

  module _ (wait : List ℕ → Ctx → Action W Woken) (show : List ℕ → String) where
    -- What New adds: a task for the signals, by default os.Interrupt and SIGTERM.
    abbrev pub signal_calls : W → List (SettingsOption W) → List (Running.Call W)
    signal_calls w options =
        let signals = last_signals (2 ∷ 15 ∷ []) options in
        if not (any is_disable options) && not (is_nil signals)
        then Running.adds_task w "management" (some (signal_task wait show signals)) [] ∷ []
        else []

    pub add_signals-calls :
        (w : W) (options : List (SettingsOption W)) (m : Manager W)
        → add_signals wait show (apply_settings_options default_settings options) w m
          ≡ after_calls (signal_calls w options) m
    unfolding add_signals default_settings Running.perform
    add_signals-calls w options m =
        let (ss, off) = settings_signals options default_settings in
        let signals = last_signals (2 ∷ 15 ∷ []) options in
        ap₂
          (λ d xs.
            if not d && not (is_nil xs)
            then add_task w "management" (some (signal_task wait show xs)) [] m
            else m)
          off ss
        ∙ one_call (not (any is_disable options) && not (is_nil signals))
            (Running.adds_task w "management" (some (signal_task wait show signals)) []) m
