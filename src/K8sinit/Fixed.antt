-- ===== src/K8sinit/Fixed.antt =====
-- What no option can change.
use svcinit.Common.{
  ℕ, String, ◌≡◌, refl, ap, ◌∙◌, Bool, true, false, Option, none, some, List, [], ◌∷◌, ◌++◌, arith,
  Action, if◌then◌else◌,
}
use svcinit.Errors.{Error}
use svcinit.Context.{Ctx}
use svcinit.Task.{Task, TaskOption}
use svcinit.Default.{Woken, signal_task}
use svcinit.Manager.{
  Manager, ManagerOption, NewResult, made, failed, add_task, add_idle, register,
  add_init_error_locked, request_startup_cancel, apply_options, apply_option, in_run, cannot_add,
  default_manager, init_stages, check_stages,
}
use svcinit.Manager
use svcinit.K8sinit.{
  Settings, SettingsOption, all_stages, required_options, add_signals, new, finish_new,
  apply_settings_options, default_settings,
}

module _ {W : Type 0} where
  -- The required settings of a manager.
  pub record IsFixed (k : Settings W) (m : Manager W) : Type 0 where
    pub four_stages : m.stages ≡ all_stages
    pub enforced : m.enforce_shutdown_timeout ≡ true
    pub shutdown_kept : m.shutdown_timeout ≡ k.shutdown_timeout
    pub teardown_kept : m.teardown_timeout ≡ k.teardown_timeout

  abbrev pub Kept : Manager W → Manager W → Type 0
  Kept m n =
      (n.stages ≡ m.stages)
      × (n.enforce_shutdown_timeout ≡ m.enforce_shutdown_timeout)
      × (n.shutdown_timeout ≡ m.shutdown_timeout)
      × (n.teardown_timeout ≡ m.teardown_timeout)

  pub request-Kept : (e : Error) (m : Manager W) → Kept m (request_startup_cancel e m)
  unfolding request_startup_cancel
  request-Kept e m = ground arith

  pub error-Kept : (e : Error) (m : Manager W) → Kept m (add_init_error_locked e m)
  unfolding add_init_error_locked
  error-Kept e m = ground (arith, request-Kept (in_run e) m)

  apply_options-append :
      (m : Manager W) (xs ys : List (ManagerOption W))
      → apply_options m (xs ++ ys) ≡ apply_options (apply_options m xs) ys
  unfolding apply_options
  apply_options-append m [] ys = refl
  apply_options-append m (x ∷ xs) ys = apply_options-append (apply_option m x) xs ys

  required-IsFixed :
      (k : Settings W) (m : Manager W) → IsFixed k (apply_options m (required_options k))
  unfolding apply_options required_options
  required-IsFixed k m = record {
    four_stages = refl;
    enforced = refl;
    shutdown_kept = refl;
    teardown_kept = refl;
  }

  if-Kept : (b : Bool) (m x y : Manager W) → Kept m x → Kept m y → Kept m (if b then x else y)
  if-Kept true m x y p q = p
  if-Kept false m x y p q = q

  register-Kept :
      (e : Option Error) (stage : String) (t : Task W) (os : List (TaskOption W)) (m : Manager W)
      → Kept m (register e stage t os m)
  register-Kept (some e) stage t os m = error-Kept e m
  register-Kept none stage t os m = if-Kept _ m _ _ (error-Kept _ m) (refl, refl, refl, refl)

  add_idle-Kept :
      (w : W) (stage : String) (t : Option (Task W)) (os : List (TaskOption W)) (m : Manager W)
      → Kept m (add_idle w stage t os m)
  unfolding add_idle
  add_idle-Kept w stage none os m = error-Kept _ m
  add_idle-Kept w stage (some t) os m = register-Kept _ stage t os m

  pub add_task-Kept :
      (w : W) (stage : String) (t : Option (Task W)) (os : List (TaskOption W)) (m : Manager W)
      → Kept m (add_task w stage t os m)
  unfolding add_task
  add_task-Kept w stage t os m =
      if-Kept m.is_running m (request_startup_cancel cannot_add m) (add_idle w stage t os m)
        (request-Kept cannot_add m) (add_idle-Kept w stage t os m)

  pub Kept-IsFixed : (k : Settings W) {m n : Manager W} → Kept m n → IsFixed k m → IsFixed k n
  Kept-IsFixed k (a, b, c, d) f = record {
    four_stages = a ∙ f.four_stages;
    enforced = b ∙ f.enforced;
    shutdown_kept = c ∙ f.shutdown_kept;
    teardown_kept = d ∙ f.teardown_kept;
  }

  module _ (wait : List ℕ → Ctx → Action W Woken) (show : List ℕ → String) where
    add_signals-Kept :
        (k : Settings W) (w : W) (m : Manager W) → Kept m (add_signals wait show k w m)
    unfolding add_signals
    add_signals-Kept k w m =
        let signals : Option (Task W) = some (signal_task wait show k.handle_signals) in
        if-Kept _ m (add_task w "management" signals [] m) m
          (add_task-Kept w "management" signals [] m) (refl, refl, refl, refl)

    four_stages_accepted : init_stages all_stages ≡ none
    unfolding init_stages check_stages
    four_stages_accepted = refl

    made_by :
        (k : Settings W)
        → Manager.new (k.manager_options ++ required_options k)
          ≡ made
              (apply_options (apply_options default_manager k.manager_options) (required_options k))
    unfolding Manager.new
    made_by k =
        let m =
          apply_options (apply_options default_manager k.manager_options) (required_options k) in
        ap (λ n. Manager.finish_new n (init_stages n.stages))
          (apply_options-append default_manager k.manager_options (required_options k))
        ∙ (ap (λ ss. Manager.finish_new m (init_stages ss))
              (required-IsFixed k (apply_options default_manager k.manager_options)).four_stages
            ∙ ap (Manager.finish_new m) four_stages_accepted)

    -- k8sinit's New never returns an error, whatever options it is given, those for the wrapped
    -- manager included; and that manager has the four stages, enforces its shutdown timeout, and
    -- has the timeouts of the settings.
    pub new-IsFixed :
        (w : W) (options : List (SettingsOption W))
        → let (k, r) = new wait show w options in (m : Manager W) × (r ≡ made m) × IsFixed k m
    unfolding new
    new-IsFixed w options =
        let k = apply_settings_options default_settings options in
        let before = apply_options default_manager k.manager_options in
        let m = apply_options before (required_options k) in
        (
          add_signals wait show k w m,
          ap (finish_new wait show k w) (made_by k),
          Kept-IsFixed k {m = m} (add_signals-Kept k w m) (required-IsFixed k before),
        )
