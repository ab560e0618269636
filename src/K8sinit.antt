-- ===== src/K8sinit.antt =====
-- k8sinit/manager.go and k8sinit/defs.go: a manager with four fixed stages.
pub mod Fixed
pub mod Handlers
pub mod Probes
pub mod Calls
use svcinit.Common.{
  ℕ, ℤ, pos, String, Bool, true, false, not, ◌&&◌, Option, none, some, List, [], ◌∷◌, ◌++◌, Action,
  if◌then◌else◌, is_nil,
}
use svcinit.Errors.{Error}
use svcinit.Context.{Ctx}
use svcinit.Task.{Task}
use svcinit.Default.{Woken, signal_task}
use svcinit.Manager.{
  Manager, ManagerOption, NewResult, made, failed, add_task, with_stages,
  with_enforce_shutdown_timeout,
}
use svcinit.Manager

abbrev pub all_stages : List String
all_stages = "management" ∷ "initialize" ∷ "ready" ∷ "service" ∷ []

-- The fields that the options set; `handle_signals` are signal numbers.
pub record Settings (W : Type 0) : Type 0 where
  pub logger : ℕ
  pub manager_options : List (ManagerOption W)
  pub shutdown_timeout : ℤ
  pub teardown_timeout : ℤ
  pub handle_signals : List ℕ
  pub disable_signal_handling : Bool

-- Option: a function on `*Manager`.
pub data SettingsOption (W : Type 0) : Type 0 where
  with_logger : ℕ → SettingsOption W
  with_shutdown_timeout with_teardown_timeout : ℤ → SettingsOption W
  with_manager_options : List (ManagerOption W) → SettingsOption W
  with_handle_signals : List ℕ → SettingsOption W
  with_disable_signal_handling : SettingsOption W

module _ {W : Type 0} where
  -- os.Interrupt and SIGTERM; 20 and 5 seconds in nanoseconds.
  unfoldable pub default_settings : Settings W
  default_settings = record {
    logger = 0;
    manager_options = [];
    shutdown_timeout = pos 20_000_000_000;
    teardown_timeout = pos 5_000_000_000;
    handle_signals = 2 ∷ 15 ∷ [];
    disable_signal_handling = false;
  }

  unfoldable pub apply_settings_option : Settings W → SettingsOption W → Settings W
  apply_settings_option k (with_logger l) = record k {
    logger = l;
    manager_options = k.manager_options ++ ManagerOption.with_logger l ∷ [];
  }
  apply_settings_option k (with_shutdown_timeout t) = record k { shutdown_timeout = t }
  apply_settings_option k (with_teardown_timeout t) = record k { teardown_timeout = t }
  apply_settings_option k (with_manager_options os) = record k {
    manager_options = k.manager_options ++ os;
  }
  apply_settings_option k (with_handle_signals ss) = record k { handle_signals = ss }
  apply_settings_option k with_disable_signal_handling = record k { disable_signal_handling = true }

  unfoldable pub apply_settings_options : Settings W → List (SettingsOption W) → Settings W
  unfolding apply_settings_option
  apply_settings_options k [] = k
  apply_settings_options k (o ∷ os) = apply_settings_options (apply_settings_option k o) os

  -- The options that can not be overridden stand last.
  unfoldable pub required_options : Settings W → List (ManagerOption W)
  required_options k =
      with_stages all_stages
      ∷ with_enforce_shutdown_timeout true
      ∷ ManagerOption.with_shutdown_timeout k.shutdown_timeout
      ∷ ManagerOption.with_teardown_timeout k.teardown_timeout
      ∷ []

  -- `AddTask` of the signal task; `wait` and `show` are what it uses of `os/signal` and `fmt`.
  unfoldable pub add_signals :
      (List ℕ → Ctx → Action W Woken) → (List ℕ → String) → Settings W → W → Manager W → Manager W
  unfolding add_task signal_task
  add_signals wait show k w m =
      if not k.disable_signal_handling && not (is_nil k.handle_signals)
      then add_task w "management" (some (signal_task wait show k.handle_signals)) [] m
      else m

  abbrev pub finish_new :
      (List ℕ → Ctx → Action W Woken)
      → (List ℕ → String)
      → Settings W
      → W
      → NewResult W
      → NewResult W
  finish_new wait show k w (made m) = made (add_signals wait show k w m)
  finish_new wait show k w (failed e) = failed e

  -- `New`: its settings, and the manager or the error.
  unfoldable pub new :
      (List ℕ → Ctx → Action W Woken)
      → (List ℕ → String)
      → W
      → List (SettingsOption W)
      → Settings W × NewResult W
  unfolding apply_settings_options default_settings required_options add_signals Manager.new
  new wait show w options =
      let k = apply_settings_options default_settings options in
      (k, finish_new wait show k w (Manager.new (k.manager_options ++ required_options k)))
