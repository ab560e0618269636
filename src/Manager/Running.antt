-- ===== src/Manager/Running.antt =====
-- Registration and shutdown requests in any order, before and during a run.
pub mod Added
use svcinit.Common.{
  ◌≡◌, Bool, false, ◌||◌, refl, ap, sym, ◌∙◌, String, true, Option, none, some, List, [], ◌∷◌, ◌++◌,
  arith, is_some, if◌then◌else◌, subst, ◌≢◌,
}
use svcinit.Errors.{Error, plain}
use svcinit.Errors.Sentinel
use svcinit.Task.{Task, TaskOption}
use svcinit.Manager.{
  Manager, absent, live, cancelled, add_task, add_idle, in_run, add_init_error,
  add_init_error_locked, request_startup_cancel, shutdown, cannot_add,
}

-- A call on the manager from any goroutine.
pub data Call (W : Type 0) : Type 0 where
  adds_task : W → String → Option (Task W) → List (TaskOption W) → Call W
  adds_init_error : Option Error → Call W
  shuts_down : Call W

module _ {W : Type 0} where
  unfoldable pub perform : Call W → Manager W → Manager W
  perform (adds_task w stage task options) m = add_task w stage task options m
  perform (adds_init_error err) m = add_init_error err m
  perform shuts_down m = shutdown m

  abbrev pub after_calls : List (Call W) → Manager W → Manager W
  after_calls [] m = m
  after_calls (c ∷ cs) m = after_calls cs (perform c m)

  -- The cause with which the run will stop, if a stop was requested.
  abbrev pub requested : Manager W → Option Error
  requested m = elim m.startup [
    | absent ↦ m.pending_startup_cancel
    | live ↦ none
    | cancelled cause ↦ some cause
  ]

  -- What a call may change of a manager that runs: the request to stop, once.
  pub record Frozen (old new : Manager W) : Type 0 where
    pub stages_kept : new.stages ≡ old.stages
    pub tasks_kept : new.tasks ≡ old.tasks
    pub errors_kept : new.init_errors ≡ old.init_errors
    pub running_kept : new.is_running ≡ old.is_running
    pub first_wins : (cause : Error) → requested old ≡ some cause → requested new ≡ some cause

  Frozen-refl : (m : Manager W) → Frozen m m
  Frozen-refl m = record {
    stages_kept = refl;
    tasks_kept = refl;
    errors_kept = refl;
    running_kept = refl;
    first_wins = λ c h. h;
  }

  request-Frozen : (cause : Error) (m : Manager W) → Frozen m (request_startup_cancel cause m)
  unfolding request_startup_cancel
  request-Frozen cause m = record {
    stages_kept = ground arith;
    tasks_kept = ground arith;
    errors_kept = ground arith;
    running_kept = ground arith;
    first_wins = λ c h. ground arith;
  }

  request_made :
      (cause : Error) (m : Manager W) → is_some (requested (request_startup_cancel cause m)) ≡ true
  unfolding request_startup_cancel
  request_made cause m = ground arith

  -- The test of `is_running` at the head of a call, on a manager that runs.
  when_running :
      (m : Manager W) (yes' no' : Manager W)
      → m.is_running ≡ true
      → (if m.is_running then yes' else no') ≡ yes'
  when_running m yes' no' h = ap {B = Manager W} (λ b. if b then yes' else no') h

  -- On a manager that runs, AddTask, AddInitError and Shutdown leave the stages, the tasks and the
  -- initialization errors as they are: they at most ask the run to stop, and the first cause asked
  -- for stays.
  pub perform-Frozen :
      (call : Call W) (m : Manager W) → m.is_running ≡ true → Frozen m (perform call m)
  unfolding perform add_task add_init_error add_init_error_locked shutdown
  perform-Frozen (adds_task w stage task options) m h =
      subst (Frozen m) (sym (when_running m _ (add_idle w stage task options m) h))
        (request-Frozen cannot_add m)
  perform-Frozen (adds_init_error none) m h = Frozen-refl m
  perform-Frozen (adds_init_error (some err)) m h =
      subst (Frozen m)
        (sym (when_running m _ (record m { init_errors = m.init_errors ++ err ∷ [] }) h))
        (request-Frozen (in_run err) m)
  perform-Frozen shuts_down m h = request-Frozen (plain Sentinel.exit) m

  pub after_calls-Kept :
      (cs : List (Call W)) (m : Manager W)
      → m.is_running ≡ true
      → let n = after_calls cs m in
        (n.is_running ≡ true)
        × (n.stages ≡ m.stages)
        × (n.tasks ≡ m.tasks)
        × (n.init_errors ≡ m.init_errors)
  after_calls-Kept [] m h = (h, refl, refl, refl)
  after_calls-Kept (c ∷ cs) m h =
      let frozen = perform-Frozen c m h in
      let (a, b, d, e) = after_calls-Kept cs (perform c m) (frozen.running_kept ∙ h) in
      (a, b ∙ frozen.stages_kept, d ∙ frozen.tasks_kept, e ∙ frozen.errors_kept)

  -- On a manager that runs, each of these calls but AddInitError with a nil error leaves a request
  -- to stop.
  pub perform_requests :
      (call : Call W) (m : Manager W)
      → m.is_running ≡ true
      → call ≢ adds_init_error none
      → is_some (requested (perform call m)) ≡ true
  unfolding perform add_task add_init_error add_init_error_locked shutdown
  perform_requests (adds_task w stage task options) m h ne =
      subst (λ n. is_some (requested n) ≡ true)
        (sym (when_running m _ (add_idle w stage task options m) h)) (request_made cannot_add m)
  perform_requests (adds_init_error none) m h ne = absurd (ne refl)
  perform_requests (adds_init_error (some err)) m h ne =
      subst (λ n. is_some (requested n) ≡ true)
        (sym (when_running m _ (record m { init_errors = m.init_errors ++ err ∷ [] }) h))
        (request_made (in_run err) m)
  perform_requests shuts_down m h ne = request_made (plain Sentinel.exit) m

  abbrev pub is_noop : Call W → Bool
  is_noop (adds_init_error none) = true
  is_noop c = false

  -- On a manager that runs, AddTask, AddInitError and Shutdown leave the stages, the tasks and the
  -- initialization errors as they are: they at most ask the run to stop, the first cause asked for
  -- stays, and each of them but AddInitError with a nil error leaves a request to stop.
  pub perform_running :
      (call : Call W) (m : Manager W)
      → m.is_running ≡ true
      → Frozen m (perform call m) × (is_noop call || is_some (requested (perform call m)) ≡ true)
  perform_running call m h = (perform-Frozen call m h, asks call)
    where
      asks : (c : Call W) → is_noop c || is_some (requested (perform c m)) ≡ true
      asks (adds_task w stage task options) =
          perform_requests (adds_task w stage task options) m h cc
      asks (adds_init_error none) = refl
      asks (adds_init_error (some err)) = perform_requests (adds_init_error (some err)) m h cc
      asks shuts_down = perform_requests shuts_down m h cc
