-- ===== src/K8sinit/Probes.antt =====
-- What setting a health handler brings about.
use svcinit.Common.{
  ℕ, String, ◌≡◌, refl, ap, sym, ◌∙◌, Bool, true, false, not, Option, none, some, List, [], ◌∷◌,
  ◌++◌, arith, if◌then◌else◌, returned, str_eq, str_eq_iff, append-nil,
}
use svcinit.Errors.{Error, new_invalid_stage, is_opt}
use svcinit.Errors.Sentinel
use svcinit.Context.{Ctx}
use svcinit.Step.{Step, setup, stop, step_eq, contains}
use svcinit.Task.{Task, TaskOption, get_task_info, task_has_step}
use svcinit.Wrapper.{Wrapper, new_task_wrapper}
use svcinit.HealthHandler.{HealthHandler}
use svcinit.Manager.{
  Manager, has_string, add, stage_tasks, add_task, add_idle, add_init_error_locked,
  request_startup_cancel, cannot_add,
}
use svcinit.Manager
use svcinit.Manager.Register.{stage_tasks-add, idle_error}
use svcinit.K8sinit.{all_stages}
use svcinit.K8sinit.Handlers.{
  Handlers, refuse, accept_health_handler, started_probe, terminating_probe, set_health_handler,
  nil_handler, set_before,
}

not_service : (stage : String) → str_eq "ready" stage ≡ true → str_eq "service" stage ≡ false
not_service stage h = ap (str_eq "service") (sym ((str_eq_iff "ready" stage).0 h))

added_last :
    {V : Type 0} (b c : Bool) (l : List V) (x y : V)
    → (b ≡ true → c ≡ false)
    → (if c then (if b then l ++ x ∷ [] else l) ++ y ∷ [] else (if b then l ++ x ∷ [] else l))
      ≡ l ++ (if b then x ∷ [] else if c then y ∷ [] else [])
added_last true true l x y h = absurd (cc (h refl))
added_last true false l x y h = refl
added_last false true l x y h = refl
added_last false false l x y h = sym (append-nil l)

module _ {W : Type 0} where
  add_task-known :
      (w : W) (stage : String) (t : Task W) (options : List (TaskOption W)) (m : Manager W)
      → m.is_running ≡ false
      → has_string m.stages stage ≡ true
      → (get_task_info t w).init_error ≡ none
      → add_task w stage (some t) options m
        ≡ record m { tasks = add stage (new_task_wrapper t options) m.tasks }
  unfolding add_task add_idle
  add_task-known w stage t options m r h e =
      ap {B = Manager W}
        (λ b.
          if b then request_startup_cancel cannot_add m else add_idle w stage (some t) options m)
        r
      ∙ (ap (λ o. Manager.register o stage t options m) e
          ∙ ap {B = Manager W}
              (λ b.
                if not b
                then add_init_error_locked (new_invalid_stage stage) m
                else record m { tasks = add stage (new_task_wrapper t options) m.tasks })
              h)

  probes :
      (w w' : W) (handler : HealthHandler W) (ctx : Ctx) (s : Step)
      → (task_has_step (started_probe w handler) w' s ≡ step_eq s setup)
        × (task_has_step (terminating_probe w handler) w' s ≡ step_eq s stop)
        × ((started_probe w handler).run ctx setup w'
            ≡ (returned none, handler.service_started ctx w'))
        × ((terminating_probe w handler).run ctx stop w'
            ≡ (returned none, handler.service_terminating ctx w'))
        × ((get_task_info (started_probe w handler) w').init_error ≡ none)
        × ((get_task_info (terminating_probe w handler) w').init_error ≡ none)
  unfolding started_probe terminating_probe task_has_step contains
      svcinit.Errors.build_joined_errors svcinit.Build.has_missing_step
  probes w w' handler ctx s = (ground arith, ground arith, refl, refl, refl, refl)

  -- The tasks that setting the handler adds to each stage.
  abbrev pub added_to : W → HealthHandler W → List (TaskOption W) → String → List (Wrapper W)
  added_to w handler options stage =
      if str_eq "ready" stage
      then new_task_wrapper (started_probe w handler) options ∷ []
      else if str_eq "service" stage
      then new_task_wrapper (terminating_probe w handler) options ∷ []
      else []

  module _ (w : W) (handler : HealthHandler W) (options : List (TaskOption W)) (m : Manager W)
      (idle : m.is_running ≡ false) (staged : m.stages ≡ all_stages) where
    abbrev with_ready : Manager W
    with_ready = record m {
      tasks = add "ready" (new_task_wrapper (started_probe w handler) options) m.tasks;
    }

    abbrev with_both : Manager W
    with_both = record with_ready {
      tasks =
          add "service" (new_task_wrapper (terminating_probe w handler) options) with_ready.tasks;
    }

    added :
        add_task w "service"
          (some (terminating_probe w handler))
          options
          (add_task w "ready" (some (started_probe w handler)) options m)
        ≡ with_both
    added =
        let facts = probes w w handler svcinit.Context.background setup in
        ap (add_task w "service" (some (terminating_probe w handler)) options) (
          add_task-known w "ready" (started_probe w handler) options m idle
            (ap (λ l. has_string l "ready") staged) facts.4)
        ∙ add_task-known w "service" (terminating_probe w handler) options with_ready idle
            (ap (λ l. has_string l "service") staged) facts.5

    with_both-stages :
        (stage : String)
        → stage_tasks stage with_both.tasks
          ≡ stage_tasks stage m.tasks ++ added_to w handler options stage
    with_both-stages stage =
        stage_tasks-add "service" stage (new_task_wrapper (terminating_probe w handler) options)
          with_ready.tasks
        ∙ (ap
              (λ l.
                if str_eq "service" stage
                then l ++ new_task_wrapper (terminating_probe w handler) options ∷ []
                else l)
              (stage_tasks-add "ready" stage (new_task_wrapper (started_probe w handler) options)
                m.tasks)
            ∙ added_last (str_eq "ready" stage) (str_eq "service" stage) (stage_tasks stage m.tasks)
                (new_task_wrapper (started_probe w handler) options)
                (new_task_wrapper (terminating_probe w handler) options) (not_service stage))

  -- The error for a further handler: for nil, or for one that comes too late.
  abbrev pub refusal : Option (HealthHandler W) → ℕ
  refusal none = Sentinel.initialization
  refusal (some handler) = Sentinel.already_initialized

  -- A manager that does not run refuses another health handler.
  refused :
      (w : W) (again : Option (HealthHandler W)) (options : List (TaskOption W)) (k : Handlers W)
      → k.manager.is_running ≡ false
      → k.health_handler_set ≡ true
      → (e : Error) × (is_opt (refusal again) (some e) ≡ true)
        × (set_health_handler w again options k ≡ record k {
          manager = record k.manager { init_errors = k.manager.init_errors ++ e ∷ [] };
        })
  unfolding set_health_handler svcinit.Errors.is
  refused w none options k r h = (
    nil_handler "%w: health handler cannot be nil",
    refl,
    ap (λ m. record k { manager = m })
        (idle_error (nil_handler "%w: health handler cannot be nil") k.manager r),
  )
  refused w (some handler) options k r h = (
    set_before "%w: health handler was already set",
    refl,
    ap
          (λ b.
            if b
            then record k {
              manager =
                  add_init_error_locked (set_before "%w: health handler was already set") k.manager;
            }
            else accept_health_handler w handler options k)
          h
        ∙ ap (λ m. record k { manager = m })
            (idle_error (set_before "%w: health handler was already set") k.manager r),
  )

  -- On a manager with the four stages that does not run and has no health handler, SetHealthHandler
  -- adds one task to the ready stage, whose only step is a setup that calls ServiceStarted, and one
  -- to the service stage, whose only step is a stop that calls ServiceTerminating; it adds nothing
  -- to other stages and no initialization error; and setting a handler again adds only an
  -- initialization error, for ErrInitialization if the new one is nil and for ErrAlreadyInitialized
  -- if not.
  pub set_health_handler-once :
      (w w' : W) (handler : HealthHandler W) (options options' : List (TaskOption W))
      (k : Handlers W) (stage : String) (ctx : Ctx) (s : Step) (again : Option (HealthHandler W))
      → k.manager.is_running ≡ false
      → k.manager.stages ≡ all_stages
      → k.health_handler_set ≡ false
      → let k' = set_health_handler w (some handler) options k in
        (stage_tasks stage k'.manager.tasks
          ≡ stage_tasks stage k.manager.tasks ++ added_to w handler options stage)
        × (k'.manager.init_errors ≡ k.manager.init_errors)
        × ((e : Error) × (is_opt (refusal again) (some e) ≡ true)
            × (set_health_handler w again options' k' ≡ record k' {
              manager = record k'.manager { init_errors = k'.manager.init_errors ++ e ∷ [] };
            }))
        × (task_has_step (started_probe w handler) w' s ≡ step_eq s setup)
        × (task_has_step (terminating_probe w handler) w' s ≡ step_eq s stop)
        × ((started_probe w handler).run ctx setup w'
            ≡ (returned none, handler.service_started ctx w'))
        × ((terminating_probe w handler).run ctx stop w'
            ≡ (returned none, handler.service_terminating ctx w'))
  unfolding set_health_handler
  set_health_handler-once w w' handler options options' k stage ctx s again r st u =
      let same =
        ap (λ m. record k { manager = m; health_handler = handler; health_handler_set = true })
          (added w handler options k.manager r st) in
      let now =
        ap
          (λ b.
            if b
            then refuse (set_before "%w: health handler was already set") k
            else accept_health_handler w handler options k)
          u
        ∙ same in
      let facts = probes w w' handler ctx s in
      (
        ap (λ x. stage_tasks stage x.manager.tasks) now
            ∙ with_both-stages w handler options k.manager r st stage,
        ap (λ x. x.manager.init_errors) now,
        refused w again options' _ (ap (λ x. x.manager.is_running) now ∙ r)
            (ap (λ x. x.health_handler_set) now),
        facts.0,
        facts.1,
        facts.2,
        facts.3,
      )
