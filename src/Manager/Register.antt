-- ===== src/Manager/Register.antt =====
-- Registration: what `AddTask`, `AddInitError` and `Shutdown` do before and during a run.
use svcinit.Common.{
  true, ◌&&◌, sym, subst, append-nil, is_some, ℕ, suc, ◌+◌, ◌≡◌, refl, ap, ◌∙◌, String, Bool, false,
  not, Option, none, some, List, [], ◌∷◌, ◌++◌, arith, length, length-append, str_eq, str_eq_iff,
  if◌then◌else◌, Bool-cases, inl, inr,
}
use svcinit.Errors.{Error, plain, new_invalid_stage}
use svcinit.Errors.Sentinel
use svcinit.Task.{Task, TaskOption, get_task_info}
use svcinit.Wrapper.{Wrapper, new_task_wrapper}
use svcinit.Manager.{
  Manager, has_string, add, stage_tasks, register, add_task, add_idle, in_run,
  add_init_error_locked, request_startup_cancel, cannot_add,
}

module _ {V : Type 0} where
  -- After a task is added to a stage, reading any stage gives what it held before, with the new
  -- task last where the stage is that one.
  pub stage_tasks-add :
      (stage s : String) (tw : V) (m : List (String × List V))
      → stage_tasks s (add stage tw m)
        ≡ (if str_eq stage s then stage_tasks s m ++ tw ∷ [] else stage_tasks s m)
  unfolding stage_tasks add
  stage_tasks-add stage s tw [] = refl
  stage_tasks-add stage s tw ((k, tws) ∷ m) =
      ground (
        arith,
        stage_tasks-add stage s tw m,
        str_eq_iff k stage,
        str_eq_iff k s,
        str_eq_iff stage s,
      )

  abbrev pub total : List (String × List V) → ℕ
  total [] = 0
  total ((k, tws) ∷ m) = length tws + total m

  total-add :
      (stage : String) (tw : V) (m : List (String × List V))
      → total (add stage tw m) ≡ suc (total m)
  unfolding add
  total-add stage tw [] = omega arith
  total-add stage tw ((k, tws) ∷ m) =
      ground (arith, total-add stage tw m, length-append tws (tw ∷ []))

module _ {W : Type 0} where
  -- Everything that was registered: tasks and initialization errors.
  abbrev pub registered : Manager W → ℕ
  registered m = total m.tasks + length m.init_errors

  pub idle_error :
      (err : Error) (m : Manager W)
      → m.is_running ≡ false
      → add_init_error_locked err m ≡ record m { init_errors = m.init_errors ++ err ∷ [] }
  unfolding add_init_error_locked
  idle_error err m h =
      ap {B = Manager W}
        (λ b.
          if b
          then request_startup_cancel (in_run err) m
          else record m { init_errors = m.init_errors ++ err ∷ [] })
        h

  error-registered :
      (err : Error) (m : Manager W)
      → m.is_running ≡ false
      → registered (add_init_error_locked err m) ≡ suc (registered m)
  error-registered err m h =
      ap registered (idle_error err m h) ∙ omega (arith, length-append {0} m.init_errors (err ∷ []))

  register-registered :
      (o : Option Error) (stage : String) (t : Task W) (options : List (TaskOption W))
      (m : Manager W)
      → m.is_running ≡ false
      → registered (register o stage t options m) ≡ suc (registered m)
  register-registered (some err) stage t options m h = error-registered err m h
  register-registered none stage t options m h = elim (Bool-cases (has_string m.stages stage)) [
    | inl e ↦
        ap (λ b. registered (choose b)) e
        ∙ omega (arith, total-add stage (new_task_wrapper t options) m.tasks)
    | inr e ↦ ap (λ b. registered (choose b)) e ∙ error-registered (new_invalid_stage stage) m h
  ]
    where
      choose : Bool → Manager W
      choose b =
          if not b
          then add_init_error_locked (new_invalid_stage stage) m
          else record m { tasks = add stage (new_task_wrapper t options) m.tasks }

  -- On a manager that does not run, each AddTask registers either its task or one initialization
  -- error: the number of both together grows by one.
  pub add_task-registered :
      (w : W) (stage : String) (task : Option (Task W)) (options : List (TaskOption W))
      (m : Manager W)
      → m.is_running ≡ false
      → registered (add_task w stage task options m) ≡ suc (registered m)
  unfolding add_task
  add_task-registered w stage task options m h =
      ap {B = ℕ}
        (λ b.
          registered
            (if b then request_startup_cancel cannot_add m else add_idle w stage task options m))
        h
      ∙ idle task
    where
      idle : (o : Option (Task W)) → registered (add_idle w stage o options m) ≡ suc (registered m)
      idle none = unfold add_idle in error-registered (plain Sentinel.nil_task) m h
      idle (some t) =
          unfold add_idle in register-registered (get_task_info t w).init_error stage t options m h

  -- Whether the idle manager takes the task: it is not nil, reports no error of its own, and names a
  -- stage of the manager.
  abbrev pub accepts : W → String → Option (Task W) → Manager W → Bool
  accepts w stage none m = false
  accepts w stage (some t) m =
      not (is_some (get_task_info t w).init_error) && has_string m.stages stage

  abbrev pub wrapper_of : Option (Task W) → List (TaskOption W) → List (Wrapper W)
  wrapper_of none options = []
  wrapper_of (some t) options = new_task_wrapper t options ∷ []

  -- What an addition to the idle manager makes of it: the task at the end of its stage, or one
  -- error more.
  abbrev pub Outcome : Bool → String → List (Wrapper W) → Manager W → Manager W → Type 0
  Outcome taken stage tws m m' =
      ((s : String)
        → stage_tasks s m'.tasks
          ≡ stage_tasks s m.tasks ++ (if taken && str_eq stage s then tws else []))
      × (length m'.init_errors + (if taken then 1 else 0) ≡ suc (length m.init_errors))
      × (m'.stages ≡ m.stages)

  error-Outcome :
      (err : Error) (stage : String) (tws : List (Wrapper W)) (m : Manager W)
      → m.is_running ≡ false
      → Outcome false stage tws m (add_init_error_locked err m)
  error-Outcome err stage tws m h = rw (idle_error err m h) (
    (λ s. sym (append-nil (stage_tasks s m.tasks))),
    omega (arith, length-append {0} m.init_errors (err ∷ [])),
    refl,
  )

  register-Outcome :
      (o : Option Error) (stage : String) (t : Task W) (options : List (TaskOption W))
      (m : Manager W)
      → m.is_running ≡ false
      → Outcome
          (not (is_some o) && has_string m.stages stage)
          stage
          (new_task_wrapper t options ∷ [])
          m
          (register o stage t options m)
  register-Outcome (some err) stage t options m h =
      error-Outcome err stage (new_task_wrapper t options ∷ []) m h
  register-Outcome none stage t options m h = by (has_string m.stages stage)
    where
      tw : Wrapper W
      tw = new_task_wrapper t options

      by :
          (b : Bool)
          → Outcome b stage (tw ∷ []) m (
              if not b
              then add_init_error_locked (new_invalid_stage stage) m
              else record m { tasks = add stage tw m.tasks })
      by true = (
        λ s.
            stage_tasks-add stage s tw m.tasks ∙ ground (arith, append-nil (stage_tasks s m.tasks)),
        omega arith,
        refl,
      )
      by false = error-Outcome (new_invalid_stage stage) stage (tw ∷ []) m h

  -- On a manager that does not run, AddTask puts a task that is not nil, reports no init error and
  -- names a stage of the manager at the end of that stage, and gives one initialization error more
  -- for any other; either way the tasks of the other stages and the list of stages are as before,
  -- and an added task gives no error.
  pub add_task-Outcome :
      (w : W) (stage : String) (task : Option (Task W)) (options : List (TaskOption W))
      (m : Manager W)
      → m.is_running ≡ false
      → Outcome
          (accepts w stage task m)
          stage
          (wrapper_of task options)
          m
          (add_task w stage task options m)
  unfolding add_task
  add_task-Outcome w stage task options m h =
      subst (Outcome (accepts w stage task m) stage (wrapper_of task options) m)
        (sym (
          ap {B = Manager W}
            (λ b.
              if b then request_startup_cancel cannot_add m else add_idle w stage task options m)
            h))
        (idle task)
    where
      idle :
          (o : Option (Task W))
          → Outcome
              (accepts w stage o m)
              stage
              (wrapper_of o options)
              m
              (add_idle w stage o options m)
      idle none = unfold add_idle in error-Outcome (plain Sentinel.nil_task) stage [] m h
      idle (some t) =
          unfold add_idle in register-Outcome (get_task_info t w).init_error stage t options m h
