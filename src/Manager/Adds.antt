-- ===== src/Manager/Adds.antt =====
-- manager.go: the other ways to add a task, each of them around `AddTask`.
use svcinit.Common.{
  ℕ, ◌+◌, String, ◌≡◌, arith, false, Option, none, some, List, Action, Outcome, returned, panicked,
  panic,
}
use svcinit.Errors.{Error}
use svcinit.Context.{Ctx}
use svcinit.Step.{Step}
use svcinit.Task.{Task, TaskOption, task_func}
use svcinit.Service.{Service, service_as_task}
use svcinit.Manager.{Manager, add_task}
use svcinit.Manager.Register.{registered, add_task-registered}

abbrev pub TaskFunc : Type 0 → Type 0
TaskFunc W = Ctx → Step → Action W (Option Error)

module _ {W : Type 0} where
  -- A nil function is a task that is not nil: it panics when it is run.
  unfoldable pub func_or_panic : Option (TaskFunc W) → TaskFunc W
  func_or_panic none ctx s = panic
  func_or_panic (some f) ctx s = f ctx s

  unfoldable pub add_task_func :
      W → String → Option (TaskFunc W) → List (TaskOption W) → Manager W → Manager W
  unfolding add_task task_func func_or_panic
  add_task_func w stage f options m =
      add_task w stage (some (task_func (func_or_panic f))) options m

  unfoldable pub add_service :
      W → String → Option (Service W) → List (TaskOption W) → Manager W → Manager W
  unfolding add_task service_as_task
  add_service w stage none options m = add_task w stage none options m
  add_service w stage (some service) options m =
      add_task w stage (some (service_as_task service)) options m

  module _ {T : Type 0} (as_task : T → Option (Task W)) (stage : String)
      (options : List (TaskOption W)) where
    abbrev add_made : Outcome T → Action (Manager W × W) T
    unfolding add_task
    add_made panicked v = (panicked, v)
    add_made (returned t) (m, w) = (returned t, (add_task w stage (as_task t) options m, w))

    -- `InitAddTask`: `init` is code of the caller, and its result a task, which may be nil.
    unfoldable pub init_add_task : Action W T → Action (Manager W × W) T
    unfolding add_made
    init_add_task init (m, w) = let (r, w') = init w in add_made r (m, w')

    abbrev add_checked : Outcome (T × Option Error) → Action (Manager W × W) (T × Option Error)
    unfolding add_task
    add_checked panicked v = (panicked, v)
    add_checked (returned (t, some err)) v = (returned (t, some err), v)
    add_checked (returned (t, none)) (m, w) =
        (returned (t, none), (add_task w stage (as_task t) options m, w))

    unfoldable pub init_check_add_task :
        Action W (T × Option Error) → Action (Manager W × W) (T × Option Error)
    unfolding add_checked
    init_check_add_task init (m, w) = let (r, w') = init w in add_checked r (m, w')

    -- Whether the result of an `init` is added.
    abbrev pub is_made : Outcome (T × Option Error) → ℕ
    is_made (returned (t, none)) = 1
    is_made r = 0

    -- On a manager that does not run, InitCheckAddTask registers one task or initialization error if
    -- its init returns no error, and nothing otherwise.
    pub init_check_add_task-registered :
        (init : Action W (T × Option Error)) (m : Manager W) (w : W)
        → m.is_running ≡ false
        → registered (init_check_add_task init (m, w)).1.0 ≡ is_made (init w).0 + registered m
    unfolding init_check_add_task
    init_check_add_task-registered init m w h = by_result (init w).0
      where
        by_result :
            (r : Outcome (T × Option Error))
            → registered (add_checked r (m, (init w).1)).1.0 ≡ is_made r + registered m
        by_result panicked = omega arith
        by_result (returned (t, some err)) = omega arith
        by_result (returned (t, none)) =
            omega (arith, add_task-registered (init w).1 stage (as_task t) options m h)
