-- ===== src/Manager/Running/Added.antt =====
-- What calls before a run leave in the stages, if none of them gave an initialization error.
use svcinit.Common.{
  ℕ, suc, ◌+◌, ◌≤◌, ◌≡◌, refl, ap, sym, ◌∙◌, subst, String, Bool, true, false, not, ◌&&◌, Option,
  none, some, List, [], ◌∷◌, ◌++◌, append-nil, append_assoc, arith, length, length-append, str_eq,
  if◌then◌else◌, Bool-cases, inl, inr,
}
use svcinit.Errors.{Error, plain, new_invalid_stage}
use svcinit.Errors.Sentinel
use svcinit.Task.{Task, TaskOption, get_task_info}
use svcinit.Wrapper.{Wrapper, new_task_wrapper}
use svcinit.Manager.{
  Manager, stage_tasks, add, has_string, register, cannot_add, add_task, add_idle, add_init_error,
  add_init_error_locked, request_startup_cancel, shutdown,
}
use svcinit.Manager.Register.{accepts, wrapper_of, add_task-Outcome, idle_error}
use svcinit.Manager.Running.{
  Call, adds_task, adds_init_error, shuts_down, perform, after_calls, perform-Frozen,
}

one_more : (b : Bool) (x y : ℕ) → y + (if b then 1 else 0) ≡ suc x → x ≤ y
one_more true x y h = omega (arith, h)
one_more false x y h = omega (arith, h)

module _ {W : Type 0} where
  -- The tasks that the calls name for a stage, in the order of the calls.
  abbrev pub added : String → List (Call W) → List (Wrapper W)
  added s [] = []
  added s (adds_task w stage task options ∷ cs) =
      (if str_eq stage s then wrapper_of task options else []) ++ added s cs
  added s (adds_init_error err ∷ cs) = added s cs
  added s (shuts_down ∷ cs) = added s cs

  -- A call before the run leaves the manager idle, and takes no error away.
  abbrev Grows : Manager W → Manager W → Type 0
  Grows m n = (n.is_running ≡ false) × (length m.init_errors ≤ length n.init_errors)

  request_keeps :
      (cause : Error) (m : Manager W)
      → ((request_startup_cancel cause m).is_running ≡ m.is_running)
        × ((request_startup_cancel cause m).init_errors ≡ m.init_errors)
        × ((request_startup_cancel cause m).tasks ≡ m.tasks)
  unfolding request_startup_cancel
  request_keeps cause m = ground arith

  error-Grows :
      (e : Error) (m : Manager W) → m.is_running ≡ false → Grows m (add_init_error_locked e m)
  error-Grows e m idle =
      rw (idle_error e m idle) (idle, omega (arith, length-append {0} m.init_errors (e ∷ [])))

  register_idle :
      (o : Option Error) (stage : String) (t : Task W) (options : List (TaskOption W))
      (m : Manager W)
      → m.is_running ≡ false
      → (register o stage t options m).is_running ≡ false
  register_idle (some e) stage t options m idle = (error-Grows e m idle).0
  register_idle none stage t options m idle = by (has_string m.stages stage)
    where
      by :
          (b : Bool)
          → (if not b
              then add_init_error_locked (new_invalid_stage stage) m
              else record m { tasks = add stage (new_task_wrapper t options) m.tasks }).is_running
            ≡ false
      by true = idle
      by false = (error-Grows (new_invalid_stage stage) m idle).0

  stays_idle :
      (w : W) (stage : String) (task : Option (Task W)) (options : List (TaskOption W))
      (m : Manager W)
      → m.is_running ≡ false
      → (add_task w stage task options m).is_running ≡ false
  unfolding add_task
  stays_idle w stage task options m idle =
      subst {A = Bool}
        (λ b.
          (if b
            then request_startup_cancel cannot_add m
            else add_idle w stage task options m).is_running
          ≡ false)
        (sym idle) (by task)
    where
      by : (o : Option (Task W)) → (add_idle w stage o options m).is_running ≡ false
      by none = unfold add_idle in (error-Grows (plain Sentinel.nil_task) m idle).0
      by (some t) =
          unfold add_idle in register_idle (get_task_info t w).init_error stage t options m idle

  pub perform-Grows : (c : Call W) (m : Manager W) → m.is_running ≡ false → Grows m (perform c m)
  unfolding perform add_init_error shutdown
  perform-Grows (adds_task w stage task options) m idle =
      let (tasks, errors, stages) = add_task-Outcome w stage task options m idle in
      (stays_idle w stage task options m idle, one_more (accepts w stage task m) _ _ errors)
  perform-Grows (adds_init_error none) m idle = (idle, omega arith)
  perform-Grows (adds_init_error (some e)) m idle = error-Grows e m idle
  perform-Grows shuts_down m idle =
      let (a, b, c) = request_keeps (plain Sentinel.exit) m in
      (a ∙ idle, omega (arith, ap length b))

  pub after_calls-Grows :
      (cs : List (Call W)) (m : Manager W) → m.is_running ≡ false → Grows m (after_calls cs m)
  after_calls-Grows [] m idle = (idle, omega arith)
  after_calls-Grows (c ∷ cs) m idle =
      let (idle', grows) = perform-Grows c m idle in
      let (idle'', grows') = after_calls-Grows cs (perform c m) idle' in
      (idle'', omega (arith, grows, grows'))

  accepted :
      (b : Bool) (x y : ℕ) (s stage : String) (tws : List (Wrapper W))
      → y + (if b then 1 else 0) ≡ suc x
      → y ≤ 0
      → (if b && str_eq stage s then tws else []) ≡ (if str_eq stage s then tws else [])
  accepted true x y s stage tws h z = refl
  accepted false x y s stage tws h z = absurd (omega (arith, h, z))

  -- What a call adds to a stage, if there is no error after it.
  perform-added :
      (c : Call W) (m : Manager W) (s : String)
      → m.is_running ≡ false
      → length (perform c m).init_errors ≤ 0
      → stage_tasks s (perform c m).tasks ≡ stage_tasks s m.tasks ++ added s (c ∷ [])
  unfolding perform add_init_error shutdown
  perform-added (adds_task w stage task options) m s idle z =
      let (tasks, errors, stages) = add_task-Outcome w stage task options m idle in
      tasks s
      ∙ ap (λ tws. stage_tasks s m.tasks ++ tws)
          (accepted (accepts w stage task m) _ _ s stage (wrapper_of task options) errors z
            ∙ sym (append-nil (if str_eq stage s then wrapper_of task options else [])))
  perform-added (adds_init_error none) m s idle z = sym (append-nil (stage_tasks s m.tasks))
  perform-added (adds_init_error (some e)) m s idle z = absurd (
      omega (
        arith,
        ap (λ n. length n.init_errors) (idle_error e m idle),
        length-append {0} m.init_errors (e ∷ []),
        z,
      ))
  perform-added shuts_down m s idle z =
      let (a, b, c) = request_keeps (plain Sentinel.exit) m in
      ap (stage_tasks s) c ∙ sym (append-nil (stage_tasks s m.tasks))

  added-cons :
      (s : String) (c : Call W) (cs : List (Call W))
      → added s (c ∷ cs) ≡ added s (c ∷ []) ++ added s cs
  added-cons s (adds_task w stage task options) cs =
      ap (λ tws. tws ++ added s cs)
        (sym (append-nil (if str_eq stage s then wrapper_of task options else [])))
  added-cons s (adds_init_error err) cs = refl
  added-cons s shuts_down cs = refl

  -- After calls on an idle manager that leave no initialization error, each stage has the tasks that
  -- the calls named it for, in order, behind those that it had: none was refused.
  pub after_calls-added :
      (cs : List (Call W)) (m : Manager W) (s : String)
      → m.is_running ≡ false
      → length (after_calls cs m).init_errors ≤ 0
      → stage_tasks s (after_calls cs m).tasks ≡ stage_tasks s m.tasks ++ added s cs
  after_calls-added [] m s idle z = sym (append-nil (stage_tasks s m.tasks))
  after_calls-added (c ∷ cs) m s idle z =
      let (idle', grows) = perform-Grows c m idle in
      let (idle'', grows') = after_calls-Grows cs (perform c m) idle' in
      after_calls-added cs (perform c m) s idle' z
      ∙ (ap (λ tws. tws ++ added s cs) (perform-added c m s idle (omega (arith, grows', z)))
          ∙ (append_assoc (stage_tasks s m.tasks) (added s (c ∷ [])) (added s cs)
              ∙ ap (λ tws. stage_tasks s m.tasks ++ tws) (sym (added-cons s c cs))))

  idle_error-stages : (e : Error) (m : Manager W) → (add_init_error_locked e m).stages ≡ m.stages
  unfolding add_init_error_locked request_startup_cancel
  idle_error-stages e m = ground arith

  -- No call changes the stages.
  pub perform-stages : (c : Call W) (m : Manager W) → (perform c m).stages ≡ m.stages
  unfolding perform add_init_error shutdown request_startup_cancel
  perform-stages (adds_task w stage task options) m = elim (Bool-cases m.is_running) [
    | inl r ↦ (perform-Frozen (adds_task w stage task options) m r).stages_kept
    | inr i ↦ (add_task-Outcome w stage task options m i).2
  ]
  perform-stages (adds_init_error none) m = refl
  perform-stages (adds_init_error (some e)) m = idle_error-stages e m
  perform-stages shuts_down m = ground arith

  pub after_calls-stages :
      (cs : List (Call W)) (m : Manager W) → (after_calls cs m).stages ≡ m.stages
  after_calls-stages [] m = refl
  after_calls-stages (c ∷ cs) m = after_calls-stages cs (perform c m) ∙ perform-stages c m
