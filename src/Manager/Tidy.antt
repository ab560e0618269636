-- ===== src/Manager/Tidy.antt =====
-- The invariant of the registered tasks.
use svcinit.Common.{
  ◌≡◌, refl, sym, ◌∙◌, String, Bool, true, false, not, ◌&&◌, Option, none, some, List, [], ◌∷◌,
  arith, is_nil, all, all-append, if◌then◌else◌, Bool-cases, inl, inr, subst, ap₂,
}
use svcinit.Errors.{Error, plain, new_invalid_stage}
use svcinit.Errors.Sentinel
use svcinit.Task.{Task, TaskOption, get_task_info}
use svcinit.Wrapper.{Wrapper, new_task_wrapper}
use svcinit.Manager.{
  Manager, has_string, add, register, add_task, add_idle, add_init_error_locked,
  request_startup_cancel, cannot_add, add_init_error, shutdown,
}
use svcinit.Manager.Register.{idle_error}
use svcinit.Manager.Running.{
  Call, adds_task, adds_init_error, shuts_down, perform, Frozen, perform-Frozen,
}

module _ {W : Type 0} where
  abbrev unstarted : Wrapper W → Bool
  unstarted tw = is_nil tw.execute_steps

  -- Every entry is for a stage of the manager, and holds wrappers that have done no step.
  abbrev pub is_tidy : List String → List (String × List (Wrapper W)) → Bool
  is_tidy stages = all (λ (k, tws). has_string stages k && all unstarted tws)

  is_tidy-add :
      (stages : List String) (stage : String) (tw : Wrapper W)
      (m : List (String × List (Wrapper W)))
      → has_string stages stage ≡ true
      → unstarted tw ≡ true
      → is_tidy stages m ≡ true
      → is_tidy stages (add stage tw m) ≡ true
  unfolding add
  is_tidy-add stages stage tw [] h k t = ground arith
  is_tidy-add stages stage tw ((j, tws) ∷ m) h k t =
      ground (arith, is_tidy-add stages stage tw m h k, all-append unstarted tws (tw ∷ []))

  abbrev pub Tidy : Manager W → Type 0
  Tidy m = is_tidy m.stages m.tasks ≡ true

  Frozen-Tidy : {m n : Manager W} → Frozen m n → Tidy m → Tidy n
  Frozen-Tidy f t = ap₂ is_tidy f.stages_kept f.tasks_kept ∙ t

  error-Tidy :
      (err : Error) (m : Manager W)
      → m.is_running ≡ false
      → Tidy m
      → Tidy (add_init_error_locked err m)
  error-Tidy err m h t = subst Tidy (sym (idle_error err m h)) t

  register-Tidy :
      (o : Option Error) (stage : String) (task : Task W) (options : List (TaskOption W))
      (m : Manager W)
      → m.is_running ≡ false
      → Tidy m
      → Tidy (register o stage task options m)
  register-Tidy (some err) stage task options m h t = error-Tidy err m h t
  register-Tidy none stage task options m h t = elim (Bool-cases (has_string m.stages stage)) [
    | inl e ↦
        subst (λ b. Tidy (choose b)) (sym e)
          (is_tidy-add m.stages stage (new_task_wrapper task options) m.tasks e
            (unfold new_task_wrapper in refl) t)
    | inr e ↦ subst (λ b. Tidy (choose b)) (sym e) (error-Tidy (new_invalid_stage stage) m h t)
  ]
    where
      choose : Bool → Manager W
      choose b =
          if not b
          then add_init_error_locked (new_invalid_stage stage) m
          else record m { tasks = add stage (new_task_wrapper task options) m.tasks }

  add_idle-Tidy :
      (w : W) (stage : String) (task : Option (Task W)) (options : List (TaskOption W))
      (m : Manager W)
      → m.is_running ≡ false
      → Tidy m
      → Tidy (add_idle w stage task options m)
  unfolding add_idle
  add_idle-Tidy w stage none options m h t = error-Tidy (plain Sentinel.nil_task) m h t
  add_idle-Tidy w stage (some task) options m h t =
      register-Tidy (get_task_info task w).init_error stage task options m h t

  perform_idle-Tidy :
      (call : Call W) (m : Manager W) → m.is_running ≡ false → Tidy m → Tidy (perform call m)
  unfolding perform add_task add_init_error shutdown request_startup_cancel
  perform_idle-Tidy (adds_task w stage task options) m h t =
      subst
        (λ b.
          Tidy (if b then request_startup_cancel cannot_add m else add_idle w stage task options m))
        (sym h) (add_idle-Tidy w stage task options m h t)
  perform_idle-Tidy (adds_init_error none) m h t = t
  perform_idle-Tidy (adds_init_error (some err)) m h t = error-Tidy err m h t
  perform_idle-Tidy shuts_down m h t = ground arith

  -- If every task stands under a stage of the manager and none has done a step, this also holds
  -- after any call of AddTask, AddInitError or Shutdown, whether the manager runs or not.
  pub perform-Tidy : (call : Call W) (m : Manager W) → Tidy m → Tidy (perform call m)
  perform-Tidy call m t = elim (Bool-cases m.is_running) [
    | inl run ↦ Frozen-Tidy {m = m} (perform-Frozen call m run) t
    | inr idle ↦ perform_idle-Tidy call m idle t
  ]
