-- ===== src/FutureTask/Skips.antt =====
-- The task's info has the callback that resolves the future.
use svcinit.Common.{
  ◌≡◌, refl, ap, ◌∙◌, true, false, not, ◌||◌, Option, none, some, List, [], ◌∷◌, ◌++◌, map,
  for_each, returned, and_then, pure, is_nil, is_some, if◌then◌else◌,
}
use mathlib.Core.Option
use svcinit.Errors.{Error}
use svcinit.Context.{Ctx}
use svcinit.Step.{Step}
use svcinit.Task.{Task, TaskInfo, no_info, get_task_info}
use svcinit.Build.{
  TaskBuild, BuildOption, Skipped, no_build, apply_build_options, apply_build_option, call_skipped,
}
use svcinit.Build
use svcinit.Future.{Future, Latch, unset, waiting, closed, is_closed, new_future}
use svcinit.Instance.{
  Store, SetupFunc, DataFunc, lift_skipped, task_info, lift_build, lift_task, current,
}
use svcinit.Instance.Make.{
  BuildOptions, InstanceBuildOption, with_skipped, build, step_options, options_build,
  instance_build, apply_instance_options, apply_instance_option, no_build_options,
}
use svcinit.FutureTask.{future_setup, skip, new}

snoc_not_nil :
    {A B : Type 0} (h : A → B) (xs : List A) (x : A) → is_nil (map h (xs ++ x ∷ [])) ≡ false
snoc_not_nil h [] x = refl
snoc_not_nil h (y ∷ ys) x = refl

module _ {W : Type 0} where
  -- The callback of a build, from its own callbacks and its parent's.
  abbrev callback : List (Skipped W) → Option (Skipped W) → Option (Skipped W)
  callback fs parent =
      if not (is_nil fs) || is_some parent then some (call_skipped fs parent) else none

  info-skipped :
      (t : TaskBuild W) (w : W) (fs : List (Skipped W))
      → t.parent ≡ none
      → t.skipped ≡ fs
      → is_nil fs ≡ false
      → (Build.task_info t w).skipped ≡ some (call_skipped fs none)
  unfolding Build.task_info
  info-skipped t w fs q e n =
      ap
        (λ p.
          let info : TaskInfo W = elim p [
            | none ↦ no_info
            | some parent ↦ get_task_info parent w
          ] in
          callback t.skipped info.skipped)
        q
      ∙ (ap (λ l. callback l none) e
          ∙ ap (λ b. if not b || false then some (call_skipped fs none) else none) n)

  skipped-snoc :
      (xs : List (BuildOption W)) (f : Skipped W) (t : TaskBuild W)
      → (apply_build_options t (xs ++ Build.with_skipped (some f) ∷ [])).skipped
        ≡ (apply_build_options t xs).skipped ++ f ∷ []
  unfolding apply_build_options apply_build_option
  skipped-snoc [] f t = refl
  skipped-snoc (x ∷ xs) f t = skipped-snoc xs f (apply_build_option t x)

module _ {W : Type 0} where
  -- Callbacks that do not panic.
  abbrev pub AllReturn : Ctx → Option Error → List (Skipped W) → Type 0
  AllReturn ctx cause [] = Unit
  AllReturn ctx cause (f ∷ fs) =
      ((w : W) → (f ctx cause w).0 ≡ returned tt) × AllReturn ctx cause fs

module _ {T W : Type 0} where
  tb_options-snoc :
      (xs : List (InstanceBuildOption T W)) (f : Option (Skipped W)) (o : BuildOptions T W)
      → (apply_instance_options o (xs ++ with_skipped f ∷ [])).tb_options
        ≡ (apply_instance_options o xs).tb_options ++ Build.with_skipped f ∷ []
  unfolding apply_instance_options apply_instance_option
  tb_options-snoc [] f o = refl
  tb_options-snoc (x ∷ xs) f o = tb_options-snoc xs f (apply_instance_option o x)

  step_options-skipped :
      (empty : T) (m : List (Step × Option (DataFunc T W))) (t : TaskBuild (Store T W × W))
      → (apply_build_options t (step_options empty m)).skipped ≡ t.skipped
  unfolding apply_build_options apply_build_option step_options
  step_options-skipped empty [] t = refl
  step_options-skipped empty ((s, none) ∷ m) t = step_options-skipped empty m _
  step_options-skipped empty ((s, some f) ∷ m) t = step_options-skipped empty m _

  -- The callbacks of a task: those of its options.
  build-skipped :
      (w : W) (empty : T) (as_task : T → Option (Task W)) (f : SetupFunc T W)
      (options : List (InstanceBuildOption T W))
      → (build w empty as_task (some f) options).0.skipped
        ≡ map lift_skipped
            (apply_build_options no_build
              (apply_instance_options no_build_options options).tb_options).skipped
  unfolding build instance_build options_build apply_build_options apply_build_option lift_build
  build-skipped w empty as_task f options =
      step_options-skipped empty (apply_instance_options no_build_options options).step_func _

  -- The last of the callbacks decides.
  last_callback :
      (fs : List (Skipped W)) (g : Skipped W) (ctx : Ctx) (cause : Option Error) (st : Store T W)
      (w : W)
      → AllReturn ctx cause fs
      → ((w' : W) → (g ctx cause w').0 ≡ returned tt)
      → (w' : W) × (for_each (λ f. f ctx cause) (map lift_skipped (fs ++ g ∷ []) ++ []) (st, w)
          ≡ (returned tt, (st, (g ctx cause w').1)))
  last_callback [] g ctx cause st w all last =
      (w, ap (λ r. and_then r (λ _. pure tt) (st, (g ctx cause w).1)) (last w))
  last_callback (f ∷ fs) g ctx cause st w (first, all) last =
      let v = (f ctx cause w).1 in
      let (w', e) = last_callback fs g ctx cause st v all last in
      (
        w',
        ap
              (λ r.
                and_then r
                  (λ _. for_each (λ h. h ctx cause) (map lift_skipped (fs ++ g ∷ []) ++ []))
                  (st, v))
              (first w)
            ∙ e,
      )

  skip_closes :
      (ctx : Ctx) (cause : Option Error) (fut : Future T) (w : W)
      → ((skip ctx cause (fut, w)).0 ≡ returned tt)
        × (is_closed (skip ctx cause (fut, w)).1.0.latch ≡ true)
  unfolding skip
  skip_closes ctx cause fut w = at_latch fut.latch
    where
      at_latch :
          (l : Latch)
          → let (r, (fut', w')) = skip ctx cause (record fut { latch = l }, w) in
            (r ≡ returned tt) × (is_closed fut'.latch ≡ true)
      at_latch closed = (refl, refl)
      at_latch unset = (refl, refl)
      at_latch waiting = (refl, refl)

module _ {T W : Type 0} (w0 : W) (empty : T) (as_task : T → Option (Task (Future T × W)))
    (f : SetupFunc T W) (options : List (InstanceBuildOption T (Future T × W))) where
  abbrev this : TaskBuild (Store T (Future T × W) × (Future T × W))
  this = (new w0 empty as_task (some f) options).0.0

  -- The callbacks of the options.
  abbrev pub own : List (Skipped (Future T × W))
  own =
      (apply_build_options no_build
        (apply_instance_options no_build_options options).tb_options).skipped

  this-skipped : this.skipped ≡ map lift_skipped (own ++ skip ∷ [])
  unfolding new
  this-skipped =
      build-skipped (new_future empty, w0) empty as_task (future_setup empty f)
        (options ++ with_skipped (some skip) ∷ [])
      ∙ ap (map lift_skipped) (
          ap (λ xs. (apply_build_options no_build xs).skipped)
            (tb_options-snoc options (some skip) no_build_options)
          ∙ skipped-snoc (apply_instance_options no_build_options options).tb_options skip no_build)

  -- The Skipped function in the TaskInfo of a future task without a parent, where none of the
  -- callbacks that the options give panics, returns and leaves the future resolved, whatever these
  -- callbacks do and whether it was resolved before, so that no read waits for ever; and it leaves
  -- the task's data as they are.
  pub skipped_resolves :
      (ctx : Ctx) (cause : Option Error) (st : Store T (Future T × W)) (fut : Future T) (w : W)
      → st.parent ≡ none
      → AllReturn ctx cause own
      → (h : Skipped (Store T (Future T × W) × (Future T × W))) × ((task_info this
            (st, (fut, w))).skipped
          ≡ some h)
        × ((h ctx cause (st, (fut, w))).0 ≡ returned tt)
        × ((h ctx cause (st, (fut, w))).1.0 ≡ st)
        × (is_closed (h ctx cause (st, (fut, w))).1.1.0.latch ≡ true)
  unfolding task_info current
  skipped_resolves ctx cause st fut w q all =
      let ((fut', w'), e) =
        last_callback own skip ctx cause st (fut, w) all
          (λ (v, x). (skip_closes ctx cause v x).0) in
      (
        call_skipped (map lift_skipped (own ++ skip ∷ [])) none,
        info-skipped (current this st) (st, (fut, w)) (map lift_skipped (own ++ skip ∷ []))
            (ap (Option.map lift_task) q) this-skipped (snoc_not_nil lift_skipped own skip),
        ap (λ x. x.0) e,
        ap (λ x. x.1.0) e,
        ap (λ x. is_closed x.1.1.0.latch) e ∙ (skip_closes ctx cause fut' w').1,
      )
