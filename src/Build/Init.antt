-- ===== src/Build/Init.antt =====
-- What `init` computes: the steps of a build and its initialization error.
use svcinit.Common.{
  ◌≡◌, refl, sym, ◌∙◌, ap, Bool, true, false, ◌||◌, Option, none, some, List, [], ◌∷◌, ◌++◌, arith,
  if◌then◌else◌, is_some, is_nil, Bool-cases, inl, inr,
}
use svcinit.Errors.{Error, plain, build_joined_errors}
use svcinit.Errors.Sentinel
use svcinit.Step.{Step, contains}
use svcinit.Task.{Task, get_task_info, task_steps, task_has_step}
use svcinit.Build.{
  TaskBuild, keys, lookup, merge_steps, has_missing_step, init, compute_state, option_list,
  duplicate_error, missing_errors,
}
use svcinit.Build.Steps.{contains-keys, contains-merge_steps, merge_steps_clean}

or_false : (b : Bool) → b ≡ b || false
or_false b = ground arith

build_joined_errors-none : (es : List Error) → build_joined_errors es ≡ none → es ≡ []
unfolding build_joined_errors
build_joined_errors-none [] h = refl
build_joined_errors-none (e ∷ []) h = cc
build_joined_errors-none (e ∷ f ∷ es) h = cc

joined_nil :
    (b c : Bool) (e f : Error) (o : Option Error)
    → (if b then e ∷ [] else []) ++ ((if c then [] else f ∷ []) ++ option_list o) ≡ []
    → (b ≡ false) × (c ≡ true) × (o ≡ none)
joined_nil true c e f o h = ground arith
joined_nil false true e f none h = (refl, refl, refl)
joined_nil false true e f (some x) h = ground arith
joined_nil false false e f o h = ground arith

module _ {W : Type 0} where
  -- Whether the parent has the step.
  abbrev pub parent_has : Option (Task W) → W → Step → Bool
  parent_has none w s = false
  parent_has (some p) w s = task_has_step p w s

  contains-compute_state :
      (w : W) (t : TaskBuild W) (p : Option (Task W)) (s : Step)
      → contains (compute_state w t p).steps s ≡ is_some (lookup s t.step_func) || parent_has p w s
  unfolding compute_state task_has_step
  contains-compute_state w t none s = contains-keys s t.step_func ∙ or_false _
  contains-compute_state w t (some p) s =
      contains-merge_steps (task_steps p w) (keys t.step_func) [] s
      ∙ ap (λ b. b || contains (task_steps p w) s) (contains-keys s t.step_func)

  -- The steps that `init` computes are the keys and the parent's steps, and no others.
  pub contains-init :
      (w : W) (t : TaskBuild W) (s : Step)
      → contains (init w t).state.steps s
        ≡ is_some (lookup s t.step_func) || parent_has t.parent w s
  unfolding init
  contains-init w t s = contains-compute_state w t t.parent s

  abbrev pub parent_error : Option (Task W) → W → Option Error
  parent_error none w = none
  parent_error (some p) w = (get_task_info p w).init_error

  -- No function is missing, no step is both the build's own and its parent's, and the parent has no
  -- initialization error.
  pub record IsClean (w : W) (t : TaskBuild W) (p : Option (Task W)) : Type 0 where
    pub complete : has_missing_step t ≡ false
    pub apart : (s : Step) → parent_has p w s ≡ true → is_some (lookup s t.step_func) ≡ false
    pub parent_ok : parent_error p w ≡ none

  missing_errors_none : (t : TaskBuild W) → missing_errors t ≡ [] → has_missing_step t ≡ false
  missing_errors_none t h = elim (Bool-cases (has_missing_step t)) [
    | inl e ↦ absurd (cc (h, ap (λ b. if b then plain Sentinel.nil_task ∷ [] else []) e))
    | inr e ↦ e
  ]

  compute_state-IsClean :
      (w : W) (t : TaskBuild W) (p : Option (Task W))
      → (compute_state w t p).init_error ≡ none
      → IsClean w t p
  unfolding compute_state task_has_step
  compute_state-IsClean w t none h = record {
    complete = missing_errors_none t (build_joined_errors-none _ h);
    apart = λ s k. cc;
    parent_ok = refl;
  }
  compute_state-IsClean w t (some p) h =
      let merged = merge_steps (task_steps p w) (keys t.step_func) [] in
      let (complete, clean, ok) =
        joined_nil (has_missing_step t) (is_nil merged.1) (plain Sentinel.nil_task)
          (duplicate_error merged.1) (get_task_info p w).init_error
          (build_joined_errors-none _ h) in
      record {
        complete = complete;
        apart = λ s k.
            sym (contains-keys s t.step_func)
            ∙ (merge_steps_clean (task_steps p w) (keys t.step_func) [] clean).1 s k;
        parent_ok = ok;
      }

  -- A build without an initialization error is clean.
  pub init-IsClean :
      (w : W) (t : TaskBuild W) → (init w t).state.init_error ≡ none → IsClean w t t.parent
  unfolding init
  init-IsClean w t h = compute_state-IsClean w t t.parent h
