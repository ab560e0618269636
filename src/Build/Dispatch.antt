-- ===== src/Build/Dispatch.antt =====
-- Where `Run` of a build sends each step.
use svcinit.Common.{
  ◌≡◌, Bool, refl, ap, sym, ◌∙◌, true, false, not, ◌||◌, Option, none, some, List, [], ◌∷◌, arith,
  if◌then◌else◌, is_some, is_nil, Bool-cases, inl, inr, returned,
}
use svcinit.Errors.{new_invalid_task_step}
use svcinit.Context.{Ctx}
use svcinit.Step.{Step, contains}
use svcinit.Task.{Task, task_has_step}
use svcinit.Build.{
  TaskBuild, BuildFunc, lookup, has_nil, has_missing_step, init, run, dispatch, parent_for,
}
use svcinit.Build.Init.{parent_has, IsClean, init-IsClean, contains-init}

module _ {W : Type 0} where
  -- A step is served by the build's own function, or by the parent if the build has none.
  pub data Serves (t : TaskBuild W) (w : W) (s : Step) (f : BuildFunc W) : Type 0 where
    own : lookup s t.step_func ≡ some (some f) → Serves t w s f
    parents :
        (p : Task W)
        → lookup s t.step_func ≡ none
        → t.parent ≡ some p
        → task_has_step p w s ≡ true
        → ((ctx : Ctx) → f ctx ≡ p.run ctx s)
        → Serves t w s f

lookup_not_nil :
    {V : Type 0} (s : Step) (m : List (Step × Option V))
    → has_nil m ≡ false
    → lookup s m ≡ some none
    → ⊥
unfolding lookup has_nil
lookup_not_nil s [] h k = cc
lookup_not_nil s ((j, none) ∷ m) h k = ground arith
lookup_not_nil s ((j, some v) ∷ m) h k = ground (arith, lookup_not_nil s m)

module _ {W : Type 0} where
  complete_lookup :
      (t : TaskBuild W) (s : Step)
      → has_missing_step t ≡ false
      → lookup s t.step_func ≡ some none
      → ⊥
  unfolding has_missing_step
  complete_lookup t s h k = complete t.step_func h k
    where
      complete :
          (m : List (Step × Option (BuildFunc W)))
          → (if is_nil m then not (is_some t.parent) else has_nil m) ≡ false
          → lookup s m ≡ some none
          → ⊥
      complete [] h k = unfold lookup in cc
      complete (x ∷ m) h k = lookup_not_nil s (x ∷ m) h k

  -- `w` is the world at init, `v` that of the run.
  module _ (w v : W) (t : TaskBuild W) (s : Step) where
    abbrev Served : Option (Option (BuildFunc W)) → Option (Task W) → Type 0
    Served o p =
        (f : BuildFunc W) × Serves t v s f
        × ((ctx : Ctx) → dispatch o (parent_for p v s) s ctx v ≡ f ctx v)

    serve_parent :
        (p : Task W)
        → lookup s t.step_func ≡ none
        → t.parent ≡ some p
        → task_has_step p v s ≡ true
        → Served none (some p)
    unfolding parent_for
    serve_parent p e q h = (λ ctx. p.run ctx s, parents p e q h (λ ctx. refl), λ ctx. rw h refl)

    serve :
        (o : Option (Option (BuildFunc W))) (p : Option (Task W))
        → lookup s t.step_func ≡ o
        → t.parent ≡ p
        → IsClean w t p
        → parent_has p v s ≡ parent_has p w s
        → is_some o || parent_has p w s ≡ true
        → Served o p
    unfolding parent_for
    serve none none e q c same h = absurd (cc)
    serve none (some p) e q c same h = serve_parent p e q (same ∙ h)
    serve (some none) p e q c same h = absurd (complete_lookup t s c.complete e)
    serve (some (some f)) none e q c same h = (f, own e, λ ctx. refl)
    serve (some (some f)) (some p) e q c same h = elim (Bool-cases (task_has_step p v s)) [
      | inl b ↦ absurd (cc (c.apart s (sym same ∙ b), e))
      | inr b ↦ (f, own e, λ ctx. rw b refl)
    ]

    -- A build whose init gives no error runs each of its steps by the one function that has it, its
    -- own or its parent's.
    pub run_served :
        (init w t).state.init_error ≡ none
        → parent_has t.parent v s ≡ parent_has t.parent w s
        → contains (init w t).state.steps s ≡ true
        → (f : BuildFunc W) × Serves t v s f × ((ctx : Ctx) → run (init w t) ctx s v ≡ f ctx v)
    unfolding run init
    run_served clean same h =
        serve (lookup s t.step_func) t.parent refl refl (init-IsClean w t clean) same
          (sym (contains-init w t s) ∙ h)

    unserved :
        (o : Option (Option (BuildFunc W))) (p : Option (Task W)) (ctx : Ctx)
        → is_some o || parent_has p v s ≡ false
        → dispatch o (parent_for p v s) s ctx v ≡ (returned (some (new_invalid_task_step s)), v)
    unfolding parent_for
    unserved none none ctx h = refl
    unserved none (some p) ctx h = rw h refl
    unserved (some f) p ctx h = absurd (cc)

    -- A step that is not among those of a build is answered with ErrInvalidTaskStep, and nothing is
    -- run.
    pub run_unserved :
        (ctx : Ctx)
        → parent_has t.parent v s ≡ parent_has t.parent w s
        → contains (init w t).state.steps s ≡ false
        → run (init w t) ctx s v ≡ (returned (some (new_invalid_task_step s)), v)
    unfolding run init
    run_unserved ctx same h =
        unserved (lookup s t.step_func) t.parent ctx
          (ap (λ b. is_some (lookup s t.step_func) || b) same ∙ (sym (contains-init w t s) ∙ h))

    -- Where a step goes: to the function that has it, or, where nothing has it, to an error.
    abbrev pub Dispatched : Bool → Type 0
    Dispatched true =
        (f : BuildFunc W) × Serves t v s f × ((ctx : Ctx) → run (init w t) ctx s v ≡ f ctx v)
    Dispatched false =
        (ctx : Ctx) → run (init w t) ctx s v ≡ (returned (some (new_invalid_task_step s)), v)

    -- A build whose init gives no error, in any world in which the parent has a step exactly if it
    -- had it when init read the parent's steps, runs that step by the one function that has it, its
    -- own or its parent's, if it is among the build's steps, and otherwise answers it with
    -- ErrInvalidTaskStep and runs nothing.
    pub run-Dispatched :
        (init w t).state.init_error ≡ none
        → parent_has t.parent v s ≡ parent_has t.parent w s
        → Dispatched (contains (init w t).state.steps s)
    run-Dispatched clean same = by (contains (init w t).state.steps s) refl
      where
        by : (b : Bool) → contains (init w t).state.steps s ≡ b → Dispatched b
        by true h = run_served clean same h
        by false h = λ ctx. run_unserved ctx same h
