-- ===== src/Instance/Lookup.antt =====
-- Which functions the inner build of an instance task has.
use mathlib.Core.Option
use svcinit.Common.{
  ◌≡◌, refl, ap, ◌∙◌, Bool, true, false, Option, none, some, List, [], ◌∷◌, arith, if◌then◌else◌,
}
use svcinit.Step.{Step, setup, start, stop, teardown, step_eq, step_eq_iff}
use svcinit.Build.{
  TaskBuild, BuildFunc, lookup, insert, keys, apply_build_options, apply_build_option,
}
use svcinit.Build.Steps.{distinct, distinct-keys-insert, contains-keys}
use svcinit.Instance.{Store, DataFunc, with_data}
use svcinit.Instance.Make.{
  BuildOptions, InstanceBuildOption, step_options, options_build, apply_instance_option,
  apply_instance_options, no_build_options, with_start, with_stop, with_teardown,
  with_parent_from_setup, with_name, with_parent, with_task_options, with_skipped,
}

lookup-insert :
    {V : Type 0} (s k : Step) (v : V) (m : List (Step × V))
    → lookup s (insert k v m) ≡ (if step_eq k s then some v else lookup s m)
unfolding lookup insert
lookup-insert s k v [] = refl
lookup-insert s k v ((j, u) ∷ m) =
    ground (arith, lookup-insert s k v m, step_eq_iff j k, step_eq_iff k s, step_eq_iff j s)

-- The first of two results of a lookup.
abbrev pub first : {V : Type 0} → Option V → Option V → Option V
first (some v) o = some v
first none o = o

rest : (x : Step) (xs : List Step) → distinct (x ∷ xs) ≡ true → distinct xs ≡ true
rest x xs h = ground (arith, h)

module _ {T W : Type 0} (empty : T) where
  -- A step function of the options, as one of the inner build.
  abbrev pub given : Option (DataFunc T W) → Option (BuildFunc (Store T W × W))
  given = Option.map (with_data empty)

  swap :
      (b : Bool) (l : Option (Option (DataFunc T W))) (u : Option (DataFunc T W))
      (o : Option (Option (BuildFunc (Store T W × W))))
      → (b ≡ true → l ≡ none)
      → first (Option.map given l) (if b then some (given u) else o)
        ≡ first (Option.map given (if b then some u else l)) o
  swap true l u o h = ap (λ x. first (Option.map given x) (some (given u))) (h refl)
  swap false l u o h = refl

  layer :
      (s j : Step) (u : Option (DataFunc T W)) (m : List (Step × Option (DataFunc T W)))
      (l : List (Step × Option (BuildFunc (Store T W × W))))
      → distinct (keys ((j, u) ∷ m)) ≡ true
      → first (Option.map given (lookup s m)) (lookup s (insert j (given u) l))
        ≡ first (Option.map given (lookup s ((j, u) ∷ m))) (lookup s l)
  unfolding lookup
  layer s j u m l h =
      ap (first (Option.map given (lookup s m))) (lookup-insert s j (given u) l)
      ∙ swap (step_eq j s) (lookup s m) u (lookup s l) absent
    where
      absent : step_eq j s ≡ true → lookup s m ≡ none
      absent e = ground (arith, h, contains-keys j m, (step_eq_iff j s).0 e)

  lookup-step_options :
      (s : Step) (m : List (Step × Option (DataFunc T W))) (t : TaskBuild (Store T W × W))
      → distinct (keys m) ≡ true
      → lookup s (apply_build_options t (step_options empty m)).step_func
        ≡ first (Option.map given (lookup s m)) (lookup s t.step_func)
  unfolding apply_build_options apply_build_option step_options lookup
  lookup-step_options s [] t h = refl
  lookup-step_options s ((j, none) ∷ m) t h =
      lookup-step_options s m (record t { step_func = insert j none t.step_func })
        (rest j (keys m) h)
      ∙ layer s j none m t.step_func h
  lookup-step_options s ((j, some f) ∷ m) t h =
      lookup-step_options s m
        (record t { step_func = insert j (some (with_data empty f)) t.step_func })
        (rest j (keys m) h)
      ∙ layer s j (some f) m t.step_func h

  pub lookup-options_build :
      (s : Step) (o : BuildOptions T W) (f : Option (BuildFunc (Store T W × W)))
      → distinct (keys o.step_func) ≡ true
      → lookup s (options_build empty o f).step_func
        ≡ first (Option.map given (lookup s o.step_func)) (if step_eq setup s then some f else none)
  unfolding options_build apply_build_options apply_build_option insert lookup
  lookup-options_build s o f h = lookup-step_options s o.step_func _ h

module _ {T W : Type 0} where
  -- The options have at most one function for each step, and none for the setup.
  abbrev pub IsProper : BuildOptions T W → Type 0
  IsProper o = (distinct (keys o.step_func) ≡ true) × (lookup setup o.step_func ≡ none)

  set_step-IsProper :
      (s : Step) (f : Option (DataFunc T W)) (o : BuildOptions T W)
      → step_eq s setup ≡ false
      → IsProper o
      → IsProper (record o { step_func = insert s f o.step_func })
  set_step-IsProper s f o n (d, l) =
      (distinct-keys-insert s f o.step_func d, lookup-insert setup s f o.step_func ∙ rw n l)

  apply_instance_options-IsProper :
      (options : List (InstanceBuildOption T W)) (o : BuildOptions T W)
      → IsProper o
      → IsProper (apply_instance_options o options)
  unfolding apply_instance_options apply_instance_option
  apply_instance_options-IsProper [] o h = h
  apply_instance_options-IsProper (with_start f ∷ xs) o h =
      apply_instance_options-IsProper xs _ (set_step-IsProper start f o refl h)
  apply_instance_options-IsProper (with_stop f ∷ xs) o h =
      apply_instance_options-IsProper xs _ (set_step-IsProper stop f o refl h)
  apply_instance_options-IsProper (with_teardown f ∷ xs) o h =
      apply_instance_options-IsProper xs _ (set_step-IsProper teardown f o refl h)
  apply_instance_options-IsProper (with_parent_from_setup b ∷ xs) o h =
      apply_instance_options-IsProper xs _ h
  apply_instance_options-IsProper (with_name n ∷ xs) o h = apply_instance_options-IsProper xs _ h
  apply_instance_options-IsProper (with_parent p ∷ xs) o h = apply_instance_options-IsProper xs _ h
  apply_instance_options-IsProper (with_task_options os ∷ xs) o h =
      apply_instance_options-IsProper xs _ h
  apply_instance_options-IsProper (with_skipped f ∷ xs) o h = apply_instance_options-IsProper xs _ h

  pub options-IsProper :
      (options : List (InstanceBuildOption T W))
      → IsProper (apply_instance_options no_build_options options)
  unfolding lookup
  options-IsProper options = apply_instance_options-IsProper options no_build_options (refl, refl)
