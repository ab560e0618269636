-- ===== src/Run/Managed.antt =====
-- run.go over manager.go: the plan and the wrappers of the run of a manager, which a run of this model
-- names by numbers, and that a manager that was made by New and filled by AddTask has what the
-- theorems about runs ask for.
pub mod Laws
use svcinit.Common.{
  ℕ, zero, suc, ◌⊎◌, ◌+◌, ◌≤◌, ◌<◌, ◌≡◌, refl, ap, ap₂, sym, ◌∙◌, subst, String, Bool, true, false,
  ◌&&◌, Option, none, some, List, [], ◌∷◌, ◌++◌, map, arith, all-append, length, length-append,
  append-nil, append_assoc, ◌==◌, is_nil, all, str_eq, str_eq_iff, if◌then◌else◌, Bool-cases, inl,
  inr, ltb,
}
use svcinit.Context.{Ctx}
use svcinit.Step.{Step}
use svcinit.Wrapper.{Wrapper}
use svcinit.Wrapper.Phase.{Phase, IsLifecycle}
use svcinit.Manager.{
  Manager, ManagerOption, StageTasks, made, new, finish_new, apply_options, apply_option,
  default_manager, stage_tasks, init_stages,
}
use svcinit.Manager.Running.{Call, perform}
use svcinit.Manager.Tidy.{is_tidy, Tidy, perform-Tidy}
use svcinit.Run.{System, Reach}
use svcinit.Run.Program.{Plan}
use svcinit.Run.Once.{count, pointers}
use svcinit.Run.Order.{Unique, Reach-IsLifecycle}
use svcinit.Run.Begin.{begin_run, proceeds}
use svcinit.Run.Begin.Laws.{begin_run_proceeds}

-- The wrappers of a stage under the numbers from `n` on.
unfoldable pub numbered : {W : Type 0} → ℕ → List (Wrapper W) → List ℕ
numbered n [] = []
numbered n (tw ∷ tws) = n ∷ numbered (suc n) tws

-- A number is below the limit, where the second summand is 0, or not, where the first is.
one_side : (i n a b : ℕ) → a ≤ 1 → b ≤ 1 → (n ≤ i → a ≡ 0) → (i < n → b ≡ 0) → a + b ≤ 1
one_side i n a b ha hb above below = elim (Bool-cases (ltb i n)) [
  | inl q ↦ omega (arith, ha, below (ground (arith, q)))
  | inr q ↦ omega (arith, hb, above (ground (arith, q)))
]

module _ {W : Type 0} where
  -- The stages from the k-th on, whose first wrapper has number `n`.
  unfoldable pub plan_from : ℕ → ℕ → List String → StageTasks W → Plan
  unfolding numbered stage_tasks
  plan_from k n [] tasks = []
  plan_from k n (stage ∷ stages) tasks =
      let tws = stage_tasks stage tasks in
      (k, numbered n tws) ∷ plan_from (suc k) (n + length tws) stages tasks

  -- The wrappers of all stages, in order: the number of one is its place.
  unfoldable pub stage_wrappers : List String → StageTasks W → List (Wrapper W)
  unfolding stage_tasks
  stage_wrappers [] tasks = []
  stage_wrappers (stage ∷ stages) tasks = stage_tasks stage tasks ++ stage_wrappers stages tasks

  -- The wrapper at a place, and `tw` outside.
  unfoldable pub at_place : Wrapper W → List (Wrapper W) → ℕ → Wrapper W
  at_place tw [] n = tw
  at_place tw (x ∷ xs) zero = x
  at_place tw (x ∷ xs) (suc n) = at_place tw xs n

  unfoldable pub plan_of : Manager W → Plan
  unfolding plan_from
  plan_of m = plan_from 0 0 m.stages m.tasks

  unfoldable pub store_of : Wrapper W → Manager W → ℕ → Wrapper W
  unfolding at_place stage_wrappers
  store_of tw m = at_place tw (stage_wrappers m.stages m.tasks)

  count-numbered :
      (i n : ℕ) (tws : List (Wrapper W))
      → (count i (numbered n tws) ≤ 1)
        × (i < n → count i (numbered n tws) ≡ 0)
        × (n + length tws ≤ i → count i (numbered n tws) ≡ 0)
  unfolding numbered
  count-numbered i n [] = (omega arith, λ h. refl, λ h. refl)
  count-numbered i n (tw ∷ tws) =
      let (a, b, c) = count-numbered i (suc n) tws in
      (ground (arith, a, b), λ h. ground (arith, b), λ h. ground (arith, c))

  pointers-plan_from :
      (i k n : ℕ) (stages : List String) (tasks : StageTasks W)
      → (pointers i (plan_from k n stages tasks) ≤ 1)
        × (i < n → pointers i (plan_from k n stages tasks) ≡ 0)
  unfolding plan_from
  pointers-plan_from i k n [] tasks = (omega arith, λ h. refl)
  pointers-plan_from i k n (stage ∷ stages) tasks =
      let tws = stage_tasks stage tasks in
      let (a, b, c) = count-numbered i n tws in
      let (x, y) = pointers-plan_from i (suc k) (n + length tws) stages tasks in
      (one_side i (n + length tws) _ _ a x c y, λ h. omega (arith, b h, y (omega (arith, h))))

  -- The plan of a manager has each wrapper at most once.
  pub plan_of-Unique : (m : Manager W) → Unique (plan_of m)
  unfolding plan_of
  plan_of-Unique m i = (pointers-plan_from i 0 0 m.stages m.tasks).0

  at_place-append :
      (tw : Wrapper W) (xs ys : List (Wrapper W)) (n : ℕ)
      → at_place tw (xs ++ ys) (length xs + n) ≡ at_place tw ys n
  unfolding at_place
  at_place-append tw [] ys n = ap (at_place tw ys) (omega arith)
  at_place-append tw (x ∷ xs) ys n =
      let shift : suc (length xs) + n ≡ suc (length xs + n) = omega arith in
      ap (at_place tw (x ∷ (xs ++ ys))) shift ∙ at_place-append tw xs ys n

  map-numbered :
      (f : ℕ → Wrapper W) (tw : Wrapper W) (n : ℕ) (xs post : List (Wrapper W))
      → ((m : ℕ) → f (n + m) ≡ at_place tw (xs ++ post) m)
      → map f (numbered n xs) ≡ xs
  unfolding numbered at_place
  map-numbered f tw n [] post h = refl
  map-numbered f tw n (x ∷ xs) post h =
      let first : n ≡ n + 0 = omega arith in
      ap₂ (λ y ys. y ∷ ys) (ap f first ∙ h 0)
        (map-numbered f tw (suc n) xs post
          (λ m. let next : suc n + m ≡ n + suc m = omega arith in ap f next ∙ h (suc m)))

  -- The wrappers that the stages of a plan point to.
  abbrev pub pointed : (ℕ → Wrapper W) → Plan → List (List (Wrapper W))
  pointed f plan = map (λ (k, is). map f is) plan

  pub pointed-plan_from :
      (f : ℕ → Wrapper W) (tw : Wrapper W) (k n : ℕ) (stages : List String) (tasks : StageTasks W)
      → ((m : ℕ) → f (n + m) ≡ at_place tw (stage_wrappers stages tasks) m)
      → pointed f (plan_from k n stages tasks) ≡ map (λ stage. stage_tasks stage tasks) stages
  unfolding plan_from stage_wrappers
  pointed-plan_from f tw k n [] tasks h = refl
  pointed-plan_from f tw k n (stage ∷ stages) tasks h =
      let tws = stage_tasks stage tasks in
      let others = stage_wrappers stages tasks in
      ap₂ (λ y ys. y ∷ ys) (map-numbered f tw n tws others h)
        (pointed-plan_from f tw (suc k) (n + length tws) stages tasks (λ m.
          let further : n + length tws + m ≡ n + (length tws + m) = omega arith in
          ap f further ∙ (h (length tws + m) ∙ at_place-append tw tws others m)))

  pub unstarted_at :
      (tw : Wrapper W) (xs : List (Wrapper W))
      → is_nil tw.execute_steps ≡ true
      → all (λ x. is_nil x.execute_steps) xs ≡ true
      → (i : ℕ) → is_nil (at_place tw xs i).execute_steps ≡ true
  unfolding at_place
  unstarted_at tw [] h a i = h
  unstarted_at tw (x ∷ xs) h a zero = ground arith
  unstarted_at tw (x ∷ xs) h a (suc i) = unstarted_at tw xs h (ground arith) i

  unstarted-stage_tasks :
      (stages : List String) (stage : String) (tasks : StageTasks W)
      → is_tidy stages tasks ≡ true
      → all (λ x. is_nil x.execute_steps) (stage_tasks stage tasks) ≡ true
  unfolding stage_tasks
  unstarted-stage_tasks stages stage [] t = refl
  unstarted-stage_tasks stages stage ((k, tws) ∷ tasks) t =
      ground (arith, unstarted-stage_tasks stages stage tasks)

  pub unstarted-stage_wrappers :
      (all_stages stages : List String) (tasks : StageTasks W)
      → is_tidy all_stages tasks ≡ true
      → all (λ x. is_nil x.execute_steps) (stage_wrappers stages tasks) ≡ true
  unfolding stage_wrappers
  unstarted-stage_wrappers all_stages [] tasks t = refl
  unstarted-stage_wrappers all_stages (stage ∷ stages) tasks t = ground (
    arith,
    all-append (λ x. is_nil x.execute_steps) (stage_tasks stage tasks)
        (stage_wrappers stages tasks),
    unstarted-stage_tasks all_stages stage tasks t,
    unstarted-stage_wrappers all_stages stages tasks t,
  )
