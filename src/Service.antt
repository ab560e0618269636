-- ===== src/Service.antt =====
-- service.go: a service as a task. An optional interface of the service is `none` where it does not
-- implement it.
use svcinit.Common.{
  String, ◌≡◌, refl, Bool, true, false, not, Option, none, some, List, [], ◌∷◌, ◌++◌, Action, pure,
  returned, arith, str_eq, if◌then◌else◌, is_some,
}
use svcinit.Errors.{Error}
use svcinit.Context.{Ctx}
use svcinit.Step.{Step, contains}
use svcinit.Task.{Task, TaskInfo, no_info, task_has_step}

abbrev pub ServiceFunc : Type 0 → Type 0
ServiceFunc W = Ctx → Action W (Option Error)

pub record Service (W : Type 0) : Type 0 where
  pub start : ServiceFunc W
  pub stop : ServiceFunc W
  pub setup : Option (ServiceFunc W)
  pub teardown : Option (ServiceFunc W)
  pub task_info : Option (W → TaskInfo W)
  pub type_name : String

module _ {W : Type 0} where
  abbrev pub if_there : Option (ServiceFunc W) → Step → List Step
  if_there none s = []
  if_there (some f) s = s ∷ []

  abbrev pub run_optional : Option (ServiceFunc W) → ServiceFunc W
  run_optional none ctx = pure none
  run_optional (some f) ctx = f ctx

  -- The steps that `ServiceAsTask` computes.
  unfoldable pub service_steps : Service W → List Step
  service_steps s =
      (Step.start ∷ Step.stop ∷ [])
      ++ (if_there s.setup Step.setup ++ if_there s.teardown Step.teardown)

  unfoldable pub run : Service W → Ctx → Step → Action W (Option Error)
  run s ctx Step.setup = run_optional s.setup ctx
  run s ctx Step.start = s.start ctx
  run s ctx Step.stop = s.stop ctx
  run s ctx Step.teardown = run_optional s.teardown ctx
  run s ctx (Step.other n) = pure none

  unfoldable pub service_task_info : Service W → W → TaskInfo W
  unfolding service_steps
  service_task_info s w =
      let info : TaskInfo W = elim s.task_info [ none ↦ no_info | some i ↦ i w ] in
      record info { steps = some (service_steps s) }

  unfoldable pub service_string : Service W → W → String
  unfolding service_task_info
  service_string s w =
      if not (str_eq (service_task_info s w).name "")
      then (service_task_info s w).name
      else s.type_name

  unfoldable pub service_as_task : Service W → Task W
  unfolding run service_task_info service_string
  service_as_task s = record {
    run = run s;
    task_info = some (service_task_info s);
    stringer = some (service_string s);
    type_name = "*svcinit.serviceTask";
  }

  abbrev pub implemented : Option (ServiceFunc W) → Option (ServiceFunc W) → Step → Bool
  implemented a b Step.setup = is_some a
  implemented a b Step.start = true
  implemented a b Step.stop = true
  implemented a b Step.teardown = is_some b
  implemented a b (Step.other n) = false

  -- Whether the service implements a step.
  abbrev pub implements : Service W → Step → Bool
  implements s = implemented s.setup s.teardown

  contains_steps :
      (a b : Option (ServiceFunc W)) (t : Step)
      → contains
          ((Step.start ∷ Step.stop ∷ []) ++ (if_there a Step.setup ++ if_there b Step.teardown))
          t
        ≡ implemented a b t
  unfolding contains
  contains_steps none none t = ground arith
  contains_steps none (some g) t = ground arith
  contains_steps (some f) none t = ground arith
  contains_steps (some f) (some g) t = ground arith

  run_optional-none :
      (a : Option (ServiceFunc W)) (ctx : Ctx) (w : W)
      → is_some a ≡ false
      → run_optional a ctx w ≡ (returned none, w)
  run_optional-none none ctx w h = refl
  run_optional-none (some f) ctx w h = absurd (cc)

  run_missing :
      (s : Service W) (ctx : Ctx) (t : Step) (w : W)
      → implements s t ≡ false
      → run s ctx t w ≡ (returned none, w)
  unfolding run
  run_missing s ctx Step.setup w h = run_optional-none s.setup ctx w h
  run_missing s ctx Step.start w h = absurd (cc)
  run_missing s ctx Step.stop w h = absurd (cc)
  run_missing s ctx Step.teardown w h = run_optional-none s.teardown ctx w h
  run_missing s ctx (Step.other n) w h = refl

  -- The task of a service has exactly the steps that the service implements, also if its own info
  -- states others; and a step that it does not implement does nothing and succeeds.
  pub service_as_task_steps :
      (s : Service W) (w : W) (t : Step)
      → (task_has_step (service_as_task s) w t ≡ implements s t)
        × ((ctx : Ctx)
            → implements s t ≡ false
            → (service_as_task s).run ctx t w ≡ (returned none, w))
  unfolding service_as_task task_has_step
  service_as_task_steps s w t =
      (contains_steps s.setup s.teardown t, λ ctx h. run_missing s ctx t w h)
