-- ===== src/Examples/Instances.antt =====
-- Tests: instance tasks, over a world that counts calls.
use svcinit.Common.{ℕ, suc, ◌+◌, ◌≡◌, refl, true, Option, none, some, List, [], ◌∷◌, returned}
use svcinit.Errors.{Error, plain, is_opt}
use svcinit.Errors.Sentinel
use svcinit.Step.{setup, start}
use svcinit.Task.{Task, no_info}
use svcinit.Build.{TaskBuild}
use svcinit.Instance.{Store, SetupFunc, DataFunc, run, outside}
use svcinit.Instance.Make.{InstanceBuildOption, with_start, with_name, build, provider}
use svcinit.Instance.Data.{after_runs, after_runs_fixed, run_before_setup, setup_then_step}
use svcinit.Instance.Forward.{provider_forwards}
use svcinit.Examples.{ctx}

-- The setup makes the number of calls so far, and the start adds it.
abbrev make : SetupFunc ℕ ℕ
make _ w = (returned (w, none), suc w)

abbrev add : DataFunc ℕ ℕ
add _ d w = (returned none, d + w)

abbrev no_task : ℕ → Option (Task ℕ)
no_task d = none

abbrev options : List (InstanceBuildOption ℕ ℕ)
options = with_start (some add) ∷ with_name "adder" ∷ []

abbrev adder : TaskBuild (Store ℕ ℕ × ℕ) × Store ℕ ℕ
adder = build 0 0 no_task (some make) options

abbrev with_seven : Store ℕ ℕ
with_seven = record adder.1 { datum = some 7 }

after_runs_fixed_example :
    (after_runs 0 0 no_task make options ((ctx, start, 4) ∷ (ctx, setup, 5) ∷ []) with_seven
      ≡ with_seven)
    × (run adder.0 ctx setup (
      after_runs 0 0 no_task make options ((ctx, start, 4) ∷ (ctx, setup, 5) ∷ []) with_seven,
      9,
    )
        ≡ (returned (some (plain Sentinel.already_initialized)), (with_seven, 9)))
unfolding build svcinit.Instance.Make.new_store
after_runs_fixed_example =
    after_runs_fixed 0 0 no_task make options ((ctx, start, 4) ∷ (ctx, setup, 5) ∷ []) ctx
      with_seven 9 7 refl refl

run_before_setup_example :
    (e : Error) × (is_opt Sentinel.not_initialized (some e) ≡ true)
    × (run adder.0 ctx start (adder.1, 3) ≡ (returned (some e), (adder.1, 3)))
unfolding build svcinit.Instance.Make.new_store svcinit.Build.lookup
run_before_setup_example =
    run_before_setup 0 0 no_task make options ctx start add adder.1 3 refl refl refl

setup_then_step_example :
    let (r, (st', w'')) = run adder.0 ctx setup (adder.1, 7) in
    (st'.datum ≡ some 7)
    × (w'' ≡ 8)
    × (run adder.0 ctx start (st', 20) ≡ outside (add ctx 7) (st', 20))
unfolding build svcinit.Instance.Make.new_store svcinit.Build.lookup run
setup_then_step_example =
    setup_then_step 0 0 no_task make options ctx ctx start add adder.1 7 8 20 7 refl refl refl refl
      refl

-- A provider of a task that has a start step only.
abbrev starter : Task ℕ
starter = record {
  run = λ _ _ w. (returned none, suc (suc w));
  task_info = some (λ _. record no_info { name = "starter"; steps = some (start ∷ []) });
  stringer = none;
  type_name = "*main.starter";
}

abbrev provide : SetupFunc ℕ ℕ
provide _ w = (returned (1, none), suc w)

abbrev as_starter : ℕ → Option (Task ℕ)
as_starter d = some starter

abbrev proxy : TaskBuild (Store ℕ ℕ × ℕ) × Store ℕ ℕ
proxy = provider 0 0 as_starter (some provide) []

provider_forwards_example :
    let (r, (st', w'')) = run proxy.0 ctx setup (proxy.1, 7) in
    run proxy.0 ctx start (st', 30) ≡ outside (starter.run ctx start) (st', 30)
unfolding build svcinit.Instance.Make.new_store provider run svcinit.Errors.build_joined_errors
    svcinit.Build.has_missing_step
provider_forwards_example =
    provider_forwards 0 0 as_starter provide [] ctx ctx start proxy.1 7 8 30 1 starter refl refl
      refl refl refl refl refl
