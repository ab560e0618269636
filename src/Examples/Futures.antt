-- ===== src/Examples/Futures.antt =====
-- Tests: future tasks, over a world that counts calls.
use svcinit.Common.{ℕ, suc, ◌||◌, ◌==◌, ◌≡◌, refl, true, Option, none, some, [], returned}
use svcinit.Errors.{is_opt}
use svcinit.Errors.Sentinel
use svcinit.Step.{setup}
use svcinit.Task.{Task}
use svcinit.Build.{TaskBuild, Skipped}
use svcinit.Future.{Future, is_closed}
use svcinit.Instance.{Store, SetupFunc, run, task_info}
use svcinit.FutureTask.{new, skip, skip_error, task_value_now, wrap_value}
use svcinit.FutureTask.Laws.{IsPending, Resolved, found, future-Resolved}
use svcinit.FutureTask.Skips.{skipped_resolves}
use svcinit.Examples.{ctx, broken}

abbrev make : SetupFunc ℕ ℕ
make _ w = (returned (w, none), suc w)

abbrev no_task : ℕ → Option (Task (Future ℕ × ℕ))
no_task d = none

abbrev made :
    (TaskBuild (Store ℕ (Future ℕ × ℕ) × (Future ℕ × ℕ)) × Store ℕ (Future ℕ × ℕ)) × Future ℕ
made = new 0 0 no_task (some make) []

made-IsPending : IsPending 0 made.1
unfolding new svcinit.Future.new_future
made-IsPending = record { not_closed = refl; no_value = refl; no_error = refl }

future-Resolved_example :
    let (outcome, (st', (fut', w''))) = run made.0.0 ctx setup (made.0.1, (made.1, 4)) in
    let (o, (skipped, w1)) = skip {W = ℕ} ctx (some broken) (made.1, 4) in
    (w'' ≡ 5)
    × Resolved 0 (found 0 4 none) fut'
    × (skip {W = ℕ} ctx (some broken) (fut', w'') ≡ (returned tt, (fut', w'')))
    × (o ≡ returned tt)
    × Resolved 0 (wrap_value (0, some (skip_error (some broken)))) skipped
    × (is_opt 100 (task_value_now 0 skipped).0.1
        ≡ (Sentinel.task_skipped == 100) || is_opt 100 (some broken))
unfolding new svcinit.Instance.Make.build svcinit.Instance.Make.new_store
future-Resolved_example =
    future-Resolved 0 0 no_task make [] ctx ctx (some broken) 100 made.0.1 made.1 4 5 4 none
      made-IsPending refl refl refl

skipped_resolves_example :
    (h : Skipped (Store ℕ (Future ℕ × ℕ) × (Future ℕ × ℕ))) × ((task_info made.0.0
        (made.0.1, (made.1, 4))).skipped
      ≡ some h)
    × ((h ctx none (made.0.1, (made.1, 4))).0 ≡ returned tt)
    × ((h ctx none (made.0.1, (made.1, 4))).1.0 ≡ made.0.1)
    × (is_closed (h ctx none (made.0.1, (made.1, 4))).1.1.0.latch ≡ true)
unfolding new svcinit.Instance.Make.build svcinit.Instance.Make.new_store
skipped_resolves_example = skipped_resolves 0 0 no_task make [] ctx none made.0.1 made.1 4 refl tt
