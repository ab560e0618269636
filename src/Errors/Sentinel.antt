-- ===== src/Errors/Sentinel.antt =====
-- defs.go, future.go and context.go: the addresses of the sentinel errors.
use svcinit.Common.{ℕ}

-- The package's sentinels, and those of `context`, by their addresses. A task's own plain errors
-- have other addresses.
abbrev pub exit : ℕ
exit = 0

abbrev pub invalid_stage : ℕ
invalid_stage = 1

abbrev pub invalid_task_step : ℕ
invalid_task_step = 2

abbrev pub invalid_step_order : ℕ
invalid_step_order = 3

abbrev pub already_running : ℕ
already_running = 4

abbrev pub initialization : ℕ
initialization = 5

abbrev pub no_start_task : ℕ
no_start_task = 6

abbrev pub nil_task : ℕ
nil_task = 7

abbrev pub no_stage : ℕ
no_stage = 8

abbrev pub shutdown_timeout : ℕ
shutdown_timeout = 9

abbrev pub already_initialized : ℕ
already_initialized = 10

abbrev pub not_initialized : ℕ
not_initialized = 11

abbrev pub duplicate_step : ℕ
duplicate_step = 12

abbrev pub task_skipped : ℕ
task_skipped = 13

abbrev pub already_resolved : ℕ
already_resolved = 14

abbrev pub not_resolved : ℕ
not_resolved = 15

abbrev pub ssm_nil : ℕ
ssm_nil = 16

abbrev pub canceled : ℕ
canceled = 17

abbrev pub deadline_exceeded : ℕ
deadline_exceeded = 18
