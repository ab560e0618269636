-- ===== src/Lib.antt =====
-- Verification of svcinit, a Go library that starts and stops the tasks of a service.
--
-- The program. A Manager (manager.go) has a list of stages, and tasks added to each. Run (run.go)
-- goes through the stages in order: it runs the setup steps of a stage's tasks and waits for them,
-- then runs their start steps and waits only until these have begun. When a first task returns, or
-- a stop is asked for, it runs the stop steps by stages in reverse order, waits for all start
-- steps, and runs the teardown steps in reverse order. Each step of a task runs in a goroutine of
-- its own. A wrapper (task_wrapper.go) around each task records the steps done and refuses steps
-- that are out of order.
--
-- The modules.
--   Common: shared names, Boolean tests, list functions, and Go's sequential code over a state.
--   Errors (defs.go, util.go): error values, errors.Is and errors.As, the multi-error builder.
--     Errors.Sentinel has the addresses of the sentinels.
--   Step (defs.go): Step and CallbackStep.
--   Context (context.go): contexts as chains of values and cancellable nodes, and the start step
--     manager; `done` and `cancel` are what the code relies on of the package `context`.
--   Task (task.go, task_helpers.go, callback.go): tasks, their info and options. A task is a record
--     of functions over a world `W`, which stands for all state outside of the library.
--   Wrapper (task_wrapper.go): checkStartStep is `check_start_step`, checkRunStep is
--     `check_run_step`, run is `run`. Wrapper.Phase has the state machine.
--   Build (build.go): tasks built from functions; init is `init`, Run is `run`.
--   Service (service.go): ServiceAsTask. Future (future.go): the latch and the value.
--   Instance (instancetask/build.go, instancetask/provider.go): tasks whose setup makes the data of
--     their other steps. `build` and `provider` in Instance.Make make the inner build and the
--     `Store` of the task's pointers, which its steps run over. FutureTask (futuretask/task.go) is
--     such a task over a world that holds its future.
--   Manager (manager.go, run_helpers.go, and AddInitError and init of run.go): registration.
--     Manager.Adds has AddTaskFunc, AddService, InitAddTask and InitCheckAddTask; Manager.Running
--     has calls in any order, before and during a run.
--   Run (run.go): `Run.Program` lays out the loops of start and shutdown as a list of instructions,
--     and `Next` is one step of the thread of Run or of a goroutine. runStageStep's loop body is
--     `do_launch`; its goroutine goes through the program counters `Pc`. Run.Begin is the part of
--     runWithStopErrors before the first stage, and Run.Result the errors that it returns.
--     Run.Contexts has the contexts that a goroutine gives to its step, and Run.Callbacks the
--     manager's callbacks around a stage. The proofs about all runs are in Run.Order, Run.Skips,
--     Run.Down, Run.Measure and Run.Ends; those about the order of the stages in Run.Barrier (what
--     the waits leave) and Run.Stages; Run.Reports goes through what tasks report in a run, and
--     Run.Result.Returned through what Run makes of it. Run.Managed takes the plan and the wrappers
--     of a run from the manager.
--   Health (health_http/handler.go): the state behind the probes. Health.Wrapper
--     (health_http/wrap_http.go) puts them before an application; the mux is a parameter.
--     Health.Server (health_http/server.go) is the task around a server of `net/http`, a parameter.
--   HealthHandler (health.go): the interface of a health handler, and one of two callbacks.
--   Default (default.go): the signal and timeout tasks; what their select takes is a parameter.
--   K8sinit (k8sinit/manager.go, k8sinit/defs.go): New, over the manager. K8sinit.Handlers
--     (k8sinit/health.go, k8sinit/telemetry.go): the handlers and tasks that are set once.
--     K8sinit.Calls: any sequence of calls on such a manager, what they add, and its run.
--   Examples: test data and tests.
--
-- State and effects. An operation that holds the manager's or the wrapper's mutex from start to end
-- is one function. Code of tasks, of handlers and of the callbacks of a task, a step, a run or a
-- skipped task is a parameter: a function of the world, which may return any error or panic, but
-- cannot reach the library's own state; a panic ends the code that called it. The functions of a
-- health handler, `TaskInfo` and `String` are taken to return. The transition system takes every
-- result of a task as a possible one. The calls that other goroutines make while a run begins are a
-- list that `begin_run` is given. A run names its wrappers by numbers, a choice of this model: the
-- plan of a run and the numbers in it (Run.Managed) stand for the loops over stages and tasks, and
-- `managed_run` relates them to what was added. No definition uses fuel: all recursion is on lists,
-- and a run of any length is a derivation of `Reach`.
--
-- Not modelled: logging; the text of messages (an error keeps its format and arguments); time (a
-- timeout is a step that may happen at any moment); a panic in a goroutine, which ends the process;
-- the calls that only read a field; net/http; the samples and the helpers of the tests. The
-- transition system does not carry the contexts of Run.Contexts and the callbacks of Run.Callbacks:
-- it takes every result of a step as possible, whatever its context.
pub mod Common
pub mod Errors
pub mod Step
pub mod Context
pub mod Task
pub mod Wrapper
pub mod Build
pub mod Manager
pub mod Run
pub mod Future
pub mod Service
pub mod Health
pub mod HealthHandler
pub mod Instance
pub mod FutureTask
pub mod Default
pub mod K8sinit
mod Examples
