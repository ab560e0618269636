-- ===== src/Wrapper/Phase.antt =====
-- The life of a task as a state machine, and the wrapper's checks as a refinement of it.
use svcinit.Common.{◌≡◌, Bool, true, false, Option, none, List, [], ◌∷◌, ◌++◌, arith}
use svcinit.Errors.{Error, is, is_opt}
use svcinit.Errors.Sentinel
use svcinit.Step.{Step, setup, start, stop, teardown, other}
use svcinit.Wrapper.{internal_prev_step_is_done}

pub data Phase : Type 0 where
  fresh ready running stopped torn_down : Phase

-- Whether a step may start: yes; not yet (or never, without an error); or an error.
pub data Verdict : Type 0 where
  granted premature wrong_order invalid : Verdict

abbrev pub permits : Phase → Step → Verdict
permits fresh setup = granted
permits ready setup = wrong_order
permits running setup = wrong_order
permits stopped setup = wrong_order
permits torn_down setup = wrong_order
permits fresh start = premature
permits ready start = granted
permits running start = wrong_order
permits stopped start = wrong_order
permits torn_down start = wrong_order
permits fresh stop = premature
permits ready stop = premature
permits running stop = granted
permits stopped stop = wrong_order
permits torn_down stop = wrong_order
permits fresh teardown = premature
permits ready teardown = granted
permits running teardown = granted
permits stopped teardown = granted
permits torn_down teardown = wrong_order
permits phase (other n) = invalid

-- The steps that a task may have done, by its phase.
pub data IsLifecycle : List Step → Phase → Type 0 where
  at_fresh : IsLifecycle [] fresh
  at_ready : IsLifecycle (setup ∷ []) ready
  at_running : IsLifecycle (setup ∷ start ∷ []) running
  at_stopped : IsLifecycle (setup ∷ start ∷ stop ∷ []) stopped
  torn_ready : IsLifecycle (setup ∷ teardown ∷ []) torn_down
  torn_running : IsLifecycle (setup ∷ start ∷ teardown ∷ []) torn_down
  torn_stopped : IsLifecycle (setup ∷ start ∷ stop ∷ teardown ∷ []) torn_down

-- What an answer of the code says.
abbrev pub Says : Verdict → Bool → Option Error → Type 0
Says granted ok err = (ok ≡ true) × (err ≡ none)
Says premature ok err = (ok ≡ false) × (err ≡ none)
Says wrong_order ok err = (ok ≡ false) × (is_opt Sentinel.invalid_step_order err ≡ true)
Says invalid ok err = (ok ≡ false) × (is_opt Sentinel.invalid_task_step err ≡ true)

-- On the steps that a task can have done, the code's check answers as the state machine.
pub internal_prev_step_is_done-permits :
    {done : List Step} {phase : Phase} (s : Step)
    → IsLifecycle done phase
    → let (ok, err) = internal_prev_step_is_done done s in Says (permits phase s) ok err
unfolding internal_prev_step_is_done is
internal_prev_step_is_done-permits s at_fresh = ground arith
internal_prev_step_is_done-permits s at_ready = ground arith
internal_prev_step_is_done-permits s at_running = ground arith
internal_prev_step_is_done-permits s at_stopped = ground arith
internal_prev_step_is_done-permits s torn_ready = ground arith
internal_prev_step_is_done-permits s torn_running = ground arith
internal_prev_step_is_done-permits s torn_stopped = ground arith

-- Where a step leads that is granted and done.
abbrev pub next : Step → Phase
next setup = ready
next start = running
next stop = stopped
next teardown = torn_down
next (other n) = fresh

pub snoc-IsLifecycle :
    {done : List Step} {phase : Phase} (s : Step)
    → IsLifecycle done phase
    → permits phase s ≡ granted
    → IsLifecycle (done ++ s ∷ []) (next s)
snoc-IsLifecycle setup at_fresh h = at_ready
snoc-IsLifecycle start at_ready h = at_running
snoc-IsLifecycle stop at_running h = at_stopped
snoc-IsLifecycle teardown at_ready h = torn_ready
snoc-IsLifecycle teardown at_running h = torn_running
snoc-IsLifecycle teardown at_stopped h = torn_stopped
snoc-IsLifecycle setup at_ready h = cc
snoc-IsLifecycle _ _ h = cc
