-- ===== src/Step.antt =====
-- defs.go: the steps of a task and of a callback.
use svcinit.Common.{ℕ, String, Bool, true, false, ◌≡◌, ◌↔◌, List, [], ◌∷◌, arith, ◌==◌, ◌||◌}

-- `Step` is an int. `other n` stands for a value that is none of the four constants.
pub data Step : Type 0 where
  setup start stop teardown : Step
  other : ℕ → Step

pub data CallbackStep : Type 0 where
  before after : CallbackStep

-- `==` on steps.
abbrev pub step_eq : Step → Step → Bool
step_eq setup setup = true
step_eq start start = true
step_eq stop stop = true
step_eq teardown teardown = true
step_eq (other m) (other n) = m == n
step_eq _ _ = false

pub step_eq_iff : (a b : Step) → (step_eq a b ≡ true) ↔ (a ≡ b)
step_eq_iff a b = ground arith

pub step_eq_refl : (a : Step) → step_eq a a ≡ true
step_eq_refl a = ground arith

-- `slices.Contains` on steps.
unfoldable pub contains : List Step → Step → Bool
contains [] s = false
contains (x ∷ xs) s = step_eq x s || contains xs s

-- The order matters.
abbrev pub all_steps : List Step
all_steps = setup ∷ start ∷ stop ∷ teardown ∷ []

-- A value that a formatted message shows.
pub data Arg : Type 0 where
  text : String → Arg
  step : Step → Arg
  steps : List Step → Arg
