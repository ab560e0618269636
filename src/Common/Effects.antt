-- ===== src/Common/Effects.antt =====
-- Sequential Go code over a state `W`: it returns a value or panics, and the state is what it left.
use mathlib.Core.List.{List, [], ◌∷◌}

pub data Outcome (A : Type 0) : Type 0 where
  returned : A → Outcome A
  panicked : Outcome A

abbrev pub Action : Type 0 → Type 0 → Type 0
Action W A = W → Outcome A × W

module _ {W A : Type 0} where
  abbrev pub pure : A → Action W A
  pure a w = (returned a, w)

  abbrev pub panic : Action W A
  panic w = (panicked, w)

module _ {W A B : Type 0} where
  abbrev pub and_then : Outcome A → (A → Action W B) → Action W B
  and_then (returned a) f = f a
  and_then panicked f = λ w. (panicked, w)

  infixl 5 ◌>>=◌ ◌>>◌
  abbrev pub ◌>>=◌ : Action W A → (A → Action W B) → Action W B
  m >>= f = λ w. let (r, w') = m w in and_then r f w'

  abbrev pub ◌>>◌ : Action W A → Action W B → Action W B
  m >> k = m >>= λ _. k

module _ {W : Type 0} where
  abbrev pub get : Action W W
  get w = (returned w, w)

  abbrev pub modify : (W → W) → Action W (Unit {0})
  modify f w = (returned tt, f w)

  -- A `for` loop over callbacks, which the first panic ends.
  abbrev pub for_each : {A : Type 0} → (A → Action W (Unit {0})) → List A → Action W (Unit {0})
  for_each f [] = pure tt
  for_each f (x ∷ xs) = f x >> for_each f xs
