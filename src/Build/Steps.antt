-- ===== src/Build/Steps.antt =====
-- Which steps a build has, and when it has an initialization error.
use svcinit.Common.{
  ◌≡◌, refl, ◌∙◌, Bool, true, false, not, ◌&&◌, ◌||◌, List, [], ◌∷◌, ◌++◌, arith, if◌then◌else◌,
  is_some, is_nil, Bool-cases, inl, inr,
}
use svcinit.Step.{Step, step_eq, step_eq_iff, contains}
use svcinit.Build.{keys, lookup, insert, merge_steps}

pub contains_none : (s : Step) → contains [] s ≡ false
unfolding contains
contains_none s = refl

pub contains-cons :
    (x : Step) (xs : List Step) (s : Step) → contains (x ∷ xs) s ≡ step_eq x s || contains xs s
unfolding contains
contains-cons x xs s = refl

pub contains-append :
    (xs ys : List Step) (s : Step) → contains (xs ++ ys) s ≡ contains xs s || contains ys s
unfolding contains
contains-append [] ys s = refl
contains-append (x ∷ xs) ys s = ground (arith, contains-append xs ys s)

-- No step stands twice.
abbrev pub distinct : List Step → Bool
distinct [] = true
distinct (x ∷ xs) = not (contains xs x) && distinct xs

pub step_eq_comm : (a b : Step) → step_eq a b ≡ step_eq b a
step_eq_comm a b = ground arith

distinct-snoc :
    (xs : List Step) (s : Step)
    → distinct xs ≡ true
    → contains xs s ≡ false
    → distinct (xs ++ s ∷ []) ≡ true
unfolding contains
distinct-snoc [] s h k = refl
distinct-snoc (x ∷ xs) s h k =
    ground (arith, distinct-snoc xs s, contains-append xs (s ∷ []) x, step_eq_comm s x)

abbrev extend : List Step → Step → List Step
extend steps x = if not (contains steps x) then steps ++ x ∷ [] else steps

contains-extend :
    (steps : List Step) (x s : Step) → contains (extend steps x) s ≡ contains steps s || step_eq x s
contains-extend steps x s = ground (
  arith,
  contains-append steps (x ∷ []) s,
  step_eq_iff x s,
  contains-cons x [] s,
  contains_none s,
)

distinct-extend :
    (steps : List Step) (x : Step) → distinct steps ≡ true → distinct (extend steps x) ≡ true
distinct-extend steps x h = ground (arith, distinct-snoc steps x h)

-- The loop keeps the steps distinct, and has both lists' steps in the end.
pub contains-merge_steps :
    (todo steps dup : List Step) (s : Step)
    → contains (merge_steps todo steps dup).0 s ≡ contains steps s || contains todo s
unfolding merge_steps
contains-merge_steps [] steps dup s = ground (arith, contains_none s)
contains-merge_steps (x ∷ xs) steps dup s =
    contains-merge_steps xs (extend steps x) _ s
    ∙ ground (arith, contains-extend steps x s, contains-cons x xs s)

pub distinct-merge_steps :
    (todo steps dup : List Step)
    → distinct steps ≡ true
    → distinct (merge_steps todo steps dup).0 ≡ true
unfolding merge_steps
distinct-merge_steps [] steps dup h = h
distinct-merge_steps (x ∷ xs) steps dup h =
    distinct-merge_steps xs (extend steps x) _ (distinct-extend steps x h)

abbrev extend_dup : List Step → Step → List Step → List Step
extend_dup steps x dup = if not (contains steps x) then dup else dup ++ x ∷ []

snoc_not_nil :
    (steps dup : List Step) (x : Step)
    → contains steps x ≡ true
    → is_nil (extend_dup steps x dup) ≡ true
    → ⊥
snoc_not_nil steps [] x e h = ground arith
snoc_not_nil steps (y ∷ dup) x e h = ground arith

not_extended :
    (steps : List Step) (x : Step) (dup : List Step)
    → contains steps x ≡ false
    → is_nil (extend_dup steps x dup) ≡ true
    → is_nil dup ≡ true
not_extended steps x dup e h = ground arith

pub merge_steps_clean :
    (todo steps dup : List Step)
    → is_nil (merge_steps todo steps dup).1 ≡ true
    → (is_nil dup ≡ true) × ((s : Step) → contains todo s ≡ true → contains steps s ≡ false)
unfolding merge_steps
merge_steps_clean [] steps dup h = (h, λ s k. cc (contains_none s, k))
merge_steps_clean (x ∷ xs) steps dup h =
    let (clean, apart) = merge_steps_clean xs (extend steps x) _ h in
    elim (Bool-cases (contains steps x)) [
      | inl e ↦ absurd (snoc_not_nil steps dup x e clean)
      | inr e ↦ (
        not_extended steps x dup e clean,
        λ s k.
            ground
              (arith, contains-cons x xs s, contains-extend steps x s, apart s, step_eq_iff x s),
      )
    ]

module _ {V : Type 0} where
  pub contains-keys : (s : Step) (m : List (Step × V)) → contains (keys m) s ≡ is_some (lookup s m)
  unfolding contains lookup
  contains-keys s [] = refl
  contains-keys s ((k, v) ∷ m) = ground (arith, contains-keys s m)

  contains-keys-insert :
      (k s : Step) (v : V) (m : List (Step × V))
      → contains (keys (insert k v m)) s ≡ step_eq k s || contains (keys m) s
  unfolding contains insert
  contains-keys-insert k s v [] = refl
  contains-keys-insert k s v ((j, u) ∷ m) =
      ground (arith, step_eq_iff j k, step_eq_iff k s, contains-keys-insert k s v m)

  pub distinct-keys-insert :
      (k : Step) (v : V) (m : List (Step × V))
      → distinct (keys m) ≡ true
      → distinct (keys (insert k v m)) ≡ true
  unfolding insert
  distinct-keys-insert k v [] h = ground (arith, contains_none k)
  distinct-keys-insert k v ((j, u) ∷ m) h = ground (
    arith,
    step_eq_iff j k,
    step_eq_comm j k,
    contains-keys-insert k j v m,
    distinct-keys-insert k v m,
  )
