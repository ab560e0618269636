-- ===== src/Run/Invariant.antt =====
-- The invariant of a run whose waits never give up, and the facts about one goroutine or one launch
-- that keep it.
use svcinit.Common.{
  ℕ, ◌+◌, ◌≤◌, ◌≡◌, refl, Bool, true, false, ◌&&◌, List, [], ◌∷◌, ◌++◌, arith, ◌==◌, ==_iff, all,
  any,
}
use svcinit.Step.{Step, setup, start, stop, teardown, step_eq, step_eq_iff}
use svcinit.Wrapper.{Wrapper}
use svcinit.Wrapper.Phase.{
  Phase, fresh, ready, running, stopped, torn_down, permits, granted, IsLifecycle,
}
use svcinit.Run.{Goroutine, Pc, spawned, signalled, begun, reported}
use svcinit.Run.Program.{Instr}
use svcinit.Run.Era.{
  Era, early, setting, stopping, late, never, launch_era, join_era, running_era, allowed, safe,
}
use svcinit.Run.Once.{occ, live}

-- Whether a goroutine of a step and stage can be left in an era.
abbrev pub fits_step : Era → ℕ → Step → Bool
fits_step never k st = false
fits_step (setting j) k start = true
fits_step (setting j) k setup = j == k
fits_step early k start = true
fits_step (stopping j) k start = true
fits_step (stopping j) k stop = j == k
fits_step late k teardown = true
fits_step e k st = false

abbrev pub fits : Era → Goroutine → Bool
fits e g = fits_step e g.stage g.step

-- A goroutine whose step is granted and not recorded yet.
abbrev pub unrecorded : Step → Pc → Bool
unrecorded st spawned = true
unrecorded st signalled = true
unrecorded st begun = step_eq st setup
unrecorded st reported = false

-- What such a goroutine is about to record is still granted.
abbrev pub Granted : ℕ → Phase → List Goroutine → Type 0
Granted i p [] = Unit
Granted i p (g ∷ go) =
    (g.tw ≡ i → unrecorded g.step g.pc ≡ true → permits p g.step ≡ granted) × Granted i p go

abbrev pub Alive : {W : Type 0} → Wrapper W → List Goroutine → ℕ → Type 0
Alive tw go i = (p : Phase) × IsLifecycle tw.execute_steps p × Granted i p go

pub record Inv {W : Type 0} (todo : List Instr) (wrappers : ℕ → Wrapper W) (go : List Goroutine)
    : Type 0 where
  pub era : Era
  pub era_safe : safe era todo ≡ true
  pub bound : all (fits era) go ≡ true
  pub once : (i : ℕ) (st : Step) → occ i st todo + live i st go ≤ 1
  pub alive : (i : ℕ) → Alive (wrappers i) go i

pub Granted-append :
    (i : ℕ) (p : Phase) (xs ys : List Goroutine)
    → Granted i p xs
    → Granted i p ys
    → Granted i p (xs ++ ys)
Granted-append i p [] ys hx hy = hy
Granted-append i p (g ∷ xs) ys hx hy = (hx.0, Granted-append i p xs ys hx.1 hy)

pub Granted-left :
    (i : ℕ) (p : Phase) (xs ys : List Goroutine) → Granted i p (xs ++ ys) → Granted i p xs
Granted-left i p [] ys h = tt
Granted-left i p (g ∷ xs) ys h = (h.0, Granted-left i p xs ys h.1)

pub Granted-right :
    (i : ℕ) (p : Phase) (xs ys : List Goroutine) → Granted i p (xs ++ ys) → Granted i p ys
Granted-right i p [] ys h = h
Granted-right i p (g ∷ xs) ys h = Granted-right i p xs ys h.1

-- In one era and one phase only one step can be granted.
pub granted_unique :
    (e : Era) (p : Phase) (j k : ℕ) (s t : Step)
    → fits_step e j s ≡ true
    → fits_step e k t ≡ true
    → permits p s ≡ granted
    → permits p t ≡ granted
    → s ≡ t
granted_unique e fresh j k s t hs ht ps pt = ground arith
granted_unique e ready j k s t hs ht ps pt = ground arith
granted_unique e running j k s t hs ht ps pt = ground arith
granted_unique e stopped j k s t hs ht ps pt = ground arith
granted_unique e torn_down j k s t hs ht ps pt = ground arith

-- Where a step is granted and no goroutine has that step of that wrapper, no goroutine is about to
-- record anything for the wrapper.
pub none_pending :
    (e : Era) (p p' : Phase) (i k : ℕ) (st : Step) (go : List Goroutine)
    → permits p st ≡ granted
    → fits_step e k st ≡ true
    → all (fits e) go ≡ true
    → live i st go ≡ 0
    → Granted i p go
    → Granted i p' go
none_pending e p p' i k st [] ps fs b l h = tt
none_pending e p p' i k st (g ∷ go) ps fs b l h = (
  λ own un. ground (
    arith,
    granted_unique e p g.stage k g.step st,
    h.0 own un,
    step_eq_iff g.step st,
    ==_iff g.tw i,
  ),
  none_pending e p p' i k st go ps fs (ground arith) (ground arith) h.1,
)

launch_keeps :
    (e : Era) (k j : ℕ) (st s : Step)
    → allowed (launch_era k st e) ≡ true
    → fits_step e j s ≡ true
    → fits_step (launch_era k st e) j s ≡ true
launch_keeps e k j st s a h = ground arith

-- The goroutines that fit an era fit the next one.
pub fits-launch :
    (e : Era) (k : ℕ) (st : Step) (go : List Goroutine)
    → allowed (launch_era k st e) ≡ true
    → all (fits e) go ≡ true
    → all (fits (launch_era k st e)) go ≡ true
fits-launch e k st [] a b = refl
fits-launch e k st (g ∷ go) a b =
    let here = launch_keeps e k g.stage st g.step a (ground arith) in
    let rest = fits-launch e k st go a (ground arith) in cc (here, rest)

pub fits_launched :
    (e : Era) (k : ℕ) (st : Step)
    → allowed (launch_era k st e) ≡ true
    → fits_step (launch_era k st e) k st ≡ true
fits_launched e k st a = ground (arith, ==_iff k k)

join_keeps :
    (e : Era) (k j : ℕ) (st s : Step)
    → (j == k && step_eq s st) ≡ false
    → fits_step e j s ≡ true
    → fits_step (join_era k st e) j s ≡ true
join_keeps e k j st s a h = ground arith

pub fits-join :
    (e : Era) (k : ℕ) (st : Step) (go : List Goroutine)
    → any (λ g. g.stage == k && step_eq g.step st) go ≡ false
    → all (fits e) go ≡ true
    → all (fits (join_era k st e)) go ≡ true
fits-join e k st [] a b = refl
fits-join e k st (g ∷ go) a b =
    let here = join_keeps e k g.stage st g.step (ground arith) (ground arith) in
    let rest = fits-join e k st go (ground arith) (ground arith) in cc (here, rest)

running_keeps :
    (e : Era) (j : ℕ) (s : Step)
    → step_eq s start ≡ false
    → fits_step e j s ≡ true
    → fits_step (running_era e) j s ≡ true
running_keeps e j s a h = ground arith

pub fits-running :
    (e : Era) (go : List Goroutine)
    → any (λ g. step_eq g.step start) go ≡ false
    → all (fits e) go ≡ true
    → all (fits (running_era e)) go ≡ true
fits-running e [] a b = refl
fits-running e (g ∷ go) a b =
    let here = running_keeps e g.stage g.step (ground arith) (ground arith) in
    let rest = fits-running e go (ground arith) (ground arith) in cc (here, rest)
