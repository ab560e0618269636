-- ===== src/Run/Stages/InSetup.antt =====
-- What the check and the goroutine of a setup step can come to.
use svcinit.Common.{
  ℕ, ◌≡◌, refl, ap, ◌∙◌, Bool, true, false, not, ◌&&◌, none, some, is_some, List, [], ◌∷◌, ◌++◌,
  arith, any, any-append, ◌==◌, ==_iff, if◌then◌else◌,
}
use svcinit.Errors.{Error, fatal}
use svcinit.Step.{Step, setup, step_eq, step_eq_iff}
use svcinit.Wrapper.{
  Wrapper, Answer, check_start_step, check_run_step, internal_add_step_done,
  internal_can_start_step, internal_prev_step_is_done,
}
use svcinit.Run.{Goroutine, System, after_check}
use svcinit.Run.Invariant.{unrecorded}
use svcinit.Run.Untouched.{on_error_same}
use svcinit.Run.Barrier.{calm}

-- A goroutine of the setup of j is left that has not ended.
abbrev pub sets_up : ℕ → Goroutine → Bool
sets_up j g = g.tw == j && (step_eq g.step setup && unrecorded g.step g.pc)

abbrev pub in_setup : ℕ → List Goroutine → Bool
in_setup j = any (sets_up j)

pub calm-in_setup : (j : ℕ) (go : List Goroutine) → calm go ≡ true → in_setup j go ≡ false
calm-in_setup j [] c = refl
calm-in_setup j (g ∷ go) c = ground (arith, calm-in_setup j go)

pub moved-in_setup :
    (j : ℕ) (pre : List Goroutine) (g g' : Goroutine) (post : List Goroutine)
    → (sets_up j g ≡ true → sets_up j g' ≡ true)
    → in_setup j (pre ++ g ∷ post) ≡ true
    → in_setup j (pre ++ g' ∷ post) ≡ true
moved-in_setup j pre g g' post f h =
    ground (arith, f, any-append (sets_up j) pre (g ∷ post), any-append (sets_up j) pre (g' ∷ post))

pub gone-in_setup :
    (j : ℕ) (pre : List Goroutine) (g : Goroutine) (post : List Goroutine)
    → sets_up j g ≡ false
    → in_setup j (pre ++ g ∷ post) ≡ true
    → in_setup j (pre ++ post) ≡ true
gone-in_setup j pre g post f h =
    ground (arith, any-append (sets_up j) pre (g ∷ post), any-append (sets_up j) pre post)

-- Whose goroutine it is.
pub sets_up→ :
    (j : ℕ) (g : Goroutine)
    → g.tw == j && step_eq g.step setup ≡ true
    → (g.tw ≡ j) × (g.step ≡ setup)
sets_up→ j g h = ground (arith, ==_iff g.tw j, step_eq_iff g.step setup)

pub not_sets_up :
    (j : ℕ) (g : Goroutine) → g.tw == j && step_eq g.step setup ≡ false → sets_up j g ≡ false
not_sets_up j g h = ground arith

module _ {W : Type 0} where
  -- The check of a setup: it runs, or the task lacks it and it is recorded, or it was done before.
  pub data SetupSays (w : W) (tw : Wrapper W) : Answer × Wrapper W → Type 0 where
    runs : check_run_step w setup tw ≡ true → SetupSays w tw ((true, none), tw)
    lacks : SetupSays w tw ((false, none), internal_add_step_done setup tw)
    wrong : (e : Error) → SetupSays w tw ((false, some e), tw)

  -- The two tests of the check, and what follows.
  abbrev verdict : Bool → Answer → Wrapper W → Answer × Wrapper W
  verdict can (prev, err) tw =
      if is_some err
      then ((false, err), tw)
      else if not can && prev
      then ((can && prev, none), internal_add_step_done setup tw)
      else ((can && prev, none), tw)

  by_tests :
      (w : W) (tw : Wrapper W) (can ok : Bool) (e : Error)
      → (can ≡ true → check_run_step w setup tw ≡ true)
      → SetupSays w tw (verdict can (if ok then (true, none) else (false, some e)) tw)
  by_tests w tw true true e h = runs (h refl)
  by_tests w tw false true e h = lacks
  by_tests w tw true false e h = wrong e
  by_tests w tw false false e h = wrong e

  pub check_setup : (w : W) (tw : Wrapper W) → SetupSays w tw (check_start_step w setup tw)
  unfolding check_start_step internal_prev_step_is_done internal_can_start_step check_run_step
  check_setup w tw = by_tests w tw (internal_can_start_step tw w setup) _ _ (λ h. ground arith)

  -- A launch takes no goroutine away.
  pub after_check-in_setup :
      (j k : ℕ) (st : Step) (x : ℕ) (a : Answer) (s : System W)
      → in_setup j s.go ≡ true
      → in_setup j (after_check k st x a s).go ≡ true
  after_check-in_setup j k st x (ok, some e) s h =
      ap (in_setup j) (on_error_same st (some (fatal e)) s).1 ∙ h
  after_check-in_setup j k st x (true, none) s h = ground arith
  after_check-in_setup j k st x (false, none) s h = h
