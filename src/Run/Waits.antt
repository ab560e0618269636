-- ===== src/Run/Waits.antt =====
-- Which waits may give up, and when none of them does.
use svcinit.Common.{
  ℕ, ◌≡◌, refl, sym, ap, ◌∙◌, Bool, true, false, ◌&&◌, Option, none, some, List, [], ◌∷◌, arith,
  any,
}
use svcinit.Errors.{Error, fatal}
use svcinit.Step.{Step, setup, start, stop, teardown, other}
use svcinit.Wrapper.{Wrapper}
use svcinit.Manager.{Startup}
use svcinit.Run.{
  System, Next, launches, joins, joins_late, passes, verifies, fails, awaits, joins_running,
  joins_running_late, cancels, expires, signals, begins, skips, reports, ends, Reach, begin,
  and_next, on_error, do_launch, after_check,
}
use svcinit.Run.Program.{
  Plan, Instr, join, join_running, launch_all, run_stage, start_program, reversed_stages,
  shutdown_program, run_program,
}
use svcinit.Run.Untouched.{on_error_same}

abbrev pub may_give_up : Instr → Bool
may_give_up (join k st b) = b
may_give_up (join_running b) = b
may_give_up instr = false

abbrev pub impatient : List Instr → Bool
impatient = any may_give_up

impatient-launch_all :
    (k : ℕ) (st : Step) (is : List ℕ) (rest : List Instr)
    → impatient (launch_all k st is rest) ≡ impatient rest
unfolding launch_all
impatient-launch_all k st [] rest = refl
impatient-launch_all k st (i ∷ is) rest = impatient-launch_all k st is rest

impatient-run_stage :
    (k : ℕ) (st : Step) (is : List ℕ) (rest : List Instr)
    → impatient (run_stage k st is false rest) ≡ impatient rest
unfolding run_stage
impatient-run_stage k setup is rest = impatient-launch_all k setup is _
impatient-run_stage k start is rest = impatient-launch_all k start is _
impatient-run_stage k stop is rest = impatient-launch_all k stop is _
impatient-run_stage k teardown is rest = impatient-launch_all k teardown is _
impatient-run_stage k (other n) is rest = impatient-launch_all k (other n) is _

impatient-reversed_stages :
    (st : Step) (plan : Plan) (rest : List Instr)
    → impatient (reversed_stages st false plan rest) ≡ impatient rest
unfolding reversed_stages
impatient-reversed_stages st [] rest = refl
impatient-reversed_stages st ((k, is) ∷ plan) rest =
    impatient-reversed_stages st plan _ ∙ impatient-run_stage k st is rest

pub impatient-shutdown_program : (plan : Plan) → impatient (shutdown_program plan false) ≡ false
unfolding shutdown_program
impatient-shutdown_program plan =
    impatient-reversed_stages stop plan _ ∙ impatient-reversed_stages teardown plan []

impatient-start_program :
    (plan : Plan) (rest : List Instr) → impatient (start_program plan rest) ≡ impatient rest
unfolding start_program
impatient-start_program [] rest = refl
impatient-start_program ((k, is) ∷ plan) rest =
    impatient-run_stage k setup is _
    ∙ (impatient-run_stage k start is _ ∙ impatient-start_program plan rest)

pub impatient-run_program : (plan : Plan) → impatient (run_program plan false) ≡ false
unfolding run_program
impatient-run_program plan = impatient-start_program plan _ ∙ impatient-shutdown_program plan

tail_patient :
    (todo : List Instr) (x : Instr) (rest : List Instr)
    → todo ≡ x ∷ rest
    → impatient todo ≡ false
    → impatient rest ≡ false
tail_patient todo x rest q h = ground (arith, sym (ap impatient q) ∙ h)

-- A program that has a wait that may give up does not come to it.
pub late_absurd :
    (todo : List Instr) (x : Instr) (rest : List Instr) (late : Bool)
    → todo ≡ x ∷ rest
    → may_give_up x ≡ true
    → late ≡ true
    → impatient todo && late ≡ false
    → ⊥
late_absurd todo x rest late q m l h = absurd (ground (arith, ap impatient q))

module _ {W : Type 0} where
  on_error_expired :
      (st : Step) (e : Option Error) (s : System W) → (on_error st e s).expired ≡ s.expired
  unfolding on_error
  on_error_expired st e s = ground arith

  after_check_rest :
      (k : ℕ) (st : Step) (j : ℕ) (a : Bool × Option Error) (s : System W)
      → ((after_check k st j a s).todo ≡ s.todo) × ((after_check k st j a s).expired ≡ s.expired)
  after_check_rest k st j (ok, some e) s =
      ((on_error_same st (some (fatal e)) s).2, on_error_expired st (some (fatal e)) s)
  after_check_rest k st j (true, none) s = (refl, refl)
  after_check_rest k st j (false, none) s = (refl, refl)

  pub do_launch_rest :
      (w : W) (k : ℕ) (st : Step) (j : ℕ) (rest : List Instr) (s : System W)
      → ((do_launch w k st j rest s).todo ≡ rest)
        × ((do_launch w k st j rest s).expired ≡ s.expired)
  unfolding do_launch
  do_launch_rest w k st j rest s = after_check_rest k st j _ _

  -- Whether a wait of the program can give up now.
  abbrev pub gives_up : System W → Bool
  gives_up s = impatient s.todo && s.expired

  -- A timeout that has not passed had not passed before.
  Next-expired :
      {plan : Plan} {enforce : Bool} (s : System W) {t : System W}
      → Next plan enforce s t
      → t.expired ≡ false
      → s.expired ≡ false
  Next-expired s (launches {k = k} {i = j} {st = st} {rest = rest} q w) h =
      sym (do_launch_rest w k st j rest s).1 ∙ h
  Next-expired s expires h = absurd (cc)
  Next-expired s (reports pre g post err q r) h = sym (on_error_expired g.step err _) ∙ h
  Next-expired s (joins q r) h = h
  Next-expired s (joins_late q r) h = h
  Next-expired s (passes q r) h = h
  Next-expired s (verifies q r) h = h
  Next-expired s (fails q r) h = h
  Next-expired s (awaits q r) h = h
  Next-expired s (joins_running q r) h = h
  Next-expired s (joins_running_late q r) h = h
  Next-expired s (cancels e) h = h
  Next-expired s (signals pre g post q r) h = h
  Next-expired s (begins pre g post w q r c) h = h
  Next-expired s (skips pre g post w q r c) h = h
  Next-expired s (ends pre g post q r) h = h

  Next-patient :
      {plan : Plan} (s : System W) {t : System W}
      → Next plan false s t
      → impatient s.todo ≡ false
      → impatient t.todo ≡ false
  Next-patient s (launches {k = k} {i = j} {st = st} {rest = rest} q w) h =
      ap impatient (do_launch_rest w k st j rest s).0 ∙ tail_patient s.todo _ rest q h
  Next-patient {plan} s (fails q r) h = impatient-shutdown_program plan
  Next-patient s (reports pre g post err q r) h = ap impatient (on_error_same g.step err _).2 ∙ h
  Next-patient s (joins q r) h = tail_patient s.todo _ _ q h
  Next-patient s (joins_late q r) h = tail_patient s.todo _ _ q h
  Next-patient s (passes q r) h = tail_patient s.todo _ _ q h
  Next-patient s (verifies q r) h = tail_patient s.todo _ _ q h
  Next-patient s (awaits q r) h = tail_patient s.todo _ _ q h
  Next-patient s (joins_running q r) h = tail_patient s.todo _ _ q h
  Next-patient s (joins_running_late q r) h = tail_patient s.todo _ _ q h
  Next-patient s (cancels e) h = h
  Next-patient s expires h = h
  Next-patient s (signals pre g post q r) h = h
  Next-patient s (begins pre g post w q r c) h = h
  Next-patient s (skips pre g post w q r c) h = h
  Next-patient s (ends pre g post q r) h = h

  module _ (plan : Plan) (wrappers : ℕ → Wrapper W) (startup : Startup) where
    Reach-patient : {s : System W} → Reach plan false wrappers startup s → impatient s.todo ≡ false
    Reach-patient begin = impatient-run_program plan
    Reach-patient (and_next {s = s} r n) = Next-patient s n (Reach-patient r)

    -- No wait gives up if the waits do not stop at a timeout, or while it has not passed.
    pub Reach-gives_up :
        (enforce : Bool) {s : System W}
        → Reach plan enforce wrappers startup s
        → enforce && s.expired ≡ false
        → gives_up s ≡ false
    Reach-gives_up true {s = s} r h = ground (arith, h)
    Reach-gives_up false {s = s} r h = ground (arith, Reach-patient r)

    pub enforce-before :
        (enforce : Bool) {s t : System W}
        → Next plan enforce s t
        → enforce && t.expired ≡ false
        → enforce && s.expired ≡ false
    enforce-before true {s = s} n h = Next-expired s n h
    enforce-before false n h = refl
