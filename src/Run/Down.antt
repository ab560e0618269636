-- ===== src/Run/Down.antt =====
-- A task whose teardown has been launched, or passed over, and what leaves it so.
pub mod Static
pub mod Launch
pub mod Others
pub mod Steps
pub mod Finish
use svcinit.Common.{
  ℕ, ◌≡◌, ap, ap₂, sym, ◌∙◌, Bool, true, false, not, ◌&&◌, ◌||◌, List, [], ◌∷◌, ◌++◌, arith, all,
  any, all-append, any-append, ◌==◌, ==_iff, if◌then◌else◌,
}
use svcinit.Step.{Step, setup, teardown, step_eq, step_eq_iff, contains}
use svcinit.Wrapper.{Wrapper, check_run_step, internal_add_step_done}
use svcinit.Run.{Goroutine, Pc, signalled, begun, record_step}
use svcinit.Run.Program.{Instr, verify}
use svcinit.Run.Once.{occ}
use svcinit.Run.Invariant.{unrecorded}

-- Only a teardown of the task can still run, and whether one is about to.
abbrev pub only_teardown : ℕ → List Goroutine → Bool
only_teardown i = all (λ g. not (g.tw == i) || step_eq g.step teardown)

abbrev pub pending : ℕ → List Goroutine → Bool
pending i = any (λ g. g.tw == i && unrecorded g.step g.pc)

-- A task that was set up is torn down.
abbrev pub is_down : List Step → Bool
is_down ss = not (contains ss setup) || contains ss teardown

abbrev pub no_verify : List Instr → Bool
no_verify [] = true
no_verify (verify k ∷ xs) = false
no_verify (x ∷ xs) = no_verify xs

pub contains-snoc : (ss : List Step) (s : Step) → contains (ss ++ s ∷ []) s ≡ true
unfolding contains
contains-snoc [] s = ground (arith, step_eq_iff s s)
contains-snoc (x ∷ ss) s = ground (arith, contains-snoc ss s)

only_teardown-middle :
    (i : ℕ) (pre : List Goroutine) (g : Goroutine) (post : List Goroutine)
    → only_teardown i (pre ++ g ∷ post)
      ≡ only_teardown i pre
        && ((not (g.tw == i) || step_eq g.step teardown) && only_teardown i post)
only_teardown-middle i pre g post =
    all-append (λ h. not (h.tw == i) || step_eq h.step teardown) pre (g ∷ post)

pending-middle :
    (i : ℕ) (pre : List Goroutine) (g : Goroutine) (post : List Goroutine)
    → pending i (pre ++ g ∷ post)
      ≡ pending i pre || ((g.tw == i && unrecorded g.step g.pc) || pending i post)
pending-middle i pre g post = any-append (λ h. h.tw == i && unrecorded h.step h.pc) pre (g ∷ post)

module _ {W : Type 0} where
  pub record Settled (i : ℕ) (todo : List Instr) (f : ℕ → Wrapper W) (go : List Goroutine)
      : Type 0 where
    pub unlaunched : (st : Step) → occ i st todo ≡ 0
    pub passed_verify : no_verify todo ≡ true
    pub alone : only_teardown i go ≡ true
    pub down : is_down (f i).execute_steps || pending i go ≡ true
    pub kept : pending i go ≡ true → (w : W) → check_run_step w teardown (f i) ≡ true

  module _ (i : ℕ) (todo : List Instr) (f : ℕ → Wrapper W) (pre : List Goroutine) (g : Goroutine)
      (post : List Goroutine) (v : Settled i todo f (pre ++ g ∷ post)) where
    abbrev moved : Pc → List Goroutine
    moved pc = pre ++ record g { pc = pc } ∷ post

    moved_alone : (pc : Pc) → only_teardown i (moved pc) ≡ true
    moved_alone pc =
        only_teardown-middle i pre (record g { pc = pc }) post
        ∙ (sym (only_teardown-middle i pre g post) ∙ v.alone)

    pending-moved :
        (pc : Pc)
        → (g.tw == i && unrecorded g.step pc) ≡ (g.tw == i && unrecorded g.step g.pc)
        → pending i (moved pc) ≡ pending i (pre ++ g ∷ post)
    pending-moved pc same =
        ground (
          arith,
          same,
          pending-middle i pre (record g { pc = pc }) post,
          pending-middle i pre g post,
        )

    -- A change of place that records nothing, with the same steps done.
    pub move-Settled :
        (h : ℕ → Wrapper W) (pc : Pc)
        → h i ≡ f i
        → (g.tw == i && unrecorded g.step pc) ≡ (g.tw == i && unrecorded g.step g.pc)
        → Settled i todo h (moved pc)
    move-Settled h pc e same = record {
      unlaunched = v.unlaunched;
      passed_verify = v.passed_verify;
      alone = moved_alone pc;
      down =
          ap (λ tw. is_down tw.execute_steps || pending i (moved pc)) e
          ∙ (ap (λ b. is_down (f i).execute_steps || b) (pending-moved pc same) ∙ v.down);
      kept = λ p w. ap (check_run_step w teardown) e ∙ v.kept (sym (pending-moved pc same) ∙ p) w;
    }

    -- A goroutine that is not about to record for the task goes.
    pub remove-Settled :
        (g.tw == i && unrecorded g.step g.pc) ≡ false → Settled i todo f (pre ++ post)
    remove-Settled gone = record {
      unlaunched = v.unlaunched;
      passed_verify = v.passed_verify;
      alone = ground (
        arith,
        v.alone,
        only_teardown-middle i pre g post,
        all-append (λ h. not (h.tw == i) || step_eq h.step teardown) pre post,
      );
      down = ap (λ b. is_down (f i).execute_steps || b) same ∙ v.down;
      kept = λ p w. v.kept (sym same ∙ p) w;
    }
      where
        same : pending i (pre ++ post) ≡ pending i (pre ++ g ∷ post)
        same = ground (
          arith,
          gone,
          pending-middle i pre g post,
          any-append (λ h. h.tw == i && unrecorded h.step h.pc) pre post,
        )

    -- A goroutine of the task is its teardown.
    pub own_teardown : g.tw == i ≡ true → g.step ≡ teardown
    own_teardown own =
        (step_eq_iff g.step teardown).0
          (ground (arith, own, v.alone, only_teardown-middle i pre g post))

    -- The task's teardown goroutine is not passed over.
    pub not_skipped :
        (w : W) → g.tw ≡ i → g.pc ≡ signalled → check_run_step w g.step (f g.tw) ≡ false → ⊥
    not_skipped w own at refused =
        let own' : g.tw == i ≡ true = (==_iff g.tw i).1 own in
        let waiting : pending i (pre ++ g ∷ post) ≡ true =
          ground (arith, own', ap (unrecorded g.step) at, pending-middle i pre g post) in
        let asked : check_run_step w g.step (f g.tw) ≡ check_run_step w teardown (f i) =
          ap₂ (λ st j. check_run_step w st (f j)) (own_teardown own') own in
        absurd (cc (asked, v.kept waiting w, refused))

    pub record-Settled : g.tw ≡ i → Settled i todo (record_step g.step g.tw f) (moved begun)
    unfolding internal_add_step_done check_run_step
    record-Settled own = record {
      unlaunched = v.unlaunched;
      passed_verify = v.passed_verify;
      alone = moved_alone begun;
      down =
          ap (λ tw. is_down tw.execute_steps || pending i (moved begun)) here
          ∙ ground (arith, contains-snoc (f i).execute_steps teardown);
      kept = λ p w. ap (check_run_step w teardown) here ∙ v.kept (ground (arith, p, less)) w;
    }
      where
        step_is : g.step ≡ teardown
        step_is = own_teardown ((==_iff g.tw i).1 own)

        here : record_step g.step g.tw f i ≡ internal_add_step_done teardown (f i)
        here =
            ap (λ b. if b then internal_add_step_done g.step (f g.tw) else f i)
              ((==_iff i g.tw).1 (sym own))
            ∙ ap₂ (λ st j. internal_add_step_done st (f j)) step_is own

        less : pending i (moved begun) ≡ true → pending i (pre ++ g ∷ post) ≡ true
        less p = ground (
          arith,
          p,
          ap (λ st. unrecorded st begun) step_is,
          pending-middle i pre (record g { pc = begun }) post,
          pending-middle i pre g post,
        )
