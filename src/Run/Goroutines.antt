-- ===== src/Run/Goroutines.antt =====
-- What a goroutine does keeps the invariant.
use svcinit.Common.{
  ℕ, ◌+◌, ◌≤◌, ◌≡◌, refl, ap, sym, ◌∙◌, Bool, true, false, not, ◌&&◌, Option, List, ◌∷◌, ◌++◌,
  arith, ==_iff, all, all-append, inl, inr, Bool-cases, is_some,
}
use svcinit.Errors.{Error}
use svcinit.Step.{Step, setup, step_eq, step_eq_refl}
use svcinit.Wrapper.{Wrapper, internal_add_step_done}
use svcinit.Wrapper.Phase.{Phase, granted, permits, next, snoc-IsLifecycle}
use svcinit.Run.{Goroutine, Pc, signalled, begun, reported, begin_step, end_step, record_step}
use svcinit.Run.Program.{Instr}
use svcinit.Run.Once.{occ, live, live-append}
use svcinit.Run.Invariant.{
  fits, unrecorded, Granted, Granted-append, Granted-left, Granted-right, Inv, none_pending,
}
use svcinit.Run.Launch.{Alive-update}

and_left : (a b : Bool) → a && b ≡ true → a ≡ true
and_left a b h = ground arith

module _ {W : Type 0} (todo : List Instr) (f : ℕ → Wrapper W) (pre : List Goroutine) (g : Goroutine)
    (post : List Goroutine) (v : Inv todo f (pre ++ g ∷ post)) where
  abbrev moved : Pc → List Goroutine
  moved pc = pre ++ record g { pc = pc } ∷ post

  moved_bound : (pc : Pc) → all (fits v.era) (moved pc) ≡ true
  moved_bound pc =
      all-append (fits v.era) pre (record g { pc = pc } ∷ post)
      ∙ sym (all-append (fits v.era) pre (g ∷ post))
      ∙ v.bound

  moved_once : (pc : Pc) (j : ℕ) (t : Step) → occ j t todo + live j t (moved pc) ≤ 1
  moved_once pc j t = ground (
    arith,
    v.once j t,
    live-append j t pre (g ∷ post),
    live-append j t pre (record g { pc = pc } ∷ post),
  )

  -- A change of place after which no more is about to be recorded.
  moved-Granted :
      (pc : Pc) (j : ℕ) (p : Phase)
      → (unrecorded g.step pc ≡ true → unrecorded g.step g.pc ≡ true)
      → Granted j p (pre ++ g ∷ post)
      → Granted j p (moved pc)
  moved-Granted pc j p less h =
      let at = Granted-right j p pre (g ∷ post) h in
      Granted-append j p pre (record g { pc = pc } ∷ post) (Granted-left j p pre (g ∷ post) h)
        ((λ own un. at.0 own (less un)), at.1)

  pub move-Inv :
      (pc : Pc)
      → (unrecorded g.step pc ≡ true → unrecorded g.step g.pc ≡ true)
      → Inv todo f (moved pc)
  move-Inv pc less = record {
    era = v.era;
    era_safe = v.era_safe;
    bound = moved_bound pc;
    once = moved_once pc;
    alive = λ j. let (p, l, h) = v.alive j in (p, l, moved-Granted pc j p less h);
  }

  -- The goroutine ends.
  pub remove-Inv : Inv todo f (pre ++ post)
  remove-Inv = record {
    era = v.era;
    era_safe = v.era_safe;
    bound =
        ground (
          arith,
          v.bound,
          all-append (fits v.era) pre (g ∷ post),
          all-append (fits v.era) pre post,
        );
    once =
        λ j t. ground (arith, v.once j t, live-append j t pre (g ∷ post), live-append j t pre post);
    alive = λ j.
        let (p, l, h) = v.alive j in
        (
          p,
          l,
          Granted-append j p pre post (Granted-left j p pre (g ∷ post) h)
              (Granted-right j p pre (g ∷ post) h).1,
        );
  }

  bounds : (all (fits v.era) pre ≡ true) × (fits v.era g ≡ true) × (all (fits v.era) post ≡ true)
  bounds = ground (arith, v.bound, all-append (fits v.era) pre (g ∷ post))

  lives : (live g.tw g.step pre ≡ 0) × (live g.tw g.step post ≡ 0)
  lives = ground (
    arith,
    v.once g.tw g.step,
    live-append g.tw g.step pre (g ∷ post),
    ==_iff g.tw g.tw,
    step_eq_refl g.step,
  )

  -- When the goroutine has recorded its step, no other is about to record one for its wrapper.
  recorded_granted :
      (pc : Pc) (p p' : Phase)
      → permits p g.step ≡ granted
      → unrecorded g.step pc ≡ false
      → Granted g.tw p (pre ++ g ∷ post)
      → Granted g.tw p' (moved pc)
  recorded_granted pc p p' ok done h =
      let quiet =
        λ (go : List Goroutine) (b : all (fits v.era) go ≡ true) (z : live g.tw g.step go ≡ 0)
            (r : Granted g.tw p go).
          none_pending v.era p p' g.tw g.stage g.step go ok bounds.1 b z r in
      Granted-append g.tw p' pre (record g { pc = pc } ∷ post)
        (quiet pre bounds.0 lives.0 (Granted-left g.tw p pre (g ∷ post) h))
        (
          (λ own un. absurd (cc (un, done))),
          quiet post bounds.2 lives.1 (Granted-right g.tw p pre (g ∷ post) h).1,
        )

  -- The goroutine records its step.
  pub record-Inv :
      (pc : Pc)
      → unrecorded g.step g.pc ≡ true
      → unrecorded g.step pc ≡ false
      → Inv todo (record_step g.step g.tw f) (moved pc)
  unfolding internal_add_step_done
  record-Inv pc before after =
      let (p, l, h) = v.alive g.tw in
      let ok = (Granted-right g.tw p pre (g ∷ post) h).0 refl before in
      record {
        era = v.era;
        era_safe = v.era_safe;
        bound = moved_bound pc;
        once = moved_once pc;
        alive =
            Alive-update f g.tw (internal_add_step_done g.step (f g.tw)) (moved pc)
              (
                next g.step,
                snoc-IsLifecycle g.step l ok,
                recorded_granted pc p (next g.step) ok after h,
              )
              (λ j ne.
                let (q, m, r) = v.alive j in
                (q, m, moved-Granted pc j q (λ un. absurd (cc (un, after))) r));
      }

  -- The goroutine enters `tw.run`.
  pub begin-Inv : g.pc ≡ signalled → Inv todo (begin_step g.step g.tw f) (moved begun)
  unfolding begin_step
  begin-Inv at = elim (Bool-cases (step_eq g.step setup)) [
    | inl e ↦ rw e (move-Inv begun (λ un. ap (unrecorded g.step) at))
    | inr e ↦ rw e (record-Inv begun (ap (unrecorded g.step) at) e)
  ]

  -- The task's code has returned.
  pub end-Inv :
      (err : Option Error) → g.pc ≡ begun → Inv todo (end_step g.step g.tw err f) (moved reported)
  unfolding end_step
  end-Inv err at = elim (Bool-cases (step_eq g.step setup && not (is_some err))) [
    | inl e ↦ rw e (record-Inv reported (ap (unrecorded g.step) at ∙ and_left _ _ e) refl)
    | inr e ↦ rw e (move-Inv reported (λ un. absurd (cc)))
  ]
