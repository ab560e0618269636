-- ===== src/Run/Down/Steps.antt =====
-- Every step of a run leaves a settled task settled.
use svcinit.Common.{
  ℕ, ◌≡◌, refl, ap, sym, ◌∙◌, subst, Bool, false, not, ◌&&◌, Option, is_some, List, ◌∷◌, ◌++◌,
  arith, ◌==◌, ==_iff, if◌then◌else◌, Bool-cases, inl, inr,
}
use svcinit.Errors.{Error}
use svcinit.Step.{Step, setup, teardown, step_eq}
use svcinit.Wrapper.{Wrapper, check_run_step}
use svcinit.Run.{
  Goroutine, spawned, signalled, begun, reported, System, Next, launches, joins, joins_late, passes,
  verifies, fails, awaits, joins_running, joins_running_late, cancels, expires, signals, begins,
  skips, reports, ends, begin_step, end_step, record_step,
}
use svcinit.Run.Program.{Plan}
use svcinit.Run.Once.{occ}
use svcinit.Run.Invariant.{unrecorded}
use svcinit.Run.Down.{
  Settled, no_verify, move-Settled, remove-Settled, own_teardown, not_skipped, record-Settled,
}
use svcinit.Run.Down.Others.{
  tail-Settled, launch-Settled, on_error-Settled, record_if, launched_away, SettledIn,
}

module _ {W : Type 0} where
  begin_if :
      (i : ℕ) (g : Goroutine) (f : ℕ → Wrapper W)
      → g.tw == i ≡ false
      → begin_step g.step g.tw f i ≡ f i
  unfolding begin_step
  begin_if i g f o = record_if (not (step_eq g.step setup)) i g.tw g.step f o

  end_teardown :
      (i : ℕ) (st : Step) (j : ℕ) (err : Option Error) (f : ℕ → Wrapper W)
      → st ≡ teardown
      → end_step st j err f i ≡ f i
  unfolding end_step
  end_teardown i st j err f q =
      ap (λ b. (if b && not (is_some err) then record_step st j f else f) i)
        (ap (λ x. step_eq x setup) q)

  end_other :
      (i : ℕ) (st : Step) (j : ℕ) (err : Option Error) (f : ℕ → Wrapper W)
      → j == i ≡ false
      → end_step st j err f i ≡ f i
  unfolding end_step
  end_other i st j err f o = record_if (step_eq st setup && not (is_some err)) i j st f o

  begin_teardown :
      (st : Step) (j : ℕ) (f : ℕ → Wrapper W)
      → st ≡ teardown
      → record_step st j f ≡ begin_step st j f
  unfolding begin_step
  begin_teardown st j f q =
      sym (ap (λ b. if b then record_step st j f else f) (ap (λ x. not (step_eq x setup)) q))

  module _ (i : ℕ) (s : System W) (pre : List Goroutine) (g : Goroutine) (post : List Goroutine)
      (e : s.go ≡ pre ++ g ∷ post) (v : SettledIn i s) where
    here : Settled i s.todo s.wrappers (pre ++ g ∷ post)
    here = subst (λ go. Settled i s.todo s.wrappers go) e v

    signal-Settled :
        g.pc ≡ spawned → Settled i s.todo s.wrappers (pre ++ record g { pc = signalled } ∷ post)
    signal-Settled q =
        move-Settled i s.todo s.wrappers pre g post here s.wrappers signalled refl
          (ap (λ p. g.tw == i && unrecorded g.step p) (sym q))

    begin-Settled :
        Settled i s.todo (begin_step g.step g.tw s.wrappers) (pre ++ record g { pc = begun } ∷ post)
    begin-Settled = elim (Bool-cases (g.tw == i)) [
      | inl own ↦
          subst (λ f. Settled i s.todo f (pre ++ record g { pc = begun } ∷ post))
            (begin_teardown g.step g.tw s.wrappers
              (own_teardown i s.todo s.wrappers pre g post here own))
            (record-Settled i s.todo s.wrappers pre g post here ((==_iff g.tw i).0 own))
      | inr o ↦
          move-Settled i s.todo s.wrappers pre g post here (begin_step g.step g.tw s.wrappers) begun
            (begin_if i g s.wrappers o) (ground (arith, o))
    ]

    skip-Settled :
        (w : W)
        → g.pc ≡ signalled
        → check_run_step w g.step (s.wrappers g.tw) ≡ false
        → Settled i s.todo s.wrappers (pre ++ post)
    skip-Settled w q c = elim (Bool-cases (g.tw == i)) [
      | inl own ↦
          absurd (not_skipped i s.todo s.wrappers pre g post here w ((==_iff g.tw i).0 own) q c)
      | inr o ↦ remove-Settled i s.todo s.wrappers pre g post here (ground (arith, o))
    ]

    report-Settled :
        (err : Option Error)
        → g.pc ≡ begun
        → Settled i s.todo
            (end_step g.step g.tw err s.wrappers)
            (pre ++ record g { pc = reported } ∷ post)
    report-Settled err q = elim (Bool-cases (g.tw == i)) [
      | inl own ↦
          let st = own_teardown i s.todo s.wrappers pre g post here own in
          move-Settled i s.todo s.wrappers pre g post here (end_step g.step g.tw err s.wrappers)
            reported (end_teardown i g.step g.tw err s.wrappers st)
            (ground (arith, ap (unrecorded g.step) q, ap (λ x. unrecorded x begun) st))
      | inr o ↦
          move-Settled i s.todo s.wrappers pre g post here (end_step g.step g.tw err s.wrappers)
            reported (end_other i g.step g.tw err s.wrappers o) (ground (arith, o))
    ]

    end-Settled : g.pc ≡ reported → Settled i s.todo s.wrappers (pre ++ post)
    end-Settled q =
        remove-Settled i s.todo s.wrappers pre g post here
          (ground (arith, ap (unrecorded g.step) q))

  module _ (plan : Plan) (enforce : Bool) (i : ℕ) where
    pub Next-Settled :
        (s : System W) {t : System W} → Next plan enforce s t → SettledIn i s → SettledIn i t
    Next-Settled s (launches {k = k} {i = j} {st = st} {rest = rest} q w) v =
        launch-Settled i k j st rest w s q
          (launched_away i k j st rest (sym (ap (occ i st) q) ∙ v.unlaunched st)) v
    Next-Settled s (joins q r) v = tail-Settled i _ _ q v
    Next-Settled s (joins_late q r) v = tail-Settled i _ _ q v
    Next-Settled s (passes q r) v = tail-Settled i _ _ q v
    Next-Settled s (verifies q r) v = tail-Settled i _ _ q v
    Next-Settled s (fails q r) v = absurd (cc (sym (ap no_verify q) ∙ v.passed_verify))
    Next-Settled s (awaits q r) v = tail-Settled i _ _ q v
    Next-Settled s (joins_running q r) v = tail-Settled i _ _ q v
    Next-Settled s (joins_running_late q r) v = tail-Settled i _ _ q v
    Next-Settled s (cancels x) v = v
    Next-Settled s expires v = v
    Next-Settled s (signals pre g post e q) v = signal-Settled i s pre g post e v q
    Next-Settled s (begins pre g post w e q c) v = begin-Settled i s pre g post e v
    Next-Settled s (skips pre g post w e q c) v = skip-Settled i s pre g post e v w q c
    Next-Settled s (reports pre g post err e q) v =
        on_error-Settled i g.step err _ (report-Settled i s pre g post e v err q)
    Next-Settled s (ends pre g post e q) v = end-Settled i s pre g post e v q
