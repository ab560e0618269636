-- ===== src/Run/Launch.antt =====
-- A launch keeps the invariant.
use svcinit.Common.{
  ℕ, ◌+◌, ◌≤◌, ◌≡◌, ◌≢◌, refl, ap, sym, subst, Bool, true, false, Option, none, some, List, ◌∷◌,
  arith, ◌==◌, ==_iff, if◌then◌else◌, all, inl, inr, Bool-cases,
}
use svcinit.Errors.{Error, fatal}
use svcinit.Step.{Step, setup, start, stop, teardown, other, step_eq_refl}
use svcinit.Wrapper.{Wrapper, check_start_step, internal_can_start_step, internal_add_step_done}
use svcinit.Wrapper.Phase.{
  Phase, Verdict, granted, premature, wrong_order, invalid, permits, next, IsLifecycle,
  snoc-IsLifecycle,
}
use svcinit.Wrapper.Lifecycle.{CheckSays, check_start_step-permits}
use svcinit.Run.{Goroutine, spawned, System, update, on_error, after_check, do_launch}
use svcinit.Run.Program.{Instr, launch}
use svcinit.Run.Era.{Era, launch_era, allowed, safe}
use svcinit.Run.Once.{occ, live}
use svcinit.Run.Invariant.{fits, Granted, Alive, Inv, none_pending, fits-launch, fits_launched}

module _ {W : Type 0} where
  pub update_other :
      (f : ℕ → Wrapper W) (i : ℕ) (tw : Wrapper W) (j : ℕ) → j ≢ i → update f i tw j ≡ f j
  update_other f i tw j ne = elim (Bool-cases (j == i)) [
    | inl e ↦ absurd (ne ((==_iff j i).0 e))
    | inr e ↦ ap (λ b. if b then tw else f j) e
  ]

  pub update_self : (f : ℕ → Wrapper W) (i : ℕ) (tw : Wrapper W) → update f i tw i ≡ tw
  update_self f i tw = ap (λ b. if b then tw else f i) ((==_iff i i).1 refl)

  -- To show that all wrappers are alive after one of them has changed.
  pub Alive-update :
      (f : ℕ → Wrapper W) (i : ℕ) (tw : Wrapper W) (go : List Goroutine)
      → Alive tw go i
      → ((j : ℕ) → j ≢ i → Alive (f j) go j)
      → (j : ℕ) → Alive (update f i tw j) go j
  Alive-update f i tw go here there j = elim (Bool-cases (j == i)) [
    | inl e ↦
        let p : j ≡ i = (==_iff j i).0 e in
        subst (λ n. Alive (update f i tw n) go n) (sym p)
          (subst (λ x. Alive x go i) (sym (update_self f i tw)) here)
    | inr e ↦
        let ne : j ≢ i = λ p. cc (e, (==_iff j i).1 p) in
        subst (λ x. Alive x go j) (sym (update_other f i tw j ne)) (there j ne)
  ]

  -- `onError` does not touch what the invariant is about.
  pub on_error-Inv :
      (st : Step) (err : Option Error) (s : System W)
      → Inv s.todo s.wrappers s.go
      → Inv (on_error st err s).todo (on_error st err s).wrappers (on_error st err s).go
  unfolding on_error
  on_error-Inv setup none s v = v
  on_error-Inv setup (some e) s v = v
  on_error-Inv start none s v = v
  on_error-Inv start (some e) s v = v
  on_error-Inv stop err s v = v
  on_error-Inv teardown err s v = v
  on_error-Inv (other n) err s v = v

  module _ (k : ℕ) (st : Step) (i : ℕ) (rest : List Instr) (f : ℕ → Wrapper W) (go : List Goroutine)
      (v : Inv (launch k st i ∷ rest) f go) where
    abbrev era' : Era
    era' = launch_era k st v.era

    era_ok : allowed era' ≡ true
    era_ok = ground (arith, v.era_safe)

    rest-safe : safe era' rest ≡ true
    rest-safe = ground (arith, v.era_safe)

    rest_bound : all (fits era') go ≡ true
    rest_bound = fits-launch v.era k st go era_ok v.bound

    abbrev fresh_go : Goroutine
    fresh_go = record { stage = k; step = st; tw = i; pc = spawned }

    rest_once : (j : ℕ) (t : Step) → occ j t rest + live j t go ≤ 1
    rest_once j t = ground (arith, v.once j t)

    fresh_once : (j : ℕ) (t : Step) → occ j t rest + live j t (fresh_go ∷ go) ≤ 1
    fresh_once j t = ground (arith, v.once j t)

    none_live : live i st go ≡ 0
    none_live = ground (arith, v.once i st, ==_iff i i, step_eq_refl st)

    -- The check said no.
    refused : (tw : Wrapper W) → tw ≡ f i → Inv rest (update f i tw) go
    refused tw e = record {
      era = era';
      era_safe = rest-safe;
      bound = rest_bound;
      once = rest_once;
      alive =
          Alive-update f i tw go (subst (λ x. Alive x go i) (sym e) (v.alive i))
            (λ j ne. v.alive j);
    }

    -- The step is passed over, since the task does not have it.
    passed :
        (tw : Wrapper W) (p : Phase)
        → IsLifecycle (f i).execute_steps p
        → Granted i p go
        → permits p st ≡ granted
        → tw ≡ internal_add_step_done st (f i)
        → Inv rest (update f i tw) go
    unfolding internal_add_step_done
    passed tw p l g h e = record {
      era = era';
      era_safe = rest-safe;
      bound = rest_bound;
      once = rest_once;
      alive =
          Alive-update f i tw go
            (
              next st,
              rw e (snoc-IsLifecycle st l h),
              none_pending era' p (next st) i k st go h (fits_launched v.era k st era_ok) rest_bound
                  none_live g,
            )
            (λ j ne. v.alive j);
    }

    -- A goroutine is started.
    launched :
        (tw : Wrapper W) (p : Phase)
        → IsLifecycle (f i).execute_steps p
        → Granted i p go
        → permits p st ≡ granted
        → tw ≡ f i
        → Inv rest (update f i tw) (fresh_go ∷ go)
    launched tw p l g h e = record {
      era = era';
      era_safe = rest-safe;
      bound = ground (arith, fits_launched v.era k st era_ok, rest_bound);
      once = fresh_once;
      alive =
          Alive-update f i tw (fresh_go ∷ go) (p, rw e l, ((λ _ _. h), g))
            (λ j ne. let (q, m, r) = v.alive j in (q, m, ((λ own _. absurd (ne (sym own))), r)));
    }

  module _ (k : ℕ) (st : Step) (i : ℕ) (rest : List Instr) (s : System W)
      (v : Inv (launch k st i ∷ rest) s.wrappers s.go) where
    abbrev placed : Wrapper W → System W
    placed tw = record s { todo = rest; wrappers = update s.wrappers i tw }

    abbrev Kept : System W → Type 0
    Kept t = Inv t.todo t.wrappers t.go

    by_answer :
        (p : Phase)
        → IsLifecycle (s.wrappers i).execute_steps p
        → Granted i p s.go
        → (can : Bool) (d : Verdict) (ok : Bool) (err : Option Error) (tw : Wrapper W)
        → permits p st ≡ d
        → CheckSays can d st (s.wrappers i) tw (ok, err)
        → Kept (after_check k st i (ok, err) (placed tw))
    by_answer p l g true granted true none tw h c =
        launched k st i rest s.wrappers s.go v tw p l g h c.2
    by_answer p l g false granted false none tw h c =
        passed k st i rest s.wrappers s.go v tw p l g h c.2
    by_answer p l g can premature false none tw h c = refused k st i rest s.wrappers s.go v tw c.2
    by_answer p l g can wrong_order false (some e) tw h c =
        on_error-Inv st (some (fatal e)) (placed tw) (refused k st i rest s.wrappers s.go v tw c.2)
    by_answer p l g can invalid false (some e) tw h c =
        on_error-Inv st (some (fatal e)) (placed tw) (refused k st i rest s.wrappers s.go v tw c.2)
    by_answer p l g can d ok err tw h c = absurd (ground arith)

    pub do_launch-Inv : (w : W) → Kept (do_launch w k st i rest s)
    unfolding do_launch
    do_launch-Inv w =
        let (p, l, g) = v.alive i in
        let (answer, tw) = check_start_step w st (s.wrappers i) in
        by_answer p l g (internal_can_start_step (s.wrappers i) w st) (permits p st) answer.0
          answer.1 tw refl (check_start_step-permits w st (s.wrappers i) l)
