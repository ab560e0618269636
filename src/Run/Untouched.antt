-- ===== src/Run/Untouched.antt =====
-- A task that has done nothing, and what leaves it so.
use svcinit.Common.{
  ℕ, ◌≡◌, refl, ap, sym, ◌∙◌, subst, Bool, true, false, not, ◌&&◌, Option, none, some, is_some,
  List, [], ◌∷◌, ◌++◌, arith, any, any-append, ◌==◌, ==_iff, if◌then◌else◌, Bool-cases, inl, inr,
}
use svcinit.Errors.{Error, fatal}
use svcinit.Step.{Step, setup, start, stop, teardown, other, step_eq}
use svcinit.Wrapper.{Wrapper, check_start_step}
use svcinit.Wrapper.Phase.{fresh, IsLifecycle, at_fresh}
use svcinit.Wrapper.Lifecycle.{check_start_step-permits}
use svcinit.Run.{
  Goroutine, Pc, System, on_error, do_launch, begin_step, end_step, update, after_check,
  record_step,
}
use svcinit.Run.Program.{Instr, launch}
use svcinit.Run.Once.{occ}

-- No goroutine is for the wrapper.
abbrev pub is_free : ℕ → List Goroutine → Bool
is_free i go = not (any (λ g. g.tw == i) go)

is_free-middle :
    (i : ℕ) (pre : List Goroutine) (g : Goroutine) (post : List Goroutine)
    → is_free i (pre ++ g ∷ post) ≡ is_free i pre && (not (g.tw == i) && is_free i post)
is_free-middle i pre g post = ground (arith, any-append (λ h. h.tw == i) pre (g ∷ post))

is_free-append :
    (i : ℕ) (pre post : List Goroutine) → is_free i (pre ++ post) ≡ is_free i pre && is_free i post
is_free-append i pre post = ground (arith, any-append (λ h. h.tw == i) pre post)

-- A goroutine that is there is for another task; what becomes of it leaves the list free too.
pub other_goroutine :
    (i : ℕ) (pre : List Goroutine) (g : Goroutine) (post : List Goroutine) {go : List Goroutine}
    → go ≡ pre ++ g ∷ post
    → is_free i go ≡ true
    → (not (g.tw == i) ≡ true)
      × (is_free i (pre ++ post) ≡ true)
      × ((pc : Pc) → is_free i (pre ++ record g { pc = pc } ∷ post) ≡ true)
other_goroutine i pre g post q f =
    let free = sym (is_free-middle i pre g post) ∙ (ap (is_free i) (sym q) ∙ f) in
    (
      ground (arith, free),
      ground (arith, free, is_free-append i pre post),
      λ pc. ground (arith, free, is_free-middle i pre (record g { pc = pc }) post),
    )

-- What remains to be launched only shrinks.
pub launched_less :
    (i k j : ℕ) (st : Step) (rest : List Instr)
    → occ i setup rest ≡ occ i setup (launch k st j ∷ rest)
    → j == i && step_eq st setup ≡ false
launched_less i k j st rest h = ground arith

module _ {W : Type 0} where
  -- The task has done no step, and no goroutine is about to run one.
  abbrev pub Untouched : ℕ → (ℕ → Wrapper W) → List Goroutine → Type 0
  Untouched i f go = ((f i).execute_steps ≡ []) × (is_free i go ≡ true)

  pub on_error_same :
      (st : Step) (e : Option Error) (s : System W)
      → ((on_error st e s).wrappers ≡ s.wrappers)
        × ((on_error st e s).go ≡ s.go)
        × ((on_error st e s).todo ≡ s.todo)
  unfolding on_error
  on_error_same setup none s = (refl, refl, refl)
  on_error_same setup (some e) s = (refl, refl, refl)
  on_error_same start none s = (refl, refl, refl)
  on_error_same start (some e) s = (refl, refl, refl)
  on_error_same stop e s = (refl, refl, refl)
  on_error_same teardown e s = (refl, refl, refl)
  on_error_same (other n) e s = (refl, refl, refl)

  pub after_check_same :
      (k : ℕ) (st : Step) (j : ℕ) (a : Bool × Option Error) (s : System W)
      → ((after_check k st j a s).wrappers ≡ s.wrappers) × ((after_check k st j a s).todo ≡ s.todo)
  after_check_same k st j (ok, some e) s =
      let (w, g, t) = on_error_same st (some (fatal e)) s in (w, t)
  after_check_same k st j (true, none) s = (refl, refl)
  after_check_same k st j (false, none) s = (refl, refl)

  -- A goroutine that a check lets in is for the checked wrapper.
  after_check_free :
      (i k : ℕ) (st : Step) (j : ℕ) (a : Bool × Option Error) (s : System W)
      → (j == i ≡ true → a.0 ≡ false)
      → is_free i s.go ≡ true
      → is_free i (after_check k st j a s).go ≡ true
  after_check_free i k st j (ok, some e) s h f =
      subst (λ go. is_free i go ≡ true) (sym (on_error_same st (some (fatal e)) s).1) f
  after_check_free i k st j (true, none) s h f = ground arith
  after_check_free i k st j (false, none) s h f = f

  early_check :
      (w : W) (st : Step) (tw : Wrapper W)
      → step_eq st setup ≡ false
      → IsLifecycle tw.execute_steps fresh
      → ((check_start_step w st tw).0.0 ≡ false) × ((check_start_step w st tw).1 ≡ tw)
  early_check w setup tw h l = absurd (cc)
  early_check w start tw h l = let (a, b, c) = check_start_step-permits w start tw l in (a, c)
  early_check w stop tw h l = let (a, b, c) = check_start_step-permits w stop tw l in (a, c)
  early_check w teardown tw h l = let (a, b, c) = check_start_step-permits w teardown tw l in (a, c)
  early_check w (other n) tw h l =
      let (a, b, c) = check_start_step-permits w (other n) tw l in (a, c)

  -- The launch of any step but this task's setup.
  pub launch-Untouched :
      (i k j : ℕ) (st : Step) (rest : List Instr) (w : W) (s : System W)
      → j == i && step_eq st setup ≡ false
      → Untouched i s.wrappers s.go
      → Untouched i (do_launch w k st j rest s).wrappers (do_launch w k st j rest s).go
  unfolding do_launch
  launch-Untouched i k j st rest w s h (e, f) =
      let (answer, tw) = check_start_step w st (s.wrappers j) in
      let s' = record s { todo = rest; wrappers = update s.wrappers j tw } in
      (
        ap (λ g. (g i).execute_steps) (after_check_same k st j answer s').0 ∙ kept,
        after_check_free i k st j answer s' refused f,
      )
    where
      tw' : Wrapper W
      tw' = (check_start_step w st (s.wrappers j)).1

      undone : j ≡ i → (s.wrappers j).execute_steps ≡ []
      undone p = ap (λ n. (s.wrappers n).execute_steps) p ∙ e

      later : (a b : Bool) → a && b ≡ false → a ≡ true → b ≡ false
      later a b h k = ground arith

      early : j ≡ i → ((check_start_step w st (s.wrappers j)).0.0 ≡ false) × (tw' ≡ s.wrappers j)
      early p =
          early_check w st (s.wrappers j) (later (j == i) (step_eq st setup) h ((==_iff j i).1 p))
            (subst (λ l. IsLifecycle l fresh) (sym (undone p)) at_fresh)

      refused : j == i ≡ true → (check_start_step w st (s.wrappers j)).0.0 ≡ false
      refused q = (early ((==_iff j i).0 q)).0

      self : i ≡ j → tw'.execute_steps ≡ []
      self p = ap (λ t. t.execute_steps) (early (sym p)).1 ∙ undone (sym p)

      kept : (update s.wrappers j tw' i).execute_steps ≡ []
      kept = elim (Bool-cases (i == j)) [
        | inl q ↦
            ap (λ b. (if b then tw' else s.wrappers i).execute_steps) q ∙ self ((==_iff i j).0 q)
        | inr q ↦ ap (λ b. (if b then tw' else s.wrappers i).execute_steps) q ∙ e
      ]

  -- A goroutine of another task changes its own wrapper only.
  record-other :
      (i j : ℕ) (f : ℕ → Wrapper W) (tw : Wrapper W)
      → not (j == i) ≡ true
      → (f i).execute_steps ≡ []
      → (update f j tw i).execute_steps ≡ []
  record-other i j f tw h e = elim (Bool-cases (i == j)) [
    | inl q ↦ absurd (ground (arith, ==_iff i j, ==_iff j i))
    | inr q ↦ ap (λ b. (if b then tw else f i).execute_steps) q ∙ e
  ]

  recorded-other :
      (b : Bool) (i j : ℕ) (st : Step) (f : ℕ → Wrapper W)
      → not (j == i) ≡ true
      → (f i).execute_steps ≡ []
      → ((if b then record_step st j f else f) i).execute_steps ≡ []
  recorded-other true i j st f h e = record-other i j f _ h e
  recorded-other false i j st f h e = e

  pub begin_step-other :
      (i j : ℕ) (st : Step) (f : ℕ → Wrapper W)
      → not (j == i) ≡ true
      → (f i).execute_steps ≡ []
      → (begin_step st j f i).execute_steps ≡ []
  unfolding begin_step
  begin_step-other i j st f h e = recorded-other (not (step_eq st setup)) i j st f h e

  pub end_step-other :
      (i j : ℕ) (st : Step) (err : Option Error) (f : ℕ → Wrapper W)
      → not (j == i) ≡ true
      → (f i).execute_steps ≡ []
      → (end_step st j err f i).execute_steps ≡ []
  unfolding end_step
  end_step-other i j st err f h e =
      recorded-other (step_eq st setup && not (is_some err)) i j st f h e
