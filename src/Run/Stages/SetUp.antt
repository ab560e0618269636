-- ===== src/Run/Stages/SetUp.antt =====
-- run.go: what becomes of the setup of a task before the stages behind its own are set up.
use svcinit.Common.{
  ℕ, ◌≤◌, ◌≡◌, ap, ap₂, sym, ◌∙◌, Bool, true, false, ◌&&◌, Option, none, some, List, ◌∷◌, ◌++◌,
  arith, ◌==◌, ==_iff, Bool-cases, inl, inr,
}
use svcinit.Errors.{Error, fatal}
use svcinit.Errors.Builder
use svcinit.Step.{Step, setup, step_eq, step_eq_iff, contains}
use svcinit.Wrapper.{Wrapper, Answer, check_start_step, check_run_step, internal_add_step_done}
use svcinit.Run.{Goroutine, reported, System, on_error, do_launch, update, after_check, end_step}
use svcinit.Run.Program.{Instr, launch}
use svcinit.Run.Once.{occ}
use svcinit.Run.Launch.{update_self}
use svcinit.Run.Untouched.{on_error_same}
use svcinit.Run.Waits.{do_launch_rest}
use svcinit.Run.Down.{contains-snoc}
use svcinit.Run.Invariant.{unrecorded}
use svcinit.Run.Stages.Checked.{guarded, checked}
use svcinit.Run.Stages.Grows.{has_errors-initialization}
use svcinit.Run.Stages.InSetup.{
  in_setup, sets_up, sets_up→, not_sets_up, moved-in_setup, gone-in_setup, SetupSays, runs, lacks,
  wrong, check_setup,
}

module _ {W : Type 0} (j i : ℕ) (has : W → Bool) where
  -- The setup of j is still to be launched; or it is under way; or it is done; or a setup has
  -- failed. While it is under way, or after a failure, i is set up only behind the next test of the
  -- setup errors. `has` is whether the task has a setup step.
  pub data Fate (s : System W) : Type 0 where
    to_come : 1 ≤ occ j setup s.todo → checked j i s.todo ≡ true → Fate s
    under_way : in_setup j s.go ≡ true → guarded i s.todo ≡ true → ((w : W) → has w ≡ true) → Fate s
    done : contains (s.wrappers j).execute_steps setup ≡ true → Fate s
    failed : Builder.has_errors s.setup_errs ≡ true → guarded i s.todo ≡ true → Fate s

  -- The launch of the setup of j.
  launched_by :
      (k : ℕ) (rest : List Instr) (s : System W) (w : W) (r : Answer × Wrapper W)
      → guarded i rest ≡ true
      → (check_run_step w setup (s.wrappers j) ≡ true → (w : W) → has w ≡ true)
      → SetupSays w (s.wrappers j) r
      → Fate
          (after_check k setup j r.0 (record s { todo = rest; wrappers = update s.wrappers j r.1 }))
  unfolding on_error internal_add_step_done
  launched_by k rest s w r g h (runs c) = under_way (ground (arith, ==_iff j j)) g (h c)
  launched_by k rest s w r g h lacks = done (
      ap (λ tw. contains tw.execute_steps setup) (update_self s.wrappers j _)
      ∙ contains-snoc (s.wrappers j).execute_steps setup)
  launched_by k rest s w r g h (wrong e) =
      failed (has_errors-initialization (fatal e) s.setup_errs) g

  launch_own :
      (k : ℕ) (rest : List Instr) (s : System W) (w : W)
      → checked j i (launch k setup j ∷ rest) ≡ true
      → (check_run_step w setup (s.wrappers j) ≡ true → (w : W) → has w ≡ true)
      → Fate (do_launch w k setup j rest s)
  unfolding do_launch
  launch_own k rest s w c h =
      launched_by k rest s w (check_start_step w setup (s.wrappers j))
        (ground (arith, c, ==_iff j j)) h (check_setup w (s.wrappers j))

  -- Another launch.
  launch_other :
      (k : ℕ) (st : Step) (x : ℕ) (rest : List Instr) (s : System W) (w : W)
      → s.todo ≡ launch k st x ∷ rest
      → x == j && step_eq st setup ≡ false
      → 1 ≤ occ j setup s.todo
      → checked j i s.todo ≡ true
      → Fate (do_launch w k st x rest s)
  launch_other k st x rest s w q o l c =
      let todo_is = (do_launch_rest w k st x rest s).0 in
      to_come (ground (arith, ap (occ j setup) q, ap (occ j setup) todo_is, o, l))
        (ap (checked j i) todo_is ∙ ground (arith, sym (ap (checked j i) q) ∙ c))

  pub launch_to_come :
      (k : ℕ) (st : Step) (x : ℕ) (rest : List Instr) (s : System W) (w : W)
      → s.todo ≡ launch k st x ∷ rest
      → (check_run_step w setup (s.wrappers j) ≡ true → (w : W) → has w ≡ true)
      → 1 ≤ occ j setup s.todo
      → checked j i s.todo ≡ true
      → Fate (do_launch w k st x rest s)
  launch_to_come k st x rest s w q h l c = elim (Bool-cases (x == j && step_eq st setup)) [
    | inl own ↦
        let x_is : x ≡ j = ground (arith, own, ==_iff x j) in
        let st_is : st ≡ setup = ground (arith, own, step_eq_iff st setup) in
        rw (st_is, x_is)
          (launch_own k rest s w
            (sym (ap (checked j i) (q ∙ ap₂ (λ y n. launch k y n ∷ rest) st_is x_is)) ∙ c) h)
    | inr o ↦ launch_other k st x rest s w q o l c
  ]

  -- The setup of j returns.
  report_own :
      (s : System W) (go : List Goroutine) (st : Step) (x : ℕ) (err : Option Error)
      → st ≡ setup
      → x ≡ j
      → guarded i s.todo ≡ true
      → Fate (on_error st err (record s { go = go; wrappers = end_step st x err s.wrappers }))
  unfolding on_error end_step internal_add_step_done
  report_own s go st x none p q g =
      rw (p, q)
        (done (
          ap (λ tw. contains tw.execute_steps setup) (update_self s.wrappers j _)
          ∙ contains-snoc (s.wrappers j).execute_steps setup))
  report_own s go st x (some e) p q g = rw p (failed (has_errors-initialization e s.setup_errs) g)

  module _ (s : System W) (pre : List Goroutine) (g : Goroutine) (post : List Goroutine)
      (e : s.go ≡ pre ++ g ∷ post) (p : in_setup j s.go ≡ true) (n : guarded i s.todo ≡ true)
      (all : (w : W) → has w ≡ true) where
    here : in_setup j (pre ++ g ∷ post) ≡ true
    here = sym (ap (in_setup j) e) ∙ p

    pub report_under_way :
        (err : Option Error)
        → Fate (
            on_error g.step err (record s {
              go = pre ++ record g { pc = reported } ∷ post;
              wrappers = end_step g.step g.tw err s.wrappers;
            }))
    report_under_way err = elim (Bool-cases (g.tw == j && step_eq g.step setup)) [
      | inl own ↦
          let (x, st) = sets_up→ j g own in
          report_own s (pre ++ record g { pc = reported } ∷ post) g.step g.tw err st x n
      | inr o ↦
          let s' = record s {
            go = pre ++ record g { pc = reported } ∷ post;
            wrappers = end_step g.step g.tw err s.wrappers;
          } in
          let (same_wrappers, same_go, same_todo) = on_error_same g.step err s' in
          under_way
            (ap (in_setup j) same_go
              ∙ moved-in_setup j pre g (record g { pc = reported }) post
                  (λ h. absurd (cc (h, not_sets_up j g o))) here)
            (ap (guarded i) same_todo ∙ n) all
    ]

    -- The setup of j is not passed over.
    pub skip_under_way :
        (w : W)
        → (g.tw ≡ j → g.step ≡ setup → check_run_step w g.step (s.wrappers g.tw) ≡ has w)
        → check_run_step w g.step (s.wrappers g.tw) ≡ false
        → Fate (record s { go = pre ++ post })
    skip_under_way w asks refused = elim (Bool-cases (g.tw == j && step_eq g.step setup)) [
      | inl own ↦
          let (x, st) = sets_up→ j g own in
          let asked = asks x st in let can = all w in absurd (cc (asked, can, refused))
      | inr o ↦ under_way (gone-in_setup j pre g post (not_sets_up j g o) here) n all
    ]

    pub move_under_way :
        (g' : Goroutine) (f : ℕ → Wrapper W)
        → (sets_up j g ≡ true → sets_up j g' ≡ true)
        → Fate (record s { go = pre ++ g' ∷ post; wrappers = f })
    move_under_way g' f h = under_way (moved-in_setup j pre g g' post h here) n all

    pub end_under_way : g.pc ≡ reported → Fate (record s { go = pre ++ post })
    end_under_way q =
        under_way (gone-in_setup j pre g post (ground (arith, ap (unrecorded g.step) q)) here) n all
