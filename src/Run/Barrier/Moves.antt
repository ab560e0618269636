-- ===== src/Run/Barrier/Moves.antt =====
-- What the steps of a run do to the program and to the goroutines, when no wait gives up.
use svcinit.Common.{
  ℕ, ◌≡◌, refl, ap, sym, ◌∙◌, Bool, true, false, not, ◌&&◌, ◌||◌, Option, none, some, List, ◌∷◌,
  ◌++◌, arith,
}
use svcinit.Errors.{Error, fatal}
use svcinit.Step.{Step}
use svcinit.Wrapper.{Wrapper}
use svcinit.Manager.{Startup}
use svcinit.Run.{
  Goroutine, Pc, spawned, signalled, begun, reported, is_spawned, System, Next, launches, joins,
  joins_late, passes, verifies, fails, awaits, joins_running, joins_running_late, cancels, expires,
  signals, begins, skips, reports, ends, Reach, begin, and_next, quiet, do_launch, after_check,
  end_step,
}
use svcinit.Run.Program.{Plan, Instr, launch, await, shutdown_program}
use svcinit.Run.Waits.{gives_up, late_absurd, Reach-gives_up, enforce-before}
use svcinit.Run.Untouched.{on_error_same}
use svcinit.Run.Barrier.{
  covered, calm, has_started, is_open, closing, well_joined, join-calm, started-calm, open-calm,
  calm-covered, launched-covered, all-replace, all-remove, well_joined-run_program,
  well_joined-shutdown_program,
}

abbrev pub is_launch : Instr → Bool
is_launch (launch k st i) = true
is_launch x = false

abbrev pub fresh_goroutine : ℕ → Step → ℕ → Goroutine
fresh_goroutine k st i = record { stage = k; step = st; tw = i; pc = spawned }

pub data Move (plan : Plan) (enforce : Bool) (todo : List Instr) (go : List Goroutine)
    : List Instr → List Goroutine → Type 0 where
  passes_over :
      {k i : ℕ} {st : Step} {rest : List Instr}
      → todo ≡ launch k st i ∷ rest
      → Move plan enforce todo go rest go
  starts :
      {k i : ℕ} {st : Step} {rest : List Instr}
      → todo ≡ launch k st i ∷ rest
      → Move plan enforce todo go rest (fresh_goroutine k st i ∷ go)
  waits :
      {x : Instr} {rest : List Instr}
      → todo ≡ x ∷ rest
      → is_launch x ≡ false
      → calm go ≡ true
      → Move plan enforce todo go rest go
  gives_in : calm go ≡ true → Move plan enforce todo go (await ∷ shutdown_program plan enforce) go
  stays : Move plan enforce todo go todo go
  goes_on :
      (pre : List Goroutine) (g : Goroutine) (post : List Goroutine) (pc : Pc)
      → go ≡ pre ++ g ∷ post
      → is_spawned pc ≡ false
      → Move plan enforce todo go todo (pre ++ record g { pc = pc } ∷ post)
  leaves :
      (pre : List Goroutine) (g : Goroutine) (post : List Goroutine)
      → go ≡ pre ++ g ∷ post
      → Move plan enforce todo go todo (pre ++ post)

-- The cover of a program is that of its head instruction.
pub at_head :
    {todo todo' : List Instr} (go : List Goroutine)
    → todo ≡ todo'
    → covered todo go ≡ true
    → covered todo' go ≡ true
at_head go q c = sym (ap (λ t. covered t go) q) ∙ c

-- Where the program waits for no goroutine and launches none, none can be left either.
pub at_open :
    {todo : List Instr} (x : Instr) (rest : List Instr) (go : List Goroutine)
    → todo ≡ x ∷ rest
    → is_open x ≡ true
    → covered todo go ≡ true
    → calm go ≡ true
at_open x rest go q n c = open-calm x rest go n (at_head go q c)

pub not-true : (b : Bool) → not b ≡ true → b ≡ false
not-true b h = ground arith

module _ {plan : Plan} {enforce : Bool} where
  -- What is launched is covered by the wait behind it, and stays so.
  Move-covered :
      {todo todo' : List Instr} {go go' : List Goroutine}
      → Move plan enforce todo go todo' go'
      → well_joined todo ≡ true
      → covered todo go ≡ true
      → (well_joined todo' ≡ true) × (covered todo' go' ≡ true)
  Move-covered {go = go} (passes_over {k} {i} {st} {rest} q) h c =
      (ground (arith, sym (ap well_joined q) ∙ h), launched-covered k st i rest go (at_head go q c))
  Move-covered {go = go} (starts {k} {i} {st} {rest} q) h c =
      let j : well_joined (launch k st i ∷ rest) ≡ true = sym (ap well_joined q) ∙ h in
      let old = launched-covered k st i rest go (at_head go q c) in
      (ground (arith, j), ground (arith, j, old))
  Move-covered {go = go} (waits {x} {rest} q n a) h c =
      (ground (arith, sym (ap well_joined q) ∙ h), calm-covered rest go a)
  Move-covered {go = go} (gives_in a) h c = (
    well_joined-shutdown_program plan enforce,
    calm-covered (await ∷ shutdown_program plan enforce) go a,
  )
  Move-covered stays h c = (h, c)
  Move-covered {todo} (goes_on pre g post pc q n) h c = (
    h,
    all-replace (λ g. has_started g || closing g.stage g.step todo) pre g _ post
        (λ old. ground (arith, n, old)) (sym (ap (covered todo) q) ∙ c),
  )
  Move-covered {todo} (leaves pre g post q) h c = (
    h,
    all-remove (λ g. has_started g || closing g.stage g.step todo) pre g post
        (sym (ap (covered todo) q) ∙ c),
  )

  module _ {W : Type 0} where
    after_check-Move :
        (k : ℕ) (st : Step) (i : ℕ) (rest : List Instr) (a : Bool × Option Error) (s : System W)
        {todo : List Instr}
        → todo ≡ launch k st i ∷ rest
        → s.todo ≡ rest
        → let t = after_check k st i a s in Move plan enforce todo s.go t.todo t.go
    after_check-Move k st i rest (ok, some e) s q r =
        let (w, g, t) = on_error_same st (some (fatal e)) s in rw (g, t, r) (passes_over q)
    after_check-Move k st i rest (true, none) s q r = rw r (starts q)
    after_check-Move k st i rest (false, none) s q r = rw r (passes_over q)

    pub Next-Move :
        (s : System W) {t : System W}
        → Next plan enforce s t
        → gives_up s ≡ false
        → covered s.todo s.go ≡ true
        → Move plan enforce s.todo s.go t.todo t.go
    unfolding do_launch quiet
    Next-Move s (launches {k = k} {i = i} {st = st} {rest = rest} q w) h c =
        after_check-Move k st i rest _ _ q refl
    Next-Move s (joins {k = k} {st = st} {b = b} {rest = rest} q r) h c =
        waits q refl (join-calm k st b rest s.go (not-true _ r) (at_head s.go q c))
    Next-Move s (joins_late {rest = rest} q x) h c =
        absurd (late_absurd s.todo _ rest s.expired q refl x h)
    Next-Move s (passes {k = k} {rest = rest} q r) h c =
        waits q refl (started-calm k rest s.go r (at_head s.go q c))
    Next-Move s (verifies q r) h c = waits q refl (at_open _ _ s.go q refl c)
    Next-Move s (fails q r) h c = gives_in (at_open _ _ s.go q refl c)
    Next-Move s (awaits q r) h c = waits q refl (at_open _ _ s.go q refl c)
    Next-Move s (joins_running q r) h c = waits q refl (at_open _ _ s.go q refl c)
    Next-Move s (joins_running_late {rest = rest} q x) h c =
        absurd (late_absurd s.todo _ rest s.expired q refl x h)
    Next-Move s (cancels e) h c = stays
    Next-Move s expires h c = stays
    Next-Move s (signals pre g post q r) h c = goes_on pre g post signalled q refl
    Next-Move s (begins pre g post w q r d) h c = goes_on pre g post begun q refl
    Next-Move s (skips pre g post w q r d) h c = leaves pre g post q
    Next-Move s (reports pre g post err q r) h c =
        let s' = record s {
          go = pre ++ record g { pc = reported } ∷ post;
          wrappers = end_step g.step g.tw err s.wrappers;
        } in
        let (w, g', t) = on_error_same g.step err s' in
        rw (g', t) (goes_on pre g post reported q refl)
    Next-Move s (ends pre g post q r) h c = leaves pre g post q

    module _ (wrappers : ℕ → Wrapper W) (startup : Startup) where
      pub Reach-covered :
          {s : System W}
          → Reach plan enforce wrappers startup s
          → enforce && s.expired ≡ false
          → (well_joined s.todo ≡ true) × (covered s.todo s.go ≡ true)
      Reach-covered begin h = (well_joined-run_program plan enforce, refl)
      Reach-covered (and_next {s = s} r n) h =
          let k = enforce-before plan wrappers startup enforce n h in
          let (j, c) = Reach-covered r k in
          Move-covered (Next-Move s n (Reach-gives_up plan wrappers startup enforce r k) c) j c

      pub Reach-Move :
          {s t : System W}
          → Reach plan enforce wrappers startup s
          → Next plan enforce s t
          → enforce && t.expired ≡ false
          → Move plan enforce s.todo s.go t.todo t.go
      Reach-Move {s} r n h =
          let k = enforce-before plan wrappers startup enforce n h in
          Next-Move s n (Reach-gives_up plan wrappers startup enforce r k) (Reach-covered r k).1
