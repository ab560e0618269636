-- ===== src/Wrapper/Run.antt =====
-- What running a step records, whatever the task, its handler and the callbacks do.
use svcinit.Common.{
  ◌≡◌, refl, false, Option, none, some, List, [], ◌∷◌, ◌++◌, arith, String, is_some, not,
  if◌then◌else◌, ◌&&◌, Outcome, returned, panicked, ap, append-nil, and_then, Action, ◌>>=◌, ◌>>◌,
  pure, sym, ◌∙◌,
}
use svcinit.Errors.{Error}
use svcinit.Context.{Ctx}
use svcinit.Step.{Step, setup, start, stop, teardown, other, step_eq, CallbackStep, before, after}
use svcinit.Task.{TaskCallback, TaskErrorHandler}
use svcinit.Wrapper.{
  Wrapper, run_callbacks, add_step_done, call, handle_error, run, State, internal_add_step_done,
}

-- The steps that a run adds to those done, by how the callbacks before the step end, and how the
-- task and its error handler do: none after a panic of such a callback, `setup` once it has
-- succeeded, any other step as soon as it begins.
abbrev pub recorded :
    Step → (called : Outcome (Unit {0})) (handled : Outcome (Option Error)) → List Step
recorded s panicked outcome = []
recorded setup (returned u) (returned none) = setup ∷ []
recorded setup (returned u) (returned (some e)) = []
recorded setup (returned u) panicked = []
recorded s (returned u) outcome = s ∷ []

module _ {W : Type 0} where
  call_keeps : (ctx : Ctx) (s : Step) (st : State W) → (call ctx s st).1.0 ≡ st.0
  unfolding call
  call_keeps ctx s st = ground arith

  handle_error_keeps :
      (ctx : Ctx) (s : Step) (h : Option (TaskErrorHandler W)) (err : Option Error) (st : State W)
      → (handle_error ctx s h err st).1.0 ≡ st.0
  unfolding handle_error
  handle_error_keeps ctx s none err st = refl
  handle_error_keeps ctx s (some h) err st = refl

  run_callbacks_keeps :
      (ctx : Ctx) (stage : String) (s : Step) (cs : CallbackStep) (err : Option Error)
      (callbacks : List (TaskCallback W)) (st : State W)
      → (run_callbacks ctx stage s cs err callbacks st).1.0 ≡ st.0
  unfolding run_callbacks
  run_callbacks_keeps ctx stage s cs err callbacks st = refl

  abbrev records : Wrapper W → List Step → Wrapper W
  records tw ss = record tw { execute_steps = tw.execute_steps ++ ss }

  -- Code that leaves the wrapper alone, whether it returns or panics.
  abbrev Keeps : {A : Type 0} → Action (State W) A → Type 0
  Keeps m = (st : State W) → (m st).1.0 ≡ st.0

  and_then-Keeps :
      {A B : Type 0} (r : Outcome A) (f : A → Action (State W) B) (st : State W)
      → ((a : A) → Keeps (f a))
      → (and_then r f st).1.0 ≡ st.0
  and_then-Keeps (returned a) f st h = h a st
  and_then-Keeps panicked f st h = refl

  >>=-Keeps :
      {A B : Type 0} (m : Action (State W) A) (f : A → Action (State W) B)
      → Keeps m
      → ((a : A) → Keeps (f a))
      → Keeps (m >>= f)
  >>=-Keeps m f hm hf st = and_then-Keeps (m st).0 f (m st).1 hf ∙ hm st

  module _ (ctx : Ctx) (stage : String) (callbacks : List (TaskCallback W))
      (handler : Option (TaskErrorHandler W)) where
    -- The last lines of `run`.
    abbrev close : Step → Option Error → Action (State W) (Option Error)
    close s err = do
      if step_eq s setup && not (is_some err) then add_step_done s else pure tt
      run_callbacks ctx stage s after err callbacks
      pure err

    abbrev handled : Step → Option Error → Action (State W) (Option Error)
    handled s err = do err' ← handle_error ctx s handler err; close s err'

    -- The task and its error handler.
    abbrev pub attempt : Step → Action (State W) (Option Error)
    attempt s = do err ← call ctx s; handle_error ctx s handler err

    ending-Keeps :
        (s : Step) (err : Option Error)
        → Keeps (do run_callbacks ctx stage s after err callbacks; pure err)
    ending-Keeps s err =
        >>=-Keeps (run_callbacks ctx stage s after err callbacks) (λ _. pure err)
          (run_callbacks_keeps ctx stage s after err callbacks) (λ _ st. refl)

    -- After the record of a step that is not `setup`, nothing more is recorded.
    tail-Keeps : (s : Step) → step_eq s setup ≡ false → Keeps (do err ← call ctx s; handled s err)
    tail-Keeps s h = >>=-Keeps (call ctx s) (handled s) (call_keeps ctx s) (λ err.
        >>=-Keeps (handle_error ctx s handler err) (close s) (handle_error_keeps ctx s handler err)
          (λ err' st. rw h (ending-Keeps s err' st)))

    abbrev Recorded : Wrapper W → Outcome (Option Error) → Outcome (Option Error) × State W → Type 0
    Recorded tw done (outcome, (tw', w')) = tw' ≡ records tw (recorded setup (returned tt) done)

    records_nil : (tw : Wrapper W) → tw ≡ records tw []
    records_nil tw = λ i. record tw { execute_steps = sym (append-nil tw.execute_steps) i }

    close-Recorded :
        (tw : Wrapper W) (r : Outcome (Option Error)) (st : State W)
        → st.0 ≡ tw
        → Recorded tw r (and_then r (close setup) st)
    unfolding add_step_done internal_add_step_done
    close-Recorded tw (returned none) st h =
        ending-Keeps setup none (records st.0 (setup ∷ []), st.1)
        ∙ ap (λ t. records t (setup ∷ [])) h
    close-Recorded tw (returned (some e)) st h =
        ending-Keeps setup (some e) st ∙ (h ∙ records_nil tw)
    close-Recorded tw panicked st h = h ∙ records_nil tw

    handled-Recorded :
        (tw : Wrapper W) (r : Outcome (Option Error)) (st : State W)
        → st.0 ≡ tw
        → Recorded tw
            (and_then r (handle_error ctx setup handler) st).0
            (and_then r (handled setup) st)
    handled-Recorded tw (returned err) st h =
        close-Recorded tw (handle_error ctx setup handler err st).0
          (handle_error ctx setup handler err st).1
          (handle_error_keeps ctx setup handler err st ∙ h)
    handled-Recorded tw panicked st h = h ∙ records_nil tw

    -- The rest of `run` after the callbacks before the step.
    abbrev rest : Step → Action (State W) (Option Error)
    rest s = do
      if not (step_eq s setup) then add_step_done s else pure tt
      err ← call ctx s
      handled s err

    rest-records :
        (s : Step) (tw : Wrapper W) (b : Outcome (Unit {0})) (st : State W)
        → st.0 ≡ tw
        → (and_then b (λ _. rest s) st).1.0 ≡ records tw (recorded s b (attempt s st).0)
    unfolding add_step_done internal_add_step_done
    rest-records s tw panicked st h = h ∙ records_nil tw
    rest-records setup tw (returned u) st h =
        handled-Recorded tw (call ctx setup st).0 (call ctx setup st).1
          (call_keeps ctx setup st ∙ h)
    rest-records start tw (returned u) st h =
        tail-Keeps start refl (records st.0 (start ∷ []), st.1) ∙ ap (λ t. records t (start ∷ [])) h
    rest-records stop tw (returned u) st h =
        tail-Keeps stop refl (records st.0 (stop ∷ []), st.1) ∙ ap (λ t. records t (stop ∷ [])) h
    rest-records teardown tw (returned u) st h =
        tail-Keeps teardown refl (records st.0 (teardown ∷ []), st.1)
        ∙ ap (λ t. records t (teardown ∷ [])) h
    rest-records (other n) tw (returned u) st h =
        tail-Keeps (other n) refl (records st.0 (other n ∷ []), st.1)
        ∙ ap (λ t. records t (other n ∷ [])) h

    -- What running a step adds to the steps that the wrapper has done: nothing if a callback before
    -- the step panics; else setup only if the task and the error handler leave no error and do not
    -- panic, and any other step also if they do; whatever the callbacks after the step do, which
    -- may panic too. Nothing else of the wrapper changes.
    pub run_records :
        (s : Step) (tw : Wrapper W) (w : W)
        → let (called, st) = run_callbacks ctx stage s before none callbacks (tw, w) in
          (run ctx stage s callbacks handler (tw, w)).1.0
          ≡ record tw { execute_steps = tw.execute_steps ++ recorded s called (attempt s st).0 }
    unfolding run
    run_records s tw w =
        let (called, st) = run_callbacks ctx stage s before none callbacks (tw, w) in
        rest-records s tw called st (run_callbacks_keeps ctx stage s before none callbacks (tw, w))
