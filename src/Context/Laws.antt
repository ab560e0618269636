-- ===== src/Context/Laws.antt =====
-- Cancellation is final, and what a context carries.
use svcinit.Common.{
  ℕ, ◌≡◌, refl, true, false, Option, none, some, arith, ◌==◌, is_some, Bool-cases, inl, inr, ==_iff,
}
use svcinit.Errors.{Error, plain, is, is_opt}
use svcinit.Errors.Sentinel
use svcinit.Context.{
  StartStepManager, Ctx, background, with_value, with_cancel, without_cancel, Cancelled, Nodes,
  done, cancel, or_canceled, context_with_cause, context_with_start_step_manager, context_cancel,
  cause_from_context, start_step_manager_from_context, finished_closed, finished_err,
}

pub done-cancel_fresh :
    (n : ℕ) (parent : Ctx) (c : Option Error) (nodes : Nodes)
    → done nodes (with_cancel n parent) ≡ none
    → done (cancel n parent c nodes) (with_cancel n parent)
      ≡ some (record { err = plain Sentinel.canceled; cause = or_canceled c })
unfolding done cancel
done-cancel_fresh n parent c nodes h = ground arith

-- Wherever the node `n` stands in a context, it hangs under `parent`.
abbrev pub HangsUnder : ℕ → Ctx → Ctx → Type 0
HangsUnder n parent background = Unit
HangsUnder n parent (with_value v ctx) = HangsUnder n parent ctx
HangsUnder n parent (with_cancel m ctx) = (m ≡ n → ctx ≡ parent) × HangsUnder n parent ctx
HangsUnder n parent (without_cancel ctx) = HangsUnder n parent ctx

cancel_node :
    (n : ℕ) (parent : Ctx) (c : Option Error) (nodes : Nodes) (m : ℕ)
    → is_some (done nodes (with_cancel n parent)) ≡ true
    → cancel n parent c nodes m ≡ nodes m
unfolding cancel
cancel_node n parent c nodes m h = rw h

pub cancel_other :
    (n : ℕ) (parent : Ctx) (c : Option Error) (nodes : Nodes) (m : ℕ)
    → (m == n) ≡ false
    → cancel n parent c nodes m ≡ nodes m
unfolding cancel
cancel_other n parent c nodes m h = ground arith

-- A node that is done, by itself or through its parent, is left as it is.
cancel_done_node :
    (n m : ℕ) (parent ctx : Ctx) (c : Option Error) (nodes : Nodes) {k : Cancelled}
    → done nodes (with_cancel m ctx) ≡ some k
    → (m ≡ n → ctx ≡ parent)
    → cancel n parent c nodes m ≡ nodes m
cancel_done_node n m parent ctx c nodes h same = elim (Bool-cases (m == n)) [
  | inl e ↦ let p : m ≡ n = (==_iff m n).0 e in cancel_node n parent c nodes m (cc (h, p, same p))
  | inr e ↦ cancel_other n parent c nodes m e
]

-- A context that is done stays done with the same error and cause when a node is cancelled, where
-- that node hangs under one and the same parent wherever it stands in the context.
done-cancel_final :
    (n : ℕ) (parent : Ctx) (c : Option Error) (nodes : Nodes) (ctx : Ctx) (k : Cancelled)
    → HangsUnder n parent ctx
    → done nodes ctx ≡ some k
    → done (cancel n parent c nodes) ctx ≡ some k
unfolding done
done-cancel_final n parent c nodes background k u h = h
done-cancel_final n parent c nodes (with_value v ctx) k u h =
    done-cancel_final n parent c nodes ctx k u h
done-cancel_final n parent c nodes (with_cancel m ctx) k u h = ground (
  arith,
  cancel_done_node n m parent ctx c nodes {k = k} h u.0,
  done-cancel_final n parent c nodes ctx k u.1,
)
done-cancel_final n parent c nodes (without_cancel ctx) k u h = h

-- ContextCancel of a start step manager with a start context says that it was possible; if that
-- context was not done, it is then done with Canceled and the given cause, or Canceled for a nil
-- one; and any context that was done before stays done with the same error and cause, where the
-- start context's node hangs under one and the same parent wherever it stands in that context.
pub context_cancel_once :
    (n : ℕ) (finished : Option ℕ) (parent : Ctx) (c : Option Error) (nodes : Nodes)
    → let (possible, after) =
        context_cancel (record { cancel = some n; finished = finished }) parent c nodes in
      (possible ≡ true)
      × (done nodes (with_cancel n parent) ≡ none
          → done after (with_cancel n parent)
            ≡ some (record { err = plain Sentinel.canceled; cause = or_canceled c }))
      × ((ctx : Ctx) (k : Cancelled)
          → HangsUnder n parent ctx
          → done nodes ctx ≡ some k
          → done after ctx ≡ some k)
unfolding context_cancel
context_cancel_once n finished parent c nodes = (
  refl,
  λ h. done-cancel_fresh n parent c nodes h,
  λ ctx k u h. done-cancel_final n parent c nodes ctx k u h,
)

-- What the "stop" step gets from its context is the manager that was put there, through any number
-- of cancellable contexts, and the cause beside it is still found.
pub context_values :
    (ctx : Ctx) (ssm : StartStepManager) (e : Error) (n : ℕ)
    → (start_step_manager_from_context
          (with_cancel n (context_with_start_step_manager (context_with_cause ctx (some e)) ssm))
        ≡ ssm)
      × (cause_from_context
            (with_cancel n (context_with_start_step_manager (context_with_cause ctx (some e)) ssm))
          ≡ some e)
      × (cause_from_context (context_with_cause ctx none) ≡ none)
unfolding start_step_manager_from_context cause_from_context context_with_start_step_manager
    context_with_cause
context_values ctx ssm e n = (refl, refl, refl)

abbrev pub finish_cause : Option Error → Option Error
finish_cause none = some (plain Sentinel.ssm_nil)
finish_cause (some e) = some e

abbrev pub ssm_nil_error : Option Error
ssm_nil_error = some (plain Sentinel.ssm_nil)

-- For a start step manager whose finish node was not cancelled, and a step error that does not
-- match the internal nil error: after the start step's goroutine has cancelled the node with the
-- step's error or the internal nil error, and its deferred call has cancelled it again, Finished is
-- closed and FinishedErr is the step's error.
pub finished_err_after_finish :
    (ssm : StartStepManager) (n : ℕ) (ctx : Ctx) (nodes : Nodes) (err : Option Error)
    → ssm.finished ≡ some n
    → nodes n ≡ none
    → is_opt Sentinel.ssm_nil err ≡ false
    → let finish = λ (c : Option Error) (s : Nodes). cancel n (without_cancel ctx) c s in
      let after = finish ssm_nil_error (finish (finish_cause err) nodes) in
      (finished_closed ssm after ≡ true) × (finished_err ssm after ≡ err)
unfolding finished_closed finished_err cancel is
finished_err_after_finish ssm n ctx nodes none f k h = ground arith
finished_err_after_finish ssm n ctx nodes (some e) f k h = ground arith
