-- ===== src/Future/Values.antt =====
-- future.go: what the options of `Value` decide.
use svcinit.Common.{
  ◌≡◌, ◌∙◌, Bool, true, false, ◌||◌, Option, none, some, List, [], ◌∷◌, ◌++◌, map, arith, any,
  is_some, if◌then◌else◌,
}
use svcinit.Errors.{Error, plain}
use svcinit.Errors.Sentinel
use svcinit.Future.{
  Future, is_closed, value, value_now, value_ready, FutureValueOptions, FutureValueOption,
  with_future_ctx, without_future_wait, apply_value_options, ctx_err,
}

-- The two options, as a caller gives them.
pub data Given : Type 0 where
  gives_ctx : Option (Option Error) → Given
  gives_nowait : Given

unfoldable pub option_of : Given → FutureValueOption
unfolding with_future_ctx without_future_wait
option_of (gives_ctx ctx) = with_future_ctx ctx
option_of gives_nowait = without_future_wait

abbrev pub is_nowait : Given → Bool
is_nowait gives_nowait = true
is_nowait g = false

abbrev pub last_ctx : Option (Option Error) → List Given → Option (Option Error)
last_ctx ctx [] = ctx
last_ctx ctx (gives_ctx ctx' ∷ gs) = last_ctx ctx' gs
last_ctx ctx (gives_nowait ∷ gs) = last_ctx ctx gs

applied :
    (gs : List Given) (o : FutureValueOptions)
    → apply_value_options (map option_of gs) o
      ≡ record { ctx = last_ctx o.ctx gs; nowait = o.nowait || any is_nowait gs }
unfolding apply_value_options option_of with_future_ctx without_future_wait
applied [] o = ground arith
applied (gives_ctx ctx ∷ gs) o = applied gs (record o { ctx = ctx })
applied (gives_nowait ∷ gs) o = applied gs (record o { nowait = true }) ∙ ground arith

module _ {T : Type 0} (empty : T) where
  -- The result of a resolved future.
  abbrev pub resolved_results : Future T → List (T × Option Error)
  resolved_results f = if is_closed f.latch then (f.v, f.err) ∷ [] else []

  -- Value with WithoutFutureWait among its options returns at once, with the result of a resolved
  -- future and ErrNotResolved for another, whatever contexts the options give, in any order;
  -- without it, Value can return the error of the last given context, once that is done, and the
  -- result of the future, once it is resolved, and nothing else.
  pub value-options :
      (gs : List Given) (f : Future T)
      → (value empty (map option_of gs) f).0 ≡ (
          if any is_nowait gs
          then (if is_closed f.latch
              then (f.v, f.err)
              else (empty, some (plain Sentinel.not_resolved)))
            ∷ []
          else (if is_some (ctx_err (last_ctx none gs))
              then (empty, ctx_err (last_ctx none gs)) ∷ []
              else [])
            ++ resolved_results f)
  unfolding value value_now value_ready
  value-options gs f = rw (applied gs (record { ctx = none; nowait = false })) (ground arith)
