-- ===== src/Future.antt =====
-- future.go: a latch that is resolved once, and the value behind it.
pub mod Laws
pub mod Values
use svcinit.Common.{
  Bool, true, false, Option, none, some, List, [], ◌∷◌, ◌++◌, Action, returned, panicked,
  if◌then◌else◌, is_some,
}
use svcinit.Errors.{Error, plain}
use svcinit.Errors.Sentinel

-- The channel `done`: nil until it is asked for, open, or closed (`closedchan` too).
pub data Latch : Type 0 where
  unset waiting closed : Latch

abbrev pub is_closed : Latch → Bool
is_closed closed = true
is_closed l = false

-- `Done`: the channel is made if it is nil.
unfoldable pub latch_done : Latch → Latch
latch_done unset = waiting
latch_done l = l

-- future[T]; `v` is the zero value of `T` and `err` is nil until it is resolved.
pub record Future (T : Type 0) : Type 0 where
  pub latch : Latch
  pub v : T
  pub err : Option Error

module _ {T : Type 0} where
  unfoldable pub new_future : T → Future T
  new_future empty = record { latch = unset; v = empty; err = none }

  -- `resolve` with the function that stores the result: it panics, with nothing stored, if the
  -- channel is closed. The mutex is held throughout.
  unfoldable pub resolve_with : (Future T → Future T) → Action (Future T) (Unit {0})
  resolve_with store f =
      if is_closed f.latch
      then (panicked, f)
      else (returned tt, record (store f) { latch = closed })

  unfoldable pub resolve : T → Action (Future T) (Unit {0})
  unfolding resolve_with
  resolve value = resolve_with (λ f. record f { v = value })

  unfoldable pub resolve_error : Option Error → Action (Future T) (Unit {0})
  unfolding resolve_with
  resolve_error err = resolve_with (λ f. record f { err = err })

  -- `Value` with WithoutFutureWait. `empty` is the zero value.
  unfoldable pub value_now : T → Future T → (T × Option Error) × Future T
  unfolding latch_done
  value_now empty f =
      let result =
        if is_closed f.latch then (f.v, f.err) else (empty, some (plain Sentinel.not_resolved)) in
      (result, record f { latch = latch_done f.latch })

  -- `Value` that waits: the results that the select may choose at this moment. It blocks while there
  -- is none. `ctx_err` is the error of the context of WithFutureCtx, once it is done.
  unfoldable pub value_ready : T → Option Error → Future T → List (T × Option Error)
  value_ready empty ctx_err f =
      (if is_some ctx_err then (empty, ctx_err) ∷ [] else [])
      ++ (if is_closed f.latch then (f.v, f.err) ∷ [] else [])

-- futureValueOptions: the context, if one is given, by its error at the time of the select, which is
-- nil while it is not done.
pub record FutureValueOptions : Type 0 where
  pub ctx : Option (Option Error)
  pub nowait : Bool

abbrev pub FutureValueOption : Type 0
FutureValueOption = FutureValueOptions → FutureValueOptions

unfoldable pub with_future_ctx : Option (Option Error) → FutureValueOption
with_future_ctx ctx o = record o { ctx = ctx }

unfoldable pub without_future_wait : FutureValueOption
without_future_wait o = record o { nowait = true }

unfoldable pub apply_value_options :
    List FutureValueOption → FutureValueOptions → FutureValueOptions
apply_value_options [] o = o
apply_value_options (option ∷ options) o = apply_value_options options (option o)

-- A nil context has no channel, and is never done.
abbrev pub ctx_err : Option (Option Error) → Option Error
ctx_err none = none
ctx_err (some err) = err

module _ {T : Type 0} where
  -- `Value`: the results that it may return at this moment; it blocks while there is none. It asks
  -- the latch for its channel in any case.
  unfoldable pub value : T → List FutureValueOption → Future T → List (T × Option Error) × Future T
  unfolding value_now value_ready apply_value_options latch_done
  value empty options f =
      let o = apply_value_options options (record { ctx = none; nowait = false }) in
      if o.nowait
      then ((value_now empty f).0 ∷ [], (value_now empty f).1)
      else (value_ready empty (ctx_err o.ctx) f, record f { latch = latch_done f.latch })

-- Any call on a future, from any goroutine.
pub data Call (T : Type 0) : Type 0 where
  resolves : T → Call T
  fails : Option Error → Call T
  asks : Call T

module _ {T : Type 0} where
  -- The future after the call, and whether the call panicked.
  unfoldable pub perform : T → Call T → Future T → Bool × Future T
  unfolding resolve resolve_error value_now
  perform empty (resolves value) f =
      let (r, f') = resolve value f in (elim r [ returned u ↦ false | panicked ↦ true ], f')
  perform empty (fails err) f =
      let (r, f') = resolve_error err f in (elim r [ returned u ↦ false | panicked ↦ true ], f')
  perform empty asks f = (false, (value_now empty f).1)

  unfoldable pub perform_all : T → List (Call T) → Future T → Future T
  unfolding perform
  perform_all empty [] f = f
  perform_all empty (c ∷ cs) f = perform_all empty cs (perform empty c f).1
