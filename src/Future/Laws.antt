-- ===== src/Future/Laws.antt =====
-- A future is assigned once.
use svcinit.Common.{
  ◌≡◌, refl, Bool, true, false, Option, none, some, List, [], ◌∷◌, arith, any, ap, sym, ◌∙◌,
}
use svcinit.Errors.{Error, plain}
use svcinit.Errors.Sentinel
use svcinit.Future.{
  Future, closed, is_closed, new_future, value_now, value_ready, Call, resolves, fails, asks,
  perform, perform_all,
}

abbrev pub is_resolution : {T : Type 0} → Call T → Bool
is_resolution asks = false
is_resolution c = true

module _ {T : Type 0} (empty : T) where
  resolved_step :
      (c : Call T) (f : Future T)
      → f.latch ≡ closed
      → ((perform empty c f).1 ≡ f) × ((perform empty c f).0 ≡ is_resolution c)
  unfolding perform
  resolved_step (resolves v) f h = ground arith
  resolved_step (fails e) f h = ground arith
  resolved_step asks f h = ground arith

  resolved_all : (cs : List (Call T)) (f : Future T) → f.latch ≡ closed → perform_all empty cs f ≡ f
  unfolding perform_all
  resolved_all [] f h = refl
  resolved_all (c ∷ cs) f h =
      ap (perform_all empty cs) (resolved_step c f h).0 ∙ resolved_all cs f h

  resolved_reads :
      (f : Future T)
      → f.latch ≡ closed
      → ((value_now empty f).0 ≡ (f.v, f.err)) × (value_ready empty none f ≡ (f.v, f.err) ∷ [])
  unfolding value_now value_ready
  resolved_reads f h = ground arith

  -- A resolved future never changes again, whatever is called on it in any order; a waiting and a
  -- non-waiting read both find its value; and each further resolution panics.
  pub resolved_final :
      (cs : List (Call T)) (f : Future T)
      → f.latch ≡ closed
      → (perform_all empty cs f ≡ f)
        × ((value_now empty (perform_all empty cs f)).0 ≡ (f.v, f.err))
        × (value_ready empty none (perform_all empty cs f) ≡ (f.v, f.err) ∷ [])
        × ((c : Call T) → (perform empty c f).0 ≡ is_resolution c)
  resolved_final cs f h =
      let same = resolved_all cs f h in
      (
        same,
        ap (λ g. (value_now empty g).0) same ∙ (resolved_reads f h).0,
        ap (λ g. value_ready empty none g) same ∙ (resolved_reads f h).1,
        λ c. (resolved_step c f h).1,
      )

  -- A future that nothing has resolved.
  record Unresolved (f : Future T) : Type 0 where
    open_latch : is_closed f.latch ≡ false
    no_value : f.v ≡ empty
    no_error : f.err ≡ none

  new_fresh : Unresolved (new_future empty)
  unfolding new_future
  new_fresh = record { open_latch = refl; no_value = refl; no_error = refl }

  asked_all :
      (cs : List (Call T)) (f : Future T)
      → Unresolved f
      → any is_resolution cs ≡ false
      → Unresolved (perform_all empty cs f)
  unfolding perform_all perform
  asked_all [] f u h = u
  asked_all (resolves v ∷ cs) f u h = absurd (cc)
  asked_all (fails e ∷ cs) f u h = absurd (cc)
  asked_all (asks ∷ cs) f u h = asked_all cs _ (ground arith) h

  first_at :
      (f : Future T) (v : T) (err : Option Error)
      → Unresolved f
      → ((value_now empty f).0 ≡ (empty, some (plain Sentinel.not_resolved)))
        × (value_ready empty none f ≡ [])
        × ((perform empty (resolves v) f).0 ≡ false)
        × ((value_now empty (perform empty (resolves v) f).1).0 ≡ (v, none))
        × ((perform empty (fails err) f).0 ≡ false)
        × ((value_now empty (perform empty (fails err) f).1).0 ≡ (empty, err))
  unfolding value_now value_ready perform
  first_at f v err u = ground arith

  -- After any calls that do not resolve it, a new future is unresolved for both kinds of read, and
  -- the first resolution, with a value or an error, does not panic and decides what a read finds.
  pub first_resolution :
      (cs : List (Call T)) (v : T) (err : Option Error)
      → any is_resolution cs ≡ false
      → let f = perform_all empty cs (new_future empty) in
        ((value_now empty f).0 ≡ (empty, some (plain Sentinel.not_resolved)))
        × (value_ready empty none f ≡ [])
        × ((perform empty (resolves v) f).0 ≡ false)
        × ((value_now empty (perform empty (resolves v) f).1).0 ≡ (v, none))
        × ((perform empty (fails err) f).0 ≡ false)
        × ((value_now empty (perform empty (fails err) f).1).0 ≡ (empty, err))
  first_resolution cs v err h =
      first_at (perform_all empty cs (new_future empty)) v err
        (asked_all cs (new_future empty) (new_fresh) h)

  -- What a resolution makes a read find.
  abbrev pub result_of : Call T → T × Option Error
  result_of (resolves v) = (v, none)
  result_of (fails err) = (empty, err)
  result_of asks = (empty, some (plain Sentinel.not_resolved))

  resolves_at :
      (c : Call T) (f : Future T)
      → Unresolved f
      → is_resolution c ≡ true
      → ((perform empty c f).0 ≡ false)
        × ((perform empty c f).1.latch ≡ closed)
        × (((perform empty c f).1.v, (perform empty c f).1.err) ≡ result_of c)
  unfolding perform
  resolves_at (resolves v) f u h = ground arith
  resolves_at (fails err) f u h = ground arith
  resolves_at asks f u h = absurd (cc)

  -- A new future, whatever calls that do not resolve it came before, is unresolved for both kinds
  -- of read; the first resolution, with a value or an error, does not panic; and after any further
  -- calls in any order both kinds of read find its result, and a call d leaves the future as it is
  -- and panics exactly when it is another resolution.
  pub resolved_once :
      (before after : List (Call T)) (c d : Call T)
      → any is_resolution before ≡ false
      → is_resolution c ≡ true
      → let f = perform_all empty before (new_future empty) in
        let g = perform_all empty after (perform empty c f).1 in
        ((value_now empty f).0 ≡ (empty, some (plain Sentinel.not_resolved)))
        × (value_ready empty none f ≡ [])
        × ((perform empty c f).0 ≡ false)
        × ((value_now empty g).0 ≡ result_of c)
        × (value_ready empty none g ≡ result_of c ∷ [])
        × ((perform empty d g).0 ≡ is_resolution d)
        × ((perform empty d g).1 ≡ g)
  resolved_once before after c d h r =
      let f = perform_all empty before (new_future empty) in
      let u = asked_all before (new_future empty) new_fresh h in
      let first = first_resolution before empty none h in
      let (quiet, shut, result) = resolves_at c f u r in
      let f' = (perform empty c f).1 in
      let (same, now, ready, panics) = resolved_final after f' shut in
      (
        first.0,
        first.1,
        quiet,
        now ∙ result,
        ready ∙ ap (λ x. x ∷ []) result,
        ap (λ g. (perform empty d g).0) same ∙ panics d,
        ap (λ g. (perform empty d g).1) same ∙ ((resolved_step d f' shut).0 ∙ sym same),
      )
