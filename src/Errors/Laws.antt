-- ===== src/Errors/Laws.antt =====
-- `errors.Is` and `errors.As` through the builder and the internal error type.
use svcinit.Common.{
  ℕ, ◌≡◌, ◌↔◌, refl, ap, ◌∙◌, true, ◌||◌, ◌≢◌, List, [], ◌∷◌, Option, none, some, arith, any,
  any-append,
}
use svcinit.Errors.{
  Error, Errors, fatal, multi, nil, cons, of_list, to_list, is, is_any, is_opt,
  unwrap_internal_errors, build_multi_errors, build_joined_errors,
}
use svcinit.Errors.Builder

pub is_any-of_list : (t : ℕ) (es : List Error) → is_any t (of_list es) ≡ any (is t) es
unfolding is_any of_list
is_any-of_list t [] = refl
is_any-of_list t (e ∷ es) = ap (λ b. is t e || b) (is_any-of_list t es)

pub any-to_list : (t : ℕ) (es : Errors) → any (is t) (to_list es) ≡ is_any t es
unfolding is_any to_list
any-to_list t nil = refl
any-to_list t (cons e es) = ap (λ b. is t e || b) (any-to_list t es)

pub is_opt-build_multi_errors :
    (t : ℕ) (es : List Error) → is_opt t (build_multi_errors es) ≡ any (is t) es
unfolding build_multi_errors is
is_opt-build_multi_errors t [] = refl
is_opt-build_multi_errors t (e ∷ []) = ground arith
is_opt-build_multi_errors t (e ∷ f ∷ es) = is_any-of_list t (e ∷ f ∷ es)

pub is_opt-build_joined_errors :
    (t : ℕ) (es : List Error) → is_opt t (build_joined_errors es) ≡ any (is t) es
unfolding build_joined_errors is
is_opt-build_joined_errors t [] = refl
is_opt-build_joined_errors t (e ∷ []) = ground arith
is_opt-build_joined_errors t (e ∷ f ∷ es) = is_any-of_list t (e ∷ f ∷ es)

pub any-add :
    (t : ℕ) (e : Option Error) (errs : List Error)
    → any (is t) (Builder.add e errs) ≡ any (is t) errs || is_opt t e
unfolding Builder.add is
any-add t none errs = ground arith
any-add t (some (multi es)) errs =
    ground (arith, any-append (is t) errs (to_list es), any-to_list t es)
any-add t (some e) errs = ground (arith, any-append (is t) errs (e ∷ []))

pub any-add_all :
    (t : ℕ) (es : List (Option Error)) (errs : List Error)
    → any (is t) (Builder.add_all es errs) ≡ any (is t) errs || any (is_opt t) es
unfolding Builder.add_all
any-add_all t [] errs = ground arith
any-add_all t (e ∷ es) errs =
    ground (arith, any-add_all t es (Builder.add e errs), any-add t e errs)

-- What the multi-error builder builds from the reported errors matches a sentinel exactly when one
-- of the reported errors does.
pub is_opt-build-add_all :
    (t : ℕ) (es : List (Option Error))
    → is_opt t (Builder.build (Builder.add_all es [])) ≡ any (is_opt t) es
unfolding Builder.build
is_opt-build-add_all t es =
    is_opt-build_multi_errors t (Builder.add_all es []) ∙ any-add_all t es []

-- The builder says that it has errors exactly when what it builds is not nil.
pub has_errors-iff-build :
    (errs : List Error) → (Builder.has_errors errs ≡ true) ↔ (Builder.build errs ≢ none)
unfolding Builder.has_errors Builder.build
has_errors-iff-build [] = ground arith
has_errors-iff-build (e ∷ []) = ground arith
has_errors-iff-build (e ∷ f ∷ es) = ground arith

-- Unwrapping the internal error keeps what `errors.Is` sees.
pub is_opt-unwrap_internal_errors :
    (t : ℕ) (e : Option Error) → is_opt t (unwrap_internal_errors e) ≡ is_opt t e
unfolding unwrap_internal_errors is
is_opt-unwrap_internal_errors t none = refl
is_opt-unwrap_internal_errors t (some (fatal e)) = refl
is_opt-unwrap_internal_errors t (some _) = refl
