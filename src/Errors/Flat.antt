-- ===== src/Errors/Flat.antt =====
-- The builder keeps multi errors flat.
use svcinit.Common.{
  ℕ, ◌||◌, ◌↔◌, ◌≢◌, any, ◌≡◌, refl, ap, Bool, true, false, not, List, [], ◌∷◌, Option, none, some,
  arith, all, all-append,
}
use svcinit.Errors.{Error, is_opt, multi, of_list, to_list}
use svcinit.Errors.Builder
use svcinit.Errors.Laws.{is_opt-build-add_all, has_errors-iff-build}

abbrev is_multi : Error → Bool
is_multi (multi es) = true
is_multi _ = false

-- No error of the list is itself a multi error.
abbrev pub is_flat_list : List Error → Bool
is_flat_list = all (λ e. not (is_multi e))

-- A multi error that holds no other multi error, or an error of another type, or nil.
abbrev pub is_flat : Option Error → Bool
is_flat none = true
is_flat (some (multi es)) = is_flat_list (to_list es)
is_flat (some _) = true

to_list-of_list : (es : List Error) → to_list (of_list es) ≡ es
unfolding to_list of_list
to_list-of_list [] = refl
to_list-of_list (e ∷ es) = ap (λ l. e ∷ l) (to_list-of_list es)

add_flat :
    (e : Option Error) (errs : List Error)
    → is_flat_list errs ≡ true
    → is_flat e ≡ true
    → is_flat_list (Builder.add e errs) ≡ true
unfolding Builder.add
add_flat none errs h k = h
add_flat (some (multi es)) errs h k =
    ground (arith, all-append (λ e. not (is_multi e)) errs (to_list es))
add_flat (some e) errs h k = ground (arith, all-append (λ e. not (is_multi e)) errs (e ∷ []))

add_all_flat :
    (es : List (Option Error)) (errs : List Error)
    → is_flat_list errs ≡ true
    → all is_flat es ≡ true
    → is_flat_list (Builder.add_all es errs) ≡ true
unfolding Builder.add_all
add_all_flat [] errs h k = h
add_all_flat (e ∷ es) errs h k =
    ground (arith, add_flat e errs, add_all_flat es (Builder.add e errs))

build_flat : (errs : List Error) → is_flat_list errs ≡ true → is_flat (Builder.build errs) ≡ true
unfolding Builder.build
build_flat [] h = refl
build_flat (e ∷ []) h = ground arith
build_flat (e ∷ f ∷ es) h = rw (to_list-of_list (e ∷ f ∷ es)) h

-- If every reported error is flat, so is the error that the builder builds of them: the parts of a
-- multi error are spliced in and never nested.
pub build-add_all_flat :
    (es : List (Option Error))
    → all is_flat es ≡ true
    → is_flat (Builder.build (Builder.add_all es [])) ≡ true
build-add_all_flat es k = build_flat (Builder.add_all es []) (add_all_flat es [] refl k)

flat_if : (a b : Bool) → (a ≡ true → b ≡ true) → not a || b ≡ true
flat_if a b f = ground arith

-- What the multi-error builder builds from the reported errors matches a sentinel exactly when one
-- of the reported errors does; the builder says that it has errors exactly when that is not nil;
-- and if every reported error is flat, so is what is built: the parts of a multi error are spliced
-- in and never nested.
pub built_from_reports :
    (t : ℕ) (es : List (Option Error))
    → (is_opt t (Builder.build (Builder.add_all es [])) ≡ any (is_opt t) es)
      × ((Builder.has_errors (Builder.add_all es []) ≡ true)
          ↔ (Builder.build (Builder.add_all es []) ≢ none))
      × (not (all is_flat es) || is_flat (Builder.build (Builder.add_all es [])) ≡ true)
built_from_reports t es = (
  is_opt-build-add_all t es,
  has_errors-iff-build (Builder.add_all es []),
  flat_if (all is_flat es) _ (build-add_all_flat es),
)
