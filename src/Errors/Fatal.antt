-- ===== src/Errors/Fatal.antt =====
-- `errors.As` into a `fatalError`, through the builder: whether there is one.
use svcinit.Common.{
  ◌≡◌, refl, ap, ◌∙◌, Bool, ◌||◌, List, [], ◌∷◌, Option, none, some, arith, any, any-append,
  is_some,
}
use svcinit.Errors.{
  Error, Errors, multi, nil, cons, of_list, to_list, as_fatal, as_fatal_any, as_fatal_opt, or_else,
  build_multi_errors,
}
use svcinit.Errors.Builder

abbrev pub holds_fatal : Error → Bool
holds_fatal e = is_some (as_fatal e)

abbrev pub holds_fatal_opt : Option Error → Bool
holds_fatal_opt e = is_some (as_fatal_opt e)

is_some-or_else : (x y : Option Error) → is_some (or_else x y) ≡ is_some x || is_some y
is_some-or_else none y = refl
is_some-or_else (some e) y = refl

of_list-holds_fatal : (es : List Error) → is_some (as_fatal_any (of_list es)) ≡ any holds_fatal es
unfolding as_fatal_any of_list
of_list-holds_fatal [] = refl
of_list-holds_fatal (e ∷ es) =
    is_some-or_else (as_fatal e) (as_fatal_any (of_list es))
    ∙ ap (λ b. holds_fatal e || b) (of_list-holds_fatal es)

to_list-holds_fatal : (es : Errors) → any holds_fatal (to_list es) ≡ is_some (as_fatal_any es)
unfolding as_fatal_any to_list
to_list-holds_fatal nil = refl
to_list-holds_fatal (cons e es) =
    ground (arith, is_some-or_else (as_fatal e) (as_fatal_any es), to_list-holds_fatal es)

-- What the builder builds holds a fatal error exactly when one of its errors does.
pub build-holds_fatal : (es : List Error) → holds_fatal_opt (Builder.build es) ≡ any holds_fatal es
unfolding Builder.build build_multi_errors as_fatal
build-holds_fatal [] = refl
build-holds_fatal (e ∷ []) = ground arith
build-holds_fatal (e ∷ f ∷ es) = of_list-holds_fatal (e ∷ f ∷ es)

pub add-holds_fatal :
    (e : Option Error) (errs : List Error)
    → any holds_fatal (Builder.add e errs) ≡ any holds_fatal errs || holds_fatal_opt e
unfolding Builder.add as_fatal
add-holds_fatal none errs = ground arith
add-holds_fatal (some (multi es)) errs =
    ground (arith, any-append holds_fatal errs (to_list es), to_list-holds_fatal es)
add-holds_fatal (some e) errs = ground (arith, any-append holds_fatal errs (e ∷ []))

pub add_all-holds_fatal :
    (es : List (Option Error)) (errs : List Error)
    → any holds_fatal (Builder.add_all es errs) ≡ any holds_fatal errs || any holds_fatal_opt es
unfolding Builder.add_all
add_all-holds_fatal [] errs = ground arith
add_all-holds_fatal (e ∷ es) errs =
    ground (arith, add_all-holds_fatal es (Builder.add e errs), add-holds_fatal e errs)
