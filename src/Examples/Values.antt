-- ===== src/Examples/Values.antt =====
-- Tests: errors and contexts.
use svcinit.Common.{
  ◌≡◌, ◌≢◌, ◌↔◌, ◌||◌, not, all, refl, true, Option, none, some, List, [], ◌∷◌, any,
}
use svcinit.Errors.{Error, plain, wrapped, multi, nil, cons, is, is_opt, sentinel}
use svcinit.Errors.Builder
use svcinit.Errors.Flat.{is_flat, built_from_reports}
use svcinit.Examples.{broken}

abbrev errors : List (Option Error)
errors = none ∷ some broken ∷ some (multi (cons (plain 101) (cons broken nil))) ∷ []

built_from_reports_example :
    (is_opt 101 (Builder.build (Builder.add_all errors [])) ≡ any (is_opt 101) errors)
    × ((Builder.has_errors (Builder.add_all errors []) ≡ true)
        ↔ (Builder.build (Builder.add_all errors []) ≢ none))
    × (not (all is_flat errors) || is_flat (Builder.build (Builder.add_all errors [])) ≡ true)
built_from_reports_example = built_from_reports 101 errors

-- Three errors that are each found: two of them come out of the multi error.
built :
    Builder.build (Builder.add_all errors [])
    ≡ some (multi (cons broken (cons (plain 101) (cons broken nil))))
unfolding Builder.build Builder.add_all svcinit.Errors.to_list svcinit.Errors.of_list
built = refl
