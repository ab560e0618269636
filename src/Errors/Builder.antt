-- ===== src/Errors/Builder.antt =====
-- util.go: multiErrorBuilder. Its state is `errs`, and each operation holds the mutex from start to
-- end.
use svcinit.Common.{Bool, not, List, [], ◌∷◌, ◌++◌, Option, none, some, is_nil}
use svcinit.Errors.{Error, multi, to_list, build_multi_errors}

unfoldable pub has_errors : List Error → Bool
has_errors errs = not (is_nil errs)

unfoldable pub add : Option Error → List Error → List Error
add none errs = errs
add (some (multi es)) errs = errs ++ to_list es
add (some e) errs = errs ++ e ∷ []

unfoldable pub build : List Error → Option Error
unfolding build_multi_errors
build errs = build_multi_errors errs

-- The errors of several tasks, in the order in which they are reported.
unfoldable pub add_all : List (Option Error) → List Error → List Error
unfolding add
add_all [] errs = errs
add_all (e ∷ es) errs = add_all es (add e errs)
