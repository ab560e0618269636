-- ===== src/Errors.antt =====
-- defs.go and util.go: error values, the multi-error builder, and what the program uses of the
-- standard package `errors`. A nil `error` is `none`.
pub mod Sentinel
pub mod Builder
pub mod Laws
pub mod Flat
pub mod Fatal
use svcinit.Common.{
  ℕ, String, Bool, true, false, ◌||◌, List, [], ◌∷◌, Option, none, some, ◌==◌, str_eq,
  if◌then◌else◌, ℤ,
}
use svcinit.Step.{Step, Arg, text, step}
use Sentinel

-- `plain` is a value of `errors.New`, known by its address; `wrapped` is one of `fmt.Errorf`, with
-- its format, the values it shows, and the errors it wraps by `%w`; `fatal`, `multi`,
-- `received_signal` and `timed_out` are the program's own error types; `joined` is one of
-- `errors.Join`.
mutual
  pub data Error : Type 0 where
    plain : (address : ℕ) → Error
    wrapped : (format : String) (args : List Arg) (causes : Errors) → Error
    fatal : Error → Error
    multi : Errors → Error
    joined : Errors → Error
    received_signal : (signal : ℕ) → Error
    timed_out : (timeout : ℤ) → Error

  pub data Errors : Type 0 where
    nil : Errors
    cons : Error → Errors → Errors

-- `[]error` as the list that an error value holds, and back.
unfoldable pub of_list : List Error → Errors
of_list [] = nil
of_list (e ∷ es) = cons e (of_list es)

unfoldable pub to_list : Errors → List Error
to_list nil = []
to_list (cons e es) = e ∷ to_list es

-- `errors.Is` for a sentinel: the error or one that it wraps is that value.
unfoldable mutual
  pub is : ℕ → Error → Bool
  is t (plain address) = address == t
  is t (wrapped format args causes) = is_any t causes
  is t (fatal e) = is t e
  is t (multi es) = is_any t es
  is t (joined es) = is_any t es
  is t (received_signal signal) = false
  is t (timed_out timeout) = false

  pub is_any : ℕ → Errors → Bool
  is_any t nil = false
  is_any t (cons e es) = is t e || is_any t es

abbrev pub or_else : Option Error → Option Error → Option Error
or_else (some e) o = some e
or_else none o = o

-- `errors.As` into a `fatalError`: the first one in depth-first order, as what it holds.
unfoldable mutual
  pub as_fatal : Error → Option Error
  as_fatal (plain address) = none
  as_fatal (wrapped format args causes) = as_fatal_any causes
  as_fatal (fatal e) = some e
  as_fatal (multi es) = as_fatal_any es
  as_fatal (joined es) = as_fatal_any es
  as_fatal (received_signal signal) = none
  as_fatal (timed_out timeout) = none

  pub as_fatal_any : Errors → Option Error
  as_fatal_any nil = none
  as_fatal_any (cons e es) = or_else (as_fatal e) (as_fatal_any es)

-- `errors.Is` and `errors.As` are false on nil.
abbrev pub is_opt : ℕ → Option Error → Bool
is_opt t none = false
is_opt t (some e) = is t e

abbrev pub as_fatal_opt : Option Error → Option Error
as_fatal_opt none = none
as_fatal_opt (some e) = as_fatal e

abbrev pub sentinel : ℕ → Errors
sentinel address = cons (plain address) nil

unfoldable pub new_invalid_stage : String → Error
new_invalid_stage stage =
    if str_eq stage ""
    then wrapped "%w: '' (blank)" [] (sentinel Sentinel.invalid_stage)
    else wrapped "%w: '%s'" (text stage ∷ []) (sentinel Sentinel.invalid_stage)

unfoldable pub new_invalid_task_step : Step → Error
new_invalid_task_step s = wrapped "%w: %s" (step s ∷ []) (sentinel Sentinel.invalid_task_step)

unfoldable pub new_initialization_error : Error → Error
new_initialization_error e = wrapped "%w: %w" [] (cons (plain Sentinel.initialization) (cons e nil))

-- Only the root error is unwrapped.
unfoldable pub unwrap_internal_errors : Option Error → Option Error
unwrap_internal_errors (some (fatal e)) = some e
unwrap_internal_errors err = err

unfoldable pub build_multi_errors : List Error → Option Error
build_multi_errors [] = none
build_multi_errors (e ∷ []) = some e
build_multi_errors errs = some (multi (of_list errs))

-- `buildJoinedErrors` of build.go.
unfoldable pub build_joined_errors : List Error → Option Error
build_joined_errors [] = none
build_joined_errors (e ∷ []) = some e
build_joined_errors errs = some (joined (of_list errs))
