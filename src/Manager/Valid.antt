-- ===== src/Manager/Valid.antt =====
-- Which lists of stages a manager accepts.
use svcinit.Common.{
  ◌≡◌, refl, String, Bool, true, false, not, ◌&&◌, ◌||◌, List, [], ◌∷◌, arith, is_some, is_nil, any,
  str_eq, str_eq_iff,
}
use svcinit.Manager.{has_string, check_stages, init_stages}

abbrev pub is_blank : String → Bool
is_blank s = str_eq s ""

-- No string stands twice.
abbrev pub distinct_strings : List String → Bool
distinct_strings [] = true
distinct_strings (x ∷ xs) = not (has_string xs x) && distinct_strings xs

any-has_string-cons :
    (s : String) (seen ss : List String)
    → any (has_string (s ∷ seen)) ss ≡ has_string ss s || any (has_string seen) ss
any-has_string-cons s seen [] = refl
any-has_string-cons s seen (x ∷ xs) =
    ground (arith, any-has_string-cons s seen xs, str_eq_iff s x, str_eq_iff x s)

check_stages-seen :
    (seen ss : List String)
    → is_some (check_stages seen ss)
      ≡ any is_blank ss || (not (distinct_strings ss) || any (has_string seen) ss)
unfolding check_stages
check_stages-seen seen [] = refl
check_stages-seen seen (s ∷ ss) =
    ground (arith, check_stages-seen (s ∷ seen) ss, any-has_string-cons s seen ss)

any-has_string_nil : (ss : List String) → any (has_string []) ss ≡ false
any-has_string_nil [] = refl
any-has_string_nil (s ∷ ss) = any-has_string_nil ss

-- The manager's one pass over its stages rejects a list exactly when it is empty, or holds a blank
-- stage, or holds a stage twice.
pub init_stages_rejects :
    (ss : List String)
    → is_some (init_stages ss) ≡ is_nil ss || (any is_blank ss || not (distinct_strings ss))
unfolding init_stages
init_stages_rejects [] = refl
init_stages_rejects (s ∷ ss) =
    ground (arith, check_stages-seen [] (s ∷ ss), any-has_string_nil (s ∷ ss))
