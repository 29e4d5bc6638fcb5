-- ===== src/Errors/Tests.antt =====
-- Runs of the package errors, and examples of the theorems.
use fuck.Base.{◌≡◌, refl, Bool, true, false, not, ◌||◌, [], ◌∷◌, some, codes}
use fuck.Base.Int.{pos}
use fuck.Errors.{
  Err, nil, fundamental, with_cause, not_found_error, error, as_error, with_message, with_status,
  is_not_fount, is_not_fount_in, join_errors, new_errors, append, has_error, errors_error,
}
use fuck.Wrapper.Slice.{filter}
use fuck.Errors.Chain.{is_not_fount_lem, is_missing, any_in, has_joined}

abbrev denied : Err
denied = with_status 10 11 (pos 403) (fundamental 12 (codes "denied")) (codes "read") []

-- an error around a `*errorWrapper`
abbrev around : Err
around = with_cause 13 (codes "outer") denied

texts :
    (error denied ≡ some (codes "read: denied"))
    × (error around ≡ some (codes "outer: read: denied"))
    × (as_error around ≡ some (codes "403", pos 403))
texts = (refl, refl, refl)

-- `WithMessage` drops the messages that stand around the wrapper
dropped_message : error (with_message 14 15 around (codes "top")) ≡ some (codes "top: read: denied")
unfolding with_message
dropped_message = refl

abbrev lost : Err
lost = with_cause 16 (codes "load") (not_found_error 17 (codes "user"))

multi :
    let m = append (append (append (new_errors (pos 500) (codes "all: ") []) denied) nil) lost in
    (has_error m ≡ true)
    × (errors_error m ≡ some (codes "all: read: denied,load: record not found: user"))
    × (has_error (new_errors (pos 500) [] []) ≡ false)
unfolding has_error filter errors_error
multi = (refl, refl, refl)

-- two wrappers, and `Join` of them in both orders
abbrev broken : Err
broken = with_status 18 19 (pos 500) (fundamental 20 (codes "broken")) [] []

abbrev missing : Err
missing = with_status 21 22 (pos 404) (fundamental 23 (codes "missing")) [] []

-- `IsNotFount` looks at the first wrapper only: the one with the status 404 is not seen behind another.
join_runs :
    (error (join_errors 24 (broken ∷ nil ∷ missing ∷ [])) ≡ some (codes "broken\nmissing"))
    × (is_not_fount (join_errors 24 (missing ∷ broken ∷ [])) ≡ some true)
    × (is_not_fount (join_errors 24 (broken ∷ missing ∷ [])) ≡ some false)
    × (is_not_fount (join_errors 24 (broken ∷ lost ∷ [])) ≡ some true)
unfolding is_not_fount is_not_fount_in
join_runs = (refl, refl, refl, refl)

is_not_fount_lem_example :
    (b : Bool) × (is_not_fount lost ≡ some b)
    × ((not b || any_in is_missing lost) ≡ true)
    × ((b || has_joined lost || not (any_in is_missing lost)) ≡ true)
is_not_fount_lem_example = is_not_fount_lem lost
