-- ===== src/Errors/Chain.antt =====
-- What the functions on errors say about the whole chain of an error.
use fuck.Base.{
  ℕ, zero, suc, ◌<◌, ◌≡◌, refl, Bool, true, false, not, ◌||◌, none, some, Bytes, arith, inl, inr,
  Bool-cases, Option-cases, ◌==◌,
}
use fuck.Base.Int.{ℤ, pos, is_int}
use fuck.Errors.{
  Err, nil, fundamental, with_cause, error_wrapper, not_found_error, coded, joined, depth, is,
  as_wrapper, as_not_found, record_not_found, not_found, is_not_fount_in, is_not_fount,
}

-- some error of the chain, or of the tree of joined ones, passes the test
abbrev pub any_in : (Err → Bool) → Err → Bool
any_in test nil = false
any_in test (with_cause addr msg cause) = test (with_cause addr msg cause) || any_in test cause
any_in test (error_wrapper addr code status err) =
    test (error_wrapper addr code status err) || any_in test err
any_in test (joined addr err rest) =
    test (joined addr err rest) || any_in test err || any_in test rest
any_in test err = test err

-- there are errors of `Join` in it
abbrev pub has_joined : Err → Bool
has_joined (with_cause _ _ cause) = has_joined cause
has_joined (error_wrapper _ _ _ err) = has_joined err
has_joined (joined _ _ _) = true
has_joined _ = false

-- the address of `NotFoundError` or `ErrRecordNotFound`
abbrev pub is_known : ℕ → Bool
is_known addr = addr == not_found || addr == record_not_found

abbrev pub is_missing : Err → Bool
is_missing nil = false
is_missing (fundamental addr _) = is_known addr
is_missing (with_cause addr _ _) = is_known addr
is_missing (error_wrapper addr _ status _) = is_known addr || is_int status (pos 404)
is_missing (not_found_error _ _) = true
is_missing (coded addr _ _ _) = is_known addr
is_missing (joined addr _ _) = is_known addr

-- an error that is found by none of the tests before the one for `*errorWrapper`
abbrev IsPlain : Err → Type 0
IsPlain err =
    (is not_found err ≡ false) × (is record_not_found err ≡ false) × (as_not_found err ≡ false)

early_missing :
    (err : Err)
    → (is not_found err || is record_not_found err || as_not_found err) ≡ true
    → any_in is_missing err ≡ true
early_missing nil h = absurd (ground (arith, h))
early_missing (fundamental addr msg) h = ground (arith, h)
early_missing (with_cause addr msg cause) h = ground (arith, h, early_missing cause)
early_missing (error_wrapper addr code status err) h = ground (arith, h, early_missing err)
early_missing (not_found_error addr name) h = refl
early_missing (coded addr code status msg) h = ground (arith, h)
early_missing (joined addr err rest) h = ground (arith, h, early_missing err, early_missing rest)

no_wrapper :
    (err : Err)
    → has_joined err ≡ false
    → IsPlain err
    → as_wrapper err ≡ none
    → any_in is_missing err ≡ false
no_wrapper nil j p w = refl
no_wrapper (fundamental addr msg) j p w = ground (arith, p)
no_wrapper (with_cause addr msg cause) j p w = ground (arith, j, p, no_wrapper cause)
no_wrapper (error_wrapper addr code status err) j p w = absurd (ground (arith, w))
no_wrapper (not_found_error addr name) j p w = absurd (ground (arith, p))
no_wrapper (coded addr code status msg) j p w = ground (arith, p)
no_wrapper (joined addr err rest) j p w = absurd (ground (arith, j))

at_wrapper :
    (err : Err) (code : Bytes) (status : ℤ) (wrapped : Err)
    → has_joined err ≡ false
    → IsPlain err
    → as_wrapper err ≡ some (code, status, wrapped)
    → (any_in is_missing err ≡ (is_int status (pos 404) || any_in is_missing wrapped))
      × (has_joined wrapped ≡ false)
at_wrapper nil code status wrapped j p w = absurd (ground (arith, w))
at_wrapper (fundamental addr msg) code status wrapped j p w = absurd (ground (arith, w))
at_wrapper (with_cause addr msg cause) code status wrapped j p w =
    ground (arith, j, p, w, at_wrapper cause code status wrapped)
at_wrapper (error_wrapper addr c s err) code status wrapped j p w = ground (arith, j, p, w)
at_wrapper (not_found_error addr name) code status wrapped j p w = absurd (ground (arith, w))
at_wrapper (coded addr c s msg) code status wrapped j p w = absurd (ground (arith, w))
at_wrapper (joined addr err rest) code status wrapped j p w = absurd (ground (arith, j))

-- the wrapper that `As` finds is one of the errors
wrapper_inside :
    (err : Err) (code : Bytes) (status : ℤ) (wrapped : Err)
    → as_wrapper err ≡ some (code, status, wrapped)
    → (depth wrapped < depth err)
      × ((not (is_int status (pos 404) || any_in is_missing wrapped) || any_in is_missing err)
          ≡ true)
wrapper_inside nil code status wrapped w = absurd (ground (arith, w))
wrapper_inside (fundamental addr msg) code status wrapped w = absurd (ground (arith, w))
wrapper_inside (with_cause addr msg cause) code status wrapped w =
    ground (arith, w, wrapper_inside cause code status wrapped)
wrapper_inside (error_wrapper addr c s err) code status wrapped w = ground (arith, w)
wrapper_inside (not_found_error addr name) code status wrapped w = absurd (ground (arith, w))
wrapper_inside (coded addr c s msg) code status wrapped w = absurd (ground (arith, w))
wrapper_inside (joined addr err rest) code status wrapped w = elim (Option-cases (as_wrapper err)) [
  | inl none_here ↦ ground (arith, none_here, w, wrapper_inside rest code status wrapped)
  | inr (found, at) ↦ ground (arith, at, w, wrapper_inside err code status wrapped)
]

-- `b` is what `IsNotFount` answers: it is right if it is true, and without joined errors in any case.
abbrev IsAnswer : Err → Bool → Type 0
IsAnswer err b =
    ((not b || any_in is_missing err) ≡ true)
    × ((b || has_joined err || not (any_in is_missing err)) ≡ true)

is_not_fount-IsAnswer :
    (fuel : ℕ) (err : Err)
    → depth err < fuel
    → (b : Bool) × (is_not_fount_in fuel err ≡ some b) × IsAnswer err b
unfolding is_not_fount_in
is_not_fount-IsAnswer zero err h = absurd (omega arith)
is_not_fount-IsAnswer (suc fuel) err h =
    elim (Bool-cases (is not_found err || is record_not_found err || as_not_found err)) [
      | inl early ↦ (true, ground (arith, early), ground (arith, early_missing err early))
      | inr late ↦
          let p : IsPlain err = ground (arith, late) in
          elim (Option-cases (as_wrapper err)) [
            | inl no_one ↦
                (false, ground (arith, p, no_one), ground (arith, no_wrapper err, p, no_one))
            | inr ((code, status, wrapped), w) ↦
                let (less, inside) = wrapper_inside err code status wrapped w in
                let (b, e, answer) = is_not_fount-IsAnswer fuel wrapped (omega arith) in
                (
                  is_int status (pos 404) || b,
                  ground (arith, p, w, e),
                  ground (arith, inside, answer, p, w, at_wrapper err code status wrapped),
                )
          ]
    ]

-- `IsNotFount` always ends. If it is true, then some error of the chain, or of the tree of joined
-- ones, is `NotFoundError` or `ErrRecordNotFound`, a `*notFoundError`, or a `*errorWrapper` with the
-- status 404. If it is false, then none is, unless there are joined errors in it.
pub is_not_fount_lem :
    (err : Err)
    → (b : Bool) × (is_not_fount err ≡ some b)
      × ((not b || any_in is_missing err) ≡ true)
      × ((b || has_joined err || not (any_in is_missing err)) ≡ true)
unfolding is_not_fount
is_not_fount_lem err =
    let (b, e, answer) = is_not_fount-IsAnswer (suc (depth err)) err (omega arith) in
    (b, e, answer.0, answer.1)

-- without joined errors
pub is_not_fount-any_in :
    (err : Err) → has_joined err ≡ false → is_not_fount err ≡ some (any_in is_missing err)
is_not_fount-any_in err j =
    let (b, e, sound, complete) = is_not_fount_lem err in ground (arith, j, e, sound, complete)
