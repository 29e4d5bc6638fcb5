-- ===== src/Errors.antt =====
-- errors/errors.go: errors that carry a code and a status, their wrapping, and the multi-error.
pub mod Chain
pub mod Message
pub mod Tests
use fuck.Base.{
  ℕ, zero, suc, ◌+◌, Bool, true, false, not, ◌||◌, List, [], ◌∷◌, ◌++◌, Option, none, some, Bytes,
  codes, length, ltb, leb, ◌==◌, if◌then◌else◌,
}
use fuck.Base.Int.{ℤ, pos, is_int}
use fuck.Base.Monad.{◌>>=◌}
use fuck.Base.Text.{itoa, join}
use fuck.Wrapper.Slice.{filter}

-- What an `error` may hold: nothing, an error of github.com/pkg/errors with or without a cause, a
-- `*errorWrapper`, a `*notFoundError`, or an implementation of `Error` that wraps nothing, such as
-- `*Errors`, by what its methods answer, or the errors of `Join`: the first one, and the others in a
-- `joined` again, up to a nil. `addr` is the pointer, by which errors are compared.
pub data Err : Type 0 where
  nil : Err
  fundamental : (addr : ℕ) (msg : Bytes) → Err
  with_cause : (addr : ℕ) (msg : Bytes) (cause : Err) → Err
  error_wrapper : (addr : ℕ) (code : Bytes) (status : ℤ) (err : Err) → Err
  not_found_error : (addr : ℕ) (name : Bytes) → Err
  coded : (addr : ℕ) (code : Bytes) (status : ℤ) (msg : Bytes) → Err
  joined : (addr : ℕ) (err rest : Err) → Err

abbrev pub is_nil : Err → Bool
is_nil nil = true
is_nil _ = false

-- `Join` drops what is nil, and is nil if nothing is left.
abbrev pub join_errors : ℕ → List Err → Err
join_errors addr [] = nil
join_errors addr (nil ∷ errs) = join_errors addr errs
join_errors addr (err ∷ errs) = joined addr err (join_errors addr errs)

-- `Error()`; none for a panic on a nil error
abbrev pub error : Err → Option Bytes
error nil = none
error (fundamental _ msg) = some msg
error (with_cause _ msg cause) = do text ← error cause; some (msg ++ codes ": " ++ text)
error (error_wrapper _ _ _ err) = error err
error (not_found_error _ name) = some (codes "record not found: " ++ name)
error (coded _ _ _ msg) = some msg
error (joined _ err nil) = error err
error (joined _ err rest) = do
  text ← error err
  texts ← error rest
  some (text ++ codes "\n" ++ texts)

-- The `Unwrap` of joined errors is another one.
abbrev pub unwrap : Err → Err
unwrap (with_cause _ _ cause) = cause
unwrap (error_wrapper _ _ _ err) = err
unwrap _ = nil

-- the number of errors in the chain, or in the tree of joined ones
abbrev pub depth : Err → ℕ
depth nil = 0
depth (with_cause _ _ cause) = suc (depth cause)
depth (error_wrapper _ _ _ err) = suc (depth err)
depth (joined _ err rest) = suc (depth err + depth rest)
depth _ = 1

abbrev pub has_addr : ℕ → Err → Bool
has_addr target nil = false
has_addr target (fundamental addr _) = addr == target
has_addr target (with_cause addr _ _) = addr == target
has_addr target (error_wrapper addr _ _ _) = addr == target
has_addr target (not_found_error addr _) = addr == target
has_addr target (coded addr _ _ _) = addr == target
has_addr target (joined addr _ _) = addr == target

-- `Is` for a target that is not nil, by its address
abbrev pub is : ℕ → Err → Bool
is target nil = false
is target (with_cause addr _ cause) = addr == target || is target cause
is target (error_wrapper addr _ _ err) = addr == target || is target err
is target (joined addr err rest) = addr == target || is target err || is target rest
is target err = has_addr target err

-- what is found first
abbrev pub first_of {ℓ} : {A : Type ℓ} → Option A → Option A → Option A
first_of none found = found
first_of (some a) found = some a

-- what `As` finds for `*errorWrapper`: its code, status and error
abbrev pub as_wrapper : Err → Option (Bytes × ℤ × Err)
as_wrapper (error_wrapper _ code status err) = some (code, status, err)
as_wrapper (with_cause _ _ cause) = as_wrapper cause
as_wrapper (joined _ err rest) = first_of (as_wrapper err) (as_wrapper rest)
as_wrapper _ = none

-- what `As` finds for `Error`: its code and status
abbrev pub as_error : Err → Option (Bytes × ℤ)
as_error (error_wrapper _ code status _) = some (code, status)
as_error (coded _ code status _) = some (code, status)
as_error (with_cause _ _ cause) = as_error cause
as_error (joined _ err rest) = first_of (as_error err) (as_error rest)
as_error _ = none

-- whether `As` finds a `*notFoundError`
abbrev pub as_not_found : Err → Bool
as_not_found (not_found_error _ _) = true
as_not_found (with_cause _ _ cause) = as_not_found cause
as_not_found (error_wrapper _ _ _ err) = as_not_found err
as_not_found (joined _ err rest) = as_not_found err || as_not_found rest
as_not_found _ = false

-- `WithMessage` of github.com/pkg/errors
abbrev pub with_message_of : ℕ → Err → Bytes → Err
with_message_of addr nil msg = nil
with_message_of addr err msg = with_cause addr msg err

-- `logger.ErrRecordNotFound` and `NotFoundError`, two errors with addresses of their own
abbrev pub record_not_found : ℕ
record_not_found = 0

abbrev pub not_found : ℕ
not_found = 1

-- `WithMessage`, with the addresses of the wrapper and of what is put inside
unfoldable pub with_message : ℕ → ℕ → Err → Bytes → Err
with_message addr inner err msg = elim (as_wrapper err) [
  | some (code, status, wrapped) ↦
      error_wrapper addr code status (with_message_of inner wrapped msg)
  | none ↦ elim (as_error err) [
    | some (code, status) ↦ error_wrapper addr code status (with_message_of inner err msg)
    | none ↦
        if is record_not_found err
        then error_wrapper addr (codes "404") (pos 404) (with_message_of inner err msg)
        else with_message_of inner err msg
  ]
]

-- the code: the first one given, or the status
abbrev pub code_of : List Bytes → ℤ → Bytes
code_of [] status = itoa status
code_of (c ∷ code) status = c

-- `With`
abbrev pub with_status : ℕ → ℕ → ℤ → Err → Bytes → List Bytes → Err
with_status addr inner status err msg code =
    error_wrapper addr (code_of code status) status
      (if not (length msg == 0) then with_message_of inner err msg else err)

abbrev pub new_error : ℕ → ℕ → ℤ → Bytes → List Bytes → Err
new_error addr inner status msg code =
    error_wrapper addr (code_of code status) status (fundamental inner msg)

abbrev pub new : ℕ → ℕ → Bytes → Err
new addr inner msg = new_error addr inner (pos 500) msg []

-- `IsNotFount`, in at most so many calls; none if there are more
unfoldable pub is_not_fount_in : ℕ → Err → Option Bool
is_not_fount_in zero err = none
is_not_fount_in (suc fuel) err =
    if is not_found err || is record_not_found err
    then some true
    else if as_not_found err
    then some true
    else elim (as_wrapper err) [
      | none ↦ some false
      | some (code, status, wrapped) ↦
          if is_int status (pos 404) then some true else is_not_fount_in fuel wrapped
    ]

-- one call for each error in it, and one for the end
unfoldable pub is_not_fount : Err → Option Bool
unfolding is_not_fount_in
is_not_fount err = is_not_fount_in (suc (depth err)) err

pub record Errors : Type 0 where
  pub errs : List Err
  pub code : Bytes
  pub status : ℤ
  pub prefix_ : Bytes

abbrev pub new_errors : ℤ → Bytes → List Bytes → Errors
new_errors status prefix_ code = record {
  errs = [];
  code = code_of code status;
  status = status;
  prefix_ = prefix_;
}

abbrev pub append : Errors → Err → Errors
append m err = if not (is_nil err) then record m { errs = m.errs ++ err ∷ [] } else m

unfoldable pub has_error : Errors → Bool
has_error m = ltb 0 (length (filter (λ err. not (is_nil err)) m.errs))

-- the texts of the errors
abbrev pub all_texts : List Err → Option (List Bytes)
all_texts [] = some []
all_texts (err ∷ errs) = do text ← error err; texts ← all_texts errs; some (text ∷ texts)

-- `(*Errors) Error()`
unfoldable pub errors_error : Errors → Option Bytes
errors_error m = elim m.errs [
  | [] ↦ some []
  | err ∷ [] ↦ error err
  | err ∷ err' ∷ errs ↦ do
    texts ← all_texts (err ∷ err' ∷ errs)
    some (m.prefix_ ++ join (codes ",") texts)
]
