-- ===== src/Errors/Message.antt =====
-- errors/errors.go: what `WithMessage` keeps of an error.
use fuck.Base.{
  ℕ, ◌≡◌, refl, ap, ◌∙◌, Bool, true, false, not, ◌&&◌, ◌||◌, some, Bytes, arith, inl, inr,
  Option-cases, ◌==◌,
}
use fuck.Base.Int.{ℤ, pos, is_int}
use fuck.Errors.{
  Err, nil, fundamental, with_cause, error_wrapper, not_found_error, coded, joined, has_addr,
  as_wrapper, as_error, with_message_of, record_not_found, not_found, with_message, is_not_fount,
}
use fuck.Errors.Chain.{any_in, has_joined, is_missing, is_not_fount-any_in}

-- what `As` finds for `*errorWrapper` it finds for `Error` too
wrapper-error :
    (err : Err) (code : Bytes) (status : ℤ) (wrapped : Err)
    → has_joined err ≡ false
    → as_wrapper err ≡ some (code, status, wrapped)
    → (as_error err ≡ some (code, status)) × (has_joined wrapped ≡ false)
wrapper-error nil code status wrapped j w = absurd (ground (arith, w))
wrapper-error (fundamental addr msg) code status wrapped j w = absurd (ground (arith, w))
wrapper-error (with_cause addr msg cause) code status wrapped j w =
    wrapper-error cause code status wrapped j w
wrapper-error (error_wrapper addr c s err) code status wrapped j w = ground (arith, j, w)
wrapper-error (not_found_error addr name) code status wrapped j w = absurd (ground (arith, w))
wrapper-error (coded addr c s msg) code status wrapped j w = absurd (ground (arith, w))
wrapper-error (joined addr err rest) code status wrapped j w = absurd (ground (arith, j))

-- `WithMessage` keeps the code and the status that `As` finds for `Error`, in an error without joined
-- ones.
pub as_error-with_message :
    (addr inner : ℕ) (err : Err) (msg code : Bytes) (status : ℤ)
    → has_joined err ≡ false
    → as_error err ≡ some (code, status)
    → as_error (with_message addr inner err msg) ≡ some (code, status)
unfolding with_message
as_error-with_message addr inner err msg code status j h = elim (Option-cases (as_wrapper err)) [
  | inl no_one ↦ ground (arith, no_one, h)
  | inr ((code', status', wrapped), w) ↦
      ground (arith, w, h, wrapper-error err code' status' wrapped j w)
]

-- an address of one of the two known errors that belongs to another error
abbrev pub is_misplaced : Err → Bool
is_misplaced (fundamental addr _) = addr == not_found
is_misplaced (error_wrapper addr _ status _) =
    addr == record_not_found || addr == not_found && not (is_int status (pos 404))
is_misplaced err = has_addr not_found err || has_addr record_not_found err

message_missing :
    (inner : ℕ) (err : Err) (msg : Bytes)
    → any_in is_missing err ≡ true
    → any_in is_missing (with_message_of inner err msg) ≡ true
message_missing inner nil msg h = h
message_missing inner (fundamental addr m) msg h = ground (arith, h)
message_missing inner (with_cause addr m cause) msg h = ground (arith, h)
message_missing inner (error_wrapper addr c s err) msg h = ground (arith, h)
message_missing inner (not_found_error addr name) msg h = ground (arith, h)
message_missing inner (coded addr c s m) msg h = ground (arith, h)
message_missing inner (joined addr err rest) msg h = ground (arith, h)

message_joined :
    (inner : ℕ) (err : Err) (msg : Bytes)
    → has_joined (with_message_of inner err msg) ≡ has_joined err
message_joined inner nil msg = refl
message_joined inner (fundamental addr m) msg = refl
message_joined inner (with_cause addr m cause) msg = refl
message_joined inner (error_wrapper addr c s err) msg = refl
message_joined inner (not_found_error addr name) msg = refl
message_joined inner (coded addr c s m) msg = refl
message_joined inner (joined addr err rest) msg = refl

wrapper_missing :
    (err : Err) (code : Bytes) (status : ℤ) (wrapped : Err)
    → has_joined err ≡ false
    → any_in is_misplaced err ≡ false
    → as_wrapper err ≡ some (code, status, wrapped)
    → any_in is_missing err ≡ true
    → (is_int status (pos 404) || any_in is_missing wrapped) ≡ true
wrapper_missing nil code status wrapped j g w h = absurd (ground (arith, w))
wrapper_missing (fundamental addr msg) code status wrapped j g w h = absurd (ground (arith, w))
wrapper_missing (with_cause addr msg cause) code status wrapped j g w h =
    ground (arith, j, g, w, h, wrapper_missing cause code status wrapped)
wrapper_missing (error_wrapper addr c s err) code status wrapped j g w h = ground (arith, g, w, h)
wrapper_missing (not_found_error addr name) code status wrapped j g w h = absurd (ground (arith, w))
wrapper_missing (coded addr c s msg) code status wrapped j g w h = absurd (ground (arith, w))
wrapper_missing (joined addr err rest) code status wrapped j g w h = absurd (ground (arith, j))

missing-with_message :
    (addr inner : ℕ) (err : Err) (msg : Bytes)
    → has_joined err ≡ false
    → any_in is_misplaced err ≡ false
    → any_in is_missing err ≡ true
    → (any_in is_missing (with_message addr inner err msg) ≡ true)
      × (has_joined (with_message addr inner err msg) ≡ false)
unfolding with_message
missing-with_message addr inner err msg j g m = elim (Option-cases (as_wrapper err)) [
  | inl no_one ↦
      ground (arith, no_one, j, m, message_missing inner err msg m, message_joined inner err msg)
  | inr ((code, status, wrapped), w) ↦ ground (
    arith,
    w,
    m,
    wrapper-error err code status wrapped j w,
    wrapper_missing err code status wrapped j g w m,
    message_missing inner wrapped msg,
    message_joined inner wrapped msg,
  )
]

-- An error without joined ones for which `IsNotFount` is true still is one after `WithMessage`, if the
-- addresses of the known errors belong to no other errors.
pub is_not_fount-with_message :
    (addr inner : ℕ) (err : Err) (msg : Bytes)
    → has_joined err ≡ false
    → any_in is_misplaced err ≡ false
    → is_not_fount err ≡ some true
    → is_not_fount (with_message addr inner err msg) ≡ some true
is_not_fount-with_message addr inner err msg j g h =
    let m : any_in is_missing err ≡ true = ground (arith, is_not_fount-any_in err j, h) in
    let (kept, no_joins) = missing-with_message addr inner err msg j g m in
    is_not_fount-any_in (with_message addr inner err msg) no_joins ∙ ap some kept
