-- ===== src/Wrapper/Values.antt =====
-- wrapper/func.go: small functions on values, pointers and errors. A pointer that may be nil is an
-- option, and so is an error.
use fuck.Base.{ℕ, Bool, not, List, [], ◌∷◌, Option, none, some, Bytes, length, ◌==◌, if◌then◌else◌}

module _ {ℓ} {A : Type ℓ} where
  -- `M`; none for a panic
  abbrev pub m {κ} : {E : Type κ} → A → Option E → Option A
  m v none = some v
  m v (some err) = none

  abbrev pub e {κ} : {E : Type κ} → A → Option E → Option E
  e v err = err

  abbrev pub p : A → Option A
  p o = some o

  abbrev pub default_pointer : List (Option A) → Option A
  default_pointer [] = none
  default_pointer (none ∷ vals) = default_pointer vals
  default_pointer (some val ∷ vals) = some val

  abbrev pub t : Bool → A → A → A
  t expr true_val false_val = if expr then true_val else false_val

abbrev pub default_string : List Bytes → Bytes
default_string [] = []
default_string (val ∷ vals) = if not (length val == 0) then val else default_string vals

abbrev pub default_number : List ℕ → ℕ
default_number [] = 0
default_number (val ∷ vals) = if not (val == 0) then val else default_number vals

-- `Pipe`: the first error, or what the function makes of the value; `zero_value` goes with an error
abbrev pub pipe {ℓ κ μ} :
    {S : Type ℓ} {D : Type κ} {E : Type μ} → D → S → Option E → (S → D × Option E) → D × Option E
pipe zero_value v (some err) f = (zero_value, some err)
pipe zero_value v none f = f v
