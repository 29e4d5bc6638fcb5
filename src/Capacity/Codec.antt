-- ===== src/Capacity/Codec.antt =====
-- capacity/capacity.go and capacity/format.go: `Set`, and the JSON and YAML forms of a capacity.
pub mod Json
use fuck.Base.{
  same, ℕ, zero, suc, ◌+◌, ◌-◌, ◌*◌, ◌%◌, ◌^◌, Bool, true, false, not, ◌&&◌, ◌||◌, List, [], ◌∷◌,
  ◌++◌, Option, none, some, Bytes, codes, length, take, drop, get_elem?, ltb, leb, ◌==◌,
  if◌then◌else◌,
}
use fuck.Base.Int.{ℤ, pos, negsuc}
use fuck.Base.Monad.{◌>>=◌}
use fuck.Base.Words.{negated}
use fuck.Capacity.Parse.{Error, Result, ok, err, running, is_digit, parse_capacities}
use fuck.Capacity.Print.{string}

-- an `error` of `ParseCapacities` or of `strconv.ParseInt`
pub data CodecError : Type 0 where
  capacity : Error → CodecError
  bad_syntax out_of_range : CodecError

-- what a method leaves in `*c`, and the error that it returns
pub record Assigned : Type 0 where
  pub value : ℤ
  pub error : Option CodecError

-- `strconv.ParseUint` in base 10: the number, `range` past 64 bits, or `syntax`
pub data Uint : Type 0 where
  number : ℕ → Uint
  too_large not_digits : Uint

parse_uint : ℕ → Bytes → Uint
parse_uint n [] = number n
parse_uint n (c ∷ s) =
    let m = n * 10 + (c - b'0') in
    if not (is_digit c) then not_digits else if leb (2 ^ 64) m then too_large else parse_uint m s

-- `strconv.ParseInt(s, 10, 64)` behind the sign: a number that does not fit is cut to the bound
clip : Bool → Uint → Assigned
clip neg not_digits = record { value = pos 0; error = some bad_syntax }
clip true too_large = record { value = negsuc (2 ^ 63 - 1); error = some out_of_range }
clip false too_large = record { value = pos (2 ^ 63 - 1); error = some out_of_range }
clip true (number n) =
    if ltb (2 ^ 63) n
    then record { value = negsuc (2 ^ 63 - 1); error = some out_of_range }
    else record { value = negated n; error = none }
clip false (number n) =
    if leb (2 ^ 63) n
    then record { value = pos (2 ^ 63 - 1); error = some out_of_range }
    else record { value = pos n; error = none }

parse_digits : Bool → Bytes → Assigned
unfolding clip parse_uint
parse_digits neg [] = record { value = pos 0; error = some bad_syntax }
parse_digits neg (c ∷ s) = clip neg (parse_uint 0 (c ∷ s))

parse_int : Bytes → Assigned
unfolding parse_digits
parse_int [] = record { value = pos 0; error = some bad_syntax }
parse_int (c ∷ s) =
    if c == b'-' || c == b'+' then parse_digits (c == b'-') s else parse_digits false (c ∷ s)

-- `*c, err = ParseCapacities(s)`: on an error the value is 0. `ParseCapacities` always ends, so the
-- last case does not occur.
assign : ℤ → Result ℤ → Assigned
assign c (ok d) = record { value = d; error = none }
assign c (err e) = record { value = pos 0; error = some (capacity e) }
assign c running = record { value = c; error = none }

module _ (scaled : ℕ → ℕ → ℕ → ℕ) where
  unfoldable pub set_capacities : Bytes → ℤ → Assigned
  unfolding assign
  set_capacities s c = assign c (parse_capacities scaled s)

  -- a text in quotes with something between them
  quoted : Bytes → Bool
  quoted b =
      ltb 2 (length b) && same (take 1 b) (b'"' ∷ []) && same (drop (length b - 1) b) (b'"' ∷ [])

  unfoldable pub unmarshal_json : Bytes → ℤ → Assigned
  unfolding quoted assign parse_int
  unmarshal_json b c =
      if same b (codes "null")
      then record { value = c; error = none }
      else if quoted b
      then assign c (parse_capacities scaled (take (length b - 2) (drop 1 b)))
      else parse_int b

-- `MarshalJSON`; `none` is a fault of `String`
unfoldable pub marshal_json : ℤ → Option Bytes
marshal_json c = string (some c) >>= λ s. some (b'"' ∷ (s ++ b'"' ∷ []))
