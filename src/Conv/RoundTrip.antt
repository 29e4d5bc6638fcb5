-- ===== src/Conv/RoundTrip.antt =====
-- conv/time.go: what `UnmarshalJSON` reads of what `MarshalJSON` writes.
use fuck.Base.{
  ℕ, ◌+◌, ◌*◌, ◌/◌, ◌%◌, ◌<◌, ◌≡◌, refl, ap, ap₂, ◌∙◌, true, false, Option, none, some, Bytes,
  codes, arith,
}
use fuck.Base.Decimal.{read_int, is_int64, read_int-itoa}
use fuck.Base.Int.{ℤ, pos, ltb_ℤ}
use fuck.Base.Text.{itoa}
use fuck.Conv.Time.{
  Library, Time, from_timestamp_string, limit_1e12, marshal_json, milli, of_int, of_raw, of_text,
  unix, unix_milli, unmarshal_json, with_string,
}

-- what is read of what is written
abbrev pub reread : {F : Type 0} → Library F → Time → Option Time
reread lib t = elim (marshal_json lib t) [ none ↦ none | some raw ↦ unmarshal_json lib raw ]

-- What the standard library documents: a string of JSON is no float and no int and is read back, and a
-- whole float is printed like the integer.
pub record Documented {F : Type 0} (lib : Library F) : Type 0 where
  pub quoted_float : (text : Bytes) → lib.parse_float (lib.quote text) ≡ none
  pub quoted_int : (text : Bytes) → read_int (lib.quote text) ≡ none
  pub read-quote : (z : ℤ) → lib.read_string (lib.quote (itoa z)) ≡ some (itoa z)
  pub whole_float : (n : ℕ) → n < 9007199254740992 → lib.format_float (pos n) ≡ itoa (pos n)

abbrev pub second_time : Bytes → ℤ → Time
second_time format z = record { time = unix z; format = format }

abbrev pub milli_time : Bytes → ℕ → Time
milli_time format n = record { time = unix_milli (pos n); format = format }

milli-unix_milli : (n : ℕ) → milli (unix_milli (pos n)) ≡ pos n
milli-unix_milli n =
    let e : n / 1000 * 1000 + n % 1000 * 1000000 / 1000000 ≡ n = omega arith in ap pos e

of_early : (z : ℤ) → ltb_ℤ limit_1e12 z ≡ false → of_int z ≡ second_time (codes "unix-timestamp") z
of_early z h = rw h refl

of_late : (n : ℕ) → 1000000000000 < n → of_int (pos n) ≡ milli_time (codes "unix-milli-timestamp") n
of_late n h = let late : ltb_ℤ limit_1e12 (pos n) ≡ true = ground (arith, h) in rw late refl

module _ {F : Type 0} (lib : Library F) (documented : Documented lib) where
  -- what is read of a printed integer
  of_itoa : (z : ℤ) → is_int64 z ≡ true → from_timestamp_string lib (itoa z) ≡ some (of_int z)
  unfolding from_timestamp_string
  of_itoa z h = rw (from_timestamp_string, read_int-itoa z h) refl

  no_timestamp : (text : Bytes) → from_timestamp_string lib (lib.quote text) ≡ none
  unfolding from_timestamp_string
  no_timestamp text =
      rw (from_timestamp_string, documented.quoted_int text, documented.quoted_float text) refl

  of_quoted :
      (z : ℤ)
      → is_int64 z ≡ true
      → unmarshal_json lib (lib.quote (itoa z)) ≡ some (with_string (of_int z))
  unfolding unmarshal_json
  of_quoted z h =
      ap₂ (of_raw lib) (documented.read-quote z) (no_timestamp (itoa z))
      ∙ ap (of_text lib (itoa z)) (of_itoa z h)

  of_bare : (z : ℤ) → is_int64 z ≡ true → unmarshal_json lib (itoa z) ≡ some (of_int z)
  unfolding unmarshal_json
  of_bare z h = ap (of_raw lib (lib.read_string (itoa z))) (of_itoa z h)

  -- `UnmarshalJSON` reads back what `MarshalJSON` writes, with its form: a time of at most 10 ^ 12 whole
  -- seconds as a number of seconds, bare or in a string, and a time of more than 10 ^ 12 and less than
  -- 2 ^ 53 milliseconds as a number of milliseconds, bare or in a string, if the standard library keeps
  -- what it documents.
  pub unmarshal_json_lem :
      (z : ℤ) (n : ℕ)
      → is_int64 z ≡ true
      → ltb_ℤ limit_1e12 z ≡ false
      → 1000000000000 < n
      → n < 9007199254740992
      → (reread lib (second_time (codes "unix-timestamp") z)
          ≡ some (second_time (codes "unix-timestamp") z))
        × (reread lib (second_time (codes "unix-timestamp-string") z)
            ≡ some (second_time (codes "unix-timestamp-string") z))
        × (reread lib (milli_time (codes "unix-milli-timestamp") n)
            ≡ some (milli_time (codes "unix-milli-timestamp") n))
        × (reread lib (milli_time (codes "unix-milli-timestamp-string") n)
            ≡ some (milli_time (codes "unix-milli-timestamp-string") n))
  unfolding marshal_json
  unmarshal_json_lem z n h early late bound =
      let whole : is_int64 (pos n) ≡ true = ground (arith, bound) in
      let e = milli-unix_milli n in
      let float = ap lib.format_float e ∙ documented.whole_float n bound in
      (
        of_bare z h ∙ ap some (of_early z early),
        of_quoted z h ∙ ap (λ t. some (with_string t)) (of_early z early),
        ap (λ m. unmarshal_json lib (itoa m)) e ∙ of_bare (pos n) whole ∙ ap some (of_late n late),
        ap (λ text. unmarshal_json lib (lib.quote text)) float
            ∙ of_quoted (pos n) whole
            ∙ ap (λ t. some (with_string t)) (of_late n late),
      )
