-- ===== src/Conv/Time.antt =====
-- conv/time.go: `Time`, with its JSON forms.
use fuck.Base.{
  ℕ, ◌+◌, ◌-◌, ◌*◌, ◌/◌, ◌%◌, Bool, List, [], ◌∷◌, ◌++◌, Option, none, some, Bytes, codes, same,
  if◌then◌else◌,
}
use fuck.Base.Decimal.{read_int}
use fuck.Base.Int.{ℤ, pos, negsuc, ltb_ℤ}
use fuck.Base.Text.{itoa}

-- `time.Time`: the seconds since 1970, rounded down, and the nanoseconds behind them
pub record Instant : Type 0 where
  pub sec : ℤ
  pub nsec : ℕ

pub record Time : Type 0 where
  pub time : Instant
  pub format : Bytes

-- `time.Unix(ts, 0)`
abbrev pub unix : ℤ → Instant
unix ts = record { sec = ts; nsec = 0 }

abbrev pub unix_milli : ℤ → Instant
unix_milli (pos ms) = record { sec = pos (ms / 1000); nsec = ms % 1000 * 1000000 }
unix_milli (negsuc n) = record { sec = negsuc (n / 1000); nsec = (999 - n % 1000) * 1000000 }

-- `t.UnixMilli()`
abbrev pub milli : Instant → ℤ
milli t = elim t.sec [
  | pos s ↦ pos (s * 1000 + t.nsec / 1000000)
  | negsuc s ↦ negsuc ((s + 1) * 1000 - t.nsec / 1000000 - 1)
]

-- Floats, encoding/json and the layouts of package time. `read_string` is `json.Unmarshal` into a
-- string, `quote` and `marshal_time` are `json.Marshal`, `from_seconds` the time of a float of seconds.
pub record Library (F : Type 0) : Type 0 where
  pub parse_float : Bytes → Option F
  pub exceeds_1e12 : F → Bool
  pub to_int : F → ℤ
  pub from_seconds : F → Instant
  pub format_float : ℤ → Bytes
  pub format_thousandths : ℤ → Bytes
  pub read_string : Bytes → Option Bytes
  pub quote : Bytes → Bytes
  pub marshal_time : Instant → Option Bytes
  pub parse_layout : Bytes → Bytes → Option Instant
  pub format_layout : Bytes → Instant → Bytes

abbrev pub time_formats : List Bytes
time_formats =
    codes "2006-01-02 15:04:05"
    ∷ codes "2006-01-02T15:04:05Z07:00"
    ∷ codes "2006-01-02T15:04:05.999999999Z07:00"
    ∷ codes "2006-01-02"
    ∷ codes "01/02 03:04:05PM '06 -0700"
    ∷ codes "Mon Jan _2 15:04:05 2006"
    ∷ codes "Mon Jan _2 15:04:05 MST 2006"
    ∷ codes "Mon Jan 02 15:04:05 -0700 2006"
    ∷ codes "02 Jan 06 15:04 MST"
    ∷ codes "02 Jan 06 15:04 -0700"
    ∷ codes "Monday, 02-Jan-06 15:04:05 MST"
    ∷ codes "Mon, 02 Jan 2006 15:04:05 MST"
    ∷ codes "Mon, 02 Jan 2006 15:04:05 -0700"
    ∷ codes "2006-01-02T15:04:05.999999999Z0700"
    ∷ []

abbrev pub limit_1e12 : ℤ
limit_1e12 = pos 1000000000000

-- an integer: milliseconds above 1e12, seconds otherwise
abbrev pub of_int : ℤ → Time
of_int ts =
    if ltb_ℤ limit_1e12 ts
    then record { time = unix_milli ts; format = codes "unix-milli-timestamp" }
    else record { time = unix ts; format = codes "unix-timestamp" }

abbrev pub with_string : Time → Time
with_string t = record t { format = t.format ++ codes "-string" }

module _ {F : Type 0} (lib : Library F) where
  abbrev pub of_float : F → Time
  of_float ts =
      if lib.exceeds_1e12 ts
      then record { time = unix_milli (lib.to_int ts); format = codes "float-unix-milli-timestamp" }
      else record { time = lib.from_seconds ts; format = codes "float-unix-timestamp" }

  -- `fromTimestampStrng`; none for false
  unfoldable pub from_timestamp_string : Bytes → Option Time
  from_timestamp_string raw = elim (read_int raw) [
    | some ts ↦ some (of_int ts)
    | none ↦ elim (lib.parse_float raw) [ some ts ↦ some (of_float ts) | none ↦ none ]
  ]

  -- the first layout that fits; none for an error
  abbrev pub by_layout : List Bytes → Bytes → Option Time
  by_layout [] text = none
  by_layout (layout ∷ layouts) text = elim (lib.parse_layout layout text) [
    | some t ↦ some (record { time = t; format = layout })
    | none ↦ by_layout layouts text
  ]

  -- the text of a JSON string
  abbrev pub of_text : Bytes → Option Time → Option Time
  of_text text (some t) = some (with_string t)
  of_text text none = by_layout time_formats text

  abbrev pub of_raw : Option Bytes → Option Time → Option Time
  of_raw text (some t) = some t
  of_raw none none = none
  of_raw (some text) none = of_text text (from_timestamp_string text)

  -- `UnmarshalJSON`; none for an error
  unfoldable pub unmarshal_json : Bytes → Option Time
  unfolding from_timestamp_string
  unmarshal_json raw = of_raw (lib.read_string raw) (from_timestamp_string raw)

  -- `MarshalJSON`; none for an error
  unfoldable pub marshal_json : Time → Option Bytes
  marshal_json t =
      if same t.format []
      then lib.marshal_time t.time
      else if same t.format (codes "unix-timestamp")
      then some (itoa t.time.sec)
      else if same t.format (codes "unix-timestamp-string")
      then some (lib.quote (itoa t.time.sec))
      else if same t.format (codes "unix-milli-timestamp")
      then some (itoa (milli t.time))
      else if same t.format (codes "float-unix-milli-timestamp-string")
      then some (lib.quote (lib.format_float (milli t.time)))
      else if same t.format (codes "float-unix-timestamp")
      then some (lib.format_thousandths (milli t.time))
      else if same t.format (codes "float-unix-timestamp-string")
      then some (lib.quote (lib.format_thousandths (milli t.time)))
      else if same t.format (codes "float-unix-milli-timestamp")
      then some (lib.format_float (milli t.time))
      else if same t.format (codes "unix-milli-timestamp-string")
      then some (lib.quote (lib.format_float (milli t.time)))
      else some (lib.quote (lib.format_layout t.format t.time))
