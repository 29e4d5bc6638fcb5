-- ===== src/Conv/Tests.antt =====
-- Runs and witnesses for conv, with a library that has no floats and whose strings have one quote.
use fuck.Base.{
  ℕ, ◌≡◌, ◌&&◌, refl, false, [], ◌∷◌, none, some, codes, same, ◌==◌, arith, if◌then◌else◌,
}
use fuck.Base.Decimal.{read_int}
use fuck.Base.Int.{pos, negsuc}
use fuck.Base.Text.{itoa}
use fuck.Conv.Time.{
  unix, unix_milli, milli, Library, from_timestamp_string, unmarshal_json, marshal_json,
}
use fuck.Conv.RoundTrip.{Documented, second_time, milli_time, reread, unmarshal_json_lem}

abbrev sample : Library ℕ
sample = record {
  parse_float = λ text. none;
  exceeds_1e12 = λ f. false;
  to_int = pos;
  from_seconds = λ f. unix (pos f);
  format_float = itoa;
  format_thousandths = itoa;
  read_string = λ raw. elim raw [ [] ↦ none | c ∷ s ↦ if c == b'"' then some s else none ];
  quote = λ text. b'"' ∷ text;
  marshal_time = λ t. none;
  parse_layout = λ layout text.
      if same layout (codes "2006-01-02") && same text (codes "1970-01-01")
      then some (unix (pos 0))
      else none;
  format_layout = λ layout t. codes "1970-01-01";
}

sample-Documented : Documented sample
unfolding read_int
sample-Documented = record {
  quoted_float = λ text. refl;
  quoted_int = λ text. refl;
  read-quote = λ z. refl;
  whole_float = λ n h. refl;
}

unmarshal_json_lem_example :
    (reread sample (second_time (codes "unix-timestamp") (negsuc 4))
      ≡ some (second_time (codes "unix-timestamp") (negsuc 4)))
    × (reread sample (second_time (codes "unix-timestamp-string") (negsuc 4))
        ≡ some (second_time (codes "unix-timestamp-string") (negsuc 4)))
    × (reread sample (milli_time (codes "unix-milli-timestamp") 1700000000123)
        ≡ some (milli_time (codes "unix-milli-timestamp") 1700000000123))
    × (reread sample (milli_time (codes "unix-milli-timestamp-string") 1700000000123)
        ≡ some (milli_time (codes "unix-milli-timestamp-string") 1700000000123))
unmarshal_json_lem_example =
    unmarshal_json_lem sample sample-Documented (negsuc 4) 1700000000123 refl refl (omega arith)
      (omega arith)

-- A time in 1970 that is written in milliseconds is read back as one of seconds.
early_milli :
    reread sample (milli_time (codes "unix-milli-timestamp") 5000)
    ≡ some (second_time (codes "unix-timestamp") (pos 5000))
unfolding marshal_json unmarshal_json from_timestamp_string read_int
early_milli = refl

before_1970 : unix_milli (negsuc 1499) ≡ record { sec = negsuc 1; nsec = 500000000 }
before_1970 = refl

milli_before_1970 : milli (unix_milli (negsuc 1499)) ≡ negsuc 1499
milli_before_1970 = refl

by_date :
    unmarshal_json sample (codes "\"1970-01-01")
    ≡ some (record { time = unix (pos 0); format = codes "2006-01-02" })
unfolding unmarshal_json from_timestamp_string read_int
by_date = refl
