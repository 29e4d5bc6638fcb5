-- ===== src/Capacity/Tests.antt =====
-- Runs of `String` and `ParseCapacities` on the inputs of capacity/format_test.go, with a stand-in
-- for the float arithmetic that is exact on them, and instances of the theorems.
use fuck.Base.{
  ℕ, ◌*◌, ◌/◌, ◌≡◌, refl, [], ◌∷◌, ◌++◌, none, some, Bytes, codes, arith, leb, if◌then◌else◌,
}
use fuck.Base.Int.{pos, negsuc}
use fuck.Base.Words.{max_int64}
use fuck.Capacity.Codec.{unmarshal_json, marshal_json, set_capacities, bad_syntax}
use fuck.Capacity.Codec.Json.{unmarshal_json-marshal_json}
use fuck.Capacity.Parse.{
  ok, err, overflow, bad_int, invalid_capacity, leading_int, parse_capacities, parse_terms,
  parse_term,
}
use fuck.Capacity.Parse.Digits.{value, leading_int_exact}
use fuck.Capacity.Parse.RoundTrip.{parse_capacities-string}
use fuck.Capacity.Parse.Total.{InRange, parse_capacities-InRange}
use fuck.Capacity.Print.{string, magic_unit, magnitude}
use fuck.Capacity.Print.Render.{string-render}
use fuck.Capacity.Print.Digits.{render}

-- `f * unit / scale` rounded down
abbrev exact : ℕ → ℕ → ℕ → ℕ
exact f scale unit = f * unit / scale

parse_runs :
    (parse_capacities exact (codes "3B") ≡ ok (pos 3))
    × (parse_capacities exact (codes "-3KB") ≡ ok (negsuc 3071))
    × (parse_capacities exact (codes "1.5MB") ≡ ok (pos 1572864))
    × (parse_capacities exact (codes "-1gb1M2.3MB5b") ≡ ok (negsuc 1077202128))
    × (parse_capacities exact (codes "10000000T10gb1M2.3MB5b")
        ≡ err (overflow (codes "10000000T10gb1M2.3MB5b")))
    × (parse_capacities exact (codes "9999999999999999999999999999999999999999999999.1T")
        ≡ err (bad_int (codes "9999999999999999999999999999999999999999999999.1T")))
    × (parse_capacities exact [] ≡ err (invalid_capacity []))
unfolding parse_capacities parse_terms parse_term leading_int
parse_runs = (refl, refl, refl, refl, refl, refl, refl)

string_runs :
    (string (some (pos 3)) ≡ some (codes "3B"))
    × (string (some (negsuc 3071)) ≡ some (codes "-3KB"))
    × (string (some (pos 1572864)) ≡ some (codes "1MB512KB"))
    × (string (some (negsuc 1077202128)) ≡ some (codes "-1GB3MB307KB209B"))
    × (string (some (pos 0)) ≡ some [])
unfolding string
string_runs = (refl, refl, refl, refl, refl)

-- 0 is written as an empty text in quotes, which is refused
zero_is_lost :
    (marshal_json (pos 0) ≡ some (codes "\"\""))
    × (unmarshal_json exact (codes "\"\"") (pos 7)
        ≡ record { value = pos 0; error = some bad_syntax })
unfolding marshal_json string unmarshal_json
zero_is_lost = (refl, refl)

set_runs : set_capacities exact (codes "2k") (pos 7) ≡ record { value = pos 2048; error = none }
unfolding set_capacities parse_capacities parse_terms parse_term leading_int
set_runs = refl

string-render_example :
    string (some (negsuc 3071)) ≡ some (b'-' ∷ [] ++ render magic_unit (magnitude (negsuc 3071)) [])
string-render_example = string-render (negsuc 3071)

leading_int_exact_example : leading_int 0 (codes "42" ++ codes "k") ≡ (
    if leb (value 0 (codes "42")) max_int64 then some (value 0 (codes "42"), codes "k") else none)
leading_int_exact_example =
    leading_int_exact (codes "42") (codes "k") 0 (omega arith) (refl, (refl, tt)) refl

parse_capacities-InRange_example : InRange exact (parse_capacities exact (codes "1.5MB"))
parse_capacities-InRange_example = parse_capacities-InRange exact (codes "1.5MB")

parse_capacities-string_example :
    (s : Bytes) × (string (some (negsuc 3071)) ≡ some s)
    × (parse_capacities exact s ≡ ok (negsuc 3071))
parse_capacities-string_example =
    parse_capacities-string exact (negsuc 3071) (omega arith) (omega arith)

unmarshal_json-marshal_json_example :
    (b : Bytes) × (marshal_json (pos 1536) ≡ some b)
    × (unmarshal_json exact b (pos 0) ≡ record { value = pos 1536; error = none })
unmarshal_json-marshal_json_example =
    unmarshal_json-marshal_json exact (pos 1536) (pos 0) (omega arith) (omega arith)
