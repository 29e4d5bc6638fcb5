-- ===== src/Capacity/Codec/Json.antt =====
-- A capacity survives `MarshalJSON` and `UnmarshalJSON`; 0 does not.
use fuck.Base.{
  ℕ, suc, ◌+◌, ◌-◌, ◌<◌, ◌^◌, ◌≡◌, true, [], ◌∷◌, ◌++◌, none, some, Bytes, length, length-append,
  take, drop, take_prefix, drop_prefix, arith,
}
use fuck.Base.Int.{ℤ, pos_part, neg_part}
use fuck.Capacity.Parse.{ok, parse_capacities}
use fuck.Capacity.Parse.RoundTrip.{parse_capacities-string}
use fuck.Capacity.Codec.{assign, quoted, unmarshal_json, marshal_json}

module _ (scaled : ℕ → ℕ → ℕ → ℕ) where
  ne_nil : (c : ℤ) (s : Bytes) → parse_capacities scaled s ≡ ok c → 0 < length s
  unfolding parse_capacities
  ne_nil c [] e = absurd (cc)
  ne_nil c (x ∷ s) e = omega arith

  inner : (s : Bytes) → let b = b'"' ∷ (s ++ b'"' ∷ []) in take (length b - 2) (drop 1 b) ≡ s
  inner s =
      let e : suc (length (s ++ b'"' ∷ [])) - 2 ≡ length s =
        omega (arith, length-append s (b'"' ∷ [])) in
      rw e (take_prefix s (b'"' ∷ []))

  quoted_lem : (s : Bytes) → 0 < length s → quoted scaled (b'"' ∷ (s ++ b'"' ∷ [])) ≡ true
  unfolding quoted
  quoted_lem s h =
      let n : length (s ++ b'"' ∷ []) ≡ length s + 1 = length-append s (b'"' ∷ []) in
      let m : suc (length (s ++ b'"' ∷ [])) - 1 ≡ suc (length s) = omega arith in
      rw m (rw (drop_prefix s (b'"' ∷ [])) (ground arith))

  -- What `MarshalJSON` writes for a capacity other than 0, and of less than 1024 TB either way, is
  -- read back by `UnmarshalJSON` as that capacity, whatever was in the variable before.
  pub unmarshal_json-marshal_json :
      (c old : ℤ)
      → 0 < pos_part c + neg_part c
      → pos_part c + neg_part c < 2 ^ 50
      → (b : Bytes) × (marshal_json c ≡ some b)
        × (unmarshal_json scaled b old ≡ record { value = c; error = none })
  unfolding marshal_json unmarshal_json assign
  unmarshal_json-marshal_json c old h h' =
      let (s, printed, parsed) = parse_capacities-string scaled c h h' in
      (b'"' ∷ (s ++ b'"' ∷ []), rw printed, rw (quoted_lem s (ne_nil c s parsed), inner s, parsed))
