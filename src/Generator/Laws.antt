-- ===== src/Generator/Laws.antt =====
-- The time in an id: the sum of the time and the seed does not wrap around.
use fuck.Base.{
  ℕ, zero, suc, ◌+◌, ◌*◌, ◌/◌, ◌%◌, ◌<◌, ◌≤◌, ◌≡◌, refl, ◌∙◌, true, List, [], ◌∷◌, ◌++◌, Bytes,
  take, ltb, arith,
}
use fuck.Generator.{
  word, mid_uint64, from_big_endian, uint64, put_big_endian, hash_bytes, hash_seed, halved, stamp,
  new_uuid,
}

from_big_endian-append :
    (n : ℕ) (bs : Bytes) (b : ℕ) → from_big_endian n (bs ++ b ∷ []) ≡ from_big_endian n bs * 256 + b
from_big_endian-append n [] b = refl
from_big_endian-append n (c ∷ bs) b = from_big_endian-append (n * 256 + c) bs b

abbrev power : ℕ → ℕ
power zero = 1
power (suc k) = power k * 256

from_big_endian-put : (k n : ℕ) → n < power k → from_big_endian 0 (put_big_endian k n) ≡ n
from_big_endian-put zero n h = omega arith
from_big_endian-put (suc k) n h =
    let rest = from_big_endian-put k (n / 256) (omega arith) in
    rw (from_big_endian-append 0 (put_big_endian k (n / 256)) (n % 256), rest) (omega arith)

hash_bytes_bound : (hash : ℕ) (s : Bytes) → hash < word → hash_bytes hash s < word
hash_bytes_bound hash [] h = h
hash_bytes_bound hash (a ∷ []) h = omega arith
hash_bytes_bound hash (a ∷ b ∷ []) h = omega arith
hash_bytes_bound hash (a ∷ b ∷ c ∷ []) h = omega arith
hash_bytes_bound hash (a ∷ b ∷ c ∷ d ∷ []) h = omega arith
hash_bytes_bound hash (a ∷ b ∷ c ∷ d ∷ e ∷ []) h = omega arith
hash_bytes_bound hash (a ∷ b ∷ c ∷ d ∷ e ∷ f ∷ []) h = omega arith
hash_bytes_bound hash (a ∷ b ∷ c ∷ d ∷ e ∷ f ∷ g ∷ []) h = omega arith
hash_bytes_bound hash (a ∷ b ∷ c ∷ d ∷ e ∷ f ∷ g ∷ k ∷ []) h = omega arith
hash_bytes_bound hash (a ∷ b ∷ c ∷ d ∷ e ∷ f ∷ g ∷ k ∷ i ∷ rest) h =
    hash_bytes_bound ((hash + uint64 (a ∷ b ∷ c ∷ d ∷ e ∷ f ∷ g ∷ k ∷ [])) % word) (i ∷ rest)
      (omega arith)

hash_seed_bound : (hash : ℕ) (seed : List Bytes) → hash < word → hash_seed hash seed < word
hash_seed_bound hash [] h = h
hash_seed_bound hash (s ∷ seed) h =
    hash_seed_bound (hash_bytes hash s) seed (hash_bytes_bound hash s h)

halved_bound : (hash : ℕ) → hash < word → halved hash ≤ mid_uint64
halved_bound hash h = ground (arith, h)

module _ (seed : List Bytes) where
  stamp_exact :
      (ts : ℕ)
      → ts < mid_uint64
      → (stamp ts seed ≡ ts + halved (hash_seed 0 seed)) × (stamp ts seed < word)
  stamp_exact ts h =
      let bound = halved_bound (hash_seed 0 seed) (hash_seed_bound 0 seed (omega arith)) in
      let early : ltb ts mid_uint64 ≡ true = ground (arith, h) in
      let sum : (ts + halved (hash_seed 0 seed)) % word ≡ ts + halved (hash_seed 0 seed) =
        omega arith in
      (rw early sum, rw early (omega arith))

  -- The first 8 bytes of an id are the time plus a number that depends on the seed only, and the sum
  -- does not wrap around, as long as the time is below 2 ^ 63.
  pub new_uuid_time :
      (ts : ℕ) (id : Bytes)
      → ts < mid_uint64
      → uint64 (take 8 (new_uuid ts id seed)) ≡ ts + halved (hash_seed 0 seed)
  unfolding new_uuid
  new_uuid_time ts id h =
      let (exact, bound) = stamp_exact ts h in from_big_endian-put 8 (stamp ts seed) bound ∙ exact

  -- Of two ids that are made of the same seed at different times below 2 ^ 63, the later one has the
  -- greater number in its first 8 bytes, whatever the random parts.
  pub new_uuid_order :
      (ts ts' : ℕ) (id id' : Bytes)
      → ts < ts'
      → ts' < mid_uint64
      → uint64 (take 8 (new_uuid ts id seed)) < uint64 (take 8 (new_uuid ts' id' seed))
  new_uuid_order ts ts' id id' before h =
      rw (new_uuid_time ts id (omega arith), new_uuid_time ts' id' h) (omega arith)
