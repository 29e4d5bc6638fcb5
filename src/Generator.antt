-- ===== src/Generator.antt =====
-- generator/uuid.go: ids that begin with the time. The random UUID of go.uuid is an argument, and so is
-- the clock, in microseconds as a uint64.
pub mod Laws
pub mod Tests
use fuck.Base.{
  ℕ, zero, suc, ◌+◌, ◌-◌, ◌*◌, ◌/◌, ◌%◌, Bool, true, false, List, [], ◌∷◌, ◌++◌, Bytes, length,
  take, drop, replicate, ltb, leb, if◌then◌else◌,
}

-- 2 ^ 64
abbrev pub word : ℕ
word = 18446744073709551616

abbrev pub mid_uint64 : ℕ
mid_uint64 = 9223372036854775808

-- `binary.BigEndian.Uint64`, with the number read so far
abbrev pub from_big_endian : ℕ → Bytes → ℕ
from_big_endian n [] = n
from_big_endian n (b ∷ bs) = from_big_endian (n * 256 + b) bs

abbrev pub uint64 : Bytes → ℕ
uint64 bs = from_big_endian 0 bs

-- `binary.BigEndian.PutUint64`, with the number of bytes
abbrev pub put_big_endian : ℕ → ℕ → Bytes
put_big_endian zero n = []
put_big_endian (suc k) n = put_big_endian k (n / 256) ++ n % 256 ∷ []

-- at most 8 bytes at the front of 8 zeros
abbrev pub padded : Bytes → Bytes
padded bs = take 8 (bs ++ replicate 8 0)

-- the loop over the bytes of one seed
abbrev pub hash_bytes : ℕ → Bytes → ℕ
hash_bytes hash (a ∷ b ∷ c ∷ d ∷ e ∷ f ∷ g ∷ h ∷ i ∷ rest) =
    hash_bytes ((hash + uint64 (a ∷ b ∷ c ∷ d ∷ e ∷ f ∷ g ∷ h ∷ [])) % word) (i ∷ rest)
hash_bytes hash [] = hash
hash_bytes hash bs = (hash + uint64 (padded bs)) % word

abbrev pub hash_seed : ℕ → List Bytes → ℕ
hash_seed hash [] = hash
hash_seed hash (s ∷ seed) = hash_seed (hash_bytes hash s) seed

abbrev pub halved : ℕ → ℕ
halved hash = if ltb mid_uint64 hash then hash - mid_uint64 else hash

-- the number in front of the id
abbrev pub stamp : ℕ → List Bytes → ℕ
stamp ts seed = if ltb ts mid_uint64 then (ts + halved (hash_seed 0 seed)) % word else ts

-- `NewUUID`
unfoldable pub new_uuid : ℕ → Bytes → List Bytes → Bytes
new_uuid ts id seed = put_big_endian 8 (stamp ts seed) ++ drop 8 id

-- `NewId`, for the text that the package trace makes of 16 bytes
unfoldable pub new_id : (Bytes → Bytes) → ℕ → Bytes → List Bytes → Bytes
unfolding new_uuid
new_id show ts id seed = show (new_uuid ts id seed)
