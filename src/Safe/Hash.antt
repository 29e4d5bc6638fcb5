-- ===== src/Safe/Hash.antt =====
-- safe/hash.go: `Hash`, the bytes of a hash.
use fuck.Base.{
  ℕ, ◌+◌, ◌-◌, ◌/◌, ◌%◌, [], ◌∷◌, Option, none, some, Bytes, length, take, ltb, if◌then◌else◌,
}
use fuck.Base.Int.{ℤ, pos, negsuc}

abbrev hex_char : ℕ → ℕ
hex_char d = if ltb d 10 then b'0' + d else b'a' + (d - 10)

-- `hex.EncodeToString`
abbrev pub encode_to_string : Bytes → Bytes
encode_to_string [] = []
encode_to_string (b ∷ bs) = hex_char (b / 16) ∷ hex_char (b % 16) ∷ encode_to_string bs

-- `HexString`; none for the panic of a slice that ends below 0
unfoldable pub hex_string : Bytes → ℤ → Option Bytes
hex_string h (pos n) = let s = encode_to_string h in some (if ltb n (length s) then take n s else s)
hex_string h (negsuc n) = none

-- `NewHash`, for the sum of the hash function
abbrev pub new_hash : (Bytes → Bytes) → Bytes → Bytes
new_hash sum data_ = sum data_
