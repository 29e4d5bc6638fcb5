-- ===== src/Clients/Storage.antt =====
-- clients/storage/storage.go: the mode of a file, and the types of storage that are registered. A
-- backend is a value of the type `B`.
pub mod Path
pub mod Listing
pub mod S3
pub mod Oss
pub mod Fs
pub mod Backends
pub mod BackendTests
pub mod Laws
pub mod Tests
use fuck.Base.{
  ℕ, ◌+◌, ◌-◌, ◌^◌, Bool, true, false, not, List, [], ◌∷◌, Option, none, some, Bytes, codes, length,
  ◌==◌, same, if◌then◌else◌,
}

-- `for i, c := range str`; no letter occurs twice, so `|=` adds
abbrev pub type_bits : ℕ → ℕ → Bytes → ℕ
type_bits i first [] = 0
type_bits i first (c ∷ str) =
    (if first == c then 2 ^ (32 - 1 - i) else 0) + type_bits (i + 1) first str

-- `for i, ch := range permissions[1:]`, beside `rwx`
abbrev pub permission_bits : ℕ → Bytes → Bytes → ℕ
permission_bits i (r ∷ rwx) (ch ∷ permissions) =
    (if r == ch then 2 ^ (8 - i) else 0) + permission_bits (i + 1) rwx permissions
permission_bits i _ _ = 0

abbrev pub mode_of : Bytes → ℕ
mode_of [] = 0
mode_of (first ∷ permissions) =
    (if not (first == b'-') then type_bits 0 first (codes "dalTLDpSugct?") else 0)
    + permission_bits 0 (codes "rwxrwxrwx") permissions

abbrev pub with_type : Bytes → Bytes
with_type raw = if length raw == 9 then b'-' ∷ raw else raw

-- `RawPermissionsToMode`, for a text of ASCII
unfoldable pub raw_permissions_to_mode : Bytes → ℕ
raw_permissions_to_mode raw =
    if not (length (with_type raw) == 10) then 511 else mode_of (with_type raw)

module _ {B : Type 0} where
  -- `registeredStorage[storageType]`
  abbrev pub registered : Bytes → List (Bytes × B) → Option B
  registered storage_type [] = none
  registered storage_type (entry ∷ entries) =
      if same storage_type entry.0 then some entry.1 else registered storage_type entries

  -- none for a panic
  unfoldable pub register_storage : Bytes → B → List (Bytes × B) → Option (List (Bytes × B))
  register_storage storage_type new_func entries = elim (registered storage_type entries) [
    | some old ↦ none
    | none ↦ some ((storage_type, new_func) ∷ entries)
  ]

  -- `NewClient`: the function that makes the client; none for an error
  unfoldable pub new_client : Bytes → List (Bytes × B) → Option B
  new_client [] entries = none
  new_client (c ∷ storage_type) entries = registered (c ∷ storage_type) entries
