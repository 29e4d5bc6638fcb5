-- ===== src/Clients/Storage/Laws.antt =====
-- The mode that a text of permissions stands for.
use fuck.Base.{
  ℕ, ◌+◌, ◌*◌, ◌≡◌, ◌≢◌, refl, ap, ◌∙◌, Bool, true, false, [], ◌∷◌, Bytes, codes, length, ◌==◌,
  arith, if◌then◌else◌,
}
use fuck.Clients.Storage.{permission_bits, raw_permissions_to_mode}

-- nine permissions, those of the owner first
pub record Permissions : Type 0 where
  pub owner_r : Bool
  pub owner_w : Bool
  pub owner_x : Bool
  pub group_r : Bool
  pub group_w : Bool
  pub group_x : Bool
  pub other_r : Bool
  pub other_w : Bool
  pub other_x : Bool

abbrev pub letter : ℕ → Bool → ℕ
letter c p = if p then c else b'-'

-- as `ls` shows them
abbrev pub shown : Permissions → Bytes
shown p =
    letter b'r' p.owner_r
    ∷ letter b'w' p.owner_w
    ∷ letter b'x' p.owner_x
    ∷ letter b'r' p.group_r
    ∷ letter b'w' p.group_w
    ∷ letter b'x' p.group_x
    ∷ letter b'r' p.other_r
    ∷ letter b'w' p.other_w
    ∷ letter b'x' p.other_x
    ∷ []

abbrev pub digit : Bool → Bool → Bool → ℕ
digit r w x = (if r then 4 else 0) + (if w then 2 else 0) + (if x then 1 else 0)

-- the octal number
abbrev pub octal : Permissions → ℕ
octal p =
    digit p.owner_r p.owner_w p.owner_x * 64
    + digit p.group_r p.group_w p.group_x * 8
    + digit p.other_r p.other_w p.other_x

triple :
    (r w x : Bool) (k : ℕ)
    → (if b'r' == letter b'r' r then 4 * k else 0)
        + ((if b'w' == letter b'w' w then 2 * k else 0) + (if b'x' == letter b'x' x then k else 0))
      ≡ digit r w x * k
triple true true true k = omega arith
triple true true false k = omega arith
triple true false true k = omega arith
triple true false false k = omega arith
triple false true true k = omega arith
triple false true false k = omega arith
triple false false true k = omega arith
triple false false false k = omega arith

permission_bits-shown :
    (p : Permissions) → permission_bits 0 (codes "rwxrwxrwx") (shown p) ≡ octal p
permission_bits-shown p =
    let owner = triple p.owner_r p.owner_w p.owner_x 64 in
    let group = triple p.group_r p.group_w p.group_x 8 in
    let other = triple p.other_r p.other_w p.other_x 1 in omega arith

zero_add : (n : ℕ) → 0 + n ≡ n
zero_add n = omega arith

-- `RawPermissionsToMode` of nine permissions as `ls` shows them, alone or behind a `-`, is their octal
-- number, behind a `d` it is that number and the bit of a directory, 2 ^ 31, and every text that has
-- not 9 or 10 characters is 0777.
pub raw_permissions_to_mode_lem :
    (p : Permissions) (raw : Bytes)
    → length raw ≢ 9
    → length raw ≢ 10
    → (raw_permissions_to_mode (shown p) ≡ octal p)
      × (raw_permissions_to_mode (b'-' ∷ shown p) ≡ octal p)
      × (raw_permissions_to_mode (b'd' ∷ shown p) ≡ 2147483648 + octal p)
      × (raw_permissions_to_mode raw ≡ 511)
unfolding raw_permissions_to_mode
raw_permissions_to_mode_lem p raw nine ten =
    let bits = permission_bits-shown p in
    let short : (length raw == 9) ≡ false = ground (arith, nine) in
    let odd : (length raw == 10) ≡ false = ground (arith, ten) in
    (
      ap (λ n. 0 + n) bits ∙ zero_add (octal p),
      ap (λ n. 0 + n) bits ∙ zero_add (octal p),
      ap (λ n. 2147483648 + n) bits,
      rw (raw_permissions_to_mode, short, odd) refl,
    )
