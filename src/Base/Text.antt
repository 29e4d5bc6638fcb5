-- ===== src/Base/Text.antt =====
-- Functions of the packages strings and strconv on texts, which are lists of bytes.
use Prim.Native.Nat.{ℕ, zero, suc, ◌+◌, ◌-◌, ◌/◌, ◌%◌}
use mathlib.Core.Bool.{Bool, true, false, ◌&&◌, ◌||◌}
use mathlib.Core.List.{List, [], ◌∷◌, ◌++◌}
use mathlib.Core.Path.{◌≡◌, refl}
use native.Mathlib.Omega.{arith}
use fuck.Base.Lists.{Bytes, codes, length, take, drop, same, take_prefix, drop_prefix}
use fuck.Base.Tests.{ltb, leb, ◌==◌, if◌then◌else◌}
use fuck.Base.Int.{ℤ, pos, negsuc}

-- the decimal digits of `v` in front of `rest`, made in at most `fuel` steps
abbrev pub digits : ℕ → ℕ → Bytes → Bytes
digits zero v rest = rest
digits (suc fuel) v rest = elim (ltb 0 v) [
  | true ↦ digits fuel (v / 10) ((v % 10 + b'0') ∷ rest)
  | false ↦ rest
]

-- `strconv.FormatUint(n, 10)`; `n` steps are enough, since `v / 10 < v`
abbrev pub format_uint : ℕ → Bytes
format_uint n = if n == 0 then codes "0" else digits n n []

-- `strconv.Itoa`
abbrev pub itoa : ℤ → Bytes
itoa (pos n) = format_uint n
itoa (negsuc n) = b'-' ∷ format_uint (suc n)

-- `strings.Join`
abbrev pub join : Bytes → List Bytes → Bytes
join sep [] = []
join sep (s ∷ []) = s
join sep (s ∷ t ∷ ts) = s ++ sep ++ join sep (t ∷ ts)

abbrev pub has_prefix : Bytes → Bytes → Bool
has_prefix s prefix_ = same (take (length prefix_) s) prefix_

-- `strings.TrimPrefix(s, prefix)` and `strings.TrimSuffix(s, suffix)`
abbrev pub trim_prefix : Bytes → Bytes → Bytes
trim_prefix s prefix_ = if has_prefix s prefix_ then drop (length prefix_) s else s

abbrev pub has_suffix : Bytes → Bytes → Bool
has_suffix s suffix =
    leb (length suffix) (length s) && same (drop (length s - length suffix) s) suffix

abbrev pub trim_suffix : Bytes → Bytes → Bytes
trim_suffix s suffix = if has_suffix s suffix then take (length s - length suffix) s else s

-- `strings.Cut` at one byte: what stands before it and behind it, and whether it was found
abbrev pub cut_text : ℕ → Bytes → Bytes × Bytes × Bool
cut_text sep [] = ([], [], false)
cut_text sep (c ∷ s) =
    let rest = cut_text sep s in if c == sep then ([], s, true) else (c ∷ rest.0, rest.1, rest.2)

pub same_refl : (s : Bytes) → same s s ≡ true
same_refl [] = refl
same_refl (c ∷ s) = ground (arith, same_refl s)

-- what stands behind a prefix
pub trim_prefix-append : (s t : Bytes) → trim_prefix (s ++ t) s ≡ t
trim_prefix-append s t = rw (take_prefix s t, same_refl s, drop_prefix s t) refl

-- `same` decides equality
pub same→eq : (s t : Bytes) → same s t ≡ true → s ≡ t
same→eq [] [] h = refl
same→eq [] (d ∷ t) h = absurd (ground (arith, h))
same→eq (c ∷ s) [] h = absurd (ground (arith, h))
same→eq (c ∷ s) (d ∷ t) h = ground (arith, h, same→eq s t)

pub same-sym : (s t : Bytes) → same s t ≡ same t s
same-sym [] [] = refl
same-sym [] (d ∷ t) = refl
same-sym (c ∷ s) [] = refl
same-sym (c ∷ s) (d ∷ t) = ground (arith, same-sym s t)

abbrev pub has_byte : ℕ → Bytes → Bool
has_byte c [] = false
has_byte c (d ∷ s) = d == c || has_byte c s

-- the first byte of that kind is where the text is cut
pub cut_text-append :
    (sep : ℕ) (s t : Bytes) → has_byte sep s ≡ false → cut_text sep (s ++ sep ∷ t) ≡ (s, t, true)
cut_text-append sep [] t h = ground (arith)
cut_text-append sep (c ∷ s) t h =
    let other : (c == sep) ≡ false = ground (arith, h) in
    rw (other, cut_text-append sep s t (ground (arith, h))) refl

pub has_prefix-append : (s t : Bytes) → has_prefix (s ++ t) s ≡ true
has_prefix-append s t = rw (take_prefix s t) (same_refl s)

-- the bytes without those in front that are `c`
abbrev pub trim_left : ℕ → Bytes → Bytes
trim_left c [] = []
trim_left c (d ∷ s) = let rest = trim_left c s in if d == c then rest else d ∷ s

abbrev pub trim_right : ℕ → Bytes → Bytes
trim_right c [] = []
trim_right c (d ∷ s) =
    let rest = trim_right c s in
    elim rest [ [] ↦ if d == c then [] else d ∷ [] | e ∷ es ↦ d ∷ e ∷ es ]

-- `strings.Trim` of one byte
abbrev pub trim : ℕ → Bytes → Bytes
trim c s = trim_right c (trim_left c s)
