-- ===== src/Capacity/Print.antt =====
-- capacity/capacity.go: `fmtInt` and `(*Capacities).String`. `none` is an index out of range.
pub mod Render
pub mod Digits
use fuck.Base.{
  ℕ, zero, suc, ◌+◌, ◌-◌, ◌*◌, ◌/◌, ◌%◌, Bool, true, false, List, [], ◌∷◌, ◌++◌, Option, none, some,
  Bytes, codes, length, set, drop, replicate, ltb, ◌==◌, if◌then◌else◌,
}
use fuck.Base.Int.{ℤ}
use fuck.Base.Monad.{◌>>=◌}
use fuck.Base.Words.{to_uint64, neg_uint64, is_neg}

-- the buffer and the index `w` where the output begins
pub record Out : Type 0 where
  pub buf : Bytes
  pub w : ℕ

-- `w--; buf[w] = c`
pub put_byte : ℕ → Out → Option Out
put_byte c o = if o.w == 0 then none else some (record { buf = set o.buf (o.w - 1) c; w = o.w - 1 })

-- `for v > 0 { … }`; `v` rounds are enough, since `v / 10 < v`
pub fmt_loop : ℕ → ℕ → Out → Option Out
unfolding put_byte
fmt_loop zero v o = some o
fmt_loop (suc fuel) v o = elim (ltb 0 v) [
  | true ↦ put_byte (v % 10 + b'0') o >>= fmt_loop fuel (v / 10)
  | false ↦ some o
]

fmt_int : ℕ → Out → Option Out
unfolding fmt_loop put_byte
fmt_int v o = if v == 0 then put_byte b'0' o else fmt_loop v v o

-- `for idx, r := range unit { buf[w+idx] = byte(r) }`
pub write_at : Bytes → ℕ → Bytes → Bytes
write_at buf w [] = buf
write_at buf w (c ∷ cs) = write_at (set buf w c) (w + 1) cs

-- `w -= len(unit)` and the copy of the unit
put_unit : Bytes → Out → Option Out
unfolding write_at
put_unit unit o =
    let w = o.w - length unit in
    if ltb o.w (length unit) then none else some (record { buf = write_at o.buf w unit; w = w })

abbrev pub magic_unit : List Bytes
magic_unit = codes "B" ∷ codes "KB" ∷ codes "MB" ∷ codes "GB" ∷ codes "TB" ∷ []

-- one unit: its number in front of it, or nothing at all if the number is 0
print_unit : Bytes → ℕ → Out → Option Out
unfolding put_unit fmt_int
print_unit unit u o = do
  o' ← put_unit unit o
  (if ltb 0 (u % 1024) then fmt_int (u % 1024) o' else some (record o' { w = o'.w + length unit }))

print_units : List Bytes → ℕ → Out → Option Out
unfolding print_unit
print_units [] u o = some o
print_units (unit ∷ units) u o = elim (ltb 0 u) [
  | true ↦ print_unit unit u o >>= print_units units (u / 1024)
  | false ↦ some o
]

abbrev pub magnitude : ℤ → ℕ
magnitude c = if is_neg c then neg_uint64 (to_uint64 c) else to_uint64 c

-- `String` on a pointer, which may be nil
unfoldable pub string : Option ℤ → Option Bytes
unfolding print_units put_byte
string none = some []
string (some c) = do
  o ← print_units magic_unit (magnitude c) (record { buf = replicate 32 0; w = 32 })
  o' ← if is_neg c then put_byte b'-' o else some o
  some (drop o'.w o'.buf)
