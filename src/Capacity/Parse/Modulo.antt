-- ===== src/Capacity/Parse/Modulo.antt =====
-- capacity/format.go: beyond 1024 TB, `String` drops the multiples of 1024 TB.
use fuck.Base.{ℕ, ◌/◌, ◌%◌, ◌^◌, ◌≤◌, ◌≡◌, sym, ap, ◌∙◌, [], some, Bytes, codes, arith}
use fuck.Base.Int.{pos}
use fuck.Base.Words.{max_int64}
use fuck.Capacity.Print.{magic_unit, string}
use fuck.Capacity.Print.Render.{string-render}
use fuck.Capacity.Print.Digits.{term, render}

-- the numbers in front of the five units
abbrev five : ℕ → ℕ → ℕ → ℕ → ℕ → Bytes
five a b c d e =
    term (codes "TB") e
      (term (codes "GB") d (term (codes "MB") c (term (codes "KB") b (term (codes "B") a []))))

render_low : (u v : ℕ) → u % 2 ^ 50 ≡ v → render magic_unit u [] ≡ render magic_unit v []
render_low u v h =
    let e₁ : u % 1024 ≡ v % 1024 = omega arith in
    let e₂ : u / 1024 % 1024 ≡ v / 1024 % 1024 = omega arith in
    let e₃ : u / 1024 / 1024 % 1024 ≡ v / 1024 / 1024 % 1024 = omega arith in
    let e₄ : u / 1024 / 1024 / 1024 % 1024 ≡ v / 1024 / 1024 / 1024 % 1024 = omega arith in
    let e₅ : u / 1024 / 1024 / 1024 / 1024 % 1024 ≡ v / 1024 / 1024 / 1024 / 1024 % 1024 =
      omega arith in
    λ i. five (e₁ i) (e₂ i) (e₃ i) (e₄ i) (e₅ i)

-- Capacities that differ by a multiple of 1024 TB are printed alike: `String` writes no more than
-- the number of terabytes modulo 1024.
pub string-mod :
    (m n : ℕ)
    → m ≤ max_int64
    → n ≤ max_int64
    → m % 2 ^ 50 ≡ n % 2 ^ 50
    → string (some (pos m)) ≡ string (some (pos n))
string-mod m n h h' e =
    string-render (pos m)
    ∙ ap some (low m h ∙ ap spelled e ∙ sym (low n h'))
    ∙ sym (string-render (pos n))
  where
    spelled : ℕ → Bytes
    spelled r = render magic_unit r []

    low : (k : ℕ) → k ≤ max_int64 → render magic_unit (k % 2 ^ 64) [] ≡ spelled (k % 2 ^ 50)
    low k le = render_low (k % 2 ^ 64) (k % 2 ^ 50) (omega arith)
