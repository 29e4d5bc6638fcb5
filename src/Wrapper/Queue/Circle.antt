-- ===== src/Wrapper/Queue/Circle.antt =====
-- A circle of nodes by index, and what the insertion and the removal of a node make of it.
pub mod Grow
pub mod Shrink
use fuck.Base.{
  ℕ, zero, suc, ◌+◌, ◌-◌, ◌≤◌, ◌<◌, ◌≡◌, refl, sym, ap, ◌∙◌, ◌≢◌, arith, ◌==◌, ltb, if◌then◌else◌,
  Bool, true, false, none, inl, inr, Bool-cases,
}
use fuck.Wrapper.Queue.Ring.{Nodes, update, link, new_one}

-- the index behind `i`
abbrev pub after : ℕ → ℕ → ℕ
after m i = if i + 1 == m then 0 else i + 1

-- `p 0`, …, `p (m - 1)` are different nodes, linked in a circle
pub record Circle {A : Type 0} (n : Nodes A) (m : ℕ) (p : ℕ → ℕ) : Type 0 where
  pub next_is : (i : ℕ) → i < m → n.next (p i) ≡ p (after m i)
  pub prev_is : (i : ℕ) → i < m → n.prev (p (after m i)) ≡ p i
  pub fresh : (i : ℕ) → i < m → p i < n.used
  pub distinct : (i j : ℕ) → i < m → j < m → p i ≡ p j → i ≡ j

-- `u` put in behind index `e`
abbrev pub grow : (ℕ → ℕ) → ℕ → ℕ → ℕ → ℕ
grow p e u i = if ltb e i then (if i == e + 1 then u else p (i - 1)) else p i

-- index `k` left out
abbrev pub shrink : (ℕ → ℕ) → ℕ → ℕ → ℕ
shrink p k i = if ltb i k then p i else p (i + 1)

-- where `i` stands: before `e`, at `e`, just behind it, or further on
pub data Place (e i : ℕ) : Type 0 where
  before : i < e → Place e i
  at : i ≡ e → Place e i
  behind : i ≡ e + 1 → Place e i
  beyond : e + 1 < i → Place e i

pub place_of : (e i : ℕ) → Place e i
place_of zero zero = at refl
place_of zero (suc zero) = behind refl
place_of zero (suc (suc i)) = beyond (omega arith)
place_of (suc e) zero = before (omega arith)
place_of (suc e) (suc i) = elim (place_of e i) [
  | before h ↦ before (omega arith)
  | at h ↦ at (omega arith)
  | behind h ↦ behind (omega arith)
  | beyond h ↦ beyond (omega arith)
]

pub after-lt : (m i : ℕ) → i < m → after m i < m
after-lt m i h = ground arith

pub after-injective : (m i j : ℕ) → i < m → j < m → after m i ≡ after m j → i ≡ j
after-injective m i j h h' e = ground arith
