-- ===== src/Wrapper/Queue/Ring.antt =====
-- Go's `container/ring`: nodes linked both ways. A node is a number, `used` the next free one.
use fuck.Base.{ℕ, zero, suc, ◌+◌, ◌-◌, Option, none, ◌==◌, if◌then◌else◌}

pub record Nodes {ℓ} (A : Type ℓ) : Type ℓ where
  pub next : ℕ → ℕ
  pub prev : ℕ → ℕ
  pub value : ℕ → Option A
  pub used : ℕ

-- `ring.New(n)`: a ring of nodes with no value
unfoldable pub new {ℓ} : (A : Type ℓ) → ℕ → Nodes A
new A n = record {
  next = λ i. if i + 1 == n then 0 else i + 1;
  prev = λ i. if i == 0 then n - 1 else i - 1;
  value = λ i. none;
  used = n;
}

abbrev pub update {ℓ} : {B : Type ℓ} → (ℕ → B) → ℕ → B → ℕ → B
update f i b j = if j == i then b else f j

module _ {ℓ} {A : Type ℓ} where
  -- `r.Move(i)` for `i` at least 0
  unfoldable pub move : Nodes A → ℕ → ℕ → ℕ
  move nodes r zero = r
  move nodes r (suc i) = nodes.next (move nodes r i)

  -- `ring.New(1)`: the new node is the old `used`
  unfoldable pub new_one : Nodes A → Nodes A
  new_one n = record {
    next = update n.next n.used n.used;
    prev = update n.prev n.used n.used;
    value = update n.value n.used none;
    used = n.used + 1;
  }

  -- `r.Link(s)`
  unfoldable pub link : Nodes A → ℕ → ℕ → Nodes A
  link ns r s =
      let n = ns.next r in
      let p = ns.prev s in
      record ns { next = update (update ns.next r s) p n; prev = update (update ns.prev s r) n p }
