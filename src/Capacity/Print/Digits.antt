-- ===== src/Capacity/Print/Digits.antt =====
-- capacity/format.go: what `fmtInt` and the bytes of a unit write into the buffer.
use fuck.Base.{
  ℕ, zero, suc, ◌+◌, ◌-◌, ◌/◌, ◌%◌, ◌≤◌, ◌<◌, ◌≡◌, refl, ap, ◌∙◌, List, [], ◌∷◌, ◌++◌, some, Bytes,
  length, length-set, set, drop, ltb, if◌then◌else◌, arith, Bool-cases, inl, inr,
}
use fuck.Base.Text.{digits}
use fuck.Capacity.Print.{Out, put_byte, fmt_loop, write_at}

abbrev pub term : Bytes → ℕ → Bytes → Bytes
term unit v rest = if ltb 0 v then digits v v (unit ++ rest) else rest

abbrev pub render : List Bytes → ℕ → Bytes → Bytes
render [] u rest = rest
render (unit ∷ units) u rest = render units (u / 1024) (term unit (u % 1024) rest)

pub render_zero : (units : List Bytes) (rest : Bytes) → render units 0 rest ≡ rest
render_zero [] rest = refl
render_zero (unit ∷ units) rest = render_zero units rest

-- what the buffer holds from `w` on
abbrev pub text : Out → Bytes
text o = drop o.w o.buf

-- `o'` is `o` with at most `k` bytes more in front, spelling `t` from `w` on
pub record Wrote (o o' : Out) (t : Bytes) (k : ℕ) : Type 0 where
  pub text_is : text o' ≡ t
  pub in_buf : o'.w ≤ length o'.buf
  pub room : o.w ≤ o'.w + k

drop-set :
    (buf : Bytes) (w : ℕ) (c : ℕ) → w < length buf → drop w (set buf w c) ≡ c ∷ drop (suc w) buf
drop-set [] w c h = absurd (omega arith)
drop-set (x ∷ buf) zero c h = refl
drop-set (x ∷ buf) (suc w) c h = drop-set buf w c (omega arith)

pub put_byte-Wrote :
    (c : ℕ) (o : Out)
    → 0 < o.w
    → o.w ≤ length o.buf
    → (o' : Out) × (put_byte c o ≡ some o') × Wrote o o' (c ∷ text o) 1
unfolding put_byte
put_byte-Wrote c o h h' =
    let e : suc (o.w - 1) ≡ o.w = omega arith in
    (
      record { buf = set o.buf (o.w - 1) c; w = o.w - 1 },
      ground arith,
      record {
        text_is = drop-set o.buf (o.w - 1) c (omega arith) ∙ ap (λ k. c ∷ drop k o.buf) e;
        in_buf = rw length-set (omega arith);
        room = omega arith;
      },
    )

abbrev pub All {ℓ} : {A : Type ℓ} → (A → Type 0) → List A → Type 0
All P [] = Unit
All P (x ∷ xs) = P x × All P xs

-- `v` has at most `k` decimal digits
abbrev Below : ℕ → ℕ → Type 0
Below zero v = v ≡ 0
Below (suc k) v = Below k (v / 10)

pub fmt_loop-Wrote :
    (fuel k v : ℕ) (o : Out)
    → v ≤ fuel
    → Below k v
    → k ≤ o.w
    → o.w ≤ length o.buf
    → (o' : Out) × (fmt_loop fuel v o ≡ some o') × Wrote o o' (digits fuel v (text o)) k
unfolding fmt_loop
fmt_loop-Wrote zero k v o le b h h' =
    (o, refl, record { text_is = refl; in_buf = h'; room = omega arith })
fmt_loop-Wrote (suc fuel) zero v o le b h h' =
    rw b (o, refl, record { text_is = refl; in_buf = h'; room = omega arith })
fmt_loop-Wrote (suc fuel) (suc k) v o le b h h' = elim (Bool-cases (ltb 0 v)) [
  | inr stop ↦
      rw (stop, fmt_loop, digits)
        (o, refl, record { text_is = refl; in_buf = h'; room = omega arith })
  | inl go ↦
      let (o₁, e₁, w₁) = put_byte-Wrote (v % 10 + b'0') o (omega arith) h' in
      let (o₂, e₂, w₂) =
        fmt_loop-Wrote fuel k (v / 10) o₁ (ground arith) b (omega (arith, w₁.room)) w₁.in_buf in
      rw (go, fmt_loop, digits, e₁)
        (
          o₂,
          e₂,
          record {
            text_is = w₂.text_is ∙ ap (digits fuel (v / 10)) w₁.text_is;
            in_buf = w₂.in_buf;
            room = omega (arith, w₁.room, w₂.room);
          },
        )
]

pub write_at-length : (buf : Bytes) (w : ℕ) (cs : Bytes) → length (write_at buf w cs) ≡ length buf
unfolding write_at
write_at-length buf w [] = refl
write_at-length buf w (c ∷ cs) = write_at-length (set buf w c) (w + 1) cs ∙ length-set buf w c

write_at-suc :
    (x : ℕ) (buf : Bytes) (w : ℕ) (cs : Bytes)
    → write_at (x ∷ buf) (suc w) cs ≡ x ∷ write_at buf w cs
unfolding write_at
write_at-suc x buf w [] = refl
write_at-suc x buf w (c ∷ cs) =
    let e : suc w + 1 ≡ suc (w + 1) = omega arith in rw e (write_at-suc x (set buf w c) (w + 1) cs)

pub drop-write_at :
    (buf : Bytes) (w : ℕ) (cs : Bytes)
    → w + length cs ≤ length buf
    → drop w (write_at buf w cs) ≡ cs ++ drop (w + length cs) buf
unfolding write_at
drop-write_at buf w [] h = let e : w + 0 ≡ w = omega arith in rw e
drop-write_at [] w (c ∷ cs) h = absurd (omega arith)
drop-write_at (x ∷ buf) zero (c ∷ cs) h =
    let e : 0 + 1 ≡ 1 = omega arith in
    let e' : 0 + suc (length cs) ≡ suc (0 + length cs) = omega arith in
    rw (e, write_at-suc c buf 0 cs, e') (ap (◌∷◌ c) (drop-write_at buf 0 cs (omega arith)))
drop-write_at (x ∷ buf) (suc w) (c ∷ cs) h =
    let e : suc w + suc (length cs) ≡ suc (w + suc (length cs)) = omega arith in
    ap (drop (suc w)) (write_at-suc x buf w (c ∷ cs))
    ∙ rw e (drop-write_at buf w (c ∷ cs) (omega arith))
