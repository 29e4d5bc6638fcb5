-- ===== src/Capacity/Print/Render.antt =====
-- `String` writes what `render` spells: each unit with its number in front, the largest first.
use fuck.Base.{
  ℕ, ◌+◌, ◌-◌, ◌*◌, ◌/◌, ◌%◌, ◌≤◌, ◌≡◌, refl, sym, ap, ◌∙◌, List, [], ◌∷◌, ◌++◌, some, Bytes,
  length, drop-drop, drop_prefix, drop, replicate, ltb, if◌then◌else◌, arith, Bool-cases, inl, inr,
}
use fuck.Base.Text.{digits}
use fuck.Base.Int.{ℤ, pos, negsuc}
use fuck.Base.Words.{is_neg}
use fuck.Capacity.Print.{
  Out, fmt_int, write_at, put_unit, magic_unit, print_unit, print_units, magnitude, string,
}
use fuck.Capacity.Print.Digits.{
  All, Wrote, drop-write_at, fmt_loop-Wrote, put_byte-Wrote, render, render_zero, term, text,
  write_at-length,
}

print_unit-Wrote :
    (unit : Bytes) (u : ℕ) (o : Out)
    → length unit ≤ 2
    → 6 ≤ o.w
    → o.w ≤ length o.buf
    → (o' : Out) × (print_unit unit u o ≡ some o') × Wrote o o' (term unit (u % 1024) (text o)) 6
unfolding print_unit put_unit fmt_int
print_unit-Wrote unit u o le h h' =
    let n = length unit in
    let at = o.w - n in
    let e : at + n ≡ o.w = omega arith in
    let written = drop-write_at o.buf at unit (omega arith) ∙ ap (λ k. unit ++ drop k o.buf) e in
    elim (Bool-cases (ltb 0 (u % 1024))) [
      | inl go ↦
          let o₁ : Out = record {
            buf = write_at o.buf (o.w - length unit) unit;
            w = o.w - length unit;
          } in
          let (o₂, e₂, w₂) =
            fmt_loop-Wrote (u % 1024) 4 (u % 1024) o₁ (omega arith) (omega arith) (omega arith)
              (rw write_at-length (omega arith)) in
          (
            o₂,
            ground (arith, e₂),
            record {
              text_is = w₂.text_is ∙ ap (digits (u % 1024) (u % 1024)) written ∙ rw go;
              in_buf = w₂.in_buf;
              room = omega (arith, w₂.room);
            },
          )
      | inr stop ↦ (
        record {
          buf = write_at o.buf (o.w - length unit) unit;
          w = o.w - length unit + length unit;
        },
        ground arith,
        record {
          text_is =
              sym (drop-drop n at (write_at o.buf at unit))
              ∙ ap (drop n) written
              ∙ drop_prefix unit (text o)
              ∙ rw stop;
          in_buf = rw write_at-length (omega arith);
          room = omega arith;
        },
      )
    ]

-- units of at most two letters, with room for six bytes each
print_units-Wrote :
    (units : List Bytes) (u : ℕ) (o : Out)
    → All (λ unit. length unit ≤ 2) units
    → 6 * length units ≤ o.w
    → o.w ≤ length o.buf
    → (o' : Out) × (print_units units u o ≡ some o')
      × Wrote o o' (render units u (text o)) (6 * length units)
unfolding print_units
print_units-Wrote [] u o short h h' =
    (o, refl, record { text_is = refl; in_buf = h'; room = omega arith })
print_units-Wrote (unit ∷ units) u o (le, short) h h' = elim (Bool-cases (ltb 0 u)) [
  | inr stop ↦
      let z : u ≡ 0 = ground arith in
      rw (stop, print_units)
        (
          o,
          refl,
          record {
            text_is = rw z (sym (render_zero (unit ∷ units) (text o)));
            in_buf = h';
            room = omega arith;
          },
        )
  | inl go ↦
      let (o₁, e₁, w₁) = print_unit-Wrote unit u o le (omega arith) h' in
      let (o₂, e₂, w₂) =
        print_units-Wrote units (u / 1024) o₁ short (omega (arith, w₁.room)) w₁.in_buf in
      rw (go, print_units, e₁)
        (
          o₂,
          e₂,
          record {
            text_is = w₂.text_is ∙ ap (render units (u / 1024)) w₁.text_is;
            in_buf = w₂.in_buf;
            room = omega (arith, w₁.room, w₂.room);
          },
        )
]

abbrev blank : Out
blank = record { buf = replicate 32 0; w = 32 }

-- `String` never goes out of the bounds of its buffer: it writes a sign, then the magnitude.
pub string-render :
    (c : ℤ)
    → string (some c)
      ≡ some ((if is_neg c then b'-' ∷ [] else []) ++ render magic_unit (magnitude c) [])
unfolding string
string-render (pos n) =
    let (o₁, e₁, w₁) =
      print_units-Wrote magic_unit (magnitude (pos n)) blank (omega arith) (omega arith)
        (omega arith) in
    rw e₁ (ap some w₁.text_is)
string-render (negsuc n) =
    let (o₁, e₁, w₁) =
      print_units-Wrote magic_unit (magnitude (negsuc n)) blank (omega arith) (omega arith)
        (omega arith) in
    let (o₂, e₂, w₂) = put_byte-Wrote b'-' o₁ (omega (arith, w₁.room)) w₁.in_buf in
    rw (e₁, e₂) (ap some (w₂.text_is ∙ ap (◌∷◌ b'-') w₁.text_is))
