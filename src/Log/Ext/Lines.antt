-- ===== src/Log/Ext/Lines.antt =====
-- What `extLogger` writes of the values to be printed, as lines.
use fuck.Base.{
  ℕ, ◌-◌, ◌≡◌, ◌≢◌, refl, sym, ap, subst, inl, inr, true, false, List, [], ◌∷◌, ◌++◌, Bytes, codes,
  length, drop, ltb, same, ◌==◌, ==_iff, Bool-cases, arith, length-append, append_assoc,
}
use fuck.Log.{Item, caller_name, with_print, nil, missing_value, text, stringer, other}
use fuck.Log.Ext.{writeln, printed, print_all}

-- a text as a line: nothing for an empty one, and else the text with one newline at its end, which it
-- may have already
pub data IsLine : Bytes → Bytes → Type 0 where
  empty : IsLine [] []
  ended : (s : Bytes) → IsLine (s ++ codes "\n") (s ++ codes "\n")
  open_ : (s : Bytes) (c : ℕ) → c ≢ 10 → IsLine (s ++ c ∷ []) (s ++ c ∷ 10 ∷ [])

-- the text of a value
pub data IsText : Item → Bytes → Type 0 where
  of_string : (s : Bytes) → IsText (text s) s
  of_stringer : (s : Bytes) → IsText (stringer s) s
  of_other : (s : Bytes) → IsText (other s) s
  of_nil : IsText nil []
  of_caller : IsText caller_name (codes "caller")
  of_print : IsText with_print (codes "log.withPrint{}")
  of_missing : IsText missing_value (codes "&errors.errorString{s:\"(MISSING)\"}")

-- the lines of values, the first one first
pub data Writes : List Item → Bytes → Type 0 where
  nothing : Writes [] []
  then_ :
      {value : Item} {values : List Item} {s line out : Bytes}
      → IsText value s
      → IsLine s line
      → Writes values out
      → Writes (value ∷ values) (line ++ out)

snoc-cases : (x : ℕ) (s : Bytes) → (t : Bytes) × (c : ℕ) × (t ++ c ∷ [] ≡ x ∷ s)
snoc-cases x [] = ([], x, refl)
snoc-cases x (y ∷ s) = let (t, c, e) = snoc-cases y s in (x ∷ t, c, ap (◌∷◌ x) e)

drop-prefix : (t u : Bytes) → drop (length t) (t ++ u) ≡ u
drop-prefix [] u = refl
drop-prefix (x ∷ t) u = drop-prefix t u

last_byte : (t : Bytes) (c : ℕ) → drop (length (t ++ c ∷ []) - 1) (t ++ c ∷ []) ≡ c ∷ []
last_byte t c =
    let e : length (t ++ c ∷ []) - 1 ≡ length t = omega (arith, length-append t (c ∷ [])) in
    rw e (drop-prefix t (c ∷ []))

-- a text that is not empty
writeln-snoc : (t : Bytes) (c : ℕ) → IsLine (t ++ c ∷ []) (writeln (t ++ c ∷ []))
writeln-snoc t c =
    let some_ : ltb 0 (length (t ++ c ∷ [])) ≡ true = ground (arith, length-append t (c ∷ [])) in
    elim (Bool-cases (c == 10)) [
      | inl eq ↦
          let newline : same (c ∷ []) (codes "\n") ≡ true = ground (arith, eq) in
          let here : t ++ c ∷ [] ≡ t ++ codes "\n" = ap (λ d. t ++ d ∷ []) ((==_iff c 10).0 eq) in
          rw (some_, last_byte t c, newline) (subst (λ s. IsLine s s) (sym here) (ended t))
      | inr ne ↦
          let other_ : same (c ∷ []) (codes "\n") ≡ false = ground (arith, ne) in
          rw (some_, last_byte t c, other_, append_assoc t (c ∷ []) (codes "\n"))
            (open_ t c (λ e. ground (arith, ne, e)))
    ]

writeln-IsLine : (s : Bytes) → IsLine s (writeln s)
writeln-IsLine [] = empty
writeln-IsLine (x ∷ s) =
    let (t, c, e) = snoc-cases x s in subst (λ u. IsLine u (writeln u)) e (writeln-snoc t c)

printed_lem : (value : Item) → (s : Bytes) × IsText value s × IsLine s (printed value)
printed_lem (text s) = (s, of_string s, writeln-IsLine s)
printed_lem (stringer s) = (s, of_stringer s, writeln-IsLine s)
printed_lem (other s) = (s, of_other s, writeln-IsLine s)
printed_lem nil = ([], of_nil, empty)
printed_lem caller_name = (codes "caller", of_caller, writeln-IsLine (codes "caller"))
printed_lem with_print = (_, of_print, writeln-IsLine (codes "log.withPrint{}"))
printed_lem missing_value =
    (_, of_missing, writeln-IsLine (codes "&errors.errorString{s:\"(MISSING)\"}"))

pub print_all-Writes : (values : List Item) → Writes values (print_all values)
print_all-Writes [] = nothing
print_all-Writes (value ∷ values) =
    let (s, t, l) = printed_lem value in then_ {s = s} t l (print_all-Writes values)
