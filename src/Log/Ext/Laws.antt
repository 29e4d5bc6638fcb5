-- ===== src/Log/Ext/Laws.antt =====
-- `extLogger` against a description of its work on pairs.
use fuck.Base.{
  ◌%◌, ◌==◌, ℕ, zero, suc, ◌+◌, ◌*◌, ◌≤◌, ◌<◌, ◌≡◌, refl, ap, ◌∙◌, true, false, List, [], ◌∷◌, ◌++◌,
  Option, none, some, Bytes, length, leb, arith, length-append, append_assoc, append-nil,
  if◌then◌else◌,
}
use fuck.Base.Monad.{◌>>=◌}
use fuck.Log.{Item, caller_name, with_print, missing_value}
use fuck.Log.Ext.{Scan, step, scan, print_all, completed, log}
use fuck.Log.Ext.Lines.{Writes, print_all-Writes}
use fuck.Log.Ext.Pairs.{
  Pairs, flat, prints, last_caller, others, tidy, length-flat, flat-append, at_key, at_val, removed,
  same_place, recalled,
}

-- the loop behind `ps`, with `rest` to come
abbrev scan_at : ℕ → Pairs → Pairs → Option ℕ → List Item → Option Scan
scan_at fuel ps rest c values =
    scan fuel (2 * length ps)
      (record { keyvals = flat ps ++ flat rest; caller_index = c; values = values })

-- one round on the pair behind `ps`
round :
    (fuel : ℕ) (ps : Pairs) (k v : Item) (rest : Pairs) (c : Option ℕ) (values : List Item)
    → let s : Scan = record {
      keyvals = flat ps ++ k ∷ v ∷ flat rest;
      caller_index = c;
      values = values;
    } in
      let next = step (2 * length ps) k v s in
      scan_at (suc fuel) ps ((k, v) ∷ rest) c values
      ≡ scan fuel (if next.0 then 2 * length ps + 2 else 2 * length ps) next.1
unfolding scan
round fuel ps k v rest c values =
    let inside : leb (length (flat ps ++ k ∷ v ∷ flat rest)) (2 * length ps) ≡ false =
      ground (arith, length-append (flat ps) (k ∷ v ∷ flat rest), length-flat ps) in
    rw (inside, at_key ps k v (flat rest), at_val ps k v (flat rest)) refl

at_end :
    (fuel : ℕ) (ps : Pairs) (c : Option ℕ) (values : List Item)
    → scan_at (suc fuel) ps [] c values
      ≡ some (record { keyvals = flat ps; caller_index = c; values = values })
unfolding scan
at_end fuel ps c values =
    let over : leb (length (flat ps)) (2 * length ps) ≡ true = ground (arith, length-flat ps) in
    rw (append-nil (flat ps), over) refl

-- the pair joins the ones that the loop has passed
passed :
    (fuel : ℕ) (ps : Pairs) (k v : Item) (rest : Pairs) (c : Option ℕ) (values : List Item)
    → scan fuel
        (2 * length ps + 2)
        (record { keyvals = flat ps ++ k ∷ v ∷ flat rest; caller_index = c; values = values })
      ≡ scan_at fuel (ps ++ (k, v) ∷ []) rest c values
passed fuel ps k v rest c values =
    let i : 2 * length (ps ++ (k, v) ∷ []) ≡ 2 * length ps + 2 =
      omega (arith, length-append ps ((k, v) ∷ [])) in
    let whole : flat (ps ++ (k, v) ∷ []) ++ flat rest ≡ flat ps ++ k ∷ v ∷ flat rest =
      rw (flat-append ps ((k, v) ∷ []), append_assoc (flat ps) (k ∷ v ∷ []) (flat rest)) refl in
    rw (i, whole) refl

-- the loop at the same place with another list
abbrev stay : ℕ → Pairs → Option ℕ → List Item → List Item → Option Scan
stay fuel ps c values keyvals =
    scan fuel (2 * length ps) (record { keyvals = keyvals; caller_index = c; values = values })

-- the loop behind its first caller
found :
    (fuel : ℕ) (b a : Pairs) (v : Item) (rest : Pairs) (values : List Item)
    → length rest < fuel
    → scan_at fuel (b ++ (caller_name, v) ∷ a) rest (some (2 * length b)) values
      ≡ some (record {
        keyvals = flat (b ++ (caller_name, last_caller v rest) ∷ (a ++ others rest));
        caller_index = some (2 * length b);
        values = values ++ prints rest;
      })
unfolding step
found zero b a v rest values h = absurd (omega arith)
found (suc fuel) b a v [] values h =
    at_end fuel (b ++ (caller_name, v) ∷ a) (some (2 * length b)) values
    ∙ rw (append-nil a, append-nil values) refl
found (suc fuel) b a v ((caller_name, w) ∷ rest) values h =
    round fuel (b ++ (caller_name, v) ∷ a) caller_name w rest (some (2 * length b)) values
    ∙ ap (stay fuel (b ++ (caller_name, v) ∷ a) (some (2 * length b)) values)
        (recalled b a v w caller_name w (flat rest))
    ∙ ap
        (λ i. scan fuel i (record {
          keyvals = flat (b ++ (caller_name, w) ∷ a) ++ flat rest;
          caller_index = some (2 * length b);
          values = values;
        }))
        (same_place b a v w)
    ∙ found fuel b a w rest values (omega arith)
found (suc fuel) b a v ((with_print, w) ∷ rest) values h =
    round fuel (b ++ (caller_name, v) ∷ a) with_print w rest (some (2 * length b)) values
    ∙ ap (stay fuel (b ++ (caller_name, v) ∷ a) (some (2 * length b)) (values ++ w ∷ []))
        (removed (b ++ (caller_name, v) ∷ a) with_print w (flat rest))
    ∙ found fuel b a v rest (values ++ w ∷ []) (omega arith)
    ∙ rw (append_assoc values (w ∷ []) (prints rest)) refl
found (suc fuel) b a v ((k, w) ∷ rest) values h =
    round fuel (b ++ (caller_name, v) ∷ a) k w rest (some (2 * length b)) values
    ∙ passed fuel (b ++ (caller_name, v) ∷ a) k w rest (some (2 * length b)) values
    ∙ rw (append_assoc b ((caller_name, v) ∷ a) ((k, w) ∷ [])) (
        found fuel b (a ++ (k, w) ∷ []) v rest values (omega arith)
        ∙ rw (append_assoc a ((k, w) ∷ []) (others rest)) refl)

-- the loop before it has met a caller
unfound :
    (fuel : ℕ) (ps rest : Pairs) (values : List Item)
    → length rest < fuel
    → (c : Option ℕ) × (scan_at fuel ps rest none values
        ≡ some (record {
          keyvals = flat (ps ++ tidy rest);
          caller_index = c;
          values = values ++ prints rest;
        }))
unfolding step
unfound zero ps rest values h = absurd (omega arith)
unfound (suc fuel) ps [] values h =
    (none, at_end fuel ps none values ∙ rw (append-nil ps, append-nil values) refl)
unfound (suc fuel) ps ((caller_name, w) ∷ rest) values h = (
  some (2 * length ps),
  round fuel ps caller_name w rest none values
      ∙ passed fuel ps caller_name w rest (some (2 * length ps)) values
      ∙ found fuel ps [] w rest values (omega arith),
)
unfound (suc fuel) ps ((with_print, w) ∷ rest) values h =
    let (c, e) = unfound fuel ps rest (values ++ w ∷ []) (omega arith) in
    (
      c,
      round fuel ps with_print w rest none values
          ∙ ap (stay fuel ps none (values ++ w ∷ [])) (removed ps with_print w (flat rest))
          ∙ e
          ∙ rw (append_assoc values (w ∷ []) (prints rest)) refl,
    )
unfound (suc fuel) ps ((k, w) ∷ rest) values h =
    let (c, e) = unfound fuel (ps ++ (k, w) ∷ []) rest values (omega arith) in
    (
      c,
      round fuel ps k w rest none values
          ∙ passed fuel ps k w rest none values
          ∙ e
          ∙ rw (append_assoc ps ((k, w) ∷ []) (tidy rest)) refl,
    )

abbrev logged : Pairs → Option (List Item × Bytes)
logged ps = some (flat (tidy ps), print_all (prints ps))

log-completed :
    (keyvals : List Item) (ps : Pairs)
    → completed keyvals ≡ flat ps
    → length ps ≤ length keyvals
    → log keyvals ≡ logged ps
unfolding log
log-completed keyvals ps whole h =
    let (c, e) = unfound (suc (length keyvals)) [] ps [] (omega arith) in
    ap
      (λ kv.
        scan (suc (length keyvals)) 0 (record { keyvals = kv; caller_index = none; values = [] })
        >>= λ s. some (s.keyvals, print_all s.values))
      whole
    ∙ rw e refl

completed-flat : (ps : Pairs) → completed (flat ps) ≡ flat ps
completed-flat ps =
    let even : (length (flat ps) % 2 == 0) ≡ true = ground (arith, length-flat ps) in rw even refl

completed_odd :
    (ps : Pairs) (key : Item)
    → completed (flat ps ++ key ∷ []) ≡ flat (ps ++ (key, missing_value) ∷ [])
completed_odd ps key =
    let odd : (length (flat ps ++ key ∷ []) % 2 == 0) ≡ false =
      ground (arith, length-flat ps, length-append (flat ps) (key ∷ [])) in
    rw
      (
        odd,
        append_assoc (flat ps) (key ∷ []) (missing_value ∷ []),
        flat-append ps ((key, missing_value) ∷ []),
      )
      refl

-- `Log` of `extLogger` never goes out of range: the wrapped logger gets the pairs without those to
-- be printed, the first caller with the value of the last one and no other caller, and the text of
-- each value to be printed is written, in their order, as a line: with a newline unless it ends in
-- one, and nothing for an empty text. A last key without a value has `log.ErrMissingValue`.
pub log-tidy :
    (ps : Pairs) (key : Item)
    → ((out : Bytes) × (log (flat ps) ≡ some (flat (tidy ps), out)) × Writes (prints ps) out)
      × ((out : Bytes) × (log (flat ps ++ key ∷ [])
            ≡ some (flat (tidy (ps ++ (key, missing_value) ∷ [])), out))
          × Writes (prints (ps ++ (key, missing_value) ∷ [])) out)
log-tidy ps key = (
  (
    print_all (prints ps),
    log-completed (flat ps) ps (completed-flat ps) (omega (arith, length-flat ps)),
    print_all-Writes (prints ps),
  ),
  (
    print_all (prints (ps ++ (key, missing_value) ∷ [])),
    log-completed (flat ps ++ key ∷ []) (ps ++ (key, missing_value) ∷ []) (completed_odd ps key) (
        omega (
          arith,
          length-flat ps,
          length-append (flat ps) (key ∷ []),
          length-append ps ((key, missing_value) ∷ []),
        )),
    print_all-Writes (prints (ps ++ (key, missing_value) ∷ [])),
  ),
)
