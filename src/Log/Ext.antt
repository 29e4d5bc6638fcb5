-- ===== src/Log/Ext.antt =====
-- log/ext.go: `extLogger`, which takes the values to be printed out of the key-value list.
pub mod Pairs
pub mod Lines
pub mod Laws
use fuck.Base.{
  ℕ, zero, suc, ◌+◌, ◌-◌, ◌%◌, Bool, true, false, not, List, [], ◌∷◌, ◌++◌, Option, none, some,
  Bytes, codes, length, get_elem?, set, take, drop, ltb, leb, ◌==◌, same, if◌then◌else◌,
}
use fuck.Base.Monad.{◌>>=◌}
use fuck.Log.{Item, caller_name, with_print, nil, missing_value, text, stringer, other}

-- `writeln`: what is written
abbrev pub writeln : Bytes → Bytes
writeln v =
    if ltb 0 (length v)
    then (if same (drop (length v - 1) v) (codes "\n") then v else v ++ codes "\n")
    else []

-- the key-value list, the index of the first caller, the values to be printed
pub record Scan : Type 0 where
  pub keyvals : List Item
  pub caller_index : Option ℕ
  pub values : List Item

abbrev remove_pair : ℕ → List Item → List Item
remove_pair i keyvals = take i keyvals ++ drop (i + 2) keyvals

-- One round of the loop at the index `i`; `inl` goes on behind the pair, `inr` stays where it is.
step : ℕ → Item → Item → Scan → Bool × Scan
step i caller_name val s = elim s.caller_index [
  | none ↦ (true, record s { caller_index = some i })
  | some j ↦ (false, record s { keyvals = remove_pair i (set s.keyvals (j + 1) val) })
]
step i with_print val s =
    (false, record s { values = s.values ++ val ∷ []; keyvals = remove_pair i s.keyvals })
step i _ val s = (true, s)

-- `for i := 0; i < len(keyvals); { … }` in at most so many rounds; none for an index out of range or
-- for too few rounds
scan : ℕ → ℕ → Scan → Option Scan
unfolding step
scan zero i s = none
scan (suc fuel) i s = if leb (length s.keyvals) i then some s else do
  key ← get_elem? s.keyvals i
  val ← get_elem? s.keyvals (i + 1)
  let (on, s') = step i key val s
  scan fuel (if on then i + 2 else i) s'

abbrev pub printed : Item → Bytes
printed (text s) = writeln s
printed (stringer s) = writeln s
printed nil = []
printed (other s) = writeln s
printed caller_name = writeln (codes "caller")
printed with_print = writeln (codes "log.withPrint{}")
printed missing_value = writeln (codes "&errors.errorString{s:\"(MISSING)\"}")

-- the deferred function
abbrev pub print_all : List Item → Bytes
print_all [] = []
print_all (value ∷ values) = printed value ++ print_all values

abbrev pub completed : List Item → List Item
completed keyvals = if not (length keyvals % 2 == 0) then keyvals ++ missing_value ∷ [] else keyvals

-- `Log`: what the wrapped logger is given, and what is then written to the writer
unfoldable pub log : List Item → Option (List Item × Bytes)
unfolding scan
log keyvals = do
  s ←
      scan (suc (length keyvals)) 0
        (record { keyvals = completed keyvals; caller_index = none; values = [] })
  some (s.keyvals, print_all s.values)
