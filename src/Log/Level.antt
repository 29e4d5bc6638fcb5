-- ===== src/Log/Level.antt =====
-- log/config.go and log/dynamic.go: the names of levels and formats, and the logger whose level can
-- be changed.
use fuck.Base.{
  arith, ◌≡◌, refl, Bool, true, false, not, ◌||◌, List, [], ◌∷◌, ◌++◌, Option, none, some, Bytes,
  codes, length, same, ◌==◌, if◌then◌else◌,
}
use fuck.Base.Monad.{◌>>=◌}

-- the `Option` of the package level
pub data Allow : Type 0 where
  allow_debug allow_info allow_warn allow_error : Allow

-- An `AllowedLevel` is a text.
abbrev pub get_option : Bytes → Allow
get_option l =
    if same l (codes "debug")
    then allow_debug
    else if same l (codes "info")
    then allow_info
    else if same l (codes "warn")
    then allow_warn
    else if same l (codes "error")
    then allow_error
    else allow_warn

abbrev pub is_valid_level : Bytes → Bool
is_valid_level l =
    same l (codes "debug")
    || same l (codes "info")
    || same l (codes "warn")
    || same l (codes "error")

-- `(*AllowedLevel) Set`: the new value, none for an error. The default for an empty text is never
-- used, since the text is tested as it was given.
unfoldable pub set_level_text : Bytes → Option Bytes
set_level_text s =
    let lvl = s in
    let s' = if length s == 0 then codes "warn" else s in
    if is_valid_level lvl then some s' else none

-- the formats that are registered, each with what makes its logger
abbrev pub Registry : Type 0 → Type 0
Registry F = List (Bytes × F)

module _ {F : Type 0} where
  abbrev pub load : Bytes → Registry F → Option F
  load log_fmt [] = none
  load log_fmt (entry ∷ rest) = if same entry.0 log_fmt then some entry.1 else load log_fmt rest

  -- a registered format gets the new function, at its old place
  abbrev pub register_log_format : Bytes → F → Registry F → Registry F
  register_log_format log_fmt f [] = (log_fmt, f) ∷ []
  register_log_format log_fmt f (entry ∷ rest) =
      let later = register_log_format log_fmt f rest in
      if same entry.0 log_fmt then (entry.0, f) ∷ rest else entry ∷ later

  abbrev pub get_registered_log_formats : Registry F → List Bytes
  get_registered_log_formats [] = []
  get_registered_log_formats (entry ∷ rest) = entry.0 ∷ get_registered_log_formats rest

  abbrev pub is_valid_format : Registry F → Bytes → Bool
  is_valid_format formats log_fmt = elim (load log_fmt formats) [ none ↦ false | some f ↦ true ]

  -- `(*AllowedFormat) Set`
  abbrev pub set_format : Registry F → Bytes → Option Bytes
  set_format formats s = if is_valid_format formats s then some s else none

  -- `MustNewConfig`, with the level and the format of the configuration; none for a panic
  abbrev pub must_new_config : Registry F → Bytes → Bytes → Option (Bytes × Bytes)
  must_new_config formats level log_fmt = do
    l ← set_level_text level
    f ← set_format formats log_fmt
    some (l, f)

-- `logger`, whose `base` has logged the changes of the level, each from what to what; `leveled` is
-- the filter in front of it.
pub record Dynamic : Type 0 where
  pub changes : List (Bytes × Bytes)
  pub leveled : Option Allow
  pub current_level : Option Bytes

-- `SetLevel`; none for the panic on a nil pointer
unfoldable pub set_level : Option Bytes → Dynamic → Option Dynamic
set_level none l = none
set_level (some lvl) l =
    let changes : List (Bytes × Bytes) = elim l.current_level [
      | none ↦ l.changes
      | some prev ↦ if not (same prev lvl) then l.changes ++ (prev, lvl) ∷ [] else l.changes
    ] in
    some (record { changes = changes; leveled = some (get_option lvl); current_level = some lvl })

-- `newDynamic`, for the level of the configuration
unfoldable pub new_dynamic : Option Bytes → Option Dynamic
unfolding set_level
new_dynamic level =
    let lo : Dynamic = record { changes = []; leveled = none; current_level = none } in
    elim level [ none ↦ some lo | some lvl ↦ set_level (some lvl) lo ]

-- A text is refused unless it is the name of a level, the empty one too, and one that is taken is
-- kept as it is.
pub set_level_text_lem :
    (s : Bytes) → set_level_text s ≡ (if is_valid_level s then some s else none)
unfolding set_level_text
set_level_text_lem [] = refl
set_level_text_lem (c ∷ s) = let full : (length (c ∷ s) == 0) ≡ false = ground arith in rw full refl
