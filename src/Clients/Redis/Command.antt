-- ===== src/Clients/Redis/Command.antt =====
-- clients/redis/redis.go: the text of a command for the log.
use fuck.Base.{ℕ, Bool, List, [], ◌∷◌, ◌++◌, Option, none, some, Bytes, codes, if◌then◌else◌}
use fuck.Base.Int.{ℤ}
use fuck.Base.Text.{itoa, format_uint}

-- An argument of a command; a float is the text that `strconv.FormatFloat` makes of it, and
-- `marshaler` what `MarshalBinary` returns, a text or an error's text.
pub data Arg : Type 0 where
  nil : Arg
  string bytes float other : (s : Bytes) → Arg
  int : (n : ℤ) → Arg
  uint : (n : ℕ) → Arg
  bool : (b : Bool) → Arg
  marshaler : (result : Bytes) (err : Option Bytes) → Arg

-- `parseArg`: the text, or the text of an error; `other` has the name of its type
abbrev pub parse_arg : Arg → Bytes × Option Bytes
parse_arg nil = ([], none)
parse_arg (string s) = (s, none)
parse_arg (bytes s) = (s, none)
parse_arg (int n) = (itoa n, none)
parse_arg (uint n) = (format_uint n, none)
parse_arg (float s) = (s, none)
parse_arg (bool b) = (if b then codes "true" else codes "false", none)
parse_arg (marshaler result none) = (result, none)
parse_arg (marshaler result (some err)) = ([], some err)
parse_arg (other s) =
    ([], some (codes "redis: can't marshal " ++ s ++ codes " (implement encoding.BinaryMarshaler)"))

-- the text of an argument; `quote` is `json.Marshal` of a string
abbrev pub arg_text : (Bytes → Bytes) → Arg → Bytes
arg_text quote arg = elim (parse_arg arg).1 [
  | none ↦ (parse_arg arg).0
  | some err ↦ quote (codes "<" ++ err ++ codes ">")
]

-- the arguments behind the first one
abbrev pub string_from : (Bytes → Bytes) → List Arg → Bytes
string_from quote [] = []
string_from quote (arg ∷ args) = codes " " ++ arg_text quote arg ++ string_from quote args

-- `(Cmder) String`
unfoldable pub string_of : (Bytes → Bytes) → List Arg → Bytes
string_of quote [] = []
string_of quote (arg ∷ args) = arg_text quote arg ++ string_from quote args
