-- ===== src/Wrapper/Slice/OneOrMore.antt =====
-- wrapper/slice.go: `OneOrMore`, a list that is written as its value if it has just one. A list of
-- values stands for it; the decoders and encoders of JSON and YAML are parameters.
use fuck.Base.{ℕ, Bool, false, ◌||◌, List, [], ◌∷◌, Option, none, some, Bytes, ◌==◌, if◌then◌else◌}

-- encoding/json for a type and for the lists of it; `is_nil_interface` is true for the nil of an interface type
pub record Json (T : Type 0) : Type 0 where
  pub decode_all : Bytes → Option (List T)
  pub decode_one : Bytes → Option T
  pub encode_all : List T → Option Bytes
  pub encode_one : T → Option Bytes
  pub is_nil_interface : T → Bool

-- a node of YAML with what `Decode` makes of it
pub data YamlNode (T : Type 0) : Type 0 where
  sequence : (items : Option (List T)) → YamlNode T
  scalar : (value : Option T) → YamlNode T
  alias : (target : YamlNode T) → YamlNode T
  other_kind : YamlNode T

-- what is handed to the encoder of YAML
pub data Yaml (T : Type 0) : Type 0 where
  one : (value : T) → Yaml T
  all : (values : List T) → Yaml T

module _ {T : Type 0} where
  abbrev pub one_of : Option T → Option (List T)
  one_of none = none
  one_of (some c) = some (c ∷ [])

  abbrev pub marshal_yaml : List T → Yaml T
  marshal_yaml (c ∷ []) = one c
  marshal_yaml s = all s

  -- none for an error
  unfoldable pub unmarshal_yaml : YamlNode T → Option (List T)
  unmarshal_yaml (sequence items) = items
  unmarshal_yaml (scalar value) = one_of value
  unmarshal_yaml (alias target) = unmarshal_yaml target
  unmarshal_yaml other_kind = none

  -- `equal` is the method `Equal` of the type, if it has one, which decides at the first item
  unfoldable pub contains : Option (T → T → Bool) → (T → T → Bool) → List T → T → Bool
  contains equal same [] value = false
  contains (some equal) same (item ∷ s) value = equal value item
  contains none same (item ∷ s) value = same item value || contains none same s value

  module _ (json : Json T) where
    -- the first byte of a text of two bytes or more, 0 otherwise
    abbrev pub first_byte : Bytes → ℕ
    first_byte (b ∷ c ∷ data_) = b
    first_byte data_ = 0

    abbrev pub single : Option T → Option (List T)
    single none = none
    single (some v) = if json.is_nil_interface v then none else some (v ∷ [])

    -- none for an error
    unfoldable pub unmarshal_json : Bytes → Option (List T)
    unmarshal_json data_ =
        if first_byte data_ == b'[' then json.decode_all data_ else single (json.decode_one data_)

    unfoldable pub marshal_json : List T → Option Bytes
    marshal_json (c ∷ []) = json.encode_one c
    marshal_json s = json.encode_all s
