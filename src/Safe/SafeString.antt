-- ===== src/Safe/SafeString.antt =====
-- safe/string.go: `String`, a text that is kept encrypted if there is a secret, its own or that of
-- the environment variable `GLOBAL_ENCRYPT_KEY`.
pub mod Laws
pub mod Tests
use fuck.Base.{
  ℕ, ◌+◌, Bool, true, false, not, ◌&&◌, List, [], ◌∷◌, Option, none, some, Bytes, length, take,
  same, if◌then◌else◌,
}
use fuck.Crypto.Outcome.{Outcome, ok, failed, panicked, ◌>>=◌}
use fuck.Safe.Encrypt.{encrypt, decrypt}
use fuck.Safe.Options.{CryptError, Libraries, ciphertext_prefix}

-- the type `String`
pub record SafeString : Type 0 where
  pub value : Bytes
  pub secret : Bytes

-- `strings.HasPrefix(value, ciphertextPrefix)`
abbrev pub has_prefix : Bytes → Bool
has_prefix value = same ciphertext_prefix (take (length ciphertext_prefix) value)

abbrev pub is_empty : Bytes → Bool
is_empty [] = true
is_empty (x ∷ xs) = false

-- `env` is `os.Getenv(SecretEnvName)`
module _ (env : Bytes) where
  abbrev pub get_secret : SafeString → Bytes
  get_secret e = if not (is_empty e.secret) then e.secret else env

  module _ (lib : Libraries) (random : ℕ → Option Bytes) where
    -- `Encrypt([]byte(value), secret, nil)`
    abbrev pub sealed : Bytes → Bytes → Outcome CryptError Bytes
    sealed value secret = (encrypt lib random value secret none).0

    -- what an assignment `e.value, err = Encrypt(…)` leaves, and the error
    pub assigned : SafeString → Outcome CryptError Bytes → Outcome CryptError Bytes × SafeString
    assigned e (ok value) = (ok value, record e { value = value })
    assigned e (failed err) = (failed err, record e { value = [] })
    assigned e panicked = (panicked, e)

    -- `SetValue`
    unfoldable pub set_value : Bytes → SafeString → Outcome CryptError Bytes × SafeString
    unfolding assigned
    set_value value e =
        let secret = get_secret e in
        if not (has_prefix value) && not (is_empty secret) && not (is_empty value)
        then assigned (record e { secret = secret }) (sealed value secret)
        else (ok value, record e { value = value })

    -- `e.secret = secret` unless there is an error
    remember : Bytes → Outcome CryptError Bytes × SafeString → Outcome CryptError Bytes × SafeString
    remember secret (ok value, e) = (ok value, record e { secret = secret })
    remember secret (failed err, e) = (failed err, e)
    remember secret (panicked, e) = (panicked, e)

    -- `UnmarshalJSON` and `UnmarshalYAML` behind the decoding of the text: an empty text is
    -- encrypted too
    unfoldable pub unmarshal : Bytes → SafeString → Outcome CryptError Bytes × SafeString
    unfolding assigned remember
    unmarshal value e =
        let secret = get_secret e in
        if not (has_prefix value) && not (is_empty secret)
        then remember secret (assigned e (sealed value secret))
        else (ok value, record e { value = value })

    -- `if value, err := Encrypt(…); err == nil { e.value = value }`; a panic is not caught
    pub kept : SafeString → Outcome CryptError Bytes → Outcome CryptError SafeString
    kept e (ok value) = ok (record e { value = value })
    kept e (failed err) = ok e
    kept e panicked = panicked

    -- `String()`: the text that it returns is the value afterwards
    unfoldable pub string : SafeString → Outcome CryptError SafeString
    unfolding kept
    string e =
        if is_empty e.value
        then ok e
        else if not (has_prefix e.value) && not (is_empty (get_secret e))
        then kept e (sealed e.value e.secret)
        else ok e

    unfoldable pub unsafe_string : SafeString → Outcome CryptError Bytes
    unsafe_string e =
        if is_empty e.value
        then ok []
        else if has_prefix e.value && not (is_empty (get_secret e))
        then decrypt lib e.value (get_secret e)
        else ok e.value

    -- `UpdateSecret` on the outcome of `UnsafeString`
    pub update_plain : Bytes → SafeString → Outcome CryptError Bytes → Outcome CryptError SafeString
    unfolding kept
    update_plain secret e (ok plain) =
        if not (is_empty secret)
        then kept (record e { secret = secret }) (sealed plain secret)
        else ok (record e { secret = secret })
    update_plain secret e (failed err) = ok e
    update_plain secret e panicked = panicked

    unfoldable pub update_secret : Bytes → SafeString → Outcome CryptError SafeString
    unfolding update_plain
    update_secret secret e = update_plain secret e (unsafe_string e)

    -- `Equal`: false if one of the texts cannot be read
    unfoldable pub equal : SafeString → SafeString → Outcome CryptError Bool
    equal e n = elim (unsafe_string e) [
      | panicked ↦ panicked
      | failed err ↦ ok false
      | ok plain ↦ elim (unsafe_string n) [
        | panicked ↦ panicked
        | failed err ↦ ok false
        | ok plain2 ↦ ok (same plain plain2)
      ]
    ]

    unfoldable pub new_encrypted_string : Bytes → Bytes → Outcome CryptError SafeString
    unfolding kept
    new_encrypted_string plain secret =
        let e : SafeString = record { value = plain; secret = secret } in
        if not (has_prefix plain) && not (is_empty secret)
        then kept e (sealed plain secret)
        else ok e

abbrev pub set_secret : Bytes → SafeString → SafeString
set_secret secret e = record e { secret = secret }

abbrev pub size : SafeString → ℕ
size e = length e.value
