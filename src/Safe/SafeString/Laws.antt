-- ===== src/Safe/SafeString/Laws.antt =====
-- safe/string.go: a `String` gives back the text that was put into it.
use fuck.Base.{
  ℕ, ◌≡◌, refl, sym, ap, ◌∙◌, inl, inr, true, false, [], ◌∷◌, Option, none, some, Bytes, arith,
  Bool-cases,
}
use fuck.Crypto.Outcome.{ok}
use fuck.Crypto.Xor.{all_bytes}
use fuck.Safe.Encrypt.{decrypt}
use fuck.Safe.Encrypt.Laws.{IsLibraries, IsRandom}
use fuck.Safe.Encrypt.RoundTrip.{decrypt-encrypt}
use fuck.Safe.Encrypt.Total.{encrypt_total}
use fuck.Safe.Options.{Libraries}
use fuck.Safe.SafeString.{
  SafeString, has_prefix, is_empty, get_secret, sealed, assigned, set_value, kept, string,
  unsafe_string, update_plain, update_secret,
}

nil_of_empty : (xs : Bytes) → is_empty xs ≡ true → xs ≡ []
nil_of_empty [] h = refl
nil_of_empty (x ∷ xs) h = absurd (ground arith)

module _ (lib : Libraries) where
  -- what `Decrypt` reads has the prefix, and is not empty
  readable :
      (c key text : Bytes)
      → decrypt lib c key ≡ ok text
      → (has_prefix c ≡ true) × (is_empty c ≡ false)
  unfolding decrypt
  readable [] key text h = absurd (ground (arith, h))
  readable (x ∷ c) key text h = elim (Bool-cases (has_prefix (x ∷ c))) [
    | inl is ↦ (is, refl)
    | inr isnt ↦ absurd (ground (arith, h, isnt))
  ]

  module _ (w : IsLibraries lib) (random : ℕ → Option Bytes) (wr : IsRandom random)
      (env : Bytes) where
    -- a value that was encrypted with the secret in use is read back
    unsafe_string-sealed :
        (text c : Bytes) (e : SafeString)
        → all_bytes text ≡ true
        → is_empty (get_secret env e) ≡ false
        → sealed env lib random text (get_secret env e) ≡ ok c
        → e.value ≡ c
        → unsafe_string env lib random e ≡ ok text
    unfolding unsafe_string
    unsafe_string-sealed text c e t s h v =
        let d = decrypt-encrypt lib random w text (get_secret env e) c none wr t h in
        let (prefixed, full) = readable c (get_secret env e) text d in rw (v, full, prefixed, s) d

    -- an empty text, or one without the prefix, is read as it stands
    unsafe_string-plain :
        (e : SafeString) → has_prefix e.value ≡ false → unsafe_string env lib random e ≡ ok e.value
    unfolding unsafe_string
    unsafe_string-plain e h = elim (Bool-cases (is_empty e.value)) [
      | inl nothing ↦ rw nothing (ap ok (sym (nil_of_empty e.value nothing)))
      | inr something ↦ rw (something, h) refl
    ]

    -- With a random source that does not fail, `SetValue` of a text without the prefix succeeds, and
    -- `UnsafeString` gives the text back, whatever the secret and the environment variable.
    pub unsafe_string-set_value :
        (text : Bytes) (e : SafeString)
        → ((n : ℕ) → (iv : Bytes) × (random n ≡ some iv))
        → all_bytes text ≡ true
        → has_prefix text ≡ false
        → ((v : Bytes) × ((set_value env lib random text e).0 ≡ ok v))
          × (unsafe_string env lib random (set_value env lib random text e).1 ≡ ok text)
    unfolding set_value assigned
    unsafe_string-set_value text e source t h = elim (Bool-cases (is_empty (get_secret env e))) [
      | inl none_set ↦
          rw (none_set, h) ((text, refl), unsafe_string-plain (record e { value = text }) h)
      | inr set ↦ elim (Bool-cases (is_empty text)) [
        | inl nothing ↦
            rw (set, h, nothing) ((text, refl), unsafe_string-plain (record e { value = text }) h)
        | inr something ↦
            let (c, sealing) =
              encrypt_total lib w random wr text (get_secret env e) none t source (inl refl) in
            let e' : SafeString = record { value = c; secret = get_secret env e } in
            let kept_secret : get_secret env e' ≡ get_secret env e = rw set refl in
            rw (set, h, something, sealing, assigned)
              (
                (c, refl),
                unsafe_string-sealed text c e' t (ap is_empty kept_secret ∙ set)
                    (ap (sealed env lib random text) kept_secret ∙ sealing) refl,
              )
      ]
    ]

    -- With a random source that does not fail, `UpdateSecret` to a secret that is not empty keeps the
    -- text of a `String` that can be read, and leaves it encrypted with the new secret.
    pub unsafe_string-update_secret :
        (text secret : Bytes) (e : SafeString)
        → ((n : ℕ) → (iv : Bytes) × (random n ≡ some iv))
        → all_bytes text ≡ true
        → is_empty secret ≡ false
        → unsafe_string env lib random e ≡ ok text
        → (e' : SafeString) × (update_secret env lib random secret e ≡ ok e')
          × (unsafe_string env lib random e' ≡ ok text)
          × (decrypt lib e'.value secret ≡ ok text)
    unfolding update_secret update_plain kept
    unsafe_string-update_secret text secret e source t s readable_now =
        let (c, sealing) = encrypt_total lib w random wr text secret none t source (inl refl) in
        let e' : SafeString = record { value = c; secret = secret } in
        let in_use : get_secret env e' ≡ secret = rw s refl in
        (
          e',
          rw (readable_now, update_plain, s, sealing, kept) refl,
          unsafe_string-sealed text c e' t (ap is_empty in_use ∙ s)
              (ap (sealed env lib random text) in_use ∙ sealing) refl,
          decrypt-encrypt lib random w text secret c none wr t sealing,
        )

    -- On a `String` with no secret of its own, `String()` encrypts under the empty key though the
    -- environment variable holds a secret: `Decrypt` without any secret reads the text.
    pub decrypt-string :
        (text : Bytes)
        → ((n : ℕ) → (iv : Bytes) × (random n ≡ some iv))
        → all_bytes text ≡ true
        → has_prefix text ≡ false
        → is_empty text ≡ false
        → is_empty env ≡ false
        → (e : SafeString) × (string env lib random (record { value = text; secret = [] }) ≡ ok e)
          × (decrypt lib e.value [] ≡ ok text)
    unfolding string kept
    decrypt-string text source t h full set =
        let (c, sealing) = encrypt_total lib w random wr text [] none t source (inl refl) in
        (
          record { value = c; secret = [] },
          rw (full, h, set, sealing, kept) refl,
          decrypt-encrypt lib random w text [] c none wr t sealing,
        )
