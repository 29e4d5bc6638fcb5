-- ===== src/Clients/Storage/Path.antt =====
-- clients/storage/s3/s3.go, oss/oss.go and fs/fs.go: the bucket and the key of an object path.
use fuck.Base.{
  ◌≡◌, ◌≢◌, refl, ap, ap₂, ◌∙◌, Bool, true, false, not, ◌∷◌, ◌++◌, Bytes, codes, length, ◌==◌,
  arith, if◌then◌else◌,
}
use fuck.Base.Text.{
  has_prefix, trim_prefix, trim_prefix-append, cut_text, cut_text-append, has_byte,
  has_prefix-append,
}
use fuck.Crypto.Outcome.{Outcome, ok, failed, ◌>>=◌}

pub data PathError : Type 0 where
  no_path no_bucket : PathError

-- what is found behind a scheme, if the path has it
abbrev pub by_scheme :
    Bytes → Bytes → Bool → Bytes × Bytes × Bool → Outcome PathError (Bytes × Bytes)
by_scheme own path false found = ok (own, path)
by_scheme own path true (bucket, key, found) =
    if not found then failed no_path else ok (bucket, key)

-- the bucket and the key behind a scheme such as `s3://`, for the bucket of the client
abbrev pub split_path : Bytes → Bytes → Bytes → Outcome PathError (Bytes × Bytes)
split_path scheme own path =
    by_scheme own path (has_prefix path scheme) (cut_text b'/' (trim_prefix path scheme))

abbrev pub with_bucket : Bytes × Bytes → Outcome PathError (Bytes × Bytes)
with_bucket (bucket, key) = if length bucket == 0 then failed no_bucket else ok (bucket, key)

abbrev pub s3_scheme : Bytes
s3_scheme = codes "s3://"

abbrev pub oss_scheme : Bytes
oss_scheme = codes "oss://"

-- `resolveObjectPath`, the bucket first
unfoldable pub resolve_object_path : Bytes → Bytes → Outcome PathError (Bytes × Bytes)
resolve_object_path bucket path = split_path s3_scheme bucket path >>= with_bucket

abbrev pub with_key : Bytes × Bytes → Outcome PathError (Bytes × Bytes)
with_key (bucket, key) = if length key == 0 then failed no_path else ok (bucket, key)

-- the tests in front of the calls of s3
unfoldable pub s3_object : Bytes → Bytes → Outcome PathError (Bytes × Bytes)
unfolding resolve_object_path
s3_object bucket path = resolve_object_path bucket path >>= with_key

-- the tests in front of the calls of oss: the path, not the key, is tested for being empty
unfoldable pub oss_object : Bytes → Bytes → Outcome PathError (Bytes × Bytes)
oss_object bucket path = do
  found ← split_path oss_scheme bucket path
  both ← with_bucket found
  if length path == 0 then failed no_path else ok both

-- the prefix and the bucket of a list of oss, whose path may be left out
unfoldable pub oss_prefix : Bytes → Bytes → Outcome PathError (Bytes × Bytes)
oss_prefix bucket path =
    let (b, key, found) = cut_text b'/' (trim_prefix path oss_scheme) in
    with_bucket (if not (has_prefix path oss_scheme) then (bucket, path) else (b, key))

-- `file://` or `local://` in front of a path
unfoldable pub strip_scheme : Bytes → Bytes
strip_scheme path =
    if has_prefix path (codes "file://")
    then trim_prefix path (codes "file://")
    else if has_prefix path (codes "local://")
    then trim_prefix path (codes "local://")
    else path

split_path-scheme :
    (scheme own bucket key : Bytes)
    → has_byte b'/' bucket ≡ false
    → split_path scheme own (scheme ++ (bucket ++ b'/' ∷ key)) ≡ ok (bucket, key)
split_path-scheme scheme own bucket key h =
    let path = scheme ++ (bucket ++ b'/' ∷ key) in
    ap₂ (by_scheme own path) (has_prefix-append scheme (bucket ++ b'/' ∷ key)) (
      ap (cut_text b'/') (trim_prefix-append scheme (bucket ++ b'/' ∷ key))
      ∙ cut_text-append b'/' bucket key h)

-- The text of a bucket without a slash and of a key, neither of them empty, behind the scheme of s3 or
-- oss is resolved to that bucket and that key, whatever bucket the client has; and a path without the
-- scheme that is not empty is a key in the bucket of the client, if it has one.
pub s3_object-path :
    (own bucket key : Bytes)
    → length bucket ≢ 0
    → length key ≢ 0
    → has_byte b'/' bucket ≡ false
    → (s3_object own (s3_scheme ++ (bucket ++ b'/' ∷ key)) ≡ ok (bucket, key))
      × (oss_object own (oss_scheme ++ (bucket ++ b'/' ∷ key)) ≡ ok (bucket, key))
      × (has_prefix key s3_scheme ≡ false → s3_object bucket key ≡ ok (bucket, key))
      × (has_prefix key oss_scheme ≡ false → oss_object bucket key ≡ ok (bucket, key))
unfolding s3_object oss_object resolve_object_path
s3_object-path own bucket key b k h =
    let full : (length bucket == 0) ≡ false = ground (arith, b) in
    let full_key : (length key == 0) ≡ false = ground (arith, k) in
    (
      rw
          (
            s3_object,
            resolve_object_path,
            split_path-scheme s3_scheme own bucket key h,
            full,
            full_key,
          )
          refl,
      rw (oss_object, split_path-scheme oss_scheme own bucket key h, full) (ground arith),
      λ plain. rw (plain, full, full_key) refl,
      λ plain. rw (plain, full, full_key) refl,
    )
