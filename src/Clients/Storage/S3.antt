-- ===== src/Clients/Storage/S3.antt =====
-- clients/storage/s3/s3.go: the operations of the client, over the library's calls.
use fuck.Base.{
  ℕ, zero, suc, ◌+◌, ◌-◌, ◌/◌, ◌%◌, Bool, false, not, ◌&&◌, ◌||◌, List, [], ◌∷◌, ◌++◌, Option, none,
  some, Bytes, codes, length, same, ltb, ◌==◌, if◌then◌else◌,
}
use fuck.Base.Int.{ℤ, pos, negsuc}
use fuck.Base.Text.{has_prefix, trim}
use fuck.Clients.Storage.{raw_permissions_to_mode}
use fuck.Clients.Storage.Listing.{
  Object, StorageError, bad_path, remote, not_exist, Page, ListEnd, returned, running, list_loop,
  never, append_object,
}
use fuck.Clients.Storage.Path.{PathError, resolve_object_path, s3_object}
use fuck.Crypto.Outcome.{Outcome, ok, failed, panicked, ◌>>=◌}
use fuck.Safe.Options.{CryptError, Libraries}
use fuck.Safe.SafeString.{SafeString, set_value, unsafe_string}

-- the value of a header, or of an entry of the metadata; empty if there is none
abbrev pub header_value : Bytes → List (Bytes × Bytes) → Bytes
header_value name [] = []
header_value name (entry ∷ entries) =
    if same name entry.0 then entry.1 else header_value name entries

-- what the library answers for an object
pub record Reply : Type 0 where
  pub last_modified : ℕ
  pub content_length : ℤ
  pub etag : Bytes
  pub storage_class : Bytes
  pub headers : List (Bytes × Bytes)
  pub metadata : List (Bytes × Bytes)

-- `PutObjectInput`; `expires` is a time
pub record PutInput : Type 0 where
  pub key : Bytes
  pub bucket : Bytes
  pub body : Bytes
  pub metadata : List (Bytes × Bytes)
  pub content_type : Option Bytes
  pub content_encoding : Option Bytes
  pub content_language : Option Bytes
  pub content_disposition : Option Bytes
  pub cache_control : Option Bytes
  pub expires : Option ℕ

-- The calls of the library, on a store that they may change, and its parsers and printers of times.
pub record Api (S : Type 0) : Type 0 where
  pub get_object : S → Bytes → Bytes → Outcome StorageError Reply
  pub head_object : S → Bytes → Bytes → Outcome StorageError Reply
  pub list_objects : S → Bytes → Bytes → Option Bytes → Option Bytes → Page × Option StorageError
  pub upload : S → PutInput → S × Option StorageError
  pub parse_http_date : Bytes → Option ℕ
  pub format_http_date : ℕ → Bytes

-- the digits of a number in a base up to 36 in front of the others, in at most so many rounds
abbrev pub base_digits : ℕ → ℕ → ℕ → Bytes → Bytes
base_digits zero base n rest = rest
base_digits (suc fuel) base n rest =
    let digit = if ltb (n % base) 10 then b'0' + n % base else b'a' + (n % base - 10) in
    let higher = base_digits fuel base (n / base) (digit ∷ rest) in
    if n / base == 0 then digit ∷ rest else higher

abbrev pub signed_digits : ℕ → ℤ → Bytes
signed_digits base (pos n) = base_digits (n + 1) base n []
signed_digits base (negsuc n) = b'-' ∷ base_digits (n + 2) base (n + 1) []

-- `strconv.FormatInt`, which panics on a base above 36
abbrev pub format_int : ℤ → ℕ → Outcome StorageError Bytes
format_int n base = if ltb 36 base || ltb base 2 then panicked else ok (signed_digits base n)

abbrev pub to_storage : {A : Type 0} → Outcome PathError A → Outcome StorageError A
to_storage (ok a) = ok a
to_storage (failed err) = failed (bad_path err)
to_storage panicked = panicked

abbrev pub delimiter_of : Bool → Option Bytes
delimiter_of recursion = if not recursion then some (codes "/") else none

module _ {S : Type 0} (api : Api S) where
  -- the map of headers
  abbrev pub headers_of : Reply → Outcome StorageError (List (Bytes × Bytes))
  headers_of ret = do
    content_length ← format_int ret.content_length 64
    ok (
        (codes "Content-Type", header_value (codes "Content-Type") ret.headers)
        ∷ (codes "Content-Encoding", header_value (codes "Content-Encoding") ret.headers)
        ∷ (codes "Content-Language", header_value (codes "Content-Language") ret.headers)
        ∷ (codes "Content-Disposition", header_value (codes "Content-Disposition") ret.headers)
        ∷ (codes "Cache-Control", header_value (codes "Cache-Control") ret.headers)
        ∷ (codes "Expires", header_value (codes "Expires") ret.headers)
        ∷ (codes "Content-Length", content_length)
        ∷ (codes "Last-Modified", api.format_http_date ret.last_modified)
        ∷ (codes "ETag", ret.etag)
        ∷ [])

  abbrev pub mode_of_reply : Reply → ℕ
  mode_of_reply ret =
      raw_permissions_to_mode (header_value (codes "x-amz-meta-file-permissions") ret.metadata)

  -- `GetObject`, for the bucket of the client, less the body
  unfoldable pub get_object : Bytes → S → Bytes → Outcome StorageError Object
  get_object own s path = do
    (bucket, key) ← to_storage (s3_object own path)
    ret ← api.get_object s bucket key
    headers ← headers_of ret
    ok (record {
      key = [];
      last_modified = ret.last_modified;
      size = ret.content_length;
      etag = [];
      storage_class = [];
      mode = mode_of_reply ret;
      headers = headers;
      metadata = ret.metadata;
    })

  -- an answer with the status 404 is `os.ErrNotExist`
  abbrev pub head_error : StorageError → StorageError
  head_error (remote id (some status)) =
      if status == 404 then not_exist else remote id (some status)
  head_error err = err

  abbrev pub head_reply : Bytes → Outcome StorageError Reply → Outcome StorageError Object
  head_reply key panicked = panicked
  head_reply key (failed err) = failed (head_error err)
  head_reply key (ok info) = do
    headers ← headers_of info
    ok (record {
      key = key;
      last_modified = info.last_modified;
      size = info.content_length;
      etag = trim b'"' info.etag;
      storage_class = info.storage_class;
      mode = mode_of_reply info;
      headers = headers;
      metadata = info.metadata;
    })

  unfoldable pub head_object : Bytes → S → Bytes → Outcome StorageError Object
  head_object own s path = do
    (bucket, key) ← to_storage (s3_object own path)
    head_reply key (api.head_object s bucket key)

  -- `switch name`, for the value of the header
  abbrev pub with_header : Bytes × Bytes → PutInput → PutInput
  with_header (name, value) p =
      if same name (codes "Content-Type")
      then record p { content_type = some value }
      else if same name (codes "Content-Encoding")
      then record p { content_encoding = some value }
      else if same name (codes "Content-Language")
      then record p { content_language = some value }
      else if same name (codes "Content-Disposition")
      then record p { content_disposition = some value }
      else if same name (codes "Cache-Control")
      then record p { cache_control = some value }
      else if same name (codes "Expires")
      then elim (api.parse_http_date value) [
        | none ↦ p
        | some date ↦ record p { expires = some date }
      ]
      else p

  abbrev pub with_headers : List (Bytes × Bytes) → PutInput → PutInput
  with_headers [] p = p
  with_headers (header ∷ headers) p = with_headers headers (with_header header p)

  -- `PutObject`; the headers are a map with one value each. The resolution of a path does not panic.
  unfoldable pub put_object :
      Bytes
      → S
      → Bytes
      → Bytes
      → List (Bytes × Bytes)
      → List (Bytes × Bytes)
      → S × Option StorageError
  put_object own s path body headers metadata = elim (to_storage (s3_object own path)) [
    | panicked ↦ (s, none)
    | failed err ↦ (s, some err)
    | ok (bucket, key) ↦ api.upload s (
        with_headers headers (record {
          key = key;
          bucket = bucket;
          body = body;
          metadata = metadata;
          content_type = none;
          content_encoding = none;
          content_language = none;
          content_disposition = none;
          cache_control = none;
          expires = none;
        }))
  ]

  -- `ListObject` in at most so many rounds, for the state of the callback; a path does not panic
  unfoldable pub list_object :
      {T : Type 0} → (T → Bool) → (Object → T → T) → ℕ → Bytes → S → Bytes → Bool → T → T × ListEnd
  unfolding list_loop
  list_object is_done callback fuel own s path recursion t =
      elim (to_storage (resolve_object_path own path)) [
        | panicked ↦ (t, running)
        | failed err ↦ (t, returned (some err))
        | ok (bucket, prefix_) ↦
            list_loop is_done callback
              (λ token. api.list_objects s bucket prefix_ token (delimiter_of recursion)) fuel none
              t
      ]

  -- `ReadDir`, whose context is never done
  unfoldable pub read_dir : ℕ → Bytes → S → Bytes → List Object × ListEnd
  unfolding list_object
  read_dir fuel own s name = list_object never append_object fuel own s name false []

-- `NewClient`
pub record S3Client : Type 0 where
  pub bucket : Bytes
  pub region : Bytes
  pub endpoint : Bytes
  pub access_key_id : Bytes
  pub secret_access_key : Bytes
  pub stored_secret : SafeString

abbrev pub default_endpoint : Bytes → Bytes → Bytes
default_endpoint endpoint region =
    if (length endpoint == 0) && not (length region == 0)
    then codes "s3." ++ region ++ codes ".amazonaws.com"
    else endpoint

abbrev pub with_protocol : Bytes → Bytes
with_protocol endpoint =
    if ltb 0 (length endpoint)
      && not (has_prefix endpoint (codes "http://") || has_prefix endpoint (codes "https://"))
    then codes "http://" ++ endpoint
    else endpoint

-- the client that is returned, for the secret
abbrev pub client_of : (Bytes → Bytes) → Bytes → SafeString → S3Client
client_of v secret stored = record {
  bucket = v (codes "bucket");
  region = v (codes "region");
  endpoint = with_protocol (default_endpoint (v (codes "endpoint")) (v (codes "region")));
  access_key_id = v (codes "access_key_id");
  secret_access_key = secret;
  stored_secret = stored;
}

-- `v` is `GetString`
unfoldable pub new_client :
    Bytes → Libraries → (ℕ → Option Bytes) → (Bytes → Bytes) → Outcome CryptError S3Client
new_client env lib random v = do
  let assigned =
      set_value env lib random (v (codes "secret_access_key")) (record { value = []; secret = [] })
  _ ← assigned.0
  secret ← unsafe_string env lib random assigned.1
  ok (client_of v secret assigned.1)
