-- ===== src/Clients/Storage/Oss.antt =====
-- clients/storage/oss/oss.go: the operations of the client, over the library's calls.
use fuck.Base.{
  ℕ, ◌+◌, ◌*◌, ◌/◌, Bool, false, not, ◌&&◌, List, [], ◌∷◌, ◌++◌, Option, none, some, Bytes, codes,
  length, same, ltb, ◌==◌, if◌then◌else◌,
}
use fuck.Base.Int.{ℤ, pos, negsuc, is_int}
use fuck.Base.Text.{trim}
use fuck.Clients.Storage.{raw_permissions_to_mode}
use fuck.Clients.Storage.Listing.{
  Object, StorageError, Page, ListEnd, returned, running, list_loop, never, append_object,
}
use fuck.Clients.Storage.Path.{oss_object, oss_prefix}
use fuck.Clients.Storage.S3.{Reply, header_value, to_storage, delimiter_of}
use fuck.Crypto.Outcome.{Outcome, ok, failed, panicked, ◌>>=◌}
use fuck.Safe.Options.{CryptError, Libraries}
use fuck.Safe.SafeString.{SafeString, set_value, unsafe_string}

-- `oss.PutObjectRequest`
pub record PutRequest : Type 0 where
  pub bucket : Bytes
  pub key : Bytes
  pub metadata : List (Bytes × Bytes)
  pub content_type : Option Bytes
  pub content_encoding : Option Bytes
  pub content_disposition : Option Bytes
  pub cache_control : Option Bytes
  pub expires : Option Bytes

-- the calls of the library, on a store that they may change
pub record OssApi (S : Type 0) : Type 0 where
  pub get_object : S → Bytes → Bytes → Outcome StorageError Reply
  pub get_object_meta : S → Bytes → Bytes → Outcome StorageError Reply
  pub list_objects : S → Bytes → Bytes → Option Bytes → Option Bytes → Page × Option StorageError
  pub upload_from : S → PutRequest → Bytes → S × Option StorageError

-- The switch over the names of the headers.
abbrev pub with_header : Bytes × Bytes → PutRequest → PutRequest
with_header (name, value) req =
    if same name (codes "Content-Type")
    then record req { content_type = some value }
    else if same name (codes "Content-Encoding")
    then record req { content_encoding = some value }
    else if same name (codes "Content-Disposition")
    then record req { content_disposition = some value }
    else if same name (codes "Cache-Control")
    then record req { cache_control = some value }
    else if same name (codes "Expires")
    then record req { expires = some value }
    else req

abbrev pub with_headers : List (Bytes × Bytes) → PutRequest → PutRequest
with_headers [] req = req
with_headers (header ∷ headers) req = with_headers headers (with_header header req)

abbrev pub new_request : Bytes → Bytes → List (Bytes × Bytes) → PutRequest
new_request bucket key metadata = record {
  bucket = bucket;
  key = key;
  metadata = metadata;
  content_type = none;
  content_encoding = none;
  content_disposition = none;
  cache_control = none;
  expires = none;
}

module _ {S : Type 0} (api : OssApi S) where
  -- `GetObject`, for the bucket of the client, less the body; `Get` looks for the canonical form of
  -- a name
  unfoldable pub get_object : Bytes → S → Bytes → Outcome StorageError Object
  get_object own s path = do
    (bucket, key) ← to_storage (oss_object own path)
    obj ← api.get_object s bucket key
    ok (record {
      key = key;
      last_modified = obj.last_modified;
      size = obj.content_length;
      etag = trim b'"' obj.etag;
      storage_class = header_value (codes "X-Oss-Storage-Class") obj.headers;
      mode = raw_permissions_to_mode (header_value (codes "x-oss-storage-perms") obj.metadata);
      headers = obj.headers;
      metadata = obj.metadata;
    })

  -- the object behind a pointer; a field of nil panics
  abbrev pub pointee : Option Object → Outcome StorageError Object
  pointee none = panicked
  pointee (some obj) = ok obj

  -- what `HeadObject` makes of the reply and of its result `obj`, as it is then
  abbrev pub head_of : Bytes → Reply → Option Object → Outcome StorageError Object
  head_of key meta obj = do
    old ← pointee obj
    ok (record {
      key = key;
      last_modified = meta.last_modified;
      size = meta.content_length;
      etag = trim b'"' meta.etag;
      storage_class = header_value (codes "X-Oss-Storage-Class") meta.headers;
      mode = raw_permissions_to_mode (header_value (codes "x-oss-storage-perms") old.metadata);
      headers = old.headers;
      metadata = old.metadata;
    })

  -- `HeadObject`, whose result `obj` is nil until it returns
  unfoldable pub head_object : Bytes → S → Bytes → Outcome StorageError Object
  head_object own s path = do
    (bucket, key) ← to_storage (oss_object own path)
    meta ← api.get_object_meta s bucket key
    head_of key meta none

  -- `PutObject`: the request with the headers, and the one that is sent. The resolution of a path
  -- does not panic.
  unfoldable pub put_object :
      Bytes
      → S
      → Bytes
      → Bytes
      → List (Bytes × Bytes)
      → List (Bytes × Bytes)
      → S × Option StorageError
  put_object own s path body headers metadata = elim (to_storage (oss_object own path)) [
    | panicked ↦ (s, none)
    | failed err ↦ (s, some err)
    | ok (bucket, key) ↦
        let req = with_headers headers (new_request bucket key metadata) in
        api.upload_from s (new_request bucket key metadata) body
  ]

  -- `ListObject` in at most so many rounds, for the state of the callback; a path does not panic
  unfoldable pub list_object :
      {T : Type 0} → (T → Bool) → (Object → T → T) → ℕ → Bytes → S → Bytes → Bool → T → T × ListEnd
  unfolding list_loop
  list_object is_done callback fuel own s path recursion t =
      elim (to_storage (oss_prefix own path)) [
        | panicked ↦ (t, running)
        | failed err ↦ (t, returned (some err))
        | ok (bucket, prefix_) ↦
            list_loop is_done callback
              (λ token. api.list_objects s bucket prefix_ token (delimiter_of recursion)) fuel none
              t
      ]

  -- `ReadDir`, whose context is never done
  unfoldable pub read_dir : ℕ → Bytes → S → Bytes → List Object × ListEnd
  unfolding list_object
  read_dir fuel own s name = list_object never append_object fuel own s name false []

-- `NewClient`
pub record OssClient : Type 0 where
  pub bucket : Bytes
  pub region : Bytes
  pub endpoint : Bytes
  pub access_key_id : Bytes
  pub secret_access_key : Bytes
  pub stored_secret : SafeString
  pub worker : ℤ
  pub max_idle_conns : ℤ
  pub max_idle_conns_per_host : ℤ

abbrev pub default_endpoint : Bytes → Bytes → Bytes
default_endpoint endpoint region =
    if (length endpoint == 0) && not (length region == 0)
    then codes "https://oss-" ++ region ++ codes ".aliyuncs.com"
    else endpoint

-- `(workerNum + 1) * 3 / 2`, but at least 100, for a number far from the ends of int; a negative one
-- gives less than 100 in any case
abbrev pub enough_conns : ℤ → ℤ
enough_conns (negsuc n) = pos 100
enough_conns (pos worker_num) =
    let conns = (worker_num + 1) * 3 / 2 in if ltb conns 100 then pos 100 else pos conns

abbrev pub conns_or : ℤ → ℤ → ℤ
conns_or conns worker_num = if is_int conns (pos 0) then enough_conns worker_num else conns

-- the client that is returned, for the secret
abbrev pub client_of : (Bytes → Bytes) → (Bytes → ℤ) → Bytes → SafeString → OssClient
client_of v n secret stored = record {
  bucket = v (codes "bucket");
  region = v (codes "region");
  endpoint = default_endpoint (v (codes "endpoint")) (v (codes "region"));
  access_key_id = v (codes "access_key_id");
  secret_access_key = secret;
  stored_secret = stored;
  worker = n (codes "worker");
  max_idle_conns = conns_or (n (codes "oss_max_idle_conns")) (n (codes "worker"));
  max_idle_conns_per_host = conns_or (n (codes "oss_max_idle_conns_per_host")) (n (codes "worker"));
}

-- `v` is `GetString` and `n` is `GetInt`
unfoldable pub new_client :
    Bytes
    → Libraries
    → (ℕ → Option Bytes)
    → (Bytes → Bytes)
    → (Bytes → ℤ)
    → Outcome CryptError OssClient
new_client env lib random v n = do
  let assigned =
      set_value env lib random (v (codes "secret_access_key")) (record { value = []; secret = [] })
  _ ← assigned.0
  secret ← unsafe_string env lib random assigned.1
  ok (client_of v n secret assigned.1)
