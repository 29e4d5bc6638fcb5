-- ===== src/Clients/Storage/Backends.antt =====
-- What the clients of s3, of oss and of a file system do over their libraries.
use fuck.Base.Int.{ℤ}
use fuck.Base.{
  ℕ, ◌≡◌, ◌≢◌, refl, sym, ◌∙◌, true, false, List, [], Option, none, some, Bytes, codes, arith,
}
use fuck.Clients.Storage.Fs.{FileSystem}
use fuck.Clients.Storage.Fs
use fuck.Clients.Storage.Listing.{
  Object, StorageError, returned, Pages, AllListed, listed_all, listed_all_lem, list_loop-Pages,
}
use fuck.Clients.Storage.Oss.{OssApi, OssClient}
use fuck.Clients.Storage.Oss
use fuck.Clients.Storage.Path.{resolve_object_path, s3_object, oss_object, oss_prefix}
use fuck.Clients.Storage.S3.{Api, S3Client, to_storage, delimiter_of}
use fuck.Clients.Storage.S3
use fuck.Crypto.Outcome.{Outcome, ok, failed, panicked, >>=_never}
use fuck.Crypto.Xor.{all_bytes}
use fuck.Safe.Encrypt.Laws.{IsLibraries, IsRandom}
use fuck.Safe.Options.{Libraries}
use fuck.Safe.SafeString.{has_prefix, set_value}
use fuck.Safe.SafeString.Laws.{unsafe_string-set_value}

lost : {E A : Type 0} {a : A} {r : Outcome E A} → r ≡ panicked → r ≢ ok a
lost p h = ground (arith, sym p ∙ h)

module _ {S : Type 0} (own : Bytes) (s : S) (path : Bytes) (obj : Object) where
  s3_get_never : (api : Api S) → S3.get_object api own s path ≢ ok obj
  unfolding S3.get_object
  s3_get_never api =
      >>=_never (to_storage (s3_object own path)) _ obj
        λ at. >>=_never (api.get_object s at.0 at.1) _ obj λ ret. lost refl

  s3_reply_never :
      (api : Api S) (key : Bytes) (reply : Outcome StorageError S3.Reply)
      → S3.head_reply api key reply ≢ ok obj
  s3_reply_never api key (ok info) h = lost refl h
  s3_reply_never api key (failed err) h = ground (arith, h)
  s3_reply_never api key panicked h = lost refl h

  s3_head_never : (api : Api S) → S3.head_object api own s path ≢ ok obj
  unfolding S3.head_object
  s3_head_never api = >>=_never _ _ obj λ at. s3_reply_never api at.1 (api.head_object s at.0 at.1)

  oss_head_never : (api : OssApi S) → Oss.head_object api own s path ≢ ok obj
  unfolding Oss.head_object
  oss_head_never api =
      >>=_never (to_storage (oss_object own path)) _ obj
        λ at. >>=_never (api.get_object_meta s at.0 at.1) _ obj λ meta. lost refl

  fs_head_never :
      (files : FileSystem S) (fs_type : Bytes) → Fs.head_object files fs_type s path ≢ ok obj
  unfolding Fs.head_object
  fs_head_never files fs_type = >>=_never _ _ obj λ stat. lost refl

  -- `HeadObject` of the clients of s3, of oss and of a file system, and `GetObject` of the client of
  -- s3, never return an object, whatever the library or the file system answers.
  pub no_head_object :
      (api : Api S) (oss_api : OssApi S) (files : FileSystem S) (fs_type : Bytes)
      → (S3.get_object api own s path ≢ ok obj)
        × (S3.head_object api own s path ≢ ok obj)
        × (Oss.head_object oss_api own s path ≢ ok obj)
        × (Fs.head_object files fs_type s path ≢ ok obj)
  no_head_object api oss_api files fs_type =
      (s3_get_never api, s3_head_never api, oss_head_never oss_api, fs_head_never files fs_type)

module _ {S : Type 0} (own : Bytes) (s : S) (path bucket prefix_ : Bytes) where
  -- `ReadDir` of the client of s3, and that of oss, over a store that has the objects of a directory on
  -- n pages, of which the last has no next token or an empty one, returns without an error after n
  -- rounds, with one entry for each of these objects in their order, which has its key, time, size and
  -- class, and its etag less the quotes around it.
  pub read_dir-Pages :
      (api : Api S) (oss_api : OssApi S) {n m : ℕ} {objs oss_objs : List Object}
      → resolve_object_path own path ≡ ok (bucket, prefix_)
      → Pages (λ token. api.list_objects s bucket prefix_ token (some (codes "/"))) n none objs
      → oss_prefix own path ≡ ok (bucket, prefix_)
      → Pages
          (λ token. oss_api.list_objects s bucket prefix_ token (some (codes "/")))
          m
          none
          oss_objs
      → ((entries : List Object) × (S3.read_dir api n own s path ≡ (entries, returned none))
          × AllListed objs entries)
        × ((entries : List Object) × (Oss.read_dir oss_api m own s path ≡ (entries, returned none))
            × AllListed oss_objs entries)
  unfolding S3.read_dir S3.list_object Oss.read_dir Oss.list_object
  read_dir-Pages api oss_api {n} {m} {objs} {oss_objs} at pages oss_at oss_pages = (
    (
      listed_all objs,
      rw (S3.read_dir, S3.list_object, at) (list_loop-Pages n [] pages (omega arith)),
      listed_all_lem objs,
    ),
    (
      listed_all oss_objs,
      rw (Oss.read_dir, Oss.list_object, oss_at) (list_loop-Pages m [] oss_pages (omega arith)),
      listed_all_lem oss_objs,
    ),
  )

module _ (lib : Libraries) (w : IsLibraries lib) (random : ℕ → Option Bytes) (wr : IsRandom random)
    (env : Bytes) where
  -- With libraries and a random source that keep what their documentation says, and a source that does
  -- not fail, `NewClient` of s3, and that of oss, succeeds, and the key of the client is the one that
  -- the configuration gives as a text without the prefix, though it is encrypted in between.
  pub new_client-secret :
      (v : Bytes → Bytes) (n : Bytes → ℤ)
      → ((k : ℕ) → (iv : Bytes) × (random k ≡ some iv))
      → all_bytes (v (codes "secret_access_key")) ≡ true
      → has_prefix (v (codes "secret_access_key")) ≡ false
      → ((c : S3Client) × (S3.new_client env lib random v ≡ ok c)
          × (c.secret_access_key ≡ v (codes "secret_access_key")))
        × ((c : OssClient) × (Oss.new_client env lib random v n ≡ ok c)
            × (c.secret_access_key ≡ v (codes "secret_access_key")))
  unfolding S3.new_client Oss.new_client
  new_client-secret v n source t h =
      let ((_, set), read) =
        unsafe_string-set_value lib w random wr env (v (codes "secret_access_key"))
          (record { value = []; secret = [] }) source t h in
      let stored =
        (set_value env lib random (v (codes "secret_access_key"))
          (record { value = []; secret = [] })).1 in
      let secret = v (codes "secret_access_key") in
      (
        (S3.client_of v secret stored, rw (S3.new_client, set, read) refl, refl),
        (Oss.client_of v n secret stored, rw (Oss.new_client, set, read) refl, refl),
      )
