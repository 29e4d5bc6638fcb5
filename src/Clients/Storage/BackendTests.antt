-- ===== src/Clients/Storage/BackendTests.antt =====
-- Runs and witnesses for the clients of s3, of oss and of a file system.
use fuck.Base.{
  ℕ, suc, ◌≡◌, ◌≢◌, refl, false, [], ◌∷◌, List, Option, none, some, Bytes, codes, same, arith,
  if◌then◌else◌,
}
use fuck.Base.Int.{pos}
use fuck.Base.Text.{has_prefix}
use fuck.Clients.Storage.Backends.{no_head_object, read_dir-Pages}
use fuck.Clients.Storage.Fs
use fuck.Clients.Storage.Fs.{
  FileInfo, FileSystem, Entry, dir, file, broken, Entries, end, entry, walk_dir, new_client,
  in_memory,
}
use fuck.Clients.Storage.Listing.{
  Object, StorageError, remote, not_exist, not_supported, Page, returned, Pages, AllListed, last,
  last_empty, more, list_loop, never, append_object,
}
use fuck.Clients.Storage.Oss
use fuck.Clients.Storage.Oss.{OssApi, OssClient}
use fuck.Clients.Storage.Path.{
  s3_scheme, oss_scheme, resolve_object_path, s3_object, oss_object, oss_prefix, strip_scheme,
  s3_object-path, no_path,
}
use fuck.Clients.Storage.S3
use fuck.Clients.Storage.S3.{Api, S3Client, Reply, PutInput}
use fuck.Crypto.Outcome.{ok, failed}

abbrev object : Bytes → Object
object key = record {
  key = key;
  last_modified = 0;
  size = pos 3;
  etag = codes "e";
  storage_class = [];
  mode = 0;
  headers = [];
  metadata = [];
}

-- the same object as the library has it
abbrev stored : Bytes → Object
stored key = record (object key) { etag = codes "\"e\"" }

abbrev reply : Reply
reply = record {
  last_modified = 0;
  content_length = pos 3;
  etag = codes "\"e\"";
  storage_class = [];
  headers = [];
  metadata = [];
}

abbrev first_page : Page
first_page = record {
  contents = stored (codes "a") ∷ stored (codes "b") ∷ [];
  next_continuation_token = some (codes "t");
}

abbrev last_page : Page
last_page = record { contents = stored (codes "c") ∷ []; next_continuation_token = some [] }

abbrev list_pages : ℕ → Bytes → Bytes → Option Bytes → Option Bytes → Page × Option StorageError
list_pages s bucket prefix_ token delimiter = elim token [
  | none ↦ (first_page, none)
  | some t ↦ (last_page, none)
]

-- a store with one object, and with three of them on two pages; its state counts the uploads
abbrev api : Api ℕ
api = record {
  get_object = λ s bucket key. ok reply;
  head_object =
      λ s bucket key. if same key (codes "a") then ok reply else failed (remote 1 (some 404));
  list_objects = list_pages;
  upload = λ s put. (suc s, none);
  parse_http_date = λ date. none;
  format_http_date = λ t. [];
}

abbrev oss_api : OssApi ℕ
oss_api = record {
  get_object = λ s bucket key. ok reply;
  get_object_meta = λ s bucket key. ok reply;
  list_objects = list_pages;
  upload_from = λ s req body. (suc s, none);
}

abbrev files : FileSystem ℕ
files = record {
  open_stat = λ s path. ok (record { mod_time = 0; size = pos 3; mode = 420 });
  os_stat = λ s path. ok (record { mod_time = 0; size = pos 3; mode = 420 });
  write_file = none;
  format_date_time = λ t. [];
}

s3_object-path_example :
    (s3_object (codes "own") (codes "s3://b/k/l") ≡ ok (codes "b", codes "k/l"))
    × (oss_object (codes "own") (codes "oss://b/k/l") ≡ ok (codes "b", codes "k/l"))
    × (has_prefix (codes "k/l") s3_scheme ≡ false
        → s3_object (codes "b") (codes "k/l") ≡ ok (codes "b", codes "k/l"))
    × (has_prefix (codes "k/l") oss_scheme ≡ false
        → oss_object (codes "b") (codes "k/l") ≡ ok (codes "b", codes "k/l"))
s3_object-path_example =
    s3_object-path (codes "own") (codes "b") (codes "k/l") (λ h. ground (arith, h))
      (λ h. ground (arith, h)) refl

-- The empty key of oss passes the tests.
empty_key : oss_object (codes "own") (codes "oss://b/") ≡ ok (codes "b", [])
unfolding oss_object
empty_key = refl

-- A bucket of s3 cannot be listed by its name alone, one of oss can.
bucket_alone : resolve_object_path (codes "own") (codes "s3://b") ≡ failed no_path
unfolding resolve_object_path
bucket_alone = refl

oss_bucket_alone : oss_prefix (codes "own") (codes "oss://b") ≡ ok (codes "b", [])
unfolding oss_prefix
oss_bucket_alone = refl

local : strip_scheme (codes "local://a/b") ≡ codes "a/b"
unfolding strip_scheme
local = refl

no_head_object_example :
    (S3.get_object api (codes "own") 0 (codes "a") ≢ ok (object []))
    × (S3.head_object api (codes "own") 0 (codes "a") ≢ ok (object []))
    × (Oss.head_object oss_api (codes "own") 0 (codes "a") ≢ ok (object []))
    × (Fs.head_object files (codes "local") 0 (codes "a") ≢ ok (object []))
no_head_object_example =
    no_head_object (codes "own") 0 (codes "a") (object []) api oss_api files (codes "local")

missing : S3.head_object api (codes "own") 0 (codes "x") ≡ failed not_exist
unfolding S3.head_object s3_object resolve_object_path
missing = refl

no_put : Fs.put_object files (codes "local") 0 (codes "x") [] ≡ (0, some not_supported)
unfolding Fs.put_object
no_put = refl

two_pages :
    Pages
      (λ token. list_pages 0 (codes "own") (codes "dir") token (some (codes "/")))
      2
      none
      (stored (codes "a") ∷ stored (codes "b") ∷ stored (codes "c") ∷ [])
two_pages =
    more (stored (codes "a") ∷ stored (codes "b") ∷ []) b't' [] refl
      (last_empty (stored (codes "c") ∷ []) refl)

-- a page that is the only one
one_page :
    Pages
      (λ token. (record last_page { next_continuation_token = none }, none))
      1
      none
      (stored (codes "c") ∷ [])
one_page = last (stored (codes "c") ∷ []) refl

own_dir : resolve_object_path (codes "own") (codes "dir") ≡ ok (codes "own", codes "dir")
unfolding resolve_object_path
own_dir = refl

own_prefix : oss_prefix (codes "own") (codes "dir") ≡ ok (codes "own", codes "dir")
unfolding oss_prefix
own_prefix = refl

read_dir-Pages_example :
    ((entries : List Object) × (S3.read_dir api 2 (codes "own") 0 (codes "dir")
        ≡ (entries, returned none))
      × AllListed (stored (codes "a") ∷ stored (codes "b") ∷ stored (codes "c") ∷ []) entries)
    × ((entries : List Object) × (Oss.read_dir oss_api 2 (codes "own") 0 (codes "dir")
          ≡ (entries, returned none))
        × AllListed (stored (codes "a") ∷ stored (codes "b") ∷ stored (codes "c") ∷ []) entries)
read_dir-Pages_example =
    read_dir-Pages (codes "own") 0 (codes "dir") (codes "own") (codes "dir") api oss_api own_dir
      two_pages own_prefix two_pages

-- the entries that `ReadDir` gives there
entries_run :
    S3.read_dir api 2 (codes "own") 0 (codes "dir")
    ≡ (object (codes "a") ∷ object (codes "b") ∷ object (codes "c") ∷ [], returned none)
unfolding S3.read_dir S3.list_object resolve_object_path list_loop
entries_run = refl

abbrev values : Bytes → Bytes
values name = if same name (codes "secret_access_key") then codes "xyz" else codes "eu"

endpoint :
    S3.with_protocol (S3.default_endpoint [] (codes "eu")) ≡ codes "http://s3.eu.amazonaws.com"
endpoint = refl

conns : Oss.enough_conns (pos 99) ≡ pos 150
conns = refl

-- what a list that is not recursive gives of a directory, and of the root
abbrev tree : Bytes → Entry
tree path = dir path (entry (file (codes "f") none) (entry (dir (codes "d") end) end))

nothing_listed :
    Fs.list_object (codes "local") never append_object tree (codes "sub") false [] ≡ ([], none)
unfolding Fs.walk_dir Fs.walk_entries strip_scheme
nothing_listed = refl
