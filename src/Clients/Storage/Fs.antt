-- ===== src/Clients/Storage/Fs.antt =====
-- clients/storage/fs/fs.go: the client over a file system.
use fuck.Base.{
  ℕ, Bool, ◌||◌, [], ◌∷◌, Option, none, some, Bytes, codes, length, same, ◌==◌, if◌then◌else◌,
}
use fuck.Base.Int.{ℤ, pos}
use fuck.Clients.Storage.Listing.{Object, StorageError, not_supported, cancelled}
use fuck.Clients.Storage.Path.{strip_scheme}
use fuck.Clients.Storage.S3.{format_int}
use fuck.Crypto.Outcome.{Outcome, ok, ◌>>=◌}

-- `fs.FileInfo`
pub record FileInfo : Type 0 where
  pub mod_time : ℕ
  pub size : ℤ
  pub mode : ℕ

-- a file system: `Open` with `Stat`, `os.Stat`, and `OpenFile` with `io.Copy` if it has them; the
-- printer of times
pub record FileSystem (S : Type 0) : Type 0 where
  pub open_stat : S → Bytes → Outcome StorageError FileInfo
  pub os_stat : S → Bytes → Outcome StorageError FileInfo
  pub write_file : Option (S → Bytes → Bytes → S × Option StorageError)
  pub format_date_time : ℕ → Bytes

module _ {S : Type 0} (files : FileSystem S) (fs_type : Bytes) where
  abbrev pub object_of : Bytes → FileInfo → Bytes → Object
  object_of key stat content_length = record {
    key = key;
    last_modified = stat.mod_time;
    size = stat.size;
    etag = [];
    storage_class = fs_type;
    mode = stat.mode;
    headers =
        (codes "Content-Length", content_length)
        ∷ (codes "Last-Modified", files.format_date_time stat.mod_time)
        ∷ [];
    metadata = [];
  }

  unfoldable pub get_object : S → Bytes → Outcome StorageError Object
  get_object s path = do
    stat ← files.open_stat s (strip_scheme path)
    content_length ← format_int stat.size 10
    ok (object_of [] stat content_length)

  -- `HeadObject` asks the file system of the machine
  unfoldable pub head_object : S → Bytes → Outcome StorageError Object
  head_object s path = do
    stat ← files.os_stat s (strip_scheme path)
    content_length ← format_int stat.size 64
    ok (object_of (strip_scheme path) stat content_length)

  unfoldable pub put_object : S → Bytes → Bytes → S × Option StorageError
  put_object s path body = elim files.write_file [
    | none ↦ (s, some not_supported)
    | some write ↦ write s (strip_scheme path) body
  ]

-- an entry that `fs.WalkDir` meets: a directory with its entries, or a file with what `Info` says
mutual
  pub data Entry : Type 0 where
    dir : (path : Bytes) (entries : Entries) → Entry
    file : (path : Bytes) (info : Option FileInfo) → Entry
    broken : (err : StorageError) → Entry

  pub data Entries : Type 0 where
    end : Entries
    entry : (e : Entry) (rest : Entries) → Entries

-- the next entries, unless there was an error
abbrev pub go_on :
    {T : Type 0} → T × Option StorageError → T × Option StorageError → T × Option StorageError
go_on (t, none) rest = rest
go_on (t, some err) rest = (t, some err)

module _ {T : Type 0} (fs_type : Bytes) (is_done : T → Bool) (callback : Object → T → T) where
  -- a file; if `Info` fails, a warning is logged
  abbrev pub list_file : Bytes → Option FileInfo → T → T × Option StorageError
  list_file path info t = if is_done t then (t, some cancelled) else (
    callback
        (record {
          key = path;
          last_modified = elim info [ none ↦ 0 | some i ↦ i.mod_time ];
          size = elim info [ none ↦ pos 0 | some i ↦ i.size ];
          etag = [];
          storage_class = fs_type;
          mode = 0;
          headers = [];
          metadata = [];
        })
        t,
    none,
  )

  unfoldable mutual
    -- `fs.WalkDir` with the function of `ListObject`: a directory is skipped unless it is `.` or the
    -- list is recursive
    pub walk_dir : Bool → Entry → T → T × Option StorageError
    walk_dir recursion (broken err) t = (t, some err)
    walk_dir recursion (file path info) t = list_file path info t
    walk_dir recursion (dir path entries) t =
        let rest = walk_entries recursion entries t in
        if same path (codes ".") || recursion then rest else (t, none)

    pub walk_entries : Bool → Entries → T → T × Option StorageError
    walk_entries recursion end t = (t, none)
    walk_entries recursion (entry e rest) t =
        let first = walk_dir recursion e t in go_on first (walk_entries recursion rest first.0)

  -- `ListObject`; `root` is what stands in the file system at a path
  abbrev pub list_object : (Bytes → Entry) → Bytes → Bool → T → T × Option StorageError
  list_object root path recursion t = walk_dir recursion (root (strip_scheme path)) t

-- the kinds of file systems that `NewClient` makes
pub data Backend : Type 0 where
  zip_reader : (base : Bytes) → Backend
  in_memory : Backend
  base_path : (base : Bytes) → Backend
  given : (io_fs_name : Option Bytes) → Backend

-- the file system for a type; none for an error, an inner none for no file system
abbrev pub new_backend : (Bytes → Bool) → Bytes → Bytes → Option (Option Backend)
new_backend opens storage_type base =
    if same storage_type (codes "zip")
    then if opens base then some (some (zip_reader base)) else none
    else if same storage_type (codes "in-memory") || same storage_type (codes "inmemory")
    then some (some in_memory)
    else if same storage_type (codes "local") || same storage_type (codes "file")
    then some (some (base_path base))
    else some none

-- the name of an `afero.IOFS`, or `unknown`
abbrev pub backend_name : Option Backend → Bytes
backend_name (some (given (some name))) = name
backend_name _ = codes "unknown"

pub record FsClient : Type 0 where
  pub backend : Option Backend
  pub storage_type : Bytes
  pub base : Bytes

abbrev pub client_of : Bytes → Bytes → Option Backend → FsClient
client_of storage_type base backend = record {
  backend = backend;
  storage_type = if length storage_type == 0 then backend_name backend else storage_type;
  base = base;
}

-- `NewClient`, for the file system that is given, whether a zip file can be opened, and the type and
-- the base of the configuration, which are empty if there is none
unfoldable pub new_client : (Bytes → Bool) → Option Backend → Bytes → Bytes → Option FsClient
new_client opens (some backend) storage_type base =
    some (client_of storage_type base (some backend))
new_client opens none storage_type base = elim (new_backend opens storage_type base) [
  | none ↦ none
  | some backend ↦ some (client_of storage_type base backend)
]
