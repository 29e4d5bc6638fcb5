-- ===== src/Clients/Gorm/Open.antt =====
-- clients/gorm/gorm_mysql.go and gorm_clickhouse.go: the opening of a connection, which makes a schema
-- that is missing.
use fuck.Base.{
  ℕ, Bool, true, false, not, List, [], ◌∷◌, Option, none, some, Bytes, codes, length, same, ◌==◌,
  if◌then◌else◌,
}
use fuck.Base.Int.{ℤ, pos, is_int}
use fuck.Clients.Gorm.Options.{MysqlOptions, ClickhouseOptions, NamedTls}
use fuck.Crypto.Outcome.{Outcome, ok, failed, panicked, ◌>>=◌}
use fuck.Safe.Options.{CryptError, Libraries}
use fuck.Safe.SafeString.{unsafe_string}

-- what `gorm.Open` is given for mysql
pub record MysqlConfig : Type 0 where
  pub user : Bytes
  pub passwd : Bytes
  pub addr : Bytes
  pub db_name : Bytes
  pub charset : Bytes
  pub collation : Bytes
  pub tls_config : Bytes
  pub compression : Bool
  pub table_prefix : Bytes
  pub singular_table : Bool

-- a connection by its number, or an error of the server with its code, or another error
pub data Opened : Type 0 where
  opened : (id : ℕ) → Opened
  server_error : (code : ℕ) → Opened
  other_error : Opened

-- how the opening ends
pub data OpenResult : Type 0 where
  connected : (id : ℕ) → OpenResult
  open_failed : (code : Option ℕ) → OpenResult
  create_failed no_password crashed : OpenResult

-- A server: `open` with a configuration, the statement that makes a schema with its charset and its
-- collation (true for an error), and the closing of a connection.
pub record Server (S Config : Type 0) : Type 0 where
  pub open_ : S → Config → S × Opened
  pub create_schema : S → ℕ → Bytes → Bytes → Bytes → S × Bool
  pub close_ : S → ℕ → S

abbrev pub to_result : {S : Type 0} → S × Opened → S × OpenResult
to_result (s, opened id) = (s, connected id)
to_result (s, server_error code) = (s, open_failed (some code))
to_result (s, other_error) = (s, open_failed none)

module _ {S : Type 0} (connect : S → Bytes → S × OpenResult) (create : S → ℕ → S × Bool)
    (close : S → ℕ → S) (admin schema : Bytes) where
  -- the last opening, and the deferred closing of the connection `id`
  abbrev pub after_create : ℕ → S × Bool → S × OpenResult
  after_create id (s, true) = (s, create_failed)
  after_create id (s, false) = let (s', r) = connect s schema in (close s' id, r)

  abbrev pub after_admin : S × OpenResult → S × OpenResult
  after_admin (s, connected id) = after_create id (create s id)
  after_admin (s, r) = (s, r)

  -- an error with the code 1049 is a schema that is missing
  abbrev pub after_open : S × OpenResult → S × OpenResult
  after_open (s, open_failed (some code)) =
      if code == 1049 then after_admin (connect s admin) else (s, open_failed (some code))
  after_open (s, r) = (s, r)

  -- the opening with `autoCreateSchema`
  unfoldable pub open_conn : S → S × OpenResult
  open_conn s = after_open (connect s schema)

abbrev pub text_or : Bytes → Bytes → Bytes
text_or s d = if length s == 0 then d else s

-- the options that are empty or 0
abbrev pub with_defaults : MysqlOptions → MysqlOptions
with_defaults o = record o {
  charset = text_or o.charset (codes "utf8mb4");
  collation = text_or o.collation (codes "utf8mb4_general_ci");
  max_open_connections =
      if is_int o.max_open_connections (pos 0) then pos 100 else o.max_open_connections;
}

abbrev pub tls_name : Option NamedTls → Bytes
tls_name none = []
tls_name (some tls) = tls.name

abbrev pub mysql_config : MysqlOptions → Bytes → Bytes → MysqlConfig
mysql_config o passwd schema = record {
  user = o.username;
  passwd = passwd;
  addr = o.host;
  db_name = schema;
  charset = o.charset;
  collation = o.collation;
  tls_config = tls_name o.tls_config;
  compression = o.enable_compression;
  table_prefix = o.table_prefix;
  singular_table = not (length o.table_prefix == 0);
}

-- an opening with a text that the options hold encrypted
abbrev pub with_text :
    {S : Type 0} → S → Outcome CryptError Bytes → (Bytes → S × OpenResult) → S × OpenResult
with_text s panicked f = (s, crashed)
with_text s (failed err) f = (s, no_password)
with_text s (ok text) f = f text

-- `url.Values`: a map with one value for each key here, or nil
abbrev pub Values : Type 0
Values = Option (List (Bytes × Bytes))

abbrev pub set_entry : Bytes → Bytes → List (Bytes × Bytes) → List (Bytes × Bytes)
set_entry key value [] = (key, value) ∷ []
set_entry key value ((k, v) ∷ q) =
    if same k key then (key, value) ∷ q else (k, v) ∷ set_entry key value q

-- `Set`: an assignment to a nil map panics
abbrev pub set_query : Bytes → Bytes → Values → Outcome CryptError Values
set_query key value none = panicked
set_query key value (some q) = ok (some (set_entry key value q))

-- a timeout, if the options have it, by the text of a duration
abbrev pub set_timeout : (ℤ → Bytes) → Bytes → Option ℤ → Values → Outcome CryptError Values
set_timeout show key none q = ok q
set_timeout show key (some d) q = set_query key (show d) q

-- `var q url.Values`
abbrev pub no_query : Values
no_query = none

-- the query of a DSN
abbrev pub query_of : (ℤ → Bytes) → Option ℤ → Option ℤ → Option ℤ → Outcome CryptError Values
query_of show dial_timeout read_timeout max_execution_time = do
  q ← set_timeout show (codes "dial_timeout") dial_timeout no_query
  q' ← set_timeout show (codes "read_timeout") read_timeout q
  set_timeout show (codes "max_execution_time") max_execution_time q'

-- Package url and the durations: the text of a URL with the scheme clickhouse from the user, the
-- password, the host, the path and the query, and the text of a duration.
pub record Printer : Type 0 where
  pub print_url : Bytes → Bytes → Bytes → Bytes → Values → Bytes
  pub print_duration : ℤ → Bytes

module _ (env : Bytes) (lib : Libraries) (random : ℕ → Option Bytes) where
  module _ {S : Type 0} (server : Server S MysqlConfig) where
    abbrev pub mysql_connect : MysqlOptions → S → Bytes → S × OpenResult
    mysql_connect o s schema =
        with_text s (unsafe_string env lib random o.password)
          (λ passwd. to_result (server.open_ s (mysql_config (with_defaults o) passwd schema)))

    -- `openMysqlConn` with `autoCreateSchema`
    unfoldable pub open_mysql_conn : MysqlOptions → S → S × OpenResult
    unfolding open_conn
    open_mysql_conn o s =
        let o' = with_defaults o in
        open_conn (mysql_connect o)
          (λ s id. server.create_schema s id o'.schema o'.charset o'.collation) server.close_
          (codes "mysql") o'.schema s

  -- `GetDSN`
  unfoldable pub get_dsn : Printer → ClickhouseOptions → Outcome CryptError Bytes
  get_dsn print x = do
    passwd ← unsafe_string env lib random x.password
    q ← query_of print.print_duration x.dial_timeout x.read_timeout x.max_execution_time
    ok (print.print_url x.username passwd x.host (b'/' ∷ x.schema) q)

  module _ {S : Type 0} (server : Server S (Bytes × Bytes)) (print : Printer) where
    -- the DSN and the prefix of tables
    abbrev pub clickhouse_connect : ClickhouseOptions → S → Bytes → S × OpenResult
    clickhouse_connect o s schema =
        with_text s (get_dsn print (record o { schema = schema }))
          (λ dsn. to_result (server.open_ s (dsn, o.table_prefix)))

    -- `openClickhouseConn` with `autoCreateSchema`
    unfoldable pub open_clickhouse_conn : ClickhouseOptions → S → S × OpenResult
    unfolding open_conn get_dsn
    open_clickhouse_conn o s =
        open_conn (clickhouse_connect o) (λ s id. server.create_schema s id o.schema [] [])
          server.close_ (codes "clickhouse") o.schema s
