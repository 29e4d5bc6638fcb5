-- ===== src/Clients/Gorm/Options.antt =====
-- clients/gorm/gorm_mysql.go, gorm_clickhouse.go, gorm_sqlite.go: the options.
use fuck.Base.{
  ℕ, Bool, true, false, not, ◌&&◌, [], ◌++◌, Option, none, some, Bytes, codes, length, same, ltb,
  if◌then◌else◌,
}
use fuck.Base.Decimal.{read_int}
use fuck.Base.Int.{ℤ, pos, is_int}
use fuck.Base.Text.{cut_text}
use fuck.Clients.Tls.{TlsOptions}
use fuck.Crypto.Outcome.{Outcome, ok, panicked, ◌>>=◌}
use fuck.Safe.Options.{CryptError, Libraries}
use fuck.Safe.SafeString.{SafeString, equal}

-- `TLSOptions`, the options of the package tls with the name they are registered under
pub record NamedTls : Type 0 where
  pub options : Option TlsOptions
  pub name : Bytes

abbrev pub same_bool : Bool → Bool → Bool
same_bool true b = b
same_bool false b = not b

-- `reflect.DeepEqual` of the options
abbrev pub deep_equal : TlsOptions → TlsOptions → Bool
deep_equal o o2 =
    same o.ca_file o2.ca_file
    && same o.cert_file o2.cert_file
    && same o.key_file o2.key_file
    && same o.server_name o2.server_name
    && same_bool o.insecure_skip_verify o2.insecure_skip_verify
    && same o.min_version o2.min_version

-- `(*TLSOptions) Equal`; none for a panic, which reading the options of a nil pointer is
abbrev pub tls_equal : Option NamedTls → Option NamedTls → Option Bool
tls_equal none none = some true
tls_equal none (some o2) = none
tls_equal (some o) none = elim o.options [ none ↦ none | some options ↦ some false ]
tls_equal (some o) (some o2) = elim o.options [
  | none ↦ elim o2.options [ none ↦ some true | some options2 ↦ some false ]
  | some options ↦ elim o2.options [
    | none ↦ some false
    | some options2 ↦ some (deep_equal options options2)
  ]
]

-- durations are in nanoseconds
pub record MysqlOptions : Type 0 where
  pub host : Bytes
  pub username : Bytes
  pub password : SafeString
  pub schema : Bytes
  pub max_idle_connections : ℤ
  pub max_open_connections : ℤ
  pub max_connection_life_time : Option ℤ
  pub charset : Bytes
  pub collation : Bytes
  pub table_prefix : Bytes
  pub slow_threshold : Option ℤ
  pub tls_config : Option NamedTls
  pub enable_compression : Bool

pub record ClickhouseOptions : Type 0 where
  pub host : Bytes
  pub username : Bytes
  pub password : SafeString
  pub schema : Bytes
  pub max_idle_connections : ℤ
  pub max_open_connections : ℤ
  pub max_connection_life_time : Option ℤ
  pub table_prefix : Bytes
  pub slow_threshold : Option ℤ
  pub dial_timeout : Option ℤ
  pub read_timeout : Option ℤ
  pub max_execution_time : Option ℤ

-- the threshold is a message with seconds and nanoseconds
pub record SqliteOptions : Type 0 where
  pub path : Bytes
  pub table_prefix : Bytes
  pub slow_threshold : Option (ℤ × ℤ)

-- `host` and the port behind its first colon, or the whole text and the port `d`
abbrev pub peer_or : Bytes → ℤ → Option ℤ → Bytes → Bytes × ℤ
peer_or all d none host = (all, d)
peer_or all d (some port) host = (host, port)

abbrev pub peer : Bytes → ℤ → Bytes × ℤ
peer host d =
    let (before, port, found) = cut_text b':' host in
    peer_or host d (if found && ltb 0 (length port) then read_int port else none) before

unfoldable pub mysql_peer : MysqlOptions → Bytes × ℤ
mysql_peer x = peer x.host (pos 3306)

unfoldable pub clickhouse_peer : ClickhouseOptions → Bytes × ℤ
clickhouse_peer x = peer x.host (pos 9000)

abbrev pub sqlite_peer : SqliteOptions → Bytes × ℤ
sqlite_peer o = (o.path, pos 0)

-- `String` for a type, a user, a host and a schema
abbrev pub options_string : Bytes → Bytes → Bytes → Bytes → Bytes
options_string type_ username host schema =
    type_ ++ codes "://" ++ username ++ codes "@" ++ host ++ codes "/" ++ schema

abbrev pub std_max_life_time : Option ℤ → ℤ
std_max_life_time none = pos 30000000000
std_max_life_time (some d) = d

-- `show` is `String` of a duration, `env`, `lib` and `random` are what the package safe uses
module _ (show : ℤ → Bytes) (env : Bytes) (lib : Libraries) (random : ℕ → Option Bytes) where
  abbrev pub duration_equal : Option ℤ → Option ℤ → Bool
  duration_equal none none = true
  duration_equal (some d) (some d2) = same (show d) (show d2)
  duration_equal _ _ = false

  -- what is compared behind the password, less the options of TLS
  abbrev pub mysql_rest : MysqlOptions → MysqlOptions → Bool
  mysql_rest x y =
      same x.schema y.schema
      && is_int x.max_idle_connections y.max_idle_connections
      && is_int x.max_open_connections y.max_open_connections
      && duration_equal x.max_connection_life_time y.max_connection_life_time
      && same x.charset y.charset
      && same x.collation y.collation
      && same x.table_prefix y.table_prefix
      && duration_equal x.slow_threshold y.slow_threshold

  abbrev pub or_panic : Option Bool → Outcome CryptError Bool
  or_panic none = panicked
  or_panic (some b) = ok b

  -- `(*MySQLOptions) Equal`, which compares the options of TLS with themselves
  unfoldable pub mysql_equal : MysqlOptions → MysqlOptions → Outcome CryptError Bool
  mysql_equal x y =
      if same x.host y.host && same x.username y.username
      then (do
        p ← equal env lib random x.password y.password
        if p && mysql_rest x y then or_panic (tls_equal x.tls_config x.tls_config) else ok false)
      else ok false

  abbrev pub clickhouse_rest : ClickhouseOptions → ClickhouseOptions → Bool
  clickhouse_rest x y =
      same x.schema y.schema
      && is_int x.max_idle_connections y.max_idle_connections
      && is_int x.max_open_connections y.max_open_connections
      && duration_equal x.max_connection_life_time y.max_connection_life_time
      && same x.table_prefix y.table_prefix
      && duration_equal x.slow_threshold y.slow_threshold
      && duration_equal x.dial_timeout y.dial_timeout
      && duration_equal x.read_timeout y.read_timeout
      && duration_equal x.max_execution_time y.max_execution_time

  unfoldable pub clickhouse_equal : ClickhouseOptions → ClickhouseOptions → Outcome CryptError Bool
  clickhouse_equal x y =
      if same x.host y.host && same x.username y.username
      then (do p ← equal env lib random x.password y.password; ok (p && clickhouse_rest x y))
      else ok false

-- the defaults of a new client
abbrev pub new_mysql_options : MysqlOptions
new_mysql_options = record {
  host = codes "localhost";
  username = codes "idas";
  password = record { value = []; secret = [] };
  schema = codes "idas";
  max_idle_connections = pos 2;
  max_open_connections = pos 100;
  max_connection_life_time = some (pos 30000000000);
  charset = codes "utf8";
  collation = codes "utf8_general_ci";
  table_prefix = codes "t_";
  slow_threshold = none;
  tls_config = none;
  enable_compression = false;
}

abbrev pub new_clickhouse_options : ClickhouseOptions
new_clickhouse_options = record {
  host = codes "localhost";
  username = codes "idas";
  password = record { value = []; secret = [] };
  schema = codes "idas";
  max_idle_connections = pos 2;
  max_open_connections = pos 100;
  max_connection_life_time = some (pos 30000000000);
  table_prefix = codes "t_";
  slow_threshold = none;
  dial_timeout = none;
  read_timeout = none;
  max_execution_time = none;
}

abbrev pub new_sqlite_options : SqliteOptions
new_sqlite_options = record {
  path = codes "data.db";
  table_prefix = codes "t_";
  slow_threshold = none;
}
