-- ===== src/Clients/Gorm/Client.antt =====
-- clients/gorm/gorm.go and gorm_metrics.go: the clients, and the collector that lists them.
use fuck.Base.{
  ℕ, Bool, not, List, [], ◌∷◌, ◌++◌, Option, none, some, Bytes, codes, length, same, ◌==◌,
  if◌then◌else◌,
}
use fuck.Base.Int.{ℤ, pos}
use fuck.Base.Text.{itoa}
use fuck.Clients.Gorm.Open.{
  MysqlConfig, Opened, OpenResult, connected, open_failed, crashed, Server, Printer, to_result,
  with_defaults, open_mysql_conn, open_clickhouse_conn,
}
use fuck.Clients.Gorm.Options.{
  MysqlOptions, ClickhouseOptions, SqliteOptions, mysql_peer, clickhouse_peer, sqlite_peer,
  std_max_life_time,
}
use fuck.Safe.Options.{Libraries}
use fuck.Signals.{Handler, level_db, pre_stop}

-- `options` by what the collector reads of them
pub record DbOptions : Type 0 where
  pub type_ : Bytes
  pub db_name : Bytes
  pub peer_name : Bytes
  pub peer_port : ℤ

-- `database` is the number of a connection
pub record Client : Type 0 where
  pub name : Bytes
  pub database : ℕ
  pub slow_threshold : ℤ
  pub options : DbOptions
  pub stats_collector : Bytes

-- the package's `collector`, the handler of signals, and the connections that are closed
pub record World : Type 0 where
  pub instances : List (Bytes × Client)
  pub handler : Handler ℕ
  pub closed : List ℕ

-- `Register`, with the new id; a map has an id once
abbrev pub put_instance : Bytes → Client → List (Bytes × Client) → List (Bytes × Client)
put_instance id c [] = (id, c) ∷ []
put_instance id c (entry ∷ rest) =
    let later = put_instance id c rest in if same id entry.0 then (id, c) ∷ rest else entry ∷ later

-- `Unregister`
abbrev pub unregister : Bytes → List (Bytes × Client) → List (Bytes × Client)
unregister id [] = []
unregister id (entry ∷ rest) =
    let later = unregister id rest in if same id entry.0 then rest else entry ∷ later

-- how the making of a client ends; `bad_threshold` is a slow threshold that is no duration
pub data NewClient : Type 0 where
  client : (c : Client) → NewClient
  bad_threshold : NewClient
  no_client : (r : OpenResult) → NewClient

-- the registration behind `PreStop`; a panic is `crashed`
abbrev pub register_made : Bytes → Client → Option (Handler ℕ) → World → NewClient × World
register_made id c none w = (no_client crashed, w)
register_made id c (some handler) w =
    (client c, record w { instances = put_instance id c w.instances; handler = handler })

-- What `NewMySQLClient`, `NewClickhouseClient` and `NewGormSQLiteClient` do with an opened connection:
-- the stop function, and the registration under a new id.
unfoldable pub finish_client :
    Bytes → Bytes → ℤ → DbOptions → OpenResult → World → NewClient × World
unfolding pre_stop
finish_client id name slow options (connected database) w =
    let c : Client = record {
      name = name;
      database = database;
      slow_threshold = slow;
      options = options;
      stats_collector = id;
    } in
    register_made id c (pre_stop level_db database w.handler) w
finish_client id name slow options r w = (no_client r, w)

abbrev pub slow_of : Option ℤ → ℤ
slow_of none = pos 0
slow_of (some d) = d

-- the threshold of the options of SQLite; none for an error
abbrev pub threshold_of : (ℤ × ℤ → Option ℤ) → Option (ℤ × ℤ) → Option ℤ
threshold_of from_proto none = some (pos 0)
threshold_of from_proto (some d) = from_proto d

-- `Close` of a client that is not nil, where `DB` gives its connection
unfoldable pub close : Client → World → World
close c w = record w {
  instances =
      if not (length c.stats_collector == 0)
      then unregister c.stats_collector w.instances
      else w.instances;
  closed = c.database ∷ w.closed;
}

-- `Close` of a `SQLiteClient`
unfoldable pub sqlite_close : Client → World → World
sqlite_close c w = record w { closed = c.database ∷ w.closed }

-- the labels of the gauges of a client
abbrev pub labels : Client → List Bytes
labels c =
    c.options.type_
    ∷ c.name
    ∷ (if same c.options.type_ (codes "sqlite")
        then c.options.peer_name
        else c.options.peer_name ++ codes ":" ++ itoa c.options.peer_port)
    ∷ c.options.db_name
    ∷ []

-- the clients that `Collect` reports, by their labels, in the order in which the map is met; one whose
-- connection is not to be had is passed over
abbrev pub collect : (ℕ → Bool) → List (Bytes × Client) → List (List Bytes)
collect has_db [] = []
collect has_db (entry ∷ rest) =
    let later = collect has_db rest in
    if has_db entry.1.database then labels entry.1 ∷ later else later

-- what a context carries for the package
pub data ConnValue : Type 0 where
  db_conn : (database : ℕ) → ConnValue
  other_value : ConnValue

-- the connection of `Session`: that of the context, if it has one
abbrev pub session_database : Client → Option ConnValue → ℕ
session_database c (some (db_conn database)) = database
session_database c _ = c.database

-- `db.DB()` behind an opening
abbrev pub checked : (ℕ → Bool) → OpenResult → OpenResult
checked has_db (connected id) = if has_db id then connected id else open_failed none
checked has_db r = r

-- the settings of a pool
pub record Pool : Type 0 where
  pub max_idle_conns : ℤ
  pub conn_max_lifetime : ℤ
  pub max_open_conns : ℤ

abbrev pub mysql_pool : MysqlOptions → Pool
mysql_pool o = record {
  max_idle_conns = o.max_idle_connections;
  conn_max_lifetime = std_max_life_time o.max_connection_life_time;
  max_open_conns = (with_defaults o).max_open_connections;
}

abbrev pub mysql_db_options : MysqlOptions → DbOptions
mysql_db_options o = record {
  type_ = codes "mysql";
  db_name = o.schema;
  peer_name = (mysql_peer o).0;
  peer_port = (mysql_peer o).1;
}

abbrev pub clickhouse_pool : ClickhouseOptions → Pool
clickhouse_pool o = record {
  max_idle_conns = o.max_idle_connections;
  conn_max_lifetime = std_max_life_time o.max_connection_life_time;
  max_open_conns = o.max_open_connections;
}

abbrev pub clickhouse_db_options : ClickhouseOptions → DbOptions
clickhouse_db_options o = record {
  type_ = codes "clickhouse";
  db_name = o.schema;
  peer_name = (clickhouse_peer o).0;
  peer_port = (clickhouse_peer o).1;
}

module _ (env : Bytes) (lib : Libraries) (random : ℕ → Option Bytes) (has_db : ℕ → Bool)
    (id name : Bytes) {S : Type 0} where
  -- `NewMySQLClient`, with the new id of the collector; the pool gets `mysql_pool`
  unfoldable pub new_mysql_client :
      Server S MysqlConfig → MysqlOptions → S → World → (NewClient × World) × S
  unfolding finish_client open_mysql_conn
  new_mysql_client server o s w =
      let (s', r) = open_mysql_conn env lib random server o s in
      (
        finish_client id name (slow_of o.slow_threshold) (mysql_db_options o) (checked has_db r) w,
        s',
      )

  -- `NewClickhouseClient`; the pool gets `clickhouse_pool`
  unfoldable pub new_clickhouse_client :
      Server S (Bytes × Bytes) → Printer → ClickhouseOptions → S → World → (NewClient × World) × S
  unfolding finish_client open_clickhouse_conn
  new_clickhouse_client server print o s w =
      let (s', r) = open_clickhouse_conn env lib random server print o s in
      (
        finish_client id name (slow_of o.slow_threshold) (clickhouse_db_options o)
            (checked has_db r) w,
        s',
      )

module _ (id name : Bytes) {S : Type 0} where
  -- `NewGormSQLiteClient`, for `DurationFromProto` and the opening of a file
  unfoldable pub new_sqlite_client :
      (ℤ × ℤ → Option ℤ)
      → (S → Bytes → S × Opened)
      → SqliteOptions
      → S
      → World
      → (NewClient × World) × S
  unfolding finish_client
  new_sqlite_client from_proto open_file o s w =
      let (s', r) = to_result (open_file s o.path) in
      let options : DbOptions = record {
        type_ = codes "sqlite";
        db_name = codes "main";
        peer_name = (sqlite_peer o).0;
        peer_port = (sqlite_peer o).1;
      } in
      elim (threshold_of from_proto o.slow_threshold) [
        | none ↦ ((bad_threshold, w), s)
        | some slow ↦ (finish_client id name slow options r w, s')
      ]
