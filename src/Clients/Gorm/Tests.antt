-- ===== src/Clients/Gorm/Tests.antt =====
-- Runs and witnesses for gorm and tls.
use fuck.Base.{
  ℕ, suc, ◌≡◌, refl, Bool, true, false, not, ◌&&◌, ◌||◌, List, [], ◌∷◌, ◌++◌, none, some, Bytes,
  codes, same, if◌then◌else◌,
}
use fuck.Base.Decimal.{read_int}
use fuck.Base.Int.{ℤ, pos}
use fuck.Clients.Gorm.Client.{
  new_sqlite_client, bad_threshold, DbOptions, Client, World, finish_client, sqlite_close, collect,
}
use fuck.Clients.Gorm.Laws.{IsServer, Ready, open_mysql_conn-Ready}
use fuck.Clients.Gorm.Clickhouse.{open_clickhouse_conn_timeout}
use fuck.Clients.Gorm.Close.{close_made, close-finish_client}
use fuck.Clients.Gorm.Logger.{
  silent, info_level, warn, log_mode, trace_level, trace, no_error, record_not_found,
}
use fuck.Clients.Gorm.Open.{
  MysqlConfig, opened, server_error, Server, Printer, connected, crashed, open_mysql_conn,
  open_clickhouse_conn,
}
use fuck.Clients.Gorm.Options.{NamedTls, new_mysql_options, new_clickhouse_options, peer}
use fuck.Clients.Tls.{refused, no_key_file, new_tls_config}
use fuck.Crypto.Outcome.{ok}
use fuck.Safe.Sample.{sample, fives}
use fuck.Safe.SafeString.{equal, unsafe_string}
use fuck.Signals.{new_handler}

abbrev env : Bytes
env = codes "environment"

abbrev show : ℤ → Bytes
show d = []

abbrev insecure : NamedTls
insecure = record {
  options = some (record {
    ca_file = [];
    cert_file = [];
    key_file = [];
    server_name = [];
    insecure_skip_verify = true;
    min_version = [];
  });
  name = codes "n";
}

readable : equal env sample fives new_mysql_options.password new_mysql_options.password ≡ ok true
unfolding equal unsafe_string
readable = refl

-- a server by the list of its schemas
abbrev has : List Bytes → Bytes → Bool
has [] n = false
has (m ∷ schemas) n = same n m || has schemas n

-- the user idas without a password, and schemas with the charset utf8
abbrev accepts : MysqlConfig → Bool
accepts c = same c.user (codes "idas") && same c.passwd []

abbrev may_create : Bytes → Bytes → Bytes → Bool
may_create n charset collation = same charset (codes "utf8")

-- a denied user has the code 1045, a schema that is there 1007
abbrev server : Server (List Bytes) MysqlConfig
server = record {
  open_ = λ s c. (
    s,
    if accepts c
        then (if has s c.db_name then opened 7 else server_error 1049)
        else server_error 1045,
  );
  create_schema = λ s id n charset collation.
      if may_create n charset collation && not (has s n) then (n ∷ s, false) else (s, true);
  close_ = λ s id. s;
}

server-IsServer : IsServer server has accepts may_create
server-IsServer = record {
  opens = λ s c a h. (7, rw (a, h) refl);
  refuses = λ s c a h. rw (a, h) refl;
  keeps = λ s c n. refl;
  creates = λ s id n charset collation may h. rw (may, h) refl;
  has-create = λ s id n charset collation m may h. rw (may, h) refl;
  has-close = λ s id m. refl;
}

no_secret : unsafe_string env sample fives new_mysql_options.password ≡ ok []
unfolding unsafe_string
no_secret = refl

open_mysql_conn-Ready_example :
    Ready server has accepts may_create server-IsServer
      (codes "idas")
      (has (codes "mysql" ∷ []))
      (open_mysql_conn env sample fives server new_mysql_options (codes "mysql" ∷ []))
open_mysql_conn-Ready_example =
    open_mysql_conn-Ready server has accepts may_create server-IsServer env sample fives
      new_mysql_options [] no_secret (λ schema. refl) (codes "mysql" ∷ []) refl refl

schema_made :
    open_mysql_conn env sample fives server new_mysql_options (codes "mysql" ∷ [])
    ≡ (codes "idas" ∷ codes "mysql" ∷ [], connected 7)
unfolding open_mysql_conn unsafe_string
schema_made = refl

abbrev clickhouse_server : Server ℕ (Bytes × Bytes)
clickhouse_server = record {
  open_ = λ s c. (suc s, opened s);
  create_schema = λ s id n charset collation. (s, false);
  close_ = λ s id. s;
}

abbrev print : Printer
print = record {
  print_url = λ user passwd host path q. user ++ codes "@" ++ host ++ path;
  print_duration = λ d. [];
}

no_clickhouse_secret : unsafe_string env sample fives new_clickhouse_options.password ≡ ok []
unfolding unsafe_string
no_clickhouse_secret = refl

open_clickhouse_conn_timeout_example :
    open_clickhouse_conn env sample fives clickhouse_server print
      (record new_clickhouse_options { read_timeout = some (pos 1000000000) })
      0
    ≡ (0, crashed)
open_clickhouse_conn_timeout_example =
    open_clickhouse_conn_timeout env sample fives print clickhouse_server
      (record new_clickhouse_options { read_timeout = some (pos 1000000000) }) [] 0
      no_clickhouse_secret

without_timeout :
    (open_clickhouse_conn env sample fives clickhouse_server print new_clickhouse_options 0).1
    ≡ connected 0
unfolding open_clickhouse_conn unsafe_string
without_timeout = refl

abbrev world : World
world = record { instances = []; handler = new_handler; closed = [] }

abbrev options : DbOptions
options = record {
  type_ = codes "mysql";
  db_name = codes "idas";
  peer_name = codes "h";
  peer_port = pos 3306;
}

close-finish_client_example :
    (close_made (finish_client (codes "id") [] (pos 0) options (connected 3) world)).instances ≡ []
close-finish_client_example =
    close-finish_client (codes "id") [] (pos 0) options (connected 3) world refl refl

-- a client of SQLite stays in the collector when it is closed
abbrev sqlite : Client
sqlite = record {
  name = codes "n";
  database = 3;
  slow_threshold = pos 0;
  options = record {
    type_ = codes "sqlite";
    db_name = codes "main";
    peer_name = codes "data.db";
    peer_port = pos 0;
  };
  stats_collector = codes "id";
}

still_collected :
    collect
      (λ id. true)
      (sqlite_close sqlite (record world { instances = (codes "id", sqlite) ∷ [] })).instances
    ≡ (codes "sqlite" ∷ codes "n" ∷ codes "data.db" ∷ codes "main" ∷ []) ∷ []
unfolding sqlite_close
still_collected = refl

with_port : peer (codes "db:3307") (pos 3306) ≡ (codes "db", pos 3307)
unfolding read_int
with_port = refl

no_port : peer (codes "db:x") (pos 3306) ≡ (codes "db:x", pos 3306)
unfolding read_int
no_port = refl

-- A logger that is silent stays so.
stays_silent :
    trace
      (log_mode info_level (log_mode silent (record { filters = []; slow_threshold = pos 5 })))
      (pos 9)
      no_error
    ≡ none
unfolding log_mode trace_level
stays_silent = refl

slow : trace (record { filters = []; slow_threshold = pos 5 }) (pos 9) record_not_found ≡ some warn
unfolding trace_level
slow = refl

cert_alone :
    new_tls_config
      (record { read_file = λ f. none; is_pem = λ b. true; is_key_pair = λ c k. true })
      (some (record {
        ca_file = [];
        cert_file = codes "c";
        key_file = [];
        server_name = [];
        insecure_skip_verify = false;
        min_version = codes "TLS12";
      }))
    ≡ refused no_key_file
unfolding new_tls_config
cert_alone = refl

-- A threshold that is no duration: no file is opened.
no_duration :
    new_sqlite_client
      (codes "id")
      []
      (λ d. none)
      (λ n path. (suc n, opened n))
      (record { path = codes "data.db"; table_prefix = []; slow_threshold = some (pos 0, pos 7) })
      0
      world
    ≡ ((bad_threshold, world), 0)
unfolding new_sqlite_client
no_duration = refl
