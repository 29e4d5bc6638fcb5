-- ===== src/Clients/Gorm/Clickhouse.antt =====
-- clients/gorm/gorm_clickhouse.go: the opening of a connection, with timeouts and without.
use fuck.Base.{
  ℕ, fun_ext, ◌≡◌, refl, ap, Bool, true, false, ◌||◌, [], ◌∷◌, Option, none, some, Bytes, codes,
  inl, inr, Bool-cases, if◌then◌else◌,
}
use fuck.Base.Int.{ℤ}
use fuck.Clients.Gorm.Open.{
  OpenResult, Server, open_conn, get_dsn, clickhouse_connect, open_clickhouse_conn, crashed,
  to_result, query_of, no_query, Printer,
}
use fuck.Clients.Gorm.Options.{ClickhouseOptions}
use fuck.Crypto.Outcome.{ok, panicked}
use fuck.Safe.Options.{Libraries}
use fuck.Safe.SafeString.{unsafe_string}

abbrev pub is_given : Option ℤ → Bool
is_given none = false
is_given (some d) = true

abbrev pub has_timeout : ClickhouseOptions → Bool
has_timeout o = is_given o.dial_timeout || is_given o.read_timeout || is_given o.max_execution_time

-- what `GetDSN` does to its nil map
query_of-is_given :
    (show : ℤ → Bytes) (a b c : Option ℤ)
    → query_of show a b c
      ≡ (if is_given a || is_given b || is_given c then panicked else ok no_query)
query_of-is_given show (some d) b c = refl
query_of-is_given show none (some d) c = refl
query_of-is_given show none none (some d) = refl
query_of-is_given show none none none = refl

module _ (env : Bytes) (lib : Libraries) (random : ℕ → Option Bytes) (print : Printer) where
  get_dsn-is_given :
      (o : ClickhouseOptions) (passwd schema : Bytes)
      → unsafe_string env lib random o.password ≡ ok passwd
      → get_dsn env lib random print (record o { schema = schema }) ≡ (
          if has_timeout o
          then panicked
          else ok (print.print_url o.username passwd o.host (b'/' ∷ schema) no_query))
  unfolding get_dsn
  get_dsn-is_given o passwd schema read =
      let e =
        query_of-is_given print.print_duration o.dial_timeout o.read_timeout o.max_execution_time in
      elim (Bool-cases (has_timeout o)) [
        | inl given ↦ rw (get_dsn, read, e, given) refl
        | inr absent ↦ rw (get_dsn, read, e, absent) refl
      ]

  module _ {S : Type 0} (server : Server S (Bytes × Bytes)) where
    -- an opening with a DSN that has no query
    abbrev pub connect_plain : ClickhouseOptions → Bytes → S → Bytes → S × OpenResult
    connect_plain o passwd s schema =
        let dsn = print.print_url o.username passwd o.host (b'/' ∷ schema) no_query in
        to_result (server.open_ s (dsn, o.table_prefix))

    connect-connect_plain :
        (o : ClickhouseOptions) (passwd : Bytes) (s : S)
        → unsafe_string env lib random o.password ≡ ok passwd
        → has_timeout o ≡ false
        → (schema : Bytes)
        → clickhouse_connect env lib random server print o s schema
          ≡ connect_plain o passwd s schema
    connect-connect_plain o passwd s read absent schema =
        rw (get_dsn-is_given o passwd schema read, absent) refl

    -- With a password that can be read, `openClickhouseConn` panics before it asks the server, if its
    -- options have a timeout; if they have none, it does what the opening of a schema that may be
    -- missing does with connections whose DSN has no query.
    pub open_clickhouse_conn_timeout :
        (o : ClickhouseOptions) (passwd : Bytes) (s : S)
        → unsafe_string env lib random o.password ≡ ok passwd
        → open_clickhouse_conn env lib random server print o s ≡ (
            if has_timeout o
            then (s, crashed)
            else open_conn
                (connect_plain o passwd)
                (λ s id. server.create_schema s id o.schema [] [])
                server.close_
                (codes "clickhouse")
                o.schema
                s)
    unfolding open_clickhouse_conn open_conn
    open_clickhouse_conn_timeout o passwd s read = elim (Bool-cases (has_timeout o)) [
      | inl given ↦
          rw (open_clickhouse_conn, open_conn, get_dsn-is_given o passwd o.schema read, given) refl
      | inr absent ↦ rw absent (
          ap
            (λ connect.
              open_conn connect (λ s id. server.create_schema s id o.schema [] []) server.close_
                (codes "clickhouse") o.schema s)
            (fun_ext (λ s'. fun_ext (connect-connect_plain o passwd s' read absent))))
    ]
