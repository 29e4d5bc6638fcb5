-- ===== src/Clients/Gorm/Laws.antt =====
-- clients/gorm/gorm_mysql.go: when the opening ends with a connection.
use fuck.Base.{
  ℕ, ◌≡◌, refl, ap, ◌∙◌, Bool, true, false, ◌||◌, Option, some, Bytes, codes, same, arith, inl, inr,
  Bool-cases,
}
use fuck.Base.Text.{same_refl, same→eq}
use fuck.Clients.Gorm.Open.{
  MysqlConfig, opened, server_error, OpenResult, connected, open_failed, Server, after_create,
  open_conn, with_defaults, mysql_config, mysql_connect, open_mysql_conn,
}
use fuck.Clients.Gorm.Options.{MysqlOptions}
use fuck.Crypto.Outcome.{ok}
use fuck.Safe.Options.{Libraries}
use fuck.Safe.SafeString.{unsafe_string}

-- A server of mysql. `has` is what schemas it has; a connection with a configuration that it accepts
-- (its user and password, its TLS and the like) is opened to a schema that it has, and to another one
-- it is refused with the code 1049. A schema that it does not have is made, where the user may make it
-- with the charset and the collation.
pub record IsServer {S : Type 0} (server : Server S MysqlConfig) (has : S → Bytes → Bool)
    (accepts : MysqlConfig → Bool) (may_create : Bytes → Bytes → Bytes → Bool) : Type 0 where
  pub opens :
      (s : S) (c : MysqlConfig)
      → accepts c ≡ true
      → has s c.db_name ≡ true
      → (id : ℕ) × ((server.open_ s c).1 ≡ opened id)
  pub refuses :
      (s : S) (c : MysqlConfig)
      → accepts c ≡ true
      → has s c.db_name ≡ false
      → (server.open_ s c).1 ≡ server_error 1049
  pub keeps : (s : S) (c : MysqlConfig) (n : Bytes) → has (server.open_ s c).0 n ≡ has s n
  pub creates :
      (s : S) (id : ℕ) (n charset collation : Bytes)
      → may_create n charset collation ≡ true
      → has s n ≡ false
      → (server.create_schema s id n charset collation).1 ≡ false
  pub has-create :
      (s : S) (id : ℕ) (n charset collation m : Bytes)
      → may_create n charset collation ≡ true
      → has s n ≡ false
      → has (server.create_schema s id n charset collation).0 m ≡ (same m n || has s m)
  pub has-close : (s : S) (id : ℕ) (m : Bytes) → has (server.close_ s id) m ≡ has s m

module _ {S : Type 0} (server : Server S MysqlConfig) (has : S → Bytes → Bool)
    (accepts : MysqlConfig → Bool) (may_create : Bytes → Bytes → Bytes → Bool)
    (is_server : IsServer server has accepts may_create) where
  -- a connection, and a schema with those that were there
  abbrev pub Ready : Bytes → (Bytes → Bool) → S × OpenResult → Type 0
  Ready schema had r =
      (id : ℕ) × (r.1 ≡ connected id) × ((m : Bytes) → has r.0 m ≡ (same m schema || had m))

  module _ (env : Bytes) (lib : Libraries) (random : ℕ → Option Bytes) (o : MysqlOptions)
      (passwd : Bytes) (read : unsafe_string env lib random o.password ≡ ok passwd)
      (accepted : (schema : Bytes)
        → accepts (mysql_config (with_defaults o) passwd schema) ≡ true) where
    connect_there :
        (s : S) (schema : Bytes)
        → has s schema ≡ true
        → (id : ℕ) × (mysql_connect env lib random server o s schema
            ≡ ((server.open_ s (mysql_config (with_defaults o) passwd schema)).0, connected id))
    connect_there s schema h =
        let (id, e) =
          is_server.opens s (mysql_config (with_defaults o) passwd schema) (accepted schema) h in
        (id, rw (read, e) refl)

    connect_missing :
        (s : S) (schema : Bytes)
        → has s schema ≡ false
        → mysql_connect env lib random server o s schema ≡ (
          (server.open_ s (mysql_config (with_defaults o) passwd schema)).0,
          open_failed (some 1049),
        )
    connect_missing s schema h =
        rw
          (
            read,
            is_server.refuses s (mysql_config (with_defaults o) passwd schema) (accepted schema) h,
          )
          refl

    absorbed : (s : S) (m : Bytes) → has s o.schema ≡ true → has s m ≡ (same m o.schema || has s m)
    absorbed s m h = elim (Bool-cases (same m o.schema)) [
      | inl eq ↦ rw eq (ap (has s) (same→eq m o.schema eq) ∙ h)
      | inr ne ↦ rw ne refl
    ]

    create : S → ℕ → S × Bool
    create s id =
        server.create_schema s id o.schema (with_defaults o).charset (with_defaults o).collation

    -- behind the statement that has made the schema
    reconnect :
        (id : ℕ) (r : S × Bool) (had : Bytes → Bool)
        → r.1 ≡ false
        → ((m : Bytes) → has r.0 m ≡ (same m o.schema || had m))
        → Ready o.schema had (
            after_create
              (mysql_connect env lib random server o)
              create
              server.close_
              (codes "mysql")
              o.schema
              id
              r)
    reconnect id (s, true) had e h = absurd (ground (arith, e))
    reconnect id (s, false) had e h =
        let there : has s o.schema ≡ true =
          h o.schema ∙ ap (λ b. b || had o.schema) (same_refl o.schema) in
        let (new, at) = connect_there s o.schema there in
        rw at (
          new,
          refl,
          λ m.
              is_server.has-close _ id m
              ∙ is_server.keeps s (mysql_config (with_defaults o) passwd o.schema) m
              ∙ h m,
        )

    -- Over a server of mysql that has the schema `mysql`, that accepts the user, the password and the
    -- other settings of the options, and that lets this user make the schema of the options with their
    -- charset and collation, and with a password that can be read, `openMysqlConn` ends with a
    -- connection, and then the server has the schema of the options and the schemas that it had.
    pub open_mysql_conn-Ready :
        (s : S)
        → may_create o.schema (with_defaults o).charset (with_defaults o).collation ≡ true
        → has s (codes "mysql") ≡ true
        → Ready o.schema (has s) (open_mysql_conn env lib random server o s)
    unfolding open_mysql_conn open_conn create
    open_mysql_conn-Ready s may admin = elim (Bool-cases (has s o.schema)) [
      | inl there ↦
          let (id, e) = connect_there s o.schema there in
          rw (open_mysql_conn, open_conn, e)
            (
              id,
              refl,
              λ m.
                  is_server.keeps s (mysql_config (with_defaults o) passwd o.schema) m
                  ∙ absorbed s m there,
            )
      | inr missing ↦
          let s' = (server.open_ s (mysql_config (with_defaults o) passwd o.schema)).0 in
          let still : has s' (codes "mysql") ≡ true =
            is_server.keeps s (mysql_config (with_defaults o) passwd o.schema) (codes "mysql")
            ∙ admin in
          let (id, e) = connect_there s' (codes "mysql") still in
          let s'' = (server.open_ s' (mysql_config (with_defaults o) passwd (codes "mysql"))).0 in
          let kept : (m : Bytes) → has s'' m ≡ has s m = λ m.
            is_server.keeps s' (mysql_config (with_defaults o) passwd (codes "mysql")) m
            ∙ is_server.keeps s (mysql_config (with_defaults o) passwd o.schema) m in
          let absent : has s'' o.schema ≡ false = kept o.schema ∙ missing in
          rw (open_mysql_conn, open_conn, connect_missing s o.schema missing, e)
            (reconnect id (create s'' id) (has s)
              (is_server.creates s'' id o.schema (with_defaults o).charset
                (with_defaults o).collation may absent)
              (λ m.
                is_server.has-create s'' id o.schema (with_defaults o).charset
                  (with_defaults o).collation m may absent
                ∙ ap (λ b. same m o.schema || b) (kept m)))
    ]
