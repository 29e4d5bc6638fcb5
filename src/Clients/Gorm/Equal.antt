-- ===== src/Clients/Gorm/Equal.antt =====
-- clients/gorm/gorm_mysql.go: what `Equal` of the options does not see.
use fuck.Base.{ℕ, ◌≡◌, refl, ap, Bool, true, false, Option, none, some, Bytes, arith}
use fuck.Base.Int.{ℤ, pos, negsuc, is_int}
use fuck.Base.Text.{same_refl}
use fuck.Clients.Gorm.Options.{
  MysqlOptions, NamedTls, deep_equal, same_bool, tls_equal, duration_equal, mysql_equal,
}
use fuck.Clients.Tls.{TlsOptions}
use fuck.Crypto.Outcome.{ok}
use fuck.Safe.Options.{Libraries}
use fuck.Safe.SafeString.{equal}

same_bool_refl : (b : Bool) → same_bool b b ≡ true
same_bool_refl true = refl
same_bool_refl false = refl

is_int_refl : (z : ℤ) → is_int z z ≡ true
is_int_refl (pos n) = ground arith
is_int_refl (negsuc n) = ground arith

deep_equal_refl : (o : TlsOptions) → deep_equal o o ≡ true
deep_equal_refl o =
    rw
      (
        same_refl o.ca_file,
        same_refl o.cert_file,
        same_refl o.key_file,
        same_refl o.server_name,
        same_bool_refl o.insecure_skip_verify,
        same_refl o.min_version,
      )
      refl

named_equal_refl :
    (options : Option TlsOptions) (name : Bytes)
    → tls_equal
        (some (record { options = options; name = name }))
        (some (record { options = options; name = name }))
      ≡ some true
named_equal_refl none name = refl
named_equal_refl (some o) name = ap some (deep_equal_refl o)

tls_equal_refl : (o : Option NamedTls) → tls_equal o o ≡ some true
tls_equal_refl none = refl
tls_equal_refl (some o) = named_equal_refl o.options o.name

module _ (show : ℤ → Bytes) (env : Bytes) (lib : Libraries) (random : ℕ → Option Bytes) where
  duration_equal_refl : (d : Option ℤ) → duration_equal show env lib random d d ≡ true
  duration_equal_refl none = refl
  duration_equal_refl (some d) = same_refl (show d)

  -- `Equal` of options of mysql does not see a change of the options of TLS or of the compression: it
  -- is true for options that differ in these two only, whatever they are, if the password can be read.
  pub mysql_equal_tls :
      (x : MysqlOptions) (tls : Option NamedTls) (compression : Bool)
      → equal env lib random x.password x.password ≡ ok true
      → mysql_equal show env lib random x
          (record x { tls_config = tls; enable_compression = compression })
        ≡ ok true
  unfolding mysql_equal
  mysql_equal_tls x tls compression h =
      rw
        (
          mysql_equal,
          same_refl x.host,
          same_refl x.username,
          h,
          same_refl x.schema,
          is_int_refl x.max_idle_connections,
          is_int_refl x.max_open_connections,
          duration_equal_refl x.max_connection_life_time,
          same_refl x.charset,
          same_refl x.collation,
          same_refl x.table_prefix,
          duration_equal_refl x.slow_threshold,
          tls_equal_refl x.tls_config,
        )
        refl
