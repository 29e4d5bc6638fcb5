-- ===== src/Clients/Redis/Options.antt =====
-- clients/redis/redis.go: the options and the making of a client.
use fuck.Base.{ℕ, Bool, true, false, [], ◌∷◌, Option, none, some, Bytes}
use fuck.Base.Int.{ℤ, pos}
use fuck.Crypto.Outcome.{Outcome, ok, failed, panicked}
use fuck.Safe.Options.{CryptError, Libraries}
use fuck.Safe.SafeString.{SafeString, string, set_value}
use fuck.Signals.{Handler, level_db, pre_stop}
use fuck.Wrapper.Values.{default_pointer, default_string}

-- the `Options` of go-redis, less the ones that the source never sets
pub record RedisOptions : Type 0 where
  pub password : Bytes
  pub db : ℤ
  pub max_retries : ℤ
  pub min_retry_backoff : ℤ
  pub max_retry_backoff : ℤ
  pub dial_timeout : ℤ
  pub read_timeout : ℤ
  pub write_timeout : ℤ
  pub pool_size : ℤ
  pub min_idle_conns : ℤ
  pub max_conn_age : ℤ
  pub pool_timeout : ℤ
  pub idle_timeout : ℤ
  pub idle_check_frequency : ℤ

-- what the JSON object gives; a field that it does not name is none
pub record Plain : Type 0 where
  pub url : Bytes
  pub db : Option ℤ
  pub max_retries : Option ℤ
  pub min_retry_backoff : Option ℤ
  pub max_retry_backoff : Option ℤ
  pub dial_timeout : Option ℤ
  pub read_timeout : Option ℤ
  pub write_timeout : Option ℤ
  pub pool_size : Option ℤ
  pub min_idle_conns : Option ℤ
  pub max_conn_age : Option ℤ
  pub pool_timeout : Option ℤ
  pub idle_timeout : Option ℤ
  pub idle_check_frequency : Option ℤ

-- `*w.DefaultPointer(given, &parsed)`
abbrev pub given_or : Option ℤ → ℤ → ℤ
given_or given parsed = elim (default_pointer (given ∷ some parsed ∷ [])) [
  | none ↦ parsed
  | some n ↦ n
]

-- the assignments to the fields of `o.o`
abbrev pub overridden : Plain → RedisOptions → RedisOptions
overridden o r = record {
  password = r.password;
  db = given_or o.db r.db;
  max_retries = given_or o.max_retries r.max_retries;
  min_retry_backoff = given_or o.min_retry_backoff r.min_retry_backoff;
  max_retry_backoff = given_or o.max_retry_backoff r.max_retry_backoff;
  dial_timeout = given_or o.dial_timeout r.dial_timeout;
  read_timeout = given_or o.read_timeout r.read_timeout;
  write_timeout = given_or o.write_timeout r.write_timeout;
  pool_size = given_or o.pool_size r.pool_size;
  min_idle_conns = given_or o.min_idle_conns r.min_idle_conns;
  max_conn_age = given_or o.max_conn_age r.max_conn_age;
  pool_timeout = given_or o.pool_timeout r.pool_timeout;
  idle_timeout = given_or o.idle_timeout r.idle_timeout;
  idle_check_frequency = given_or o.idle_check_frequency r.idle_check_frequency;
}

-- a URL in quotes, or an object with the password, which a decoder of JSON has read
pub data Json : Type 0 where
  quoted_url : (url : Bytes) → Json
  object : (plain : Plain) (password : SafeString) → Json

pub data OptionsError : Type 0 where
  bad_url bad_password : OptionsError

-- `redis.ParseURL`, the environment variable of the secret, the libraries of safe
pub record Setting : Type 0 where
  pub parse_url : Bytes → Option RedisOptions
  pub env : Bytes
  pub lib : Libraries
  pub random : ℕ → Option Bytes

module _ (at : Setting) where
  -- `o.Password.SetValue(w.DefaultString(o.Password.String(), o.o.Password))`
  abbrev pub password_of : SafeString → Bytes → Outcome CryptError SafeString
  password_of e parsed = elim (string at.env at.lib at.random e) [
    | panicked ↦ panicked
    | failed err ↦ failed err
    | ok e' ↦
        let assigned =
          set_value at.env at.lib at.random (default_string (e'.value ∷ parsed ∷ [])) e' in
        elim assigned.0 [ panicked ↦ panicked | failed err ↦ failed err | ok value ↦ ok assigned.1 ]
  ]

  abbrev pub with_password_of :
      SafeString → RedisOptions → RedisOptions → Outcome OptionsError (SafeString × RedisOptions)
  with_password_of e parsed r = elim (password_of e parsed.password) [
    | panicked ↦ panicked
    | failed err ↦ failed bad_password
    | ok e' ↦ ok (e', r)
  ]

  -- `(*Options) UnmarshalJSON` without TLS, for the password that was there before
  unfoldable pub unmarshal_json :
      SafeString → Json → Outcome OptionsError (SafeString × RedisOptions)
  unfolding string set_value
  unmarshal_json before (quoted_url url) = elim (at.parse_url url) [
    | none ↦ failed bad_url
    | some r ↦ with_password_of before r r
  ]
  unmarshal_json before (object plain password) = elim (at.parse_url plain.url) [
    | none ↦ failed bad_url
    | some r ↦ with_password_of password r (overridden plain r)
  ]

-- how `NewRedisClient` ends, with the clients that are closed by it
pub data Connected : Type 0 where
  client : (id : ℕ) → Connected
  ping_failed : (closed : ℕ) → Connected
  no_password : Connected
  crashed : Connected

-- `NewRedisClient`, for the outcome of `UnsafeString`, whether `Ping` succeeds, and the handler of
-- signals
unfoldable pub new_redis_client :
    Outcome CryptError Bytes → Bool → ℕ → Handler ℕ → Connected × Handler ℕ
unfolding pre_stop
new_redis_client panicked ping id handler = (crashed, handler)
new_redis_client (failed err) ping id handler = (no_password, handler)
new_redis_client (ok password) false id handler = (ping_failed id, handler)
new_redis_client (ok password) true id handler = elim (pre_stop level_db id handler) [
  | none ↦ (crashed, handler)
  | some handler' ↦ (client id, handler')
]

-- what `url.Parse` makes of a URL, for `GetPeer`; `atoi` is `strconv.Atoi`, 0 on an error
abbrev pub get_peer : Option (Bytes × Bytes) → (Bytes → ℤ) → Bytes × ℤ
get_peer none atoi = ([], pos 0)
get_peer (some (hostname, port)) atoi = (hostname, atoi port)
