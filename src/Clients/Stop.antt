-- ===== src/Clients/Stop.antt =====
-- The clients of clients/gorm and clients/redis among the stop functions of signals/signal.go.
pub mod Tests
use fuck.Base.{ℕ, ◌≡◌, refl, Bytes, true, arith}
use fuck.Base.Int.{ℤ}
use fuck.Clients.Gorm.Client.{
  DbOptions, Client, World, NewClient, client, register_made, finish_client,
}
use fuck.Clients.Gorm.Open.{connected}
use fuck.Clients.Redis.Options
use fuck.Clients.Redis.Options.{Connected, new_redis_client}
use fuck.Crypto.Outcome.{ok}
use fuck.Signals.{Handler, level_db, pre_stop}
use fuck.Signals.Registered.{pre_stop-exiting}
use fuck.Signals.Stop.{idle, exiting, System, register, Reach, Steps, go, later}
use mathlib.Core.List.{Mem}

module _ (id name : Bytes) (slow : ℤ) (options : DbOptions) (database redis : ℕ)
    (password : Bytes) where
  -- a client of a database that is open, and a client of a redis server that answers, made one after
  -- the other
  abbrev pub two_clients : World → (NewClient × World) × (Connected × Handler ℕ)
  two_clients w =
      let first = finish_client id name slow options (connected database) w in
      (first, new_redis_client (ok password) true redis first.1.handler)

  -- While nobody stops the process, `NewMySQLClient`, `NewClickhouseClient` or `NewGormSQLiteClient`
  -- with an open connection, and `NewRedisClient` with a server that answers, succeed one after the
  -- other; and when `safeStop`, at any later time, comes to the call of `exitFunc` behind its loop, the
  -- functions that close the two connections have returned.
  pub two_clients-exiting :
      {s t : System ℕ} (w : World)
      → Reach s
      → s.pc ≡ idle
      → w.handler ≡ s.handler
      → Steps (record s { handler = (two_clients w).1.1 }) t
      → t.pc ≡ exiting
      → ((c : Client) × ((two_clients w).0.0 ≡ client c) × (c.database ≡ database))
        × ((two_clients w).1.0 ≡ Options.client redis)
        × Mem database (t.returned level_db)
        × Mem redis (t.returned level_db)
  unfolding finish_client new_redis_client
  two_clients-exiting {s} {t} w r at e run end =
      let (h, made, back) = pre_stop-exiting level_db database s r at (omega arith) in
      let r' : Reach (record s { handler = h }) = later r (register level_db database at made) in
      let (h2, made2, back2) =
        pre_stop-exiting level_db redis (record s { handler = h }) r' at (omega arith) in
      let run' : Steps (record s { handler = h2 }) t =
        rw (e, made, new_redis_client, made2) at run in
      (
        rw (e, made) (_, refl, refl),
        rw (e, made, new_redis_client, made2) refl,
        back t (go (register level_db redis at made2) run') end,
        back2 t run' end,
      )
