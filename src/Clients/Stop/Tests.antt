-- ===== src/Clients/Stop/Tests.antt =====
-- A run of `safeStop` with a client of mysql and one of redis.
use fuck.Base.{ℕ, ◌≡◌, refl, [], ◌∷◌, ◌++◌, codes, true, replicate}
use fuck.Base.Int.{pos}
use fuck.Clients.Gorm.Client.{DbOptions, Client, World, client, finish_client}
use fuck.Clients.Redis.Options
use fuck.Clients.Redis.Options.{new_redis_client}
use fuck.Clients.Stop.{two_clients, two_clients-exiting}
use fuck.Signals.{Handler, new_handler, pre_stop, level_db}
use fuck.Signals.Finish.{IsQuiet, no_groups-IsQuiet, stop_ends}
use fuck.Signals.Stop.{System, Steps, go, call, lock, level, exiting, start, init}
use mathlib.Core.List.{Mem}

abbrev options : DbOptions
options = record {
  type_ = codes "mysql";
  db_name = codes "idas";
  peer_name = codes "h";
  peer_port = pos 3306;
}

abbrev world : World
world = record { instances = []; handler = new_handler; closed = [] }

abbrev both : Handler ℕ
both = record (new_handler {F = ℕ}) {
  pre_stop_funcs = replicate 10 [] ++ (3 ∷ 4 ∷ []) ∷ replicate 21 [];
}

both_lem : (two_clients (codes "id") [] (pos 0) options 3 4 [] world).1.1 ≡ both
unfolding finish_client new_redis_client pre_stop
both_lem = refl

abbrev stopping : System ℕ
stopping = record init { handler = record both { stopped = true }; pc = level 32; timers = 1 }

quiet : IsQuiet stopping.handler
quiet = no_groups-IsQuiet stopping.handler refl

abbrev ended : (t : System ℕ) × Steps stopping t × (t.pc ≡ exiting)
ended = stop_ends stopping refl quiet

run_of :
    Steps
      (record init { handler = (two_clients (codes "id") [] (pos 0) options 3 4 [] world).1.1 })
      ended.0
unfolding finish_client new_redis_client pre_stop
run_of = go (call refl) (go (lock refl refl refl) ended.1)

two_clients-exiting_example :
    ((c : Client) × ((two_clients (codes "id") [] (pos 0) options 3 4 [] world).0.0 ≡ client c)
      × (c.database ≡ 3))
    × ((two_clients (codes "id") [] (pos 0) options 3 4 [] world).1.0 ≡ Options.client 4)
    × Mem 3 (ended.0.returned level_db)
    × Mem 4 (ended.0.returned level_db)
two_clients-exiting_example =
    two_clients-exiting (codes "id") [] (pos 0) options 3 4 [] world start refl refl run_of ended.2
