-- ===== src/Clients/Redis/Tests.antt =====
-- Runs of the package redis, and an example of the theorem.
use fuck.Base.{
  ℕ, ◌≡◌, refl, true, false, ◌==◌, List, [], ◌∷◌, ◌++◌, none, Bytes, codes, same, if◌then◌else◌,
}
use fuck.Base.Int.{pos, negsuc}
use fuck.Signals.{new_handler, pre_stop, level_funcs}
use fuck.Crypto.Outcome.{ok}
use fuck.Clients.Redis.{
  Server, Verdict, go_on, stop, returned, running, each_member, scan_loop, foreach_set,
}
use fuck.Clients.Redis.Command.{int, bool, other, string, string_of}
use fuck.Clients.Redis.Options.{client, new_redis_client}

-- The state is the list of the members that were seen.
abbrev seen : Bytes → List Bytes → List Bytes × Verdict ℕ
seen member s = (s ++ member ∷ [], go_on)

-- the replies for a set of five members, for the cursors that the server has chosen
abbrev reply : ℕ → List Bytes × ℕ
reply cursor =
    if cursor == 0
    then (codes "a" ∷ codes "b" ∷ [], 12)
    else if cursor == 12
    then (codes "c" ∷ codes "d" ∷ [], 3)
    else (codes "e" ∷ [], 0)

abbrev serving : ℕ → (ℕ → List Bytes × ℕ) → Server (List Bytes) ℕ
serving card replies = record {
  s_card = λ s. (s, (pos card, none));
  s_scan = λ cursor page_size s. (s, (replies cursor, none));
  is_done = λ s. false;
}

abbrev pages : List (List Bytes)
pages = (codes "a" ∷ codes "b" ∷ []) ∷ (codes "c" ∷ codes "d" ∷ []) ∷ (codes "e" ∷ []) ∷ []

-- A page that is not full ends the loop though the server has a next cursor, and the members behind it
-- are not visited.
early_end :
    foreach_set
      (serving 3
        (λ cursor. if cursor == 0 then (codes "a" ∷ [], 7) else (codes "b" ∷ codes "c" ∷ [], 0)))
      seen
      9
      0
      (pos 2)
      []
    ≡ (codes "a" ∷ [], returned none)
unfolding foreach_set scan_loop each_member
early_end = refl

-- A full page with the cursor 0 starts the iteration over.
started_over :
    foreach_set (serving 2 (λ cursor. (codes "a" ∷ codes "b" ∷ [], 0))) seen 2 0 (pos 2) []
    ≡ (codes "a" ∷ codes "b" ∷ codes "a" ∷ codes "b" ∷ [], running)
unfolding foreach_set scan_loop each_member
started_over = refl

-- `ErrStopLoop` at the first member only ends the page
abbrev until_a : Bytes → List Bytes → List Bytes × Verdict ℕ
until_a member s = (s ++ member ∷ [], if same member (codes "a") then stop else go_on)

stop_run :
    foreach_set (serving 5 reply) until_a 3 0 (pos 2) []
    ≡ (codes "a" ∷ codes "c" ∷ codes "d" ∷ codes "e" ∷ [], returned none)
unfolding foreach_set scan_loop each_member
stop_run = refl

command_run :
    string_of
      (λ s. s)
      (string (codes "set") ∷ int (negsuc 4) ∷ bool true ∷ other (codes "main.T") ∷ [])
    ≡ codes "set -5 true <redis: can't marshal main.T (implement encoding.BinaryMarshaler)>"
unfolding string_of
command_run = refl

-- a client that answers is to be closed at the level 10
client_run :
    let (end, h) = new_redis_client (ok []) true 7 new_handler in
    (end ≡ client 7) × (level_funcs h 10 ≡ 7 ∷ []) × (level_funcs h 11 ≡ [])
unfolding new_redis_client pre_stop level_funcs
client_run = (refl, refl, refl)
