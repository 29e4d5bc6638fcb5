-- ===== src/Clients/Gorm/Close.antt =====
-- clients/gorm/gorm.go and gorm_metrics.go: a client that is made and closed.
use fuck.Base.{
  ℕ, ◌≡◌, refl, Bool, true, false, not, ◌&&◌, List, [], ◌∷◌, Option, none, some, Bytes, length,
  same, ◌==◌, arith,
}
use fuck.Base.Int.{ℤ}
use fuck.Base.Text.{same_refl}
use fuck.Clients.Gorm.Client.{
  DbOptions, Client, World, put_instance, unregister, NewClient, client, bad_threshold, no_client,
  register_made, finish_client, close,
}
use fuck.Clients.Gorm.Open.{OpenResult, connected, open_failed, create_failed, no_password, crashed}
use fuck.Signals.{Handler, level_db, pre_stop}

-- a client's id is not in use
abbrev pub is_free : Bytes → List (Bytes × Client) → Bool
is_free id [] = true
is_free id (entry ∷ rest) = not (same id entry.0) && is_free id rest

unregister-put_instance :
    (id : Bytes) (c : Client) (instances : List (Bytes × Client))
    → is_free id instances ≡ true
    → unregister id (put_instance id c instances) ≡ instances
unregister-put_instance id c [] h = rw (same_refl id) refl
unregister-put_instance id c (entry ∷ rest) h =
    let other : same id entry.0 ≡ false = ground (arith, h) in
    rw (other, unregister-put_instance id c rest (ground (arith, h)), other) refl

-- a client that is closed as soon as it is made
abbrev pub close_made : NewClient × World → World
close_made (client c, w) = close c w
close_made (bad_threshold, w) = w
close_made (no_client r, w) = w

close-register_made :
    (id : Bytes) (c : Client) (handler : Option (Handler ℕ)) (w : World)
    → is_free id w.instances ≡ true
    → (length c.stats_collector == 0) ≡ false
    → c.stats_collector ≡ id
    → (close_made (register_made id c handler w)).instances ≡ w.instances
unfolding close
close-register_made id c none w free full e = refl
close-register_made id c (some handler) w free full e =
    rw (close, full, e)
      (unregister-put_instance id (record c { stats_collector = id }) w.instances free)

-- However an opening has ended, the making of a client under an id that is not empty and not in use,
-- and its `Close`, leave the collector with the clients that it had. This is `Close` of `Client`.
pub close-finish_client :
    (id name : Bytes) (slow : ℤ) (options : DbOptions) (r : OpenResult) (w : World)
    → is_free id w.instances ≡ true
    → (length id == 0) ≡ false
    → (close_made (finish_client id name slow options r w)).instances ≡ w.instances
unfolding finish_client
close-finish_client id name slow options (connected database) w free full =
    close-register_made id
      (record {
        name = name;
        database = database;
        slow_threshold = slow;
        options = options;
        stats_collector = id;
      })
      (pre_stop level_db database w.handler) w free full refl
close-finish_client id name slow options (open_failed code) w free full = refl
close-finish_client id name slow options create_failed w free full = refl
close-finish_client id name slow options no_password w free full = refl
close-finish_client id name slow options crashed w free full = refl
