-- ===== src/Clients/Redis.antt =====
-- clients/redis/redis.go: the loop over the members of a set, the options, and the text of a
-- command. github.com/go-redis/redis is a parameter.
pub mod Options
pub mod Command
pub mod Foreach
pub mod Tests
use fuck.Base.{
  ℕ, zero, suc, ◌+◌, Bool, true, false, not, List, [], ◌∷◌, ◌++◌, Option, none, some, Bytes, codes,
  length, ltb, ◌==◌, if◌then◌else◌,
}
use fuck.Base.Int.{ℤ, pos, negsuc, is_int, ltb_ℤ}
use fuck.Base.Text.{itoa, format_uint}
use fuck.Wrapper.Values.{default_pointer, default_string}

-- what the function that is called for a member returns; `stop` is `ErrStopLoop`
pub data Verdict (E : Type 0) : Type 0 where
  go_on stop : Verdict E
  fail : (err : E) → Verdict E

-- The client and the context, on a state that the server, the caller's function and time share.
pub record Server (S E : Type 0) : Type 0 where
  pub s_card : S → S × (ℤ × Option E)
  pub s_scan : ℕ → ℤ → S → S × ((List Bytes × ℕ) × Option E)
  pub is_done : S → Bool

-- `returned` is the end of the call; `running` is a loop that is out of rounds.
pub data End (E : Type 0) : Type 0 where
  returned : (err : Option E) → End E
  running : End E

module _ {S E : Type 0} where
  -- what a verdict makes of the rest of a page
  abbrev pub after_member : Verdict E → S → S × Option E → S × Option E
  after_member go_on s rest = rest
  after_member stop s rest = (s, none)
  after_member (fail err) s rest = (s, some err)

  -- the end of a round: an error, a page that is not full, or the next round
  abbrev pub after_page : Option E → Bool → S × End E → S → S × End E
  after_page (some err) is_short rest s = (s, returned (some err))
  after_page none is_short rest s = if is_short then (s, returned none) else rest

module _ {S E : Type 0} (f : Bytes → S → S × Verdict E) where
  -- `for _, member := range ret`: the error to be returned, if it is one
  pub each_member : List Bytes → S → S × Option E
  each_member [] s = (s, none)
  each_member (member ∷ ret) s =
      let (s', verdict) = f member s in after_member verdict s' (each_member ret s')

module _ {S E : Type 0} (server : Server S E) (f : Bytes → S → S × Verdict E) where
  -- `for { … }` in at most so many rounds
  pub scan_loop : ℕ → ℕ → ℤ → S → S × End E
  unfolding each_member
  scan_loop zero cursor page_size s = (s, running)
  scan_loop (suc fuel) cursor page_size s =
      let waited = scan_loop fuel cursor page_size s in
      let (s', ((ret, cursor'), err)) = server.s_scan cursor page_size s in
      let (s'', failed) = each_member f ret s' in
      let rest = scan_loop fuel cursor' page_size s'' in
      if server.is_done s then waited else elim err [
        | some e ↦ (s', returned (some e))
        | none ↦ after_page failed (ltb_ℤ (pos (length ret)) page_size) rest s''
      ]

  unfoldable pub foreach_set : ℕ → ℕ → ℤ → S → S × End E
  unfolding scan_loop
  foreach_set fuel cursor page_size s =
      let (s', (list_length, err)) = server.s_card s in
      let size = if is_int page_size (pos 0) then pos 100 else page_size in
      elim err [
        | some e ↦ (s', returned (some e))
        | none ↦
            if is_int list_length (pos 0)
            then (s', returned none)
            else scan_loop fuel cursor size s'
      ]
