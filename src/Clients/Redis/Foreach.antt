-- ===== src/Clients/Redis/Foreach.antt =====
-- `ForeachSet` over the pages that a server hands out of a set.
use fuck.Base.{
  ℕ, zero, suc, ◌<◌, ◌≡◌, refl, Bool, true, false, List, [], ◌∷◌, ◌++◌, Option, none, some, Bytes,
  length, ◌≤◌,
}
use fuck.Base.Int.{ℤ, pos}
use fuck.Clients.Redis.{Verdict, stop, Server, End, returned, running, each_member, scan_loop}

abbrev pub is_stop : {E : Type 0} → Verdict E → Bool
is_stop stop = true
is_stop _ = false

abbrev pub concat : List (List Bytes) → List Bytes
concat [] = []
concat (page ∷ pages) = page ++ concat pages

-- A server with a set of `card` members that nobody changes, and a context that is never done:
-- `reply` gives the members and the next cursor for a cursor.
pub record Serves {S E : Type 0} (server : Server S E) (card : ℕ) (reply : ℕ → List Bytes × ℕ)
    : Type 0 where
  pub cards : (s : S) → server.s_card s ≡ (s, (pos card, none))
  pub scans :
      (cursor : ℕ) (size : ℤ) (s : S) → server.s_scan cursor size s ≡ (s, (reply cursor, none))
  pub goes_on : (s : S) → server.is_done s ≡ false

-- An iteration whose pages are full up to the last one, which ends it with the cursor 0 and is not
-- full.
pub data Iteration (reply : ℕ → List Bytes × ℕ) (size : ℕ) : ℕ → List (List Bytes) → Type 0 where
  last :
      {cursor : ℕ} (page : List Bytes)
      → reply cursor ≡ (page, 0)
      → length page < size
      → Iteration reply size cursor (page ∷ [])
  more :
      {cursor : ℕ} {pages : List (List Bytes)} (page : List Bytes) (next : ℕ)
      → reply cursor ≡ (page, suc next)
      → size ≤ length page
      → Iteration reply size (suc next) pages
      → Iteration reply size cursor (page ∷ pages)

module _ {S E : Type 0} (server : Server S E) (f : Bytes → S → S × Verdict E) where
  -- a done context is waited for without end
  pub scan_loop_done :
      (fuel cursor : ℕ) (page_size : ℤ) (s : S)
      → server.is_done s ≡ true
      → scan_loop server f fuel cursor page_size s ≡ (s, running)
  unfolding scan_loop
  scan_loop_done zero cursor page_size s d = refl
  scan_loop_done (suc fuel) cursor page_size s d =
      rw (scan_loop, d) (scan_loop_done fuel cursor page_size s d)

module _ {S E : Type 0} (f : Bytes → S → S × Verdict E) where
  -- the members of one page after those of another, if those have not failed
  abbrev pub and_then : S × Option E → List Bytes → S × Option E
  and_then (s, none) ys = each_member f ys s
  and_then (s, some err) ys = (s, some err)

  abbrev pub finished : S × Option E → S × End E
  finished (s, err) = (s, returned err)
