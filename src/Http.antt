-- ===== src/Http.antt =====
-- http/http.go: `JoinPath`, and the address of a client behind proxies.
mod Tests
pub mod Parts
pub mod RemoteAddr
use fuck.Base.{
  ℕ, zero, suc, ◌+◌, ◌-◌, Bool, true, false, not, ◌&&◌, ◌||◌, List, [], ◌∷◌, ◌++◌, Option, none,
  some, Bytes, codes, length, take, drop, get_elem?, ltb, ◌==◌, same, if◌then◌else◌,
}

-- the tests `len(b) != 0 && b[0] == '/'` and `a[len(a)-1] != '/'`
abbrev pub starts_with_slash : Bytes → Bool
starts_with_slash s = same (codes "/") (take 1 s)

abbrev pub ends_with_slash : Bytes → Bool
ends_with_slash s = same (codes "/") (drop (length s - 1) s)

unfoldable pub join_path : Bytes → Bytes → Bytes
join_path a b =
    let a' =
      if length a == 0 then codes "/" else if not (starts_with_slash a) then b'/' ∷ a else a in
    let b' = if starts_with_slash b then drop 1 b else b in
    let a'' =
      if not (length b' == 0) && ltb 1 (length a') && not (ends_with_slash a')
      then a' ++ codes "/"
      else a' in
    a'' ++ b'

abbrev join_all : Bytes → List Bytes → Bytes
join_all ret [] = ret
join_all ret (p ∷ ps) = join_all (join_path ret p) ps

-- `JoinPath`: a single path is left as it is
abbrev pub join_paths : List Bytes → Bytes
join_paths [] = []
join_paths (p ∷ ps) = join_all p ps

-- `strings.LastIndex(s, ":")`
unfoldable pub last_index : ℕ → Bytes → Option ℕ
last_index c [] = none
last_index c (x ∷ s) = elim (last_index c s) [
  | some i ↦ some (suc i)
  | none ↦ if x == c then some 0 else none
]

-- the address without the port
unfoldable pub host : Bytes → Bytes
unfolding last_index
host remote_addr = elim (last_index b':' remote_addr) [
  | none ↦ remote_addr
  | some i ↦ take i remote_addr
]

-- `strings.Split` with a separator of one byte
unfoldable pub split : ℕ → Bytes → List Bytes
split sep [] = [] ∷ []
split sep (x ∷ s) =
    let rest = split sep s in
    if x == sep
    then [] ∷ rest
    else elim rest [ [] ↦ (x ∷ []) ∷ [] | part ∷ parts ↦ (x ∷ part) ∷ parts ]

-- Package net: `parse_ip` is `net.ParseIP`, with none for nil.
pub record Net : Type 1 where
  pub Ip : Type 0
  pub parse_ip : Bytes → Option Ip
  pub is_global_unicast : Ip → Bool
  pub is_private : Ip → Bool

module _ (net : Net) where
  -- sets/sets.go: an `IPNets` as the tests of its networks
  abbrev pub contains : List (net.Ip → Bool) → net.Ip → Bool
  contains [] ip = false
  contains (ip_net ∷ s) ip = if ip_net ip then true else contains s ip

  -- an address that is passed over, or no address at all
  unfoldable pub skipped : List (net.Ip → Bool) → Bytes → Bool
  skipped trust_ip s = elim (net.parse_ip s) [
    | none ↦ true
    | some ip ↦ contains trust_ip ip || not (net.is_global_unicast ip) || net.is_private ip
  ]

  -- the loop from the last entry down to the one behind `remoteAddr`; `forwarded` is in that order
  unfoldable pub scan : List (net.Ip → Bool) → Bytes → List Bytes → Bytes
  unfolding skipped
  scan trust_ip remote [] = remote
  scan trust_ip remote (s ∷ forwarded) =
      if skipped trust_ip s then scan trust_ip remote forwarded else s

  abbrev reverse : List Bytes → List Bytes → List Bytes
  reverse [] done = done
  reverse (s ∷ parts) done = reverse parts (s ∷ done)

  -- `GetRemoteAddr`, of `r.RemoteAddr` and the header `X-Forwarded-For`
  unfoldable pub get_remote_addr : Bytes → Bytes → List (net.Ip → Bool) → Bytes
  unfolding scan host split
  get_remote_addr remote_addr header trust_ip =
      scan trust_ip (host remote_addr) (reverse (split b',' header) [])
