-- ===== src/Http/Tests.antt =====
-- Runs of the package `http`, and an instance of the theorem.
use fuck.Base.{
  ℕ, ◌≡◌, refl, ◌⊎◌, Bool, true, List, [], ◌∷◌, Option, none, some, Bytes, codes, ltb, ◌==◌,
}
use fuck.Http.{Net, join_path, join_paths, host, last_index, split, scan, skipped, get_remote_addr}
use fuck.Http.Parts.{join, all_free, IsHost}
use fuck.Http.RemoteAddr.{AllHops, IsLast, get_remote_addr_lem}

join_runs :
    (join_paths (codes "a" ∷ codes "b" ∷ []) ≡ codes "/a/b")
    × (join_paths (codes "/a/" ∷ codes "/b" ∷ codes "c/" ∷ []) ≡ codes "/a/b/c/")
    × (join_paths (codes "/" ∷ codes "/b" ∷ []) ≡ codes "/b")
    × (join_paths (codes "a" ∷ []) ≡ codes "a")
    × (join_paths ([] ∷ [] ∷ []) ≡ codes "/")
unfolding join_path
join_runs = (refl, refl, refl, refl, refl)

-- addresses of one letter: a small one is local
abbrev parse_letter : Bytes → Option ℕ
parse_letter (c ∷ []) = some c
parse_letter _ = none

abbrev sample : Net
sample = record {
  Ip = ℕ;
  parse_ip = parse_letter;
  is_global_unicast = λ ip. true;
  is_private = λ ip. ltb ip b'a';
}

abbrev proxies : List (ℕ → Bool)
proxies = (λ ip. ip == b'z') ∷ []

-- the entry behind a comma and a space is no address
spaced_run : get_remote_addr sample (codes "p:80") (codes "c, d,z,1") proxies ≡ codes "c"
unfolding get_remote_addr scan skipped split host last_index
spaced_run = refl

get_remote_addr_lem_example :
    (parts : List Bytes) × (join b',' parts ≡ codes "c,d,z")
    × (all_free b',' parts ≡ true)
    × ((AllHops sample proxies parts
          × IsHost (codes "p:80") (get_remote_addr sample (codes "p:80") (codes "c,d,z") proxies))
        ⊎ IsLast sample proxies parts
            (get_remote_addr sample (codes "p:80") (codes "c,d,z") proxies))
get_remote_addr_lem_example = get_remote_addr_lem sample proxies (codes "p:80") (codes "c,d,z")
