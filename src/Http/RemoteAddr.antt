-- ===== src/Http/RemoteAddr.antt =====
-- http/http.go: which address `GetRemoteAddr` picks.
use fuck.Base.{
  ◌≡◌, refl, sym, ap, ◌∙◌, subst, ◌⊎◌, inl, inr, Bool, true, false, List, [], ◌∷◌, ◌++◌, none, some,
  Bytes, Bool-cases, Option-cases,
}
use fuck.Http.{Net, host, split, contains, skipped, scan, reverse, get_remote_addr}
use fuck.Http.Parts.{join, all_free, IsHost, join-split, all_free-split, host-IsHost}

module _ (net : Net) (trust_ip : List (net.Ip → Bool)) where
  -- some network has the address
  pub data IsTrusted (ip : net.Ip) : List (net.Ip → Bool) → Type 0 where
    here :
        {ip_net : net.Ip → Bool} {s : List (net.Ip → Bool)}
        → ip_net ip ≡ true
        → IsTrusted ip (ip_net ∷ s)
    there :
        {ip_net : net.Ip → Bool} {s : List (net.Ip → Bool)}
        → IsTrusted ip s
        → IsTrusted ip (ip_net ∷ s)

  -- no network has it
  pub data IsForeign (ip : net.Ip) : List (net.Ip → Bool) → Type 0 where
    nowhere : IsForeign ip []
    also :
        {ip_net : net.Ip → Bool} {s : List (net.Ip → Bool)}
        → ip_net ip ≡ false
        → IsForeign ip s
        → IsForeign ip (ip_net ∷ s)

  -- an entry that is no address, or one of a trusted or of a local machine
  pub data IsHop (s : Bytes) : Type 0 where
    no_address : net.parse_ip s ≡ none → IsHop s
    trusted : (ip : net.Ip) → net.parse_ip s ≡ some ip → IsTrusted ip trust_ip → IsHop s
    no_global :
        (ip : net.Ip) → net.parse_ip s ≡ some ip → net.is_global_unicast ip ≡ false → IsHop s
    private : (ip : net.Ip) → net.parse_ip s ≡ some ip → net.is_private ip ≡ true → IsHop s

  -- an address that is neither trusted nor local
  pub record IsRemote (s : Bytes) : Type 0 where
    pub ip : net.Ip
    pub parsed : net.parse_ip s ≡ some ip
    pub foreign : IsForeign ip trust_ip
    pub global : net.is_global_unicast ip ≡ true
    pub public : net.is_private ip ≡ false

  pub data AllHops : List Bytes → Type 0 where
    no_hops : AllHops []
    hop : {s : Bytes} {parts : List Bytes} → IsHop s → AllHops parts → AllHops (s ∷ parts)

  -- the last entry that is no hop
  pub IsLast : List Bytes → Bytes → Type 0
  IsLast parts s =
      (before : List Bytes) × (after : List Bytes) × (parts ≡ before ++ s ∷ after)
      × IsRemote s
      × AllHops after

  contains_lem :
      (ip : net.Ip) (s : List (net.Ip → Bool))
      → ((contains net s ip ≡ true) × IsTrusted ip s)
        ⊎ ((contains net s ip ≡ false) × IsForeign ip s)
  contains_lem ip [] = inr (refl, nowhere)
  contains_lem ip (ip_net ∷ s) = elim (Bool-cases (ip_net ip)) [
    | inl has ↦ inl (rw has refl, here has)
    | inr not_it ↦ elim (contains_lem ip s) [
      | inl (c, t) ↦ inl (rw not_it c, there t)
      | inr (c, f) ↦ inr (rw not_it c, also not_it f)
    ]
  ]

  -- the verdict of the loop on an entry that is an address
  judge :
      (s : Bytes) (ip : net.Ip)
      → net.parse_ip s ≡ some ip
      → ((skipped net trust_ip s ≡ true) × IsHop s)
        ⊎ ((skipped net trust_ip s ≡ false) × IsRemote s)
  unfolding skipped
  judge s ip p = elim (contains_lem ip trust_ip) [
    | inl (c, t) ↦ inl (rw (skipped, p, c) refl, trusted ip p t)
    | inr (c, f) ↦ elim (Bool-cases (net.is_global_unicast ip)) [
      | inr g ↦ inl (rw (skipped, p, c, g) refl, no_global ip p g)
      | inl g ↦ elim (Bool-cases (net.is_private ip)) [
        | inl l ↦ inl (rw (skipped, p, c, g, l) refl, private ip p l)
        | inr l ↦ inr (
          rw (skipped, p, c, g, l) refl,
          record { ip = ip; parsed = p; foreign = f; global = g; public = l },
        )
      ]
    ]
  ]

  skipped_lem :
      (s : Bytes)
      → ((skipped net trust_ip s ≡ true) × IsHop s)
        ⊎ ((skipped net trust_ip s ≡ false) × IsRemote s)
  unfolding skipped
  skipped_lem s = elim (Option-cases (net.parse_ip s)) [
    | inl n ↦ inl (rw (skipped, n) refl, no_address n)
    | inr (ip, p) ↦ judge s ip p
  ]

  scan-skip :
      (remote s : Bytes) (done : List Bytes)
      → skipped net trust_ip s ≡ true
      → scan net trust_ip remote (s ∷ done) ≡ scan net trust_ip remote done
  unfolding scan
  scan-skip remote s done h = rw h refl

  scan-stay :
      (remote s : Bytes) (done : List Bytes)
      → skipped net trust_ip s ≡ false
      → scan net trust_ip remote (s ∷ done) ≡ s
  unfolding scan
  scan-stay remote s done h = rw h refl

  scan-reverse :
      (remote : Bytes) (parts done : List Bytes)
      → (AllHops parts
          × (scan net trust_ip remote (reverse net parts done) ≡ scan net trust_ip remote done))
        ⊎ IsLast parts (scan net trust_ip remote (reverse net parts done))
  unfolding IsLast
  scan-reverse remote [] done = inl (no_hops, refl)
  scan-reverse remote (s ∷ parts) done = elim (scan-reverse remote parts (s ∷ done)) [
    | inl (rest, eq) ↦ elim (skipped_lem s) [
      | inl (skip, is_hop) ↦ inl (hop is_hop rest, eq ∙ scan-skip remote s done skip)
      | inr (stay, is_remote) ↦ inr (
          let found = eq ∙ scan-stay remote s done stay in
          subst (IsLast (s ∷ parts)) (sym found) ([], parts, refl, is_remote, rest))
    ]
    | inr (before, after, eq, is_remote, rest) ↦
        inr (s ∷ before, after, ap (◌∷◌ s) eq, is_remote, rest)
  ]

  -- The entries of `X-Forwarded-For` are what stands between its commas. `GetRemoteAddr` answers with
  -- the last entry that is an address of no trusted network, global unicast and not private; if there
  -- is none, with the address of the connection less its last colon and what stands behind it.
  pub get_remote_addr_lem :
      (remote_addr header : Bytes)
      → (parts : List Bytes) × (join b',' parts ≡ header)
        × (all_free b',' parts ≡ true)
        × ((AllHops parts × IsHost remote_addr (get_remote_addr net remote_addr header trust_ip))
            ⊎ IsLast parts (get_remote_addr net remote_addr header trust_ip))
  unfolding get_remote_addr scan
  get_remote_addr_lem remote_addr header = (
    split b',' header,
    join-split b',' header,
    all_free-split b',' header,
    elim (scan-reverse (host remote_addr) (split b',' header) []) [
      | inl (hops, eq) ↦ inl (hops, subst (IsHost remote_addr) (sym eq) (host-IsHost remote_addr))
      | inr last ↦ inr last
    ],
  )
