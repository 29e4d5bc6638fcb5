-- ===== src/Clients/Nacos/Watch/Valid.antt =====
-- clients/nacos/client.go: valid targets of the watchdog, and the one target that a round visits.
use fuck.Base.{
  ℕ, ◌*◌, ◌≡◌, refl, ◌∙◌, Bool, true, false, not, ◌&&◌, ◌||◌, List, [], ◌∷◌, Option, none, some,
  Bytes, ◌==◌, arith, inl, inr, Option-cases,
}
use fuck.Clients.Nacos.Watch.{Content, WatchItem, is_for, second, next_backoff, answered, noticed}

-- 0, 1, 2, 4, 8 or 16 seconds
abbrev pub is_backoff : ℕ → Bool
is_backoff b =
    b == 0
    || b == second
    || b == 2 * second
    || b == 4 * second
    || b == 8 * second
    || b == 16 * second

abbrev pub all_backoffs : List WatchItem → Bool
all_backoffs [] = true
all_backoffs (t ∷ ts) = is_backoff t.backoff && all_backoffs ts

abbrev pub is_known : Bytes → Bytes → List WatchItem → Bool
is_known data_id group [] = false
is_known data_id group (t ∷ ts) = is_for data_id group t || is_known data_id group ts

-- no two targets have the same key
abbrev pub is_unique : List WatchItem → Bool
is_unique [] = true
is_unique (t ∷ ts) = not (is_known t.data_id t.group ts) && is_unique ts

pub record IsValid (ts : List WatchItem) : Type 0 where
  pub backoffs : all_backoffs ts ≡ true
  pub unique : is_unique ts ≡ true

next_backoff_lem : (b : ℕ) → is_backoff b ≡ true → is_backoff (next_backoff b) ≡ true
next_backoff_lem b h = ground (arith, h)

answered_lem :
    (now : ℕ) (a : Option Content) (t : WatchItem)
    → is_backoff t.backoff ≡ true
    → is_backoff (answered now a t).backoff ≡ true
answered_lem now none t h = next_backoff_lem t.backoff h
answered_lem now (some a) t h = ground (arith, h)

-- the same target after a round: its key and its listeners stay, and its backoff is one still
pub record Alike (t t' : WatchItem) : Type 0 where
  pub data_id : t'.data_id ≡ t.data_id
  pub group : t'.group ≡ t.group
  pub on_changes : t'.on_changes ≡ t.on_changes
  pub backoff : is_backoff t.backoff ≡ true → is_backoff t'.backoff ≡ true

pub data AllAlike : List WatchItem → List WatchItem → Type 0 where
  no_more : AllAlike [] []
  one_more :
      {t t' : WatchItem} {ts ts' : List WatchItem}
      → Alike t t'
      → AllAlike ts ts'
      → AllAlike (t ∷ ts) (t' ∷ ts')

pub Alike-refl : (t : WatchItem) → Alike t t
Alike-refl t = record { data_id = refl; group = refl; on_changes = refl; backoff = λ h. h }

pub AllAlike-refl : (ts : List WatchItem) → AllAlike ts ts
AllAlike-refl [] = no_more
AllAlike-refl (t ∷ ts) = one_more (Alike-refl t) (AllAlike-refl ts)

pub Alike-trans : {t u v : WatchItem} → Alike t u → Alike u v → Alike t v
Alike-trans a b = record {
  data_id = b.data_id ∙ a.data_id;
  group = b.group ∙ a.group;
  on_changes = b.on_changes ∙ a.on_changes;
  backoff = λ h. b.backoff (a.backoff h);
}

pub AllAlike-trans : {ts us vs : List WatchItem} → AllAlike ts us → AllAlike us vs → AllAlike ts vs
AllAlike-trans no_more b = b
AllAlike-trans (one_more a rest) (one_more b more) =
    one_more (Alike-trans a b) (AllAlike-trans rest more)

pub answered-Alike : (now : ℕ) (a : Option Content) (t : WatchItem) → Alike t (answered now a t)
answered-Alike now none t = record {
  data_id = refl;
  group = refl;
  on_changes = refl;
  backoff = next_backoff_lem t.backoff;
}
answered-Alike now (some a) t = record {
  data_id = refl;
  group = refl;
  on_changes = refl;
  backoff = λ h. ground (arith, h);
}

pub noticed-Alike : (a : Content) (t : WatchItem) → Alike t (noticed a t).0
noticed-Alike a t = record {
  data_id = ground (arith, kept);
  group = ground (arith, kept);
  on_changes = ground (arith, kept);
  backoff = λ h. ground (arith, h, kept);
}
  where
    kept :
        ((noticed a t).0.data_id ≡ t.data_id)
        × ((noticed a t).0.group ≡ t.group)
        × ((noticed a t).0.on_changes ≡ t.on_changes)
        × ((noticed a t).0.backoff ≡ t.backoff)
    kept = elim (Option-cases t.last_hash) [
      | inl no_hash ↦ rw no_hash (refl, refl, refl, refl)
      | inr (hash, e) ↦ ground (arith, e)
    ]
