-- ===== src/Log/Ext/Pairs.antt =====
-- Key-value lists as lists of pairs, and what the loop of `extLogger` does to them.
use fuck.Base.{
  suc, ◌+◌, ◌*◌, ◌≡◌, refl, sym, ap, ◌∙◌, List, [], ◌∷◌, ◌++◌, some, length, get_elem?, set, arith,
  length-append, append_assoc,
}
use fuck.Log.{Item, caller_name, with_print}
use fuck.Log.Ext.{remove_pair}

abbrev pub Pairs : Type 0
Pairs = List (Item × Item)

abbrev pub flat : Pairs → List Item
flat [] = []
flat ((key, val) ∷ ps) = key ∷ val ∷ flat ps

-- the values behind `withPrint{}`
abbrev pub prints : Pairs → List Item
prints [] = []
prints ((with_print, val) ∷ ps) = val ∷ prints ps
prints (p ∷ ps) = prints ps

-- the value of the last caller, or `v`
abbrev pub last_caller : Item → Pairs → Item
last_caller v [] = v
last_caller v ((caller_name, val) ∷ ps) = last_caller val ps
last_caller v (p ∷ ps) = last_caller v ps

-- the pairs that are neither a caller nor to be printed
abbrev pub others : Pairs → Pairs
others [] = []
others ((caller_name, val) ∷ ps) = others ps
others ((with_print, val) ∷ ps) = others ps
others (p ∷ ps) = p ∷ others ps

-- the first caller keeps its place and takes the value of the last one
abbrev pub tidy : Pairs → Pairs
tidy [] = []
tidy ((caller_name, val) ∷ ps) = (caller_name, last_caller val ps) ∷ others ps
tidy ((with_print, val) ∷ ps) = tidy ps
tidy (p ∷ ps) = p ∷ tidy ps

pub length-flat : (ps : Pairs) → length (flat ps) ≡ 2 * length ps
length-flat [] = refl
length-flat (p ∷ ps) = omega (arith, length-flat ps)

pub flat-append : (ps qs : Pairs) → flat (ps ++ qs) ≡ flat ps ++ flat qs
flat-append [] qs = refl
flat-append ((key, val) ∷ ps) qs = rw (flat-append ps qs)

-- what stands at the index behind `ps`
pub at_key :
    (ps : Pairs) (k v : Item) (qs : List Item)
    → get_elem? (flat ps ++ k ∷ v ∷ qs) (2 * length ps) ≡ some k
at_key [] k v qs = refl
at_key (p ∷ ps) k v qs =
    let e : 2 * suc (length ps) ≡ suc (suc (2 * length ps)) = omega arith in rw e (at_key ps k v qs)

pub at_val :
    (ps : Pairs) (k v : Item) (qs : List Item)
    → get_elem? (flat ps ++ k ∷ v ∷ qs) (2 * length ps + 1) ≡ some v
at_val [] k v qs = refl
at_val (p ∷ ps) k v qs =
    let e : 2 * suc (length ps) + 1 ≡ suc (suc (2 * length ps + 1)) = omega arith in
    rw e (at_val ps k v qs)

pub set_val :
    (ps : Pairs) (k v w : Item) (qs : List Item)
    → set (flat ps ++ k ∷ v ∷ qs) (2 * length ps + 1) w ≡ flat ps ++ k ∷ w ∷ qs
set_val [] k v w qs = refl
set_val (p ∷ ps) k v w qs =
    let e : 2 * suc (length ps) + 1 ≡ suc (suc (2 * length ps + 1)) = omega arith in
    rw e (rw (set_val ps k v w qs))

pub removed :
    (ps : Pairs) (k v : Item) (qs : List Item)
    → remove_pair (2 * length ps) (flat ps ++ k ∷ v ∷ qs) ≡ flat ps ++ qs
removed [] k v qs = refl
removed (p ∷ ps) k v qs =
    let e : 2 * suc (length ps) ≡ suc (suc (2 * length ps)) = omega arith in
    let e' : 2 * suc (length ps) + 2 ≡ suc (suc (2 * length ps + 2)) = omega arith in
    rw (e', e) (rw (removed ps k v qs))

pub same_place :
    (b a : Pairs) (v w : Item)
    → 2 * length (b ++ (caller_name, v) ∷ a) ≡ 2 * length (b ++ (caller_name, w) ∷ a)
same_place b a v w =
    omega (arith, length-append b ((caller_name, v) ∷ a), length-append b ((caller_name, w) ∷ a))

-- a later caller: the first one takes its value, and its pair goes
pub recalled :
    (b a : Pairs) (v w k x : Item) (qs : List Item)
    → remove_pair
        (2 * length (b ++ (caller_name, v) ∷ a))
        (set (flat (b ++ (caller_name, v) ∷ a) ++ k ∷ x ∷ qs) (2 * length b + 1) w)
      ≡ flat (b ++ (caller_name, w) ∷ a) ++ qs
recalled b a v w k x qs =
    let split : (u : Item) (rs : List Item)
        → flat (b ++ (caller_name, u) ∷ a) ++ rs ≡ flat b ++ caller_name ∷ u ∷ (flat a ++ rs) =
      λ u rs.
        ap (λ l. l ++ rs) (flat-append b ((caller_name, u) ∷ a))
        ∙ append_assoc (flat b) (caller_name ∷ u ∷ flat a) rs in
    ap (λ l. remove_pair (2 * length (b ++ (caller_name, v) ∷ a)) (set l (2 * length b + 1) w))
      (split v (k ∷ x ∷ qs))
    ∙ ap (remove_pair (2 * length (b ++ (caller_name, v) ∷ a)))
        (set_val b caller_name v w (flat a ++ k ∷ x ∷ qs) ∙ sym (split w (k ∷ x ∷ qs)))
    ∙ ap (λ i. remove_pair i (flat (b ++ (caller_name, w) ∷ a) ++ k ∷ x ∷ qs)) (same_place b a v w)
    ∙ removed (b ++ (caller_name, w) ∷ a) k x qs
