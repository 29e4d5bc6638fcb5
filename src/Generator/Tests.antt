-- ===== src/Generator/Tests.antt =====
-- Runs and witnesses for the generator.
use fuck.Base.{◌≡◌, ◌<◌, refl, [], ◌∷◌, codes, replicate, take, arith}
use fuck.Generator.{uint64, hash_seed, new_uuid}
use fuck.Generator.Laws.{new_uuid_order}

-- the blocks of a seed of 9 bytes
two_blocks : hash_seed 0 ((0 ∷ 0 ∷ 0 ∷ 0 ∷ 0 ∷ 0 ∷ 1 ∷ 2 ∷ 1 ∷ []) ∷ []) ≡ 72057594037928194
two_blocks = refl

-- the sum of the blocks wraps around
wrapped : hash_seed 0 (replicate 8 255 ∷ (0 ∷ 0 ∷ 0 ∷ 0 ∷ 0 ∷ 0 ∷ 0 ∷ 3 ∷ []) ∷ []) ≡ 2
wrapped = refl

time_in_front : new_uuid 258 (replicate 16 7) [] ≡ 0 ∷ 0 ∷ 0 ∷ 0 ∷ 0 ∷ 0 ∷ 1 ∷ 2 ∷ replicate 8 7
unfolding new_uuid
time_in_front = refl

new_uuid_order_example :
    uint64 (take 8 (new_uuid 1700000000000000 (replicate 16 9) (codes "user" ∷ [])))
    < uint64 (take 8 (new_uuid 1700000000000001 (replicate 16 3) (codes "user" ∷ [])))
new_uuid_order_example =
    new_uuid_order (codes "user" ∷ []) 1700000000000000 1700000000000001 (replicate 16 9)
      (replicate 16 3) (omega arith) (omega arith)
