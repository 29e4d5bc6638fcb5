-- ===== src/Safe/SafeString/Tests.antt =====
-- Instances of the theorems on `String`, over the stand-ins of Safe/Sample.
use fuck.Base.{◌≡◌, refl, [], Bytes, codes, replicate}
use fuck.Crypto.Outcome.{ok}
use fuck.Safe.Sample.{sample, fives, sample-IsLibraries, fives-IsRandom}
use fuck.Safe.SafeString.{SafeString, set_value, unsafe_string}
use fuck.Safe.SafeString.Laws.{unsafe_string-set_value}

abbrev env : Bytes
env = codes "environment"

-- a text that is not encrypted, and no secret of its own
abbrev plain : SafeString
plain = record { value = codes "abc"; secret = [] }

plain_run : unsafe_string env sample fives plain ≡ ok (codes "abc")
unfolding unsafe_string
plain_run = refl

unsafe_string-set_value_example :
    ((v : Bytes) × ((set_value env sample fives (codes "xyz") plain).0 ≡ ok v))
    × (unsafe_string env sample fives (set_value env sample fives (codes "xyz") plain).1
        ≡ ok (codes "xyz"))
unsafe_string-set_value_example =
    unsafe_string-set_value sample sample-IsLibraries fives fives-IsRandom env (codes "xyz") plain
      (λ n. (replicate n 5, refl)) refl refl
