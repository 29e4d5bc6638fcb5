-- ===== src/Crypto/Outcome.antt =====
-- The end of a call: a value, an error, or a panic.
use fuck.Base.{Option, none, some, ◌≢◌, arith}

pub data Outcome {ℓ} (E : Type 0) (A : Type ℓ) : Type ℓ where
  ok : A → Outcome E A
  failed : E → Outcome E A
  panicked : Outcome E A

infixl 5 ◌>>=◌
abbrev pub ◌>>=◌ {ℓ κ} :
    {E : Type 0} {A : Type ℓ} {B : Type κ} → Outcome E A → (A → Outcome E B) → Outcome E B
ok a >>= f = f a
failed e >>= f = failed e
panicked >>= f = panicked

-- a value that is missing because of a panic, or because of an error
abbrev pub or_panic {ℓ} : {E : Type 0} {A : Type ℓ} → Option A → Outcome E A
or_panic none = panicked
or_panic (some a) = ok a

abbrev pub or_fail {ℓ} : {E : Type 0} {A : Type ℓ} → E → Option A → Outcome E A
or_fail e none = failed e
or_fail e (some a) = ok a

-- the value, or another one
abbrev pub from_ok {ℓ} : {E : Type 0} {A : Type ℓ} → A → Outcome E A → A
from_ok a (ok b) = b
from_ok a _ = a

-- nothing comes of a step after which all is lost
pub >>=_never :
    {E A B : Type 0} (r : Outcome E A) (f : A → Outcome E B) (b : B)
    → ((a : A) → f a ≢ ok b)
    → (r >>= f) ≢ ok b
>>=_never (ok a) f b h e = h a e
>>=_never (failed err) f b h e = ground (arith, e)
>>=_never panicked f b h e = ground (arith, e)
