-- ===== src/Common/Result.antt =====
-- `Result`, and the `?` operator as a bind.
use mathlib.Core.Option.{Option, none, some}
use mathlib.Core.Path.{◌≡◌, subst}

pub data Result (E A : Type 0) : Type 0 where
  ok : A → Result E A
  err : E → Result E A

infixl 5 ◌>>=◌
abbrev pub ◌>>=◌ : {E A B : Type 0} → Result E A → (A → Result E B) → Result E B
ok a >>= f = f a
err e >>= f = err e

-- `Option::ok_or`.
abbrev pub ok_or : {E A : Type 0} → Option A → E → Result E A
ok_or none e = err e
ok_or (some a) e = ok a

-- What a call that may also panic ends with.
pub data Attempt (E A : Type 0) : Type 0 where
  done : A → Attempt E A
  failed : E → Attempt E A
  panicked : Attempt E A

abbrev pub and_then : {E A B : Type 0} → Attempt E A → (A → Attempt E B) → Attempt E B
and_then (done a) f = f a
and_then (failed e) f = failed e
and_then panicked f = panicked

-- `unwrap` and `expect`.
abbrev pub expect : {E A : Type 0} → Option A → Attempt E A
expect none = panicked
expect (some a) = done a

-- The `?` operator on the result of another function.
abbrev pub or_fail : {E A : Type 0} → Option A → E → Attempt E A
or_fail none e = failed e
or_fail (some a) e = done a

-- The value, if there is one, has the property.
abbrev pub Ensures {ℓ} : {E A : Type 0} → (A → Type ℓ) → Attempt E A → Type ℓ
Ensures P (done a) = P a
Ensures P (failed e) = Unit
Ensures P panicked = Unit

pub and_then-Ensures {ℓ} :
    {E A B : Type 0} (P : B → Type ℓ) (m : Attempt E A) (f : A → Attempt E B)
    → ((a : A) → Ensures P (f a))
    → Ensures P (and_then m f)
and_then-Ensures P (done a) f h = h a
and_then-Ensures P (failed e) f h = tt
and_then-Ensures P panicked f h = tt

pub Ensures-done {ℓ} :
    {E A : Type 0} (P : A → Type ℓ) (m : Attempt E A) (a : A) → Ensures P m → m ≡ done a → P a
Ensures-done {E} P m a h e = subst (Ensures {E = E} P) e h
