-- ===== src/Base/Ensures.antt =====
-- What a call guarantees of its result if it returns.
use mathlib.Core.Path.{◌≡◌, subst}
use cryptogpt_one_intent_wal.Base.Tests.{Result, ok, err, ◌>>=◌}

module _ {ℓ κ ι} {E : Type ℓ} {A : Type κ} where
  abbrev pub Ensures : (A → Type ι) → Result E A → Type ι
  Ensures P (ok a) = P a
  Ensures P (err e) = Unit

  pub Ensures-ok : (P : A → Type ι) {m : Result E A} {a : A} → Ensures P m → m ≡ ok a → P a
  Ensures-ok P h e = subst (λ m. Ensures P m) e h

module _ {ℓ κ ι μ ν} {E : Type ℓ} {A : Type κ} {B : Type μ} where
  pub >>=-Ensures :
      (P : A → Type ι) (Q : B → Type ν) (m : Result E A) (f : A → Result E B)
      → Ensures P m
      → ((a : A) → P a → Ensures Q (f a))
      → Ensures Q (m >>= f)
  >>=-Ensures P Q (ok a) f h k = k a h
  >>=-Ensures P Q (err e) f h k = tt

module _ {ℓ κ ι μ} {E : Type ℓ} {A : Type κ} where
  pub Ensures-imp :
      (P : A → Type ι) (Q : A → Type μ) (m : Result E A)
      → Ensures P m
      → ((a : A) → P a → Q a)
      → Ensures Q m
  Ensures-imp P Q (ok a) h k = k a h
  Ensures-imp P Q (err e) h k = tt
