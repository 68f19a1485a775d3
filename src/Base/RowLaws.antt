-- ===== src/Base/RowLaws.antt =====
-- Laws of the tables: what a test on a table becomes when rows are added or updated.
use Prim.Native.Nat.{◌+◌, ◌≤◌}
use mathlib.Core.Path.{◌≡◌, refl, subst, ap, ◌∙◌}
use mathlib.Core.Bool.{Bool, true, false, ◌&&◌, ◌||◌}
use mathlib.Core.Option.{some, none, some-injective}
use mathlib.Core.List.{List, [], ◌∷◌, ◌++◌}
use mathlib.Core.Logic.{inl, inr}
use native.Mathlib.Omega.{arith}
use Prim.Native.String.{String}
use text.Mathlib.TextEquality.{eq_iff}
use cryptogpt_one_intent_wal.Base.Tests.{Bool-cases, str_eq, if◌then◌else◌}
use cryptogpt_one_intent_wal.Base.Rows.{any, all, find, update_where, count_where, All}

module _ {ℓ} {A : Type ℓ} where
  pub any-append : (p : A → Bool) (xs ys : List A) → any p (xs ++ ys) ≡ (any p xs || any p ys)
  any-append p [] ys = refl
  any-append p (x ∷ xs) ys = ground (arith, any-append p xs ys)

  pub all-append : (p : A → Bool) (xs ys : List A) → all p (xs ++ ys) ≡ (all p xs && all p ys)
  all-append p [] ys = refl
  all-append p (x ∷ xs) ys = ground (arith, all-append p xs ys)

  pub count_where-append :
      (p : A → Bool) (xs ys : List A)
      → count_where p (xs ++ ys) ≡ count_where p xs + count_where p ys
  count_where-append p [] ys = omega arith
  count_where-append p (x ∷ xs) ys = ground (arith, count_where-append p xs ys)

  pub count_where-eq-zero : (p : A → Bool) (xs : List A) → any p xs ≡ false → count_where p xs ≡ 0
  count_where-eq-zero p [] h = refl
  count_where-eq-zero p (x ∷ xs) h = ground (arith, count_where-eq-zero p xs)

  -- An update leaves a test as it is, if it does so row by row.
  pub any-update_where :
      (q p : A → Bool) (f : A → A) (xs : List A)
      → ((x : A) → q (f x) ≡ q x)
      → any q (update_where p f xs) ≡ any q xs
  any-update_where q p f [] h = refl
  any-update_where q p f (x ∷ xs) h = ground (arith, h x, any-update_where q p f xs h)

  -- An update that never makes a row pass the test does not raise the number of rows that pass.
  pub count_where-update_where-le :
      (q p : A → Bool) (f : A → A) (xs : List A)
      → ((x : A) → p x ≡ true → q (f x) ≡ true → q x ≡ true)
      → count_where q (update_where p f xs) ≤ count_where q xs
  count_where-update_where-le q p f [] h = omega arith
  count_where-update_where-le q p f (x ∷ xs) h =
      ground (arith, h x, count_where-update_where-le q p f xs h)

module _ {ℓ} {A : Type ℓ} where
  -- An update that hits no row changes nothing.
  pub update_where-miss :
      (p : A → Bool) (f : A → A) (xs : List A) → any p xs ≡ false → update_where p f xs ≡ xs
  update_where-miss p f [] h = refl
  update_where-miss p f (x ∷ xs) h = ground (arith, update_where-miss p f xs)

  pub find-any : (p : A → Bool) (xs : List A) (x : A) → find p xs ≡ some x → any p xs ≡ true
  find-any p [] x e = cc
  find-any p (y ∷ xs) x e = ground (arith, find-any p xs x)

  pub find-none : (p : A → Bool) (xs : List A) → any p xs ≡ false → find p xs ≡ none
  find-none p [] h = refl
  find-none p (x ∷ xs) h = ground (arith, find-none p xs)

  pub any-find : (p : A → Bool) (xs : List A) → any p xs ≡ true → (x : A) × (find p xs ≡ some x)
  any-find p [] h = cc
  any-find p (x ∷ xs) h = elim (Bool-cases (p x)) [
    | inl here ↦ (x, rw here)
    | inr later ↦ let (y, e) = any-find p xs (rw later at h) in (y, rw later e)
  ]

  pub find-append :
      (p : A → Bool) (xs ys : List A)
      → find p (xs ++ ys) ≡ (if any p xs then find p xs else find p ys)
  find-append p [] ys = refl
  find-append p (x ∷ xs) ys = ground (arith, find-append p xs ys)

  pub find-holds : (p : A → Bool) (xs : List A) (x : A) → find p xs ≡ some x → p x ≡ true
  find-holds p [] x e = cc
  find-holds p (y ∷ xs) x e = ground (arith, find-holds p xs x)

  -- The keys of the rows differ pairwise, as a PRIMARY KEY or UNIQUE column has them.
  abbrev pub Distinct : (A → String) → List A → Type 0
  Distinct key [] = Unit
  Distinct key (x ∷ xs) = (any (λ y. str_eq (key y) (key x)) xs ≡ false) × Distinct key xs

  pub Distinct-append :
      (key : A → String) (xs : List A) (y : A)
      → Distinct key xs
      → any (λ x. str_eq (key x) (key y)) xs ≡ false
      → Distinct key (xs ++ y ∷ [])
  Distinct-append key [] y d h = (refl, tt)
  Distinct-append key (x ∷ xs) y d h = (
    rw any-append (ground (arith, eq_iff (key x) (key y), eq_iff (key y) (key x))),
    Distinct-append key xs y d.1 (ground arith),
  )

  updated_key :
      (key : A → String) (p : A → Bool) (f : A → A) (x : A)
      → key (f x) ≡ key x
      → key (if p x then f x else x) ≡ key x
  updated_key key p f x h = ground arith

  -- An update that keeps the keys keeps them distinct.
  pub Distinct-update_where :
      (key : A → String) (p : A → Bool) (f : A → A) (xs : List A)
      → ((x : A) → key (f x) ≡ key x)
      → Distinct key xs
      → Distinct key (update_where p f xs)
  Distinct-update_where key p f [] h d = tt
  Distinct-update_where key p f (x ∷ xs) h d = (
    rw (updated_key key p f x (h x)) (
        any-update_where (λ y. str_eq (key y) (key x)) p f xs
          (λ y. ap (λ k. str_eq k (key x)) (h y))
        ∙ d.0),
    Distinct-update_where key p f xs h d.1,
  )

module _ {ℓ κ} {A : Type ℓ} (P : A → Type κ) where
  pub All-append : (xs ys : List A) → All P xs → All P ys → All P (xs ++ ys)
  All-append [] ys h k = k
  All-append (x ∷ xs) ys h k = (h.0, All-append xs ys h.1 k)

  pub All-find : (p : A → Bool) (xs : List A) {x : A} → All P xs → find p xs ≡ some x → P x
  All-find p [] h e = cc
  All-find p (x ∷ xs) h e = elim (Bool-cases (p x)) [
    | inl here ↦ subst P (some-injective _ _ (rw here at e)) h.0
    | inr later ↦ All-find p xs h.1 (rw later at e)
  ]

  pub All-update_where :
      (p : A → Bool) (f : A → A) (xs : List A)
      → ((x : A) → p x ≡ true → P x → P (f x))
      → All P xs
      → All P (update_where p f xs)
  All-update_where p f [] h k = tt
  All-update_where p f (x ∷ xs) h k = elim (Bool-cases (p x)) [
    | inl hit ↦ (rw hit (h x hit k.0), All-update_where p f xs h k.1)
    | inr miss ↦ (rw miss k.0, All-update_where p f xs h k.1)
  ]

module _ {ℓ κ ι} {A : Type ℓ} (P : A → Type κ) (Q : A → Type ι) where
  pub All-imp : ((x : A) → P x → Q x) → (xs : List A) → All P xs → All Q xs
  All-imp f [] h = tt
  All-imp f (x ∷ xs) h = (f x h.0, All-imp f xs h.1)
