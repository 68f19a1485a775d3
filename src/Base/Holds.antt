-- ===== src/Base/Holds.antt =====
-- A test of the first row that another test finds, and what keeps it: rows that are added behind, and
-- updates.
use cryptogpt_one_intent_wal.Base.{
  ◌≡◌, refl, Bool, true, false, ◌∷◌, [], ◌++◌, List, Option, some, none, find, update_where, arith,
  Bool-cases, inl, inr,
}
use mathlib.Core.Option.{some-injective}

module _ {ℓ} {A : Type ℓ} where
  abbrev passes : (A → Bool) → Option A → Bool
  passes g none = false
  passes g (some x) = g x

  -- a row passes `t`, and the first that does passes `g`
  abbrev pub holds : (A → Bool) → (A → Bool) → List A → Bool
  holds t g xs = passes g (find t xs)

  pub holds-found :
      (t g : A → Bool) (xs : List A)
      → holds t g xs ≡ true
      → (x : A) × (find t xs ≡ some x) × (g x ≡ true)
  holds-found t g [] h = cc
  holds-found t g (x ∷ xs) h = elim (Bool-cases (t x)) [
    | inl here ↦ (x, rw here, rw here at h)
    | inr later ↦ let (y, e, p) = holds-found t g xs (rw later at h) in (y, rw later e, p)
  ]

  pub holds-append :
      (t g : A → Bool) (xs ys : List A) → holds t g xs ≡ true → holds t g (xs ++ ys) ≡ true
  holds-append t g [] ys h = cc
  holds-append t g (x ∷ xs) ys h = ground (arith, holds-append t g xs ys)

  -- An update that the test `t` does not see keeps the test of a row that it touches, if it does so
  -- for the row that is found.
  pub holds-update :
      (t g q : A → Bool) (f : A → A) (xs : List A)
      → ((x : A) → t (f x) ≡ t x)
      → ((x : A) → find t xs ≡ some x → q x ≡ true → g x ≡ true → g (f x) ≡ true)
      → holds t g xs ≡ true
      → holds t g (update_where q f xs) ≡ true
  holds-update t g q f [] same keep h = h
  holds-update t g q f (x ∷ xs) same keep h = elim (Bool-cases (t x)) [
    | inl here ↦ elim (Bool-cases (q x)) [
      | inl touched ↦ rw (touched, same x, here) (keep x (rw here) touched (rw here at h))
      | inr kept ↦ rw (kept, here) (rw here at h)
    ]
    | inr later ↦
        let rest = holds-update t g q f xs same (λ y e. keep y (rw later e)) (rw later at h) in
        elim (Bool-cases (q x)) [
          | inl touched ↦ rw (touched, same x, later) rest
          | inr kept ↦ rw (kept, later) rest
        ]
  ]

  -- An update of the row that is found, if the test does not see it.
  pub find-updated :
      (t q : A → Bool) (f : A → A) (xs : List A) (x : A)
      → ((y : A) → t (f y) ≡ t y)
      → find t xs ≡ some x
      → q x ≡ true
      → find t (update_where q f xs) ≡ some (f x)
  find-updated t q f [] x same e h = cc
  find-updated t q f (y ∷ xs) x same e h = elim (Bool-cases (t y)) [
    | inl here ↦
        let one : y ≡ x = some-injective y x (rw here at e) in
        rw (one, h, same x) (rw (← one) (rw here refl))
    | inr later ↦
        let rest = find-updated t q f xs x same (rw later at e) h in
        elim (Bool-cases (q y)) [
          | inl touched ↦ rw (touched, same y, later) rest
          | inr kept ↦ rw (kept, later) rest
        ]
  ]
