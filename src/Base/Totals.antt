-- ===== src/Base/Totals.antt =====
-- Sums over the rows that pass a test (SELECT SUM(f) ... WHERE p).
use mathlib.Core.Path.{◌≡◌, refl, sym, ap, ◌∙◌}
use mathlib.Core.Logic.{inl, inr}
use mathlib.Core.Bool.{Bool, false, ◌&&◌}
use mathlib.Core.List.{List, [], ◌∷◌, ◌++◌, map}
use native.Mathlib.Omega.{arith}
use cryptogpt_one_intent_wal.Base.Tests.{if◌then◌else◌, Bool-cases}
use cryptogpt_one_intent_wal.Base.Rows.{select, sorted, insert_sorted}
use cryptogpt_one_intent_wal.Base.Int.{
  ℤ, pos, ◌+ℤ◌, negate, +ℤ_comm, +ℤ_assoc, +ℤ_zero, negate-+ℤ, +ℤ_left_swap,
}

abbrev pub part : Bool → ℤ → ℤ
part b z = if b then z else pos 0

pub zero_+ℤ : (a : ℤ) → pos 0 +ℤ a ≡ a
zero_+ℤ a = +ℤ_comm (pos 0) a ∙ +ℤ_zero a

module _ {ℓ} {A : Type ℓ} where
  abbrev pub total_where : (A → Bool) → (A → ℤ) → List A → ℤ
  total_where p f [] = pos 0
  total_where p f (x ∷ xs) = part (p x) (f x) +ℤ total_where p f xs

  pub total_where-append :
      (p : A → Bool) (f : A → ℤ) (xs ys : List A)
      → total_where p f (xs ++ ys) ≡ total_where p f xs +ℤ total_where p f ys
  total_where-append p f [] ys = sym (zero_+ℤ (total_where p f ys))
  total_where-append p f (x ∷ xs) ys =
      rw (total_where-append p f xs ys) (sym (+ℤ_assoc (part (p x) (f x)) _ _))

  -- a sum over selected rows
  pub total_where-select :
      (p q : A → Bool) (f : A → ℤ) (xs : List A)
      → total_where p f (select q xs) ≡ total_where (λ x. q x && p x) f xs
  total_where-select p q f [] = refl
  total_where-select p q f (x ∷ xs) =
      ground (arith, total_where-select p q f xs, zero_+ℤ (total_where (λ y. q y && p y) f xs))

  -- negated rows
  pub total_where-negate :
      (p q : A → Bool) (f : A → ℤ) (g : A → A)
      → ((x : A) → p (g x) ≡ q x)
      → ((x : A) → f (g x) ≡ negate (f x))
      → (xs : List A) → total_where p f (map g xs) ≡ negate (total_where q f xs)
  total_where-negate p q f g hp hf [] = refl
  total_where-negate p q f g hp hf (x ∷ xs) =
      let tail = total_where-negate p q f g hp hf xs in
      let head : part (p (g x)) (f (g x)) ≡ negate (part (q x) (f x)) =
        rw (hp x, hf x) (ground arith) in
      rw (head, tail) (sym (negate-+ℤ (part (q x) (f x)) _))

  -- no row passes
  pub total_where-none :
      (p : A → Bool) (f : A → ℤ)
      → ((x : A) → p x ≡ false)
      → (xs : List A) → total_where p f xs ≡ pos 0
  total_where-none p f h [] = refl
  total_where-none p f h (x ∷ xs) =
      rw (h x, zero_+ℤ (total_where p f xs)) (total_where-none p f h xs)

  -- a sum does not depend on the order
  pub total_where-insert_sorted :
      (le : A → A → Bool) (p : A → Bool) (f : A → ℤ) (x : A) (xs : List A)
      → total_where p f (insert_sorted le x xs) ≡ total_where p f (x ∷ xs)
  total_where-insert_sorted le p f x [] = refl
  total_where-insert_sorted le p f x (y ∷ ys) = elim (Bool-cases (le x y)) [
    | inl before ↦ rw before
    | inr after ↦
        rw (after, total_where-insert_sorted le p f x ys)
          (+ℤ_left_swap (part (p y) (f y)) (part (p x) (f x)) (total_where p f ys))
  ]

  pub total_where-sorted :
      (le : A → A → Bool) (p : A → Bool) (f : A → ℤ) (xs : List A)
      → total_where p f (sorted le xs) ≡ total_where p f xs
  total_where-sorted le p f [] = refl
  total_where-sorted le p f (x ∷ xs) =
      total_where-insert_sorted le p f x (sorted le xs)
      ∙ ap (λ z. part (p x) (f x) +ℤ z) (total_where-sorted le p f xs)
