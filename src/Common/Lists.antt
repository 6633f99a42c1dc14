-- ===== src/Common/Lists.antt =====
-- Lists measured by native numbers, predicates on lists by recursion, and membership tests.
use Prim.Native.Nat.{ℕ, zero, suc}
use mathlib.Core.Path.{◌≡◌, refl, sym, ◌∙◌}
use mathlib.Core.Logic.{inl, inr}
use mathlib.Core.Bool.{Bool, true, false, not, ◌&&◌, ◌||◌}
use mathlib.Core.List.{List, [], ◌∷◌}
use native.Mathlib.Omega.{arith}
use primaza.Common.Equality.{Eq, ◌==◌, contains, if◌then◌else◌, Bool_ext, Bool-cases}

module _ {ℓ} {A : Type ℓ} where
  abbrev pub length : List A → ℕ
  length [] = 0
  length (x ∷ xs) = suc (length xs)

  abbrev pub take : ℕ → List A → List A
  take zero xs = []
  take (suc n) [] = []
  take (suc n) (x ∷ xs) = x ∷ take n xs

  abbrev pub drop : ℕ → List A → List A
  drop zero xs = xs
  drop (suc n) [] = []
  drop (suc n) (x ∷ xs) = drop n xs

  abbrev pub any : (A → Bool) → List A → Bool
  any p [] = false
  any p (x ∷ xs) = p x || any p xs

  abbrev pub all : (A → Bool) → List A → Bool
  all p [] = true
  all p (x ∷ xs) = p x && all p xs

  abbrev pub count : (A → Bool) → List A → ℕ
  count p [] = 0
  count p (x ∷ xs) = let n = count p xs in if p x then suc n else n

  -- The elements that pass a test.
  abbrev pub keep : (A → Bool) → List A → List A
  keep p [] = []
  keep p (x ∷ xs) = let rest = keep p xs in if p x then x ∷ rest else rest

module _ {ℓ κ} {A : Type ℓ} where
  abbrev pub All : (A → Type κ) → List A → Type κ
  All P [] = Unit
  All P (x ∷ xs) = P x × All P xs

module _ {ℓ} {A : Type ℓ} ⦃e : Eq A⦄ where
  -- `delete` from a map that is used as a set.
  abbrev pub without : A → List A → List A
  without a [] = []
  without a (x ∷ xs) = let rest = without a xs in if a == x then rest else x ∷ rest

  -- No element stands in the list twice.
  abbrev pub Distinct : List A → Type 0
  Distinct [] = Unit
  Distinct (x ∷ xs) = (contains xs x ≡ false) × Distinct xs

  pub any_of_contains :
      (p : A → Bool) (xs : List A) (a : A) → contains xs a ≡ true → p a ≡ true → any p xs ≡ true
  any_of_contains p [] a m h = cc
  any_of_contains p (x ∷ xs) a m h = ground (arith, any_of_contains p xs a)

  pub contains_of_any :
      (p : A → Bool) (xs : List A)
      → any p xs ≡ true
      → (a : A) × (contains xs a ≡ true) × (p a ≡ true)
  contains_of_any p [] h = cc
  contains_of_any p (x ∷ xs) h = elim (Bool-cases (p x)) [
    | inl here ↦ (x, ground arith, here)
    | inr there ↦ let (a, m, q) = contains_of_any p xs (ground arith) in (a, ground arith, q)
  ]

  pub any-congr :
      (p : A → Bool) (xs ys : List A)
      → ((a : A) → contains xs a ≡ contains ys a)
      → any p xs ≡ any p ys
  any-congr p xs ys same =
      Bool_ext _ _
        (λ h. let (a, m, q) = contains_of_any p xs h in any_of_contains p ys a (sym (same a) ∙ m) q)
        (λ h. let (a, m, q) = contains_of_any p ys h in any_of_contains p xs a (same a ∙ m) q)

  all-not-any : (p : A → Bool) (xs : List A) → all p xs ≡ not (any (λ a. not (p a)) xs)
  all-not-any p [] = refl
  all-not-any p (x ∷ xs) = ground (arith, all-not-any p xs)

  pub all-congr :
      (p : A → Bool) (xs ys : List A)
      → ((a : A) → contains xs a ≡ contains ys a)
      → all p xs ≡ all p ys
  all-congr p xs ys same =
      rw (all-not-any p xs, all-not-any p ys, any-congr (λ a. not (p a)) xs ys same)

  pub contains-without :
      (a b : A) (xs : List A) → contains (without a xs) b ≡ (not (b == a) && contains xs b)
  contains-without a b [] = ground arith
  contains-without a b (x ∷ xs) = ground (arith, contains-without a b xs)

  pub without-Distinct : (a : A) (xs : List A) → Distinct xs → Distinct (without a xs)
  without-Distinct a [] h = tt
  without-Distinct a (x ∷ xs) h = ground (arith, without-Distinct a xs h.1, contains-without a x xs)
