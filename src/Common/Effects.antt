-- ===== src/Common/Effects.antt =====
-- Calls that may fail and that change the world: the API servers' state and all else that the
-- program's calls can reach. What was written before a failure stays written.
pub mod Keeps
use mathlib.Core.Path.{◌≡◌, refl}
use mathlib.Core.Logic.{◌≢◌}
use mathlib.Core.Bool.{Bool, true, false}
use mathlib.Core.List.{List, [], ◌∷◌, ◌++◌}
use primaza.Common.Errors.{Error, Result, ok, err, panic}

abbrev pub Action : Type 0 → Type 0 → Type 0
Action W A = W → Result A × W

abbrev pub errors_of : {A : Type 0} → Result A → List Error
errors_of (ok a) = []
errors_of (err e) = e ∷ []
errors_of panic = []

-- An error is a value that a caller may look at; a panic goes on up.
abbrev caught : {A : Type 0} → Result A → Result (Result A)
caught (ok a) = ok (ok a)
caught (err e) = ok (err e)
caught panic = panic

module _ {W : Type 0} where
  unfoldable pub pure : {A : Type 0} → A → Action W A
  pure a w = (ok a, w)

  unfoldable pub raise : {A : Type 0} → Error → Action W A
  raise e w = (err e, w)

  unfoldable pub crash : {A : Type 0} → Action W A
  crash w = (panic, w)

  unfoldable pub lift : {A : Type 0} → Result A → Action W A
  lift r w = (r, w)

  -- A call whose error is looked at: the result becomes a value.
  unfoldable pub attempt : {A : Type 0} → Action W A → Action W (Result A)
  attempt m w = let (r, w') = m w in (caught r, w')

  -- A call that is made only under a condition.
  unfoldable pub when : Bool → Action W (Unit {0}) → Action W (Unit {0})
  when true m = m
  when false m = pure tt

  abbrev continue : {A B : Type 0} → Result A → (A → Action W B) → Action W B
  continue (ok a) f w = f a w
  continue (err e) f w = (err e, w)
  continue panic f w = (panic, w)

  infixl 10 ◌>>=◌ ◌>>◌
  -- A call whose error is returned at once. Opening this opens the actions above too.
  unfoldable pub ◌>>=◌ : {A B : Type 0} → Action W A → (A → Action W B) → Action W B
  unfolding pure raise lift crash attempt when
  ◌>>=◌ m f w = let (r, w') = m w in continue r f w'

  abbrev pub ◌>>◌ : {A B : Type 0} → Action W A → Action W B → Action W B
  m >> n = m >>= λ _. n

  -- A loop that goes on after a failure, and collects the errors.
  unfoldable pub collect_errors :
      {A : Type 0} → (A → Action W (Unit {0})) → List A → Action W (List Error)
  collect_errors f [] = pure []
  collect_errors f (a ∷ rest) = do
    r ← attempt (f a)
    es ← collect_errors f rest
    pure (errors_of r ++ es)

  -- A loop that a failure ends.
  unfoldable pub each : {A : Type 0} → (A → Action W (Unit {0})) → List A → Action W (Unit {0})
  each f [] = pure tt
  each f (a ∷ rest) = do f a; each f rest

module _ {W A B : Type 0} where
  -- A block that ends without an error has passed its first call without one.
  pub >>=-eq-ok :
      (m : Action W A) (f : A → Action W B) (w : W) {b : B}
      → ((m >>= f) w).0 ≡ ok b
      → (a : A) × ((m w).0 ≡ ok a) × ((f a (m w).1).0 ≡ ok b) × ((m >>= f) w ≡ f a (m w).1)
  unfolding ◌>>=◌
  >>=-eq-ok m f w {b} h = continue-ok (m w).0 (m w).1 h
    where
      continue-ok :
          (r : Result A) (w' : W)
          → (continue r f w').0 ≡ ok b
          → (a : A) × (r ≡ ok a) × ((f a w').0 ≡ ok b) × (continue r f w' ≡ f a w')
      continue-ok (ok a) w' h = (a, refl, h, refl)
      continue-ok (err e) w' h = cc
      continue-ok panic w' h = cc

  -- A call whose error is looked at, in a block that ends without a panic.
  pub attempt-eq-ok :
      (m : Action W A) (f : Result A → Action W B) (w : W) {b : B}
      → ((attempt m >>= f) w).0 ≡ ok b
      → (attempt m >>= f) w ≡ f (m w).0 (m w).1
  unfolding ◌>>=◌
  attempt-eq-ok m f w {b} h = by_result (m w).0 (m w).1 h
    where
      by_result :
          (r : Result A) (w' : W)
          → (continue (caught r) f w').0 ≡ ok b
          → continue (caught r) f w' ≡ f r w'
      by_result (ok a) w' h = refl
      by_result (err e) w' h = refl
      by_result panic w' h = cc

  pub attempt-no-panic :
      (m : Action W A) (f : Result A → Action W B) (w : W) {b : B}
      → ((attempt m >>= f) w).0 ≡ ok b
      → (m w).0 ≢ panic
  unfolding ◌>>=◌
  attempt-no-panic m f w {b} h = by_result (m w).0 (m w).1 h
    where
      by_result : (r : Result A) (w' : W) → (continue (caught r) f w').0 ≡ ok b → r ≢ panic
      by_result (ok a) w' h p = cc
      by_result (err e) w' h p = cc
      by_result panic w' h p = cc

pub pair_ext : {A B : Type 0} (p : A × B) {a : A} {b : B} → p.0 ≡ a → p.1 ≡ b → p ≡ (a, b)
pair_ext p h k = cc
