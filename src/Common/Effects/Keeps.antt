-- ===== src/Common/Effects/Keeps.antt =====
-- Invariants of actions, one rule for each way to build an action.
use mathlib.Core.Path.{◌≡◌, refl}
use mathlib.Core.Bool.{Bool, true, false}
use mathlib.Core.List.{List, [], ◌∷◌}
use primaza.Common.Errors.{Error, Result, ok, err, panic}
use primaza.Common.Equality.{if◌then◌else◌}
use primaza.Common.Effects.{
  Action, pure, raise, lift, crash, ◌>>=◌, attempt, when, collect_errors, each,
}

-- The action keeps `P`, whether it returns or fails.
pub record Keeps {W A : Type 0} (P : W → Type 0) (m : Action W A) : Type 0 where
  pub at : (w : W) → P w → P (m w).1

module _ {W : Type 0} {P : W → Type 0} where
  pub Keeps-crash : {A : Type 0} → Keeps P (crash {A = A})
  unfolding crash
  Keeps-crash = record { at = λ world holds. holds }

  pub Keeps-lift : {A : Type 0} (r : Result A) → Keeps P (lift r)
  unfolding lift
  Keeps-lift r = record { at = λ world holds. holds }

  pub Keeps-pure : {A : Type 0} (a : A) → Keeps P (pure a)
  unfolding pure
  Keeps-pure a = record { at = λ world holds. holds }

  pub Keeps-raise : {A : Type 0} (e : Error) → Keeps P (raise {A = A} e)
  unfolding raise
  Keeps-raise e = record { at = λ world holds. holds }

  bind_at :
      {A B : Type 0} (f : A → Action W B)
      → ((a : A) → Keeps P (f a))
      → (r : Result A) (w : W) → P w
      → P ((lift r >>= f) w).1
  unfolding ◌>>=◌
  bind_at f kf (ok a) w h = (kf a).at w h
  bind_at f kf (err e) w h = h
  bind_at f kf panic w h = h

  pub Keeps-bind :
      {A B : Type 0} (m : Action W A) (f : A → Action W B)
      → Keeps P m
      → ((a : A) → Keeps P (f a))
      → Keeps P (m >>= f)
  unfolding ◌>>=◌
  Keeps-bind m f km kf = record { at = λ w h. bind_at f kf (m w).0 (m w).1 (km.at w h) }

  pub Keeps-attempt : {A : Type 0} (m : Action W A) → Keeps P m → Keeps P (attempt m)
  unfolding attempt
  Keeps-attempt m km = record { at = λ w h. km.at w h }

  pub Keeps-if :
      {A : Type 0} (test : Bool) (then_call else_call : Action W A)
      → (test ≡ true → Keeps P then_call)
      → (test ≡ false → Keeps P else_call)
      → Keeps P (if test then then_call else else_call)
  Keeps-if true then_call else_call first second = first refl
  Keeps-if false then_call else_call first second = second refl

  pub Keeps-when : (b : Bool) (m : Action W Unit) → (b ≡ true → Keeps P m) → Keeps P (when b m)
  unfolding when
  Keeps-when true m km = km refl
  Keeps-when false m km = Keeps-pure tt

  pub Keeps-collect_errors :
      {A : Type 0} (f : A → Action W Unit)
      → ((a : A) → Keeps P (f a))
      → (l : List A) → Keeps P (collect_errors f l)
  unfolding collect_errors
  Keeps-collect_errors f kf [] = Keeps-pure []
  Keeps-collect_errors f kf (a ∷ rest) =
      Keeps-bind _ _ (Keeps-attempt _ (kf a))
        (λ r. Keeps-bind _ _ (Keeps-collect_errors f kf rest) (λ es. Keeps-pure _))

  pub Keeps-each :
      {A : Type 0} (f : A → Action W Unit)
      → ((a : A) → Keeps P (f a))
      → (l : List A) → Keeps P (each f l)
  unfolding each
  Keeps-each f kf [] = Keeps-pure tt
  Keeps-each f kf (a ∷ rest) = Keeps-bind _ _ (kf a) (λ _. Keeps-each f kf rest)

pub ruleset keeps_rules = (
  Keeps-pure, Keeps-raise, Keeps-lift, Keeps-crash, Keeps-bind, Keeps-attempt, Keeps-if, Keeps-when,
  Keeps-collect_errors, Keeps-each,
)
