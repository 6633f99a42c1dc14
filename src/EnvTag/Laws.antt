-- ===== src/EnvTag/Laws.antt =====
-- What `Match` decides, and that neither the order nor repetition of constraints counts.
use primaza.Common.{◌≡◌, refl, String, Bool, true, false, not, ◌&&◌, ◌||◌}
use primaza.Common.{List, [], ◌∷◌, any, all, arith, has_prefix, trim_prefix}
use primaza.Common.{◌==◌, contains, string_eq, if◌then◌else◌, any-congr, all-congr}
use primaza.EnvTag.{match_constraint, match_loop, matches, negative_constraint_symbol}

-- `!name` names the environment.
abbrev pub excludes : String → String → Bool
excludes environment m =
    has_prefix m negative_constraint_symbol
    && environment == trim_prefix m negative_constraint_symbol

-- The constraint is the environment's name, or excludes another one.
abbrev pub admits : String → String → Bool
admits environment m =
    if has_prefix m negative_constraint_symbol
    then not (excludes environment m)
    else environment == m

match_loop-eq :
    (environment : String) (constraints : List String) (v : Bool)
    → match_loop environment constraints v ≡ (
        all (λ m. not (excludes environment m)) constraints
        && (v || any (admits environment) constraints))
unfolding match_loop match_constraint
match_loop-eq environment [] true = refl
match_loop-eq environment [] false = refl
match_loop-eq environment (m ∷ constraints) v =
    ground
      (arith, match_loop-eq environment constraints true, match_loop-eq environment constraints v)

-- An environment matches a list of constraints exactly if the list is empty, or no constraint
-- excludes the environment and at least one admits it.
pub matches-eq :
    (environment : String) (m : String) (constraints : List String)
    → (matches environment [] ≡ true)
      × (matches environment (m ∷ constraints) ≡ (
          all (λ c. not (excludes environment c)) (m ∷ constraints)
          && any (admits environment) (m ∷ constraints)))
unfolding matches
matches-eq environment m constraints = (refl, match_loop-eq environment (m ∷ constraints) false)

-- Two non-empty lists of the same constraints match the same environments, whatever the order and
-- however often a constraint stands in them.
matches-ext :
    (environment : String) (m n : String) (constraints others : List String)
    → ((c : String) → contains (m ∷ constraints) c ≡ contains (n ∷ others) c)
    → matches environment (m ∷ constraints) ≡ matches environment (n ∷ others)
matches-ext environment m n constraints others same = rw (
  (matches-eq environment m constraints).1,
  (matches-eq environment n others).1,
  all-congr (λ c. not (excludes environment c)) (m ∷ constraints) (n ∷ others) same,
  any-congr (admits environment) (m ∷ constraints) (n ∷ others) same,
)
