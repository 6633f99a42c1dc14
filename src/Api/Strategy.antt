-- ===== src/Api/Strategy.antt =====
-- The texts of a synchronization strategy, and `ParseSynchronizationStrategy`.
use text.Mathlib.TextEquality.{eq_iff}
use primaza.Common.{◌≡◌, ◌≢◌, String, ◌<>◌, arith, List, [], ◌∷◌, none, some}
use primaza.Common.{string_eq}
use primaza.Common.Errors.{Result, ok, err, message}
use primaza.Api.Meta.{lookup}
use primaza.Api.Environments.{SynchronizationStrategy, pull, push}

-- `string(strategy)`
abbrev pub strategy_text : SynchronizationStrategy → String
strategy_text pull = "Pull"
strategy_text push = "Push"

-- `synchronizationStrategies`
abbrev synchronization_strategies : List (String × SynchronizationStrategy)
synchronization_strategies = (strategy_text pull, pull) ∷ (strategy_text push, push) ∷ []

unfoldable pub parse_synchronization_strategy : String → Result SynchronizationStrategy
parse_synchronization_strategy s = elim (lookup s synchronization_strategies) [
  | some p ↦ ok p
  | none ↦ err (message ("cannot parse '" <> s <> "' as SynchronizationStrategy"))
]

pull_not_push : ◌≢◌ {A = String} "Pull" "Push"
pull_not_push = ground (arith, eq_iff "Pull" "Push")

-- The text of a strategy parses to that strategy, and whatever parses is the text of its result.
pub parse_strategy_text :
    (p : SynchronizationStrategy) (s : String)
    → (parse_synchronization_strategy (strategy_text p) ≡ ok p)
      × (parse_synchronization_strategy s ≡ ok p → s ≡ strategy_text p)
unfolding parse_synchronization_strategy
parse_strategy_text pull s = (ground arith, λ h. ground arith)
parse_strategy_text push s = (ground (arith, pull_not_push), λ h. ground arith)
