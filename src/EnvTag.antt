-- ===== src/EnvTag.antt =====
-- pkg/envtag/envtag.go: an environment against a list of constraints.
pub mod Laws
use primaza.Common.{String, Bool, true, false, List, [], ◌∷◌, has_prefix, trim_prefix}
use primaza.Common.{◌==◌, string_eq, if◌then◌else◌}

abbrev pub negative_constraint_symbol : String
negative_constraint_symbol = "!"

pub data MatchResult : Type 0 where
  matched unmatched forbidden : MatchResult

-- `match`
unfoldable pub match_constraint : String → String → MatchResult
unfolding has_prefix trim_prefix
match_constraint environment constraint =
    if has_prefix constraint negative_constraint_symbol
    then (if environment == trim_prefix constraint negative_constraint_symbol
        then forbidden
        else matched)
    else (if environment == constraint then matched else unmatched)

-- The loop of `Match`, with its variable `v`.
unfoldable pub match_loop : String → List String → Bool → Bool
match_loop environment [] v = v
match_loop environment (m ∷ constraints) v = elim (match_constraint environment m) [
  | matched ↦ match_loop environment constraints true
  | forbidden ↦ false
  | unmatched ↦ match_loop environment constraints v
]

-- `Match`
unfoldable pub matches : String → List String → Bool
unfolding match_loop match_constraint
matches environment [] = true
matches environment (m ∷ constraints) = match_loop environment (m ∷ constraints) false
