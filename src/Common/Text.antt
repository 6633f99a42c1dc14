-- ===== src/Common/Text.antt =====
-- The functions of Go's `strings` package that the program uses.
use Prim.Native.Char.{code}
use Prim.Native.Nat.{ℕ, zero, suc, ◌/◌, ◌%◌, compare, Ordering}
use Prim.Native.String.{String, ◌++◌ as ◌<>◌}
use mathlib.Core.Bool.{Bool, true, false, cond}
use mathlib.Core.Option.{Option, none, some}

abbrev same_code : ℕ → ℕ → Bool
same_code a b = elim (compare a b) [ Ordering.eq ↦ true | _ ↦ false ]

-- The rest of the second text behind the first, if it begins with that.
abbrev pub strip_prefix : String → String → Option String
strip_prefix String.[] s = some s
strip_prefix (String.◌∷◌ c p) String.[] = none
strip_prefix (String.◌∷◌ c p) (String.◌∷◌ d s) =
    cond (same_code (code c) (code d)) (strip_prefix p s) none

-- `strings.HasPrefix(s, prefix)`
unfoldable pub has_prefix : String → String → Bool
has_prefix s p = elim (strip_prefix p s) [ none ↦ false | some _ ↦ true ]

-- `strings.TrimPrefix(s, prefix)`; also the first result of `strings.CutPrefix`.
unfoldable pub trim_prefix : String → String → String
trim_prefix s p = elim (strip_prefix p s) [ none ↦ s | some rest ↦ rest ]

-- `strings.Contains(s, part)`
abbrev pub contains_text : String → String → Bool
contains_text String.[] part = elim (strip_prefix part "") [ none ↦ false | some _ ↦ true ]
contains_text (String.◌∷◌ c s) part = elim (strip_prefix part (String.◌∷◌ c s)) [
  | none ↦ contains_text s part
  | some _ ↦ true
]

abbrev digit : ℕ → String
digit zero = "0"
digit (suc zero) = "1"
digit (suc (suc zero)) = "2"
digit (suc (suc (suc zero))) = "3"
digit (suc (suc (suc (suc zero)))) = "4"
digit (suc (suc (suc (suc (suc zero))))) = "5"
digit (suc (suc (suc (suc (suc (suc zero)))))) = "6"
digit (suc (suc (suc (suc (suc (suc (suc zero))))))) = "7"
digit (suc (suc (suc (suc (suc (suc (suc (suc zero)))))))) = "8"
digit _ = "9"

abbrev is_zero : ℕ → Bool
is_zero zero = true
is_zero (suc n) = false

-- A number below ten to the number of rounds, in decimal.
decimal_loop : ℕ → ℕ → String
decimal_loop zero n = ""
decimal_loop (suc rounds) n =
    let rest = decimal_loop rounds (n / 10) in
    cond (is_zero (n / 10)) (digit (n % 10)) (rest <> digit (n % 10))

-- `fmt.Sprintf("%d", n)` of a number of 32 bits, which has ten digits at most.
unfoldable pub decimal : ℕ → String
unfolding decimal_loop
decimal n = decimal_loop 10 n
