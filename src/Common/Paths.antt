-- ===== src/Common/Paths.antt =====
-- The function `Join` of Go's `path` package, at two elements.
use Prim.Native.Char.{code}
use Prim.Native.Nat.{ℕ, compare, Ordering}
use Prim.Native.String.{String, ◌++◌ as ◌<>◌}
use mathlib.Core.Bool.{Bool, true, false, cond}
use mathlib.Core.List.{List, [], ◌∷◌}
use primaza.Common.Equality.{◌==◌, string_eq}
use primaza.Common.Text.{has_prefix}

abbrev is_slash : ℕ → Bool
is_slash c = elim (compare c b'/') [ Ordering.eq ↦ true | _ ↦ false ]

-- One more character at the front of the first part.
abbrev add_front : String → List String → List String
add_front c [] = c ∷ []
add_front c (part ∷ parts) = (c <> part) ∷ parts

-- The parts between the slashes.
parts_of : String → List String
parts_of String.[] = "" ∷ []
parts_of (String.◌∷◌ c s) =
    let parts = parts_of s in
    cond (is_slash (code c)) ("" ∷ parts) (add_front (String.◌∷◌ c String.[]) parts)

-- `..` takes the last part away, but for another `..` and for the root.
abbrev step_up : Bool → List String → List String
step_up rooted [] = cond rooted [] (".." ∷ [])
step_up rooted (last ∷ parts) = cond (last == "..") (".." ∷ last ∷ parts) parts

-- The parts that stay, the last one first.
clean_parts : Bool → List String → List String → List String
clean_parts rooted kept [] = kept
clean_parts rooted kept (part ∷ parts) =
    clean_parts rooted
      (cond (part == "") kept
        (cond (part == ".") kept (cond (part == "..") (step_up rooted kept) (part ∷ kept))))
      parts

join_parts : List String → String → String
join_parts [] text = text
join_parts (part ∷ parts) text = join_parts parts (part <> cond (text == "") "" ("/" <> text))

abbrev or_dot : String → String
or_dot text = cond (text == "") "." text

-- `Clean`
clean : String → String
unfolding clean_parts join_parts parts_of has_prefix
clean s =
    let rooted = has_prefix s "/" in
    let kept = join_parts (clean_parts rooted [] (parts_of s)) "" in
    cond rooted ("/" <> kept) (or_dot kept)

-- `Join`
unfoldable pub join_path : String → String → String
unfolding clean
join_path a b =
    cond (a == "") (cond (b == "") "" (clean b)) (cond (b == "") (clean a) (clean (a <> "/" <> b)))
