-- ===== src/Environments/InformerLaws.antt =====
-- Which informers are stopped when those of an environment are run.
use primaza.Common.{
  ◌≡◌, refl, ◌∙◌, ap, true, false, not, String, ◌<>◌, Option, none, some, contains_text,
  strip_prefix, List, [], ◌∷◌, keep, without, contains, any, arith, Bool-cases, inl, inr,
}
use primaza.Common.{◌==◌, string_eq}
use Prim.Native.Char.{Char}
use text.Mathlib.TextLemmas.{nil-append, cons-append}
use primaza.Common.Errors.{ok}
use primaza.Common.Effects.{◌>>=◌, each, >>=-eq-ok}
use primaza.Environments.Informers.{
  EnvironmentInformers, informer_name, known_informers, store_informers, stop_stale,
  stale_informers, stop_informers,
}

tail_contains :
    (c : Char) (s part : String)
    → contains_text s part ≡ true
    → contains_text (String.◌∷◌ c s) part ≡ true
tail_contains c s part h = by_prefix (strip_prefix part (String.◌∷◌ c s))
  where
    by_prefix : (o : Option String) → elim o [ none ↦ contains_text s part | some _ ↦ true ] ≡ true
    by_prefix none = h
    by_prefix (some r) = refl

-- The name of an informer has a slash, which the name of a namespace has not.
contains_text-informer_name : (a b : String) → contains_text (informer_name a b) "/" ≡ true
contains_text-informer_name String.[] b =
    ap (λ s. contains_text s "/") (nil-append ("/" <> b) ∙ cons-append "/" String.[] b) ∙ refl
contains_text-informer_name (String.◌∷◌ c a) b =
    ap (λ s. contains_text s "/") (cons-append c a ("/" <> b))
    ∙ tail_contains c (a <> "/" <> b) "/" (contains_text-informer_name a b)

module _ (watched : List String)
    (no_slash : (n : String) → contains watched n ≡ true → contains_text n "/" ≡ false) where
  not_watched :
      (ce_name namespace : String) → contains watched (informer_name ce_name namespace) ≡ false
  not_watched ce_name namespace =
      elim (Bool-cases (contains watched (informer_name ce_name namespace))) [
        | inl there ↦
            let has = contains_text-informer_name ce_name namespace in
            let has_not = no_slash (informer_name ce_name namespace) there in cc
        | inr away ↦ away
      ]

  none_watched :
      (running : List String)
      → ((n : String)
          → contains running n ≡ true
          → (ce_name : String) × (namespace : String) × (n ≡ informer_name ce_name namespace))
      → any (contains watched) running ≡ false
  none_watched [] named = refl
  none_watched (n ∷ running) named =
      let (ce_name, namespace, same) = named n (ground arith) in
      let away : contains watched n ≡ false = rw same (not_watched ce_name namespace) in
      let later = none_watched running (λ m q. named m (ground arith)) in ground arith

module _ (watched : List String) where
  all_stale :
      (running : List String)
      → any (contains watched) running ≡ false
      → keep (λ n. not (contains watched n)) running ≡ running
  all_stale [] h = refl
  all_stale (n ∷ running) h = ground (arith, all_stale running)

-- What is left of a list without the elements of another.
abbrev without_all : List String → List String → List String
without_all [] l = l
without_all (n ∷ names) l = without_all names (without n l)

without_all-cons :
    (names : List String) (n : String) (l : List String)
    → contains names n ≡ true
    → without_all names (n ∷ l) ≡ without_all names l
without_all-cons [] n l h = cc
without_all-cons (m ∷ names) n l h = elim (Bool-cases (m == n)) [
  | inl same ↦ rw same refl
  | inr differ ↦ rw differ (without_all-cons names n (without m l) (ground arith))
]

without_all-empty : (names : List String) → without_all names [] ≡ []
without_all-empty [] = refl
without_all-empty (n ∷ names) = without_all-empty names

without_all-nil :
    (names l : List String)
    → ((n : String) → contains l n ≡ true → contains names n ≡ true)
    → without_all names l ≡ []
without_all-nil names [] h = without_all-empty names
without_all-nil names (n ∷ l) h =
    without_all-cons names n l (h n (ground arith))
    ∙ without_all-nil names l (λ m q. h m (ground arith))

-- The names of the informers in the map, and of those that still watch, in a world: a call of an
-- informer's cancel function ends its watch only, and the map is the program's.
pub record StopsInformers {W Config : Type 0} (informers : EnvironmentInformers W Config)
    (watching : W → List String) : Type 0 where
  pub set_running :
      (l : List String) (w : W)
      → (informers.running (informers.set_running l w) ≡ l)
        × (watching (informers.set_running l w) ≡ watching w)
  pub stop :
      (name : String) (w : W)
      → (informers.running (informers.stop name w).1 ≡ informers.running w)
        × (watching (informers.stop name w).1 ≡ without name (watching w))

module _ {W Config : Type 0} (informers : EnvironmentInformers W Config)
    (watching : W → List String) (stops : StopsInformers informers watching) where
  stopped :
      (name : String) (w : W)
      → (stop_stale informers name w).0 ≡ ok tt
      → (informers.running (stop_stale informers name w).1 ≡ without name (informers.running w))
        × (watching (stop_stale informers name w).1 ≡ without name (watching w))
  unfolding stop_stale ◌>>=◌
  stopped name w h =
      let (u, _, _, same) =
        >>=-eq-ok (informers.stop name)
          (λ _.
            known_informers informers >>= λ known. store_informers informers (without name known))
          w h in
      let (known, ended) = stops.stop name w in
      (
        ap (λ p. informers.running p.1) same ∙ (stops.set_running _ _).0 ∙ ap (without name) known,
        ap (λ p. watching p.1) same ∙ (stops.set_running _ _).1 ∙ ended,
      )

  stopped_each :
      (names : List String) (w : W)
      → (each (stop_stale informers) names w).0 ≡ ok tt
      → (informers.running (each (stop_stale informers) names w).1
          ≡ without_all names (informers.running w))
        × (watching (each (stop_stale informers) names w).1 ≡ without_all names (watching w))
  unfolding each ◌>>=◌
  stopped_each [] w h = (refl, refl)
  stopped_each (name ∷ names) w h =
      let (u, first, rest, same) =
        >>=-eq-ok (stop_stale informers name) (λ _. each (stop_stale informers) names) w h in
      let (known, ended) = stopped name w first in
      let (known_later, ended_later) = stopped_each names (stop_stale informers name w).1 rest in
      (
        ap (λ p. informers.running p.1) same ∙ known_later ∙ ap (without_all names) known,
        ap (λ p. watching p.1) same ∙ ended_later ∙ ap (without_all names) ended,
      )

  -- Where every informer of the map has a name that `informer_name` makes, no namespace to watch has a
  -- slash in its name, and every informer that watches is in the map, a run of the loop without an
  -- error leaves no informer in the map and none that watches: also those of the namespaces to watch,
  -- and those of other environments, are cancelled.
  pub stop_informers-all :
      (watched : List String) (w : W)
      → ((n : String)
          → contains (informers.running w) n ≡ true
          → (ce_name : String) × (namespace : String) × (n ≡ informer_name ce_name namespace))
      → ((n : String) → contains watched n ≡ true → contains_text n "/" ≡ false)
      → ((n : String) → contains (watching w) n ≡ true → contains (informers.running w) n ≡ true)
      → (stop_informers informers watched w).0 ≡ ok tt
      → (informers.running (stop_informers informers watched w).1 ≡ [])
        × (watching (stop_informers informers watched w).1 ≡ [])
  unfolding stop_informers stale_informers ◌>>=◌
  stop_informers-all watched w named no_slash known h =
      let running = informers.running w in
      let differ = none_watched watched no_slash running named in
      let whole : stale_informers informers running watched ≡ running =
        all_stale watched running differ in
      let (left, watches) = stopped_each (stale_informers informers running watched) w h in
      (
        left ∙ ap (λ l. without_all l running) whole ∙ without_all-nil running running (λ n q. q),
        watches
            ∙ ap (λ l. without_all l (watching w)) whole
            ∙ without_all-nil running (watching w) known,
      )
