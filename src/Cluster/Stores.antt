-- ===== src/Cluster/Stores.antt =====
-- Documented behaviour of an API server at one kind, and loops over what it lists. A call may fail
-- at any time; a failed call leaves the stored objects alone, and so does a read.
use primaza.Common.{
  ◌≡◌, refl, sym, ◌∙◌, Bool, true, false, Option, none, some, List, [], ◌∷◌, All, map, arith,
  String, ◌≢◌,
}
use primaza.Common.{◌==◌, string_eq, contains, if◌then◌else◌, Distinct, ◌||◌}
use primaza.Common.Errors.{ok}
use primaza.Api.{Key, key_eq}
use primaza.Cluster.{Client, in_namespace}

-- The object of a list that has a key.
abbrev pub find_key : {Obj : Type 0} → (Obj → Key) → Key → List Obj → Option Obj
find_key key k [] = none
find_key key k (o ∷ l) = if k == key o then some o else find_key key k l

module _ {W Obj : Type 0} (c : Client W Obj) (key : Obj → Key) (find : W → Key → Option Obj) where
  pub record IsStore : Type 0 where
    -- A successful list has the objects of the namespace, each once.
    pub list_ok :
        (ns : String) (w : W) {l : List Obj}
        → (c.list (in_namespace ns) w).0 ≡ ok l
        → (k : Key) → find_key key k l ≡ (if k.namespace == ns then find w k else none)
    pub list_distinct :
        (ns : String) (w : W) {l : List Obj}
        → (c.list (in_namespace ns) w).0 ≡ ok l
        → Distinct (map key l)
    pub list_reads :
        (ns : String) (w : W) (k : Key) → find (c.list (in_namespace ns) w).1 k ≡ find w k
    -- A successful update replaces the object of that key; of a kind without a status of its own.
    pub update_ok :
        (o : Obj) (w : W) {o' : Obj}
        → (c.update o w).0 ≡ ok o'
        → (k : Key) → find (c.update o w).1 k ≡ (if k == key o then some o else find w k)

module _ {Obj : Type 0} (Good : Obj → Obj → Type 0) where
  -- How the object of a key was changed: related by `Good` if it was visited, not at all if not.
  abbrev pub Changed : Bool → Option Obj → Option Obj → Type 0
  Changed true (some o) (some o') = Good o o'
  Changed true (some o) none = ⊥
  Changed true none (some o') = ⊥
  Changed true none none = Unit
  Changed false old new = new ≡ old

module _ {Obj : Type 0} (Good : Obj → Obj → Type 0) where
  pub Changed-cons :
      (first other : Bool) (o o' : Obj) (old mid new : Option Obj)
      → Good o o'
      → (first ≡ true → (old ≡ some o) × (other ≡ false))
      → mid ≡ (if first then some o' else old)
      → Changed Good other mid new
      → Changed Good (first || other) old new
  Changed-cons true other o o' old mid new good at m c =
      let unchanged : new ≡ mid = rw (at refl).1 at c in rw ((at refl).0, unchanged, m) good
  Changed-cons false other o o' old mid new good at m c = rw m at c

-- Where the objects of a list stand.
module _ {Obj : Type 0} (key : Obj → Key) where
  pub find_key-none :
      (l : List Obj) (k : Key) → contains (map key l) k ≡ false → find_key key k l ≡ none
  find_key-none [] k h = refl
  find_key-none (o ∷ l) k h = ground (arith, find_key-none l k)

  pub find_key-some :
      (l : List Obj) (k : Key) → contains (map key l) k ≡ true → find_key key k l ≢ none
  find_key-some [] k h = cc
  find_key-some (o ∷ l) k h = ground (arith, find_key-some l k)

  -- The objects of a list without repetition are found by their keys.
  pub find_key-All :
      (l : List Obj) (found : Key → Option Obj)
      → Distinct (map key l)
      → ((k : Key) → contains (map key l) k ≡ true → found k ≡ find_key key k l)
      → All (λ o. found (key o) ≡ some o) l
  find_key-All [] found d h = tt
  find_key-All (o ∷ l) found d h = (
    h (key o) (ground arith) ∙ ground arith,
    find_key-All l found d.1 (λ k m. h k (ground arith) ∙ ground arith),
  )

module _ {Obj : Type 0} (Good : Obj → Obj → Type 0) where
  -- From what was visited to what stands in the namespace.
  pub Changed-namespace :
      (visited inside : Bool) (listed old mid new : Option Obj)
      → (visited ≡ true → listed ≢ none)
      → (visited ≡ false → listed ≡ none)
      → listed ≡ (if inside then old else none)
      → mid ≡ old
      → Changed Good visited mid new
      → Changed Good inside old new
  Changed-namespace true true listed old mid new t f l m c = rw m at c
  Changed-namespace true false listed old mid new t f l m c = absurd (t refl l)
  Changed-namespace false true listed old mid new t f l m c =
      let gone : old ≡ none = sym l ∙ f refl in rw (c, m, gone) tt
  Changed-namespace false false listed old mid new t f l m c = c ∙ m
