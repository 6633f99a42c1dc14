-- ===== src/Cluster/Memory.antt =====
-- An API server in memory, for runs and for instances of the laws: it never fails but for objects
-- that are missing or that exist already.
pub mod Frames
use primaza.Common.{
  ◌≡◌, refl, sym, ◌∙◌, Bool, true, false, not, ◌&&◌, String, Option, none, some, List, [], ◌∷◌, all,
}
use primaza.Common.{Eq, ◌==◌, string_eq, contains, if◌then◌else◌, Distinct, map, arith, keep}
use mathlib.Core.Path.{ap, subst}
use primaza.Common.Errors.{
  ok_injective, Error, Result, ok, err, panic, api, not_found, already_exists,
}
use primaza.Common.Effects.{Action}
use primaza.Api.{Key, key_eq, key_of, ObjectMeta, lookup}
use primaza.Cluster.{Client, ListOptions, in_namespace}
use primaza.Cluster.Stores.{find_key, IsStore}

abbrev pub in_ns : Option String → Key → Bool
in_ns none k = true
in_ns (some ns) k = k.namespace == ns

module _ {Obj : Type 0} (key : Obj → Key) where
  abbrev pub drop_key : Key → List Obj → List Obj
  drop_key k [] = []
  drop_key k (o ∷ l) = let rest = drop_key k l in if k == key o then rest else o ∷ rest

  -- The first object of each key.
  abbrev pub dedup : List Obj → List Obj
  dedup [] = []
  dedup (o ∷ l) = o ∷ drop_key (key o) (dedup l)

  abbrev pub replace : Obj → List Obj → List Obj
  replace new [] = []
  replace new (o ∷ l) = if key new == key o then new ∷ l else o ∷ replace new l

  find-drop_key :
      (j k : Key) (l : List Obj)
      → find_key key k (drop_key j l) ≡ (if k == j then none else find_key key k l)
  find-drop_key j k [] = ground arith
  find-drop_key j k (o ∷ l) = ground (arith, find-drop_key j k l)

  find-dedup : (k : Key) (l : List Obj) → find_key key k (dedup l) ≡ find_key key k l
  find-dedup k [] = refl
  find-dedup k (o ∷ l) = ground (arith, find-drop_key (key o) k (dedup l), find-dedup k l)

  contains-drop_key :
      (j k : Key) (l : List Obj)
      → contains (map key (drop_key j l)) k ≡ (not (k == j) && contains (map key l) k)
  contains-drop_key j k [] = ground arith
  contains-drop_key j k (o ∷ l) = ground (arith, contains-drop_key j k l)

  drop_key-Distinct :
      (j : Key) (l : List Obj) → Distinct (map key l) → Distinct (map key (drop_key j l))
  drop_key-Distinct j [] d = tt
  drop_key-Distinct j (o ∷ l) d =
      ground (arith, drop_key-Distinct j l d.1, contains-drop_key j (key o) l)

  dedup-Distinct : (l : List Obj) → Distinct (map key (dedup l))
  dedup-Distinct [] = tt
  dedup-Distinct (o ∷ l) = (
    contains-drop_key (key o) (key o) (dedup l) ∙ ground arith,
    drop_key-Distinct (key o) (dedup l) (dedup-Distinct l),
  )

  contains-keep :
      (p : Obj → Bool) (k : Key) (l : List Obj)
      → contains (map key l) k ≡ false
      → contains (map key (keep p l)) k ≡ false
  contains-keep p k [] h = refl
  contains-keep p k (o ∷ l) h = ground (arith, contains-keep p k l)

  keep-Distinct :
      (p : Obj → Bool) (l : List Obj) → Distinct (map key l) → Distinct (map key (keep p l))
  keep-Distinct p [] d = tt
  keep-Distinct p (o ∷ l) d = ground (arith, keep-Distinct p l d.1, contains-keep p (key o) l)

  find-keep :
      (q : Key → Bool) (k : Key) (l : List Obj)
      → find_key key k (keep (λ o. q (key o)) l) ≡ (if q k then find_key key k l else none)
  find-keep q k [] = ground arith
  find-keep q k (o ∷ l) = ground (arith, find-keep q k l)

  find-replace :
      (new : Obj) (k : Key) (l : List Obj) {old : Obj}
      → find_key key (key new) l ≡ some old
      → find_key key k (replace new l) ≡ (if k == key new then some new else find_key key k l)
  find-replace new k [] h = cc
  find-replace new k (o ∷ l) {old} h = ground (arith, find-replace new k l {old = old})

-- The labels that a list asks for.
abbrev has_labels : List (String × String) → ObjectMeta → Bool
has_labels [] m = true
has_labels ((k, v) ∷ rest) m = elim (lookup k m.labels) [
  | none ↦ false
  | some x ↦ x == v && has_labels rest m
]

-- A kind's objects inside a world, and the parts of an object that a server treats apart.
pub record Kind (W Obj : Type 0) : Type 0 where
  pub objects : W → List Obj
  pub store : List Obj → W → W
  pub meta : Obj → ObjectMeta
  -- The new object but for its status; the old object with the status of the new one.
  pub keep_status : Obj → Obj → Obj
  pub set_status : Obj → Obj → Obj

module _ {W Obj : Type 0} (kind : Kind W Obj) where
  abbrev pub kind_key : Obj → Key
  kind_key o = key_of (kind.meta o)

  abbrev pub look : W → Key → Option Obj
  look w k = find_key kind_key k (kind.objects w)

  abbrev found : Option Obj → W → Result Obj × W
  found none w = (err (api not_found), w)
  found (some o) w = (ok o, w)

  abbrev write : (Obj → Obj) → Obj → Option Obj → W → Result Obj × W
  write f o none w = (err (api not_found), w)
  write f o (some old) w = (ok (f old), kind.store (replace kind_key (f old) (kind.objects w)) w)

  abbrev mem_create : Obj → Option Obj → W → Result Obj × W
  mem_create o (some old) w = (err (api already_exists), w)
  mem_create o none w = (ok o, kind.store (o ∷ kind.objects w) w)

  abbrev mem_delete : Key → Option Obj → W → Result (Unit {0}) × W
  mem_delete k none w = (err (api not_found), w)
  mem_delete k (some old) w = (ok tt, kind.store (drop_key kind_key k (kind.objects w)) w)

  abbrev mutated : Result Obj → (Obj → W → Result Obj × W) → W → Result Obj × W
  mutated (ok o) f w = f o w
  mutated (err e) f w = (err e, w)
  mutated panic f w = (panic, w)

  abbrev mem_upsert : Obj → (Obj → Result Obj) → Option Obj → W → Result Obj × W
  mem_upsert o f none w = mutated (f o) (λ o' w'. mem_create o' none w') w
  mem_upsert o f (some old) w =
      mutated (f old) (λ o' w'. write (kind.keep_status o') o' (some old) w') w

  abbrev pub memory : Client W Obj
  memory = record {
    get = λ k w. found (look w k) w;
    list = λ o w. (
      ok (
          keep (λ x. has_labels o.labels (kind.meta x) && in_ns o.namespace (kind_key x))
            (dedup kind_key (kind.objects w))),
      w,
    );
    create = λ o w. mem_create o (look w (kind_key o)) w;
    update = λ o w. write (kind.keep_status o) o (look w (kind_key o)) w;
    update_status = λ o w. write (λ old. kind.set_status old o) o (look w (kind_key o)) w;
    delete = λ k w. mem_delete k (look w k) w;
    create_or_update = λ o f w. mem_upsert o f (look w (kind_key o)) w;
  }

  module _ (store_objects : (l : List Obj) (w : W) → kind.objects (kind.store l w) ≡ l)
      (whole : (o old : Obj) → kind.keep_status o old ≡ o) where
    write-look :
        (o : Obj) (old : Option Obj) (w : W) {o' : Obj}
        → look w (kind_key o) ≡ old
        → (write (kind.keep_status o) o old w).0 ≡ ok o'
        → (k : Key)
        → look (write (kind.keep_status o) o old w).1 k
          ≡ (if k == kind_key o then some o else look w k)
    write-look o none w e h k = cc
    write-look o (some old) w e h k =
        rw (store_objects, whole) (find-replace kind_key o k (kind.objects w) e)

    -- At a kind without a status the server in memory keeps its objects as documented.
    pub memory-IsStore : IsStore memory kind_key look
    memory-IsStore = record {
      list_ok = λ ns w {l} h k.
          ap (find_key kind_key k) (sym (ok_injective _ l h))
          ∙ find-keep kind_key (in_ns (some ns)) k (dedup kind_key (kind.objects w))
          ∙ rw (find-dedup kind_key k (kind.objects w)) refl;
      list_distinct = λ ns w {l} h.
          subst (λ x. Distinct (map kind_key x)) (ok_injective _ l h)
            (keep-Distinct kind_key (λ x. in_ns (some ns) (kind_key x))
              (dedup kind_key (kind.objects w)) (dedup-Distinct kind_key (kind.objects w)));
      list_reads = λ ns w k. refl;
      update_ok = λ o w {o'} h k. write-look o (look w (kind_key o)) w refl h k;
    }
