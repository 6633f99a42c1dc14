-- ===== src/Cluster/Loops.antt =====
-- Loops over what an API server lists: what they leave in the store.
use primaza.Common.{
  ◌≡◌, refl, sym, ◌∙◌, true, false, Option, some, List, [], ◌∷◌, All, map, arith, String,
}
use primaza.Common.{◌==◌, string_eq, contains, if◌then◌else◌, Distinct, eq_of_test, ap}
use primaza.Common.Errors.{Error, Result, ok, err, panic, Outcome, join_all, join_all-eq-ok}
use primaza.Common.Effects.{Action, lift, ◌>>=◌, collect_errors, >>=-eq-ok}
use primaza.Api.{Key, key_eq}
use primaza.Cluster.{Client, in_namespace}
use primaza.Cluster.Stores.{
  find_key, IsStore, Changed, Changed-cons, find_key-none, find_key-some, find_key-All,
  Changed-namespace,
}

-- A loop that collected no error has made each call with success, one after the other.
module _ {W A : Type 0} (f : A → Action W (Unit {0})) where
  pub collect_errors-cons :
      (a : A) (rest : List A) (w : W)
      → (collect_errors f (a ∷ rest) w).0 ≡ ok []
      → ((f a w).0 ≡ ok tt)
        × ((collect_errors f rest (f a w).1).0 ≡ ok [])
        × ((collect_errors f (a ∷ rest) w).1 ≡ (collect_errors f rest (f a w).1).1)
  unfolding collect_errors ◌>>=◌
  collect_errors-cons a rest w h = ground arith

  pub collect_errors-nil : (w : W) → (collect_errors f [] w).1 ≡ w
  unfolding collect_errors ◌>>=◌
  collect_errors-nil w = refl

module _ {W Obj : Type 0} (key : Obj → Key) (find : W → Key → Option Obj)
    (f : Obj → Action W (Unit {0})) (Good : Obj → Obj → Type 0)
    (step : (o : Obj) (w : W)
      → find w (key o) ≡ some o
      → (f o w).0 ≡ ok tt
      → (o' : Obj) × Good o o'
        × ((k : Key) → find (f o w).1 k ≡ (if k == key o then some o' else find w k))) where
  -- The listed objects are the stored ones.
  abbrev pub Stored : W → List Obj → Type 0
  Stored w = All (λ o. find w (key o) ≡ some o)

  Stored-step :
      (o : Obj) (o' : Obj) (w w' : W) (l : List Obj)
      → ((k : Key) → find w' k ≡ (if k == key o then some o' else find w k))
      → contains (map key l) (key o) ≡ false
      → Stored w l
      → Stored w' l
  Stored-step o o' w w' [] h m s = tt
  Stored-step o o' w w' (p ∷ l) h m s =
      (ground (arith, h (key p)), Stored-step o o' w w' l h (ground arith) s.1)

  -- After a loop without an error each listed object is changed as one round changes it, and no
  -- other object is changed.
  pub loop_changes :
      (l : List Obj) (w : W)
      → Distinct (map key l)
      → Stored w l
      → (collect_errors f l w).0 ≡ ok []
      → (k : Key)
      → Changed Good (contains (map key l) k) (find w k) (find (collect_errors f l w).1 k)
  loop_changes [] w d s h k = ap (λ w'. find w' k) (collect_errors-nil f w)
  loop_changes (o ∷ l) w d s h k =
      let (first, others, last) = collect_errors-cons f o l w h in
      let (o', good, at) = step o w s.0 first in
      let ih = loop_changes l (f o w).1 d.1 (Stored-step o o' w (f o w).1 l at d.0 s.1) others k in
      rw last (
        Changed-cons Good (k == key o) (contains (map key l) k) o o' (find w k) (find (f o w).1 k) _
          good (λ same. let e = eq_of_test k (key o) same in (rw e s.0, rw e d.0)) (at k) ih)

-- A handler that lists, visits each object and joins the errors, and returns no error.
module _ {W A : Type 0} (m : Action W (List A)) (f : A → Action W (Unit {0})) where
  collected : Result (List Error) → Outcome
  collected (ok es) = join_all es
  collected (err e) = err e
  collected panic = panic

  collected-ok : (r : Result (List Error)) → collected r ≡ ok tt → r ≡ ok []
  unfolding collected
  collected-ok (ok es) h = ap ok (join_all-eq-ok es h)
  collected-ok (err e) h = cc
  collected-ok panic h = cc

  loop_result :
      (l : List A) (w : W)
      → (((do errs ← collect_errors f l; lift (join_all errs)) w).0
          ≡ collected (collect_errors f l w).0)
        × (((do errs ← collect_errors f l; lift (join_all errs)) w).1 ≡ (collect_errors f l w).1)
  unfolding ◌>>=◌ collected
  loop_result l w = ground arith

  pub list_loop-ok :
      (w : W)
      → ((do l ← m; errs ← collect_errors f l; lift (join_all errs)) w).0 ≡ ok tt
      → (l : List A) × ((m w).0 ≡ ok l)
        × ((collect_errors f l (m w).1).0 ≡ ok [])
        × (((do l ← m; errs ← collect_errors f l; lift (join_all errs)) w).1
            ≡ (collect_errors f l (m w).1).1)
  list_loop-ok w h =
      let (l, listed, rest, same) = >>=-eq-ok m _ w h in
      let (result, world) = loop_result l (m w).1 in
      (l, listed, collected-ok _ (sym result ∙ rest), ap (λ p. p.1) same ∙ world)

-- The same for a list of one namespace, at a kind that keeps its objects as `IsStore` says.
module _ {W Obj : Type 0} (c : Client W Obj) (key : Obj → Key) (find : W → Key → Option Obj)
    (store : IsStore c key find) (f : Obj → Action W (Unit {0})) (Good : Obj → Obj → Type 0)
    (step : (o : Obj) (w : W)
      → find w (key o) ≡ some o
      → (f o w).0 ≡ ok tt
      → (o' : Obj) × Good o o'
        × ((k : Key) → find (f o w).1 k ≡ (if k == key o then some o' else find w k)))
    (ns : String) (w : W) where
  listed_inside :
      (l : List Obj)
      → (c.list (in_namespace ns) w).0 ≡ ok l
      → (k : Key) → contains (map key l) k ≡ true
      → find w k ≡ find_key key k l
  listed_inside l h k m = ground (arith, store.list_ok ns w h k, find_key-some key l k m)

  pub list_loop_changes :
      ((do l ← c.list (in_namespace ns); errs ← collect_errors f l; lift (join_all errs)) w).0
        ≡ ok tt
      → (k : Key)
      → Changed Good (k.namespace == ns) (find w k) (
          find
            ((do l ← c.list (in_namespace ns); errs ← collect_errors f l; lift (join_all errs)) w).1
            k)
  list_loop_changes h k =
      let (l, listed, rest, world) = list_loop-ok (c.list (in_namespace ns)) f w h in
      let reads : (j : Key) → find (c.list (in_namespace ns) w).1 j ≡ find w j =
        store.list_reads ns w in
      let distinct = store.list_distinct ns w listed in
      let stored =
        find_key-All key l (find (c.list (in_namespace ns) w).1) distinct
          (λ j m. reads j ∙ listed_inside l listed j m) in
      rw world (
        Changed-namespace Good (contains (map key l) k) (k.namespace == ns) (find_key key k l)
          (find w k) (find (c.list (in_namespace ns) w).1 k) _ (find_key-some key l k)
          (find_key-none key l k) (store.list_ok ns w listed k) (reads k)
          (loop_changes key find f Good step l (c.list (in_namespace ns) w).1 distinct stored rest
            k))
