-- ===== src/Cluster/Memory/Frames.antt =====
-- An API server in memory: a call at one kind leaves alone what its stores leave alone.
use primaza.Common.{
  ◌≡◌, ◌≢◌, refl, sym, ap, ◌⊎◌, ◌∙◌, arith, Option, none, some, List, [], ◌∷◌, inl, inr, Bool-cases,
  ◌==◌, if◌then◌else◌, eq_of_test, eq_self,
}
use mathlib.Core.Option
use primaza.Common.Errors.{Result, ok, err, panic, ok_injective}
use primaza.Common.Effects.Keeps.{Keeps}
use primaza.Api.{Key, key_eq}
use primaza.Cluster.{ListOptions}
use primaza.Cluster.Memory.{
  Kind, look, memory, found, write, mem_create, mem_delete, mutated, mem_upsert, kind_key,
  find-drop_key, find-replace,
}
use primaza.Cluster.Stores.{find_key}

module _ {W Obj : Type 0} (kind : Kind W Obj) (P : W → Type 0) where
  found-keeps : (o : Option Obj) (w : W) → P w → P (found kind o w).1
  found-keeps none w h = h
  found-keeps (some o) w h = h

  pub memory_get : (k : Key) → Keeps P ((memory kind).get k)
  memory_get k = record { at = λ w h. found-keeps (look kind w k) w h }

module _ {W Obj : Type 0} (kind : Kind W Obj) (P : W → Type 0)
    (stored : (l : List Obj) (w : W) → P w → P (kind.store l w)) where
  write-keeps :
      (f : Obj → Obj) (o : Obj) (old : Option Obj) (w : W) → P w → P (write kind f o old w).1
  write-keeps f o none w h = h
  write-keeps f o (some old) w h = stored _ w h

  create-keeps : (o : Obj) (old : Option Obj) (w : W) → P w → P (mem_create kind o old w).1
  create-keeps o none w h = stored _ w h
  create-keeps o (some old) w h = h

  delete-keeps : (k : Key) (old : Option Obj) (w : W) → P w → P (mem_delete kind k old w).1
  delete-keeps k none w h = h
  delete-keeps k (some old) w h = stored _ w h

  mutated-keeps :
      (r : Result Obj) (f : Obj → W → Result Obj × W) (w : W)
      → ((o : Obj) → P (f o w).1)
      → P w
      → P (mutated kind r f w).1
  mutated-keeps (ok o) f w g h = g o
  mutated-keeps (err e) f w g h = h
  mutated-keeps panic f w g h = h

  upsert-keeps :
      (o : Obj) (f : Obj → Result Obj) (old : Option Obj) (w : W)
      → P w
      → P (mem_upsert kind o f old w).1
  upsert-keeps o f none w h = mutated-keeps (f o) _ w (λ o'. create-keeps o' none w h) h
  upsert-keeps o f (some old) w h =
      mutated-keeps (f old) _ w (λ o'. write-keeps (kind.keep_status o') o' (some old) w h) h

  pub memory_list : (o : ListOptions) → Keeps P ((memory kind).list o)
  memory_list o = record { at = λ w h. h }

  pub memory_update_status : (o : Obj) → Keeps P ((memory kind).update_status o)
  memory_update_status o = record {
    at = λ w h. write-keeps _ o (look kind w (kind_key kind o)) w h;
  }

  pub memory_update : (o : Obj) → Keeps P ((memory kind).update o)
  memory_update o = record { at = λ w h. write-keeps _ o (look kind w (kind_key kind o)) w h }

  pub memory_delete : (k : Key) → Keeps P ((memory kind).delete k)
  memory_delete k = record { at = λ w h. delete-keeps k (look kind w k) w h }

  pub memory_create_or_update :
      (o : Obj) (f : Obj → Result Obj) → Keeps P ((memory kind).create_or_update o f)
  memory_create_or_update o f = record {
    at = λ w h. upsert-keeps o f (look kind w (kind_key kind o)) w h;
  }

-- A deletion in memory takes one object away.
module _ {W Obj : Type 0} (kind : Kind W Obj)
    (store_objects : (l : List Obj) (w : W) → kind.objects (kind.store l w) ≡ l) where
  delete_one :
      (k other : Key) (old : Option Obj) (w : W)
      → other ≢ k
      → look kind (mem_delete kind k old w).1 other ≡ look kind w other
  delete_one k other none w differ = refl
  delete_one k other (some old) w differ =
      rw (store_objects, find-drop_key (kind_key kind) k other (kind.objects w)) (ground arith)

  pub memory_deletes_one :
      (k other : Key) (w : W)
      → other ≢ k
      → look kind ((memory kind).delete k w).1 other ≡ look kind w other
  memory_deletes_one k other w differ = delete_one k other (look kind w k) w differ

-- A write in memory changes the object of one key.
module _ {W Obj : Type 0} (kind : Kind W Obj)
    (store_objects : (l : List Obj) (w : W) → kind.objects (kind.store l w) ≡ l) where
  found-key :
      (k : Key) (l : List Obj) (o : Obj)
      → find_key (kind_key kind) k l ≡ some o
      → k ≡ kind_key kind o
  found-key k [] o h = cc
  found-key k (x ∷ l) o h = ground (arith, found-key k l o)

  write_one :
      (f : Obj → Obj) (o : Obj) (old : Option Obj) (w : W)
      → look kind w (kind_key kind o) ≡ old
      → ((x : Obj) → kind_key kind o ≡ kind_key kind x → kind_key kind (f x) ≡ kind_key kind o)
      → (k : Key)
      → look kind (write kind f o old w).1 k
        ≡ (if k == kind_key kind o then Option.map f old else look kind w k)
  write_one f o none w e same k = elim (Bool-cases (k == kind_key kind o)) [
    | inl at ↦ rw at (ap (look kind w) (eq_of_test k (kind_key kind o) at) ∙ e)
    | inr differ ↦ rw differ refl
  ]
  write_one f o (some old) w e same k =
      let key = same old (found-key (kind_key kind o) (kind.objects w) old e) in
      rw store_objects (
        find-replace (kind_key kind) (f old) k (kind.objects w) {old = old} (rw key e)
        ∙ rw key refl)

  pub memory_update_status_one :
      (o : Obj) (w : W)
      → ((x : Obj)
          → kind_key kind o ≡ kind_key kind x
          → kind_key kind (kind.set_status x o) ≡ kind_key kind o)
      → (k : Key)
      → look kind ((memory kind).update_status o w).1 k ≡ (
          if k == kind_key kind o
          then Option.map (λ x. kind.set_status x o) (look kind w (kind_key kind o))
          else look kind w k)
  memory_update_status_one o w same k =
      write_one (λ x. kind.set_status x o) o (look kind w (kind_key kind o)) w refl same k

  pub memory_update_one :
      (o : Obj) (w : W)
      → ((x : Obj)
          → kind_key kind o ≡ kind_key kind x
          → kind_key kind (kind.keep_status o x) ≡ kind_key kind o)
      → (k : Key)
      → look kind ((memory kind).update o w).1 k ≡ (
          if k == kind_key kind o
          then Option.map (kind.keep_status o) (look kind w (kind_key kind o))
          else look kind w k)
  memory_update_one o w same k =
      write_one (kind.keep_status o) o (look kind w (kind_key kind o)) w refl same k

  written_found :
      (f : Obj → Obj) (o o' : Obj) (old : Option Obj) (w : W)
      → (write kind f o old w).0 ≡ ok o'
      → (x : Obj) × (Option.map f old ≡ some (f x))
  written_found f o o' none w h = cc
  written_found f o o' (some x) w h = (x, refl)

  pub memory_update_status_ok :
      (o o' : Obj) (w : W)
      → ((x : Obj)
          → kind_key kind o ≡ kind_key kind x
          → kind_key kind (kind.set_status x o) ≡ kind_key kind o)
      → ((memory kind).update_status o w).0 ≡ ok o'
      → (x : Obj) × (look kind ((memory kind).update_status o w).1 (kind_key kind o)
          ≡ some (kind.set_status x o))
  memory_update_status_ok o o' w same h =
      let (x, e) =
        written_found (λ x. kind.set_status x o) o o' (look kind w (kind_key kind o)) w h in
      (x, memory_update_status_one o w same (kind_key kind o) ∙ rw (eq_self (kind_key kind o)) e)

  delete_gone :
      (k other : Key) (old : Option Obj) (w : W)
      → look kind w k ≡ old
      → look kind (mem_delete kind k old w).1 other
        ≡ (if other == k then none else look kind w other)
  delete_gone k other none w e = elim (Bool-cases (other == k)) [
    | inl at ↦ rw at (ap (look kind w) (eq_of_test other k at) ∙ e)
    | inr differ ↦ rw differ refl
  ]
  delete_gone k other (some old) w e =
      rw store_objects (find-drop_key (kind_key kind) k other (kind.objects w))

  pub memory_delete_gone :
      (k other : Key) (w : W)
      → look kind ((memory kind).delete k w).1 other
        ≡ (if other == k then none else look kind w other)
  memory_delete_gone k other w = delete_gone k other (look kind w k) w refl

  upsert_ok :
      (o : Obj) (g : Obj → Obj) (old : Option Obj) (w : W)
      → look kind w (kind_key kind o) ≡ old
      → ((x : Obj) → kind_key kind (g x) ≡ kind_key kind x)
      → ((x y : Obj) → kind_key kind (kind.keep_status x y) ≡ kind_key kind x)
      → (x : Obj) × (look kind (mem_upsert kind o (λ y. ok (g y)) old w).1 (kind_key kind o)
          ≡ some x)
        × ((x ≡ g o) ⊎ ((y : Obj) × (x ≡ kind.keep_status (g y) y)))
  upsert_ok o g none w e keeps same =
      (g o, rw (store_objects, keeps, eq_self (kind_key kind o)) refl, inl refl)
  upsert_ok o g (some old) w e keeps same =
      let key = found-key (kind_key kind o) (kind.objects w) old e in
      let at : look kind w (kind_key kind (g old)) ≡ some old = rw (keeps old, sym key) e in
      (
        kind.keep_status (g old) old,
        write_one (kind.keep_status (g old)) (g old) (some old) w at (λ x k. same (g old) x)
              (kind_key kind o)
            ∙ rw (keeps old, sym key, eq_self (kind_key kind o)) refl,
        inr (old, refl),
      )

  -- A write that makes or changes an object leaves it at the key.
  pub memory_create_or_update_ok :
      (o : Obj) (g : Obj → Obj) (w : W)
      → ((x : Obj) → kind_key kind (g x) ≡ kind_key kind x)
      → ((x y : Obj) → kind_key kind (kind.keep_status x y) ≡ kind_key kind x)
      → (x : Obj) × (look kind
            ((memory kind).create_or_update o (λ y. ok (g y)) w).1
            (kind_key kind o)
          ≡ some x)
        × ((x ≡ g o) ⊎ ((y : Obj) × (x ≡ kind.keep_status (g y) y)))
  memory_create_or_update_ok o g w keeps same =
      upsert_ok o g (look kind w (kind_key kind o)) w refl keeps same

  written_is :
      (f : Obj → Obj) (o o' : Obj) (old : Option Obj) (w : W)
      → (write kind f o old w).0 ≡ ok o'
      → (x : Obj) × (o' ≡ f x)
  written_is f o o' none w h = cc
  written_is f o o' (some x) w h = (x, sym (ok_injective _ o' h))

  -- An update answers with the object as it is stored.
  pub memory_update_answers :
      (o o' : Obj) (w : W)
      → ((memory kind).update o w).0 ≡ ok o'
      → (x : Obj) × (o' ≡ kind.keep_status o x)
  memory_update_answers o o' w h =
      written_is (kind.keep_status o) o o' (look kind w (kind_key kind o)) w h
