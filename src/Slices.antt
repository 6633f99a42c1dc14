-- ===== src/Slices.antt =====
-- pkg/slices/slices.go. A map that is used as a set is a list without repetition. Go ranges over a
-- map in any order: the model keeps the order of insertion, and the laws do not speak of order.
pub mod Laws
use primaza.Common.{Bool, List, [], ◌∷◌, without}
use primaza.Common.{Eq, ◌==◌, contains, if◌then◌else◌}

module _ {ℓ} {A : Type ℓ} ⦃e : Eq A⦄ where
  -- `m[e] = struct{}{}`
  set_insert : A → List A → List A
  set_insert a m = if contains m a then m else a ∷ m

  -- The loop that fills the map.
  insert_all : List A → List A → List A
  unfolding set_insert
  insert_all [] m = m
  insert_all (a ∷ o) m = insert_all o (set_insert a m)

  -- The loop that deletes from the map.
  delete_all : List A → List A → List A
  delete_all [] m = m
  delete_all (a ∷ s) m = delete_all s (without a m)

  -- `Subtract`
  unfoldable pub subtract : List A → List A → List A
  unfolding insert_all delete_all
  subtract o s = delete_all s (insert_all o [])
