-- ===== src/Slices/Laws.antt =====
-- `Subtract` is the difference of sets, whatever order a map is ranged over in.
use primaza.Common.{◌≡◌, refl, not, ◌&&◌, ◌||◌, List, [], ◌∷◌, arith, without}
use primaza.Common.{Eq, contains, Distinct, contains-without, without-Distinct}
use primaza.Slices.{set_insert, insert_all, delete_all, subtract}

module _ {ℓ} {A : Type ℓ} ⦃e : Eq A⦄ where
  contains-insert_all :
      (o m : List A) (a : A) → contains (insert_all o m) a ≡ (contains o a || contains m a)
  unfolding insert_all set_insert
  contains-insert_all [] m a = refl
  contains-insert_all (x ∷ o) m a = ground (arith, contains-insert_all o (set_insert x m) a)

  contains-delete_all :
      (s m : List A) (a : A) → contains (delete_all s m) a ≡ (contains m a && not (contains s a))
  unfolding delete_all
  contains-delete_all [] m a = ground arith
  contains-delete_all (x ∷ s) m a =
      ground (arith, contains-delete_all s (without x m) a, contains-without x a m)

  insert_all-Distinct : (o m : List A) → Distinct m → Distinct (insert_all o m)
  unfolding insert_all set_insert
  insert_all-Distinct [] m h = h
  insert_all-Distinct (x ∷ o) m h = insert_all-Distinct o (set_insert x m) (ground arith)

  delete_all-Distinct : (s m : List A) → Distinct m → Distinct (delete_all s m)
  unfolding delete_all
  delete_all-Distinct [] m h = h
  delete_all-Distinct (x ∷ s) m h = delete_all-Distinct s (without x m) (without-Distinct x m h)

  -- The result holds exactly the elements of the first list that the second lacks, each once.
  pub subtract_lem :
      (o s : List A)
      → Distinct (subtract o s)
        × ((a : A) → contains (subtract o s) a ≡ (contains o a && not (contains s a)))
  unfolding subtract
  subtract_lem o s = (
    delete_all-Distinct s (insert_all o []) (insert_all-Distinct o [] tt),
    λ a. ground (arith, contains-delete_all s (insert_all o []) a, contains-insert_all o [] a),
  )
