-- ===== src/AppAgent/Removal.antt =====
-- servicebinding_controller.go: `for i, v := range s { if … { s = append(s[:i], s[i+1:]...) } }`, by
-- which volume mounts, variables and volumes are removed. The loop ranges over the slice as it was
-- at the start, while `append` moves the elements of the array that both slices share.
use primaza.Common.{
  ℕ, zero, suc, ◌-◌, Bool, List, [], ◌∷◌, ◌++◌, ltb, length, take, drop, if◌then◌else◌,
}
use primaza.Common.Errors.{Result, ok, panic}

module _ {A : Type 0} where
  -- The rest of the array from `v` on, after `append` has moved `live` elements by one place.
  abbrev pub moved : ℕ → A → List A → List A
  moved live v rest = take live rest ++ drop live (v ∷ rest)

  -- The array is `front` and `rest`, the index is the length of `front`, and the slice has `size`
  -- elements of the array. `s[i+1:]` panics where the index has passed the slice.
  unfoldable pub removal_loop : (A → Bool) → ℕ → List A → List A → ℕ → Result (List A)
  removal_loop p zero front rest size = ok (take size (front ++ rest))
  removal_loop p (suc rounds) front [] size = ok (take size front)
  removal_loop p (suc rounds) front (v ∷ rest) size =
      let kept = removal_loop p rounds (front ++ (v ∷ [])) rest size in
      let array = moved (size - suc (length front)) v rest in
      let removed = removal_loop p rounds (front ++ take 1 array) (drop 1 array) (size - 1) in
      if p v then (if ltb (length front) size then removed else panic) else kept

  -- The whole loop over a slice.
  unfoldable pub remove_matching : (A → Bool) → List A → Result (List A)
  unfolding removal_loop
  remove_matching p l = removal_loop p (length l) [] l (length l)
