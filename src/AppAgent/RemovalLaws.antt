-- ===== src/AppAgent/RemovalLaws.antt =====
-- What the loop that removes from the slice that it ranges over does.
use primaza.Common.{
  ◌≡◌, refl, sym, ◌∙◌, ap, ℕ, zero, suc, ◌+◌, ◌-◌, ◌≤◌, Bool, true, false, not, ◌||◌, List, [], ◌∷◌,
  ◌++◌, ltb, length, take, drop, any, arith, keep, count, Bool-cases, inl, inr,
}
use mathlib.Core.List.{append-nil, append_assoc}
use primaza.Common.Errors.{Result, ok, panic}
use primaza.AppAgent.Removal.{moved, removal_loop, remove_matching}

module _ {A : Type 0} where
  take-length : (xs : List A) → take (length xs) xs ≡ xs
  take-length [] = refl
  take-length (x ∷ xs) = ap (λ l. x ∷ l) (take-length xs)

  take_front : (xs ys : List A) → take (length xs) (xs ++ ys) ≡ xs
  take_front [] ys = refl
  take_front (x ∷ xs) ys = ap (λ l. x ∷ l) (take_front xs ys)

  take-append : (xs ys : List A) (n : ℕ) → take (length xs + n) (xs ++ ys) ≡ xs ++ take n ys
  take-append [] ys n = let none : 0 + n ≡ n = omega arith in rw none refl
  take-append (x ∷ xs) ys n =
      let next : suc (length xs) + n ≡ suc (length xs + n) = omega arith in
      rw next (ap (λ l. x ∷ l) (take-append xs ys n))

  length-append : (xs ys : List A) → length (xs ++ ys) ≡ length xs + length ys
  length-append [] ys = omega arith
  length-append (x ∷ xs) ys = omega (arith, length-append xs ys)

  any-append : (p : A → Bool) (xs ys : List A) → any p (xs ++ ys) ≡ (any p xs || any p ys)
  any-append p [] ys = refl
  any-append p (x ∷ xs) ys = ground (arith, any-append p xs ys)

  any-drop : (p : A → Bool) (n : ℕ) (xs : List A) → any p xs ≡ false → any p (drop n xs) ≡ false
  any-drop p zero xs h = h
  any-drop p (suc n) [] h = refl
  any-drop p (suc n) (x ∷ xs) h = any-drop p n xs (ground arith)

  -- Where nothing matches, the array and the slice stay.
  loop_unmatched :
      (p : A → Bool) (rounds : ℕ) (front rest : List A) (size : ℕ)
      → any p rest ≡ false
      → removal_loop p rounds front rest size ≡ ok (take size (front ++ rest))
  unfolding removal_loop
  loop_unmatched p zero front rest size h = refl
  loop_unmatched p (suc rounds) front [] size h = rw (append-nil front) refl
  loop_unmatched p (suc rounds) front (v ∷ rest) size h =
      let miss : p v ≡ false = ground arith in
      rw miss (
        loop_unmatched p rounds (front ++ (v ∷ [])) rest size (ground arith)
        ∙ ap (λ l. ok (take size l)) (append_assoc front (v ∷ []) rest))

  -- The rest of the array after the only match was removed.
  loop_moved :
      (p : A → Bool) (front : List A) (v : A) (ys : List A)
      → any p ys ≡ false
      → removal_loop p
          (length ys)
          (front ++ take 1 (moved (length ys) v ys))
          (drop 1 (moved (length ys) v ys))
          (length front + length ys)
        ≡ ok (front ++ ys)
  unfolding removal_loop
  loop_moved p front v [] h = ap ok (rw (append-nil) (take-append front (v ∷ []) 0))
  loop_moved p front v (y ∷ ys) h =
      let last = drop (length ys) (y ∷ ys) in
      let stale : any p (take (length ys) ys ++ last) ≡ false =
        any-append p (take (length ys) ys) last
        ∙ rw (take-length ys) (ground (arith, any-drop p (length ys) (y ∷ ys) h)) in
      loop_unmatched p (suc (length ys)) (front ++ (y ∷ [])) (take (length ys) ys ++ last)
        (length front + suc (length ys)) stale
      ∙ ap ok (
          rw append_assoc (
            take-append front (y ∷ (take (length ys) ys ++ last)) (suc (length ys))
            ∙ ap (λ l. front ++ (y ∷ l)) (rw take-length (take_front ys last))))

  loop_match :
      (p : A → Bool) (front : List A) (v : A) (ys : List A)
      → p v ≡ true
      → any p ys ≡ false
      → removal_loop p (suc (length ys)) front (v ∷ ys) (length front + suc (length ys))
        ≡ ok (front ++ ys)
  unfolding removal_loop
  loop_match p front v ys hv hy =
      let below : ltb (length front) (length front + suc (length ys)) ≡ true = ground arith in
      let live : length front + suc (length ys) - suc (length front) ≡ length ys = omega arith in
      let less : length front + suc (length ys) - 1 ≡ length front + length ys = omega arith in
      rw (hv, below, live, less) (loop_moved p front v ys hy)

  -- At the only match the elements behind it move by one place, and the last one stands there twice.
  loop_missed :
      (p : A → Bool) (front : List A) (v : A) (rest : List A) {r : Result (List A)}
      → p v ≡ false
      → removal_loop p
          (length rest)
          (front ++ (v ∷ []))
          rest
          (length (front ++ (v ∷ [])) + length rest)
        ≡ r
      → removal_loop p (suc (length rest)) front (v ∷ rest) (length front + suc (length rest)) ≡ r
  unfolding removal_loop
  loop_missed p front v rest hv later =
      let size : length front + suc (length rest) ≡ length (front ++ (v ∷ [])) + length rest =
        omega (arith, length-append front (v ∷ [])) in
      rw (hv, size) later

  count-any : (p : A → Bool) (l : List A) → count p l ≡ 0 → any p l ≡ false
  count-any p [] h = refl
  count-any p (v ∷ l) h = ground (arith, count-any p l)

  keep_unmatched : (p : A → Bool) (l : List A) → any p l ≡ false → keep (λ v. not (p v)) l ≡ l
  keep_unmatched p [] h = refl
  keep_unmatched p (v ∷ l) h = ground (arith, keep_unmatched p l)

  loop-keep :
      (p : A → Bool) (front l : List A)
      → count p l ≤ 1
      → removal_loop p (length l) front l (length front + length l)
        ≡ ok (front ++ keep (λ v. not (p v)) l)
  unfolding removal_loop
  loop-keep p front [] h = ap ok (take-append front [] 0)
  loop-keep p front (v ∷ l) h = elim (Bool-cases (p v)) [
    | inl hit ↦
        let last : any p l ≡ false = count-any p l (ground arith) in
        loop_match p front v l hit last
        ∙ rw hit (ap (λ k. ok (front ++ k)) (sym (keep_unmatched p l last)))
    | inr miss ↦
        loop_missed p front v l miss (loop-keep p (front ++ (v ∷ [])) l (ground arith))
        ∙ rw miss (ap ok (append_assoc front (v ∷ []) (keep (λ u. not (p u)) l)))
  ]

  whole :
      (p : A → Bool) (l : List A)
      → remove_matching p l ≡ removal_loop p (length l) [] l (0 + length l)
  unfolding remove_matching
  whole p l = let same : 0 + length l ≡ length l = omega arith in rw same refl

  -- A slice with at most one element that matches loses that element and keeps the others in order,
  -- without a panic.
  pub remove_matching-keep :
      (p : A → Bool) (l : List A)
      → count p l ≤ 1
      → remove_matching p l ≡ ok (keep (λ v. not (p v)) l)
  unfolding remove_matching
  remove_matching-keep p l h = whole p l ∙ loop-keep p [] l h

  past-panic :
      (p : A → Bool) (front : List A) (u : A)
      → p u ≡ true
      → removal_loop p 1 (front ++ (u ∷ [])) (u ∷ []) (length front + 1) ≡ panic
  unfolding removal_loop
  past-panic p front u hu =
      let past : ltb (length (front ++ (u ∷ []))) (length front + 1) ≡ false =
        ground (arith, length-append front (u ∷ [])) in
      rw (hu, past) refl

  loop-panic :
      (p : A → Bool) (front xs : List A) (v u : A)
      → any p xs ≡ false
      → p v ≡ true
      → p u ≡ true
      → removal_loop p
          (length (xs ++ (v ∷ (u ∷ []))))
          front
          (xs ++ (v ∷ (u ∷ [])))
          (length front + length (xs ++ (v ∷ (u ∷ []))))
        ≡ panic
  unfolding removal_loop
  loop-panic p front [] v u hx hv hu =
      let below : ltb (length front) (length front + 2) ≡ true = ground arith in
      let live : length front + 2 - suc (length front) ≡ 1 = omega arith in
      let less : length front + 2 - 1 ≡ length front + 1 = omega arith in
      let array = λ (k : ℕ). moved k v (u ∷ []) in
      rw (hv, below)
        (ap
            (λ k.
              removal_loop p 1 (front ++ take 1 (array k)) (drop 1 (array k))
                (length front + 2 - 1))
            live
          ∙ ap (λ k. removal_loop p 1 (front ++ (u ∷ [])) (u ∷ []) k) less
          ∙ past-panic p front u hu)
  loop-panic p front (x ∷ xs) v u hx hv hu =
      loop_missed p front x (xs ++ (v ∷ (u ∷ []))) (ground arith)
        (loop-panic p (front ++ (x ∷ [])) xs v u (ground arith) hv hu)

  -- A slice whose last two elements are the ones that match makes the loop panic.
  pub remove_matching-panic :
      (p : A → Bool) (xs : List A) (v u : A)
      → any p xs ≡ false
      → p v ≡ true
      → p u ≡ true
      → remove_matching p (xs ++ (v ∷ (u ∷ []))) ≡ panic
  unfolding remove_matching
  remove_matching-panic p xs v u hx hv hu =
      whole p (xs ++ (v ∷ (u ∷ []))) ∙ loop-panic p [] xs v u hx hv hu
