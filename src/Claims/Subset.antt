-- ===== src/Claims/Subset.antt =====
-- serviceclaim_controller.go: the test of the identities, against the count of equal items.
use primaza.Common.{
  ◌≡◌, refl, sym, ◌∙◌, ◌↔◌, ℕ, zero, suc, ◌+◌, ◌-◌, ◌≤◌, ◌&&◌, ltb, Bool, true, false, Option, none,
  some, List, [], ◌∷◌,
}
use primaza.Common.{◌==◌, if◌then◌else◌, arith, Bool-cases, inl, inr, eq_of_test, eq_self}
use primaza.Api.{ServiceClassIdentityItem, item_eq}
use primaza.Claims.Matching.{
  Counts, count_of, set_count, or_zero, count_loop, subset_loop, check_sci_subset,
}

-- How often an item stands in an identity.
abbrev pub occurrences : ServiceClassIdentityItem → List ServiceClassIdentityItem → ℕ
occurrences item [] = 0
occurrences item (i ∷ items) = let n = occurrences item items in if item == i then suc n else n

abbrev amount : ServiceClassIdentityItem → Counts → ℕ
amount item set = or_zero (count_of item set)

count_of-set_count :
    (item i : ServiceClassIdentityItem) (n : ℕ) (set : Counts)
    → count_of item (set_count i n set) ≡ (if item == i then some n else count_of item set)
count_of-set_count item i n [] = refl
count_of-set_count item i n ((j, m) ∷ set) = ground (arith, count_of-set_count item i n set)

amount-set_count :
    (item i : ServiceClassIdentityItem) (n : ℕ) (set : Counts)
    → amount item (set_count i n set) ≡ (if item == i then n else amount item set)
amount-set_count item i n set = rw (count_of-set_count item i n set) (ground arith)

amount-count_loop :
    (item : ServiceClassIdentityItem) (items : List ServiceClassIdentityItem) (set : Counts)
    → amount item (count_loop items set) ≡ occurrences item items + amount item set
unfolding count_loop
amount-count_loop item [] set = omega arith
amount-count_loop item (i ∷ items) set = ground (
  arith,
  amount-count_loop item items (set_count i (amount i set + 1) set),
  amount-set_count item i (amount i set + 1) set,
)

subset_loop-cons :
    (i : ServiceClassIdentityItem) (items : List ServiceClassIdentityItem) (set : Counts)
    → subset_loop (i ∷ items) set
      ≡ (ltb 0 (amount i set) && subset_loop items (set_count i (amount i set - 1) set))
unfolding subset_loop
subset_loop-cons i items set = by_count (count_of i set)
  where
    by_count :
        (c : Option ℕ)
        → elim c [
          | none ↦ false
          | some zero ↦ false
          | some (suc n) ↦ subset_loop items (set_count i n set)
        ]
          ≡ (ltb 0 (or_zero c) && subset_loop items (set_count i (or_zero c - 1) set))
    by_count none = refl
    by_count (some zero) = refl
    by_count (some (suc n)) = ground arith

and_true : (a b : Bool) → (a && b) ≡ true → (a ≡ true) × (b ≡ true)
and_true a b h = (ground arith, ground arith)

subset_loop_iff :
    (items : List ServiceClassIdentityItem) (set : Counts)
    → (subset_loop items set ≡ true)
      ↔ ((item : ServiceClassIdentityItem) → occurrences item items ≤ amount item set)
unfolding subset_loop
subset_loop_iff [] set = (λ h item. omega arith, λ h. refl)
subset_loop_iff (i ∷ items) set = (
  λ h item.
      let (some_left, later) = and_true _ _ (sym (subset_loop-cons i items set) ∙ h) in
      let rest : occurrences item items ≤ amount item (set_count i (amount i set - 1) set) =
        (subset_loop_iff items (set_count i (amount i set - 1) set)).0 later item in
      elim (Bool-cases (item == i)) [
        | inl same ↦
            let here : amount item set ≡ amount i set = rw (eq_of_test item i same) in
            ground (arith, amount-set_count item i (amount i set - 1) set)
        | inr differ ↦ ground (arith, amount-set_count item i (amount i set - 1) set)
      ],
  λ h.
      let first : suc (occurrences i items) ≤ amount i set = ground (arith, h i, eq_self i) in
      let later =
        (subset_loop_iff items (set_count i (amount i set - 1) set)).1
          (λ item. after item (h item)) in
      subset_loop-cons i items set ∙ ground arith,
)
  where
    after :
        (item : ServiceClassIdentityItem)
        → occurrences item (i ∷ items) ≤ amount item set
        → occurrences item items ≤ amount item (set_count i (amount i set - 1) set)
    after item h = elim (Bool-cases (item == i)) [
      | inl same ↦
          let here : amount item set ≡ amount i set = rw (eq_of_test item i same) in
          ground (arith, amount-set_count item i (amount i set - 1) set)
      | inr differ ↦ ground (arith, amount-set_count item i (amount i set - 1) set)
    ]

-- A claim's identity is found in a service's exactly if no item stands in it more often than in
-- the service's.
pub check_sci_subset_iff :
    (service_claim registered_service : List ServiceClassIdentityItem)
    → (check_sci_subset service_claim registered_service ≡ true) ↔ (
        (item : ServiceClassIdentityItem)
        → occurrences item service_claim ≤ occurrences item registered_service)
unfolding check_sci_subset
check_sci_subset_iff service_claim registered_service = (
  λ h item.
      let bound = (subset_loop_iff service_claim (count_loop registered_service [])).0 h item in
      ground (arith, amount-count_loop item registered_service []),
  λ h.
      (subset_loop_iff service_claim (count_loop registered_service [])).1
        (λ item. ground (arith, h item, amount-count_loop item registered_service [])),
)
