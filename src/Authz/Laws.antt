-- ===== src/Authz/Laws.antt =====
-- What an excess report says.
use primaza.Common.{
  ◌≡◌, refl, sym, ◌∙◌, ◌↔◌, Bool, true, false, ◌&&◌, ◌||◌, String, List, [], ◌∷◌, ◌++◌,
}
use primaza.Common.{
  Eq, ◌==◌, string_eq, contains, if◌then◌else◌, arith, Bool-cases, inl, inr, any, eq_self,
  eq_of_test, Bool_ext,
}
use primaza.Authz.Excess.{
  ResourceRule, Permission, RuleKey, rule_eq, or_blank, each_of, each_rule, excess_of, is_wildcard,
  create_unwanted_permissions, defined_rules_of,
}

-- The rule grants the key: its group, resource, name and verb are listed.
abbrev pub grants : ResourceRule → RuleKey → Bool
grants rr k =
    contains (or_blank rr.api_groups) k.group
    && (contains rr.resources k.resource
        && (contains (or_blank rr.resource_names) k.resource_name && contains rr.verbs k.verb))

-- The role's permission asks for the key.
abbrev pub asks : Permission → RuleKey → Bool
asks p k =
    contains (or_blank p.api_groups) k.group
    && (contains p.resources k.resource
        && (contains (or_blank p.resource_names) k.resource_name && contains p.verbs k.verb))

module _ {ℓ} {A : Type ℓ} where
  append-nil_iff : (xs ys : List A) → (xs ++ ys ≡ []) ↔ ((xs ≡ []) × (ys ≡ []))
  append-nil_iff [] ys = (λ h. (refl, h), λ h. h.1)
  append-nil_iff (x ∷ xs) ys = (λ h. cc, λ h. cc)

  nil_of_each_of :
      (f : String → List A) (xs : List String)
      → each_of f xs ≡ []
      → (x : String) → contains xs x ≡ true
      → f x ≡ []
  nil_of_each_of f [] h x m = cc
  nil_of_each_of f (y ∷ xs) h x m =
      let (here, there) = (append-nil_iff (f y) (each_of f xs)).0 h in
      elim (Bool-cases (x == y)) [
        | inl same ↦ rw (eq_of_test x y same, here)
        | inr differ ↦ nil_of_each_of f xs there x (ground arith)
      ]

  each_of-nil :
      (f : String → List A) (xs : List String)
      → ((x : String) → contains xs x ≡ true → f x ≡ [])
      → each_of f xs ≡ []
  each_of-nil f [] h = refl
  each_of-nil f (y ∷ xs) h =
      (append-nil_iff (f y) (each_of f xs)).1
        (h y (ground (arith, eq_self y)), each_of-nil f xs (λ x m. h x (ground arith)))

  nil_of_each_rule :
      (f : RuleKey → List A) (gs rs ns vs : List String)
      → each_rule f gs rs ns vs ≡ []
      → (k : RuleKey)
      → (contains gs k.group
          && (contains rs k.resource && (contains ns k.resource_name && contains vs k.verb)))
        ≡ true
      → f k ≡ []
  unfolding each_rule
  nil_of_each_rule f gs rs ns vs h k m =
      nil_of_each_of _ vs
        (nil_of_each_of _ ns
          (nil_of_each_of _ rs (nil_of_each_of _ gs h k.group (ground arith)) k.resource
            (ground arith))
          k.resource_name (ground arith))
        k.verb (ground arith)

  each_rule-nil :
      (f : RuleKey → List A) (gs rs ns vs : List String)
      → ((k : RuleKey)
          → (contains gs k.group
              && (contains rs k.resource && (contains ns k.resource_name && contains vs k.verb)))
            ≡ true
          → f k ≡ [])
      → each_rule f gs rs ns vs ≡ []
  unfolding each_rule
  each_rule-nil f gs rs ns vs h = each_of-nil _ gs (λ g mg. each_of-nil _ rs (λ r mr.
      each_of-nil _ ns (λ n mn. each_of-nil _ vs (λ v mv.
        h (record { group = g; resource = r; resource_name = n; verb = v }) (ground arith)))))

two_reports-nil :
    (w d : Bool) (t : String)
    → ((if w then t ∷ [] else []) ++ (if d then [] else t ∷ []) ≡ []) ↔ ((w ≡ false) × (d ≡ true))
two_reports-nil true d t = (λ h. cc, λ h. cc)
two_reports-nil false true t = (λ h. (refl, refl), λ h. refl)
two_reports-nil false false t = (λ h. cc, λ h. cc)

create_unwanted_permissions-nil :
    (rules : List ResourceRule) (ns : String) (defined_rules : List RuleKey)
    → (create_unwanted_permissions rules ns defined_rules ≡ []) ↔ (
        (k : RuleKey)
        → any (λ rr. grants rr k) rules ≡ true
        → (is_wildcard k ≡ false) × (contains defined_rules k ≡ true))
unfolding create_unwanted_permissions excess_of
create_unwanted_permissions-nil [] ns defined_rules = (λ h k m. cc, λ h. refl)
create_unwanted_permissions-nil (rr ∷ rules) ns defined_rules = (
  λ h k m.
      let both = (append-nil_iff _ (create_unwanted_permissions rules ns defined_rules)).0 h in
      elim (Bool-cases (grants rr k)) [
        | inl here ↦ (two_reports-nil _ _ _).0 (nil_of_each_rule _ _ _ _ _ both.0 k here)
        | inr there ↦
            (create_unwanted_permissions-nil rules ns defined_rules).0 both.1 k (ground arith)
      ],
  λ h. (append-nil_iff _ (create_unwanted_permissions rules ns defined_rules)).1 (
    each_rule-nil _ _ _ _ _ (λ k m. (two_reports-nil _ _ _).1 (h k (ground arith))),
    (create_unwanted_permissions-nil rules ns defined_rules).1 (λ k m. h k (ground arith)),
  ),
)

contains-append {ℓ} :
    {A : Type ℓ} ⦃e : Eq A⦄ (xs ys : List A) (a : A)
    → contains (xs ++ ys) a ≡ (contains xs a || contains ys a)
contains-append [] ys a = refl
contains-append (x ∷ xs) ys a = ground (arith, contains-append xs ys a)

module _ {ℓ} {A : Type ℓ} ⦃e : Eq A⦄ where
  contains_one : (a : A) → contains (a ∷ []) a ≡ true
  contains_one a = ground (arith, eq_self a)

  round_of_each_of :
      (f : String → List A) (xs : List String) (a : A)
      → contains (each_of f xs) a ≡ true
      → (x : String) × (contains xs x ≡ true) × (contains (f x) a ≡ true)
  round_of_each_of f [] a h = cc
  round_of_each_of f (y ∷ xs) a h = elim (Bool-cases (contains (f y) a)) [
    | inl here ↦ (y, ground (arith, eq_self y), here)
    | inr there ↦
        let (x, m, found) =
          round_of_each_of f xs a (ground (arith, contains-append (f y) (each_of f xs) a)) in
        (x, ground arith, found)
  ]

  each_of_round :
      (f : String → List A) (xs : List String) (a : A) (x : String)
      → contains xs x ≡ true
      → contains (f x) a ≡ true
      → contains (each_of f xs) a ≡ true
  each_of_round f [] a x m h = cc
  each_of_round f (y ∷ xs) a x m h = elim (Bool-cases (x == y)) [
    | inl same ↦
        let here : contains (f y) a ≡ true = rw (sym (eq_of_test x y same), h) in
        contains-append (f y) (each_of f xs) a ∙ ground arith
    | inr differ ↦
        contains-append (f y) (each_of f xs) a
        ∙ ground (arith, each_of_round f xs a x (ground arith) h)
  ]

-- The bodies of the four loops that list the keys of a permission.
abbrev by_verb : String → String → String → String → List RuleKey
by_verb ag rs rn vb = record { group = ag; resource = rs; resource_name = rn; verb = vb } ∷ []

abbrev by_name : Permission → String → String → String → List RuleKey
by_name p ag rs rn = each_of (by_verb ag rs rn) p.verbs

abbrev by_resource : Permission → String → String → List RuleKey
by_resource p ag rs = each_of (by_name p ag rs) (or_blank p.resource_names)

abbrev by_group : Permission → String → List RuleKey
by_group p ag = each_of (by_resource p ag) p.resources

asks_of_contains :
    (p : Permission) (k : RuleKey)
    → contains (each_of (by_group p) (or_blank p.api_groups)) k ≡ true
    → asks p k ≡ true
asks_of_contains p k h =
    let (ag, m_ag, h_ag) = round_of_each_of (by_group p) (or_blank p.api_groups) k h in
    let (rs, m_rs, h_rs) = round_of_each_of (by_resource p ag) p.resources k h_ag in
    let (rn, m_rn, h_rn) = round_of_each_of (by_name p ag rs) (or_blank p.resource_names) k h_rs in
    let (vb, m_vb, h_vb) = round_of_each_of (by_verb ag rs rn) p.verbs k h_rn in
    let same : k ≡ record { group = ag; resource = rs; resource_name = rn; verb = vb } =
      eq_of_test k _ (ground arith) in
    rw (same, m_ag, m_rs, m_rn, m_vb)

contains_of_asks :
    (p : Permission) (k : RuleKey)
    → asks p k ≡ true
    → contains (each_of (by_group p) (or_blank p.api_groups)) k ≡ true
contains_of_asks p k h =
    let here : contains (by_verb k.group k.resource k.resource_name k.verb) k ≡ true =
      contains_one k in
    each_of_round (by_group p) (or_blank p.api_groups) k k.group (ground arith) (
      each_of_round (by_resource p k.group) p.resources k k.resource (ground arith) (
        each_of_round (by_name p k.group k.resource) (or_blank p.resource_names) k k.resource_name
          (ground arith)
          (each_of_round (by_verb k.group k.resource k.resource_name) p.verbs k k.verb
            (ground arith) here)))

contains-defined_rules_of :
    (pl : List Permission) (k : RuleKey) → contains (defined_rules_of pl) k ≡ any (λ p. asks p k) pl
unfolding defined_rules_of each_rule
contains-defined_rules_of [] k = refl
contains-defined_rules_of (p ∷ pl) k =
    contains-append _ (defined_rules_of pl) k
    ∙ rw
        (contains-defined_rules_of pl k, Bool_ext _ _ (asks_of_contains p k) (contains_of_asks p k))

-- The report on the rules of a namespace, for the permissions of a role, is empty exactly if
-- every key that a rule grants is no wildcard and is asked for by a permission of the role.
pub create_unwanted_permissions_iff :
    (rules : List ResourceRule) (ns : String) (pl : List Permission)
    → (create_unwanted_permissions rules ns (defined_rules_of pl) ≡ []) ↔ (
        (k : RuleKey)
        → any (λ rr. grants rr k) rules ≡ true
        → (is_wildcard k ≡ false) × (any (λ p. asks p k) pl ≡ true))
create_unwanted_permissions_iff rules ns pl = (
  λ h k m.
      let both = (create_unwanted_permissions-nil rules ns (defined_rules_of pl)).0 h k m in
      (both.0, sym (contains-defined_rules_of pl k) ∙ both.1),
  λ h.
      (create_unwanted_permissions-nil rules ns (defined_rules_of pl)).1
        (λ k m. let both = h k m in (both.0, contains-defined_rules_of pl k ∙ both.1)),
)
