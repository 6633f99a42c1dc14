-- ===== src/Webhook/UpdateLaws.antt =====
-- Which updates of a service class the webhook accepts.
use primaza.Common.{
  ◌≡◌, refl, sym, ◌∙◌, ap, ◌↔◌, Bool, true, false, not, ◌&&◌, String, List, [], ◌∷◌, ◌++◌, all, All,
  arith, Bool_ext, eq_self, eq_of_test, Distinct,
}
use primaza.Common.{Eq, ◌==◌, string_eq, contains, if◌then◌else◌}
use primaza.Common.Errors.{ok, ok_injective}
use primaza.Common.Effects.{◌>>=◌}
use primaza.Api.{ServiceClass, ServiceClassResource, ServiceClassResourceFieldMapping, mapping_eq}
use primaza.Cluster.{Client, everywhere}
use primaza.Webhook.{
  already_managed, api_version_immutable, kind_immutable, mapping_immutable, duplicate_loop,
  key_set, same_set, immutable_errors, validate_mapping, validate_update, validate_create,
  is_duplicate_class,
}
use primaza.Webhook.Laws.{append-nil, IsParsed, names_of, validate_mapping_iff}

append-nil_iff : {A : Type 0} (xs ys : List A) → (xs ++ ys ≡ []) ↔ ((xs ≡ []) × (ys ≡ []))
append-nil_iff [] ys = (λ h. (refl, h), λ h. h.1)
append-nil_iff (x ∷ xs) ys = (λ h. cc, λ h. cc)

module _ {A : Type 0} ⦃e : Eq A⦄ where
  contains-key_set : (xs : List A) (a : A) → contains (key_set xs) a ≡ contains xs a
  unfolding key_set
  contains-key_set [] a = refl
  contains-key_set (x ∷ xs) a = ground (arith, contains-key_set xs a, contains-key_set xs x)

  all-contains_iff :
      (xs ys : List A)
      → (all (contains ys) xs ≡ true) ↔ ((a : A) → contains xs a ≡ true → contains ys a ≡ true)
  all-contains_iff [] ys = (λ h a m. cc, λ h. refl)
  all-contains_iff (x ∷ xs) ys = (
    λ h a m.
        let later : all (contains ys) xs ≡ true → contains xs a ≡ true → contains ys a ≡ true =
          λ g. (all-contains_iff xs ys).0 g a in
        ground (arith, later),
    λ h.
        let here : contains ys x ≡ true = h x (ground (arith, eq_self x)) in
        let later : all (contains ys) xs ≡ true =
          (all-contains_iff xs ys).1 (λ a m. h a (ground arith)) in
        ground arith,
  )

-- No class of another name is for the same kind and version.
unfoldable pub IsSole : ServiceClass → ServiceClass → Type 0
IsSole sc item =
    sc.spec.resource.kind ≡ item.spec.resource.kind
    → sc.spec.resource.api_version ≡ item.spec.resource.api_version
    → sc.meta.name ≡ item.meta.name

test_of_eq : {a b : String} → a ≡ b → (a == b) ≡ true
test_of_eq {a} {b} p = ground arith

refused_iff :
    {A : Type 0} (name kind version : Bool) (x : A) (rest : List A)
    → ((if not name && (kind && version) then x ∷ [] else rest) ≡ [])
      ↔ ((kind ≡ true → version ≡ true → name ≡ true) × (rest ≡ []))
refused_iff true kind version x rest = (λ h. ((λ k v. refl), h), λ h. h.1)
refused_iff false true true x rest = (λ h. cc, λ h. let wrong : false ≡ true = h.0 refl refl in cc)
refused_iff false true false x rest = (λ h. ((λ k v. cc), h), λ h. h.1)
refused_iff false false version x rest = (λ h. ((λ k v. cc), h), λ h. h.1)

duplicate_loop_iff :
    (sc : ServiceClass) (items : List ServiceClass)
    → (duplicate_loop sc items ≡ []) ↔ All (IsSole sc) items
unfolding duplicate_loop IsSole
duplicate_loop_iff sc [] = (λ h. tt, λ h. refl)
duplicate_loop_iff sc (item ∷ items) =
    let tests =
      refused_iff (sc.meta.name == item.meta.name)
        (sc.spec.resource.kind == item.spec.resource.kind)
        (sc.spec.resource.api_version == item.spec.resource.api_version)
        (already_managed item.meta.name) (duplicate_loop sc items) in
    let later = duplicate_loop_iff sc items in
    (
      λ h.
          let (sole, none_later) = tests.0 h in
          ((λ k v. eq_of_test _ _ (sole (test_of_eq k) (test_of_eq v))), later.0 none_later),
      λ h. tests.1 ((λ k v. test_of_eq (h.0 (eq_of_test _ _ k) (eq_of_test _ _ v))), later.1 h.1),
    )

same_set_iff :
    {A : Type 0} ⦃e : Eq A⦄ (xs ys : List A)
    → (same_set (key_set xs) (key_set ys) ≡ true) ↔ ((a : A) → contains xs a ≡ contains ys a)
same_set_iff {A = A} xs ys =
    let left = all-contains_iff (key_set xs) (key_set ys) in
    let right = all-contains_iff (key_set ys) (key_set xs) in
    (
      λ h a.
          let one : all (contains (key_set ys)) (key_set xs) ≡ true = ground arith in
          let other : all (contains (key_set xs)) (key_set ys) ≡ true = ground arith in
          sym (contains-key_set xs a)
          ∙ Bool_ext _ _ (left.0 one a) (right.0 other a)
          ∙ contains-key_set ys a,
      λ h.
          let same : (a : A) → contains (key_set xs) a ≡ contains (key_set ys) a =
            λ a. contains-key_set xs a ∙ h a ∙ sym (contains-key_set ys a) in
          let one : all (contains (key_set ys)) (key_set xs) ≡ true =
            left.1 (λ a m. sym (same a) ∙ m) in
          let other : all (contains (key_set xs)) (key_set ys) ≡ true =
            right.1 (λ a m. same a ∙ m) in
          ground arith,
    )

-- What an update may not change.
unfoldable pub IsUnchanged : ServiceClassResource → ServiceClassResource → Type 0
IsUnchanged old new =
    (old.api_version ≡ new.api_version)
    × (old.kind ≡ new.kind)
    × ((m : ServiceClassResourceFieldMapping)
        → contains old.service_endpoint_definition_mappings.resource_fields m
          ≡ contains new.service_endpoint_definition_mappings.resource_fields m)

unless-nil_iff : {A : Type 0} (b : Bool) (x : A) → ((if b then [] else x ∷ []) ≡ []) ↔ (b ≡ true)
unless-nil_iff true x = (λ h. refl, λ h. refl)
unless-nil_iff false x = (λ h. cc, λ h. cc)

immutable_errors_iff :
    (old new : ServiceClassResource) → (immutable_errors old new ≡ []) ↔ IsUnchanged old new
unfolding immutable_errors IsUnchanged
immutable_errors_iff old new =
    let fields =
      same_set_iff old.service_endpoint_definition_mappings.resource_fields
        new.service_endpoint_definition_mappings.resource_fields in
    let first =
      append-nil (old.api_version == new.api_version) (api_version_immutable new.api_version) _ in
    let second = append-nil (old.kind == new.kind) (kind_immutable new.kind) _ in
    let third = unless-nil_iff _ mapping_immutable in
    (
      λ h.
          let (version, rest) = first.0 h in
          let (kind, last) = second.0 rest in
          (eq_of_test _ _ version, eq_of_test _ _ kind, fields.0 (third.0 last)),
      λ (version, kind, same).
          first.1 (test_of_eq version, second.1 (test_of_eq kind, third.1 (fields.1 same))),
    )

module _ (parses : String → Bool) {W : Type 0} (client : Client W ServiceClass) where
  -- Where the classes could be listed, an update is accepted exactly if the version and the kind of
  -- the resource are as before, its mappings are the same set as before, every JSON path is accepted
  -- by the parser, no two mappings have the same name, and every listed class for that kind and
  -- version has the class's name.
  pub validate_update_iff :
      (old new : ServiceClass) (items : List ServiceClass) (w : W)
      → (client.list everywhere w).0 ≡ ok items
      → ((validate_update parses client old new w).0 ≡ ok []) ↔ (
          IsUnchanged old.spec.resource new.spec.resource
          × All
              (IsParsed parses)
              new.spec.resource.service_endpoint_definition_mappings.resource_fields
          × Distinct
              (names_of new.spec.resource.service_endpoint_definition_mappings.resource_fields)
          × All (IsSole new) items)
  unfolding validate_update is_duplicate_class ◌>>=◌
  validate_update_iff old new items w listed =
      let res = new.spec.resource in
      let errs =
        immutable_errors old.spec.resource res
        ++ (validate_mapping parses res ++ duplicate_loop new items) in
      let run : (validate_update parses client old new w).0 ≡ ok errs = rw listed refl in
      let first =
        append-nil_iff (immutable_errors old.spec.resource res)
          (validate_mapping parses res ++ duplicate_loop new items) in
      let second = append-nil_iff (validate_mapping parses res) (duplicate_loop new items) in
      let unchanged = immutable_errors_iff old.spec.resource res in
      let mappings = validate_mapping_iff parses res in
      let sole = duplicate_loop_iff new items in
      (
        λ h.
            let nothing : errs ≡ [] = ok_injective _ _ (sym run ∙ h) in
            let (a, rest) = first.0 nothing in
            let (b, c) = second.0 rest in
            let (parsed, distinct) = mappings.0 b in (unchanged.0 a, parsed, distinct, sole.0 c),
        λ (a, parsed, distinct, c).
            run
            ∙ ap ok (first.1 (unchanged.1 a, second.1 (mappings.1 (parsed, distinct), sole.1 c))),
      )

  -- Where the classes could be listed, a new class is accepted exactly if every JSON path is accepted
  -- by the parser, no two mappings have the same name, and every listed class for its kind and
  -- version has the class's name, whatever the namespaces.
  pub validate_create_iff :
      (r : ServiceClass) (items : List ServiceClass) (w : W)
      → (client.list everywhere w).0 ≡ ok items
      → ((validate_create parses client r w).0 ≡ ok []) ↔ (
          All (IsSole r) items
          × All
              (IsParsed parses)
              r.spec.resource.service_endpoint_definition_mappings.resource_fields
          × Distinct
              (names_of r.spec.resource.service_endpoint_definition_mappings.resource_fields))
  unfolding validate_create is_duplicate_class ◌>>=◌
  validate_create_iff r items w listed =
      let errs = duplicate_loop r items ++ validate_mapping parses r.spec.resource in
      let run : (validate_create parses client r w).0 ≡ ok errs = rw listed refl in
      let parts =
        append-nil_iff (duplicate_loop r items) (validate_mapping parses r.spec.resource) in
      let mappings = validate_mapping_iff parses r.spec.resource in
      let sole = duplicate_loop_iff r items in
      (
        λ h.
            let (c, b) = parts.0 (ok_injective _ _ (sym run ∙ h)) in
            let (parsed, distinct) = mappings.0 b in (sole.0 c, parsed, distinct),
        λ (c, parsed, distinct). run ∙ ap ok (parts.1 (sole.1 c, mappings.1 (parsed, distinct))),
      )
