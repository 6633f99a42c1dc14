-- ===== src/Webhook/Laws.antt =====
-- Which service classes the webhook accepts.
use primaza.Common.{
  ◌<>◌, ◌≡◌, refl, sym, ◌∙◌, ap, ◌↔◌, ℕ, suc, Bool, true, false, String, List, [], ◌∷◌, ◌++◌, All,
  arith, map,
}
use primaza.Common.{◌<>◌, ◌==◌, string_eq, contains, if◌then◌else◌, Distinct}
use primaza.Api.{ServiceClassResource, ServiceClassResourceFieldMapping, mapping_eq}
use primaza.Webhook.{invalid_json_path, duplicate_name, mapping_loop, validate_mapping}

abbrev pub names_of : List ServiceClassResourceFieldMapping → List String
names_of mappings = map (λ m. m.name) mappings

-- None of the names has been seen.
abbrev Fresh : List String → List String → Type 0
Fresh names [] = Unit
Fresh names (n ∷ ns) = (contains names n ≡ false) × Fresh names ns

pub append-nil :
    {A : Type 0} (b : Bool) (x : A) (ys : List A)
    → ((if b then [] else x ∷ []) ++ ys ≡ []) ↔ ((b ≡ true) × (ys ≡ []))
append-nil true x ys = (λ h. (refl, h), λ h. h.1)
append-nil false x ys = (λ h. cc, λ h. cc)

append-nil_else :
    {A : Type 0} (b : Bool) (x : A) (ys : List A)
    → ((if b then x ∷ [] else []) ++ ys ≡ []) ↔ ((b ≡ false) × (ys ≡ []))
append-nil_else true x ys = (λ h. cc, λ h. cc)
append-nil_else false x ys = (λ h. (refl, h), λ h. h.1)

test_sym : (a b : String) → (a == b) ≡ (b == a)
test_sym a b = ground arith

Fresh-cons_iff :
    (name : String) (names ns : List String)
    → Fresh (name ∷ names) ns ↔ (Fresh names ns × (contains ns name ≡ false))
Fresh-cons_iff name names [] = (λ h. (tt, refl), λ h. tt)
Fresh-cons_iff name names (n ∷ ns) = (
  λ h.
      let both = (Fresh-cons_iff name names ns).0 h.1 in
      ((ground arith, both.0), ground (arith, test_sym name n, both.1)),
  λ h. (ground (arith, test_sym name n), (Fresh-cons_iff name names ns).1 (h.0.1, ground arith)),
)

-- The parser accepts the path of a mapping in braces.
unfoldable pub IsParsed : (String → Bool) → ServiceClassResourceFieldMapping → Type 0
IsParsed parses m = parses ("{" <> m.json_path <> "}") ≡ true

module _ (parses : String → Bool) where
  mapping_loop_iff :
      (i : ℕ) (names : List String) (ms : List ServiceClassResourceFieldMapping)
      → (mapping_loop parses i names ms ≡ [])
        ↔ (All (IsParsed parses) ms × Fresh names (names_of ms) × Distinct (names_of ms))
  unfolding mapping_loop IsParsed
  mapping_loop_iff i names [] = (λ h. (tt, tt, tt), λ h. refl)
  mapping_loop_iff i names (m ∷ ms) =
      let path =
        append-nil (parses ("{" <> m.json_path <> "}")) (invalid_json_path i m.json_path) _ in
      let name = append-nil_else (contains names m.name) (duplicate_name i m.name) _ in
      let later = mapping_loop_iff (suc i) (m.name ∷ names) ms in
      let fresh = Fresh-cons_iff m.name names (names_of ms) in
      let next : contains names m.name ≡ false
          → mapping_loop parses (suc i) (if contains names m.name then names else m.name ∷ names) ms
            ≡ mapping_loop parses (suc i) (m.name ∷ names) ms =
        λ unseen.
          ap (λ b. mapping_loop parses (suc i) (if b then names else m.name ∷ names) ms) unseen in
      (
        λ h.
            let (parsed, rest) = path.0 h in
            let (unseen, tail) = name.0 rest in
            let (ok_paths, ok_names, distinct) = later.0 (sym (next unseen) ∙ tail) in
            ((parsed, ok_paths), (unseen, (fresh.0 ok_names).0), ((fresh.0 ok_names).1, distinct)),
        λ ((parsed, ok_paths), (unseen, ok_names), (apart, distinct)). path.1 (
          parsed,
          name.1 (unseen, next unseen ∙ later.1 (ok_paths, fresh.1 (ok_names, apart), distinct)),
        ),
      )

  Fresh-nil : (ns : List String) → Fresh [] ns
  Fresh-nil [] = tt
  Fresh-nil (n ∷ ns) = (refl, Fresh-nil ns)

  -- The validation of the mappings of a resource finds nothing exactly if every JSON path in braces
  -- is accepted by the parser and no two mappings have the same name.
  pub validate_mapping_iff :
      (r : ServiceClassResource)
      → (validate_mapping parses r ≡ []) ↔ (
          All (IsParsed parses) r.service_endpoint_definition_mappings.resource_fields
          × Distinct (names_of r.service_endpoint_definition_mappings.resource_fields))
  unfolding validate_mapping
  validate_mapping_iff r =
      let fields = r.service_endpoint_definition_mappings.resource_fields in
      let both = mapping_loop_iff 0 [] fields in
      (
        λ h. let (parsed, _, distinct) = both.0 h in (parsed, distinct),
        λ (parsed, distinct). both.1 (parsed, Fresh-nil (names_of fields), distinct),
      )
