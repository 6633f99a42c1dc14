-- ===== src/Webhook.antt =====
-- api/v1alpha1/serviceclass_webhook.go: the validation of service classes.
pub mod Laws
pub mod UpdateLaws
use primaza.Common.{
  ◌<>◌, ℕ, zero, suc, Bool, true, false, not, ◌&&◌, String, List, [], ◌∷◌, ◌++◌, all,
}
use primaza.Common.{Eq, ◌==◌, string_eq, contains, if◌then◌else◌}
use primaza.Common.Errors.{Error, Result, ok, err, panic}
use primaza.Common.Effects.{Action, pure, ◌>>=◌}
use primaza.Api.{ServiceClass, ServiceClassResource, ServiceClassResourceFieldMapping, mapping_eq}
use primaza.Cluster.{Client, everywhere}

-- The entries of the `field.ErrorList`: what is wrong, and where.
pub data FieldError : Type 0 where
  invalid_json_path : ℕ → String → FieldError
  duplicate_name : ℕ → String → FieldError
  api_version_immutable : String → FieldError
  kind_immutable : String → FieldError
  mapping_immutable : FieldError
  already_managed : String → FieldError

-- A map that the keys of a list are put into.
unfoldable pub key_set {ℓ} : {A : Type ℓ} ⦃e : Eq A⦄ → List A → List A
key_set [] = []
key_set (x ∷ xs) = let m = key_set xs in if contains m x then m else x ∷ m

-- `reflect.DeepEqual` of two maps that are used as sets.
abbrev pub same_set {ℓ} : {A : Type ℓ} ⦃e : Eq A⦄ → List A → List A → Bool
same_set xs ys = all (contains ys) xs && all (contains xs) ys

-- The loop of `IsDuplicateClass`: the first class of another name for the same resources.
unfoldable pub duplicate_loop : ServiceClass → List ServiceClass → List FieldError
duplicate_loop service_class [] = []
duplicate_loop service_class (item ∷ items) =
    let rest = duplicate_loop service_class items in
    if not (service_class.meta.name == item.meta.name)
      && (service_class.spec.resource.kind == item.spec.resource.kind
          && service_class.spec.resource.api_version == item.spec.resource.api_version)
    then already_managed item.meta.name ∷ []
    else rest

-- The first half of `ValidateUpdate`.
unfoldable pub immutable_errors : ServiceClassResource → ServiceClassResource → List FieldError
immutable_errors old new =
    let old_mappings = key_set old.service_endpoint_definition_mappings.resource_fields in
    let new_mappings = key_set new.service_endpoint_definition_mappings.resource_fields in
    (if old.api_version == new.api_version then [] else api_version_immutable new.api_version ∷ [])
    ++ ((if old.kind == new.kind then [] else kind_immutable new.kind ∷ [])
        ++ (if same_set old_mappings new_mappings then [] else mapping_immutable ∷ []))

-- Whether `Parse` of Kubernetes' jsonpath package accepts a text.
module _ (parses : String → Bool) where
  -- The loop of `ValidateMapping`, at an index and with the names that it has seen.
  unfoldable pub mapping_loop :
      ℕ → List String → List ServiceClassResourceFieldMapping → List FieldError
  mapping_loop i names [] = []
  mapping_loop i names (mapping ∷ mappings) =
      (if parses ("{" <> mapping.json_path <> "}")
        then []
        else invalid_json_path i mapping.json_path ∷ [])
      ++ ((if contains names mapping.name then duplicate_name i mapping.name ∷ [] else [])
          ++ mapping_loop (suc i)
              (if contains names mapping.name then names else mapping.name ∷ names) mappings)

  -- `ValidateMapping`
  unfoldable pub validate_mapping : ServiceClassResource → List FieldError
  validate_mapping r = mapping_loop 0 [] r.service_endpoint_definition_mappings.resource_fields

  module _ {W : Type 0} (client : Client W ServiceClass) where
    -- `IsDuplicateClass`
    unfoldable pub is_duplicate_class : ServiceClass → Action W (List FieldError)
    is_duplicate_class service_class = do
      class_list ← client.list everywhere
      pure (duplicate_loop service_class class_list)

    -- `ValidateCreate`: the errors of the aggregate, none of which is no error.
    unfoldable pub validate_create : ServiceClass → Action W (List FieldError)
    validate_create r = do
      errs ← is_duplicate_class r
      pure (errs ++ validate_mapping r.spec.resource)

    -- `ValidateUpdate`
    unfoldable pub validate_update : ServiceClass → ServiceClass → Action W (List FieldError)
    validate_update old_class new_class = do
      list ← is_duplicate_class new_class
      pure (
          immutable_errors old_class.spec.resource new_class.spec.resource
          ++ (validate_mapping new_class.spec.resource ++ list))
