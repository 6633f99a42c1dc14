-- ===== src/SvcAgent/Descriptor.antt =====
-- serviceclass_controller.go: the endpoint definition of a resource, and its registered service.
use primaza.Common.{Bool, true, String, ◌<>◌, Option, none, some, List, [], ◌∷◌, ◌++◌}
use primaza.Common.{if◌then◌else◌}
use primaza.Common.Errors.{Error, Result, ok, err, panic, and_then, join_all}
use primaza.Common.Effects.{Action, pure, lift, attempt, ◌>>=◌, errors_of}
use primaza.Api.{
  Secret, ServiceClass, ServiceEndpointDefinitionItem, ServiceClassResourceFieldMapping,
  ServiceClassSecretRefFieldMapping, new_meta, insert,
}
use primaza.Cluster.{Client}
use primaza.Sed.{
  JsonPaths, SedResourceMapping, SedSecretRefMapping, new_sed_resource_mapping,
  new_sed_secret_ref_mapping, read_resource_key, read_secret_key,
}

-- The two implementations of `SEDMapping`.
pub data SedMapping (Parsed Resource : Type 0) : Type 0 where
  by_resource : SedResourceMapping Parsed Resource → SedMapping Parsed Resource
  by_secret_ref : SedSecretRefMapping Resource → SedMapping Parsed Resource

module _ {Parsed Resource : Type 0} where
  -- `Key`
  abbrev pub mapping_key : SedMapping Parsed Resource → String
  mapping_key (by_resource m) = m.key
  mapping_key (by_secret_ref m) = m.key

  -- `InSecret`
  abbrev pub in_secret : SedMapping Parsed Resource → Bool
  in_secret (by_resource m) = m.secret
  in_secret (by_secret_ref m) = true

  -- The item of a value that was read.
  unfoldable pub described_item :
      String → SedMapping Parsed Resource → String → ServiceEndpointDefinitionItem
  described_item secret_name m value =
      if in_secret m
      then record {
        name = mapping_key m;
        value = "";
        value_from_secret = some (record { name = secret_name; key = mapping_key m });
      }
      else record { name = mapping_key m; value = value; value_from_secret = none }

  -- `secret.StringData[mapping.Key()] = *value`
  unfoldable pub write_value :
      SedMapping Parsed Resource → String → List (String × String) → List (String × String)
  write_value m value text = if in_secret m then insert (mapping_key m) value text else text

  abbrev pub items_of :
      String → SedMapping Parsed Resource → Result String → List ServiceEndpointDefinitionItem
  items_of secret_name m (ok value) = described_item secret_name m value ∷ []
  items_of secret_name m (err e) = []
  items_of secret_name m panic = []

  abbrev pub write_result :
      SedMapping Parsed Resource → Result String → List (String × String) → List (String × String)
  write_result m (ok value) text = write_value m value text
  write_result m (err e) text = text
  write_result m panic text = text

-- What the loop has gathered: the items, the secret's texts, and the errors.
pub record Gathered : Type 0 where
  pub items : List ServiceEndpointDefinitionItem
  pub texts : List (String × String)
  pub errors : List Error

abbrev pub gather_first : List ServiceEndpointDefinitionItem → List Error → Gathered → Gathered
gather_first items errs g = record {
  items = items ++ g.items;
  texts = g.texts;
  errors = errs ++ g.errors;
}

-- A secret without texts is nil.
abbrev pub secret_with : String → List (String × String) → Option Secret
secret_with name [] = none
secret_with name (t ∷ texts) =
    some (record { meta = new_meta name ""; content = []; string_data = t ∷ texts })

abbrev pub described :
    String → Gathered → List Error → Result (List ServiceEndpointDefinitionItem × Option Secret)
described name g [] = ok (g.items, secret_with name g.texts)
described name g (e ∷ es) = and_then (join_all (e ∷ es)) λ _. ok ([], none)

module _ {W Parsed Resource Value : Type 0} (paths : JsonPaths Parsed Resource Value)
    (secrets : Client W Secret) where
  -- `ReadKey`
  unfoldable pub read_key : SedMapping Parsed Resource → Action W String
  read_key (by_resource m) = lift (read_resource_key paths m)
  read_key (by_secret_ref m) = read_secret_key paths secrets m

  -- The loop of `LookupServiceEndpointDescriptor`, from the texts that are written so far.
  unfoldable pub gather :
      String → List (SedMapping Parsed Resource) → List (String × String) → Action W Gathered
  gather secret_name [] texts = pure (record { items = []; texts = texts; errors = [] })
  gather secret_name (m ∷ mappings) texts = do
    r ← attempt (read_key m)
    g ← gather secret_name mappings (write_result m r texts)
    pure (gather_first (items_of secret_name m r) (errors_of r) g)

  abbrev pub descriptor_of : String → String
  descriptor_of name = name <> "-descriptor"

  -- `LookupServiceEndpointDescriptor`, at the name of the resource.
  unfoldable pub lookup_service_endpoint_descriptor :
      List (SedMapping Parsed Resource)
      → String
      → Action W (List ServiceEndpointDefinitionItem × Option Secret)
  lookup_service_endpoint_descriptor mappings name = do
    g ← gather (descriptor_of name) mappings []
    lift (described (descriptor_of name) g g.errors)

  unfoldable pub resource_mappings :
      Resource → List ServiceClassResourceFieldMapping → Result (List (SedMapping Parsed Resource))
  resource_mappings resource [] = ok []
  resource_mappings resource (f ∷ fields) =
      and_then (new_sed_resource_mapping paths resource f)
        λ m. and_then (resource_mappings resource fields) λ ms. ok (by_resource m ∷ ms)

  unfoldable pub secret_ref_mappings :
      String
      → Resource
      → List ServiceClassSecretRefFieldMapping
      → Result (List (SedMapping Parsed Resource))
  secret_ref_mappings namespace resource [] = ok []
  secret_ref_mappings namespace resource (f ∷ fields) =
      and_then (new_sed_secret_ref_mapping namespace resource f) λ m.
        and_then (secret_ref_mappings namespace resource fields) λ ms. ok (by_secret_ref m ∷ ms)

  -- `ServiceEndpointDefinitionMapping`
  unfoldable pub service_endpoint_definition_mapping :
      Resource → ServiceClass → Result (List (SedMapping Parsed Resource))
  service_endpoint_definition_mapping resource sc =
      let fields = sc.spec.resource.service_endpoint_definition_mappings in
      and_then (resource_mappings resource fields.resource_fields) λ ms.
        and_then (secret_ref_mappings sc.meta.namespace resource fields.secret_ref_fields)
          λ ss. ok (ms ++ ss)
