-- ===== src/Sed.antt =====
-- pkg/primaza/sed: the readers of the values of a service endpoint definition.
pub mod Laws
use primaza.Common.{Bool, true, false, String, ◌<>◌, Option, none, some, List, [], ◌∷◌}
use primaza.Common.Errors.{Result, ok, err, panic, message, and_then}
use primaza.Common.Effects.{Action, pure, raise, lift, ◌>>=◌}
use primaza.Api.{Key, Secret, lookup, FieldMapping}
use primaza.Api.{ServiceClassResourceFieldMapping, ServiceClassSecretRefFieldMapping}
use primaza.Cluster.{Client}

-- Kubernetes' jsonpath package, on resources and values that the program does not look into:
-- `Parse`, `FindResults`, and the text of a value by `%v`.
pub record JsonPaths (Parsed Resource Value : Type 0) : Type 0 where
  pub parse : String → Result Parsed
  pub find_results : Parsed → Resource → Result (List (List Value))
  pub value_text : Value → String

-- `SEDResourceMapping`
pub record SedResourceMapping (Parsed Resource : Type 0) : Type 0 where
  pub resource : Resource
  pub key : String
  pub path : Parsed
  pub secret : Bool

-- `SEDSecretRefMapping`; its client is an argument of `read_secret_key`.
pub record SedSecretRefMapping (Resource : Type 0) : Type 0 where
  pub namespace : String
  pub resource : Resource
  pub key : String
  pub secret_name : FieldMapping
  pub secret_key : FieldMapping

module _ {Parsed Resource Value : Type 0} (paths : JsonPaths Parsed Resource Value) where
  -- The one value of a result of one list of one value.
  unfoldable pub single_result : List (List Value) → Result String
  single_result ((v ∷ []) ∷ []) = ok (paths.value_text v)
  single_result _ = err (message "jsonPath lookup into resource returned multiple results: %v")

  -- `readSingleJsonPath`
  unfoldable pub read_single_json_path : Parsed → Resource → Result String
  read_single_json_path path resource = and_then (paths.find_results path resource) single_result

  -- `NewSEDResourceMapping`
  unfoldable pub new_sed_resource_mapping :
      Resource → ServiceClassResourceFieldMapping → Result (SedResourceMapping Parsed Resource)
  new_sed_resource_mapping resource mapping =
      and_then (paths.parse ("{" <> mapping.json_path <> "}")) (λ path.
        ok (record {
          resource = resource;
          key = mapping.name;
          path = path;
          secret = mapping.secret;
        }))

  -- `SEDResourceMapping.ReadKey`
  unfoldable pub read_resource_key : SedResourceMapping Parsed Resource → Result String
  read_resource_key mapping =
      and_then (paths.find_results mapping.path mapping.resource) single_result

  unfoldable pub read_expression : Option String → Resource → Result String
  read_expression (some expr) resource =
      and_then (paths.parse ("{" <> expr <> "}")) (λ path. read_single_json_path path resource)
  read_expression none resource =
      err (message "invalid mapping: neither Constant nor JsonPathExpr defined")

  unfoldable pub read_constant_or : Option String → Option String → Resource → Result String
  read_constant_or (some c) expr resource = ok c
  read_constant_or none expr resource = read_expression expr resource

  -- `readValue`
  unfoldable pub read_value : FieldMapping → Resource → Result String
  read_value mapping resource = read_constant_or mapping.constant mapping.json_path_expr resource

  unfoldable pub value_of_key : Option String → Result String
  value_of_key (some v) = ok v
  value_of_key none = err (message "secret key '%s/%s:%s' not Found")

  -- `SEDSecretRefMapping.ReadKey`
  unfoldable pub read_secret_key :
      {W : Type 0} → Client W Secret → SedSecretRefMapping Resource → Action W String
  read_secret_key cli mapping = do
    sec_key ← lift (read_value mapping.secret_key mapping.resource)
    sec_name ← lift (read_value mapping.secret_name mapping.resource)
    s ← cli.get (record { namespace = mapping.namespace; name = sec_name })
    lift (value_of_key (lookup sec_key s.content))

-- `NewSEDSecretRefMapping`
unfoldable pub new_sed_secret_ref_mapping :
    {Resource : Type 0}
    → String
    → Resource
    → ServiceClassSecretRefFieldMapping
    → Result (SedSecretRefMapping Resource)
new_sed_secret_ref_mapping namespace resource mapping = ok (record {
  namespace = namespace;
  resource = resource;
  key = mapping.name;
  secret_name = mapping.secret_name;
  secret_key = mapping.secret_key;
})
