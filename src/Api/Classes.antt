-- ===== src/Api/Classes.antt =====
-- serviceclass_types.go
use primaza.Common.{Bool, String, Option, none, some, List, []}
use primaza.Common.{Eq, string_eq}
use primaza.Api.Meta.{ObjectMeta, Condition}
use primaza.Api.Services.{ServiceClassIdentityItem, HealthCheck}

pub record ServiceClassResourceFieldMapping : Type 0 where
  pub name : String
  pub json_path : String
  pub secret : Bool

mapping_dec : Discrete ServiceClassResourceFieldMapping
mapping_dec = hlevel string_eq.dec

instance unfoldable pub mapping_eq : Eq ServiceClassResourceFieldMapping
unfolding mapping_dec
mapping_eq = record { dec = mapping_dec }

pub record FieldMapping : Type 0 where
  pub constant : Option String
  pub json_path_expr : Option String

pub record ServiceClassSecretRefFieldMapping : Type 0 where
  pub name : String
  pub secret_name : FieldMapping
  pub secret_key : FieldMapping

pub record ServiceEndpointDefinitionMappings : Type 0 where
  pub resource_fields : List ServiceClassResourceFieldMapping
  pub secret_ref_fields : List ServiceClassSecretRefFieldMapping

pub record ServiceClassResource : Type 0 where
  pub api_version : String
  pub kind : String
  pub service_endpoint_definition_mappings : ServiceEndpointDefinitionMappings

pub record EnvironmentConstraints : Type 0 where
  pub environments : List String

pub record ServiceClassSpec : Type 0 where
  pub constraints : Option EnvironmentConstraints
  pub health_check : Option HealthCheck
  pub resource : ServiceClassResource
  pub service_class_identity : List ServiceClassIdentityItem

abbrev pub class_environments_of : Option EnvironmentConstraints → List String
class_environments_of none = []
class_environments_of (some c) = c.environments

-- `ServiceClassSpec.GetEnvironmentConstraints`
unfoldable pub get_class_environment_constraints : ServiceClassSpec → List String
get_class_environment_constraints s = class_environments_of s.constraints

pub record ServiceClassStatus : Type 0 where
  pub conditions : List Condition

pub record ServiceClass : Type 0 where
  pub meta : ObjectMeta
  pub spec : ServiceClassSpec
  pub status : ServiceClassStatus
