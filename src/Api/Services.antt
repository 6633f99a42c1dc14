-- ===== src/Api/Services.antt =====
-- registeredservice_types.go with what it takes from types.go, and servicecatalog_types.go.
use primaza.Common.{ℕ, String, Option, none, some, List, []}
use primaza.Common.{Eq, string_eq}
use primaza.Api.Meta.{ObjectMeta}

pub record ServiceClassIdentityItem : Type 0 where
  pub name : String
  pub value : String

item_dec : Discrete ServiceClassIdentityItem
item_dec = hlevel string_eq.dec

instance unfoldable pub item_eq : Eq ServiceClassIdentityItem
unfolding item_dec
item_eq = record { dec = item_dec }

pub record HealthCheckContainer : Type 0 where
  pub image : String
  pub command : List String
  pub minutes : ℕ

pub record HealthCheck : Type 0 where
  pub container : HealthCheckContainer

pub data RegisteredServiceState : Type 0 where
  available claimed unknown unreachable : RegisteredServiceState

state_dec : Discrete RegisteredServiceState
state_dec = hlevel

instance unfoldable pub service_state_eq : Eq RegisteredServiceState
unfolding state_dec
service_state_eq = record { dec = state_dec }

pub record RegisteredServiceConstraints : Type 0 where
  pub environments : List String

pub record ServiceEndpointDefinitionSecretRef : Type 0 where
  pub name : String
  pub key : String

pub record ServiceEndpointDefinitionItem : Type 0 where
  pub name : String
  pub value : String
  pub value_from_secret : Option ServiceEndpointDefinitionSecretRef

pub record RegisteredServiceSpec : Type 0 where
  pub constraints : Option RegisteredServiceConstraints
  pub health_check : Option HealthCheck
  pub sla : String
  pub service_class_identity : List ServiceClassIdentityItem
  pub service_endpoint_definition : List ServiceEndpointDefinitionItem

abbrev environments_of : Option RegisteredServiceConstraints → List String
environments_of none = []
environments_of (some c) = c.environments

-- `RegisteredServiceSpec.GetEnvironmentConstraints`
unfoldable pub get_environment_constraints : RegisteredServiceSpec → List String
get_environment_constraints s = environments_of s.constraints

pub record RegisteredServiceStatus : Type 0 where
  pub state : RegisteredServiceState

pub record RegisteredService : Type 0 where
  pub meta : ObjectMeta
  pub spec : RegisteredServiceSpec
  pub status : RegisteredServiceStatus

-- `metav1.LabelSelector`: its match labels.
pub record LabelSelector : Type 0 where
  pub match_labels : List (String × String)

pub record ServiceCatalogService : Type 0 where
  pub name : String
  pub service_class_identity : List ServiceClassIdentityItem
  pub service_endpoint_definition_keys : List String

pub record ServiceCatalogServiceByLabel : Type 0 where
  pub service : ServiceCatalogService
  pub labels : Option LabelSelector

pub record ServiceCatalogSpec : Type 0 where
  pub services : List ServiceCatalogService
  pub claimed_by_labels : List ServiceCatalogServiceByLabel

pub record ServiceCatalog : Type 0 where
  pub meta : ObjectMeta
  pub spec : ServiceCatalogSpec
