-- ===== src/Api/Claims.antt =====
-- serviceclaim_types.go, and the application selector of types.go.
use primaza.Common.{String, Option, List}
use primaza.Common.{Eq}
use primaza.Api.Meta.{ObjectMeta, Condition}
use primaza.Api.Services.{ServiceClassIdentityItem, LabelSelector}

pub record ApplicationSelector : Type 0 where
  pub api_version : String
  pub kind : String
  pub name : String
  pub selector : Option LabelSelector

pub record Environment : Type 0 where
  pub name : String
  pub key : String

pub data ServiceClaimState : Type 0 where
  pending resolved invalid : ServiceClaimState

claim_state_dec : Discrete ServiceClaimState
claim_state_dec = hlevel

instance unfoldable pub claim_state_eq : Eq ServiceClaimState
unfolding claim_state_dec
claim_state_eq = record { dec = claim_state_dec }

pub record ServiceClaimApplicationClusterContext : Type 0 where
  pub cluster_environment_name : String
  pub namespace : String

pub record ServiceClaimTarget : Type 0 where
  pub environment_tag : String
  pub application_cluster_context : Option ServiceClaimApplicationClusterContext

pub record ServiceClaimSpec : Type 0 where
  pub service_class_identity : List ServiceClassIdentityItem
  pub service_endpoint_definition_keys : List String
  pub application : ApplicationSelector
  pub target : Option ServiceClaimTarget
  pub envs : List Environment

-- What the program sets of `corev1.ObjectReference`.
pub record ObjectReference : Type 0 where
  pub name : String
  pub uid : String

pub record ServiceClaimStatus : Type 0 where
  pub state : ServiceClaimState
  pub claim_id : String
  pub registered_service : Option ObjectReference
  pub conditions : List Condition

pub record ServiceClaim : Type 0 where
  pub meta : ObjectMeta
  pub spec : ServiceClaimSpec
  pub status : ServiceClaimStatus

-- What the program uses of `corev1.Secret`; the texts of `Data` stand for its bytes.
pub record Secret : Type 0 where
  pub meta : ObjectMeta
  pub content : List (String × String)
  pub string_data : List (String × String)
