-- ===== src/Api/Environments.antt =====
-- clusterenvironment_types.go
use primaza.Common.{String, List}
use primaza.Api.Meta.{ObjectMeta, Condition}

pub data SynchronizationStrategy : Type 0 where
  pull push : SynchronizationStrategy

pub record ClusterEnvironmentSpec : Type 0 where
  pub environment_name : String
  pub cluster_context_secret : String
  pub description : String
  pub labels : List String
  pub application_namespaces : List String
  pub service_namespaces : List String
  pub contact_info : String
  pub synchronization_strategy : SynchronizationStrategy

pub data ClusterEnvironmentState : Type 0 where
  online partial offline : ClusterEnvironmentState

pub record ClusterEnvironmentStatus : Type 0 where
  pub state : ClusterEnvironmentState
  pub conditions : List Condition

pub record ClusterEnvironment : Type 0 where
  pub meta : ObjectMeta
  pub spec : ClusterEnvironmentSpec
  pub status : ClusterEnvironmentStatus
