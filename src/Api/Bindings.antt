-- ===== src/Api/Bindings.antt =====
-- servicebinding_types.go
use primaza.Common.{String, List}
use primaza.Api.Meta.{ObjectMeta, Condition}
use primaza.Api.Claims.{ApplicationSelector, Environment}

-- An object that the server has not defaulted yet has the empty state.
pub data ServiceBindingState : Type 0 where
  unset ready malformed : ServiceBindingState

pub record ServiceBindingSpec : Type 0 where
  pub service_endpoint_definition_secret : String
  pub application : ApplicationSelector
  pub envs : List Environment

pub record BoundWorkload : Type 0 where
  pub name : String

pub record ServiceBindingStatus : Type 0 where
  pub conditions : List Condition
  pub state : ServiceBindingState
  pub connections : List BoundWorkload

pub record ServiceBinding : Type 0 where
  pub meta : ObjectMeta
  pub spec : ServiceBindingSpec
  pub status : ServiceBindingStatus
