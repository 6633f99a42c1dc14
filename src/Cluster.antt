-- ===== src/Cluster.antt =====
-- The Kubernetes API as the program sees it: clients for each kind of object, in the control plane's
-- cluster and in the worker clusters, over one world. They are parameters of the model.
pub mod Builtin
pub mod Stores
pub mod Loops
pub mod Memory
use primaza.Common.{Bool, String, Option, none, some, List, []}
use primaza.Common.Errors.{Result}
use primaza.Common.Effects.{Action}
use primaza.Api.{
  Key, OwnerReference, ObjectMeta, RegisteredService, ServiceCatalog, ServiceClaim, Secret,
}
use primaza.Api.{ServiceBinding, ServiceClass, ClusterEnvironment}
use Builtin.{CronJob, Job, RoleBinding, Deployment, ConfigMap}

-- `client.ListOptions`: no namespace lists all of them.
pub record ListOptions : Type 0 where
  pub namespace : Option String
  pub labels : List (String × String)

abbrev pub in_namespace : String → ListOptions
in_namespace ns = record { namespace = some ns; labels = [] }

abbrev pub everywhere : ListOptions
everywhere = record { namespace = none; labels = [] }

-- `client.Client` at one kind. A write answers with the object as the server stored it, which Go
-- writes over the caller's object. `create_or_update` is `controllerutil.CreateOrUpdate`.
pub record Client (W Obj : Type 0) : Type 0 where
  pub get : Key → Action W Obj
  pub list : ListOptions → Action W (List Obj)
  pub create : Obj → Action W Obj
  pub update : Obj → Action W Obj
  pub update_status : Obj → Action W Obj
  pub delete : Key → Action W (Unit {0})
  pub create_or_update : Obj → (Obj → Result Obj) → Action W Obj

-- The clients of one cluster.
pub record Cluster (W : Type 0) : Type 0 where
  pub registered_services : Client W RegisteredService
  pub service_catalogs : Client W ServiceCatalog
  pub service_claims : Client W ServiceClaim
  pub service_bindings : Client W ServiceBinding
  pub service_classes : Client W ServiceClass
  pub cluster_environments : Client W ClusterEnvironment
  pub secrets : Client W Secret
  pub cron_jobs : Client W CronJob
  pub jobs : Client W Job
  pub role_bindings : Client W RoleBinding
  pub deployments : Client W Deployment
  pub config_maps : Client W ConfigMap

-- What else the program takes from its libraries.
pub record Platform (W Config : Type 0) : Type 0 where
  -- `clientcmd.RESTConfigFromKubeConfig`
  pub rest_config_from_kubeconfig : String → Result Config
  -- `client.New`
  pub new_client : Config → Result (Cluster W)
  -- `controllerutil.SetControllerReference`: owner, owned
  pub set_controller_reference : ObjectMeta → ObjectMeta → Result ObjectMeta
  -- `uuid.New().String()`
  pub new_uuid : Action W String
  -- `kubernetes.NewForConfig` followed by `ServerVersion`
  pub new_for_config : Config → Result (Unit {0})
  pub server_version : Config → Action W String
