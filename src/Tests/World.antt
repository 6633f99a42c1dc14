-- ===== src/Tests/World.antt =====
-- One cluster in memory, with a few objects of the kinds that the runs need.
use primaza.Common.{none, some, List, [], ◌∷◌, String}
use primaza.Common.Errors.{ok}
use primaza.Common.Effects.{pure}
use primaza.Api.{ObjectMeta, new_meta, RegisteredService, ServiceCatalog}
use primaza.Api.{
  ServiceClaim, Secret, ServiceBinding, ServiceClass, ClusterEnvironment, available,
  ServiceCatalogService, push, online,
}
use primaza.Cluster.{Cluster, Platform}
use primaza.Cluster.Builtin.{CronJob, Job, RoleBinding, Deployment, ConfigMap}
use primaza.AppAgent.Containers.{Container}
use primaza.AppAgent.Workloads.{SecretVolume}
use primaza.Cluster.Memory.{Kind, memory}

-- A workload of the agent's namespace.
pub record Workload : Type 0 where
  pub meta : ObjectMeta
  pub volumes : List SecretVolume
  pub containers : List Container
  pub init_containers : List Container

pub record World : Type 0 where
  pub registered_services : List RegisteredService
  pub service_catalogs : List ServiceCatalog
  pub service_claims : List ServiceClaim
  pub service_bindings : List ServiceBinding
  pub service_classes : List ServiceClass
  pub cluster_environments : List ClusterEnvironment
  pub secrets : List Secret
  pub cron_jobs : List CronJob
  pub jobs : List Job
  pub role_bindings : List RoleBinding
  pub deployments : List Deployment
  pub config_maps : List ConfigMap
  pub workloads : List Workload
  pub running : List String

abbrev pub empty_world : World
empty_world = record {
  registered_services = [];
  service_catalogs = [];
  service_claims = [];
  service_bindings = [];
  service_classes = [];
  cluster_environments = [];
  secrets = [];
  cron_jobs = [];
  jobs = [];
  role_bindings = [];
  deployments = [];
  config_maps = [];
  workloads = [];
  running = [];
}

abbrev pub catalog_kind : Kind World ServiceCatalog
catalog_kind = record {
  objects = λ w. w.service_catalogs;
  store = λ l w. record w { service_catalogs = l };
  meta = λ o. o.meta;
  keep_status = λ o old. o;
  set_status = λ old o. old;
}

abbrev pub service_kind : Kind World RegisteredService
service_kind = record {
  objects = λ w. w.registered_services;
  store = λ l w. record w { registered_services = l };
  meta = λ o. o.meta;
  keep_status = λ o old. record o { status = old.status };
  set_status = λ old o. record old { status = o.status };
}

abbrev pub claim_kind : Kind World ServiceClaim
claim_kind = record {
  objects = λ w. w.service_claims;
  store = λ l w. record w { service_claims = l };
  meta = λ o. o.meta;
  keep_status = λ o old. record o { status = old.status };
  set_status = λ old o. record old { status = o.status };
}

abbrev pub binding_kind : Kind World ServiceBinding
binding_kind = record {
  objects = λ w. w.service_bindings;
  store = λ l w. record w { service_bindings = l };
  meta = λ o. o.meta;
  keep_status = λ o old. record o { status = old.status };
  set_status = λ old o. record old { status = o.status };
}

abbrev pub class_kind : Kind World ServiceClass
class_kind = record {
  objects = λ w. w.service_classes;
  store = λ l w. record w { service_classes = l };
  meta = λ o. o.meta;
  keep_status = λ o old. record o { status = old.status };
  set_status = λ old o. record old { status = o.status };
}

abbrev pub environment_kind : Kind World ClusterEnvironment
environment_kind = record {
  objects = λ w. w.cluster_environments;
  store = λ l w. record w { cluster_environments = l };
  meta = λ o. o.meta;
  keep_status = λ o old. record o { status = old.status };
  set_status = λ old o. record old { status = o.status };
}

abbrev pub secret_kind : Kind World Secret
secret_kind = record {
  objects = λ w. w.secrets;
  store = λ l w. record w { secrets = l };
  meta = λ o. o.meta;
  keep_status = λ o old. o;
  set_status = λ old o. old;
}

abbrev pub cron_job_kind : Kind World CronJob
cron_job_kind = record {
  objects = λ w. w.cron_jobs;
  store = λ l w. record w { cron_jobs = l };
  meta = λ o. o.meta;
  keep_status = λ o old. o;
  set_status = λ old o. old;
}

abbrev pub job_kind : Kind World Job
job_kind = record {
  objects = λ w. w.jobs;
  store = λ l w. record w { jobs = l };
  meta = λ o. o.meta;
  keep_status = λ o old. o;
  set_status = λ old o. old;
}

abbrev pub role_binding_kind : Kind World RoleBinding
role_binding_kind = record {
  objects = λ w. w.role_bindings;
  store = λ l w. record w { role_bindings = l };
  meta = λ o. o.meta;
  keep_status = λ o old. o;
  set_status = λ old o. old;
}

abbrev pub deployment_kind : Kind World Deployment
deployment_kind = record {
  objects = λ w. w.deployments;
  store = λ l w. record w { deployments = l };
  meta = λ o. o.meta;
  keep_status = λ o old. o;
  set_status = λ old o. old;
}

abbrev pub config_map_kind : Kind World ConfigMap
config_map_kind = record {
  objects = λ w. w.config_maps;
  store = λ l w. record w { config_maps = l };
  meta = λ o. o.meta;
  keep_status = λ o old. o;
  set_status = λ old o. old;
}

abbrev pub workload_kind : Kind World Workload
workload_kind = record {
  objects = λ w. w.workloads;
  store = λ l w. record w { workloads = l };
  meta = λ o. o.meta;
  keep_status = λ o old. o;
  set_status = λ old o. old;
}

abbrev pub cluster : Cluster World
cluster = record {
  registered_services = memory service_kind;
  service_catalogs = memory catalog_kind;
  service_claims = memory claim_kind;
  service_bindings = memory binding_kind;
  service_classes = memory class_kind;
  cluster_environments = memory environment_kind;
  secrets = memory secret_kind;
  cron_jobs = memory cron_job_kind;
  jobs = memory job_kind;
  role_bindings = memory role_binding_kind;
  deployments = memory deployment_kind;
  config_maps = memory config_map_kind;
}

-- Every cluster that a configuration names is the one cluster.
abbrev pub platform : Platform World (Unit {0})
platform = record {
  rest_config_from_kubeconfig = λ text. ok tt;
  new_client = λ cfg. ok cluster;
  set_controller_reference = λ owner m. ok m;
  new_uuid = pure "id";
  new_for_config = λ cfg. ok tt;
  server_version = λ cfg. pure "v1";
}

abbrev pub catalog_of : String → List ServiceCatalogService → ServiceCatalog
catalog_of name services = record {
  meta = new_meta name "primaza";
  spec = record { services = services; claimed_by_labels = [] };
}

abbrev pub database : RegisteredService
database = record {
  meta = record (new_meta "database" "primaza") { uid = "u1" };
  spec = record {
    constraints = some (record { environments = "prod" ∷ [] });
    health_check = none;
    sla = "";
    service_class_identity = record { name = "type"; value = "psql" } ∷ [];
    service_endpoint_definition =
        record { name = "host"; value = "db"; value_from_secret = none } ∷ [];
  };
  status = record { state = available };
}

abbrev pub catalog_world : World
catalog_world = record empty_world {
  registered_services = database ∷ [];
  service_catalogs = catalog_of "prod" [] ∷ catalog_of "dev" [] ∷ [];
}

abbrev pub worker : ClusterEnvironment
worker = record {
  meta = new_meta "worker" "primaza";
  spec = record {
    environment_name = "prod";
    cluster_context_secret = "kubeconfig";
    description = "";
    labels = [];
    application_namespaces = "apps" ∷ [];
    service_namespaces = [];
    contact_info = "";
    synchronization_strategy = push;
  };
  status = record { state = online; conditions = [] };
}

abbrev pub kubeconfig : Secret
kubeconfig = record { meta = new_meta "kubeconfig" "primaza"; content = []; string_data = [] }
