-- ===== src/ControlPlane/Agents.antt =====
-- pkg/primaza/workercluster/agents.go and connection.go: the agents of a namespace, and whether a
-- worker cluster can be reached.
use primaza.Common.{Bool, String, ◌<>◌, Option, none, some, List, [], ◌∷◌, ◌++◌, if◌then◌else◌}
use primaza.Common.Errors.{
  Error, Result, ok, err, panic, Outcome, wrapped, is_not_found, is_already_exists, join_all,
  and_then,
}
use primaza.Common.Effects.{Action, pure, lift, crash, attempt, ◌>>=◌, ◌>>◌, errors_of}
use primaza.Api.{Condition, insert, SynchronizationStrategy}
use primaza.Api.{ClusterEnvironmentState, online, partial, offline}
use primaza.Api.Strategy.{strategy_text}
use primaza.Cluster.{Cluster, Platform}
use primaza.Cluster.Builtin.{Deployment, ConfigMap}
use primaza.ControlPlane.Naming.{primaza_cluster_environment_label}

-- `yaml.Unmarshal` of the agents' manifests.
pub record Manifests : Type 0 where
  pub deployment : String → Result Deployment
  pub config_map : String → Result ConfigMap

abbrev pub wrap {ℓ} : {A : Type ℓ} → String → Result A → Result A
wrap text (ok a) = ok a
wrap text (err e) = err (wrapped text e)
wrap text panic = panic

-- The errors of a call but for one that the handler expects.
abbrev pub unless : (Error → Bool) → Outcome → Outcome
unless expected (ok _) = ok tt
unless expected (err e) = if expected e then ok tt else err e
unless expected panic = panic

-- A write to a nil map panics.
abbrev pub write_label :
    String → Option (List (String × String)) → Result (Option (List (String × String)))
write_label ce_name none = panic
write_label ce_name (some labels) =
    ok (some (insert primaza_cluster_environment_label ce_name labels))

-- `Containers[0].Image = image`
abbrev pub first_image : String → List String → Result (List String)
first_image image [] = panic
first_image image (old ∷ rest) = ok (image ∷ rest)

-- What `createAgentDeployment` sets.
unfoldable pub agent_deployment : String → String → String → Deployment → Result Deployment
agent_deployment namespace ce_name image dep =
    and_then (first_image image dep.container_images) λ images.
      and_then (write_label ce_name dep.labels) λ labels.
        and_then (write_label ce_name dep.template_labels) λ template_labels. ok (record {
          meta = record (dep.meta) { namespace = namespace };
          labels = labels;
          template_labels = template_labels;
          container_images = images;
        })

abbrev pub labels_or_empty : Option (List (String × String)) → List (String × String)
labels_or_empty none = []
labels_or_empty (some labels) = labels

abbrev pub write_strategy :
    SynchronizationStrategy
    → Option (List (String × String))
    → Result (Option (List (String × String)))
write_strategy strategy none = panic
write_strategy strategy (some content) =
    ok (some (insert "synchronization-strategy" (strategy_text strategy) content))

-- What `createAgentConfigMap` sets.
unfoldable pub agent_config_map :
    String → String → SynchronizationStrategy → ConfigMap → Result ConfigMap
agent_config_map namespace ce_name strategy cm =
    and_then (write_strategy strategy cm.content) λ content. ok (record {
      meta = record (cm.meta) { namespace = namespace };
      labels = some (insert primaza_cluster_environment_label ce_name (labels_or_empty cm.labels));
      content = content;
    })

-- `ConnectionStatus`
pub record ConnectionStatus : Type 0 where
  pub state : ClusterEnvironmentState
  pub reason : String
  pub message : String

abbrev pub condition_status : ClusterEnvironmentState → String
condition_status online = "True"
condition_status partial = "False"
condition_status offline = "False"

-- `ConnectionStatus.Condition`
unfoldable pub connection_condition : ConnectionStatus → Condition
connection_condition c = record {
  type = "Online";
  status = condition_status c.state;
  reason = c.reason;
  message = c.message;
  observed_generation = 0;
  last_transition_time = none;
}

module _ {W Config : Type 0} (platform : Platform W Config) where
  unfoldable pub connection_of_version : Result String → Action W ConnectionStatus
  connection_of_version (ok v) = pure (record {
    state = online;
    reason = "ConnectionSuccessful";
    message = "successfully connected to target cluster: kubernetes version found " <> v;
  })
  connection_of_version (err e) = pure (record {
    state = offline;
    reason = "ConnectionError";
    message = "error connecting to target cluster";
  })
  connection_of_version panic = crash

  unfoldable pub connection_of_client : Config → Result (Unit {0}) → Action W ConnectionStatus
  connection_of_client cfg (ok _) = do
    v ← attempt (platform.server_version cfg)
    connection_of_version v
  connection_of_client cfg (err e) = pure (record {
    state = offline;
    reason = "ClientCreationError";
    message = "error creating the client";
  })
  connection_of_client cfg panic = crash

  -- `TestConnection`
  unfoldable pub test_connection_status : Config → Action W ConnectionStatus
  test_connection_status cfg = connection_of_client cfg (platform.new_for_config cfg)

module _ {W : Type 0} (wcli : Cluster W) (manifests : Manifests) where
  -- `createAgentDeployment`
  unfoldable pub create_agent_deployment : String → String → String → String → Action W Unit
  create_agent_deployment namespace ce_name agent_manifest image = do
    dep ← lift (wrap "unmarshal deployment error" (manifests.deployment agent_manifest))
    baked ← lift (agent_deployment namespace ce_name image dep)
    created ← attempt (wcli.deployments.create baked)
    lift (wrap "error creating deployment" created)
    pure tt

  -- `createAgentConfigMap`
  unfoldable pub create_agent_config_map :
      String → String → String → SynchronizationStrategy → Action W Unit
  create_agent_config_map namespace ce_name config_map_manifest strategy = do
    cm ← lift (wrap "unmarshal deployment error" (manifests.config_map config_map_manifest))
    baked ← lift (agent_config_map namespace ce_name strategy cm)
    created ← attempt (wcli.config_maps.create baked)
    lift (wrap "error creating deployment" created)
    pure tt

  -- `PushAgent`
  unfoldable pub push_agent :
      String → String → String → String → String → SynchronizationStrategy → Action W Unit
  push_agent namespace ce_name agent_manifest image config_manifest strategy = do
    d ← attempt (create_agent_deployment namespace ce_name agent_manifest image)
    c ← attempt (create_agent_config_map namespace ce_name config_manifest strategy)
    lift (
        join_all (errors_of (unless is_already_exists d) ++ errors_of (unless is_already_exists c)))

  -- `DeleteAgent`
  unfoldable pub delete_agent : String → String → String → Action W Unit
  delete_agent namespace deployment_name config_map_name = do
    d ← attempt (wcli.deployments.delete (record { namespace = namespace; name = deployment_name }))
    c ← attempt (wcli.config_maps.delete (record { namespace = namespace; name = config_map_name }))
    lift (
        join_all (
          errors_of (wrap "error deleting deployment" (unless is_not_found d))
          ++ errors_of (wrap "error deleting configmap" (unless is_not_found c))))

-- The files of the agent's pod: `clientcmd.BuildConfigFromFlags` and `os.ReadFile`.
module _ {W Config : Type 0} (build_config : String → Action W Config)
    (read_file : String → Action W String) where
  -- `GetPrimazaKubeconfig`
  unfoldable pub get_primaza_kubeconfig : Action W (Config × String)
  get_primaza_kubeconfig = do
    config ← build_config "/etc/primaza/kubeconfig"
    namespace ← read_file "/etc/primaza/namespace"
    pure (config, namespace)
