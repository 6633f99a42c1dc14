-- ===== src/SvcAgent/Agent.antt =====
-- agentsvc_controller.go: the service agent's own deployment.
use primaza.Common.{String, List, [], ◌∷◌}
use primaza.Common.{string_eq, if◌then◌else◌}
use primaza.Common.Errors.{message}
use primaza.Common.Effects.{Action, raise, attempt, ◌>>=◌, ◌>>◌}
use primaza.Api.{Key, ServiceClass, has_deletion_timestamp}
use primaza.Cluster.{Cluster, in_namespace}
use primaza.Cluster.Builtin.{Deployment}
use primaza.AppAgent.ClaimSync.{agent_found}
use primaza.AppAgent.Agent.{all_deleted, finish_deployment, guard_deployment}
use primaza.SvcAgent.Reconciler.{service_agent_deployment_name}

abbrev pub agentsvc_finalizer : String
agentsvc_finalizer = "agent.primaza.io/finalizer"

module _ {W : Type 0} (cli : Cluster W)
    -- `DeleteAllOf` in a namespace
    (delete_all_classes : String → Action W (Unit {0})) where
  -- `removeServiceClasses`
  unfoldable pub remove_service_classes : String → Action W Unit
  remove_service_classes namespace = do r ← attempt (delete_all_classes namespace); all_deleted r

  -- The finalizer waits for the deletion of the classes.
  unfoldable pub release_agent : Deployment → List ServiceClass → Action W Unit
  release_agent d [] = finish_deployment cli agentsvc_finalizer d
  release_agent d (sc ∷ rest) = raise (message "waiting for Service Classes deletion")

  unfoldable pub remove_agent : String → Deployment → Action W Unit
  remove_agent namespace d = do
    remove_service_classes namespace
    classes ← cli.service_classes.list (in_namespace namespace)
    release_agent d classes

  -- `AgentServiceReconciler.Reconcile`
  unfoldable pub reconcile_agent_service : Key → Action W Unit
  reconcile_agent_service req = do
    found ← attempt (
        cli.deployments.get
          (record { namespace = req.namespace; name = service_agent_deployment_name }))
    d ← agent_found found
    if has_deletion_timestamp d.meta
        then remove_agent req.namespace d
        else guard_deployment cli agentsvc_finalizer d
