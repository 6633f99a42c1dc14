-- ===== src/SvcAgent/AgentLaws.antt =====
-- agentsvc_controller.go: the service agent's deployment is let go after its classes.
use primaza.Common.{◌≡◌, ◌∙◌, refl, true, String, List, [], ◌∷◌}
use primaza.Common.Errors.{ok}
use primaza.Common.Effects.{Action, ◌>>=◌, >>=-eq-ok}
use primaza.Api.{Key, has_deletion_timestamp, ServiceClass}
use primaza.Cluster.{Cluster, in_namespace}
use primaza.Cluster.Builtin.{Deployment}
use primaza.AppAgent.ClaimSync.{agent_found}
use primaza.AppAgent.Agent.{finish_deployment}
use primaza.SvcAgent.Reconciler.{service_agent_deployment_name}
use primaza.SvcAgent.Agent.{
  agentsvc_finalizer, remove_service_classes, release_agent, remove_agent, reconcile_agent_service,
}

module _ {W : Type 0} (cli : Cluster W) (delete_all_classes : String → Action W (Unit {0})) where
  released :
      (d : Deployment) (l : List ServiceClass) (w : W)
      → (release_agent cli delete_all_classes d l w).0 ≡ ok tt
      → (l ≡ [])
        × (release_agent cli delete_all_classes d l w
            ≡ finish_deployment cli agentsvc_finalizer d w)
  unfolding release_agent ◌>>=◌
  released d [] w h = (refl, refl)
  released d (sc ∷ rest) w h = cc

  removed :
      (namespace : String) (d : Deployment) (w : W)
      → let w1 = (remove_service_classes cli delete_all_classes namespace w).1 in
        (remove_agent cli delete_all_classes namespace d w).0 ≡ ok tt
        → ((cli.service_classes.list (in_namespace namespace) w1).0 ≡ ok [])
          × (remove_agent cli delete_all_classes namespace d w
              ≡ finish_deployment cli agentsvc_finalizer d
                  (cli.service_classes.list (in_namespace namespace) w1).1)
  unfolding remove_agent
  removed namespace d w h =
      let (_, _, h1, same1) =
        >>=-eq-ok (remove_service_classes cli delete_all_classes namespace) _ w h in
      let (l, listed, h2, same2) =
        >>=-eq-ok (cli.service_classes.list (in_namespace namespace)) _ _ h1 in
      let (none_left, last) = released d l _ h2 in (rw none_left at listed, same1 ∙ same2 ∙ last)

  -- A visit of the service agent's deployment that is being deleted, and that was read, returns without
  -- an error only if no service class was listed in the namespace after the deletion of all of them;
  -- then the last thing that it does is to take the finalizer off.
  pub reconcile_agent_service-ok :
      (req : Key) (w : W) (d : Deployment)
      → let agent =
          cli.deployments.get
            (record { namespace = req.namespace; name = service_agent_deployment_name }) in
        let w1 = (remove_service_classes cli delete_all_classes req.namespace (agent w).1).1 in
        let classes = cli.service_classes.list (in_namespace req.namespace) w1 in
        (agent w).0 ≡ ok d
        → has_deletion_timestamp d.meta ≡ true
        → (reconcile_agent_service cli delete_all_classes req w).0 ≡ ok tt
        → (classes.0 ≡ ok [])
          × (reconcile_agent_service cli delete_all_classes req w
              ≡ finish_deployment cli agentsvc_finalizer d classes.1)
  unfolding reconcile_agent_service agent_found ◌>>=◌
  reconcile_agent_service-ok req w d found gone h =
      rw (found, gone) (removed req.namespace d _ (rw (found, gone) at h))
