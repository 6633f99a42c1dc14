-- ===== src/AppAgent/Agent.antt =====
-- agentapp_controller.go and servicecatalog_controller.go: the agent's own deployment, and the owner of
-- the catalogs of its namespace.
use primaza.Common.{String, List, [], ◌∷◌, ◌++◌, without, contains}
use primaza.Common.{string_eq, if◌then◌else◌}
use primaza.Common.Errors.{Result, ok, err, panic, Outcome, ignore_not_found, join_all}
use primaza.Common.Effects.{Action, pure, lift, crash, attempt, ◌>>=◌, ◌>>◌, errors_of}
use primaza.Api.{Key, ServiceCatalog, has_deletion_timestamp}
use primaza.Cluster.{Cluster, Platform}
use primaza.Cluster.Builtin.{Deployment}
use primaza.AppAgent.ClaimSync.{application_agent_deployment_name, agent_found}

abbrev agentapp_finalizer : String
agentapp_finalizer = "agentapp.primaza.io/finalizer"

abbrev pub with_deployment_finalizers : List String → Deployment → Deployment
with_deployment_finalizers l d = record d { meta = record (d.meta) { finalizers = l } }

-- A deletion of all objects; that there are none is no error.
abbrev pub all_deleted : {W : Type 0} → Outcome → Action W (Unit {0})
all_deleted (ok _) = pure tt
all_deleted (err e) = lift (ignore_not_found e)
all_deleted panic = crash

module _ {W : Type 0} (cli : Cluster W) where
  -- A finalizer of the deployment is put on, or taken off.
  unfoldable pub finish_deployment : String → Deployment → Action W Unit
  finish_deployment finalizer d =
      if contains d.meta.finalizers finalizer
      then (do
        cli.deployments.update (with_deployment_finalizers (without finalizer d.meta.finalizers) d)
        pure tt)
      else pure tt

  unfoldable pub guard_deployment : String → Deployment → Action W Unit
  guard_deployment finalizer d = if contains d.meta.finalizers finalizer then pure tt else (do
    cli.deployments.update (with_deployment_finalizers (d.meta.finalizers ++ (finalizer ∷ [])) d)
    pure tt)

module _ {W Config : Type 0} (cli : Cluster W) (platform : Platform W Config)
    -- `DeleteAllOf` in a namespace
    (delete_all_catalogs delete_all_bindings : String → Action W (Unit {0})) where
  -- `removeServiceCatalog`
  unfoldable pub remove_catalogs : String → Action W Unit
  remove_catalogs namespace = do r ← attempt (delete_all_catalogs namespace); all_deleted r

  -- `removeServiceBinding`
  unfoldable pub remove_bindings : String → Action W Unit
  remove_bindings namespace = do r ← attempt (delete_all_bindings namespace); all_deleted r

  -- `removePrimazaResources`
  unfoldable pub remove_primaza_resources : String → Action W Unit
  remove_primaza_resources namespace = do
    c ← attempt (remove_catalogs namespace)
    b ← attempt (remove_bindings namespace)
    lift (join_all (errors_of c ++ errors_of b))

  -- `AgentApplicationReconciler.Reconcile`
  unfoldable pub reconcile_agent_application : Key → Action W Unit
  reconcile_agent_application req = do
    found ← attempt (
        cli.deployments.get
          (record { namespace = req.namespace; name = application_agent_deployment_name }))
    d ← agent_found found
    if has_deletion_timestamp d.meta
        then remove_primaza_resources req.namespace >> finish_deployment cli agentapp_finalizer d
        else guard_deployment cli agentapp_finalizer d

  unfoldable pub own_catalog : ServiceCatalog → Result Deployment → Action W ServiceCatalog
  own_catalog scat (ok d) = do
    owned ← lift (platform.set_controller_reference d.meta scat.meta)
    pure (record scat { meta = owned })
  own_catalog scat (err e) = lift (ignore_not_found e) >> pure scat
  own_catalog scat panic = crash

  -- `setOwnerReference` of catalogs
  unfoldable pub set_catalog_owner_reference : ServiceCatalog → String → Action W ServiceCatalog
  set_catalog_owner_reference scat namespace = do
    found ← attempt (
        cli.deployments.get
          (record { namespace = namespace; name = application_agent_deployment_name }))
    own_catalog scat found

  -- Any error of the read is dropped.
  unfoldable pub reconcile_agent_catalog_found : Key → Result ServiceCatalog → Action W Unit
  reconcile_agent_catalog_found req (ok scat) = do
    owned ← set_catalog_owner_reference scat req.namespace
    cli.service_catalogs.update owned
    pure tt
  reconcile_agent_catalog_found req (err e) = pure tt
  reconcile_agent_catalog_found req panic = crash

  -- `ServiceCatalogReconciler.Reconcile` of the agent
  unfoldable pub reconcile_agent_catalog : Key → Action W Unit
  reconcile_agent_catalog req = do
    found ← attempt (cli.service_catalogs.get req)
    reconcile_agent_catalog_found req found
