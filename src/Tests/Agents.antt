-- ===== src/Tests/Agents.antt =====
-- The other controllers of the two agents on a world in memory.
use primaza.AppAgent.ClaimSync.{withdraw_claim}
use primaza.AppAgent.ClaimSync.{reconcile_agent_claim_found}
use primaza.SvcAgent.Agent.{remove_service_classes}
use primaza.SvcAgent.Agent.{remove_agent}
use primaza.SvcAgent.Agent.{release_agent}
use primaza.Common.Effects.{◌>>=◌}
use primaza.Common.{string_eq}
use primaza.AppAgent.ClaimSync.{ensure_claim_finalizer}
use primaza.AppAgent.ClaimSync.{claim_written}
use primaza.AppAgent.ClaimSync.{agent_found}
use primaza.Api.{key_eq}
use primaza.Common.{◌≡◌, refl, sym, ap, inl, inr, String, none, some, List, [], ◌∷◌, ◌++◌}
use primaza.Common.Errors.{Result, Error, ok, err, api, not_found}
use primaza.Common.Effects.{Action}
use primaza.Api.{key_of, new_meta, Condition, ServiceClaim, pending}
use primaza.Cluster.{Cluster, in_namespace}
use primaza.Cluster.Builtin.{Deployment}
use primaza.Cluster.Memory.{look}
use primaza.Cluster.Memory.Frames.{
  memory_update_answers, memory_update_status_ok, memory_create_or_update_ok,
}
use primaza.ControlPlane.{agent_deployment, get_primaza_kubeconfig}
use primaza.AppAgent.ClaimSync.{
  create_service_claim_copy, send_claim, reconcile_agent_claim, agent_claim_finalizer,
}
use primaza.AppAgent.ClaimLaws.{
  StoresClaims, SentOrDenied, pushed-pulled, send_claim-ok, IsWithdrawn,
  reconcile_agent_claim-IsWithdrawn,
}
use primaza.AppAgent.Agent.{finish_deployment}
use primaza.SvcAgent.Agent.{agentsvc_finalizer, reconcile_agent_service}
use primaza.SvcAgent.AgentLaws.{reconcile_agent_service-ok}
use primaza.Tests.World.{World, empty_world, claim_kind, cluster, platform}

abbrev set_last : List Condition → Condition → List Condition
set_last l c = l ++ (c ∷ [])

abbrev any_text : Error → String
any_text e = "error"

-- The files of a pod, each with its text.
abbrev build_config : String → Action World (Unit {0})
build_config path w = (ok tt, w)

abbrev read_file : String → Action World String
read_file path w = (ok "primaza", w)

abbrev agent_kubeconfig : Action World (Unit {0} × String)
agent_kubeconfig = get_primaza_kubeconfig build_config read_file

abbrev made_deployment : Deployment
made_deployment = record {
  meta = new_meta "primaza-app-agent" "";
  labels = some [];
  template_labels = some [];
  container_images = "old" ∷ [];
}

abbrev agent_of_worker : Deployment
agent_of_worker = record {
  meta = new_meta "primaza-app-agent" "apps";
  labels = some (("primaza.io/cluster-environment", "worker") ∷ []);
  template_labels = some (("primaza.io/cluster-environment", "worker") ∷ []);
  container_images = "image" ∷ [];
}

abbrev app_claim : ServiceClaim
app_claim = record {
  meta = new_meta "checkout" "apps";
  spec = record {
    service_class_identity = record { name = "type"; value = "psql" } ∷ [];
    service_endpoint_definition_keys = "host" ∷ [];
    application = record {
      api_version = "apps/v1";
      kind = "Deployment";
      name = "shop";
      selector = none;
    };
    target = none;
    envs = [];
  };
  status = record { state = pending; claim_id = ""; registered_service = none; conditions = [] };
}

abbrev deleted_claim : ServiceClaim
deleted_claim = record app_claim {
  meta = record (app_claim.meta) {
    finalizers = agent_claim_finalizer ∷ [];
    deletion_timestamp = some "now";
  };
}

abbrev claims_world : World
claims_world = record empty_world {
  service_claims = app_claim ∷ [];
  deployments = agent_of_worker ∷ [];
}

abbrev stuck_world : World
stuck_world = record claims_world { service_claims = deleted_claim ∷ [] }

deployment_is_made : agent_deployment "apps" "worker" "image" made_deployment ≡ ok agent_of_worker
unfolding agent_deployment
deployment_is_made = refl

pushed-pulled_example :
    (create_service_claim_copy app_claim agent_of_worker "primaza").spec
    ≡ (record (app_claim.spec) {
      target = some (record {
        environment_tag = "";
        application_cluster_context =
            some (record { cluster_environment_name = "worker"; namespace = "apps" });
      });
    })
pushed-pulled_example =
    pushed-pulled "apps" "worker" "image" "primaza" made_deployment agent_of_worker app_claim
      app_claim
      (record app_claim {
        spec = record (app_claim.spec) {
          target = some (record {
            environment_tag = "";
            application_cluster_context =
                some (record { cluster_environment_name = "worker"; namespace = "apps" });
          });
        };
      })
      deployment_is_made refl

claims_stored : StoresClaims cluster.service_claims (look claim_kind)
claims_stored = record {
  update_answers = λ o w {o'} h.
      let (x, e) = memory_update_answers claim_kind (λ l v. refl) o o' w h in
      (ap (λ y. y.spec) e, ap (λ y. key_of y.meta) e);
  status_ok = λ o w {o'} h.
      let (x, e) = memory_update_status_ok claim_kind (λ l v. refl) o o' w (λ y same. sym same) h in
      (record x { status = o.status }, e, refl);
  create_or_update_ok = λ o spec w {o'} h.
      let (x, e, cases) =
        memory_create_or_update_ok claim_kind (λ l v. refl) o (λ y. record y { spec = spec }) w
          (λ y. refl) (λ y z. refl) in
      (x, e, elim cases [ inl new ↦ ap (λ y. y.spec) new | inr old ↦ ap (λ y. y.spec) old.1 ]);
}

claim_is_sent :
    (send_claim cluster set_last any_text cluster "primaza" app_claim agent_of_worker
      claims_world).0
    ≡ ok tt
unfolding send_claim ◌>>=◌ ensure_claim_finalizer key_eq string_eq create_service_claim_copy
    claim_written
claim_is_sent = refl

send_claim-ok_example :
    SentOrDenied any_text
      (look claim_kind)
      (look claim_kind)
      "primaza"
      (record { namespace = "apps"; name = "checkout" })
      (create_service_claim_copy app_claim agent_of_worker "primaza").spec
      (send_claim cluster set_last any_text cluster "primaza" app_claim agent_of_worker
        claims_world).1
send_claim-ok_example =
    send_claim-ok cluster cluster set_last any_text (look claim_kind) (look claim_kind)
      claims_stored claims_stored app_claim agent_of_worker "primaza" claims_world claim_is_sent

abbrev withdrawing_world : World
withdrawing_world = record stuck_world {
  service_claims =
      deleted_claim
      ∷ (record deleted_claim { meta = record (deleted_claim.meta) { namespace = "primaza" } }
          ∷ []);
}

abbrev visit_claim : World → Result (Unit {0}) × World
visit_claim =
    reconcile_agent_claim cluster platform agent_kubeconfig set_last any_text
      (record { namespace = "apps"; name = "checkout" })

-- A claim that the control plane does not have keeps its finalizer.
claim_is_stuck : visit_claim stuck_world ≡ (err (api not_found), stuck_world)
unfolding reconcile_agent_claim ◌>>=◌ key_eq string_eq reconcile_agent_claim_found
    get_primaza_kubeconfig agent_found withdraw_claim create_service_claim_copy
claim_is_stuck = refl

claim_is_withdrawn : (visit_claim withdrawing_world).0 ≡ ok tt
unfolding reconcile_agent_claim ◌>>=◌ key_eq string_eq reconcile_agent_claim_found
    get_primaza_kubeconfig agent_found withdraw_claim create_service_claim_copy
claim_is_withdrawn = refl

reconcile_agent_claim-IsWithdrawn_example :
    (config : Unit {0}) × (remote_namespace : String) × (remote : Cluster World) × (d : Deployment)
    × ((agent_kubeconfig withdrawing_world).0 ≡ ok (config, remote_namespace))
    × (platform.new_client config ≡ ok remote)
    × ((cluster.deployments.get
          (record { namespace = "apps"; name = "primaza-app-agent" })
          (agent_kubeconfig withdrawing_world).1).0
        ≡ ok d)
    × IsWithdrawn cluster platform agent_kubeconfig set_last any_text remote remote_namespace
        deleted_claim
        (cluster.deployments.get
          (record { namespace = "apps"; name = "primaza-app-agent" })
          (agent_kubeconfig withdrawing_world).1).1
        (visit_claim withdrawing_world).1
unfolding key_eq string_eq
reconcile_agent_claim-IsWithdrawn_example =
    reconcile_agent_claim-IsWithdrawn cluster platform agent_kubeconfig set_last any_text
      (record { namespace = "apps"; name = "checkout" }) withdrawing_world deleted_claim refl refl
      refl claim_is_withdrawn

abbrev leaving_agent : Deployment
leaving_agent = record agent_of_worker {
  meta = record (new_meta "primaza-svc-agent" "apps") {
    finalizers = agentsvc_finalizer ∷ [];
    deletion_timestamp = some "now";
  };
}

abbrev no_classes : String → Action World (Unit {0})
no_classes namespace w = (ok tt, record w { service_classes = [] })

abbrev leaving_world : World
leaving_world = record empty_world { deployments = leaving_agent ∷ [] }

agent_is_released :
    (reconcile_agent_service cluster no_classes
      (record { namespace = "apps"; name = "any" })
      leaving_world).0
    ≡ ok tt
unfolding reconcile_agent_service ◌>>=◌ key_eq string_eq agent_found remove_agent
    remove_service_classes release_agent finish_deployment
agent_is_released = refl

reconcile_agent_service-ok_example :
    ((cluster.service_classes.list (in_namespace "apps") leaving_world).0 ≡ ok [])
    × (reconcile_agent_service cluster no_classes
          (record { namespace = "apps"; name = "any" })
          leaving_world
        ≡ finish_deployment cluster agentsvc_finalizer leaving_agent leaving_world)
unfolding key_eq string_eq remove_service_classes finish_deployment ◌>>=◌
reconcile_agent_service-ok_example =
    reconcile_agent_service-ok cluster no_classes (record { namespace = "apps"; name = "any" })
      leaving_world leaving_agent refl refl agent_is_released
