-- ===== src/AppAgent/ClaimLaws.antt =====
-- serviceclaim_controller.go of the agent: what the control plane gets of a claim.
use primaza.Common.{
  ◌≡◌, refl, sym, ◌∙◌, ap, Bool, not, ◌&&◌, without, true, ◌⊎◌, inl, inr, Bool-cases, String,
  Option, none, some, List, [], ◌∷◌, contains, arith,
}
use primaza.Common.{string_eq, if◌then◌else◌}
use mathlib.Core.Path.{subst}
use primaza.Common.Errors.{is_not_found, Error, Result, ok, err, panic, and_then-ok, ok_injective}
use primaza.Common.Effects.{
  Action, ◌>>=◌, pure, >>=-eq-ok, attempt-eq-ok, pair_ext, ◌>>◌, lift, crash, raise,
}
use primaza.Api.{
  Key, key_of, Condition, has_deletion_timestamp, ServiceClaim, ServiceClaimSpec, invalid, lookup,
  insert,
}
use primaza.Cluster.{Client, Cluster, Platform}
use primaza.Cluster.Builtin.{Deployment}
use primaza.ControlPlane.{agent_deployment, first_image, write_label}
use primaza.ControlPlane.Naming.{primaza_cluster_environment_label}
use primaza.Environments.Events.{with_context}
use primaza.AppAgent.ClaimSync.{
  with_claim_finalizers, agent_claim_finalizer, text_of, label_of, create_service_claim_copy,
  set_claim_spec, is_denial, ensure_claim_finalizer, mark_invalid, claim_written, withdraw_claim,
  agent_found, reconcile_agent_claim, reconcile_agent_claim_found,
  application_agent_deployment_name, send_claim,
}

lookup-insert :
    {V : Type 0} (k : String) (v : V) (m : List (String × V)) → lookup k (insert k v m) ≡ some v
lookup-insert k v [] = ground arith
lookup-insert k v ((j, x) ∷ m) = ground (arith, lookup-insert k v m)

label-written :
    (ce_name : String) (old new : Option (List (String × String)))
    → write_label ce_name old ≡ ok new
    → label_of primaza_cluster_environment_label new ≡ ce_name
label-written ce_name none new h = cc
label-written ce_name (some labels) new h =
    rw (sym (ok_injective _ new h))
      (ap text_of (lookup-insert primaza_cluster_environment_label ce_name labels))

deployment-label :
    (namespace ce_name image : String) (made d : Deployment)
    → agent_deployment namespace ce_name image made ≡ ok d
    → label_of primaza_cluster_environment_label d.labels ≡ ce_name
unfolding agent_deployment
deployment-label namespace ce_name image made d h =
    let (images, i, h1) = and_then-ok (first_image image made.container_images) _ d h in
    let (labels, l, h2) = and_then-ok (write_label ce_name made.labels) _ d h1 in
    let (template, t, h3) = and_then-ok (write_label ce_name made.template_labels) _ d h2 in
    ap (λ x. label_of primaza_cluster_environment_label x.labels) (sym (ok_injective _ d h3))
    ∙ label-written ce_name made.labels labels l

-- The claim that an agent sends has the specification that the control plane would set if it pulled
-- the claim itself, where the agent's deployment was made for the environment by `PushAgent`.
pub pushed-pulled :
    (namespace ce_name image remote_namespace : String) (made d : Deployment)
    (sclaim remote_claim pulled : ServiceClaim)
    → agent_deployment namespace ce_name image made ≡ ok d
    → with_context ce_name sclaim.meta.namespace sclaim remote_claim ≡ ok pulled
    → (create_service_claim_copy sclaim d remote_namespace).spec ≡ pulled.spec
unfolding create_service_claim_copy
pushed-pulled namespace ce_name image remote_namespace made d sclaim remote_claim pulled dep pull =
    rw (deployment-label namespace ce_name image made d dep)
      (ap (λ x. x.spec) (ok_injective _ pulled pull))

-- Documented behaviour of a server of claims, by the claim that stands at a key.
pub record StoresClaims {W : Type 0} (c : Client W ServiceClaim)
    (find : W → Key → Option ServiceClaim) : Type 0 where
  -- An update answers with the claim as it is stored: what was sent, but for its status.
  pub update_answers :
      (o : ServiceClaim) (w : W) {o' : ServiceClaim}
      → (c.update o w).0 ≡ ok o'
      → (o'.spec ≡ o.spec) × (key_of o'.meta ≡ key_of o.meta)
  pub status_ok :
      (o : ServiceClaim) (w : W) {o' : ServiceClaim}
      → (c.update_status o w).0 ≡ ok o'
      → (x : ServiceClaim) × (find (c.update_status o w).1 (key_of o.meta) ≡ some x)
        × (x.status ≡ o.status)
  pub create_or_update_ok :
      (o : ServiceClaim) (spec : ServiceClaimSpec) (w : W) {o' : ServiceClaim}
      → (c.create_or_update o (set_claim_spec spec) w).0 ≡ ok o'
      → (x : ServiceClaim) × (find (c.create_or_update o (set_claim_spec spec) w).1 (key_of o.meta)
          ≡ some x)
        × (x.spec ≡ spec)

module _ {W : Type 0} (error_text : Error → String)
    (find sent : W → Key → Option ServiceClaim) where
  -- The claim is the control plane's, or it is invalid here as the control plane denied it.
  abbrev pub SentOrDenied : String → Key → ServiceClaimSpec → W → Type 0
  SentOrDenied remote_namespace key spec w =
      ((x : ServiceClaim) × (sent w (record { namespace = remote_namespace; name = key.name })
          ≡ some x)
        × (x.spec ≡ spec))
      ⊎ ((e : Error) × (is_denial (error_text e) ≡ true)
          × ((x : ServiceClaim) × (find w key ≡ some x) × (x.status.state ≡ invalid)))

module _ {W : Type 0} (cli remote : Cluster W)
    (set_condition : List Condition → Condition → List Condition) (error_text : Error → String)
    (find sent : W → Key → Option ServiceClaim) (local_store : StoresClaims cli.service_claims find)
    (remote_store : StoresClaims remote.service_claims sent) where
  ensured :
      (sclaim kept : ServiceClaim) (w : W)
      → (ensure_claim_finalizer cli sclaim w).0 ≡ ok kept
      → (kept.spec ≡ sclaim.spec) × (key_of kept.meta ≡ key_of sclaim.meta)
  unfolding ensure_claim_finalizer ◌>>=◌
  ensured sclaim kept w h =
      elim (Bool-cases (contains sclaim.meta.finalizers agent_claim_finalizer)) [
        | inl there ↦
            let same : ok sclaim ≡ ok kept = rw there at h in
            let e = sym (ok_injective sclaim kept same) in
            (ap (λ x. x.spec) e, ap (λ x. key_of x.meta) e)
        | inr missing ↦ local_store.update_answers _ w (rw missing at h)
      ]

  marked :
      (sclaim : ServiceClaim) (text : String) (w : W)
      → (mark_invalid cli set_condition error_text sclaim text w).0 ≡ ok tt
      → (x : ServiceClaim) × (find
            (mark_invalid cli set_condition error_text sclaim text w).1
            (key_of sclaim.meta)
          ≡ some x)
        × (x.status.state ≡ invalid)
  unfolding mark_invalid ◌>>=◌
  marked sclaim text w h =
      let (o', e, _, same) = >>=-eq-ok (cli.service_claims.update_status _) (λ _. pure tt) w h in
      let (x, at, status) = local_store.status_ok _ w e in
      (x, ap (λ p. find p.1 (key_of sclaim.meta)) same ∙ at, ap (λ st. st.state) status)

  denied :
      (sclaim : ServiceClaim) (e : Error) (w : W)
      → (claim_written cli set_condition error_text sclaim (err e) w).0 ≡ ok tt
      → (is_denial (error_text e) ≡ true)
        × ((x : ServiceClaim) × (find
                (claim_written cli set_condition error_text sclaim (err e) w).1
                (key_of sclaim.meta)
              ≡ some x)
            × (x.status.state ≡ invalid))
  unfolding claim_written ◌>>=◌
  denied sclaim e w h = elim (Bool-cases (is_denial (error_text e))) [
    | inl denial ↦ (denial, rw denial (marked sclaim (error_text e) w (rw denial at h)))
    | inr other ↦ let raised : err e ≡ ok tt = rw other at h in cc
  ]

  written :
      (sclaim : ServiceClaim) (d : Deployment) (remote_namespace : String) (w : W)
      → let copy = create_service_claim_copy sclaim d remote_namespace in
        let call = remote.service_claims.create_or_update copy (set_claim_spec copy.spec) w in
        (r : Result ServiceClaim)
        → call.0 ≡ r
        → (claim_written cli set_condition error_text sclaim r call.1).0 ≡ ok tt
        → SentOrDenied error_text find sent remote_namespace
            (key_of sclaim.meta)
            (create_service_claim_copy sclaim d remote_namespace).spec
            (claim_written cli set_condition error_text sclaim r call.1).1
  unfolding create_service_claim_copy claim_written ◌>>=◌
  written sclaim d remote_namespace w (ok o) at h = inl (remote_store.create_or_update_ok _ _ w at)
  written sclaim d remote_namespace w (err e) at h =
      let (denial, stored) = denied sclaim e _ h in inr (e, denial, stored)
  written sclaim d remote_namespace w panic at h = cc

  same_spec :
      (sclaim kept : ServiceClaim) (d : Deployment) (remote_namespace : String)
      → kept.spec ≡ sclaim.spec
      → key_of kept.meta ≡ key_of sclaim.meta
      → (create_service_claim_copy kept d remote_namespace).spec
        ≡ (create_service_claim_copy sclaim d remote_namespace).spec
  unfolding create_service_claim_copy
  same_spec sclaim kept d remote_namespace spec key =
      let of = λ (s : ServiceClaimSpec) (k : Key). record s {
        target = some (record {
          environment_tag = "";
          application_cluster_context = some (record {
            cluster_environment_name = label_of primaza_cluster_environment_label d.labels;
            namespace = k.namespace;
          });
        });
      } in
      ap (λ x. of x (key_of kept.meta)) spec ∙ ap (of sclaim.spec) key

  -- After a claim was sent without an error, the control plane's namespace has a claim of its name with
  -- the specification and the agent's target, or the write failed with the denial of the control
  -- plane's webhook and the claim is stored as invalid. The servers store claims as documented.
  pub send_claim-ok :
      (sclaim : ServiceClaim) (d : Deployment) (remote_namespace : String) (w : W)
      → (send_claim cli set_condition error_text remote remote_namespace sclaim d w).0 ≡ ok tt
      → SentOrDenied error_text find sent remote_namespace
          (key_of sclaim.meta)
          (create_service_claim_copy sclaim d remote_namespace).spec
          (send_claim cli set_condition error_text remote remote_namespace sclaim d w).1
  unfolding send_claim create_service_claim_copy
  send_claim-ok sclaim d remote_namespace w h =
      let (kept, e, h1, same) = >>=-eq-ok (ensure_claim_finalizer cli sclaim) _ w h in
      let copy = create_service_claim_copy kept d remote_namespace in
      let call = remote.service_claims.create_or_update copy (set_claim_spec copy.spec) in
      let world = (ensure_claim_finalizer cli sclaim w).1 in
      let rest = attempt-eq-ok call (claim_written cli set_condition error_text kept) world h1 in
      let (spec, key) = ensured sclaim kept w e in
      let done =
        written kept d remote_namespace world (call world).0 refl (sym (ap (λ p. p.0) rest) ∙ h1) in
      let at = key_of sclaim.meta in
      let after =
        (claim_written cli set_condition error_text kept (call world).0 (call world).1).1 in
      let kept_spec = (create_service_claim_copy kept d remote_namespace).spec in
      let keyed =
        subst (λ k. SentOrDenied error_text find sent remote_namespace k kept_spec after) key
          done in
      subst (SentOrDenied error_text find sent remote_namespace at _)
        (sym (ap (λ p. p.1) (same ∙ rest)))
        (subst (λ x. SentOrDenied error_text find sent remote_namespace at x after)
          (same_spec sclaim kept d remote_namespace spec key) keyed)

module _ {W Config : Type 0} (cli : Cluster W) (platform : Platform W Config)
    (get_primaza_kubeconfig : Action W (Config × String))
    (set_condition : List Condition → Condition → List Condition)
    (error_text : Error → String) where
  -- The control plane's claim was deleted, and then the finalizer was taken off and stored.
  abbrev pub IsWithdrawn : Cluster W → String → ServiceClaim → W → W → Type 0
  IsWithdrawn remote remote_namespace sclaim w final =
      let deletion =
        remote.service_claims.delete
          (record { namespace = remote_namespace; name = sclaim.meta.name }) in
      ((deletion w).0 ≡ ok tt)
      × (last : ServiceClaim) × (cli.service_claims.update
            (with_claim_finalizers (without agent_claim_finalizer sclaim.meta.finalizers) sclaim)
            (deletion w).1
          ≡ (ok last, final))

  withdrawn :
      (remote : Cluster W) (remote_namespace : String) (sclaim : ServiceClaim) (d : Deployment)
      (w : W)
      → contains sclaim.meta.finalizers agent_claim_finalizer ≡ true
      → (withdraw_claim cli remote remote_namespace sclaim d w).0 ≡ ok tt
      → IsWithdrawn remote remote_namespace sclaim w
          (withdraw_claim cli remote remote_namespace sclaim d w).1
  unfolding withdraw_claim create_service_claim_copy pure
  withdrawn remote remote_namespace sclaim d w marked h =
      let deletion =
        remote.service_claims.delete
          (record { namespace = remote_namespace; name = sclaim.meta.name }) in
      let update =
        cli.service_claims.update
          (with_claim_finalizers (without agent_claim_finalizer sclaim.meta.finalizers) sclaim) in
      let ended : ((deletion >> (update >> pure tt)) w).0 ≡ ok tt = rw marked at h in
      let (_, deleted, rest, same1) = >>=-eq-ok deletion (λ _. update >> pure tt) w ended in
      let (last, stored, _, same2) = >>=-eq-ok update (λ _. pure tt) (deletion w).1 rest in
      rw marked (deleted, last, pair_ext _ stored (sym (ap (λ p. p.1) (same1 ∙ same2))))

  agent_found-ok :
      (r : Result Deployment) (w : W) (d : Deployment)
      → (agent_found r w).0 ≡ ok d
      → (r ≡ ok d) × ((agent_found r w).1 ≡ w)
  unfolding agent_found pure crash raise
  agent_found-ok (ok d') w d h = (h, refl)
  agent_found-ok (err e) w d h = elim (Bool-cases (is_not_found e)) [
    | inl gone ↦ let crashed : panic ≡ ok d = rw gone at h in cc
    | inr other ↦ let raised : err e ≡ ok d = rw other at h in cc
  ]
  agent_found-ok panic w d h = cc

  end-IsWithdrawn :
      (remote : Cluster W) (remote_namespace : String) (sclaim : ServiceClaim) (d : Deployment)
      (live : Bool) (other : Action W Unit) (u v : W)
      → has_deletion_timestamp sclaim.meta ≡ true
      → contains sclaim.meta.finalizers agent_claim_finalizer ≡ true
      → u ≡ v
      → let last =
          if not (has_deletion_timestamp sclaim.meta) && live
          then other
          else withdraw_claim cli remote remote_namespace sclaim d in
        (last u).0 ≡ ok tt → IsWithdrawn remote remote_namespace sclaim v (last u).1
  end-IsWithdrawn remote remote_namespace sclaim d live other u v gone marked stays h =
      rw (gone, stays) (withdrawn remote remote_namespace sclaim d v marked (rw (gone, stays) at h))

  found-IsWithdrawn :
      (req : Key) (w1 : W) (sclaim : ServiceClaim)
      → let w2 = (get_primaza_kubeconfig w1).1 in
        let agent =
          cli.deployments.get
            (record { namespace = req.namespace; name = application_agent_deployment_name }) in
        let visit =
          reconcile_agent_claim_found cli platform get_primaza_kubeconfig set_condition error_text
            req
            (ok sclaim)
            w1 in
        has_deletion_timestamp sclaim.meta ≡ true
        → contains sclaim.meta.finalizers agent_claim_finalizer ≡ true
        → visit.0 ≡ ok tt
        → (config : Config) × (remote_namespace : String) × (remote : Cluster W) × (d : Deployment)
          × ((get_primaza_kubeconfig w1).0 ≡ ok (config, remote_namespace))
          × (platform.new_client config ≡ ok remote)
          × ((agent w2).0 ≡ ok d)
          × IsWithdrawn remote remote_namespace sclaim (agent w2).1 visit.1
  unfolding reconcile_agent_claim_found lift
  found-IsWithdrawn req w1 sclaim gone marked h =
      let w2 = (get_primaza_kubeconfig w1).1 in
      let agent =
        cli.deployments.get
          (record { namespace = req.namespace; name = application_agent_deployment_name }) in
      let ((config, ns), pod, h1, same1) = >>=-eq-ok get_primaza_kubeconfig _ w1 h in
      let (remote, client, h2, same2) = >>=-eq-ok (lift (platform.new_client config)) _ w2 h1 in
      let same3 = attempt-eq-ok agent _ w2 h2 in
      let (d, is_d, h4, same4) =
        >>=-eq-ok (agent_found (agent w2).0) _ (agent w2).1 (sym (ap (λ p. p.0) same3) ∙ h2) in
      let (read, stays) = agent_found-ok (agent w2).0 (agent w2).1 d is_d in
      let whole = ap (λ p. p.1) (same1 ∙ same2 ∙ same3 ∙ same4) in
      (
        config,
        ns,
        remote,
        d,
        pod,
        client,
        read,
        subst (IsWithdrawn remote ns sclaim (agent w2).1) (sym whole) (
            end-IsWithdrawn remote ns sclaim d (not (has_deletion_timestamp d.meta))
              (send_claim cli set_condition error_text remote ns sclaim d) _ _ gone marked stays
              h4),
      )

  -- The visit of a claim that is being deleted and has the finalizer returns without an error only if
  -- the control plane was reached and deleted the claim of its name without an error, where not-found
  -- is an error like any other; then the update that takes the finalizer off comes last and succeeds.
  pub reconcile_agent_claim-IsWithdrawn :
      (req : Key) (w : W) (sclaim : ServiceClaim)
      → let w1 = (cli.service_claims.get req w).1 in
        let w2 = (get_primaza_kubeconfig w1).1 in
        let agent =
          cli.deployments.get
            (record { namespace = req.namespace; name = application_agent_deployment_name }) in
        let visit =
          reconcile_agent_claim cli platform get_primaza_kubeconfig set_condition error_text req
            w in
        (cli.service_claims.get req w).0 ≡ ok sclaim
        → has_deletion_timestamp sclaim.meta ≡ true
        → contains sclaim.meta.finalizers agent_claim_finalizer ≡ true
        → visit.0 ≡ ok tt
        → (config : Config) × (remote_namespace : String) × (remote : Cluster W) × (d : Deployment)
          × ((get_primaza_kubeconfig w1).0 ≡ ok (config, remote_namespace))
          × (platform.new_client config ≡ ok remote)
          × ((agent w2).0 ≡ ok d)
          × IsWithdrawn remote remote_namespace sclaim (agent w2).1 visit.1
  unfolding reconcile_agent_claim
  reconcile_agent_claim-IsWithdrawn req w sclaim found gone marked h =
      let w1 = (cli.service_claims.get req w).1 in
      let rest =
        reconcile_agent_claim_found cli platform get_primaza_kubeconfig set_condition error_text
          req in
      let same = attempt-eq-ok (cli.service_claims.get req) rest w h in
      let read : (rest (ok sclaim) w1).0 ≡ ok tt =
        sym (ap (λ p. p.0) same ∙ ap (λ r. (rest r w1).0) found) ∙ h in
      let (config, ns, remote, d, pod, client, agent, done) =
        found-IsWithdrawn req w1 sclaim gone marked read in
      (
        config,
        ns,
        remote,
        d,
        pod,
        client,
        agent,
        subst (IsWithdrawn remote ns sclaim _)
            (sym (ap (λ p. p.1) same ∙ ap (λ r. (rest r w1).1) found)) done,
      )
