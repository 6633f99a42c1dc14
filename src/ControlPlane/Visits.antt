-- ===== src/ControlPlane/Visits.antt =====
-- namespaces_binder.go, namespaces_unbinder.go: the loops over namespaces as sequences of calls.
use primaza.Common.{
  ◌≡◌, ◌≢◌, refl, sym, ◌∙◌, ap, String, ◌<>◌, List, [], ◌∷◌, ◌++◌, not, ◌&&◌, contains, string_eq,
  Distinct,
}
use primaza.Common.Errors.{Error, ok, err, panic, message, Outcome, ok_injective}
use primaza.Common.Effects.{
  Action, ◌>>=◌, pure, lift, >>=-eq-ok, attempt-eq-ok, attempt-no-panic, pair_ext,
}
use primaza.Common.{some}
use primaza.Cluster.{Cluster}
use primaza.Cluster.Builtin.{RoleBinding}
use primaza.ControlPlane.Agents.{Manifests}
use primaza.ControlPlane.Naming.{NamespaceType, role_bindings_label_selector}
use primaza.ControlPlane.Namespaces.{
  spaced, failed_at, visit_namespaces, report, Binder, bind_namespace, bind_namespaces, Unbinder,
  unbind_namespace, unbind_namespaces, EnvironmentState, get_orphan_namespaces,
  get_authorized_namespaces, labelled_namespaces,
}
use primaza.Slices.{subtract}
use primaza.Slices.Laws.{subtract_lem}

-- A call for each namespace in order, in the world that the call before has left: the namespaces
-- at which it failed.
pub data Visits {W : Type 0} (f : String → Action W (Unit {0}))
    : List String → W → List String → W → Type 0 where
  done : (w : W) → Visits f [] w [] w
  passed :
      (ns : String) {rest : List String} {w v u : W} {ens : List String}
      → f ns w ≡ (ok tt, v)
      → Visits f rest v ens u
      → Visits f (ns ∷ rest) w ens u
  failed :
      (ns : String) {rest : List String} {w v u : W} {ens : List String} (e : Error)
      → f ns w ≡ (err e, v)
      → Visits f rest v ens u
      → Visits f (ns ∷ rest) w (ns ∷ ens) u

module _ {W : Type 0} (f : String → Action W (Unit {0})) where
  round :
      (ns : String) (rest : List String) (w v : W) (r : Outcome) (ens : List String)
      → f ns w ≡ (r, v)
      → r ≢ panic
      → ((visit_namespaces f rest >>= λ later. pure (failed_at ns r ++ later)) v).0 ≡ ok ens
      → ((later : List String)
          → (visit_namespaces f rest v).0 ≡ ok later
          → Visits f rest v later (visit_namespaces f rest v).1)
      → Visits f
          (ns ∷ rest)
          w
          ens
          ((visit_namespaces f rest >>= λ later. pure (failed_at ns r ++ later)) v).1
  unfolding pure
  round ns rest w v (ok _) ens call np h ih =
      let (later, visited, all, same) = >>=-eq-ok (visit_namespaces f rest) _ v h in
      rw (same, sym (ok_injective _ _ all)) (passed ns call (ih later visited))
  round ns rest w v (err e) ens call np h ih =
      let (later, visited, all, same) = >>=-eq-ok (visit_namespaces f rest) _ v h in
      rw (same, sym (ok_injective _ _ all)) (failed ns e call (ih later visited))
  round ns rest w v panic ens call np h ih = absurd (np refl)

  visit_namespaces-Visits :
      (namespaces : List String) (w : W) (ens : List String)
      → (visit_namespaces f namespaces w).0 ≡ ok ens
      → Visits f namespaces w ens (visit_namespaces f namespaces w).1
  unfolding visit_namespaces pure
  visit_namespaces-Visits [] w ens h = rw (sym (ok_injective _ _ h)) (done w)
  visit_namespaces-Visits (ns ∷ rest) w ens h =
      let same = attempt-eq-ok (f ns) _ w h in
      rw same (
        round ns rest w _ _ ens (pair_ext (f ns w) refl refl) (attempt-no-panic (f ns) _ w h)
          (sym (ap (λ p. p.0) same) ∙ h) (λ later. visit_namespaces-Visits rest (f ns w).1 later))

  Visits-result :
      {namespaces : List String} {w v : W} {ens : List String}
      → Visits f namespaces w ens v
      → visit_namespaces f namespaces w ≡ (ok ens, v)
  unfolding visit_namespaces ◌>>=◌
  Visits-result (done w) = refl
  Visits-result (passed ns call rest) = rw (call, Visits-result rest) refl
  Visits-result (failed ns e call rest) = rw (call, Visits-result rest) refl

  reported :
      (text : String) (namespaces : List String) (w : W)
      → ((visit_namespaces f namespaces >>= λ ens. lift (report text ens)) w).0 ≡ ok tt
      → Visits f namespaces w []
          ((visit_namespaces f namespaces >>= λ ens. lift (report text ens)) w).1
  unfolding lift report
  reported text namespaces w h =
      let (ens, visited, none_failed, same) = >>=-eq-ok (visit_namespaces f namespaces) _ w h in
      rw (ap (λ p. p.1) same)
        (no_report ens none_failed (visit_namespaces-Visits namespaces w ens visited))
    where
      no_report :
          (ens : List String) {v : W}
          → report text ens ≡ ok tt
          → Visits f namespaces w ens v
          → Visits f namespaces w [] v
      no_report [] o visits = visits
      no_report (ns ∷ ens) o visits = cc

  reports :
      (text : String) (namespaces : List String) (w v : W) (ens : List String)
      → Visits f namespaces w ens v
      → (visit_namespaces f namespaces >>= λ ens. lift (report text ens)) w ≡ (report text ens, v)
  unfolding ◌>>=◌
  reports text namespaces w v ens visits = rw (Visits-result visits) refl

module _ {W : Type 0} (pcli wcli : Cluster W) (manifests : Manifests) where
  -- Binding namespaces tries each of them in order, and goes on after an error. It returns no error only
  -- if every one was bound; if it has failed at some of them, it ends with the error whose text has
  -- their names, in order.
  pub bind_namespaces_lem :
      (b : Binder) (ce_name ce_namespace : String) (namespaces : List String) (w : W)
      → ((bind_namespaces pcli wcli manifests b ce_name ce_namespace namespaces w).0 ≡ ok tt
          → Visits
              (bind_namespace pcli wcli manifests b ce_name ce_namespace)
              namespaces
              w
              []
              (bind_namespaces pcli wcli manifests b ce_name ce_namespace namespaces w).1)
        × ((v : W)
            → Visits (bind_namespace pcli wcli manifests b ce_name ce_namespace) namespaces w [] v
            → bind_namespaces pcli wcli manifests b ce_name ce_namespace namespaces w ≡ (ok tt, v))
        × ((ns : String) (ens : List String) (v : W)
            → Visits
                (bind_namespace pcli wcli manifests b ce_name ce_namespace)
                namespaces
                w
                (ns ∷ ens)
                v
            → bind_namespaces pcli wcli manifests b ce_name ce_namespace namespaces w ≡ (
              err (message ("error binding namespaces" <> ": [" <> spaced (ns ∷ ens) <> "]")),
              v,
            ))
  unfolding bind_namespaces report
  bind_namespaces_lem b ce_name ce_namespace namespaces w =
      let f = bind_namespace pcli wcli manifests b ce_name ce_namespace in
      (
        reported f _ namespaces w,
        λ v. reports f _ namespaces w v [],
        λ ns ens v. reports f _ namespaces w v (ns ∷ ens),
      )

  -- Unbinding namespaces tries each of them in order, and goes on after an error. It returns no error only
  -- if every one was unbound; if it has failed at some of them, it ends with the error whose text has
  -- their names, in order.
  unbind_namespaces_lem :
      (u : Unbinder) (ce_name ce_namespace : String) (namespaces : List String) (w : W)
      → ((unbind_namespaces pcli wcli manifests u ce_name ce_namespace namespaces w).0 ≡ ok tt
          → Visits
              (unbind_namespace pcli wcli manifests u ce_name ce_namespace)
              namespaces
              w
              []
              (unbind_namespaces pcli wcli manifests u ce_name ce_namespace namespaces w).1)
        × ((v : W)
            → Visits (unbind_namespace pcli wcli manifests u ce_name ce_namespace) namespaces w [] v
            → unbind_namespaces pcli wcli manifests u ce_name ce_namespace namespaces w
              ≡ (ok tt, v))
        × ((ns : String) (ens : List String) (v : W)
            → Visits
                (unbind_namespace pcli wcli manifests u ce_name ce_namespace)
                namespaces
                w
                (ns ∷ ens)
                v
            → unbind_namespaces pcli wcli manifests u ce_name ce_namespace namespaces w ≡ (
              err (message ("error unbinding namespaces" <> ": [" <> spaced (ns ∷ ens) <> "]")),
              v,
            ))
  unfolding unbind_namespaces report
  unbind_namespaces_lem u ce_name ce_namespace namespaces w =
      let f = unbind_namespace pcli wcli manifests u ce_name ce_namespace in
      (
        reported f _ namespaces w,
        λ v. reports f _ namespaces w v [],
        λ ns ens v. reports f _ namespaces w v (ns ∷ ens),
      )

  -- The namespaces that are unbound as orphans are those that a listed role binding names and that
  -- are not requested, each once.
  pub get_orphan_namespaces_lem :
      (e : EnvironmentState) (kind : NamespaceType) (requested : List String) (w : W)
      (nn : List String)
      → (get_orphan_namespaces pcli wcli manifests e kind requested w).0 ≡ ok nn
      → (rbb : List RoleBinding) × ((pcli.role_bindings.list
            (record {
              namespace = some e.namespace;
              labels = role_bindings_label_selector e.name kind;
            })
            w).0
          ≡ ok rbb)
        × Distinct nn
        × ((ns : String)
            → contains nn ns
              ≡ (contains (labelled_namespaces rbb) ns && not (contains requested ns)))
  unfolding get_orphan_namespaces get_authorized_namespaces pure
  get_orphan_namespaces_lem e kind requested w nn h =
      let (ann, authorized, same, _) =
        >>=-eq-ok (get_authorized_namespaces pcli wcli manifests e kind) _ w h in
      let (rbb, listed, labelled, _) = >>=-eq-ok (pcli.role_bindings.list _) _ w authorized in
      let (once, members) = subtract_lem (labelled_namespaces rbb) requested in
      let orphans : nn ≡ subtract (labelled_namespaces rbb) requested =
        sym (ok_injective _ _ same)
        ∙ ap (λ l. subtract l requested) (sym (ok_injective _ _ labelled)) in
      (rbb, listed, rw orphans once, rw orphans members)
