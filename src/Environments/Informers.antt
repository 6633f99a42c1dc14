-- ===== src/Environments/Informers.antt =====
-- controllers/clusterenvironment_controller_svcinformers.go and _appinformers.go: the informers that
-- watch the namespaces of an environment.
use primaza.Common.{Bool, true, false, not, String, ◌<>◌, List, ◌∷◌, keep, without, contains}
use primaza.Common.{string_eq}
use primaza.Common.Errors.{ok, message, join, join_all}
use primaza.Common.Effects.{
  Action, pure, raise, lift, attempt, ◌>>=◌, ◌>>◌, when, collect_errors, each,
}
use primaza.Api.{ClusterEnvironment}
use primaza.Slices.{subtract}

-- One of the two maps of informers, of which the model has the keys, and what client-go does for it:
-- `start` makes the informer of a namespace, with its handlers.
pub record EnvironmentInformers (W Config : Type 0) : Type 0 where
  pub running : W → List String
  pub set_running : List String → W → W
  pub start : Config → ClusterEnvironment → String → Action W (Unit {0})
  pub stop : String → Action W (Unit {0})
  pub wait_for_cache_sync : Action W Bool

abbrev pub informer_name : String → String → String
informer_name ce_name namespace = ce_name <> "/" <> namespace

module _ {W Config : Type 0} (informers : EnvironmentInformers W Config) where
  abbrev pub known_informers : Action W (List String)
  known_informers w = (ok (informers.running w), w)

  abbrev pub store_informers : List String → Action W (Unit {0})
  store_informers l w = (ok tt, informers.set_running l w)

  -- The loop that stops informers.
  unfoldable pub stop_stale : String → Action W Unit
  stop_stale name = do
    informers.stop name
    known ← known_informers
    store_informers (without name known)

  unfoldable pub informer_synced : String → Bool → Action W Unit
  informer_synced name true = pure tt
  informer_synced name false = do
    informers.stop name
    known ← known_informers
    store_informers (without name known)
    raise (message "could not sync cache")

  -- `RunSvcInformer` and `RunAppInformer`
  unfoldable pub run_informer : Config → ClusterEnvironment → String → Action W Unit
  run_informer cfg ce namespace = do
    let name = informer_name ce.meta.name namespace
    known ← known_informers
    when (not (contains known name)) (do
      informers.start cfg ce namespace
      now ← known_informers
      store_informers (name ∷ now)
      synced ← informers.wait_for_cache_sync
      informer_synced name synced)

  -- "running" minus "to watch": the keys of the one are names of informers, of the other namespaces.
  unfoldable pub stale_informers : List String → List String → List String
  stale_informers running watched = keep (λ n. not (contains watched n)) running

  unfoldable pub stop_informers : List String → Action W Unit
  stop_informers watched = do
    known ← known_informers
    each stop_stale (stale_informers known watched)

  -- `RunSvcInformers` and `RunAppInformers`, at the declared namespaces.
  unfoldable pub run_informers_in :
      Config → ClusterEnvironment → List String → List String → Action W Unit
  run_informers_in cfg ce declared failed = do
    let watched = subtract declared failed
    stop_informers watched
    errs ← collect_errors (run_informer cfg ce) watched
    lift (join_all errs)

module _ {W Config : Type 0} (svc app : EnvironmentInformers W Config) where
  -- `runInformers`
  unfoldable pub run_informers :
      Config → ClusterEnvironment → List String → List String → Action W Unit
  run_informers cfg ce fsnn fann = do
    s ← attempt (run_informers_in svc cfg ce ce.spec.service_namespaces fsnn)
    a ← attempt (run_informers_in app cfg ce ce.spec.application_namespaces fann)
    lift (join s a)
