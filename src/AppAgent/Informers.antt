-- ===== src/AppAgent/Informers.antt =====
-- servicebinding_controller_informers.go: the informers that the agent runs for its bindings.
use primaza.Common.{Bool, true, false, not, String, List, ◌∷◌, without, contains}
use primaza.Common.{string_eq}
use primaza.Common.Errors.{Result, ok, message}
use primaza.Common.Effects.{Action, pure, raise, lift, ◌>>=◌, ◌>>◌, when}
use primaza.Api.{ServiceBinding}

-- What the reconciler takes from client-go's informers, and its own map of them, of which the model
-- has the keys: `RESTMapping`, the start of an informer with its handlers, and `WaitForCacheSync`.
pub record Informers (W Resource : Type 0) : Type 0 where
  pub rest_mapping : String → String → Result Resource
  pub running : W → List String
  pub set_running : List String → W → W
  pub start : Resource → ServiceBinding → Action W (Unit {0})
  pub stop : String → Action W (Unit {0})
  pub wait_for_cache_sync : Action W Bool

module _ {W Resource : Type 0} (informers : Informers W Resource) where
  abbrev pub get_running : Action W (List String)
  get_running w = (ok (informers.running w), w)

  abbrev pub put_running : List String → Action W (Unit {0})
  put_running l w = (ok tt, informers.set_running l w)

  unfoldable pub check_synced : String → Bool → Action W Unit
  check_synced name true = pure tt
  check_synced name false = do
    informers.stop name
    now ← get_running
    put_running (without name now)
    raise (message "could not sync cache")

  -- `ensureInformerIsRunningForResource`
  unfoldable pub ensure_informer_is_running_for_resource : Resource → ServiceBinding → Action W Unit
  ensure_informer_is_running_for_resource resource sb = do
    known ← get_running
    when (not (contains known sb.meta.name)) (do
      informers.start resource sb
      put_running (sb.meta.name ∷ known)
      synced ← informers.wait_for_cache_sync
      check_synced sb.meta.name synced)

  -- `ensureInformerIsRunningForServiceBinding`
  unfoldable pub ensure_informer_is_running_for_service_binding : ServiceBinding → Action W Unit
  ensure_informer_is_running_for_service_binding sb = do
    resource ←
        lift (informers.rest_mapping sb.spec.application.kind sb.spec.application.api_version)
    ensure_informer_is_running_for_resource resource sb

  -- The first lines of `finalizeServiceBinding`.
  unfoldable pub stop_informer : String → Action W Unit
  stop_informer name = do
    known ← get_running
    when (contains known name) (do informers.stop name; put_running (without name known))
