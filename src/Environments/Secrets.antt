-- ===== src/Environments/Secrets.antt =====
-- controllers/clusterenvironment_controller.go: the secret of an environment, and the configuration that
-- it holds.
use primaza.Common.{String, ◌<>◌, List}
use primaza.Common.Errors.{Error, Result, ok, err, panic, Outcome}
use primaza.Common.Effects.{Action, pure, lift, crash, attempt, ◌>>=◌}
use primaza.Api.{Condition, ObjectMeta, Secret, ClusterEnvironment, offline}
use primaza.Cluster.{Cluster, Platform}
use primaza.ClusterContext.{get_cluster_context_secret, extract_cluster_rest_config}
use primaza.ControlPlane.{ConnectionStatus}
use primaza.Environments.Status.{Tested, update_cluster_environment_status}

-- The server's answer to a write of the status stands over the caller's object.
abbrev pub answered : ClusterEnvironment → Result ClusterEnvironment → Tested (Unit {0})
answered ce (ok ce') = (ce', ok tt)
answered ce (err e) = (ce, err e)
answered ce panic = (ce, panic)

abbrev pub offline_status : String → String → ConnectionStatus
offline_status reason text = record { state = offline; reason = reason; message = text }

-- The error of the write, if it has failed, and else the error that was written.
abbrev pub failed_with : {A : Type 0} → Error → Outcome → Result A
failed_with e (ok _) = err e
failed_with e (err d) = err d
failed_with e panic = panic

abbrev pub failing : {A : Type 0} → Error → Tested (Unit {0}) → Tested A
failing e (ce, outcome) = (ce, failed_with e outcome)

module _ {W Config : Type 0} (cli : Cluster W) (platform : Platform W Config)
    (set_condition : List Condition → Condition → List Condition)
    (error_text : Error → String) where
  -- `updateClusterEnvironmentStatus`, and the write of the status.
  unfoldable pub write_connection :
      ConnectionStatus → ClusterEnvironment → Action W (Tested (Unit {0}))
  write_connection cs ce = do
    let ce' = update_cluster_environment_status set_condition cs ce
    r ← attempt (cli.cluster_environments.update_status ce')
    pure (answered ce' r)

  unfoldable pub context_secret_read : ClusterEnvironment → Result Secret → Action W (Tested Secret)
  context_secret_read ce (ok s) = pure (ce, ok s)
  context_secret_read ce (err e) = do
    t ←
        write_connection
          (offline_status "ClientCreationError"
            ("error retrieving the ClusterContext secret: " <> error_text e))
          ce
    pure (failing e t)
  context_secret_read ce panic = crash

  -- `getClusterContextSecret`
  unfoldable pub read_cluster_context_secret : ClusterEnvironment → Action W (Tested Secret)
  read_cluster_context_secret ce = do
    s ← attempt (get_cluster_context_secret cli platform ce)
    context_secret_read ce s

  abbrev pub stored_or_sent : Secret → Result Secret → Result Secret
  stored_or_sent s (ok s') = ok s'
  stored_or_sent s (err e) = ok s
  stored_or_sent s panic = panic

  unfoldable pub own_secret : Secret → Result ObjectMeta → Action W Secret
  own_secret s (ok owned) = do
    let sent = record s { meta = owned }
    r ← attempt (cli.secrets.update sent)
    lift (stored_or_sent sent r)
  own_secret s (err e) = pure s
  own_secret s panic = crash

  -- `ensureOwnershipOfClusterContextSecret`: its errors are logged only.
  unfoldable pub ensure_ownership_of_cluster_context_secret :
      ClusterEnvironment → Secret → Action W Secret
  ensure_ownership_of_cluster_context_secret ce s =
      own_secret s (platform.set_controller_reference ce.meta s.meta)

  unfoldable pub config_extracted : ClusterEnvironment → Result Config → Action W (Tested Config)
  config_extracted ce (ok cfg) = pure (ce, ok cfg)
  config_extracted ce (err e) = do
    t ←
        write_connection
          (offline_status "ClientCreationError" ("error creating the client: " <> error_text e)) ce
    pure (failing e t)
  config_extracted ce panic = crash

  -- `extractClusterContextRESTConfig`
  unfoldable pub extract_cluster_context_rest_config :
      ClusterEnvironment → Secret → Action W (Tested Config)
  extract_cluster_context_rest_config ce s =
      config_extracted ce (extract_cluster_rest_config cli platform s)

  unfoldable pub secret_retrieved : Tested Secret → Action W (Tested Config)
  secret_retrieved (ce, ok s) = do
    s' ← ensure_ownership_of_cluster_context_secret ce s
    extract_cluster_context_rest_config ce s'
  secret_retrieved (ce, err e) = pure (ce, err e)
  secret_retrieved (ce, panic) = crash

  -- `retrieveClusterContextSecret`
  unfoldable pub retrieve_cluster_context_secret : ClusterEnvironment → Action W (Tested Config)
  retrieve_cluster_context_secret ce = do t ← read_cluster_context_secret ce; secret_retrieved t
