-- ===== src/Environments/Monitor.antt =====
-- controllers/clusterenvironment_controller.go: a round of `MonitorHealth`, which repeats without end.
use primaza.Common.{Bool, true, false, ◌||◌, String, ◌<>◌, List, []}
use primaza.Common.{if◌then◌else◌}
use primaza.Common.Errors.{
  Error, Result, ok, err, panic, api, message, wrapped, joined, secret_not_found,
}
use primaza.Common.Effects.{Action, pure, crash, attempt, ◌>>=◌, ◌>>◌, each}
use primaza.Api.{Condition, ClusterEnvironment}
use primaza.Cluster.{Cluster, Platform, in_namespace}
use primaza.Environments.Status.{
  Reviews, Tested, test_connection, check_excess_permissions, test_namespaces_permissions,
}
use primaza.Environments.Secrets.{offline_status, write_connection, retrieve_cluster_context_secret}

-- `errors.Is(err, clustercontext.ErrSecretNotFound)`
abbrev pub is_secret_not_found : Error → Bool
is_secret_not_found (api r) = false
is_secret_not_found (message m) = false
is_secret_not_found (wrapped m e) = is_secret_not_found e
is_secret_not_found (joined d e) = is_secret_not_found d || is_secret_not_found e
is_secret_not_found secret_not_found = true

abbrev pub listed_environments : Result (List ClusterEnvironment) → List ClusterEnvironment
listed_environments (ok l) = l
listed_environments (err e) = []
listed_environments panic = []

module _ {W Config : Type 0} (cli : Cluster W) (platform : Platform W Config)
    (reviews : Reviews W Config) (set_condition : List Condition → Condition → List Condition)
    (error_text : Error → String) where
  abbrev pub write_offline : String → String → ClusterEnvironment → Action W (Tested (Unit {0}))
  write_offline reason text ce =
      write_connection cli platform set_condition error_text (offline_status reason text) ce

  -- The status write that ends a round.
  unfoldable pub commit_status : ClusterEnvironment → Action W Unit
  commit_status ce = do attempt (cli.cluster_environments.update_status ce); pure tt

  unfoldable pub monitor_excess : Config → ClusterEnvironment → Action W Unit
  monitor_excess cfg ce = do
    (ce', _) ← check_excess_permissions set_condition platform reviews cfg ce
    commit_status ce'

  -- After a test that has failed: the next step follows only if the status was written.
  unfoldable pub if_written :
      (ClusterEnvironment → Action W Unit) → Tested (Unit {0}) → Action W Unit
  if_written next (ce, ok _) = next ce
  if_written next (ce, err e) = pure tt
  if_written next (ce, panic) = crash

  unfoldable pub permissions_monitored : Config → Tested (List String × List String) → Action W Unit
  permissions_monitored cfg (ce, ok _) = monitor_excess cfg ce
  permissions_monitored cfg (ce, err e) = do
    t ← write_offline "HealthCheckFailed" ("permission test failed: " <> error_text e) ce
    if_written (monitor_excess cfg) t
  permissions_monitored cfg (ce, panic) = crash

  unfoldable pub monitor_permissions : Config → ClusterEnvironment → Action W Unit
  monitor_permissions cfg ce = do
    t ← test_namespaces_permissions set_condition platform reviews cfg ce
    permissions_monitored cfg t

  unfoldable pub connection_monitored : Config → Tested (Unit {0}) → Action W Unit
  connection_monitored cfg (ce, ok _) = monitor_permissions cfg ce
  connection_monitored cfg (ce, err e) = do
    t ← write_offline "HealthCheckFailed" ("connection test failed: " <> error_text e) ce
    if_written (monitor_permissions cfg) t
  connection_monitored cfg (ce, panic) = crash

  unfoldable pub secret_missed : Error → ClusterEnvironment → Action W ClusterEnvironment
  secret_missed e ce =
      if is_secret_not_found e
      then (do
        (ce', _) ←
            write_offline "ErrorDuringHealthCheck" ("error creating the client: " <> error_text e)
              ce
        pure ce')
      else pure ce

  unfoldable pub secret_monitored : Tested Config → Action W Unit
  secret_monitored (ce, ok cfg) = do
    t ← test_connection set_condition platform reviews cfg ce
    connection_monitored cfg t
  secret_monitored (ce, err e) = do
    ce' ← secret_missed e ce
    write_offline "ErrorDuringHealthCheck" "kubeclient config is empty" ce'
    pure tt
  secret_monitored (ce, panic) = crash

  -- The body of the loop over the environments.
  unfoldable pub monitor_environment : ClusterEnvironment → Action W Unit
  monitor_environment ce = do
    t ← retrieve_cluster_context_secret cli platform set_condition error_text ce
    secret_monitored t

  -- A round of `MonitorHealth`
  unfoldable pub monitor_health : String → Action W Unit
  monitor_health ns = do
    listed ← attempt (cli.cluster_environments.list (in_namespace ns))
    each monitor_environment (listed_environments listed)
