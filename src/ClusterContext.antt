-- ===== src/ClusterContext.antt =====
-- pkg/primaza/clustercontext/clustercontext.go: the client of a cluster environment's cluster.
use primaza.Common.{String, Option, none, some, if◌then◌else◌}
use primaza.Common.Errors.{Result, ok, err, panic, joined, secret_not_found, is_not_found}
use primaza.Common.Effects.{Action, pure, raise, lift, crash, attempt, ◌>>=◌}
use primaza.Api.{Secret, ClusterEnvironment, lookup}
use primaza.Cluster.{Cluster, Platform}

-- A missing key of a map of texts reads as the empty text.
abbrev pub text_or_empty : Option String → String
text_or_empty none = ""
text_or_empty (some s) = s

module _ {W Config : Type 0} (cli : Cluster W) (platform : Platform W Config) where
  unfoldable pub secret_of : Result Secret → Action W Secret
  secret_of (ok s) = pure s
  secret_of (err e) = raise (if is_not_found e then joined secret_not_found e else e)
  secret_of panic = crash

  -- `getSecret`
  unfoldable pub get_secret : String → String → Action W Secret
  unfolding secret_of
  get_secret secret_namespace secret_name = do
    found ← attempt (cli.secrets.get (record { namespace = secret_namespace; name = secret_name }))
    secret_of found

  -- `ExtractClusterRESTConfig`
  unfoldable pub extract_cluster_rest_config : Secret → Result Config
  extract_cluster_rest_config s =
      platform.rest_config_from_kubeconfig (text_or_empty (lookup "kubeconfig" s.content))

  -- `GetClusterRESTConfig`
  unfoldable pub get_cluster_rest_config : String → String → Action W Config
  unfolding get_secret extract_cluster_rest_config
  get_cluster_rest_config secret_namespace secret_name = do
    s ← get_secret secret_namespace secret_name
    lift (extract_cluster_rest_config s)

  -- `GetClusterContextSecret`
  unfoldable pub get_cluster_context_secret : ClusterEnvironment → Action W Secret
  unfolding get_secret
  get_cluster_context_secret ce = get_secret ce.meta.namespace ce.spec.cluster_context_secret

  -- `CreateClient`
  unfoldable pub create_client : ClusterEnvironment → Action W (Cluster W)
  unfolding get_cluster_rest_config
  create_client ce = do
    cfg ← get_cluster_rest_config ce.meta.namespace ce.spec.cluster_context_secret
    lift (platform.new_client cfg)
