-- ===== src/Environments/Laws.antt =====
-- Which services a new catalog of an environment lists.
use primaza.Common.{
  ◌≡◌, refl, Bool, ◌&&◌, String, List, [], ◌∷◌, any, arith, Option-cases, inl, inr,
}
use primaza.Common.{◌==◌, string_eq}
use primaza.Api.{RegisteredService, ClusterEnvironment}
use primaza.Api.{available, service_state_eq, get_environment_constraints, RegisteredServiceSpec}
use primaza.EnvTag.{matches}
use primaza.Environments.{offered_services, new_catalog, allows_environment}
use primaza.Registered.Entries.{lists}

-- A registered service of that name is available and its constraints allow the environment, by the
-- test that the handler of registered services makes.
abbrev pub offers : String → String → RegisteredService → Bool
offers env name rs =
    rs.meta.name == name
    && (rs.status.state == available && matches env (get_environment_constraints rs.spec))

allows_environment-matches :
    (spec : RegisteredServiceSpec) (env : String)
    → allows_environment spec.constraints env ≡ matches env (get_environment_constraints spec)
unfolding matches get_environment_constraints
allows_environment-matches spec env = elim (Option-cases spec.constraints) [
  | inl h ↦ rw h refl
  | inr (c, h) ↦ rw h refl
]

-- A catalog that is made for an environment lists a name exactly if one of the registered services
-- has that name, is available, and has constraints that allow the environment by the test that the
-- handler of registered services makes.
pub new_catalog-lists :
    (ce : ClusterEnvironment) (rsl : List RegisteredService) (name : String)
    → lists (new_catalog ce rsl).spec.services name ≡ any (offers ce.spec.environment_name name) rsl
unfolding offered_services
new_catalog-lists ce [] name = refl
new_catalog-lists ce (rs ∷ rsl) name = ground (
  arith,
  new_catalog-lists ce rsl name,
  allows_environment-matches rs.spec ce.spec.environment_name,
)
