-- ===== src/Claims/Matching.antt =====
-- serviceclaim_controller.go: which service fits a claim, and the data of its secret.
use primaza.Common.{
  ℕ, zero, suc, ◌+◌, Bool, true, false, not, ◌&&◌, String, Option, none, some, List, [], ◌∷◌,
}
use primaza.Common.{◌==◌, string_eq, contains, if◌then◌else◌}
use primaza.Common.Errors.{Result, ok, err, panic}
use primaza.Common.Effects.{Action, pure, crash, attempt, ◌>>=◌}
use primaza.Api.{
  insert, lookup, ServiceClassIdentityItem, item_eq, RegisteredService, ServiceClaim, Secret,
}
use primaza.Api.{
  RegisteredServiceConstraints, ServiceEndpointDefinitionItem, ServiceEndpointDefinitionSecretRef,
}
use primaza.Cluster.{Cluster}
use primaza.ClusterContext.{text_or_empty}
use primaza.EnvTag.{matches}

-- `map[ServiceClassIdentityItem]int`
abbrev pub Counts : Type 0
Counts = List (ServiceClassIdentityItem × ℕ)

abbrev pub count_of : ServiceClassIdentityItem → Counts → Option ℕ
count_of item [] = none
count_of item ((i, n) ∷ set) = if item == i then some n else count_of item set

abbrev pub set_count : ServiceClassIdentityItem → ℕ → Counts → Counts
set_count item n [] = (item, n) ∷ []
set_count item n ((i, m) ∷ set) =
    if item == i then (item, n) ∷ set else (i, m) ∷ set_count item n set

abbrev pub or_zero : Option ℕ → ℕ
or_zero none = 0
or_zero (some n) = n

-- `set[value] += 1`, for each item of the registered service.
unfoldable pub count_loop : List ServiceClassIdentityItem → Counts → Counts
count_loop [] set = set
count_loop (value ∷ items) set =
    count_loop items (set_count value (or_zero (count_of value set) + 1) set)

-- The loop over the claim's items.
unfoldable pub subset_loop : List ServiceClassIdentityItem → Counts → Bool
subset_loop [] set = true
subset_loop (value ∷ items) set = elim (count_of value set) [
  | none ↦ false
  | some zero ↦ false
  | some (suc n) ↦ subset_loop items (set_count value n set)
]

-- `checkSCISubset`
unfoldable pub check_sci_subset :
    List ServiceClassIdentityItem → List ServiceClassIdentityItem → Bool
check_sci_subset service_claim registered_service =
    subset_loop service_claim (count_loop registered_service [])

abbrev pub allows : String → Option RegisteredServiceConstraints → Bool
allows env none = true
allows env (some c) = matches env c.environments

-- `checkSCISubset(…) && (rs.Spec.Constraints == nil || envtag.Match(…))`
unfoldable pub fits : ServiceClaim → String → RegisteredService → Bool
fits sclaim env rs =
    check_sci_subset sclaim.spec.service_class_identity rs.spec.service_class_identity
    && allows env rs.spec.constraints

-- The loop that writes the claim's identity over the secret's data.
unfoldable pub overlay :
    List ServiceClassIdentityItem → List (String × String) → List (String × String)
overlay [] text = text
overlay (sci ∷ items) text = overlay items (insert sci.name sci.value text)

module _ {W : Type 0} (cli : Cluster W) where
  -- What one item adds to the secret's data and to the count.
  unfoldable pub secret_item :
      ServiceEndpointDefinitionItem
      → String
      → List (String × String) × ℕ
      → Result Secret
      → Action W (List (String × String) × ℕ)
  secret_item sed k (text, count) (ok sec) =
      pure (insert sed.name (text_or_empty (lookup k sec.content)) text, count + 1)
  secret_item sed k r (err e) = pure r
  secret_item sed k r panic = crash

  -- The branch of an item without a value; it reads through `sed.ValueFromSecret`.
  unfoldable pub referred_item :
      String
      → List String
      → ServiceEndpointDefinitionItem
      → Option ServiceEndpointDefinitionSecretRef
      → List (String × String) × ℕ
      → Action W (List (String × String) × ℕ)
  referred_item namespace sed_keys sed none r = crash
  referred_item namespace sed_keys sed (some ref) r =
      if not (ref.key == "") && contains sed_keys sed.name
      then (do
        sec ← attempt (cli.secrets.get (record { namespace = namespace; name = ref.name }))
        secret_item sed ref.key r sec)
      else pure r

  -- One round of the loop of `extractServiceEndpointDefinition`.
  unfoldable pub extract_item :
      String
      → List String
      → ServiceEndpointDefinitionItem
      → List (String × String) × ℕ
      → Action W (List (String × String) × ℕ)
  extract_item namespace sed_keys sed (text, count) =
      if not (sed.value == "")
      then (if contains sed_keys sed.name
          then pure (insert sed.name sed.value text, count + 1)
          else pure (text, count))
      else referred_item namespace sed_keys sed sed.value_from_secret (text, count)

  unfoldable pub extract_loop :
      String
      → List String
      → List ServiceEndpointDefinitionItem
      → List (String × String) × ℕ
      → Action W (List (String × String) × ℕ)
  extract_loop namespace sed_keys [] r = pure r
  extract_loop namespace sed_keys (sed ∷ rest) r = do
    r' ← extract_item namespace sed_keys sed r
    extract_loop namespace sed_keys rest r'

  -- `extractServiceEndpointDefinition`: the data that it writes to the secret, and the count.
  unfoldable pub extract_service_endpoint_definition :
      String
      → RegisteredService
      → List String
      → List (String × String)
      → Action W (List (String × String) × ℕ)
  extract_service_endpoint_definition namespace rs sed_keys text =
      extract_loop namespace sed_keys rs.spec.service_endpoint_definition (text, 0)
