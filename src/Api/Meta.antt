-- ===== src/Api/Meta.antt =====
-- What the program uses of the Kubernetes object metadata.
use primaza.Common.{Bool, true, false, ℕ, String, Option, none, some, List, [], ◌∷◌}
use native.Mathlib.Decide.{ℕ_discrete}
use primaza.Common.{Eq, list_dec, ◌==◌, string_eq, if◌then◌else◌}

-- `types.NamespacedName`, and `ctrl.Request`.
pub record Key : Type 0 where
  pub namespace : String
  pub name : String

key_dec : Discrete Key
key_dec = hlevel string_eq.dec

instance unfoldable pub key_eq : Eq Key
unfolding key_dec
key_eq = record { dec = key_dec }

-- `metav1.OwnerReference`
pub record OwnerReference : Type 0 where
  pub api_version : String
  pub kind : String
  pub name : String
  pub uid : String

-- `metav1.ObjectMeta`
pub record ObjectMeta : Type 0 where
  pub name : String
  pub namespace : String
  pub uid : String
  pub labels : List (String × String)
  pub annotations : List (String × String)
  pub owner_references : List OwnerReference
  pub finalizers : List String
  pub deletion_timestamp : Option String

abbrev pub key_of : ObjectMeta → Key
key_of m = record { namespace = m.namespace; name = m.name }

-- The metadata of a new object.
abbrev pub new_meta : String → String → ObjectMeta
new_meta name namespace = record {
  name = name;
  namespace = namespace;
  uid = "";
  labels = [];
  annotations = [];
  owner_references = [];
  finalizers = [];
  deletion_timestamp = none;
}

-- `metav1.Condition`. A literal of the program leaves the time of the last transition to
-- `SetStatusCondition`, or sets it to the present, as that does.
pub record Condition : Type 0 where
  pub type : String
  pub status : String
  pub reason : String
  pub message : String
  pub observed_generation : ℕ
  pub last_transition_time : Option String

condition_dec : Discrete Condition
condition_dec = hlevel (string_eq.dec, ℕ_discrete)

instance unfoldable pub condition_eq : Eq (List Condition)
unfolding condition_dec
condition_eq = record { dec = list_dec condition_dec }

abbrev pub is_set : {A : Type 0} → Option A → Bool
is_set none = false
is_set (some _) = true

-- `!DeletionTimestamp.IsZero()`
abbrev pub has_deletion_timestamp : ObjectMeta → Bool
has_deletion_timestamp m = is_set m.deletion_timestamp

-- A map from texts to texts: `m[k]`, `m[k] = v`.
abbrev pub lookup : {V : Type 0} → String → List (String × V) → Option V
lookup k [] = none
lookup k ((j, v) ∷ m) = if j == k then some v else lookup k m

abbrev pub insert : {V : Type 0} → String → V → List (String × V) → List (String × V)
insert k v [] = (k, v) ∷ []
insert k v ((j, w) ∷ m) = if j == k then (k, v) ∷ m else (j, w) ∷ insert k v m
