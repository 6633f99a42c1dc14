-- ===== src/Authz/Reports.antt =====
-- types.go, and the permission test of permissions.go.
use primaza.Common.{Bool, true, false, ◌&&◌, String, ◌<>◌, List, [], ◌∷◌, ◌++◌, map}
use primaza.Common.{Eq, ◌==◌, string_eq, if◌then◌else◌}
use primaza.Common.Errors.{Error, Result, ok, err, panic}
use primaza.Common.Effects.{Action, pure, attempt, ◌>>=◌}

pub record ResourcePermissions : Type 0 where
  pub verbs : List String
  pub group : String
  pub version : String
  pub resource : String
  pub name : String

pub record NamespacedPermission : Type 0 where
  pub verb : String
  pub group : String
  pub version : String
  pub resource : String
  pub namespace : String
  pub name : String

permission_dec : Discrete NamespacedPermission
permission_dec = hlevel string_eq.dec

instance unfoldable pub permission_eq : Eq NamespacedPermission
unfolding permission_dec
permission_eq = record { dec = permission_dec }

-- `toNamespacedPermissions`
unfoldable pub to_namespaced_permissions : ResourcePermissions → String → List NamespacedPermission
to_namespaced_permissions r namespace =
    map
      (λ v. record {
        verb = v;
        group = r.group;
        version = r.version;
        resource = r.resource;
        namespace = namespace;
        name = r.name;
      })
      r.verbs

-- `NamespacedPermission.String`
unfoldable pub permission_text : NamespacedPermission → String
permission_text p =
    if p.name == ""
    then p.verb <> " " <> p.resource <> "." <> p.group <> "/" <> p.version <> " in " <> p.namespace
    else p.verb <> " " <> p.resource <> "." <> p.group <> "/" <> p.version <> " " <> p.name
      <> " in " <> p.namespace

-- `SelfSubjectAccessReview`, at the attributes that the program sets.
pub record AccessReview : Type 0 where
  pub meta_namespace : String
  pub verb : String
  pub version : String
  pub group : String
  pub resource : String
  pub namespace : String
  pub name : String

-- `selfSubjectAccessReview`
unfoldable pub self_subject_access_review : NamespacedPermission → AccessReview
self_subject_access_review np = record {
  meta_namespace = np.namespace;
  verb = np.verb;
  version = np.version;
  group = np.group;
  resource = np.resource;
  namespace = np.namespace;
  name = np.name;
}

pub record NamespacedPermissionsReport : Type 0 where
  pub satisfied : List NamespacedPermission
  pub failed : List NamespacedPermission
  pub in_error : List (NamespacedPermission × Error)

abbrev pub empty_report : NamespacedPermissionsReport
empty_report = record { satisfied = []; failed = []; in_error = [] }

abbrev pub is_empty {ℓ} : {A : Type ℓ} → List A → Bool
is_empty [] = true
is_empty (_ ∷ _) = false

-- `AllSatisfied`
unfoldable pub all_satisfied : NamespacedPermissionsReport → Bool
all_satisfied r = is_empty r.failed && is_empty r.in_error

-- `r.InError[np] = err`
abbrev pub set_error :
    NamespacedPermission
    → Error
    → List (NamespacedPermission × Error)
    → List (NamespacedPermission × Error)
set_error np e [] = (np, e) ∷ []
set_error np e ((q, d) ∷ m) = if np == q then (np, e) ∷ m else (q, d) ∷ set_error np e m

-- The cases of `checkPermissionsInNamespace`, with the report's methods.
unfoldable pub record_access :
    NamespacedPermission → Result Bool → NamespacedPermissionsReport → NamespacedPermissionsReport
record_access np (err e) r = record r { in_error = set_error np e r.in_error }
record_access np (ok false) r = record r { failed = r.failed ++ (np ∷ []) }
record_access np (ok true) r = record r { satisfied = r.satisfied ++ (np ∷ []) }
record_access np panic r = r

-- A map from texts, written to at a key.
abbrev pub set_report :
    String
    → NamespacedPermissionsReport
    → List (String × NamespacedPermissionsReport)
    → List (String × NamespacedPermissionsReport)
set_report ns r [] = (ns, r) ∷ []
set_report ns r ((n, q) ∷ m) = if ns == n then (ns, r) ∷ m else (n, q) ∷ set_report ns r m

-- `SelfSubjectAccessReviews().Create`, whose answer is `Status.Allowed`.
module _ {W : Type 0} (create_review : AccessReview → Action W Bool) where
  -- `checkAccess`
  unfoldable pub check_access : NamespacedPermission → Action W Bool
  check_access np = create_review (self_subject_access_review np)

  unfoldable pub check_each :
      List NamespacedPermission → NamespacedPermissionsReport → Action W NamespacedPermissionsReport
  check_each [] r = pure r
  check_each (np ∷ rest) r = do
    access ← attempt (check_access np)
    check_each rest (record_access np access r)

  unfoldable pub check_resources :
      String
      → List ResourcePermissions
      → NamespacedPermissionsReport
      → Action W NamespacedPermissionsReport
  check_resources namespace [] r = pure r
  check_resources namespace (p ∷ permissions) r = do
    r' ← check_each (to_namespaced_permissions p namespace) r
    check_resources namespace permissions r'

  -- `checkPermissionsInNamespace`
  unfoldable pub check_permissions_in_namespace :
      List ResourcePermissions → String → Action W NamespacedPermissionsReport
  check_permissions_in_namespace permissions namespace =
      check_resources namespace permissions empty_report

  unfoldable pub check_namespaces :
      List ResourcePermissions
      → List String
      → List (String × NamespacedPermissionsReport)
      → Action W (List (String × NamespacedPermissionsReport))
  check_namespaces permissions [] rr = pure rr
  check_namespaces permissions (ns ∷ namespaces) rr = do
    r ← check_permissions_in_namespace permissions ns
    check_namespaces permissions namespaces (set_report ns r rr)

  -- `checkPermissions`
  unfoldable pub check_permissions :
      List String
      → List ResourcePermissions
      → Action W (List (String × NamespacedPermissionsReport))
  check_permissions namespaces permissions = check_namespaces permissions namespaces []
