-- ===== src/Authz/Granted.antt =====
-- permissions.go: when a report of a namespace says that all permissions are satisfied.
use primaza.Common.{
  ◌≡◌, ◌≢◌, refl, sym, ◌∙◌, ap, Bool, true, false, String, List, [], ◌∷◌, ◌++◌, arith,
}
use primaza.Common.Errors.{Error, Result, ok, err, panic, ok_injective}
use primaza.Common.Effects.{
  Action, pure, ◌>>=◌, >>=-eq-ok, attempt-eq-ok, attempt-no-panic, pair_ext,
}
use primaza.Authz.Reports.{
  ResourcePermissions, NamespacedPermission, to_namespaced_permissions, AccessReview,
  NamespacedPermissionsReport, empty_report, is_empty, all_satisfied, set_error, record_access,
  check_access, check_each, check_resources, check_permissions_in_namespace,
}

-- Every permission was reviewed in order, and each review answered that it is allowed.
pub data Granted {W : Type 0} (create_review : AccessReview → Action W Bool)
    : List NamespacedPermission → W → W → Type 0 where
  done : (w : W) → Granted create_review [] w w
  allowed :
      (np : NamespacedPermission) {rest : List NamespacedPermission} {w v u : W}
      → check_access create_review np w ≡ (ok true, v)
      → Granted create_review rest v u
      → Granted create_review (np ∷ rest) w u

-- The permissions of a namespace, in the order in which they are reviewed.
abbrev pub permissions_of : String → List ResourcePermissions → List NamespacedPermission
permissions_of namespace [] = []
permissions_of namespace (p ∷ permissions) =
    to_namespaced_permissions p namespace ++ permissions_of namespace permissions

is_empty-append : {A : Type 0} (xs : List A) (a : A) → is_empty (xs ++ (a ∷ [])) ≡ false
is_empty-append [] a = refl
is_empty-append (x ∷ xs) a = refl

is_empty-set_error :
    (np : NamespacedPermission) (e : Error) (m : List (NamespacedPermission × Error))
    → is_empty (set_error np e m) ≡ false
is_empty-set_error np e [] = refl
is_empty-set_error np e ((q, d) ∷ m) = ground arith

-- A report that is satisfied after a review was so before, and the review was allowed.
record_access-satisfied :
    (np : NamespacedPermission) (access : Result Bool) (r : NamespacedPermissionsReport)
    → access ≢ panic
    → all_satisfied (record_access np access r) ≡ true
    → (access ≡ ok true) × (all_satisfied r ≡ true)
unfolding all_satisfied record_access
record_access-satisfied np (ok true) r known h = (refl, h)
record_access-satisfied np (ok false) r known h =
    let failed = is_empty-append r.failed np in (ground arith, ground arith)
record_access-satisfied np (err e) r known h =
    let failed = is_empty-set_error np e r.in_error in (ground arith, ground arith)
record_access-satisfied np panic r known h = absurd (known refl)

module _ {W : Type 0} (create_review : AccessReview → Action W Bool) where
  Granted-append :
      {l k : List NamespacedPermission} {w v u : W}
      → Granted create_review l w v
      → Granted create_review k v u
      → Granted create_review (l ++ k) w u
  Granted-append (done w) b = b
  Granted-append (allowed np call rest) b = allowed np call (Granted-append rest b)

  check_each-Granted :
      (l : List NamespacedPermission) (r r' : NamespacedPermissionsReport) (w : W)
      → (check_each create_review l r w).0 ≡ ok r'
      → all_satisfied r' ≡ true
      → (all_satisfied r ≡ true) × Granted create_review l w (check_each create_review l r w).1
  unfolding check_each pure
  check_each-Granted [] r r' w h s = (ap all_satisfied (ok_injective _ _ h) ∙ s, done w)
  check_each-Granted (np ∷ rest) r r' w h s =
      let same = attempt-eq-ok (check_access create_review np) _ w h in
      let known = attempt-no-panic (check_access create_review np) _ w h in
      let (before, later) = check_each-Granted rest _ r' _ (sym (ap (λ p. p.0) same) ∙ h) s in
      let (yes_np, satisfied) = record_access-satisfied np _ r known before in
      (satisfied, rw same (allowed np (pair_ext _ yes_np refl) later))

  check_resources-Granted :
      (namespace : String) (permissions : List ResourcePermissions)
      (r r' : NamespacedPermissionsReport) (w : W)
      → (check_resources create_review namespace permissions r w).0 ≡ ok r'
      → all_satisfied r' ≡ true
      → (all_satisfied r ≡ true)
        × Granted create_review
            (permissions_of namespace permissions)
            w
            (check_resources create_review namespace permissions r w).1
  unfolding check_resources pure
  check_resources-Granted namespace [] r r' w h s =
      (ap all_satisfied (ok_injective _ _ h) ∙ s, done w)
  check_resources-Granted namespace (p ∷ permissions) r r' w h s =
      let l = to_namespaced_permissions p namespace in
      let (mid, first, rest, same) = >>=-eq-ok (check_each create_review l r) _ w h in
      let (before, later) =
        check_resources-Granted namespace permissions mid r' (check_each create_review l r w).1 rest
          s in
      let (satisfied, granted) = check_each-Granted l r mid w first before in
      (satisfied, rw same (Granted-append granted later))

  Granted-split :
      (l : List NamespacedPermission) {k : List NamespacedPermission} {w u : W}
      → Granted create_review (l ++ k) w u
      → (v : W) × Granted create_review l w v × Granted create_review k v u
  Granted-split [] {w} g = (w, done w, g)
  Granted-split (_ ∷ l) (allowed np call rest) =
      let (v, here, later) = Granted-split l rest in (v, allowed np call here, later)

  Granted-check_each :
      {l : List NamespacedPermission} {w v : W} (r : NamespacedPermissionsReport)
      → Granted create_review l w v
      → (r' : NamespacedPermissionsReport) × (check_each create_review l r w ≡ (ok r', v))
        × (all_satisfied r' ≡ all_satisfied r)
  unfolding check_each ◌>>=◌ record_access all_satisfied
  Granted-check_each r (done w) = (r, refl, refl)
  Granted-check_each r (allowed np call rest) =
      let (r', checked, same) = Granted-check_each (record_access np (ok true) r) rest in
      (r', rw call checked, same)

  Granted-check_resources :
      (namespace : String) (permissions : List ResourcePermissions) {w v : W}
      (r : NamespacedPermissionsReport)
      → Granted create_review (permissions_of namespace permissions) w v
      → (r' : NamespacedPermissionsReport) × (check_resources create_review namespace permissions r
            w
          ≡ (ok r', v))
        × (all_satisfied r' ≡ all_satisfied r)
  unfolding check_resources ◌>>=◌
  Granted-check_resources namespace [] r (done w) = (r, refl, refl)
  Granted-check_resources namespace (p ∷ permissions) r g =
      let (u, here, later) = Granted-split (to_namespaced_permissions p namespace) g in
      let (mid, first, same) = Granted-check_each r here in
      let (r', rest, same') = Granted-check_resources namespace permissions mid later in
      (r', rw (first, rest) refl, same' ∙ same)

  -- A namespace's report says that all permissions are satisfied exactly if every verb of every
  -- permission was reviewed in order and each review answered that it is allowed: a review that
  -- failed or that refused is never lost.
  pub check_permissions_in_namespace_lem :
      (permissions : List ResourcePermissions) (namespace : String) (w : W)
      → ((r : NamespacedPermissionsReport)
          → (check_permissions_in_namespace create_review permissions namespace w).0 ≡ ok r
          → all_satisfied r ≡ true
          → Granted create_review
              (permissions_of namespace permissions)
              w
              (check_permissions_in_namespace create_review permissions namespace w).1)
        × ((v : W)
            → Granted create_review (permissions_of namespace permissions) w v
            → (r : NamespacedPermissionsReport) × (check_permissions_in_namespace create_review
                  permissions namespace w
                ≡ (ok r, v))
              × (all_satisfied r ≡ true))
  unfolding check_permissions_in_namespace all_satisfied
  check_permissions_in_namespace_lem permissions namespace w = (
    λ r h s. (check_resources-Granted namespace permissions empty_report r w h s).1,
    λ v g. Granted-check_resources namespace permissions empty_report g,
  )
