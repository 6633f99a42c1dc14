-- ===== src/Registered/Entries.antt =====
-- One catalog: what adding and removing a service does to its list.
use primaza.Common.{◌≡◌, refl, ◌∙◌, ℕ, suc, Bool, true, false, not, ◌&&◌, ◌||◌, String}
use primaza.Common.{none, some, List, [], ◌∷◌, ◌++◌, take, drop, arith, any}
use primaza.Common.{◌==◌, string_eq, Bool-cases, inl, inr, Option-cases, ◌⊎◌}
use primaza.Api.{ServiceCatalogService}
use primaza.Registered.Catalogs.{index_of_service}

-- The catalog lists a service of that name.
abbrev pub lists : List ServiceCatalogService → String → Bool
lists services name = any (λ s. s.name == name) services

-- No two services of the catalog have one name.
abbrev pub UniqueNames : List ServiceCatalogService → Type 0
UniqueNames [] = Unit
UniqueNames (s ∷ services) = (lists services s.name ≡ false) × UniqueNames services

pub index-none :
    (services : List ServiceCatalogService) (name : String)
    → index_of_service services name ≡ none
    → lists services name ≡ false
unfolding index_of_service
index-none [] name h = refl
index-none (s ∷ services) name h = ground (arith, index-none services name)

index-nil : (name : String) → index_of_service [] name ≡ none
unfolding index_of_service
index-nil name = refl

-- An index that was found is that of the first entry, or one further on in the rest.
index-some :
    (s : ServiceCatalogService) (services : List ServiceCatalogService) (name : String) (i : ℕ)
    → index_of_service (s ∷ services) name ≡ some i
    → ((i ≡ 0) × ((s.name == name) ≡ true))
      ⊎ ((j : ℕ) × (i ≡ suc j)
          × (index_of_service services name ≡ some j)
          × ((s.name == name) ≡ false))
unfolding index_of_service
index-some s services name i h = elim (Bool-cases (s.name == name)) [
  | inl here ↦ inl (ground arith, here)
  | inr there ↦ elim (Option-cases (index_of_service services name)) [
    | inl lost ↦ absurd (ground arith)
    | inr (j, e) ↦ inr (j, ground arith, e, there)
  ]
]

pub index-lists :
    (services : List ServiceCatalogService) (name : String) (i : ℕ)
    → index_of_service services name ≡ some i
    → lists services name ≡ true
index-lists [] name i h = cc (index-nil name)
index-lists (s ∷ services) name i h = elim (index-some s services name i h) [
  | inl (first, same) ↦ ground arith
  | inr (j, later, found, differ) ↦ ground (arith, index-lists services name j found)
]

pub lists-append :
    (xs ys : List ServiceCatalogService) (name : String)
    → lists (xs ++ ys) name ≡ (lists xs name || lists ys name)
lists-append [] ys name = refl
lists-append (s ∷ xs) ys name = ground (arith, lists-append xs ys name)

-- The list without the entry at an index.
abbrev pub cut : ℕ → List ServiceCatalogService → List ServiceCatalogService
cut i services = take i services ++ drop (suc i) services

lists_self : (s : ServiceCatalogService) (name : String) → (s.name == name) ≡ true → s.name ≡ name
lists_self s name h = ground arith

-- Cutting out the entry that was found removes its name, and no other.
pub lists-cut :
    (services : List ServiceCatalogService) (name : String) (i : ℕ) (other : String)
    → UniqueNames services
    → index_of_service services name ≡ some i
    → lists (cut i services) other ≡ (lists services other && not (other == name))
lists-cut [] name i other u h = cc (index-nil name)
lists-cut (s ∷ services) name i other u h = elim (index-some s services name i h) [
  | inl (first, same) ↦ rw first (ground arith)
  | inr (j, later, found, differ) ↦
      rw later (ground (arith, lists-cut services name j other u.1 found))
]

pub UniqueNames-cut :
    (services : List ServiceCatalogService) (name : String) (i : ℕ)
    → UniqueNames services
    → index_of_service services name ≡ some i
    → UniqueNames (cut i services)
UniqueNames-cut [] name i u h = absurd (ground (arith, index-nil name))
UniqueNames-cut (s ∷ services) name i u h = elim (index-some s services name i h) [
  | inl (first, same) ↦ rw first u.1
  | inr (j, later, found, differ) ↦ rw later (
    lists-cut services name j s.name u.1 found ∙ ground arith,
    UniqueNames-cut services name j u.1 found,
  )
]

pub UniqueNames-append :
    (services : List ServiceCatalogService) (s : ServiceCatalogService)
    → UniqueNames services
    → lists services s.name ≡ false
    → UniqueNames (services ++ (s ∷ []))
UniqueNames-append [] s u h = (refl, tt)
UniqueNames-append (t ∷ services) s u h = (
  lists-append services (s ∷ []) t.name ∙ ground arith,
  UniqueNames-append services s u.1 (ground arith),
)
