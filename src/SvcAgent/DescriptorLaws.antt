-- ===== src/SvcAgent/DescriptorLaws.antt =====
-- What the endpoint definition of a resource has, and when there is one.
use primaza.Common.{◌≡◌, ◌≢◌, refl, sym, ◌∙◌, ap, String, Option, none, List, [], ◌∷◌}
use mathlib.Core.Path.{subst}
use primaza.Common.Errors.{
  Error, Result, ok, err, panic, join_all, join_all-eq-ok, ok_injective, and_then-ok,
}
use primaza.Common.Effects.{
  Action, pure, lift, ◌>>=◌, errors_of, >>=-eq-ok, attempt-eq-ok, attempt-no-panic,
}
use primaza.Api.{Secret, ServiceEndpointDefinitionItem}
use primaza.Cluster.{Client}
use primaza.Sed.{JsonPaths}
use primaza.SvcAgent.Descriptor.{
  SedMapping, described_item, write_value, items_of, write_result, Gathered, gather_first,
  secret_with, described, read_key, gather, descriptor_of, lookup_service_endpoint_descriptor,
}

module _ {Parsed Resource : Type 0} where
  -- The items and the texts of values that were read, one for each mapping.
  abbrev pub items_for :
      String → List (SedMapping Parsed Resource) → List String → List ServiceEndpointDefinitionItem
  items_for name [] values = []
  items_for name (m ∷ ms) [] = []
  items_for name (m ∷ ms) (v ∷ values) = described_item name m v ∷ items_for name ms values

  abbrev pub texts_for :
      List (SedMapping Parsed Resource)
      → List String
      → List (String × String)
      → List (String × String)
  texts_for [] values texts = texts
  texts_for (m ∷ ms) [] texts = texts
  texts_for (m ∷ ms) (v ∷ values) texts = texts_for ms values (write_value m v texts)

described-ok :
    (name : String) (g : Gathered) (es : List Error)
    (r : List ServiceEndpointDefinitionItem × Option Secret)
    → described name g es ≡ ok r
    → (es ≡ []) × (r ≡ (g.items, secret_with name g.texts))
described-ok name g [] r h = (refl, sym (ok_injective _ _ h))
described-ok name g (e ∷ es) r h =
    let (u, joined, _) = and_then-ok (join_all (e ∷ es)) (λ _. ok ([], none)) r h in
    let bad = join_all-eq-ok (e ∷ es) joined in cc

module _ {W Parsed Resource Value : Type 0} (paths : JsonPaths Parsed Resource Value)
    (secrets : Client W Secret) where
  -- The mappings are read in order, each from the world that the one before it has left, to the values.
  abbrev pub AreRead : List (SedMapping Parsed Resource) → List String → W → Type 0
  AreRead [] [] w = Unit
  AreRead [] (v ∷ values) w = ⊥
  AreRead (m ∷ ms) [] w = ⊥
  AreRead (m ∷ ms) (v ∷ values) w =
      ((read_key paths secrets m w).0 ≡ ok v) × AreRead ms values (read_key paths secrets m w).1

  abbrev gathered :
      String → List (SedMapping Parsed Resource) → List String → List (String × String) → Gathered
  gathered name ms values texts = record {
    items = items_for name ms values;
    texts = texts_for ms values texts;
    errors = [];
  }

  gather-AreRead :
      (name : String) (ms : List (SedMapping Parsed Resource)) (values : List String)
      (texts : List (String × String)) (w : W)
      → AreRead ms values w
      → (gather paths secrets name ms texts w).0 ≡ ok (gathered name ms values texts)
  unfolding gather ◌>>=◌
  gather-AreRead name [] [] texts w h = refl
  gather-AreRead name [] (v ∷ values) texts w h = elim h [ ]
  gather-AreRead name (m ∷ ms) [] texts w h = elim h [ ]
  gather-AreRead name (m ∷ ms) (v ∷ values) texts w h =
      rw
        (
          h.0,
          gather-AreRead name ms values (write_value m v texts) (read_key paths secrets m w).1 h.1,
        )
        refl

  -- What a successful gathering without errors has read.
  abbrev Gathers :
      String → List (SedMapping Parsed Resource) → List (String × String) → W → Gathered → Type 0
  Gathers name ms texts w g =
      (values : List String) × AreRead ms values w × (g ≡ gathered name ms values texts)

  abbrev rest_of :
      String
      → SedMapping Parsed Resource
      → List (SedMapping Parsed Resource)
      → List (String × String)
      → Result String
      → Action W Gathered
  rest_of name m ms texts r = gather paths secrets name ms (write_result m r texts) >>= λ g.
      pure (gather_first (items_of name m r) (errors_of r) g)

  first_read :
      (name : String) (m : SedMapping Parsed Resource) (ms : List (SedMapping Parsed Resource))
      (texts : List (String × String)) (w w1 : W) (g : Gathered) (r : Result String)
      → read_key paths secrets m w ≡ (r, w1)
      → r ≢ panic
      → (rest_of name m ms texts r w1).0 ≡ ok g
      → g.errors ≡ []
      → ((texts' : List (String × String)) (g' : Gathered)
          → (gather paths secrets name ms texts' w1).0 ≡ ok g'
          → g'.errors ≡ []
          → Gathers name ms texts' w1 g')
      → Gathers name (m ∷ ms) texts w g
  unfolding pure
  first_read name m ms texts w w1 g (ok v) read np h e ih =
      let (g', later, same, _) =
        >>=-eq-ok (gather paths secrets name ms (write_value m v texts))
          (λ g'. pure (gather_first (described_item name m v ∷ []) [] g')) w1 h in
      let made = ok_injective _ _ same in
      let (values, reads, whole) =
        ih (write_value m v texts) g' later (ap (λ x. x.errors) made ∙ e) in
      (
        v ∷ values,
        (ap (λ p. p.0) read, subst (λ u. AreRead ms values u) (sym (ap (λ p. p.1) read)) reads),
        sym made ∙ ap (gather_first (described_item name m v ∷ []) []) whole,
      )
  first_read name m ms texts w w1 g (err d) read np h e ih =
      let (g', later, same, _) =
        >>=-eq-ok (gather paths secrets name ms texts) (λ g'. pure (gather_first [] (d ∷ []) g')) w1
          h in
      let bad : d ∷ g'.errors ≡ [] = ap (λ x. x.errors) (ok_injective _ _ same) ∙ e in cc
  first_read name m ms texts w w1 g panic read np h e ih = absurd (np refl)

  gather-values :
      (name : String) (ms : List (SedMapping Parsed Resource)) (texts : List (String × String))
      (w : W) (g : Gathered)
      → (gather paths secrets name ms texts w).0 ≡ ok g
      → g.errors ≡ []
      → Gathers name ms texts w g
  unfolding gather pure
  gather-values name [] texts w g h e = ([], tt, sym (ok_injective _ _ h))
  gather-values name (m ∷ ms) texts w g h e =
      let read = read_key paths secrets m in
      let same = attempt-eq-ok read (rest_of name m ms texts) w h in
      first_read name m ms texts w (read w).1 g (read w).0 refl
        (attempt-no-panic read (rest_of name m ms texts) w h) (ap (λ p. p.0) (sym same) ∙ h) e
        (λ texts' g'. gather-values name ms texts' (read w).1 g')

  abbrev lookup :
      List (SedMapping Parsed Resource)
      → String
      → Action W (List ServiceEndpointDefinitionItem × Option Secret)
  lookup ms name = lookup_service_endpoint_descriptor paths secrets ms name

  looked_up :
      (ms : List (SedMapping Parsed Resource)) (name : String) (w : W) (values : List String)
      → AreRead ms values w
      → (lookup ms name w).0
        ≡ ok (
          items_for (descriptor_of paths secrets name) ms values,
          secret_with (descriptor_of paths secrets name) (texts_for ms values []),
        )
  unfolding lookup_service_endpoint_descriptor ◌>>=◌
  looked_up ms name w values h =
      rw (gather-AreRead (descriptor_of paths secrets name) ms values [] w h) refl

  -- The endpoint definition of a resource is found exactly if the mappings are read in order without an
  -- error; it then has an item for each of them, in their order, that holds the value, or refers to the
  -- secret if the mapping says so, and the secret has those values, or is absent if there are none.
  pub lookup_service_endpoint_descriptor_iff :
      (ms : List (SedMapping Parsed Resource)) (name : String) (w : W)
      (items : List ServiceEndpointDefinitionItem) (secret : Option Secret)
      → ((lookup_service_endpoint_descriptor paths secrets ms name w).0 ≡ ok (items, secret)
          → (values : List String) × AreRead ms values w
            × (items ≡ items_for (descriptor_of paths secrets name) ms values)
            × (secret ≡ secret_with (descriptor_of paths secrets name) (texts_for ms values [])))
        × ((values : List String)
            → AreRead ms values w
            → items ≡ items_for (descriptor_of paths secrets name) ms values
            → secret ≡ secret_with (descriptor_of paths secrets name) (texts_for ms values [])
            → (lookup_service_endpoint_descriptor paths secrets ms name w).0 ≡ ok (items, secret))
  unfolding lookup_service_endpoint_descriptor lift
  lookup_service_endpoint_descriptor_iff ms name w items secret =
      let descriptor = descriptor_of paths secrets name in
      (
        λ h.
            let (g, gathers, same, _) =
              >>=-eq-ok (gather paths secrets descriptor ms [])
                (λ g. lift (described descriptor g g.errors)) w h in
            let (clean, made) = described-ok descriptor g g.errors (items, secret) same in
            let (values, reads, whole) = gather-values descriptor ms [] w g gathers clean in
            (
              values,
              reads,
              ap (λ r. r.0) made ∙ ap (λ x. x.items) whole,
              ap (λ r. r.1) made ∙ ap (λ x. secret_with descriptor x.texts) whole,
            ),
        λ values reads i s. looked_up ms name w values reads ∙ (λ j. ok (sym i j, sym s j)),
      )
