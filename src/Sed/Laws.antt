-- ===== src/Sed/Laws.antt =====
-- Which values the readers read.
use primaza.Common.{
  ◌≡◌, ◌↔◌, ◌⊎◌, inl, inr, refl, sym, ◌∙◌, ap, String, ◌<>◌, Option, none, some, List, [], ◌∷◌,
}
use primaza.Common.Errors.{ok, ok_injective, and_then, and_then-ok}
use primaza.Common.Effects.{lift, ◌>>=◌, >>=-eq-ok}
use primaza.Api.{Secret, lookup, FieldMapping}
use primaza.Api.{ServiceClassResourceFieldMapping}
use primaza.Cluster.{Client}
use primaza.Sed.{
  JsonPaths, SedSecretRefMapping, single_result, read_single_json_path, read_expression,
  read_constant_or, read_value, value_of_key, read_secret_key, new_sed_resource_mapping,
  read_resource_key,
}

module _ {Parsed Resource Value : Type 0} (paths : JsonPaths Parsed Resource Value) where
  -- The path that an expression in braces is parsed to finds one value, of that text.
  unfoldable pub IsFound : String → Resource → String → Type 0
  IsFound expr resource text =
      (path : Parsed) × (value : Value) × (paths.parse ("{" <> expr <> "}") ≡ ok path)
      × (paths.find_results path resource ≡ ok ((value ∷ []) ∷ []))
      × (text ≡ paths.value_text value)

  single_result-ok :
      (results : List (List Value)) (text : String)
      → single_result paths results ≡ ok text
      → (value : Value) × (results ≡ (value ∷ []) ∷ []) × (text ≡ paths.value_text value)
  unfolding single_result
  single_result-ok [] text h = cc
  single_result-ok ([] ∷ rest) text h = cc
  single_result-ok ((v ∷ []) ∷ []) text h = (v, refl, ok_injective _ _ (sym h))
  single_result-ok ((v ∷ []) ∷ (l ∷ rest)) text h = cc
  single_result-ok ((v ∷ (u ∷ vs)) ∷ rest) text h = cc

  IsFound-single_result :
      (expr : String) (resource : Resource) (path : Parsed) (text : String)
      → paths.parse ("{" <> expr <> "}") ≡ ok path
      → and_then (paths.find_results path resource) (single_result paths) ≡ ok text
      → IsFound expr resource text
  unfolding IsFound
  IsFound-single_result expr resource path text parsed h =
      let (results, found, single) =
        and_then-ok (paths.find_results path resource) (single_result paths) text h in
      let (value, one, same) = single_result-ok results text single in
      (path, value, parsed, found ∙ ap ok one, same)

  read_of :
      (expr : String) (resource : Resource) (text : String)
      → IsFound expr resource text
      → and_then
          (paths.parse ("{" <> expr <> "}"))
          (λ path. and_then (paths.find_results path resource) (single_result paths))
        ≡ ok text
  unfolding IsFound single_result
  read_of expr resource text (path, value, parsed, found, same) =
      rw (parsed, found) (ap ok (sym same))

  -- A field of a resource is read exactly if its path, in braces, is parsed and finds one list of one
  -- value in the resource, and what is read is the text of that value.
  read_resource_key_iff :
      (resource : Resource) (mapping : ServiceClassResourceFieldMapping) (text : String)
      → (and_then (new_sed_resource_mapping paths resource mapping) (read_resource_key paths)
          ≡ ok text)
        ↔ IsFound mapping.json_path resource text
  unfolding new_sed_resource_mapping read_resource_key IsFound single_result
  read_resource_key_iff resource mapping text = (
    λ h.
        let (sed, made, read) =
          and_then-ok (new_sed_resource_mapping paths resource mapping) (read_resource_key paths)
            text h in
        let (path, parsed, same) =
          and_then-ok (paths.parse ("{" <> mapping.json_path <> "}")) _ sed made in
        IsFound-single_result mapping.json_path resource path text parsed
          (ap (read_resource_key paths) (ok_injective _ _ same) ∙ read),
    λ (path, value, parsed, found, same). rw (parsed, found) (ap ok (sym same)),
  )

  -- The constant of a mapping, or what its expression finds.
  unfoldable pub IsRead : FieldMapping → Resource → String → Type 0
  IsRead mapping resource text =
      (mapping.constant ≡ some text)
      ⊎ ((mapping.constant ≡ none)
          × ((expr : String) × (mapping.json_path_expr ≡ some expr) × IsFound expr resource text))

  read_constant_or_iff :
      (constant expr : Option String) (resource : Resource) (text : String)
      → (read_constant_or paths constant expr resource ≡ ok text)
        ↔ IsRead (record { constant = constant; json_path_expr = expr }) resource text
  unfolding read_constant_or IsRead read_expression read_single_json_path
  read_constant_or_iff (some c) expr resource text =
      (λ h. inl (ap some (ok_injective _ _ h)), elim [ inl same ↦ cc | inr (differs, _) ↦ cc ])
  read_constant_or_iff none (some expr) resource text = (
    λ h.
        let (path, parsed, read) = and_then-ok (paths.parse ("{" <> expr <> "}")) _ text h in
        inr (refl, (expr, refl, IsFound-single_result expr resource path text parsed read)),
    elim [
      | inl same ↦ cc
      | inr (_, (e, same, found)) ↦
          let other : expr ≡ e = cc in read_of expr resource text (rw other found)
    ],
  )
  read_constant_or_iff none none resource text =
      (λ h. cc, elim [ inl same ↦ cc | inr (_, (e, same, _)) ↦ cc ])

  -- A value is read exactly if it is the mapping's constant, or the mapping has no constant and its
  -- expression, in braces, is parsed and finds one list of one value, of that text.
  read_value_iff :
      (mapping : FieldMapping) (resource : Resource) (text : String)
      → (read_value paths mapping resource ≡ ok text) ↔ IsRead mapping resource text
  unfolding read_value
  read_value_iff mapping resource text =
      read_constant_or_iff mapping.constant mapping.json_path_expr resource text

  value_of_key-ok :
      (o : Option String) (text : String) → value_of_key paths o ≡ ok text → o ≡ some text
  unfolding value_of_key
  value_of_key-ok (some v) text h = ap some (ok_injective _ _ h)
  value_of_key-ok none text h = cc

  -- What a key of a secret reads: the key and the secret's name are read, the secret is there, and
  -- it has the key with that value.
  unfoldable pub IsInSecret :
      {W : Type 0} → Client W Secret → SedSecretRefMapping Resource → W → String → Type 0
  IsInSecret cli mapping w text =
      (sec_key : String) × (sec_name : String) × (s : Secret) × IsRead mapping.secret_key
        mapping.resource sec_key
      × IsRead mapping.secret_name mapping.resource sec_name
      × ((cli.get (record { namespace = mapping.namespace; name = sec_name }) w).0 ≡ ok s)
      × (lookup sec_key s.content ≡ some text)

  secret_read :
      {W : Type 0} (cli : Client W Secret) (mapping : SedSecretRefMapping Resource) (w : W)
      (text : String)
      → IsInSecret cli mapping w text
      → (read_secret_key paths cli mapping w).0 ≡ ok text
  unfolding read_secret_key IsInSecret value_of_key ◌>>=◌
  secret_read cli mapping w text (sec_key, sec_name, s, key_read, name_read, got, held) =
      let k = (read_value_iff mapping.secret_key mapping.resource sec_key).1 key_read in
      let n = (read_value_iff mapping.secret_name mapping.resource sec_name).1 name_read in
      rw (k, n, got, held) refl

  -- The value of a secret's key is read exactly if the key and the secret's name can be read from the
  -- mapping, the server answers with the secret of that name in the mapping's namespace, and that has
  -- the value at the key.
  pub read_secret_key_iff :
      {W : Type 0} (cli : Client W Secret) (mapping : SedSecretRefMapping Resource) (w : W)
      (text : String)
      → ((read_secret_key paths cli mapping w).0 ≡ ok text) ↔ IsInSecret cli mapping w text
  unfolding read_secret_key IsInSecret lift
  read_secret_key_iff cli mapping w text = (
    λ h.
        let (sec_key, k, after_key, _) =
          >>=-eq-ok (lift (read_value paths mapping.secret_key mapping.resource)) _ w h in
        let (sec_name, n, after_name, _) =
          >>=-eq-ok (lift (read_value paths mapping.secret_name mapping.resource)) _ w after_key in
        let (s, got, found, _) =
          >>=-eq-ok (cli.get (record { namespace = mapping.namespace; name = sec_name })) _ w
            after_name in
        (
          sec_key,
          sec_name,
          s,
          (read_value_iff mapping.secret_key mapping.resource sec_key).0 k,
          (read_value_iff mapping.secret_name mapping.resource sec_name).0 n,
          got,
          value_of_key-ok (lookup sec_key s.content) text found,
        ),
    secret_read cli mapping w text,
  )
