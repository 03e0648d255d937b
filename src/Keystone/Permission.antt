-- ===== src/Keystone/Permission.antt =====
-- getAllowed, resourcePermissionAllowed and nonResourcePermissionAllowed of
-- pkg/identity/keystone/authorizer.go. A set is the list of what was inserted. `json` is Go's
-- decoder of an array of strings.
use cloud_provider_openstack.Prelude.{
  ◌-◌, ◌||◌, true, ◌∷◌, not, List, Bool, some, map, [], false, ◌&&◌, Option, none, if◌then◌else◌,
  length, drop, any,
}
use cloud_provider_openstack.Prelude.Strings.{
  text_eq, trim_space, Text, split, double_quotes, codes, to_lower, is_at, index_of,
}
use cloud_provider_openstack.Keystone.Search.{member}
use cloud_provider_openstack.Keystone.Policy.{Attributes, TextMap}

abbrev pub star : Text
star = codes "*"

abbrev pub empty_text : Text
empty_text = []

abbrev pub is_empty_text : Text → Bool
is_empty_text [] = true
is_empty_text (c ∷ s) = false

module _ (json : Text → Option (List Text)) where
  -- the loop over the items of "['namespace1', 'namespace2']"
  abbrev pub star_to : Text → Text → Text
  star_to str val = if text_eq val star then str else val

  abbrev pub listed : Text → Option (List Text) → Option (List Text)
  listed str none = none
  listed str (some items) = some (map (star_to str) items)

  -- the loop over the items of "!['namespace1', 'namespace2']"
  abbrev pub excluded : Text → Option (List Text) → Option (List Text)
  excluded str none = none
  excluded str (some items) =
      if any (λ val. text_eq val str || text_eq val star) items then none else some (str ∷ [])

  -- `none` is the error; an error and a set without the text are the same to the callers.
  unfoldable pub get_allowed : Text → Text → Option (List Text)
  get_allowed definition str =
      let bang = is_at (index_of b'!' definition) 0 in
      let open_at = index_of b'[' definition in
      let closed = is_at (index_of b']' definition) (length definition - 1) in
      if text_eq definition str || text_eq definition star || is_empty_text str
      then some (str ∷ [])
      else if bang && not (is_at open_at 1)
      then (if text_eq (drop 1 definition) str || text_eq (drop 1 definition) star
          then none
          else some (str ∷ []))
      else if is_at open_at 0 && closed
      then listed str (json (double_quotes definition))
      else if bang && is_at open_at 1 && closed
      then excluded str (json (double_quotes (drop 1 definition)))
      else some []

  -- `allowedVerbs`, with the verb of the request if "*" is there
  abbrev pub allowed_verbs : Text → List Text → List Text
  allowed_verbs verb verbs = if member star verbs then verb ∷ verbs else verbs

  abbrev pub has : Text → Option (List Text) → Bool
  has str none = false
  has str (some allowed) = member str allowed

  -- one round of the loop: whether it returns true
  unfoldable pub definition_allows : Text → Text → Attributes → List Text → Bool
  definition_allows ns_def res_def attr verbs =
      if not (text_eq ns_def star) && is_empty_text attr.namespace
      then false
      else has attr.namespace (get_allowed ns_def attr.namespace)
        && (has attr.resource (get_allowed res_def attr.resource)
            && member attr.verb (allowed_verbs attr.verb (map to_lower verbs)))

  -- `len(keyList) != 2` skips the entry
  abbrev pub with_parts : List Text → Attributes → List Text → Bool
  with_parts (ns ∷ res ∷ []) attr verbs =
      definition_allows (to_lower (trim_space ns)) (to_lower (trim_space res)) attr verbs
  with_parts _ attr verbs = false

  unfoldable pub entry_allows : Attributes → Text × List Text → Bool
  unfolding definition_allows
  entry_allows attr (key, verbs) = with_parts (split b'/' key) attr verbs

  unfoldable pub resource_permission_allowed : TextMap → Attributes → Bool
  unfolding entry_allows
  resource_permission_allowed [] attr = false
  resource_permission_allowed (e ∷ spec) attr =
      if entry_allows attr e then true else resource_permission_allowed spec attr

unfoldable pub non_resource_permission_allowed : TextMap → Attributes → Bool
non_resource_permission_allowed [] attr = false
non_resource_permission_allowed ((key, verbs) ∷ spec) attr =
    let allowed = if member star verbs then attr.verb ∷ verbs else verbs in
    if text_eq key attr.path && member attr.verb allowed
    then true
    else non_resource_permission_allowed spec attr
