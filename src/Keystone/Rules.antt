-- ===== src/Keystone/Rules.antt =====
-- resourceMatches, nonResourceMatches and match of pkg/identity/keystone/authorizer.go. A nil
-- pointer that is read panics; the result is then `none`. That `findString` leaves a list sorted is
-- seen by nobody, since its answer does not depend on the order.
use cloud_provider_openstack.Prelude.{
  ◌||◌, true, ◌∷◌, not, List, Bool, some, [], false, ◌&&◌, Option, none, if◌then◌else◌, any,
}
use cloud_provider_openstack.Prelude.Strings.{
  text_eq, join_slash, Text, has_prefix, ends_with_char, trim_right,
}
use cloud_provider_openstack.Keystone.Search.{find_string}
use cloud_provider_openstack.Keystone.Policy.{
  type_user, roles_key, UserInfo, type_project, entry, project_name_key, ResourceSpec, PolicyMatch,
  type_role, type_group, NonResourceSpec, Attributes, project_id_key, Policy,
}
use cloud_provider_openstack.Keystone.Permission.{star, is_empty_text}

-- some item of the entry, if there is one, is among the values
abbrev pub extra_found : Option (List Text) → List Text → Bool
extra_found none values = false
extra_found (some items) values = any (λ item. find_string item values) items

-- the ladder over the type of a match; it is reached with a known type only
unfoldable pub type_matches : PolicyMatch → UserInfo → Bool
type_matches m user =
    if text_eq m.kind type_group
    then any (λ group. find_string group m.values) user.groups
    else if text_eq m.kind type_user
    then find_string user.name m.values || find_string user.uid m.values
    else if text_eq m.kind type_project
    then extra_found (entry user.extra project_id_key) m.values
      || extra_found (entry user.extra project_name_key) m.values
    else if text_eq m.kind type_role
    then extra_found (entry user.extra roles_key) m.values
    else true

abbrev pub known_types : List Text
known_types = type_group ∷ type_project ∷ type_role ∷ type_user ∷ []

unfoldable pub match_all : List PolicyMatch → UserInfo → Bool
unfolding type_matches
match_all [] user = true
match_all (m ∷ ms) user =
    let rest = match_all ms user in
    if not (find_string m.kind known_types)
    then false
    else if find_string star m.values
    then rest
    else if type_matches m user
    then rest
    else false

-- the tests behind the two pointers
unfoldable pub resource_listed : ResourceSpec → Attributes → Bool
resource_listed spec a =
    if is_empty_text a.subresource
    then find_string star spec.resources || find_string a.resource spec.resources
    else find_string star spec.resources
      || (find_string (join_slash a.resource star) spec.resources
          || find_string (join_slash a.resource a.subresource) spec.resources)

abbrev pub verb_listed : List Text → Attributes → Bool
verb_listed verbs a = find_string star verbs || find_string a.verb verbs

-- `*p != "*" && *p != value`
abbrev pub differs : Text → Text → Bool
differs pattern value = not (text_eq pattern star) && not (text_eq pattern value)

unfoldable pub resource_matches : Policy → ResourceSpec → Attributes → Option Bool
unfolding resource_listed match_all
resource_matches p spec a = elim spec.api_group [
  | none ↦ none
  | some group ↦ if differs group a.api_group then some false else elim spec.namespace [
    | none ↦ none
    | some ns ↦
        if differs ns a.namespace
        then some false
        else some
            (resource_listed spec a && (verb_listed spec.verbs a && match_all p.match_list a.user))
  ]
]

-- the path is the pattern, or below a pattern that ends in "*"
abbrev pub path_matches : Text → Text → Bool
path_matches pattern path =
    not (differs pattern path)
    || (ends_with_char b'*' pattern && has_prefix path (trim_right b'*' pattern))

unfoldable pub non_resource_matches : Policy → NonResourceSpec → Attributes → Option Bool
unfolding match_all
non_resource_matches p spec a =
    if find_string [] spec.verbs then some false else elim spec.non_resource_path [
      | none ↦ some false
      | some pattern ↦ some (
          verb_listed spec.verbs a
          && (path_matches pattern a.path && match_all p.match_list a.user))
    ]
