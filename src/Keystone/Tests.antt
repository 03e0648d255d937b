-- ===== src/Keystone/Tests.antt =====
-- Runs of the authorizer, and its theorems at small inputs.
use cloud_provider_openstack.Prelude.{
  ◌↔◌, ◌∷◌, inl, Option, refl, some, [], ◌≡◌, none, List, ◌≢◌, true, inr, All, Some,
}
use cloud_provider_openstack.Prelude.Strings.{
  index_of, text_eq, split, trim_space, Text, to_lower, double_quotes, codes,
}
use cloud_provider_openstack.Keystone.Rules.{match_all}
use cloud_provider_openstack.Keystone.Policy.{
  Policy, roles_key, UserInfo, lookup_text, Attributes, TextMap, type_role, project_id_key,
}
use cloud_provider_openstack.Keystone.Permission.{
  entry_allows, resource_permission_allowed, definition_allows, get_allowed,
}
use cloud_provider_openstack.Keystone.Matching.{match_all_iff, Satisfies}
use cloud_provider_openstack.Keystone.Decisions.{
  Grants, authorize_sound, authorize_complete, NoPanic,
}
use cloud_provider_openstack.Keystone.Authorize.{permits, authorize, allow, applies}

-- No definition of these tests holds a list of names.
abbrev no_json : Text → Option (List Text)
no_json s = none

abbrev dev : UserInfo
dev = record {
  name = codes "dev";
  uid = codes "u1";
  groups = [];
  extra = some ((roles_key, codes "member" ∷ []) ∷ (project_id_key, codes "p1" ∷ []) ∷ []);
}

abbrev get_pods : Attributes
get_pods = record {
  user = dev;
  verb = codes "get";
  namespace = codes "shop";
  api_group = [];
  resource = codes "pods";
  subresource = [];
  path = [];
  is_resource_request = true;
}

abbrev blank : Policy
blank = record {
  resource_spec = none;
  non_resource_spec = none;
  match_list = [];
  resource_permissions_spec = none;
  non_resource_permissions_spec = none;
  users = none;
}

abbrev members : Policy
members = record blank {
  users = some ((codes "roles", codes "member" ∷ []) ∷ (codes "projects", codes "p1" ∷ []) ∷ []);
  resource_permissions_spec =
      some
        ((codes "!kube-system/ [ pods", []) ∷ (codes "!kube-system/Pods ", codes "GET" ∷ []) ∷ []);
}

get_pods_allowed : authorize no_json (blank ∷ members ∷ []) get_pods ≡ some allow
unfolding authorize resource_permission_allowed entry_allows definition_allows get_allowed split
    trim_space to_lower index_of text_eq lookup_text double_quotes
get_pods_allowed = refl

members_grant : Some (Grants no_json get_pods) (blank ∷ members ∷ [])
unfolding applies permits resource_permission_allowed entry_allows definition_allows get_allowed
    split trim_space to_lower index_of text_eq lookup_text double_quotes
members_grant = inr (inl (refl, refl))

members_calm : NoPanic no_json get_pods (blank ∷ members ∷ [])
unfolding permits
members_calm = ((λ e. cc), ((λ e. cc), tt))

calm_members : NoPanic no_json get_pods (members ∷ blank ∷ [])
unfolding permits
calm_members = ((λ e. cc), ((λ e. cc), tt))

authorize_sound_example : (dev.extra ≢ none) × Some (Grants no_json get_pods) (blank ∷ members ∷ [])
authorize_sound_example = authorize_sound no_json get_pods (blank ∷ members ∷ []) get_pods_allowed

authorize_complete_example : authorize no_json (blank ∷ members ∷ []) get_pods ≡ some allow
authorize_complete_example =
    authorize_complete no_json get_pods (blank ∷ members ∷ []) (λ e. cc) members_calm members_grant

match_all_iff_example :
    (match_all (record { kind = type_role; values = codes "admin" ∷ codes "member" ∷ [] } ∷ []) dev
      ≡ true)
    ↔ All
        (Satisfies dev)
        (record { kind = type_role; values = codes "admin" ∷ codes "member" ∷ [] } ∷ [])
match_all_iff_example =
    match_all_iff dev
      (record { kind = type_role; values = codes "admin" ∷ codes "member" ∷ [] } ∷ [])

abbrev two_entries : TextMap
two_entries = (codes "*/pods", codes "get" ∷ []) ∷ (codes "shop/*", codes "list" ∷ []) ∷ []

abbrev swapped_entries : TextMap
swapped_entries = (codes "shop/*", codes "list" ∷ []) ∷ (codes "*/pods", codes "get" ∷ []) ∷ []
