-- ===== src/Keystone/Authorize.antt =====
-- Authorize of pkg/identity/keystone/authorizer.go. The reason texts are left out.
use cloud_provider_openstack.Prelude.{
  true, ◌∷◌, ◌++◌, List, Bool, some, [], false, ◌&&◌, Option, none, if◌then◌else◌, all, any,
}
use cloud_provider_openstack.Prelude.Strings.{Text, codes}
use cloud_provider_openstack.Keystone.Search.{member}
use cloud_provider_openstack.Keystone.Rules.{resource_matches, non_resource_matches}
use cloud_provider_openstack.Keystone.Policy.{
  roles_key, UserInfo, lookup_text, entry, project_name_key, Attributes, project_id_key, Policy,
}
use cloud_provider_openstack.Keystone.Permission.{
  resource_permission_allowed, non_resource_permission_allowed,
}

pub data Decision : Type 0 where
  deny allow : Decision

abbrev pub or_empty : Option (List Text) → List Text
or_empty none = []
or_empty (some items) = items

-- sets.String
abbrev pub is_superset : List Text → List Text → Bool
is_superset s other = all (λ x. member x s) other

abbrev pub has_any : List Text → List Text → Bool
has_any s items = any (λ x. member x s) items

abbrev pub user_roles : UserInfo → List Text
user_roles user = or_empty (entry user.extra roles_key)

abbrev pub user_projects : UserInfo → List Text
user_projects user =
    or_empty (entry user.extra project_name_key) ++ or_empty (entry user.extra project_id_key)

-- whether the policy is for this user
unfoldable pub applies : Policy → UserInfo → Bool
applies p user = elim p.users [
  | none ↦ true
  | some m ↦
      is_superset (user_roles user) (or_empty (lookup_text (codes "roles") m))
      && has_any (or_empty (lookup_text (codes "projects") m)) (user_projects user)
]

module _ (json : Text → Option (List Text)) where
  -- the permission maps take precedence; `none` is a panic
  unfoldable pub permits : Policy → Attributes → Option Bool
  permits p a =
      if a.is_resource_request
      then elim p.resource_permissions_spec [
        | some spec ↦ some (resource_permission_allowed json spec a)
        | none ↦ elim p.resource_spec [ some spec ↦ resource_matches p spec a | none ↦ some false ]
      ]
      else elim p.non_resource_permissions_spec [
        | some spec ↦ some (non_resource_permission_allowed spec a)
        | none ↦ elim p.non_resource_spec [
          | some spec ↦ non_resource_matches p spec a
          | none ↦ some false
        ]
      ]

  -- the end of a round: panic, return, or go on
  abbrev pub decide_round : Option Bool → Option Decision → Option Decision
  decide_round none rest = none
  decide_round (some true) rest = some allow
  decide_round (some false) rest = rest

  unfoldable pub authorize_loop : List Policy → Attributes → Option Decision
  unfolding permits applies
  authorize_loop [] a = some deny
  authorize_loop (p ∷ ps) a =
      let rest = authorize_loop ps a in
      if applies p a.user then decide_round (permits p a) rest else rest

  unfoldable pub authorize : List Policy → Attributes → Option Decision
  unfolding authorize_loop
  authorize policies a = elim a.user.extra [ none ↦ some deny | some m ↦ authorize_loop policies a ]
