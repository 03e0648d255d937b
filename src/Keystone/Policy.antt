-- ===== src/Keystone/Policy.antt =====
-- The data of pkg/identity/keystone/policy.go, and what the authorizer reads of a request. A map is
-- the list of its entries, in the order in which a `range` goes through it; nil is `none`.
use cloud_provider_openstack.Prelude.{◌∷◌, List, Bool, some, [], Option, none, if◌then◌else◌}
use cloud_provider_openstack.Prelude.Strings.{text_eq, Text, codes}

abbrev pub TextMap : Type 0
TextMap = List (Text × List Text)

unfoldable pub lookup_text : Text → TextMap → Option (List Text)
lookup_text key [] = none
lookup_text key ((k, v) ∷ m) = if text_eq k key then some v else lookup_text key m

-- `m[key]` of a map that may be nil
abbrev pub entry : Option TextMap → Text → Option (List Text)
entry none key = none
entry (some m) key = lookup_text key m

abbrev pub type_user : Text
type_user = codes "user"

abbrev pub type_group : Text
type_group = codes "group"

abbrev pub type_project : Text
type_project = codes "project"

abbrev pub type_role : Text
type_role = codes "role"

pub record PolicyMatch : Type 0 where
  pub kind : Text
  pub values : List Text

pub record ResourceSpec : Type 0 where
  pub verbs : List Text
  pub resources : List Text
  pub api_group : Option Text
  pub namespace : Option Text

pub record NonResourceSpec : Type 0 where
  pub verbs : List Text
  pub non_resource_path : Option Text

pub record Policy : Type 0 where
  pub resource_spec : Option ResourceSpec
  pub non_resource_spec : Option NonResourceSpec
  pub match_list : List PolicyMatch
  pub resource_permissions_spec : Option TextMap
  pub non_resource_permissions_spec : Option TextMap
  pub users : Option TextMap

-- user.Info of Kubernetes and userInfo of keystone.go, and authorizer.Attributes
pub record UserInfo : Type 0 where
  pub name : Text
  pub uid : Text
  pub groups : List Text
  pub extra : Option TextMap

pub record Attributes : Type 0 where
  pub user : UserInfo
  pub verb : Text
  pub namespace : Text
  pub api_group : Text
  pub resource : Text
  pub subresource : Text
  pub path : Text
  pub is_resource_request : Bool

-- The keys of `user.Extra`, from pkg/identity/keystone/authenticator.go.
abbrev pub roles_key : Text
roles_key = codes "alpha.kubernetes.io/identity/roles"

abbrev pub project_id_key : Text
project_id_key = codes "alpha.kubernetes.io/identity/project/id"

abbrev pub project_name_key : Text
project_name_key = codes "alpha.kubernetes.io/identity/project/name"
