-- ===== src/Keystone/Namespaces.antt =====
-- The configuration of the synchronisation, pkg/identity/keystone/sync.go: its checks, and the name of
-- a project's namespace. A marker is "%" and a letter.
use cloud_provider_openstack.Prelude.Strings.{codes, Text, text_eq}
use cloud_provider_openstack.Prelude.{
  false, some, Bool, not, none, ◌&&◌, ◌++◌, ◌+◌, ◌||◌, ◌∷◌, List, ℕ, [], Option, leb, ltb, eqb,
  if◌then◌else◌, all, any,
}
use cloud_provider_openstack.Keystone.Policy.{entry, lookup_text, roles_key, UserInfo}
use cloud_provider_openstack.Instances.ProviderId.{contains_text}

-- roleMap and syncConfig
pub record RoleMap : Type 0 where
  pub keystone_role : Text
  pub map_username : Text
  pub map_groups : List Text

pub record SyncConfig : Type 0 where
  pub data_types : List Text
  pub namespace_format : Text
  pub project_black_list : List Text
  pub project_name_black_list : List Text
  pub role_maps : List RoleMap

abbrev pub projects : Text
projects = codes "projects"

abbrev pub role_assignments : Text
role_assignments = codes "role_assignments"

abbrev pub has_text : Text → List Text → Bool
has_text a list = any (λ x. text_eq x a) list

-- what a character puts out, behind an open "%" or not
abbrev pub put_char : ℕ → Text → Bool → ℕ → Text
put_char letter new open_percent x =
    if open_percent && eqb x letter
    then new
    else (if open_percent then b'%' ∷ [] else []) ++ (if eqb x b'%' then [] else x ∷ [])

-- strings.Replace(s, "%" + letter, new, -1), with whether a "%" stands in front; the letter is not
-- "%".
unfoldable pub replace_marker : ℕ → Text → Bool → Text → Text
replace_marker letter new open_percent [] = if open_percent then b'%' ∷ [] else []
replace_marker letter new open_percent (x ∷ s) =
    put_char letter new open_percent x ++ replace_marker letter new (eqb x b'%') s

-- The bytes of a text in UTF-8.
abbrev pub bytes_of_char : ℕ → ℕ
bytes_of_char c = if ltb c 128 then 1 else if ltb c 2048 then 2 else if ltb c 65536 then 3 else 4

abbrev pub byte_length : Text → ℕ
byte_length [] = 0
byte_length (c ∷ s) = bytes_of_char c + byte_length s

unfoldable pub format_namespace_name : SyncConfig → Text → Text → Text → Text
unfolding replace_marker
format_namespace_name sc id name domain =
    let res =
      replace_marker b'd' domain false
        (replace_marker b'n' name false (replace_marker b'i' id false sc.namespace_format)) in
    if ltb 63 (byte_length res) then id else res

abbrev pub is_alphanumeric : ℕ → Bool
is_alphanumeric c =
    (leb b'a' c && leb c b'z') || (leb b'A' c && leb c b'Z') || (leb b'0' c && leb c b'9')

abbrev pub is_name_char : ℕ → Bool
is_name_char c = is_alphanumeric c || eqb c b'_' || eqb c b'.' || eqb c b'-'

-- what "[a-zA-Z0-9_.-]*[a-zA-Z0-9]$" matches
abbrev pub ends_name : Text → Bool
ends_name [] = false
ends_name (c ∷ []) = is_alphanumeric c
ends_name (c ∷ d ∷ s) = is_name_char c && ends_name (d ∷ s)

-- the regular expression of `validate`
unfoldable pub is_name : Text → Bool
is_name [] = false
is_name (c ∷ s) = is_alphanumeric c && ends_name s

unfoldable pub is_format : Text → Bool
unfolding replace_marker is_name contains_text
is_format format =
    let aa = codes "aa" in
    contains_text format (codes "%i")
    && is_name (
        replace_marker b'd' aa false
          (replace_marker b'n' aa false (replace_marker b'i' aa false format)))

-- `validate`: whether there is no error
unfoldable pub validate : SyncConfig → Bool
unfolding is_format text_eq
validate sc =
    (text_eq sc.namespace_format [] || is_format sc.namespace_format)
    && all (λ dt. has_text dt (projects ∷ role_assignments ∷ [])) sc.data_types

-- syncRoles: the loop over the role mappings
unfoldable pub map_roles : List Text → List RoleMap → UserInfo → UserInfo
unfolding text_eq
map_roles roles [] user = user
map_roles roles (m ∷ maps) user = map_roles roles maps (
    if not (text_eq m.keystone_role []) && has_text m.keystone_role roles
    then record {
      name = if not (text_eq m.map_username []) then m.map_username else user.name;
      uid = user.uid;
      groups = user.groups ++ m.map_groups;
      extra = user.extra;
    }
    else user)

-- `none` is the nil of the configuration.
unfoldable pub sync_roles : Option SyncConfig → UserInfo → UserInfo
unfolding map_roles lookup_text
sync_roles none user = user
sync_roles (some sc) user = elim (entry user.extra roles_key) [
  | none ↦ user
  | some roles ↦ map_roles roles sc.role_maps user
]
