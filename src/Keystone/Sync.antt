-- ===== src/Keystone/Sync.antt =====
-- Syncer of pkg/identity/keystone/sync.go, over the requests to Kubernetes: the namespace of a user's
-- project, and the role bindings in it. A binding is named "<user id>_<role>".
use cloud_provider_openstack.Prelude.Strings.{codes, Text, index_of, text_eq}
use cloud_provider_openstack.Prelude.{
  false, some, Bool, not, none, ◌&&◌, ◌++◌, ◌∷◌, List, [], true, Option, if◌then◌else◌, take, any,
}
use cloud_provider_openstack.Keystone.Policy.{
  entry, lookup_text, project_name_key, roles_key, project_id_key, UserInfo,
}
use cloud_provider_openstack.Keystone.Namespaces.{
  SyncConfig, role_assignments, projects, has_text, format_namespace_name,
}
use cloud_provider_openstack.Go.{
  pure, Exec, ◌>>◌, Result, panicked, err, not_found, ok, message, Error, fail, ◌>>=◌,
}

pub record RoleBinding : Type 0 where
  pub binding_name : Text
  pub subject : Text
  pub cluster_role : Text

-- The requests of the client set; `not_found` is what IsNotFound takes for one. Role bindings are
-- listed by their names.
pub record Kubernetes (W : Type 0) : Type 0 where
  pub namespace_get : Text → Exec W Unit
  pub namespace_create : Text → Exec W Unit
  pub bindings_list : Text → Exec W (List Text)
  pub binding_delete : Text → Text → Exec W Unit
  pub binding_create : Text → RoleBinding → Exec W Unit

abbrev pub domain_id_key : Text
domain_id_key = codes "alpha.kubernetes.io/identity/user/domain/id"

abbrev pub internal_error : Error
internal_error = message "internal server error"

abbrev pub binding_of : Text → Text → Text
binding_of uid role = uid ++ b'_' ∷ role

-- `parts[0]` of SplitN at "_" is the user, and there are two parts
abbrev pub belongs_to : Text → Text → Bool
belongs_to uid name = elim (index_of b'_' name) [
  | none ↦ false
  | some i ↦ text_eq (take i name) uid
]

-- the name is one for a role of the user
abbrev pub is_own : Text → List Text → Text → Bool
is_own uid roles name = any (λ role. text_eq (binding_of uid role) name) roles

-- `u.Extra[key]`, where a missing one is empty
abbrev pub extra_of : Text → UserInfo → List Text
extra_of key u = elim (entry u.extra key) [ none ↦ [] | some values ↦ values ]

-- `u.Extra[key][0]`
abbrev pub first_value : List Text → Result Text
first_value [] = err panicked
first_value (v ∷ values) = ok v

abbrev pub or_internal : Result Unit → Result Unit
or_internal (ok x) = ok x
or_internal (err e) = err internal_error

-- `u.Extra[key][0]` in the loop over a black list: it is not read where the list is empty.
abbrev pub in_black_list : List Text → Result Text → Result Bool
in_black_list [] value = ok false
in_black_list (p ∷ list) (err e) = err e
in_black_list (p ∷ list) (ok v) = ok (has_text v (p ∷ list))

module _ {W : Type 0} (k8s : Kubernetes W) where
  abbrev pub with_internal : Exec W Unit → Exec W Unit
  with_internal m w = let (r, u) = m w in (or_internal r, u)

  -- what follows the request for the namespace
  abbrev pub after_get : Text → Result Unit → Exec W Unit
  after_get namespace (ok x) = pure tt
  after_get namespace (err not_found) = with_internal (k8s.namespace_create namespace)
  after_get namespace (err e) = fail internal_error

  unfoldable pub sync_project_data : Text → Exec W Unit
  sync_project_data namespace w =
      let (r, u) = k8s.namespace_get namespace w in after_get namespace r u

  -- delete role bindings removed from Keystone
  unfoldable pub delete_bindings : UserInfo → Text → List Text → Exec W Unit
  unfolding index_of text_eq lookup_text
  delete_bindings u namespace [] = pure tt
  delete_bindings u namespace (name ∷ names) =
      let rest = delete_bindings u namespace names in
      if belongs_to u.uid name && not (is_own u.uid (extra_of roles_key u) name)
      then with_internal (k8s.binding_delete namespace name) >> rest
      else rest

  -- create new role bindings
  unfoldable pub create_bindings : UserInfo → Text → List Text → List Text → Exec W Unit
  unfolding text_eq
  create_bindings u namespace names [] = pure tt
  create_bindings u namespace names (role ∷ roles) =
      let rest = create_bindings u namespace names roles in
      if not (has_text (binding_of u.uid role) names)
      then with_internal (
          k8s.binding_create namespace (record {
            binding_name = binding_of u.uid role;
            subject = u.name;
            cluster_role = role;
          }))
        >> rest
      else rest

  abbrev pub change_bindings : UserInfo → Text → List Text → Exec W Unit
  change_bindings u namespace names =
      delete_bindings u namespace names >> create_bindings u namespace names (extra_of roles_key u)

  abbrev pub change_listed : UserInfo → Text → Result (List Text) → Exec W Unit
  change_listed u namespace (ok names) = change_bindings u namespace names
  change_listed u namespace (err e) = fail internal_error

  unfoldable pub sync_role_assignments_data : UserInfo → Text → Exec W Unit
  unfolding delete_bindings create_bindings
  sync_role_assignments_data u namespace w =
      let (r, v) = k8s.bindings_list namespace w in change_listed u namespace r v

  -- a loop over the data types that makes a call for one of them
  unfoldable pub for_type : Text → Exec W Unit → List Text → Exec W Unit
  unfolding text_eq
  for_type wanted call [] = pure tt
  for_type wanted call (dt ∷ types) =
      let rest = for_type wanted call types in if text_eq dt wanted then call >> rest else rest

  unfoldable pub sync_types : SyncConfig → UserInfo → Text → Exec W Unit
  unfolding for_type sync_project_data sync_role_assignments_data
  sync_types sc u namespace =
      for_type projects (sync_project_data namespace) sc.data_types
      >> for_type role_assignments (sync_role_assignments_data u namespace) sc.data_types

  abbrev pub lift : {A : Type 0} → Result A → Exec W A
  lift r w = (r, w)

  -- the part behind the black lists
  unfoldable pub sync_into : SyncConfig → UserInfo → Exec W Unit
  unfolding sync_types format_namespace_name lookup_text
  sync_into sc u = lift (first_value (extra_of project_id_key u)) >>= λ id.
      lift (first_value (extra_of project_name_key u)) >>= λ name.
      lift (first_value (extra_of domain_id_key u)) >>= λ domain.
      sync_types sc u (format_namespace_name sc id name domain)

abbrev pub unless_listed : {W : Type 0} → Bool → Exec W Unit → Exec W Unit
unless_listed true rest = pure tt
unless_listed false rest = rest

-- syncData; `none` is the nil of the client.
unfoldable pub sync_data :
    {W : Type 0} → Option (Kubernetes W) → SyncConfig → UserInfo → Exec W Unit
unfolding sync_into lookup_text text_eq
sync_data client sc u =
    (λ w. (in_black_list sc.project_black_list (first_value (extra_of project_id_key u)), w))
    >>= λ black. unless_listed black (
        (λ w.
          (in_black_list sc.project_name_black_list (first_value (extra_of project_name_key u)), w))
        >>= λ name_black. unless_listed name_black (elim client [
          | none ↦ fail (message "cannot sync data because k8s client is not initialized")
          | some k8s ↦ sync_into k8s sc u
        ]))
