-- ===== src/Keystone/SyncTests.antt =====
-- The synchronisation at a concrete user and namespace.
use cloud_provider_openstack.Prelude.Strings.{Text, text_eq, codes, text_eq_iff}
use cloud_provider_openstack.Prelude.{
  ◌≡◌, inr, ◌∙◌, inl, false, not, ◌++◌, sym, List, [], arith, true, some, ◌||◌, ◌∷◌, refl, ◌&&◌, ap,
  if◌then◌else◌, Bool-cases, any-append,
}
use cloud_provider_openstack.Keystone.SyncLaws.{Bindings, sync_role_assignments_data-exact}
use cloud_provider_openstack.Keystone.Sync.{
  Kubernetes, is_own, belongs_to, sync_role_assignments_data, domain_id_key, sync_data,
}
use cloud_provider_openstack.Keystone.Policy.{roles_key, UserInfo, project_id_key, project_name_key}
use cloud_provider_openstack.Keystone.Namespaces.{
  SyncConfig, role_assignments, has_text, format_namespace_name, validate, projects,
}
use cloud_provider_openstack.Go.{err, ok, ok-injective, not_found}

without_text : Text → List Text → List Text
without_text name [] = []
without_text name (x ∷ names) =
    let rest = without_text name names in if text_eq name x then rest else x ∷ rest

-- Kubernetes as the list of the names of one namespace
abbrev test_k8s : Kubernetes (List Text)
test_k8s = record {
  namespace_get = λ ns w. (err not_found, w);
  namespace_create = λ ns w. (ok tt, w);
  bindings_list = λ ns w. (ok w, w);
  binding_delete = λ ns name w. (ok tt, without_text name w);
  binding_create = λ ns b w. (ok tt, w ++ b.binding_name ∷ []);
}

has-without_text :
    (name : Text) (names : List Text) (n : Text)
    → has_text n (without_text name names) ≡ (has_text n names && not (text_eq name n))
unfolding without_text
has-without_text name [] n = refl
has-without_text name (x ∷ names) n =
    let later = has-without_text name names n in
    elim (Bool-cases (text_eq name x)) [
      | inl same ↦
          rw same (ground (arith, later, ap (λ y. text_eq y n) ((text_eq_iff name x).0 same)))
      | inr other ↦ rw other (ground (arith, later, no_match other))
    ]
  where
    no_match : text_eq name x ≡ false → text_eq x n ≡ true → text_eq name n ≡ false
    no_match other h = sym (ap (text_eq name) ((text_eq_iff x n).0 h)) ∙ other

test_k8s-Bindings : Bindings test_k8s (λ ns n w. has_text n w)
test_k8s-Bindings = record {
  lists = λ ns w names h n. ap (has_text n) (sym (ok-injective h));
  list_keeps = λ ns w n. refl;
  deletes = λ ns name w h n. has-without_text name w n;
  creates = λ ns b w h n. any-append (λ x. text_eq x n) w (b.binding_name ∷ []) ∙ ground arith;
}

abbrev test_user : UserInfo
test_user = record {
  name = codes "alice";
  uid = codes "a1";
  groups = [];
  extra = some (
      (roles_key, codes "member" ∷ codes "reader" ∷ [])
      ∷ (project_id_key, codes "p7" ∷ [])
      ∷ (project_name_key, codes "dev" ∷ [])
      ∷ (domain_id_key, codes "default" ∷ [])
      ∷ []);
}

abbrev before_sync : List Text
before_sync = codes "a1_admin" ∷ codes "b2_admin" ∷ codes "a1_reader" ∷ codes "manual" ∷ []

abbrev after_sync : List Text
after_sync = codes "b2_admin" ∷ codes "a1_reader" ∷ codes "manual" ∷ codes "a1_member" ∷ []

synced :
    sync_role_assignments_data test_k8s test_user (codes "dev-p7") before_sync ≡ (ok tt, after_sync)
unfolding sync_role_assignments_data without_text
synced = refl

sync_role_assignments_data-exact_example : has_text (codes "a1_admin") after_sync ≡ (
    (has_text (codes "a1_admin") before_sync && not (belongs_to (codes "a1") (codes "a1_admin")))
    || is_own (codes "a1") (codes "member" ∷ codes "reader" ∷ []) (codes "a1_admin"))
unfolding sync_role_assignments_data without_text
sync_role_assignments_data-exact_example =
    sync_role_assignments_data-exact test_k8s test_user (codes "dev-p7") (λ ns n w. has_text n w)
      test_k8s-Bindings before_sync refl (codes "a1_admin")

abbrev test_sync : SyncConfig
test_sync = record {
  data_types = projects ∷ role_assignments ∷ [];
  namespace_format = codes "%n-%i";
  project_black_list = [];
  project_name_black_list = codes "ops" ∷ [];
  role_maps = [];
}

valid_sync : validate test_sync ≡ true
unfolding validate
valid_sync = refl

namespace_of_project :
    format_namespace_name test_sync (codes "p7") (codes "dev") (codes "default") ≡ codes "dev-p7"
unfolding format_namespace_name
namespace_of_project = refl

synced_all : sync_data (some test_k8s) test_sync test_user before_sync ≡ (ok tt, after_sync)
unfolding sync_data without_text
synced_all = refl
