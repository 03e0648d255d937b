-- ===== src/Keystone/SyncLaws.antt =====
-- What the synchronisation of role bindings, pkg/identity/keystone/sync.go, leaves in a namespace.
use cloud_provider_openstack.Prelude.Strings.{text_eq, Text, text_eq_iff}
use cloud_provider_openstack.Prelude.{
  not, ◌≡◌, ◌&&◌, inr, refl, List, [], ◌||◌, inl, arith, Bool, ◌∷◌, ◌⊎◌, true, ap, false, ◌∙◌,
  if◌then◌else◌, sym,
}
use cloud_provider_openstack.Keystone.Sync.{
  extra_of, belongs_to, Kubernetes, or_internal, RoleBinding, delete_bindings, with_internal,
  is_own, binding_of, create_bindings, sync_role_assignments_data, change_bindings, change_listed,
}
use cloud_provider_openstack.Keystone.Policy.{UserInfo, roles_key}
use cloud_provider_openstack.Keystone.Namespaces.{has_text}
use cloud_provider_openstack.Go.{Exec, continue, ◌>>◌, ok, Result, err}

-- What is relied on of Kubernetes: `holds` says which bindings a namespace has. A list names them, a
-- request to delete or to create that answers has done so and nothing else, and a list changes nothing.
pub record Bindings {W : Type 0} (k8s : Kubernetes W) (holds : Text → Text → W → Bool)
    : Type 0 where
  pub lists :
      (namespace : Text) (w : W) (names : List Text)
      → (k8s.bindings_list namespace w).0 ≡ ok names
      → (n : Text) → has_text n names ≡ holds namespace n w
  pub list_keeps :
      (namespace : Text) (w : W) (n : Text)
      → holds namespace n (k8s.bindings_list namespace w).1 ≡ holds namespace n w
  pub deletes :
      (namespace name : Text) (w : W)
      → (k8s.binding_delete namespace name w).0 ≡ ok tt
      → (n : Text)
      → holds namespace n (k8s.binding_delete namespace name w).1
        ≡ (holds namespace n w && not (text_eq name n))
  pub creates :
      (namespace : Text) (b : RoleBinding) (w : W)
      → (k8s.binding_create namespace b w).0 ≡ ok tt
      → (n : Text)
      → holds namespace n (k8s.binding_create namespace b w).1
        ≡ (holds namespace n w || text_eq b.binding_name n)

module _ {W : Type 0} (k8s : Kubernetes W) (u : UserInfo) (namespace : Text) where
  abbrev own : Text → Bool
  own n = is_own u.uid (extra_of roles_key u) n

  abbrev stale : Text → Bool
  stale n = belongs_to u.uid n && not (own n)

  -- where a loop goes on, if it succeeds: behind the call of this round, or at once
  step :
      (b : Bool) (m rest : Exec W Unit) (w : W)
      → (if◌then◌else◌ {A = Exec W Unit} b (with_internal k8s m >> rest) rest w).0 ≡ ok tt
      → (v : W) × ((rest v).0 ≡ ok tt)
        × ((if◌then◌else◌ {A = Exec W Unit} b (with_internal k8s m >> rest) rest w).1 ≡ (rest v).1)
        × (((b ≡ true) × ((m w).0 ≡ ok tt) × (v ≡ (m w).1)) ⊎ ((b ≡ false) × (v ≡ w)))
  step false m rest w h = (w, h, refl, inr (refl, refl))
  step true m rest w h = by_answer (m w).0 h
    where
      by_answer :
          (r : Result Unit)
          → (continue (or_internal r) (λ _. rest) (m w).1).0 ≡ ok tt
          → (v : W) × ((rest v).0 ≡ ok tt)
            × ((continue (or_internal r) (λ _. rest) (m w).1).1 ≡ (rest v).1)
            × (((true ≡ true) × (r ≡ ok tt) × (v ≡ (m w).1)) ⊎ ((true ≡ false) × (v ≡ w)))
      by_answer (ok x) k = ((m w).1, k, refl, inl (refl, refl, refl))
      by_answer (err e) k = absurd (ground (arith, k))

  then_ok :
      (m rest : Exec W Unit) (w : W)
      → ((m >> rest) w).0 ≡ ok tt
      → ((m w).0 ≡ ok tt) × ((rest (m w).1).0 ≡ ok tt) × (((m >> rest) w).1 ≡ (rest (m w).1).1)
  then_ok m rest w h = by_answer (m w).0 h
    where
      by_answer :
          (r : Result Unit)
          → (continue r (λ _. rest) (m w).1).0 ≡ ok tt
          → (r ≡ ok tt)
            × ((rest (m w).1).0 ≡ ok tt)
            × ((continue r (λ _. rest) (m w).1).1 ≡ (rest (m w).1).1)
      by_answer (ok x) k = (refl, k, refl)
      by_answer (err e) k = absurd (ground (arith, k))

  same_stale : (x n : Text) → text_eq x n ≡ true → stale x ≡ stale n
  same_stale x n h = ap stale ((text_eq_iff x n).0 h)

  same_member :
      (x n : Text) (names : List Text) → text_eq x n ≡ true → has_text x names ≡ has_text n names
  same_member x n names h = ap (λ y. has_text y names) ((text_eq_iff x n).0 h)

  module _ (holds : Text → Text → W → Bool) (laws : Bindings k8s holds) where
    deleted :
        (names : List Text) (w : W) (n : Text)
        → (delete_bindings k8s u namespace names w).0 ≡ ok tt
        → holds namespace n (delete_bindings k8s u namespace names w).1
          ≡ (holds namespace n w && not (has_text n names && stale n))
    unfolding delete_bindings
    deleted [] w n h = ground arith
    deleted (x ∷ names) w n h =
        let (v, rest_ok, end, way) =
          step (stale x) (k8s.binding_delete namespace x) (delete_bindings k8s u namespace names) w
            h in
        let passed : holds namespace n v ≡ (holds namespace n w && not (stale x && text_eq x n)) =
          elim way [
            | inl (gone, answered, at) ↦
                ap (holds namespace n) at
                ∙ laws.deletes namespace x w answered n
                ∙ ground (arith, gone)
            | inr (kept, at) ↦ ap (holds namespace n) at ∙ ground (arith, kept)
          ] in
        ap (holds namespace n) end
        ∙ deleted names v n rest_ok
        ∙ ground (arith, passed, same_stale x n)

    created :
        (names roles : List Text) (w : W) (n : Text)
        → (create_bindings k8s u namespace names roles w).0 ≡ ok tt
        → holds namespace n (create_bindings k8s u namespace names roles w).1
          ≡ (holds namespace n w || (is_own u.uid roles n && not (has_text n names)))
    unfolding create_bindings
    created names [] w n h = ground arith
    created names (role ∷ roles) w n h =
        let name = binding_of u.uid role in
        let b : RoleBinding = record {
          binding_name = name;
          subject = u.name;
          cluster_role = role;
        } in
        let (v, rest_ok, end, way) =
          step (not (has_text name names)) (k8s.binding_create namespace b)
            (create_bindings k8s u namespace names roles) w h in
        let passed : holds namespace n v
            ≡ (holds namespace n w || (not (has_text name names) && text_eq name n)) =
          elim way [
            | inl (missing, answered, at) ↦
                ap (holds namespace n) at
                ∙ laws.creates namespace b w answered n
                ∙ ground (arith, missing)
            | inr (there, at) ↦ ap (holds namespace n) at ∙ ground (arith, there)
          ] in
        ap (holds namespace n) end
        ∙ created names roles v n rest_ok
        ∙ ground (arith, passed, same_member name n names)

    changed :
        (names : List Text) (v : W) (n : Text)
        → has_text n names ≡ holds namespace n v
        → (change_bindings k8s u namespace names v).0 ≡ ok tt
        → holds namespace n (change_bindings k8s u namespace names v).1
          ≡ ((holds namespace n v && not (belongs_to u.uid n)) || own n)
    changed names v n same h =
        let roles = extra_of roles_key u in
        let (deleted_ok, created_ok, end) =
          then_ok (delete_bindings k8s u namespace names)
            (create_bindings k8s u namespace names roles) v h in
        ap (holds namespace n) end
        ∙ created names roles (delete_bindings k8s u namespace names v).1 n created_ok
        ∙ ground (arith, same, deleted names v n deleted_ok)

    -- A synchronisation that succeeds leaves in the namespace exactly the bindings of others that
    -- were there before, and one for each role of the user.
    pub sync_role_assignments_data-exact :
        (w : W)
        → (sync_role_assignments_data k8s u namespace w).0 ≡ ok tt
        → (n : Text)
        → holds namespace n (sync_role_assignments_data k8s u namespace w).1 ≡ (
            (holds namespace n w && not (belongs_to u.uid n))
            || is_own u.uid (extra_of roles_key u) n)
    unfolding sync_role_assignments_data
    sync_role_assignments_data-exact w h n =
        by_list (k8s.bindings_list namespace w).0 (laws.lists namespace w) h
      where
        by_list :
            (r : Result (List Text))
            → ((names : List Text)
                → r ≡ ok names
                → (m : Text) → has_text m names ≡ holds namespace m w)
            → (change_listed k8s u namespace r (k8s.bindings_list namespace w).1).0 ≡ ok tt
            → holds namespace n
                (change_listed k8s u namespace r (k8s.bindings_list namespace w).1).1
              ≡ ((holds namespace n w && not (belongs_to u.uid n)) || own n)
        by_list (err e) named k = absurd (ground (arith, k))
        by_list (ok names) named k =
            let kept = laws.list_keeps namespace w n in
            changed names (k8s.bindings_list namespace w).1 n (named names refl n ∙ sym kept) k
            ∙ ap (λ b. (b && not (belongs_to u.uid n)) || own n) kept
