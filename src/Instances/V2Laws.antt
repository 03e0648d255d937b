-- ===== src/Instances/V2Laws.antt =====
-- How `InstancesV2` of pkg/openstack/instancesv2.go answers beside `Instances` of instances.go, and
-- how it reads the provider ids that it makes.
use cloud_provider_openstack.Prelude.Strings.{text_eq, Text}
use cloud_provider_openstack.Prelude.{
  String, true, ◌∷◌, some, [], ◌≡◌, refl, inl, false, ℕ, inr, ap, Bool-cases,
}
use cloud_provider_openstack.Instances.V2.{
  v2_instance_exists, missing_instance, make_instance_id, exists_v2, get_instance,
}
use cloud_provider_openstack.Instances.Servers.{
  exists_answer, is_foreign, foreign_region, instance_exists_by_provider_id,
}
use cloud_provider_openstack.Instances.ServerLaws.{own_region}
use cloud_provider_openstack.Instances.ProviderId.{
  instance_id_from_provider_id, lacks_slash, instance_id_from_provider_id-read,
}
use cloud_provider_openstack.Instances.Api.{Cloud, Readers, Server, InstancesConf, compute_client}
use cloud_provider_openstack.Go.{
  multiple_results, message, conflict, no_router_id, Result, not_found, api, bad_request, ok, err,
  no_address_found, timed_out, panicked, no_node_informer,
}

module _ {W : Type 0} {N : Type 0} (cloud : Cloud W) (readers : Readers N) (i : InstancesConf) where
  abbrev looked_up : Result Server → Result Server
  looked_up r = elim r [ ok srv ↦ ok srv | err e ↦ err (missing_instance e) ]

  same_answer :
      (r : Result Server)
      → ((s : String) → ¬ (r ≡ err (message s)))
      → exists_v2 cloud readers i (looked_up r) ≡ exists_answer cloud readers i r
  same_answer (ok srv) h = refl
  same_answer (err not_found) h = refl
  same_answer (err multiple_results) h = refl
  same_answer (err no_address_found) h = refl
  same_answer (err no_router_id) h = refl
  same_answer (err no_node_informer) h = refl
  same_answer (err (api s)) h = refl
  same_answer (err (message s)) h = absurd (h s refl)
  same_answer (err conflict) h = refl
  same_answer (err bad_request) h = refl
  same_answer (err timed_out) h = refl
  same_answer (err panicked) h = refl

  -- For a node whose provider id is read and names no foreign region, where the errors of Nova are
  -- those of its API, InstanceExists answers the same in both versions, and leaves the same world.
  pub v2_instance_exists-same :
      (name : String) (provider_id id region : Text) (w : W)
      → text_eq provider_id [] ≡ false
      → instance_id_from_provider_id provider_id ≡ some (id, region)
      → is_foreign i.region region ≡ false
      → ((s : String) → ¬ ((cloud.server_get compute_client id w).0 ≡ err (message s)))
      → v2_instance_exists cloud readers i
          (record { node_name = name; provider_id = provider_id })
          w
        ≡ instance_exists_by_provider_id cloud readers i provider_id w
  unfolding v2_instance_exists instance_exists_by_provider_id
  v2_instance_exists-same name provider_id id region w given read own errors = rw given (
      rw read (
        rw own (
          ap (λ r. (r, (cloud.server_get compute_client id w).1))
            (same_answer (cloud.server_get compute_client id w).0 errors))))

  -- In a foreign region the first version takes the node for existing, the second one fails.
  pub v2_instance_exists-foreign :
      (name : String) (provider_id id region : Text) (w : W)
      → text_eq provider_id [] ≡ false
      → instance_id_from_provider_id provider_id ≡ some (id, region)
      → is_foreign i.region region ≡ true
      → ((instance_exists_by_provider_id cloud readers i provider_id w).0 ≡ ok true)
        × ((v2_instance_exists cloud readers i
              (record { node_name = name; provider_id = provider_id })
              w).0
            ≡ err foreign_region)
  unfolding v2_instance_exists instance_exists_by_provider_id
  v2_instance_exists-foreign name provider_id id region w given read foreign =
      (rw read (rw foreign refl), rw given (rw read (rw foreign refl)))

  home_region : is_foreign i.region [] ≡ false
  unfolding is_foreign
  home_region = refl

  id_given : (srv : Server) → text_eq (make_instance_id cloud readers i srv) [] ≡ false
  unfolding make_instance_id text_eq
  id_given srv = elim (Bool-cases i.region_provider_id) [
    | inl regional ↦ rw regional refl
    | inr plain ↦ rw plain refl
  ]

  made_id :
      (srv : Server) (c : ℕ) (id : Text)
      → srv.id ≡ c ∷ id
      → lacks_slash (c ∷ id) ≡ true
      → lacks_slash i.region ≡ true
      → (region : Text) × (instance_id_from_provider_id (make_instance_id cloud readers i srv)
          ≡ some (srv.id, region))
        × (is_foreign i.region region ≡ false)
  unfolding make_instance_id
  made_id srv c id same h k = elim (Bool-cases i.region_provider_id) [
    | inl regional ↦ rw regional (
        rw same (
          i.region,
          (instance_id_from_provider_id-read i.region c id k h).0,
          own_region cloud readers i i.region,
        ))
    | inr plain ↦
        rw plain (rw same ([], (instance_id_from_provider_id-read [] c id refl h).0, home_region))
  ]

  -- The provider id that InstanceMetadata answers for a server, whose id is not empty and has, like
  -- the region, no slash, leads back to the server that Nova holds under that id, for any node name.
  pub get_instance-make_instance_id :
      (name : String) (srv found : Server) (c : ℕ) (id : Text) (w : W)
      → srv.id ≡ c ∷ id
      → lacks_slash (c ∷ id) ≡ true
      → lacks_slash i.region ≡ true
      → (cloud.server_get compute_client srv.id w).0 ≡ ok found
      → (get_instance cloud readers i
          (record { node_name = name; provider_id = make_instance_id cloud readers i srv })
          w).0
        ≡ ok found
  unfolding get_instance
  get_instance-make_instance_id name srv found c id w same h k held =
      let (region, read, own) = made_id srv c id same h k in
      rw (id_given srv) (rw read (rw own (rw held refl)))
