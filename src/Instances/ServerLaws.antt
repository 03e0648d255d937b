-- ===== src/Instances/ServerLaws.antt =====
-- When a node is reported as gone, what an instance's id stands for, and which client the addresses
-- of a node by its name are asked with; pkg/openstack/instances.go.
use mathlib.Core.Bool.{false≢true}
use cloud_provider_openstack.Prelude.Strings.{Text, text_eq_iff}
use cloud_provider_openstack.Prelude.{
  some, ◌↔◌, false, ◌∷◌, ◌≡◌, ◌++◌, true, ℕ, String, refl, inr, Option, inl, none, Bool-cases, ap,
  arith, [], ◌∙◌, sym,
}
use cloud_provider_openstack.Instances.Servers.{
  node_addresses, get_attached_ports, get_server_by_name, own_server, find_server_by_name,
  instance_id, instance_exists_by_provider_id, id_text, get_addresses_by_name, is_foreign, with_id,
  exists_in, server_in, exists_answer,
}
use cloud_provider_openstack.Instances.ProviderId.{
  scheme, instance_id_from_provider_id, lacks_slash, instance_id_from_provider_id-read,
}
use cloud_provider_openstack.Instances.Api.{compute_client, Cloud, Readers, InstancesConf, Server}
use cloud_provider_openstack.Instances.AddressList.{node_addresses_of}
use cloud_provider_openstack.Go.{
  ok, ◌>>=◌, not_found, err, fails_first, fails_then, is_ok, timed_out, no_node_informer,
  no_address_found, panicked, no_router_id, message, api, conflict, multiple_results, Result,
  bad_request,
}

module _ {W : Type 0} {N : Type 0} (cloud : Cloud W) (readers : Readers N) (i : InstancesConf) where
  gone_answer :
      (r : Result Server) → (exists_answer cloud readers i r ≡ ok false) ↔ (r ≡ err not_found)
  gone_answer (ok srv) = ground arith
  gone_answer (err not_found) = (λ h. refl, λ h. refl)
  gone_answer (err multiple_results) = ground arith
  gone_answer (err no_address_found) = ground arith
  gone_answer (err no_router_id) = ground arith
  gone_answer (err no_node_informer) = ground arith
  gone_answer (err (api s)) = ground arith
  gone_answer (err (message s)) = ground arith
  gone_answer (err conflict) = ground arith
  gone_answer (err bad_request) = ground arith
  gone_answer (err timed_out) = ground arith
  gone_answer (err panicked) = ground arith

  gone_iff :
      (id region : Text) (w : W)
      → ((exists_in cloud readers i id region w).0 ≡ ok false) ↔ (
          (is_foreign i.region region ≡ false)
          × ((cloud.server_get compute_client id w).0 ≡ err not_found))
  unfolding exists_in
  gone_iff id region w = elim (Bool-cases (is_foreign i.region region)) [
    | inl foreign ↦
        rw foreign (λ h. absurd (ground (arith, h)), λ h. absurd (false≢true (sym (h.0))))
    | inr own ↦
        let (forward, back) = gone_answer (cloud.server_get compute_client id w).0 in
        rw own (λ h. (refl, forward h), λ h. back (h.1))
  ]

  -- A node is reported as gone, without an error, exactly if its provider id is read, its region is
  -- empty or the own one, and Nova answers that it has no such server.
  pub instance_exists_by_provider_id-gone :
      (provider_id : Text) (w : W)
      → ((instance_exists_by_provider_id cloud readers i provider_id w).0 ≡ ok false) ↔ (
          (id : Text) × (region : Text) × (instance_id_from_provider_id provider_id
            ≡ some (id, region))
          × (is_foreign i.region region ≡ false)
          × ((cloud.server_get compute_client id w).0 ≡ err not_found))
  unfolding instance_exists_by_provider_id
  instance_exists_by_provider_id-gone provider_id w =
      by_id (instance_id_from_provider_id provider_id)
    where
      by_id :
          (found : Option (Text × Text))
          → ((with_id found (exists_in cloud readers i) w).0 ≡ ok false) ↔ (
              (id : Text) × (region : Text) × (found ≡ some (id, region))
              × (is_foreign i.region region ≡ false)
              × ((cloud.server_get compute_client id w).0 ≡ err not_found))
      by_id none = (
        λ h. absurd (ground (arith, h)),
        λ (id, region, same, own, missing). absurd (ground (arith, same)),
      )
      by_id (some (id, region)) =
          let (forward, back) = gone_iff id region w in
          (
            λ h. (id, region, refl, (forward h).0, (forward h).1),
            λ (id', region', same, own, missing).
                let pair : (id, region) ≡ (id', region') =
                  ap {B = Text × Text} (λ o. elim o [ none ↦ (id, region) | some found ↦ found ])
                    same in
                back (
                  ap (λ q. is_foreign i.region q.1) pair ∙ own,
                  ap (λ q. (cloud.server_get compute_client q.0 w).0) pair ∙ missing,
                ),
          )

  pub own_region : (region : Text) → is_foreign region region ≡ false
  unfolding is_foreign
  own_region region = ground (arith, (text_eq_iff region region).1 refl)

  in_region :
      (id region : Text)
      → is_foreign i.region region ≡ false
      → (w : W) → server_in cloud readers i id region w ≡ cloud.server_get compute_client id w
  unfolding server_in
  in_region id region own w = rw own refl

  asks_own :
      (srv : Server) (c : ℕ) (id : Text)
      → srv.id ≡ c ∷ id
      → lacks_slash (c ∷ id) ≡ true
      → lacks_slash i.region ≡ true
      → (w : W)
      → own_server cloud readers i (scheme ++ id_text cloud readers i srv) w
        ≡ cloud.server_get compute_client srv.id w
  unfolding own_server
  asks_own srv c id same h k w = elim (Bool-cases i.region_provider_id) [
    | inl regional ↦ rw regional (
        rw same (
          ap (λ f. with_id f (server_in cloud readers i) w)
            ((instance_id_from_provider_id-read i.region c id k h).0)
          ∙ in_region (c ∷ id) i.region (own_region i.region) w))
    | inr plain ↦ rw plain (
        rw same (
          ap (λ f. with_id f (server_in cloud readers i) w)
            ((instance_id_from_provider_id-read [] c id refl h).0)
          ∙ in_region (c ∷ id) [] refl w))
  ]

  -- Where a server of the name is found, whose id is not empty and has, like the region, no slash:
  -- the id that InstanceID answers is read back, behind the scheme, as a server of no foreign region,
  -- so that the methods on provider ids ask Nova for that server.
  pub instance_id-read :
      (name : String) (srv : Server) (c : ℕ) (id : Text) (w : W)
      → (find_server_by_name cloud readers compute_client name w).0 ≡ ok (some srv)
      → srv.id ≡ c ∷ id
      → lacks_slash (c ∷ id) ≡ true
      → lacks_slash i.region ≡ true
      → (text : Text) × ((instance_id cloud readers i name w).0 ≡ ok text)
        × ((u : W)
            → own_server cloud readers i (scheme ++ text) u
              ≡ cloud.server_get compute_client srv.id u)
  unfolding instance_id
  instance_id-read name srv c id w found same h k =
      (id_text cloud readers i srv, rw found refl, λ u. asks_own srv c id same h k u)

  -- Where Nova answers no request for ports, which only Neutron knows, NodeAddresses fails for every
  -- name, whatever Neutron holds: the ports are asked of the client of Nova.
  pub node_addresses_asks_nova :
      ((id : Text) (u : W) → is_ok (cloud.ports_of compute_client id u).0 ≡ false)
      → (name : String) (w : W) → is_ok (node_addresses cloud readers i name w).0 ≡ false
  unfolding node_addresses get_addresses_by_name get_attached_ports
  node_addresses_asks_nova fails name w =
      fails_then (get_server_by_name cloud readers compute_client name)
        (λ srv. cloud.ports_of compute_client srv.id >>= λ ports.
          node_addresses_of readers i.address_opts cloud compute_client srv ports)
        w
        (λ srv u.
          fails_first (cloud.ports_of compute_client srv.id)
            (λ ports. node_addresses_of readers i.address_opts cloud compute_client srv ports) u
            (fails srv.id u))
