-- ===== src/Instances/V2.antt =====
-- pkg/openstack/instancesv2.go: the methods of `InstancesV2`. A node is its name and its provider id.
-- The compute client is asked for servers, the network client for ports.
use cloud_provider_openstack.Routes.Api.{NodeAddress}
use cloud_provider_openstack.Prelude.Strings.{Text, concat, text_eq}
use cloud_provider_openstack.Prelude.{
  ◌++◌, List, ◌∷◌, Bool, String, true, false, [], ◌==◌, if◌then◌else◌,
}
use cloud_provider_openstack.Instances.Servers.{
  instance_shutoff, get_attached_ports, instance_not_found, foreign_region, srv_instance_type,
  with_id, is_foreign,
}
use cloud_provider_openstack.Instances.ProviderId.{instance_id_from_provider_id, scheme}
use cloud_provider_openstack.Instances.Api.{
  Server, Cloud, InstancesConf, Readers, network_client, compute_client,
}
use cloud_provider_openstack.Instances.AddressList.{node_addresses_of}
use cloud_provider_openstack.Go.{
  ◌>>=◌, Result, Exec, Error, ok, err, message, not_found, pure, continue,
}

-- v1.Node as it is read here
pub record NodeRef : Type 0 where
  pub node_name : String
  pub provider_id : Text

-- cloudprovider.InstanceMetadata, with its zone and region
pub record MetadataV2 : Type 0 where
  pub provider_id : Text
  pub instance_type : String
  pub node_addresses : List NodeAddress
  pub zone : String
  pub region : Text

-- AllPages and ExtractServersInto
unfoldable pub join_pages : List (Result (List Server)) → Result (List Server)
join_pages [] = ok []
join_pages (err e ∷ pages) = err (message "error listing servers")
join_pages (ok s ∷ pages) = elim (join_pages pages) [ ok rest ↦ ok (s ++ rest) | err e ↦ err e ]

abbrev pub only_server : List Server → Result Server
only_server [] = err instance_not_found
only_server (srv ∷ []) = ok srv
only_server (_ ∷ _ ∷ _) = err (message "getInstance: multiple instances found")

abbrev pub missing_instance : Error → Error
missing_instance not_found = instance_not_found
missing_instance e = e

module _ {W : Type 0} {N : Type 0} (cloud : Cloud W) (readers : Readers N) (i : InstancesConf) where
  -- The name is put between "^" and "$" as it is.
  unfoldable pub instance_by_name : String → Exec W Server
  unfolding join_pages
  instance_by_name name w =
      let (pages, u) = cloud.server_pages compute_client (concat (concat "^" name) "$") w in
      continue (join_pages pages) (λ servers v. (only_server servers, v)) u

  -- An answer that the server is not found is the error that the instance is not found.
  unfoldable pub instance_in : Text → Text → Exec W Server
  unfolding is_foreign
  instance_in id region w =
      let (r, u) = cloud.server_get compute_client id w in
      if is_foreign i.region region
      then (err foreign_region, w)
      else (elim r [ ok srv ↦ ok srv | err e ↦ err (missing_instance e) ], u)

  unfoldable pub get_instance : NodeRef → Exec W Server
  unfolding instance_by_name instance_in instance_id_from_provider_id text_eq
  get_instance node =
      if text_eq node.provider_id []
      then instance_by_name node.node_name
      else with_id (instance_id_from_provider_id node.provider_id) instance_in

  -- `err == cloudprovider.InstanceNotFound`, which is compared by its text
  abbrev pub exists_v2 : Result Server → Result Bool
  exists_v2 (ok srv) = ok true
  exists_v2 (err (message s)) = if s == "instance not found" then ok false else err (message s)
  exists_v2 (err e) = err e

  unfoldable pub v2_instance_exists : NodeRef → Exec W Bool
  unfolding get_instance
  v2_instance_exists node w = let (r, u) = get_instance node w in (exists_v2 r, u)

  unfoldable pub v2_instance_shutdown : NodeRef → Exec W Bool
  unfolding get_instance
  v2_instance_shutdown node = get_instance node >>= λ srv. pure (srv.status == instance_shutoff)

  -- makeInstanceID
  unfoldable pub make_instance_id : Server → Text
  make_instance_id srv =
      if i.region_provider_id then scheme ++ i.region ++ b'/' ∷ srv.id else scheme ++ b'/' ∷ srv.id

  unfoldable pub v2_instance_metadata : NodeRef → Exec W MetadataV2
  unfolding get_instance srv_instance_type get_attached_ports node_addresses_of make_instance_id
  v2_instance_metadata node = get_instance node >>= λ srv.
      srv_instance_type cloud readers srv >>= λ kind.
      get_attached_ports cloud readers network_client srv.id >>= λ ports.
      node_addresses_of readers i.address_opts cloud network_client srv ports >>= λ addresses.
      pure (record {
        provider_id = make_instance_id srv;
        instance_type = kind;
        node_addresses = addresses;
        zone = srv.availability_zone;
        region = i.region;
      })
