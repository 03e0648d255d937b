-- ===== src/Instances/Servers.antt =====
-- The methods of `Instances` of pkg/openstack/instances.go, with getServerByName, getAttachedPorts,
-- getAddressesByName and srvInstanceType.
use cloud_provider_openstack.Routes.Api.{NodeAddress}
use cloud_provider_openstack.Prelude.Strings.{Text, text_eq}
use cloud_provider_openstack.Prelude.Maps.{find_entry}
use cloud_provider_openstack.Prelude.{
  false, [], Bool, true, ◌&&◌, List, ◌++◌, none, ◌==◌, ◌∷◌, some, not, Option, String,
  if◌then◌else◌, ltb, length,
}
use cloud_provider_openstack.Instances.ProviderId.{instance_id_from_provider_id}
use cloud_provider_openstack.Instances.Api.{
  Cloud, InstancesConf, Server, Readers, AddressOpts, Client, Metadata, TrunkPort, compute_client,
  network_client,
}
use cloud_provider_openstack.Instances.AddressList.{node_addresses_of}
use cloud_provider_openstack.Go.{
  fail, pure, ◌>>=◌, multiple_results, Result, Exec, Error, not_found, message, ok, err, continue,
}

-- the error for an id that cannot be read, and the one for a foreign region
abbrev pub unread_id : Error
unread_id = message "ProviderID didn't match expected format"

abbrev pub foreign_region : Error
foreign_region = message "ProviderID didn't match supported region"

-- cloudprovider.InstanceNotFound
abbrev pub instance_not_found : Error
instance_not_found = message "instance not found"

-- instanceShutoff
abbrev pub instance_shutoff : String
instance_shutoff = "SHUTOFF"

-- `instanceRegion != "" && instanceRegion != region`
unfoldable pub is_foreign : Text → Text → Bool
unfolding text_eq
is_foreign own region = not (text_eq region []) && not (text_eq region own)

-- what follows `instanceIDFromProviderID` and the return of its error
abbrev pub with_id : {W A : Type 0} → Option (Text × Text) → (Text → Text → Exec W A) → Exec W A
with_id none k = fail unread_id
with_id (some (id, region)) k = k id region

module _ {W : Type 0} {N : Type 0} (cloud : Cloud W) (readers : Readers N) where
  -- pager.EachPage with the function that collects the servers
  unfoldable pub collect_pages : List Server → List (Result (List Server)) → Result (List Server)
  collect_pages servers [] = ok servers
  collect_pages servers (err e ∷ pages) = err e
  collect_pages servers (ok s ∷ pages) =
      let all_servers = servers ++ s in
      let rest = collect_pages all_servers pages in
      if ltb 1 (length all_servers) then err multiple_results else rest

  abbrev pub first_of : List Server → Option Server
  first_of [] = none
  first_of (srv ∷ _) = some srv

  -- getServerByName, where ErrNotFound of its own is `none`
  unfoldable pub find_server_by_name : Client → String → Exec W (Option Server)
  unfolding collect_pages
  find_server_by_name client name w =
      let (pages, u) = cloud.server_pages client (readers.exactly name) w in
      continue (collect_pages [] pages) (λ servers. pure (first_of servers)) u

  abbrev pub or_not_found : Option Server → Exec W Server
  or_not_found none = fail not_found
  or_not_found (some srv) = pure srv

  unfoldable pub get_server_by_name : Client → String → Exec W Server
  unfolding find_server_by_name
  get_server_by_name client name = find_server_by_name client name >>= or_not_found

  unfoldable pub get_attached_ports : Client → Text → Exec W (List TrunkPort)
  get_attached_ports client server_id = cloud.ports_of client server_id

  unfoldable pub get_addresses_by_name : Client → String → AddressOpts → Exec W (List NodeAddress)
  unfolding get_server_by_name get_attached_ports node_addresses_of
  get_addresses_by_name client name opts = get_server_by_name client name >>= λ srv.
      get_attached_ports client srv.id >>= λ ports.
      node_addresses_of readers opts cloud client srv ports

  -- a key of the flavor that is a text, tried as in the loop of srvInstanceType; `none` goes on
  unfoldable pub flavor_of_key : String → Server → Exec W (Option String)
  unfolding find_entry
  flavor_of_key key srv w = elim (find_entry key srv.flavor) [
    | none ↦ (ok none, w)
    | some none ↦ (ok none, w)
    | some (some flavor) ↦
        let (r, u) = cloud.flavor_get compute_client flavor w in
        if key == "original_name" && readers.is_label flavor
        then (ok (some flavor), w)
        else elim r [
          | err e ↦ (ok none, u)
          | ok f ↦ (ok (some (if readers.is_label f.name then f.name else f.id)), u)
        ]
  ]

  abbrev pub or_go_on : Exec W String → Option String → Exec W String
  or_go_on rest none = rest
  or_go_on rest (some found) = pure found

  unfoldable pub instance_type_among : List String → Server → Exec W String
  unfolding flavor_of_key
  instance_type_among [] srv = fail (message "flavor original_name/id not found")
  instance_type_among (key ∷ keys) srv =
      flavor_of_key key srv >>= or_go_on (instance_type_among keys srv)

  unfoldable pub srv_instance_type : Server → Exec W String
  unfolding instance_type_among
  srv_instance_type = instance_type_among ("original_name" ∷ "id" ∷ [])

  module _ (i : InstancesConf) where
    -- The client is the one of Nova.
    unfoldable pub node_addresses : String → Exec W (List NodeAddress)
    unfolding get_addresses_by_name
    node_addresses name = get_addresses_by_name compute_client name i.address_opts

    unfoldable pub addresses_of_id : Text → Exec W (List NodeAddress)
    unfolding get_attached_ports node_addresses_of
    addresses_of_id id = cloud.server_get compute_client id >>= λ srv.
        get_attached_ports network_client srv.id >>= λ ports.
        node_addresses_of readers i.address_opts cloud network_client srv ports

    unfoldable pub node_addresses_by_provider_id : Text → Exec W (List NodeAddress)
    unfolding is_foreign addresses_of_id instance_id_from_provider_id
    node_addresses_by_provider_id provider_id =
        with_id (instance_id_from_provider_id provider_id)
          (λ id region. if is_foreign i.region region then pure [] else addresses_of_id id)

    -- `(bool, error)` of a request for the server, where a missing one is no error
    abbrev pub exists_answer : Result Server → Result Bool
    exists_answer (ok srv) = ok true
    exists_answer (err not_found) = ok false
    exists_answer (err e) = err e

    unfoldable pub exists_in : Text → Text → Exec W Bool
    unfolding is_foreign
    exists_in id region w =
        let (r, u) = cloud.server_get compute_client id w in
        if is_foreign i.region region then (ok true, w) else (exists_answer r, u)

    unfoldable pub instance_exists_by_provider_id : Text → Exec W Bool
    unfolding exists_in instance_id_from_provider_id
    instance_exists_by_provider_id provider_id =
        with_id (instance_id_from_provider_id provider_id) exists_in

    unfoldable pub server_in : Text → Text → Exec W Server
    unfolding is_foreign
    server_in id region =
        if is_foreign i.region region
        then fail foreign_region
        else cloud.server_get compute_client id

    unfoldable pub own_server : Text → Exec W Server
    unfolding server_in instance_id_from_provider_id
    own_server provider_id = with_id (instance_id_from_provider_id provider_id) server_in

    unfoldable pub instance_shutdown_by_provider_id : Text → Exec W Bool
    unfolding own_server
    instance_shutdown_by_provider_id provider_id =
        own_server provider_id >>= λ srv. pure (srv.status == instance_shutoff)

    unfoldable pub instance_metadata : Text → Exec W Metadata
    unfolding own_server srv_instance_type get_attached_ports node_addresses_of
    instance_metadata provider_id = own_server provider_id >>= λ srv.
        srv_instance_type srv >>= λ kind. get_attached_ports network_client srv.id >>= λ ports.
        node_addresses_of readers i.address_opts cloud network_client srv ports >>= λ addresses.
        pure
          (record { provider_id = provider_id; instance_type = kind; node_addresses = addresses })

    -- the id behind a slash, and the region in front of it where that is asked for
    abbrev pub id_text : Server → Text
    id_text srv = if i.region_provider_id then i.region ++ b'/' ∷ srv.id else b'/' ∷ srv.id

    abbrev pub id_or_missing : Option Server → Exec W Text
    id_or_missing none = fail instance_not_found
    id_or_missing (some srv) = pure (id_text srv)

    unfoldable pub instance_id : String → Exec W Text
    unfolding find_server_by_name
    instance_id name = find_server_by_name compute_client name >>= id_or_missing

    unfoldable pub instance_type_by_provider_id : Text → Exec W String
    unfolding own_server srv_instance_type
    instance_type_by_provider_id provider_id = own_server provider_id >>= srv_instance_type

    unfoldable pub instance_type : String → Exec W String
    unfolding get_server_by_name srv_instance_type
    instance_type name = get_server_by_name compute_client name >>= srv_instance_type
