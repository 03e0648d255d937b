-- ===== src/Instances/AddressList.antt =====
-- nodeAddresses of pkg/openstack/instances.go, with `client` for the requests on subports.
use cloud_provider_openstack.Util.Basic.{contains}
use cloud_provider_openstack.Routes.Api.{NodeAddress}
use cloud_provider_openstack.Prelude.Strings.{has_prefix, text_eq}
use cloud_provider_openstack.Prelude.Sorting.{sort_names}
use cloud_provider_openstack.Prelude.Maps.{get_header, find_entry, put_header}
use cloud_provider_openstack.Prelude.{
  [], Bool, true, ◌&&◌, List, ◌++◌, none, ◌==◌, ◌∷◌, some, not, ◌||◌, String, if◌then◌else◌, eqb,
  length,
}
use cloud_provider_openstack.Instances.Removing.{remove_from_node_addresses}
use cloud_provider_openstack.Instances.NodeAddresses.{add_to_node_addresses}
use cloud_provider_openstack.Instances.Api.{
  Cloud, Server, Readers, AddressOpts, Client, TrunkPort, IpEntry,
}
use cloud_provider_openstack.Instances.AddressOrder.{sort_node_addresses}
use cloud_provider_openstack.Go.{pure, ◌>>=◌, Exec, ok, err, continue}

abbrev pub internal_ip : String
internal_ip = "InternalIP"

abbrev pub external_ip : String
external_ip = "ExternalIP"

abbrev pub host_name : String
host_name = "Hostname"

-- TypeHostName, the key in the server's metadata
abbrev pub type_host_name : String
type_host_name = "hostname"

-- append to the addresses of a network
unfoldable pub add_entry :
    String → IpEntry → List (String × List IpEntry) → List (String × List IpEntry)
unfolding find_entry put_header
add_entry network entry m = elim (find_entry network m) [
  | none ↦ put_header network (entry ∷ []) m
  | some entries ↦ put_header network (entries ++ entry ∷ []) m
]

abbrev pub keys_of : List (String × List IpEntry) → List String
keys_of [] = []
keys_of ((k, v) ∷ m) = k ∷ keys_of m

abbrev pub entries_of : String → List (String × List IpEntry) → List IpEntry
entries_of network m = elim (find_entry network m) [ none ↦ [] | some entries ↦ entries ]

module _ {N : Type 0} (readers : Readers N) (opts : AddressOpts) where
  -- `net.ParseIP(ip).To4() == nil`: the first twelve bytes of an IPv4 address are ten times 0 and
  -- two times 255.
  unfoldable pub is_not_v4 : String → Bool
  is_not_v4 address = elim (readers.parse_ip_bytes address) [
    | none ↦ true
    | some ip ↦ not (has_prefix ip (0 ∷ 0 ∷ 0 ∷ 0 ∷ 0 ∷ 0 ∷ 0 ∷ 0 ∷ 0 ∷ 0 ∷ 255 ∷ 255 ∷ []))
  ]

  unfoldable pub is_hidden : String → Bool
  unfolding is_not_v4
  is_hidden address = is_not_v4 address && opts.ipv6_disabled

  abbrev pub add_one : String → String → List NodeAddress → List NodeAddress
  add_one kind address addrs =
      add_to_node_addresses addrs (record { kind = kind; address = address } ∷ [])

  unfoldable pub add_visible : String → String → List NodeAddress → List NodeAddress
  unfolding is_hidden add_to_node_addresses
  add_visible kind address addrs =
      if not (is_hidden address) then add_one kind address addrs else addrs

  -- the loop over the fixed IPs of a port
  unfoldable pub add_fixed : Bool → List String → List NodeAddress → List NodeAddress
  unfolding add_visible
  add_fixed active [] addrs = addrs
  add_fixed active (ip ∷ ips) addrs =
      add_fixed active ips (if active then add_visible internal_ip ip addrs else addrs)

  unfoldable pub add_ports : List TrunkPort → List NodeAddress → List NodeAddress
  unfolding add_fixed
  add_ports [] addrs = addrs
  add_ports (port ∷ ports) addrs =
      add_ports ports (add_fixed (port.status == "ACTIVE") port.fixed_ips addrs)

  unfoldable pub add_access : Server → List NodeAddress → List NodeAddress
  unfolding add_to_node_addresses
  add_access srv addrs =
      let with_v4 =
        if not (srv.access_ipv4 == "") then add_one external_ip srv.access_ipv4 addrs else addrs in
      let with_v6 =
        if not (srv.access_ipv6 == "") && not opts.ipv6_disabled
        then add_one external_ip srv.access_ipv6 with_v4
        else with_v4 in
      let host = get_header type_host_name srv.metadata in
      if not (host == "") then add_one host_name host with_v6 else with_v6

  -- the fixed IPs of a subport
  unfoldable pub merge_fixed :
      String → List String → List (String × List IpEntry) → List (String × List IpEntry)
  unfolding is_hidden add_entry
  merge_fixed network [] m = m
  merge_fixed network (ip ∷ ips) m = merge_fixed network ips (
      if not (is_hidden ip)
      then add_entry network (record { ip_type = "fixed"; addr = ip }) m
      else m)

  -- the addresses of a network's entry
  unfoldable pub place_entry : String → IpEntry → List NodeAddress → List NodeAddress
  unfolding add_visible remove_from_node_addresses contains
  place_entry network props addrs =
      let removed =
        remove_from_node_addresses addrs (record { kind = ""; address = props.addr } ∷ []) in
      if props.ip_type == "floating"
      then add_visible external_ip props.addr addrs
      else if contains opts.public_networks network
      then add_visible external_ip props.addr removed
      else if eqb (length opts.internal_networks) 0 || contains opts.internal_networks network
      then add_visible internal_ip props.addr addrs
      else removed

  unfoldable pub place_entries : String → List IpEntry → List NodeAddress → List NodeAddress
  unfolding place_entry
  place_entries network [] addrs = addrs
  place_entries network (props ∷ entries) addrs =
      place_entries network entries (place_entry network props addrs)

  unfoldable pub place_networks :
      List String → List (String × List IpEntry) → List NodeAddress → List NodeAddress
  unfolding place_entries find_entry
  place_networks [] m addrs = addrs
  place_networks (network ∷ networks) m addrs =
      place_networks networks m (place_entries network (entries_of network m) addrs)

  unfoldable pub sorted_addresses : List NodeAddress → List NodeAddress
  unfolding sort_node_addresses text_eq
  sorted_addresses addrs =
      if not (text_eq opts.sort_order [])
      then sort_node_addresses readers opts.sort_order addrs
      else addrs

  module _ {W : Type 0} (cloud : Cloud W) (client : Client) where
    -- the loop over the subports of a port; an error of a request only ends the subport
    unfoldable pub merge_subports :
        List String → List (String × List IpEntry) → Exec W (List (String × List IpEntry))
    unfolding merge_fixed
    merge_subports [] m w = (ok m, w)
    merge_subports (port_id ∷ subports) m w =
        let (r, u) =
          (cloud.port_get client port_id >>= λ p.
          cloud.network_name client p.network_id >>= λ network.
          pure (merge_fixed network p.fixed_ips m))
            w in
        elim r [ ok m' ↦ merge_subports subports m' u | err e ↦ merge_subports subports m u ]

    unfoldable pub merge_trunks :
        List TrunkPort → List (String × List IpEntry) → Exec W (List (String × List IpEntry))
    unfolding merge_subports
    merge_trunks [] m = pure m
    merge_trunks (port ∷ ports) m = merge_subports port.subports m >>= λ m'. merge_trunks ports m'

    unfoldable pub node_addresses_of : Server → List TrunkPort → Exec W (List NodeAddress)
    unfolding add_ports add_access merge_trunks place_networks sorted_addresses sort_names
    node_addresses_of srv ports w =
        let addrs = add_access srv (add_ports ports []) in
        continue (cloud.decode_addresses srv)
          (λ entries. merge_trunks ports entries >>= λ m.
            pure (sorted_addresses (place_networks (sort_names (keys_of m)) m addrs)))
          w
