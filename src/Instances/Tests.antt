-- ===== src/Instances/Tests.antt =====
-- The theorems on provider ids and node addresses at concrete inputs.
use cloud_provider_openstack.Instances.Local.{read_instance_id, Local}
use cloud_provider_openstack.Instances.V2Laws.{
  v2_instance_exists-same, get_instance-make_instance_id,
}
use cloud_provider_openstack.Instances.V2.{
  v2_instance_exists, v2_instance_metadata, make_instance_id, get_instance,
}
use cloud_provider_openstack.Prelude.Sorting.{is_sorted_by, filter}
use cloud_provider_openstack.Instances.Servers.{
  node_addresses, instance_id, own_server, instance_exists_by_provider_id, find_server_by_name,
  is_foreign,
}
use cloud_provider_openstack.Instances.ServerLaws.{
  node_addresses_asks_nova, instance_exists_by_provider_id-gone, instance_id-read,
}
use cloud_provider_openstack.Instances.Removing.{
  remove_from_node_addresses, is_removed, remove_from_node_addresses_one,
}
use cloud_provider_openstack.Instances.OrderLaws.{
  sort_node_addresses-stable, precedes_in, is_none, net_of,
}
use cloud_provider_openstack.Instances.NodeAddresses.{is_distinct, same_address}
use cloud_provider_openstack.Instances.ListLaws.{is_allowed, node_addresses_of-is_proper}
use cloud_provider_openstack.Instances.Api.{
  InstancesConf, Readers, TrunkPort, network_client, AddressOpts, Server, Cloud, compute_client,
}
use cloud_provider_openstack.Instances.AddressOrder.{
  build_address_sort_order_list, sort_node_addresses,
}
use cloud_provider_openstack.Instances.AddressList.{node_addresses_of}
use cloud_provider_openstack.Go.{err, is_ok, ok, not_found, api}
use cloud_provider_openstack.Routes.Api.{NodeAddress}
use cloud_provider_openstack.Prelude.Strings.{
  codes, trim_space, has_prefix, split, text_eq, Text, text_lt,
}
use cloud_provider_openstack.Prelude.{
  some, ◌++◌, ◌∷◌, refl, ◌≡◌, Bool, false, ℕ, none, true, ◌↔◌, ◌==◌, List, [], if◌then◌else◌, all,
  arith, not,
}
use cloud_provider_openstack.Instances.ProviderId.{
  instance_id_from_provider_id, scheme, contains_text,
}

abbrev inside : NodeAddress
inside = record { kind = "InternalIP"; address = "10.0.0.5" }

abbrev outside : NodeAddress
outside = record { kind = "ExternalIP"; address = "192.0.2.7" }

abbrev v4_bytes : List ℕ → List ℕ
v4_bytes rest = 0 ∷ 0 ∷ 0 ∷ 0 ∷ 0 ∷ 0 ∷ 0 ∷ 0 ∷ 0 ∷ 0 ∷ 255 ∷ 255 ∷ rest

-- addresses and a network that are read from a table; a network is the start of its addresses
abbrev test_readers : Readers (List ℕ)
test_readers = record {
  parse_ip_bytes = λ s.
      if s == "10.0.0.5"
      then some (v4_bytes (10 ∷ 0 ∷ 0 ∷ 5 ∷ []))
      else if s == "10.1.0.9"
      then some (v4_bytes (10 ∷ 1 ∷ 0 ∷ 9 ∷ []))
      else if s == "192.0.2.7"
      then some (v4_bytes (192 ∷ 0 ∷ 2 ∷ 7 ∷ []))
      else if s == "2001:db8::1"
      then some (32 ∷ 1 ∷ 13 ∷ 184 ∷ [])
      else none;
  parse_net = λ s. if text_eq s (codes "10.1.0.0/16") then some (v4_bytes (10 ∷ 1 ∷ [])) else none;
  net_contains = λ n ip. has_prefix ip n;
  is_label = λ s. true;
  exactly = λ s. s;
}

abbrev test_server : Server
test_server = record {
  id = codes "7f3a";
  status = "SHUTOFF";
  availability_zone = "nova";
  access_ipv4 = "192.0.2.7";
  access_ipv6 = "2001:db8::1";
  metadata = ("hostname", "node1") ∷ [];
  flavor = ("original_name", some "m1.small") ∷ [];
}

abbrev test_port : TrunkPort
test_port = record {
  status = "ACTIVE";
  fixed_ips = "10.0.0.5" ∷ "2001:db8::1" ∷ [];
  subports = "sub" ∷ [];
}

-- Nova has one server and knows no ports.
abbrev test_cloud : Cloud Unit
test_cloud = record {
  server_get =
      λ client id w. (if text_eq id (codes "7f3a") then ok test_server else err not_found, w);
  server_pages = λ client name w. ((if name == "node1" then ok (test_server ∷ []) ∷ [] else []), w);
  flavor_get = λ client id w. (err not_found, w);
  ports_of = λ client id w. elim client [
    | compute_client ↦ (err not_found, w)
    | network_client ↦ (ok (test_port ∷ []), w)
  ];
  port_get = λ client id w. (ok (record { network_id = "n2"; fixed_ips = "10.1.0.9" ∷ [] }), w);
  network_name = λ client id w. (ok "vlan", w);
  decode_addresses = λ srv. ok (
      (
        "net",
        record { ip_type = "fixed"; addr = "10.0.0.5" }
            ∷ record { ip_type = "floating"; addr = "192.0.2.7" }
            ∷ [],
      )
      ∷ []);
}

abbrev test_opts : AddressOpts
test_opts = record {
  ipv6_disabled = true;
  public_networks = [];
  internal_networks = [];
  sort_order = codes "bad, 10.1.0.0/16";
}

abbrev test_instances : InstancesConf
test_instances = record {
  region = codes "east";
  region_provider_id = true;
  address_opts = test_opts;
}

abbrev test_addresses : List NodeAddress
test_addresses =
    record { kind = "InternalIP"; address = "10.1.0.9" }
    ∷ record { kind = "InternalIP"; address = "10.0.0.5" }
    ∷ record { kind = "ExternalIP"; address = "192.0.2.7" }
    ∷ record { kind = "Hostname"; address = "node1" }
    ∷ []

listed :
    (node_addresses_of test_readers test_opts test_cloud network_client test_server
      (test_port ∷ [])
      tt).0
    ≡ ok test_addresses
unfolding node_addresses_of trim_space split text_eq text_lt
listed = refl

node_addresses_of-is_proper_example :
    (is_distinct test_addresses ≡ true)
    × (all (is_allowed test_readers test_opts test_server) test_addresses ≡ true)
node_addresses_of-is_proper_example =
    node_addresses_of-is_proper test_readers test_opts test_server test_cloud network_client
      (test_port ∷ []) tt test_addresses listed

sort_node_addresses-stable_example :
    let list = build_address_sort_order_list test_readers (codes "10.1.0.0/16") in
    let sorted = sort_node_addresses test_readers (codes "10.1.0.0/16") test_addresses in
    let unmatched : NodeAddress → Bool = λ a. is_none (net_of test_readers list a.address) in
    (is_sorted_by (precedes_in test_readers list) sorted ≡ true)
    × (filter unmatched sorted ≡ filter unmatched test_addresses)
    × ((a : NodeAddress) → filter (same_address a) sorted ≡ filter (same_address a) test_addresses)
sort_node_addresses-stable_example =
    sort_node_addresses-stable test_readers (codes "10.1.0.0/16") test_addresses

instance_exists_by_provider_id-gone_example :
    ((instance_exists_by_provider_id test_cloud test_readers test_instances
        (codes "openstack:///gone")
        tt).0
      ≡ ok false)
    ↔ ((id : Text) × (region : Text) × (instance_id_from_provider_id (codes "openstack:///gone")
          ≡ some (id, region))
        × (is_foreign (codes "east") region ≡ false)
        × ((test_cloud.server_get compute_client id tt).0 ≡ err not_found))
instance_exists_by_provider_id-gone_example =
    instance_exists_by_provider_id-gone test_cloud test_readers test_instances
      (codes "openstack:///gone") tt

gone_server :
    (instance_exists_by_provider_id test_cloud test_readers test_instances
      (codes "openstack:///gone")
      tt).0
    ≡ ok false
unfolding instance_exists_by_provider_id text_eq split contains_text
gone_server = refl

found_server :
    (find_server_by_name test_cloud test_readers compute_client "node1" tt).0
    ≡ ok (some test_server)
unfolding find_server_by_name
found_server = refl

instance_id-read_example :
    (text : Text) × ((instance_id test_cloud test_readers test_instances "node1" tt).0 ≡ ok text)
    × ((u : Unit)
        → own_server test_cloud test_readers test_instances (scheme ++ text) u
          ≡ test_cloud.server_get compute_client (codes "7f3a") u)
instance_id-read_example =
    instance_id-read test_cloud test_readers test_instances "node1" test_server b'7' (codes "f3a")
      tt found_server refl refl refl

node_addresses_asks_nova_example :
    is_ok (node_addresses test_cloud test_readers test_instances "node1" tt).0 ≡ false
node_addresses_asks_nova_example =
    node_addresses_asks_nova test_cloud test_readers test_instances (λ id u. refl) "node1" tt

abbrev other : NodeAddress
other = record { kind = "InternalIP"; address = "10.0.0.6" }

-- Where two addresses are removed at once, the indexes of the second are stale: the third address
-- goes in its place. No call of the source removes two.
stale_index :
    remove_from_node_addresses (inside ∷ outside ∷ other ∷ []) (inside ∷ outside ∷ [])
    ≡ outside ∷ []
unfolding remove_from_node_addresses
stale_index = refl

v2_instance_exists-same_example :
    v2_instance_exists test_cloud test_readers test_instances
      (record { node_name = "node1"; provider_id = codes "openstack://east/7f3a" })
      tt
    ≡ instance_exists_by_provider_id test_cloud test_readers test_instances
        (codes "openstack://east/7f3a")
        tt
unfolding text_eq instance_id_from_provider_id is_foreign
v2_instance_exists-same_example =
    v2_instance_exists-same test_cloud test_readers test_instances "node1"
      (codes "openstack://east/7f3a") (codes "7f3a") (codes "east") tt refl refl refl
      (λ s h. absurd (ground (arith, h)))

metadata_v2 :
    (v2_instance_metadata test_cloud test_readers test_instances
      (record { node_name = "node1"; provider_id = codes "openstack:///7f3a" })
      tt).0
    ≡ ok (record {
      provider_id = codes "openstack://east/7f3a";
      instance_type = "m1.small";
      node_addresses = test_addresses;
      zone = "nova";
      region = codes "east";
    })
unfolding v2_instance_metadata text_eq split contains_text trim_space text_lt
metadata_v2 = refl

-- the metadata service does not answer, and cloud-init has found no datasource
abbrev test_machine : Local Unit
test_machine = record {
  metadata_uuid = λ w. (err (api "no answer"), w);
  instance_id_file = λ w. (ok (codes "iid-datasource-none"), w);
}

-- Where no id is found, the empty one is answered without an error.
no_id_found : (read_instance_id test_machine tt).0 ≡ ok []
unfolding read_instance_id
no_id_found = refl

held_server : (test_cloud.server_get compute_client test_server.id tt).0 ≡ ok test_server
unfolding text_eq
held_server = refl

get_instance-make_instance_id_example :
    (get_instance test_cloud test_readers test_instances
      (record {
        node_name = "other";
        provider_id = make_instance_id test_cloud test_readers test_instances test_server;
      })
      tt).0
    ≡ ok test_server
get_instance-make_instance_id_example =
    get_instance-make_instance_id test_cloud test_readers test_instances "other" test_server
      test_server b'7' (codes "f3a") tt refl refl refl held_server

remove_from_node_addresses_one_example :
    remove_from_node_addresses
      (inside ∷ outside ∷ other ∷ [])
      (record { kind = ""; address = "10.0.0.5" } ∷ [])
    ≡ filter
        (λ x. not (is_removed (record { kind = ""; address = "10.0.0.5" }) x))
        (inside ∷ outside ∷ other ∷ [])
remove_from_node_addresses_one_example =
    remove_from_node_addresses_one (inside ∷ outside ∷ other ∷ [])
      (record { kind = ""; address = "10.0.0.5" })
