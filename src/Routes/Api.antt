-- ===== src/Routes/Api.antt =====
-- The data of pkg/openstack/routes.go, and the Neutron requests that it makes. Neutron and Go's
-- address parser are not part of the repository: they are the parameters `Neutron` and `IpParser`.
use cloud_provider_openstack.Prelude.{String, List, Bool, Option}
use cloud_provider_openstack.Go.{Exec}

-- routers.Route of the Neutron client
pub record RouterRoute : Type 0 where
  pub destination_cidr : String
  pub next_hop : String

pub record Router : Type 0 where
  pub id : String
  pub routes : List RouterRoute

pub record AddressPair : Type 0 where
  pub ip_address : String
  pub mac_address : String

pub record Port : Type 0 where
  pub id : String
  pub network_id : String
  pub allowed_address_pairs : List AddressPair

-- cloudprovider.Route of Kubernetes
pub record CloudRoute : Type 0 where
  pub name : String
  pub target_node : String
  pub blackhole : Bool
  pub destination_cidr : String

-- v1.NodeAddress and v1.Node of Kubernetes
pub record NodeAddress : Type 0 where
  pub kind : String
  pub address : String

pub record Node : Type 0 where
  pub name : String
  pub addresses : List NodeAddress

-- The requests, over a world that holds what Neutron stores and how it will answer.
pub record Neutron (W : Type 0) : Type 0 where
  pub get_router : String → Exec W Router
  pub update_router : String → List RouterRoute → Exec W Unit
  pub add_routes : String → List RouterRoute → Exec W Unit
  pub remove_routes : String → List RouterRoute → Exec W Unit
  pub ports_of_device : String → Exec W (List Port)
  pub ports_with_address : String → String → Exec W (List Port)
  pub update_port : String → List AddressPair → Exec W Unit

-- `net.ParseIP(s)`: `none` for nil, and otherwise whether `To4()` is nil. For the address in
-- front of `net.ParseCIDR(s)` only the second is asked. `sloppy_ip` is the same of
-- `netutils.ParseIPSloppy(s)`, by which IsIPv4String and IsIPv6String go, and `is_ipv6_cidr_string` is
-- `netutils.IsIPv6CIDRString`.
pub record IpParser : Type 0 where
  pub parse_ip : String → Option Bool
  pub cidr_is_v6 : String → Bool
  pub sloppy_ip : String → Option Bool
  pub is_ipv6_cidr_string : String → Bool

-- `Routes`: the router's id of the configuration, the networks found by `ListRoutes`, and whether
-- Neutron has the extension "extraroute-atomic".
pub record Routes : Type 0 where
  pub router_id : String
  pub network_ids : List String
  pub atomic_routes : Bool
