-- ===== src/Routes/Create.antt =====
-- CreateRoute of pkg/openstack/routes.go. The lock is not modelled: one call runs at a time.
use cloud_provider_openstack.Prelude.{
  String, List, [], ◌∷◌, ◌++◌, Bool, Option, ◌==◌, ◌&&◌, any, if◌then◌else◌,
}
use cloud_provider_openstack.Go.{
  Result, ok, err, Error, Body, try, return_err, return_nil, disarm_return, defer_call, run_body,
  no_address_found,
}
use cloud_provider_openstack.Routes.Api.{
  Node, Neutron, IpParser, AddressPair, Router, RouterRoute, Routes, CloudRoute,
}
use cloud_provider_openstack.Routes.Addresses.{get_addr_by_node_name, get_port_by_ip}
use cloud_provider_openstack.Routes.Change.{update_routes, add_route, update_allowed_address_pairs}

abbrev pub has_route : String → String → List RouterRoute → Bool
has_route cidr addr routes =
    any (λ (item : RouterRoute). item.destination_cidr == cidr && item.next_hop == addr) routes

abbrev pub has_pair : String → List AddressPair → Bool
has_pair cidr pairs = any (λ (item : AddressPair). item.ip_address == cidr) pairs

abbrev pub route_to : String → String → RouterRoute
route_to cidr addr = record { destination_cidr = cidr; next_hop = addr }

abbrev pub pair_for : String → AddressPair
pair_for cidr = record { ip_address = cidr; mac_address = "" }

module _ {W : Type 0} (net : Neutron W) (r : Routes) where
  -- the second half: the pair on the port that has the address
  unfoldable pub create_pair : String → String → Body W
  unfolding update_allowed_address_pairs
  create_pair cidr addr = try (get_port_by_ip net addr r.network_ids) λ port.
      if has_pair cidr port.allowed_address_pairs
      then disarm_return
      else try
          (update_allowed_address_pairs net port (port.allowed_address_pairs ++ pair_for cidr ∷ []))
          λ unwind. defer_call unwind disarm_return

  -- the classical logic, from the router that `Get` returned
  unfoldable pub create_classical : String → String → Router → Body W
  unfolding update_routes
  create_classical cidr addr router =
      if has_route cidr addr router.routes
      then return_nil
      else try (update_routes net router (router.routes ++ route_to cidr addr ∷ []))
          λ unwind. defer_call unwind (create_pair cidr addr)

  unfoldable pub create_atomic : String → String → Body W
  unfolding add_route
  create_atomic cidr addr =
      try (add_route net r.router_id (route_to cidr addr ∷ []))
        λ unwind. defer_call unwind (create_pair cidr addr)

  unfoldable pub create_at : String → String → Body W
  create_at cidr addr =
      if addr == ""
      then return_err no_address_found
      else if r.atomic_routes
      then create_atomic cidr addr
      else try (net.get_router r.router_id) (create_classical cidr addr)

module _ {W : Type 0} (net : Neutron W) (ip : IpParser) (r : Routes) where
  -- `nodes` is what the lister of the node informer returns.
  unfoldable pub create_route : Result (List Node) → CloudRoute → W → Option Error × W
  create_route (err e) route = run_body (return_err e)
  create_route (ok nodes) route =
      let cidr = route.destination_cidr in
      run_body (
        create_at net r cidr
          (get_addr_by_node_name ip route.target_node (ip.cidr_is_v6 cidr) nodes))
