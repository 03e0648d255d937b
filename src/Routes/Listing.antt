-- ===== src/Routes/Listing.antt =====
-- ListRoutes and getRouterNetworkIDs of pkg/openstack/routes.go
use cloud_provider_openstack.Routes.Api.{
  CloudRoute, Router, Node, Routes, Port, Neutron, RouterRoute,
}
use cloud_provider_openstack.Routes.Addresses.{get_node_name_by_addr}
use cloud_provider_openstack.Prelude.{
  map, true, [], ◌==◌, List, ◌∷◌, not, String, Bool, false, if◌then◌else◌,
}
use cloud_provider_openstack.Go.{Exec, ok, ◌>>=◌, no_node_informer, Result, pure, err}

-- `port.NetworkID != ""`
unfoldable pub network_ids_of : List Port → List String
network_ids_of [] = []
network_ids_of (port ∷ ports) =
    let rest = network_ids_of ports in
    if port.network_id == "" then rest else port.network_id ∷ rest

module _ {W : Type 0} (net : Neutron W) where
  unfoldable pub get_router_network_ids : String → Exec W (List String)
  unfolding network_ids_of
  get_router_network_ids router_id =
      net.ports_of_device router_id >>= λ ports. pure (network_ids_of ports)

  -- A next hop that no node has is passed on as the target, and the route is a blackhole.
  unfoldable pub cloud_route : List Node → RouterRoute → CloudRoute
  cloud_route nodes item =
      let (node_name, found_node) = get_node_name_by_addr item.next_hop nodes in
      record {
        name = item.destination_cidr;
        target_node = node_name;
        blackhole = not found_node;
        destination_cidr = item.destination_cidr;
      }

  -- The routes, and `Routes` with the networks that were found. `synced` is `nodeInformerHasSynced`.
  -- On an error of the last request the source has assigned nil to the networks.
  unfoldable pub list_routes :
      Bool → Result (List Node) → Routes → W → (Result (List CloudRoute) × Routes) × W
  unfolding get_router_network_ids
  list_routes false nodes r w = ((err no_node_informer, r), w)
  list_routes true (err e) r w = ((err e, r), w)
  list_routes true (ok nodes) r w =
      with_router (net.get_router r.router_id w).0 (net.get_router r.router_id w).1
    where
      with_networks :
          List CloudRoute → Result (List String) → W → (Result (List CloudRoute) × Routes) × W
      with_networks routes (ok ids) u = ((ok routes, record r { network_ids = ids }), u)
      with_networks routes (err e) u = ((err e, record r { network_ids = [] }), u)

      with_router : Result Router → W → (Result (List CloudRoute) × Routes) × W
      with_router (err e) u = ((err e, r), u)
      with_router (ok router) u =
          let routes = map (cloud_route nodes) router.routes in
          let (answer, u') = get_router_network_ids r.router_id u in with_networks routes answer u'
