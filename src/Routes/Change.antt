-- ===== src/Routes/Change.antt =====
-- updateRoutes, addRoute, removeRoute and updateAllowedAddressPairs of pkg/openstack/routes.go:
-- each makes its request and returns the function that takes it back. An unwinder's own failure
-- is logged and nothing else.
use cloud_provider_openstack.Prelude.{String, List}
use cloud_provider_openstack.Go.{Exec, pure, ◌>>◌}
use cloud_provider_openstack.Routes.Api.{Neutron, Router, RouterRoute, Port, AddressPair}

module _ {W : Type 0} (net : Neutron W) where
  unfoldable pub update_routes : Router → List RouterRoute → Exec W (W → W)
  update_routes router new_routes = do
    net.update_router router.id new_routes
    pure (λ w. (net.update_router router.id router.routes w).1)

  unfoldable pub add_route : String → List RouterRoute → Exec W (W → W)
  add_route router_id new_route = do
    net.add_routes router_id new_route
    pure (λ w. (net.remove_routes router_id new_route w).1)

  unfoldable pub remove_route : String → List RouterRoute → Exec W (W → W)
  remove_route router_id old_route = do
    net.remove_routes router_id old_route
    pure (λ w. (net.add_routes router_id old_route w).1)

  unfoldable pub update_allowed_address_pairs : Port → List AddressPair → Exec W (W → W)
  update_allowed_address_pairs port new_pairs = do
    net.update_port port.id new_pairs
    pure (λ w. (net.update_port port.id port.allowed_address_pairs w).1)
