-- ===== src/Routes/Ports.antt =====
-- `getPortByIP` only reads, and the port that it returns shows what is stored.
use cloud_provider_openstack.Prelude.{String, List, [], ◌∷◌, ◌≡◌, refl, arith}
use cloud_provider_openstack.Go.{ok}
use cloud_provider_openstack.Routes.Api.{Neutron, Port}
use cloud_provider_openstack.Routes.Addresses.{get_port_by_ip}
use cloud_provider_openstack.Routes.Laws.{Views, Lawful}

module _ {W : Type 0} {net : Neutron W} {rid : String} {v : Views W} (l : Lawful net rid v) where
  pub routes-get_port_by_ip :
      (addr : String) (ids : List String) (w : W)
      → v.routes_of (get_port_by_ip net addr ids w).1 ≡ v.routes_of w
  unfolding get_port_by_ip
  routes-get_port_by_ip addr [] w = refl
  routes-get_port_by_ip addr (n ∷ ids) w =
      let w' = (net.ports_with_address addr n w).1 in
      ground (arith, l.ports_routes addr n w, routes-get_port_by_ip addr ids w')

  pub pairs-get_port_by_ip :
      (addr : String) (ids : List String) (w : W)
      → v.pairs_of (get_port_by_ip net addr ids w).1 ≡ v.pairs_of w
  unfolding get_port_by_ip
  pairs-get_port_by_ip addr [] w = refl
  pairs-get_port_by_ip addr (n ∷ ids) w =
      let w' = (net.ports_with_address addr n w).1 in
      ground (arith, l.ports_pairs addr n w, pairs-get_port_by_ip addr ids w')

  pub get_port_by_ip_shown :
      (addr : String) (ids : List String) (w : W) (port : Port)
      → (get_port_by_ip net addr ids w).0 ≡ ok port
      → port.allowed_address_pairs ≡ v.pairs_of w port.id
  unfolding get_port_by_ip
  get_port_by_ip_shown addr [] w port h = ground arith
  get_port_by_ip_shown addr (n ∷ ids) w port h =
      let w' = (net.ports_with_address addr n w).1 in
      ground (
        arith,
        l.ports_shown addr n w,
        l.ports_pairs addr n w,
        get_port_by_ip_shown addr ids w' port,
      )
