-- ===== src/Routes/Laws.antt =====
-- What `routes.go` relies on of Neutron, for one router: a request that is answered with an error
-- has changed nothing, an update stores what it sends, and a read shows what is stored.
use cloud_provider_openstack.Prelude.{String, List, ◌≡◌, ◌==◌, All, if◌then◌else◌}
use cloud_provider_openstack.Go.{Result, ok, err}
use cloud_provider_openstack.Routes.Api.{Neutron, Router, RouterRoute, Port, AddressPair}

-- What is stored: the routes of the router, and the allowed address pairs of each port.
pub record Views (W : Type 0) : Type 0 where
  pub routes_of : W → List RouterRoute
  pub pairs_of : W → String → List AddressPair

-- by the answer of a request: the value sent, or the value before
abbrev pub after {ℓ} : {A : Type 0} {B : Type ℓ} → Result A → B → B → B
after (ok _) sent before = sent
after (err _) sent before = before

-- The ports of an answer have the pairs that are stored for them.
abbrev pub Shown : (String → List AddressPair) → Result (List Port) → Type 0
Shown pairs (ok ports) = All (λ (p : Port). p.allowed_address_pairs ≡ pairs p.id) ports
Shown pairs (err _) = Unit

pub record Lawful {W : Type 0} (net : Neutron W) (rid : String) (v : Views W) : Type 0 where
  pub router_shown :
      (w : W) (router : Router)
      → (net.get_router rid w).0 ≡ ok router
      → (router.id ≡ rid) × (router.routes ≡ v.routes_of w)
  pub get_router_routes : (w : W) → v.routes_of (net.get_router rid w).1 ≡ v.routes_of w
  pub get_router_pairs : (w : W) → v.pairs_of (net.get_router rid w).1 ≡ v.pairs_of w
  pub ports_shown : (a n : String) (w : W) → Shown (v.pairs_of w) (net.ports_with_address a n w).0
  pub ports_routes :
      (a n : String) (w : W) → v.routes_of (net.ports_with_address a n w).1 ≡ v.routes_of w
  pub ports_pairs :
      (a n : String) (w : W) → v.pairs_of (net.ports_with_address a n w).1 ≡ v.pairs_of w
  pub update_router_routes :
      (new : List RouterRoute) (w : W)
      → v.routes_of (net.update_router rid new w).1
        ≡ after (net.update_router rid new w).0 new (v.routes_of w)
  pub update_router_pairs :
      (new : List RouterRoute) (w : W) → v.pairs_of (net.update_router rid new w).1 ≡ v.pairs_of w
  pub update_port_routes :
      (id : String) (new : List AddressPair) (w : W)
      → v.routes_of (net.update_port id new w).1 ≡ v.routes_of w
  pub update_port_pairs :
      (id : String) (new : List AddressPair) (w : W)
      → v.pairs_of (net.update_port id new w).1
        ≡ after
            (net.update_port id new w).0
            (λ p. if p == id then new else v.pairs_of w p)
            (v.pairs_of w)
