-- ===== src/Routes/Tests.antt =====
-- A small cloud that obeys the laws, and runs of the methods in it.
use mathlib.Core.Path.{fun_ext}
use mathlib.Core.List.{Perm}
use cloud_provider_openstack.Routes.Laws.{Lawful, after, Views, Shown}
use cloud_provider_openstack.Routes.Deletion.{
  delete_route-unwind_loses, target, delete_route-removes,
}
use cloud_provider_openstack.Routes.Delete.{
  delete_classical, delete_route, find_index, shorten, is_deleted, overwrite, delete_pair,
  delete_at,
}
use cloud_provider_openstack.Routes.CreateRestores.{create_route-restores}
use cloud_provider_openstack.Routes.CreateEnsures.{create_route-ensures, Paired}
use cloud_provider_openstack.Routes.Create.{
  pair_for, create_at, create_classical, create_pair, has_route, route_to, create_route,
}
use cloud_provider_openstack.Routes.Api.{
  RouterRoute, Routes, CloudRoute, Neutron, AddressPair, Node, IpParser,
}
use cloud_provider_openstack.Routes.Addresses.{get_port_by_ip, get_addr_by_node_name}
use cloud_provider_openstack.Prelude.{
  some, [], ◌++◌, true, ◌⊎◌, eq_iff, false, ◌∷◌, arith, refl, String, ◌==◌, Bool, List, ◌≡◌, ap,
  ◌≢◌, if◌then◌else◌,
}
use cloud_provider_openstack.Go.{Result, not_found, ok, err}

-- One router and the port "p1"; `listed` says whether a lookup of an address finds the port.
record Cloud : Type 0 where
  routes : List RouterRoute
  pairs : List AddressPair
  listed : Bool

abbrev answer : String → List AddressPair → Cloud → Result Unit × Cloud
answer id new c = if id == "p1" then (ok tt, record c { pairs = new }) else (err not_found, c)

abbrev cloud_net : Neutron Cloud
cloud_net = record {
  get_router = λ id c. (ok (record { id = id; routes = c.routes }), c);
  update_router = λ id new c. (ok tt, record c { routes = new });
  add_routes = λ id new c. (ok tt, record c { routes = c.routes ++ new });
  remove_routes = λ id old c. (ok tt, c);
  ports_of_device = λ id c. (ok [], c);
  ports_with_address = λ a n c. (
    ok (
        if c.listed
        then record { id = "p1"; network_id = n; allowed_address_pairs = c.pairs } ∷ []
        else []),
    c,
  );
  update_port = answer;
}

abbrev cloud_views : Views Cloud
cloud_views = record {
  routes_of = λ c. c.routes;
  pairs_of = λ c p. if p == "p1" then c.pairs else [];
}

cloud_ports-Shown :
    (a n : String) (c : Cloud)
    → Shown (cloud_views.pairs_of c) (cloud_net.ports_with_address a n c).0
cloud_ports-Shown a n c = ground arith

answer_routes :
    (id : String) (new : List AddressPair) (c : Cloud) → (answer id new c).1.routes ≡ c.routes
answer_routes id new c = ground arith

answer_pairs :
    (id : String) (new : List AddressPair) (c : Cloud) (p : String)
    → cloud_views.pairs_of (answer id new c).1 p
      ≡ after
          (answer id new c).0
          (λ q. if q == id then new else cloud_views.pairs_of c q)
          (cloud_views.pairs_of c)
          p
answer_pairs id new c p = ground (arith, eq_iff id "p1", eq_iff p "p1", eq_iff p id)

cloud_lawful : Lawful cloud_net "r1" cloud_views
cloud_lawful = record {
  router_shown = λ c router h. ground arith;
  get_router_routes = λ c. refl;
  get_router_pairs = λ c. refl;
  ports_shown = cloud_ports-Shown;
  ports_routes = λ a n c. refl;
  ports_pairs = λ a n c. refl;
  update_router_routes = λ new c. refl;
  update_router_pairs = λ new c. refl;
  update_port_routes = answer_routes;
  update_port_pairs = λ id new c. fun_ext (answer_pairs id new c);
}

abbrev parser : IpParser
parser = record {
  parse_ip = λ s. some false;
  cidr_is_v6 = λ s. false;
  sloppy_ip = λ s. some false;
  is_ipv6_cidr_string = λ s. false;
}

abbrev settings : Routes
settings = record { router_id = "r1"; network_ids = "n1" ∷ []; atomic_routes = false }

abbrev worker : Node
worker = record {
  name = "worker";
  addresses = record { kind = "InternalIP"; address = "10.0.0.4" } ∷ [];
}

abbrev pods : CloudRoute
pods = record {
  name = "pods";
  target_node = "worker";
  blackhole = false;
  destination_cidr = "10.8.0.0/24";
}

abbrev other_route : RouterRoute
other_route = route_to "10.9.0.0/24" "10.0.0.5"

abbrev unlisted : Cloud
unlisted = record { routes = other_route ∷ []; pairs = []; listed = false }

abbrev two_routes : Cloud
two_routes = record {
  routes = route_to "10.8.0.0/24" "10.0.0.4" ∷ other_route ∷ [];
  pairs = [];
  listed = false;
}

abbrev ready : Cloud
ready = record { routes = other_route ∷ []; pairs = []; listed = true }

abbrev full : Cloud
full = record {
  routes = route_to "10.8.0.0/24" "10.0.0.4" ∷ other_route ∷ [];
  pairs = pair_for "10.8.0.0/24" ∷ [];
  listed = true;
}

create_route-restores_example :
    ((create_route cloud_net parser settings (ok (worker ∷ [])) pods unlisted).1.routes
      ≡ other_route ∷ [])
    × (cloud_views.pairs_of
          (create_route cloud_net parser settings (ok (worker ∷ [])) pods unlisted).1
        ≡ cloud_views.pairs_of unlisted)
unfolding create_route create_at create_classical create_pair get_addr_by_node_name get_port_by_ip
create_route-restores_example =
    create_route-restores settings cloud_lawful parser (ok (worker ∷ [])) pods unlisted
      {e = not_found} refl (λ u. refl) refl

create_route-ensures_example :
    let w' = (create_route cloud_net parser settings (ok (worker ∷ [])) pods ready).1 in
    ((has_route "10.8.0.0/24" "10.0.0.4" ready.routes ≡ true) × (w'.routes ≡ ready.routes))
    ⊎ ((w'.routes ≡ other_route ∷ route_to "10.8.0.0/24" "10.0.0.4" ∷ [])
        × Paired settings cloud_lawful "10.8.0.0/24" w')
unfolding create_route create_at create_classical create_pair get_addr_by_node_name get_port_by_ip
create_route-ensures_example =
    create_route-ensures settings cloud_lawful parser (worker ∷ []) pods ready refl refl

delete_route-removes_example :
    (x : RouterRoute) × (is_deleted pods (target parser (worker ∷ []) pods) x ≡ true)
    × Perm full.routes
        (x ∷ (delete_route cloud_net parser settings (ok (worker ∷ [])) pods full).1.routes)
unfolding delete_route delete_at delete_classical delete_pair get_addr_by_node_name get_port_by_ip
    find_index overwrite shorten
delete_route-removes_example =
    delete_route-removes parser settings cloud_lawful (worker ∷ []) pods full refl refl refl

delete_route-unwind_loses_example :
    (delete_route cloud_net parser settings (ok (worker ∷ [])) pods two_routes).1.routes
    ≢ two_routes.routes
unfolding delete_route delete_at delete_classical delete_pair get_addr_by_node_name get_port_by_ip
    find_index overwrite shorten
delete_route-unwind_loses_example =
    delete_route-unwind_loses parser settings cloud_lawful (worker ∷ []) pods two_routes
      {e = not_found} {i = 0} refl refl refl (λ new u. refl) refl refl refl
      (λ same.
        ground (arith, ap (λ (x : RouterRoute). x.next_hop) same, eq_iff "10.0.0.4" "10.0.0.5"))
      refl refl
