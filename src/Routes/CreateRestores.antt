-- ===== src/Routes/CreateRestores.antt =====
-- A failing `CreateRoute` takes back what it did.
use cloud_provider_openstack.Routes.Ports.{pairs-get_port_by_ip, routes-get_port_by_ip}
use cloud_provider_openstack.Routes.Laws.{Lawful, Views}
use cloud_provider_openstack.Routes.Create.{
  create_pair, route_to, create_classical, pair_for, create_at, create_route,
}
use cloud_provider_openstack.Routes.Api.{Routes, Neutron, Router, IpParser, Node, CloudRoute}
use cloud_provider_openstack.Routes.Addresses.{get_port_by_ip, get_addr_by_node_name}
use cloud_provider_openstack.Prelude.{
  ◌≡◌, true, some, String, ◌++◌, arith, ◌∷◌, [], none, List, false, sym, ◌⊎◌, ◌==◌, inl, ◌∙◌, inr,
  Bool-cases,
}
use cloud_provider_openstack.Go.{Error, Outcome, try_rule, ok, Result, err, failed}

module _ {W : Type 0} {net : Neutron W} (r : Routes) {v : Views W}
    (l : Lawful net r.router_id v) where
  -- What `create_pair` does to the views: never a route, and a pair only when it disarms.
  pub record PairEffect (w : W) (o : Outcome × W) : Type 0 where
    pub routes_kept : v.routes_of o.1 ≡ v.routes_of w
    pub pairs_kept : o.0.armed ≡ true → v.pairs_of o.1 ≡ v.pairs_of w
    pub armed_error :
        ((o.0.error ≡ none) × (o.0.armed ≡ false))
        ⊎ ((failed o.0.error ≡ true) × (o.0.armed ≡ true))

  pub create_pair-PairEffect :
      (cidr addr : String) (w : W) → PairEffect w (create_pair net r cidr addr w)
  unfolding create_pair
  create_pair-PairEffect cidr addr w =
      let w' = (get_port_by_ip net addr r.network_ids w).1 in
      let routes_read = routes-get_port_by_ip l addr r.network_ids w in
      let pairs_read = pairs-get_port_by_ip l addr r.network_ids w in
      try_rule (PairEffect w) (get_port_by_ip net addr r.network_ids) _ w
        (λ port found.
          let new = port.allowed_address_pairs ++ pair_for cidr ∷ [] in
          ground (
            arith,
            routes_read,
            pairs_read,
            l.update_port_routes port.id new w',
            l.update_port_pairs port.id new w',
          ))
        (λ e bad. ground (arith, routes_read, pairs_read))

  -- What a body with an error left of the views `before`: both as they were.
  record Restored (before : W) (o : Outcome × W) : Type 0 where
    routes_back : (o.0.error ≡ none) ⊎ (v.routes_of o.1 ≡ v.routes_of before)
    pairs_back : (o.0.error ≡ none) ⊎ (v.pairs_of o.1 ≡ v.pairs_of before)

  create_classical-Restored :
      (cidr addr : String) (router : Router) (w : W)
      → router.id ≡ r.router_id
      → router.routes ≡ v.routes_of w
      → ((u : W) → (net.update_router r.router_id (v.routes_of w) u).0 ≡ ok tt)
      → Restored w (create_classical net r cidr addr router w)
  unfolding create_classical
  create_classical-Restored cidr addr router w same_id shown reverts =
      let old = v.routes_of w in
      let new = old ++ route_to cidr addr ∷ [] in
      let w' = (net.update_router r.router_id new w).1 in
      let u = (create_pair net r cidr addr w').1 in
      let effect = create_pair-PairEffect cidr addr w' in
      rw (same_id, shown)
        (ground (
          arith,
          effect,
          reverts u,
          l.update_router_routes new w,
          l.update_router_pairs new w,
          l.update_router_routes old u,
          l.update_router_pairs old u,
        ))

  create_at-Restored :
      (cidr addr : String) (w : W)
      → r.atomic_routes ≡ false
      → ((u : W) → (net.update_router r.router_id (v.routes_of w) u).0 ≡ ok tt)
      → Restored w (create_at net r cidr addr w)
  unfolding create_at
  create_at-Restored cidr addr w classical reverts = elim (Bool-cases (addr == "")) [
    | inl missing ↦ rw missing (ground arith)
    | inr found ↦
        let read = (net.get_router r.router_id w).1 in
        let routes_read = l.get_router_routes w in
        let pairs_read = l.get_router_pairs w in
        simp (found, classical)
          (try_rule (Restored w) (net.get_router r.router_id) _ w
            (λ router got.
              let (same_id, shown) = l.router_shown w router got in
              let back =
                create_classical-Restored cidr addr router read same_id (shown ∙ sym routes_read)
                  (λ u. rw routes_read (reverts u)) in
              ground (arith, back, routes_read, pairs_read))
            (λ e bad. ground (arith, routes_read, pairs_read)))
  ]

  module _ (ip : IpParser) (nodes : Result (List Node)) (route : CloudRoute) (w : W)
      {e : Error} where
    -- On a router without the extension, a `CreateRoute` that ends with an error leaves the routes
    -- and every port's pairs as they were, if Neutron accepts the old routes again.
    pub create_route-restores :
        r.atomic_routes ≡ false
        → ((u : W) → (net.update_router r.router_id (v.routes_of w) u).0 ≡ ok tt)
        → (create_route net ip r nodes route w).0 ≡ some e
        → (v.routes_of (create_route net ip r nodes route w).1 ≡ v.routes_of w)
          × (v.pairs_of (create_route net ip r nodes route w).1 ≡ v.pairs_of w)
    unfolding create_route
    create_route-restores classical reverts h = by_nodes nodes h
      where
        by_nodes :
            (ns : Result (List Node))
            → (create_route net ip r ns route w).0 ≡ some e
            → (v.routes_of (create_route net ip r ns route w).1 ≡ v.routes_of w)
              × (v.pairs_of (create_route net ip r ns route w).1 ≡ v.pairs_of w)
        by_nodes (err x) k = ground arith
        by_nodes (ok ns) k =
            let cidr = route.destination_cidr in
            let addr = get_addr_by_node_name ip route.target_node (ip.cidr_is_v6 cidr) ns in
            ground (arith, create_at-Restored cidr addr w classical reverts)
