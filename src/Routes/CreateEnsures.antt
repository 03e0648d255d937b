-- ===== src/Routes/CreateEnsures.antt =====
-- A `CreateRoute` that succeeds has made the route, and the pair on a port.
use mathlib.Core.Path.{subst}
use cloud_provider_openstack.Routes.CreateRestores.{create_pair-PairEffect}
use cloud_provider_openstack.Routes.Change.{update_allowed_address_pairs}
use cloud_provider_openstack.Routes.Ports.{pairs-get_port_by_ip, get_port_by_ip_shown}
use cloud_provider_openstack.Routes.Laws.{Views, Lawful}
use cloud_provider_openstack.Routes.Create.{
  pair_for, has_pair, create_pair, has_route, create_classical, route_to, create_route, create_at,
}
use cloud_provider_openstack.Routes.Api.{
  Neutron, Routes, AddressPair, Router, IpParser, Node, CloudRoute,
}
use cloud_provider_openstack.Routes.Addresses.{get_port_by_ip, get_addr_by_node_name}
use cloud_provider_openstack.Prelude.{
  [], List, eq_refl, inr, inl, String, ◌≡◌, refl, arith, ◌++◌, ◌∷◌, true, ◌⊎◌, Bool-cases, ap, ◌==◌,
  none, ◌∙◌, sym, false,
}
use cloud_provider_openstack.Go.{failed, try_rule, defer_call, Outcome, try, disarm_return, ok}

module _ {W : Type 0} {net : Neutron W} (r : Routes) {v : Views W}
    (l : Lawful net r.router_id v) where
  -- a pair for the network is stored for some port
  abbrev pub Paired : String → W → Type 0
  Paired cidr u = (p : String) × (has_pair cidr (v.pairs_of u p) ≡ true)

  has_pair-append :
      (cidr : String) (pairs : List AddressPair)
      → has_pair cidr (pairs ++ pair_for cidr ∷ []) ≡ true
  has_pair-append cidr [] = rw (eq_refl cidr)
  has_pair-append cidr (p ∷ pairs) = ground (arith, has_pair-append cidr pairs)

  Paired-of :
      (cidr : String) (o : Outcome × W) (p : String)
      → (failed o.0.error ≡ true) ⊎ (has_pair cidr (v.pairs_of o.1 p) ≡ true)
      → (failed o.0.error ≡ true) ⊎ Paired cidr o.1
  Paired-of cidr o p (inl bad) = inl bad
  Paired-of cidr o p (inr there) = inr (p, there)

  create_pair-Paired :
      (cidr addr : String) (w : W)
      → (failed (create_pair net r cidr addr w).0.error ≡ true)
        ⊎ Paired cidr (create_pair net r cidr addr w).1
  unfolding create_pair
  create_pair-Paired cidr addr w =
      let w' = (get_port_by_ip net addr r.network_ids w).1 in
      let pairs_read = pairs-get_port_by_ip l addr r.network_ids w in
      try_rule (λ o. (failed o.0.error ≡ true) ⊎ Paired cidr o.1)
        (get_port_by_ip net addr r.network_ids) _ w
        (λ port found.
          let shown = get_port_by_ip_shown l addr r.network_ids w port found in
          elim (Bool-cases (has_pair cidr port.allowed_address_pairs)) [
            | inl there ↦ rw there (inr (port.id, rw (pairs_read, ← shown) there))
            | inr fresh ↦
                let new = port.allowed_address_pairs ++ pair_for cidr ∷ [] in
                let stored =
                  ap (λ (f : String → List AddressPair). f port.id)
                    (l.update_port_pairs port.id new w') in
                let u = (net.update_port port.id new w').1 in
                let o =
                  try (update_allowed_address_pairs net port new)
                    (λ unwind. defer_call unwind disarm_return) w' in
                let done : (failed o.0.error ≡ true)
                    ⊎ (has_pair cidr (v.pairs_of o.1 port.id) ≡ true) =
                  ground (
                    arith,
                    stored,
                    eq_refl port.id,
                    has_pair-append cidr port.allowed_address_pairs,
                  ) in
                rw fresh (Paired-of cidr o port.id done)
          ])
        (λ e bad. inl refl)

  -- With no error the router has the routes from before and the new one, once; and where the route
  -- is new, the pair is stored for a port.
  abbrev pub Ensured : String → String → W → Outcome × W → Type 0
  Ensured cidr addr before o =
      (failed o.0.error ≡ true)
      ⊎ ((has_route cidr addr (v.routes_of before) ≡ true) × (v.routes_of o.1 ≡ v.routes_of before))
      ⊎ ((v.routes_of o.1 ≡ v.routes_of before ++ route_to cidr addr ∷ []) × Paired cidr o.1)

  create_classical-Ensured :
      (cidr addr : String) (router : Router) (w : W)
      → router.id ≡ r.router_id
      → router.routes ≡ v.routes_of w
      → Ensured cidr addr w (create_classical net r cidr addr router w)
  unfolding create_classical
  create_classical-Ensured cidr addr router w same_id shown =
      let old = v.routes_of w in
      let new = old ++ route_to cidr addr ∷ [] in
      let w' = (net.update_router r.router_id new w).1 in
      let effect = create_pair-PairEffect r l cidr addr w' in
      let paired = create_pair-Paired cidr addr w' in
      rw (same_id, shown) (ground (arith, effect, paired, l.update_router_routes new w))

  create_at-Ensured :
      (cidr addr : String) (w : W)
      → r.atomic_routes ≡ false
      → Ensured cidr addr w (create_at net r cidr addr w)
  unfolding create_at
  create_at-Ensured cidr addr w classical = elim (Bool-cases (addr == "")) [
    | inl missing ↦ rw missing (inl refl)
    | inr known ↦
        let read = l.get_router_routes w in
        simp (known, classical)
          (try_rule (Ensured cidr addr w) (net.get_router r.router_id) _ w
            (λ router got.
              let (same_id, shown) = l.router_shown w router got in
              subst
                (λ old.
                  (failed
                      (create_classical net r cidr addr router
                        (net.get_router r.router_id w).1).0.error
                    ≡ true)
                  ⊎ ((has_route cidr addr old ≡ true)
                      × (v.routes_of
                            (create_classical net r cidr addr router
                              (net.get_router r.router_id w).1).1
                          ≡ old))
                  ⊎ ((v.routes_of
                          (create_classical net r cidr addr router
                            (net.get_router r.router_id w).1).1
                        ≡ old ++ route_to cidr addr ∷ [])
                      × Paired cidr
                          (create_classical net r cidr addr router
                            (net.get_router r.router_id w).1).1))
                read
                (create_classical-Ensured cidr addr router (net.get_router r.router_id w).1 same_id
                  (shown ∙ sym read)))
            (λ e bad. inl refl))
  ]

  -- On a router without the extension, a `CreateRoute` that succeeds either found the route and
  -- left the routes alone, or appended it to them and the pair for its network is stored for a port.
  pub create_route-ensures :
      (ip : IpParser) (nodes : List Node) (route : CloudRoute) (w : W)
      → r.atomic_routes ≡ false
      → (create_route net ip r (ok nodes) route w).0 ≡ none
      → let cidr = route.destination_cidr in
        let addr = get_addr_by_node_name ip route.target_node (ip.cidr_is_v6 cidr) nodes in
        let w' = (create_route net ip r (ok nodes) route w).1 in
        ((has_route cidr addr (v.routes_of w) ≡ true) × (v.routes_of w' ≡ v.routes_of w))
        ⊎ ((v.routes_of w' ≡ v.routes_of w ++ route_to cidr addr ∷ []) × Paired cidr w')
  unfolding create_route
  create_route-ensures ip nodes route w classical h =
      let cidr = route.destination_cidr in
      let addr = get_addr_by_node_name ip route.target_node (ip.cidr_is_v6 cidr) nodes in
      elim (create_at-Ensured cidr addr w classical) [
        | inl bad ↦ absurd (ground (arith, bad, h))
        | inr good ↦ good
      ]
