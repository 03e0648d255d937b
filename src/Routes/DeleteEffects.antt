-- ===== src/Routes/DeleteEffects.antt =====
-- What `DeleteRoute` leaves on a router without the extension "extraroute-atomic".
use mathlib.Core.Path.{subst}
use cloud_provider_openstack.Routes.Ports.{routes-get_port_by_ip}
use cloud_provider_openstack.Routes.Laws.{Views, Lawful}
use cloud_provider_openstack.Routes.Delete.{
  delete_pair, shorten, delete_classical, is_deleted, find_index, overwrite, delete_at,
}
use cloud_provider_openstack.Routes.Api.{
  Routes, RouterRoute, CloudRoute, AddressPair, Neutron, Router,
}
use cloud_provider_openstack.Routes.Addresses.{get_port_by_ip}
use cloud_provider_openstack.Prelude.{
  String, false, arith, ℕ, inr, inl, none, some, ◌≡◌, ◌⊎◌, true, ◌==◌, Option-cases, List, ◌∙◌, ap,
  sym,
}
use cloud_provider_openstack.Go.{Outcome, try_rule, ok, Error, failed, try}

module _ {W : Type 0} {net : Neutron W} (r : Routes) {v : Views W}
    (l : Lawful net r.router_id v) where
  -- Taking the pair off a port leaves the routes alone, and is armed when it fails.
  record PairEffect (w : W) (o : Outcome × W) : Type 0 where
    routes_kept : v.routes_of o.1 ≡ v.routes_of w
    armed_error :
        ((o.0.error ≡ none) × (o.0.armed ≡ false))
        ⊎ ((failed o.0.error ≡ true) × (o.0.armed ≡ true))

  delete_pair-PairEffect :
      (cidr addr : String) (w : W) → PairEffect w (delete_pair net r cidr addr w)
  unfolding delete_pair
  delete_pair-PairEffect cidr addr w =
      let w' = (get_port_by_ip net addr r.network_ids w).1 in
      let read = routes-get_port_by_ip l addr r.network_ids w in
      try_rule (PairEffect w) (get_port_by_ip net addr r.network_ids) _ w
        (λ port found.
          let index =
            find_index (λ (item : AddressPair). item.ip_address == cidr)
              port.allowed_address_pairs in
          elim (Option-cases index) [
            | inl missing ↦ rw missing (ground (arith, read))
            | inr (i, there) ↦
                let written = overwrite port.allowed_address_pairs i in
                rw there (ground (arith, read, l.update_port_routes port.id (shorten written) w'))
          ])
        (λ e bad. ground (arith, read))

  -- The answer of the classical logic at a route that is there: with no error the shortened list is
  -- stored; with an error it is the list before, or the one that the unwinder sends.
  pub record Deleted (old : List RouterRoute) (i : ℕ) (o : Outcome × W) : Type 0 where
    pub success : (failed o.0.error ≡ true) ⊎ (v.routes_of o.1 ≡ shorten (overwrite old i))

  module _ (route : CloudRoute) (addr : String) (router : Router) (w : W) (i : ℕ)
      (same_id : router.id ≡ r.router_id) (shown : router.routes ≡ v.routes_of w)
      (found : find_index (is_deleted route addr) (v.routes_of w) ≡ some i) where
    delete_classical-Deleted :
        Deleted (v.routes_of w) i (delete_classical net r route addr router w)
    unfolding delete_classical
    delete_classical-Deleted =
        let new = shorten (overwrite (v.routes_of w) i) in
        let w' = (net.update_router r.router_id new w).1 in
        let effect = delete_pair-PairEffect route.destination_cidr addr w' in
        rw (same_id, shown)
          (rw (found, delete_classical) (ground (arith, effect, l.update_router_routes new w)))

    -- A lookup of the port that fails after the update: the unwinder sends the overwritten list.
    delete_classical-unwound :
        {e : Error}
        → route.blackhole ≡ false
        → ((new : List RouterRoute) (u : W) → (net.update_router r.router_id new u).0 ≡ ok tt)
        → (delete_classical net r route addr router w).0.error ≡ some e
        → v.routes_of (delete_classical net r route addr router w).1 ≡ overwrite (v.routes_of w) i
    unfolding delete_classical
    delete_classical-unwound keeps accepts =
        let written = overwrite (v.routes_of w) i in
        let new = shorten written in
        let w' = (net.update_router r.router_id new w).1 in
        let u = (delete_pair net r route.destination_cidr addr w').1 in
        let effect = delete_pair-PairEffect route.destination_cidr addr w' in
        rw (same_id, shown)
          (rw (found, delete_classical)
            (ground (
              arith,
              effect,
              accepts new w,
              accepts written u,
              l.update_router_routes new w,
              l.update_router_routes written u,
            )))

  module _ (route : CloudRoute) (addr : String) (w : W) (classical : r.atomic_routes ≡ false)
      (i : ℕ) (found : find_index (is_deleted route addr) (v.routes_of w) ≡ some i) where
    pub delete_at-Deleted : Deleted (v.routes_of w) i (delete_at net r route addr w)
    unfolding delete_at
    delete_at-Deleted =
        let read = l.get_router_routes w in
        simp classical (
          try_rule (Deleted (v.routes_of w) i) (net.get_router r.router_id) _ w
            (λ router got.
              let (same_id, shown) = l.router_shown w router got in
              subst
                (λ old.
                  Deleted old i
                    (delete_classical net r route addr router (net.get_router r.router_id w).1))
                read
                (delete_classical-Deleted route addr router (net.get_router r.router_id w).1 i
                  same_id (shown ∙ sym read) (rw read found)))
            (λ e bad. ground arith))

    -- The body fails after the router was read, and its unwinding is accepted.
    pub delete_at-unwound :
        {router : Router} {e : Error}
        → (net.get_router r.router_id w).0 ≡ ok router
        → route.blackhole ≡ false
        → ((new : List RouterRoute) (u : W) → (net.update_router r.router_id new u).0 ≡ ok tt)
        → (delete_at net r route addr w).0.error ≡ some e
        → v.routes_of (delete_at net r route addr w).1 ≡ overwrite (v.routes_of w) i
    unfolding delete_at
    delete_at-unwound {router = router} got keeps accepts =
        let read = l.get_router_routes w in
        let (same_id, shown) = l.router_shown w router got in
        simp classical (
          rw (got, try)
            (λ h.
              delete_classical-unwound route addr router (net.get_router r.router_id w).1 i same_id
                (shown ∙ sym read) (rw read found) keeps accepts h
              ∙ ap (λ old. overwrite old i) read))
