-- ===== src/Routes/Deletion.antt =====
-- `DeleteRoute` as a whole, on a router without the extension "extraroute-atomic".
use mathlib.Core.Option.{some-injective}
use cloud_provider_openstack.Routes.DeleteEffects.{delete_at-Deleted, delete_at-unwound}
use cloud_provider_openstack.Routes.Slices.{
  find_index_sound, swap_remove-perm, find_index-none, get_elem?-overwrite,
}
use cloud_provider_openstack.Routes.Laws.{Views, Lawful}
use cloud_provider_openstack.Routes.Delete.{
  delete_at, delete_route, is_deleted, shorten, overwrite, find_index,
}
use cloud_provider_openstack.Routes.Api.{
  RouterRoute, CloudRoute, Node, IpParser, Routes, Neutron, Router,
}
use cloud_provider_openstack.Routes.Addresses.{get_addr_by_node_name}
use cloud_provider_openstack.Prelude.{
  ◌≡◌, true, ◌∷◌, some, List, none, false, ◌⊎◌, String, if◌then◌else◌, any, arith, ◌≢◌, ◌==◌, inr,
  inl, ◌-◌, ℕ, Option-cases, get_elem?, length, sym, ap, ◌∙◌,
}
use cloud_provider_openstack.Go.{no_address_found, ok, Error}
use mathlib.Core.List.{Perm}

-- The next hop that `DeleteRoute` looks for: none for a blackhole route.
abbrev pub target : IpParser → List Node → CloudRoute → String
target ip nodes route =
    if route.blackhole
    then ""
    else get_addr_by_node_name ip route.target_node (ip.cidr_is_v6 route.destination_cidr) nodes

-- With the nodes at hand the method fails for want of an address, or is its body at that next hop.
delete_route-cases :
    {W : Type 0} (net : Neutron W) (ip : IpParser) (r : Routes) (nodes : List Node)
    (route : CloudRoute) (w : W)
    → (delete_route net ip r (ok nodes) route w ≡ (some no_address_found, w))
        × ((get_addr_by_node_name ip route.target_node (ip.cidr_is_v6 route.destination_cidr) nodes
              == "")
            ≡ true)
      ⊎ (delete_route net ip r (ok nodes) route w ≡ (
        (delete_at net r route (target ip nodes route) w).0.error,
        (delete_at net r route (target ip nodes route) w).1,
      ))
unfolding delete_route
delete_route-cases net ip r nodes route w = ground arith

module _ {W : Type 0} {net : Neutron W} (ip : IpParser) (r : Routes) {v : Views W}
    (l : Lawful net r.router_id v) (nodes : List Node) (route : CloudRoute) (w : W) where
  -- A `DeleteRoute` that succeeds, on a router that has a route as meant, takes exactly one such
  -- route off the router: what was there is that route and what is left, in some order.
  pub delete_route-removes :
      r.atomic_routes ≡ false
      → any (is_deleted route (target ip nodes route)) (v.routes_of w) ≡ true
      → (delete_route net ip r (ok nodes) route w).0 ≡ none
      → (x : RouterRoute) × (is_deleted route (target ip nodes route) x ≡ true)
        × Perm (v.routes_of w) (x ∷ v.routes_of (delete_route net ip r (ok nodes) route w).1)
  delete_route-removes classical there h =
      let addr = target ip nodes route in
      elim (Option-cases (find_index (is_deleted route addr) (v.routes_of w))) [
        | inl missing ↦
            absurd (ground (arith, find_index-none (is_deleted route addr) (v.routes_of w) missing))
        | inr (i, found) ↦
            let (x, at, fits) = find_index_sound (is_deleted route addr) (v.routes_of w) found in
            let effect = delete_at-Deleted r l route addr w classical i found in
            let left : v.routes_of (delete_route net ip r (ok nodes) route w).1
                ≡ shorten (overwrite (v.routes_of w) i) =
              ground (arith, effect, delete_route-cases net ip r nodes route w) in
            (x, fits, rw left (swap_remove-perm (v.routes_of w) i at))
      ]

  -- A `DeleteRoute` whose update is accepted and whose later steps fail does not put the route back:
  -- with the router readable, a node's route that is not the last one is there before, and the
  -- unwinder stores a list that differs from the one before, although Neutron accepts every update.
  pub delete_route-unwind_loses :
      {router : Router} {e : Error} {x last : RouterRoute} {i : ℕ}
      → r.atomic_routes ≡ false
      → route.blackhole ≡ false
      → (net.get_router r.router_id w).0 ≡ ok router
      → ((new : List RouterRoute) (u : W) → (net.update_router r.router_id new u).0 ≡ ok tt)
      → find_index (is_deleted route (target ip nodes route)) (v.routes_of w) ≡ some i
      → get_elem? (v.routes_of w) i ≡ some x
      → get_elem? (v.routes_of w) (length (v.routes_of w) - 1) ≡ some last
      → x ≢ last
      → (get_addr_by_node_name ip route.target_node (ip.cidr_is_v6 route.destination_cidr) nodes
          == "")
        ≡ false
      → (delete_route net ip r (ok nodes) route w).0 ≡ some e
      → v.routes_of (delete_route net ip r (ok nodes) route w).1 ≢ v.routes_of w
  delete_route-unwind_loses {e = e} {x = x} {last = last} {i = i} classical keeps got accepts found
        at at_end differ known h same =
      let addr = target ip nodes route in
      let body = delete_at net r route addr w in
      let parts = delete_route-cases net ip r nodes route w in
      let failed_too : body.0.error ≡ some e = ground (arith, parts, known, h) in
      let sent =
        delete_at-unwound r l route addr w classical i found got keeps accepts failed_too in
      let unchanged : overwrite (v.routes_of w) i ≡ v.routes_of w =
        ground (arith, parts, known, sent, same) in
      let written = get_elem?-overwrite (v.routes_of w) i at at_end in
      let both : some x ≡ some last =
        sym at ∙ sym (ap (λ xs. get_elem? xs i) unchanged) ∙ written in
      differ (some-injective x last both)
