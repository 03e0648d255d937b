-- ===== src/Routes/Delete.antt =====
-- DeleteRoute of pkg/openstack/routes.go. A slice is its elements: `routes := router.Routes` shares
-- them, so the element that is overwritten in place is overwritten in `router.Routes` too, and the
-- unwinder, which sends `router.Routes`, sends it. The lock is not modelled.
use cloud_provider_openstack.Prelude.{
  ℕ, suc, ◌-◌, String, List, [], ◌∷◌, Bool, Option, none, some, ◌==◌, ◌&&◌, ◌||◌, length, get_elem?,
  set, take, if◌then◌else◌,
}
use mathlib.Core.Option
use cloud_provider_openstack.Go.{
  Result, ok, err, Error, Body, try, return_err, return_nil, disarm_return, defer_call, run_body,
  no_address_found,
}
use cloud_provider_openstack.Routes.Api.{
  Node, Neutron, IpParser, AddressPair, Router, RouterRoute, Routes, CloudRoute,
}
use cloud_provider_openstack.Routes.Addresses.{get_addr_by_node_name, get_port_by_ip}
use cloud_provider_openstack.Routes.Change.{
  update_routes, remove_route, update_allowed_address_pairs,
}
use cloud_provider_openstack.Routes.Create.{route_to}

module _ {ℓ} {A : Type ℓ} where
  -- The first index that passes; `none` is the source's -1.
  unfoldable pub find_index : (A → Bool) → List A → Option ℕ
  find_index p [] = none
  find_index p (x ∷ xs) =
      let rest = Option.map suc (find_index p xs) in if p x then some 0 else rest

  -- `xs[index] = xs[len(xs)-1]`
  unfoldable pub overwrite : List A → ℕ → List A
  overwrite xs i = elim (get_elem? xs (length xs - 1)) [ none ↦ xs | some last ↦ set xs i last ]

  -- `xs = xs[:len(xs)-1]`, after that
  unfoldable pub shorten : List A → List A
  shorten xs = take (length xs - 1) xs

-- The route that is meant: a blackhole route has its next hop in place of the node's name.
abbrev pub is_deleted : CloudRoute → String → RouterRoute → Bool
is_deleted route addr item =
    item.destination_cidr == route.destination_cidr
    && (item.next_hop == addr || (route.blackhole && item.next_hop == route.target_node))

module _ {W : Type 0} (net : Neutron W) (r : Routes) where
  -- the second half: the pair is taken off the port that has the address
  unfoldable pub delete_pair : String → String → Body W
  unfolding update_allowed_address_pairs
  delete_pair cidr addr = try (get_port_by_ip net addr r.network_ids) λ port.
      elim (find_index (λ (item : AddressPair). item.ip_address == cidr)
        port.allowed_address_pairs) [
          | none ↦ disarm_return
          | some i ↦
              let written = overwrite port.allowed_address_pairs i in
              try
                (update_allowed_address_pairs net (record port { allowed_address_pairs = written })
                  (shorten written))
                λ unwind. defer_call unwind disarm_return
        ]

  unfoldable pub delete_classical : CloudRoute → String → Router → Body W
  unfolding update_routes
  delete_classical route addr router = elim (find_index (is_deleted route addr) router.routes) [
    | none ↦ return_nil
    | some i ↦
        let written = overwrite router.routes i in
        try (update_routes net (record router { routes = written }) (shorten written)) λ unwind.
          if route.blackhole
          then return_nil
          else defer_call unwind (delete_pair route.destination_cidr addr)
  ]

  unfoldable pub delete_atomic : CloudRoute → String → Body W
  unfolding remove_route
  delete_atomic route addr =
      let next_hop = if route.blackhole then route.target_node else addr in
      try (remove_route net r.router_id (route_to route.destination_cidr next_hop ∷ [])) λ unwind.
        if route.blackhole
        then return_nil
        else defer_call unwind (delete_pair route.destination_cidr addr)

  unfoldable pub delete_at : CloudRoute → String → Body W
  delete_at route addr =
      if r.atomic_routes
      then delete_atomic route addr
      else try (net.get_router r.router_id) (delete_classical route addr)

module _ {W : Type 0} (net : Neutron W) (ip : IpParser) (r : Routes) where
  -- the address of the node, which a blackhole route does not have
  unfoldable pub delete_route : Result (List Node) → CloudRoute → W → Option Error × W
  delete_route nodes route =
      if route.blackhole then run_body (delete_at net r route "") else elim nodes [
        | err e ↦ run_body (return_err e)
        | ok ns ↦
            let v6 = ip.cidr_is_v6 route.destination_cidr in
            let addr = get_addr_by_node_name ip route.target_node v6 ns in
            if addr == ""
            then run_body (return_err no_address_found)
            else run_body (delete_at net r route addr)
      ]
