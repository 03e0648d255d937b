-- ===== src/Lb/Nodes.antt =====
-- nodeAddressForLB of pkg/openstack/loadbalancer.go. `netutils.IsIPv4String` and `IsIPv6String` are
-- read off the `sloppy_ip` of `IpParser`.
use cloud_provider_openstack.Routes.Api.{Node, NodeAddress, IpParser}
use cloud_provider_openstack.Prelude.{
  not, List, ◌∷◌, arith, eq_refl, Bool, some, ◌==◌, [], ◌&&◌, ◌⊎◌, false, refl, String, Option,
  none, true, eq_iff, ◌≡◌, if◌then◌else◌, eqb, any, length, inl, inr, Option-cases, suc,
}
use cloud_provider_openstack.Go.{Result, ok, no_address_found, err}

abbrev pub ipv4_protocol : String
ipv4_protocol = "IPv4"

abbrev pub ipv6_protocol : String
ipv6_protocol = "IPv6"

abbrev pub is_v6_text : Option Bool → Bool
is_v6_text none = false
is_v6_text (some is_v6) = is_v6

abbrev pub is_v4_text : Option Bool → Bool
is_v4_text none = false
is_v4_text (some is_v6) = not is_v6

module _ (ip : IpParser) where
  -- the switch over the preferred family
  unfoldable pub address_fits : String → String → Bool
  address_fits family address =
      if family == ipv4_protocol
      then is_v4_text (ip.sloppy_ip address)
      else if family == ipv6_protocol
      then is_v6_text (ip.sloppy_ip address)
      else true

  -- the inner loop, for one of the allowed types
  unfoldable pub address_of_kind : String → String → List NodeAddress → Option String
  unfolding address_fits
  address_of_kind kind family [] = none
  address_of_kind kind family (a ∷ addrs) =
      let rest = address_of_kind kind family addrs in
      if a.kind == kind
      then (if address_fits family a.address then some a.address else rest)
      else rest

  abbrev pub first_of : Option String → Option String → Result String
  first_of (some a) _ = ok a
  first_of none (some a) = ok a
  first_of none none = err no_address_found

  -- The early return for a node without addresses has the error of the end.
  unfoldable pub node_address_for_lb : Node → String → Result String
  unfolding address_of_kind
  node_address_for_lb node family =
      if eqb (length node.addresses) 0
      then err no_address_found
      else first_of (address_of_kind "InternalIP" family node.addresses)
          (address_of_kind "ExternalIP" family node.addresses)

  -- an address of that kind that fits the family
  abbrev pub is_usable : String → String → NodeAddress → Bool
  is_usable kind family a = a.kind == kind && address_fits family a.address

  abbrev pub has_usable : String → String → Node → Bool
  has_usable kind family node = any (is_usable kind family) node.addresses

  address_of_kind-found :
      (kind family : String) (addrs : List NodeAddress) (x : String)
      → address_of_kind kind family addrs ≡ some x
      → any (λ a. is_usable kind family a && a.address == x) addrs ≡ true
  unfolding address_of_kind
  address_of_kind-found kind family [] x h = cc
  address_of_kind-found kind family (a ∷ addrs) x h =
      ground (arith, address_of_kind-found kind family addrs x, eq_refl x, eq_iff a.address x)

  address_of_kind-none :
      (kind family : String) (addrs : List NodeAddress)
      → address_of_kind kind family addrs ≡ none
      → any (is_usable kind family) addrs ≡ false
  unfolding address_of_kind
  address_of_kind-none kind family [] h = refl
  address_of_kind-none kind family (a ∷ addrs) h =
      ground (arith, address_of_kind-none kind family addrs)

  first_of_addresses :
      (family : String) (addrs : List NodeAddress)
      → (if eqb (length addrs) 0
          then err no_address_found
          else first_of
              (address_of_kind "InternalIP" family addrs)
              (address_of_kind "ExternalIP" family addrs))
        ≡ first_of
            (address_of_kind "InternalIP" family addrs)
            (address_of_kind "ExternalIP" family addrs)
  unfolding address_of_kind
  first_of_addresses family [] = refl
  first_of_addresses family (a ∷ addrs) =
      let some_there : eqb (suc (length addrs)) 0 ≡ false = ground arith in rw some_there refl

  -- Where a node has an internal address of the preferred family, the result is such an address;
  -- where it has none of those but an external one, it is such an external address; otherwise the
  -- result is the error that no address was found.
  pub node_address_for_lb_cases :
      (node : Node) (family : String)
      → ((x : String) × (node_address_for_lb node family ≡ ok x)
          × (any (λ a. is_usable "InternalIP" family a && a.address == x) node.addresses ≡ true))
        ⊎ ((x : String) × (node_address_for_lb node family ≡ ok x)
            × (any (λ a. is_usable "ExternalIP" family a && a.address == x) node.addresses ≡ true)
            × (has_usable "InternalIP" family node ≡ false))
        ⊎ (node_address_for_lb node family ≡ err no_address_found)
          × (has_usable "InternalIP" family node ≡ false)
          × (has_usable "ExternalIP" family node ≡ false)
  unfolding node_address_for_lb
  node_address_for_lb_cases node family =
      let addrs = node.addresses in
      rw (first_of_addresses family addrs)
        (elim (Option-cases (address_of_kind "InternalIP" family addrs)) [
          | inr (x, inside) ↦
              inl (x, rw inside refl, address_of_kind-found "InternalIP" family addrs x inside)
          | inl no_inside ↦
              let none_inside = address_of_kind-none "InternalIP" family addrs no_inside in
              elim (Option-cases (address_of_kind "ExternalIP" family addrs)) [
                | inr (x, outside) ↦ inr (
                    inl (
                      x,
                      rw no_inside (rw outside refl),
                      address_of_kind-found "ExternalIP" family addrs x outside,
                      none_inside,
                    ))
                | inl no_outside ↦ inr (
                    inr (
                      rw no_inside (rw no_outside refl),
                      none_inside,
                      address_of_kind-none "ExternalIP" family addrs no_outside,
                    ))
              ]
        ])
