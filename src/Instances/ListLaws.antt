-- ===== src/Instances/ListLaws.antt =====
-- What holds of the addresses that nodeAddresses of pkg/openstack/instances.go lists.
use cloud_provider_openstack.Util.Basic.{contains}
use cloud_provider_openstack.Routes.Api.{NodeAddress}
use cloud_provider_openstack.Prelude.Strings.{text_eq}
use cloud_provider_openstack.Prelude.Sorting.{
  stable_sort, any-stable_sort, all-filter, insert_by, filter, all-stable_sort, any_inserted,
  sort_names,
}
use cloud_provider_openstack.Prelude.Maps.{get_header}
use cloud_provider_openstack.Prelude.{
  List, Bool, inr, String, arith, ◌==◌, ◌∙◌, false, ◌∷◌, ◌||◌, [], ◌++◌, true, ◌&&◌, refl, ◌≡◌,
  eq_refl, not, inl, eqb, Bool-cases, if◌then◌else◌, length, all, ap, sym,
}
use cloud_provider_openstack.Instances.Removing.{
  is_removed, remove_from_node_addresses_one, remove_from_node_addresses,
}
use cloud_provider_openstack.Instances.NodeAddresses.{
  add_to_node_addresses, has_node_address, same_address, is_distinct, same_address_sym,
  is_distinct-append,
}
use cloud_provider_openstack.Instances.Api.{
  Cloud, Client, IpEntry, TrunkPort, AddressOpts, Readers, Server,
}
use cloud_provider_openstack.Instances.AddressOrder.{
  build_address_sort_order_list, comes_first, sort_node_addresses,
}
use cloud_provider_openstack.Instances.AddressList.{
  host_name, add_fixed, add_one, place_networks, internal_ip, add_visible, sorted_addresses,
  add_ports, add_access, entries_of, is_hidden, place_entries, external_ip, node_addresses_of,
  place_entry, type_host_name, merge_trunks, keys_of,
}
use cloud_provider_openstack.Go.{ok, ◌>>=◌, ok-injective, pure, Result, err, continue}

has-filter :
    (p : NodeAddress → Bool) (xs : List NodeAddress) (a : NodeAddress)
    → has_node_address xs a ≡ false
    → has_node_address (filter p xs) a ≡ false
has-filter p [] a h = refl
has-filter p (x ∷ xs) a h = ground (arith, h, has-filter p xs a)

is_distinct-filter :
    (p : NodeAddress → Bool) (xs : List NodeAddress)
    → is_distinct xs ≡ true
    → is_distinct (filter p xs) ≡ true
is_distinct-filter p [] h = refl
is_distinct-filter p (x ∷ xs) h = ground (arith, h, has-filter p xs x, is_distinct-filter p xs)

is_distinct-insert_by :
    (less : NodeAddress → NodeAddress → Bool) (a : NodeAddress) (ys : List NodeAddress)
    → is_distinct ys ≡ true
    → has_node_address ys a ≡ false
    → is_distinct (insert_by less a ys) ≡ true
unfolding insert_by
is_distinct-insert_by less a [] h k = refl
is_distinct-insert_by less a (y ∷ ys) h k = ground (
  arith,
  h,
  k,
  same_address_sym a y,
  any_inserted less (λ x. same_address x y) a ys,
  is_distinct-insert_by less a ys,
)

is_distinct-stable_sort :
    (less : NodeAddress → NodeAddress → Bool) (xs : List NodeAddress)
    → is_distinct xs ≡ true
    → is_distinct (stable_sort less xs) ≡ true
unfolding stable_sort
is_distinct-stable_sort less [] h = refl
is_distinct-stable_sort less (x ∷ xs) h =
    is_distinct-insert_by less x (stable_sort less xs)
      (is_distinct-stable_sort less xs (ground (arith, h)))
      (any-stable_sort less (λ y. same_address y x) xs ∙ ground (arith, h))

module _ {N : Type 0} (readers : Readers N) (opts : AddressOpts) (srv : Server) where
  -- an address that is not hidden, or the server's access address of IPv4 or its host name
  abbrev pub is_allowed : NodeAddress → Bool
  is_allowed a =
      not (is_hidden readers opts a.address) || a.address == srv.access_ipv4 || a.kind == host_name

  abbrev pub is_proper : List NodeAddress → Bool
  is_proper addrs = is_distinct addrs && all is_allowed addrs

  all-append_one :
      (xs : List NodeAddress) (a : NodeAddress)
      → all is_allowed (xs ++ a ∷ []) ≡ (all is_allowed xs && is_allowed a)
  all-append_one [] a = ground arith
  all-append_one (x ∷ xs) a = ground (arith, all-append_one xs a)

  add_one-is_proper :
      (kind address : String) (addrs : List NodeAddress)
      → is_allowed (record { kind = kind; address = address }) ≡ true
      → is_proper addrs ≡ true
      → is_proper (add_one readers opts kind address addrs) ≡ true
  unfolding add_to_node_addresses
  add_one-is_proper kind address addrs a h =
      let add : NodeAddress = record { kind = kind; address = address } in
      elim (Bool-cases (has_node_address addrs add)) [
        | inl old ↦ rw old h
        | inr new ↦
            rw new (ground (arith, h, a, all-append_one addrs add, is_distinct-append addrs add))
      ]

  add_visible-is_proper :
      (kind address : String) (addrs : List NodeAddress)
      → is_proper addrs ≡ true
      → is_proper (add_visible readers opts kind address addrs) ≡ true
  unfolding add_visible
  add_visible-is_proper kind address addrs h = elim (Bool-cases (is_hidden readers opts address)) [
    | inl hidden ↦ rw hidden h
    | inr shown ↦ rw shown (add_one-is_proper kind address addrs (ground (arith, shown)) h)
  ]

  removed-is_proper :
      (addrs : List NodeAddress) (remove : NodeAddress)
      → is_proper addrs ≡ true
      → is_proper (remove_from_node_addresses addrs (remove ∷ [])) ≡ true
  removed-is_proper addrs remove h =
      let kept : NodeAddress → Bool = λ x. not (is_removed remove x) in
      rw (remove_from_node_addresses_one addrs remove)
        (ground (arith, h, is_distinct-filter kept addrs, all-filter kept is_allowed addrs))

  add_fixed-is_proper :
      (active : Bool) (ips : List String) (addrs : List NodeAddress)
      → is_proper addrs ≡ true
      → is_proper (add_fixed readers opts active ips addrs) ≡ true
  unfolding add_fixed
  add_fixed-is_proper active [] addrs h = h
  add_fixed-is_proper true (ip ∷ ips) addrs h =
      add_fixed-is_proper true ips (add_visible readers opts internal_ip ip addrs)
        (add_visible-is_proper internal_ip ip addrs h)
  add_fixed-is_proper false (ip ∷ ips) addrs h = add_fixed-is_proper false ips addrs h

  add_ports-is_proper :
      (ports : List TrunkPort) (addrs : List NodeAddress)
      → is_proper addrs ≡ true
      → is_proper (add_ports readers opts ports addrs) ≡ true
  unfolding add_ports
  add_ports-is_proper [] addrs h = h
  add_ports-is_proper (port ∷ ports) addrs h =
      add_ports-is_proper ports
        (add_fixed readers opts (port.status == "ACTIVE") port.fixed_ips addrs)
        (add_fixed-is_proper (port.status == "ACTIVE") port.fixed_ips addrs h)

  if_proper :
      (b : Bool) (xs ys : List NodeAddress)
      → (b ≡ true → is_proper xs ≡ true)
      → is_proper ys ≡ true
      → is_proper (if b then xs else ys) ≡ true
  if_proper true xs ys h k = h refl
  if_proper false xs ys h k = k

  add_access-is_proper :
      (addrs : List NodeAddress)
      → is_proper addrs ≡ true
      → is_proper (add_access readers opts srv addrs) ≡ true
  unfolding add_access is_hidden
  add_access-is_proper addrs h =
      let host = get_header type_host_name srv.metadata in
      let with_v4 =
        if not (srv.access_ipv4 == "")
        then add_one readers opts external_ip srv.access_ipv4 addrs
        else addrs in
      let v4_proper : is_proper with_v4 ≡ true =
        if_proper (not (srv.access_ipv4 == ""))
          (add_one readers opts external_ip srv.access_ipv4 addrs) addrs
          (λ _.
            add_one-is_proper external_ip srv.access_ipv4 addrs
              (ground (arith, eq_refl srv.access_ipv4)) h)
          h in
      let v6 = not (srv.access_ipv6 == "") && not opts.ipv6_disabled in
      let with_v6 =
        if v6 then add_one readers opts external_ip srv.access_ipv6 with_v4 else with_v4 in
      let v6_proper : is_proper with_v6 ≡ true =
        if_proper v6 (add_one readers opts external_ip srv.access_ipv6 with_v4) with_v4
          (λ shown.
            add_one-is_proper external_ip srv.access_ipv6 with_v4 (ground (arith, shown)) v4_proper)
          v4_proper in
      if_proper (not (host == "")) (add_one readers opts host_name host with_v6) with_v6
        (λ _. add_one-is_proper host_name host with_v6 (ground arith) v6_proper) v6_proper

  place_entry-is_proper :
      (network : String) (props : IpEntry) (addrs : List NodeAddress)
      → is_proper addrs ≡ true
      → is_proper (place_entry readers opts network props addrs) ≡ true
  unfolding place_entry
  place_entry-is_proper network props addrs h =
      let remove : NodeAddress = record { kind = ""; address = props.addr } in
      let removed = remove_from_node_addresses addrs (remove ∷ []) in
      let removed_proper = removed-is_proper addrs remove h in
      if_proper (props.ip_type == "floating")
        (add_visible readers opts external_ip props.addr addrs) _
        (λ _. add_visible-is_proper external_ip props.addr addrs h)
        (if_proper (contains opts.public_networks network)
          (add_visible readers opts external_ip props.addr removed) _
          (λ _. add_visible-is_proper external_ip props.addr removed removed_proper)
          (if_proper
            (eqb (length opts.internal_networks) 0 || contains opts.internal_networks network)
            (add_visible readers opts internal_ip props.addr addrs) removed
            (λ _. add_visible-is_proper internal_ip props.addr addrs h) removed_proper))

  place_entries-is_proper :
      (network : String) (entries : List IpEntry) (addrs : List NodeAddress)
      → is_proper addrs ≡ true
      → is_proper (place_entries readers opts network entries addrs) ≡ true
  unfolding place_entries
  place_entries-is_proper network [] addrs h = h
  place_entries-is_proper network (props ∷ entries) addrs h =
      place_entries-is_proper network entries (place_entry readers opts network props addrs)
        (place_entry-is_proper network props addrs h)

  place_networks-is_proper :
      (networks : List String) (m : List (String × List IpEntry)) (addrs : List NodeAddress)
      → is_proper addrs ≡ true
      → is_proper (place_networks readers opts networks m addrs) ≡ true
  unfolding place_networks
  place_networks-is_proper [] m addrs h = h
  place_networks-is_proper (network ∷ networks) m addrs h =
      place_networks-is_proper networks m
        (place_entries readers opts network (entries_of network m) addrs)
        (place_entries-is_proper network (entries_of network m) addrs h)

  sorted-is_proper :
      (addrs : List NodeAddress)
      → is_proper addrs ≡ true
      → is_proper (sorted_addresses readers opts addrs) ≡ true
  unfolding sorted_addresses sort_node_addresses
  sorted-is_proper addrs h =
      let less = comes_first readers (build_address_sort_order_list readers opts.sort_order) in
      if_proper (not (text_eq opts.sort_order [])) (stable_sort less addrs) addrs
        (λ _.
          ground
            (arith, h, is_distinct-stable_sort less addrs, all-stable_sort less is_allowed addrs))
        h

  lists_proper :
      {W : Type 0} (cloud : Cloud W) (client : Client) (ports : List TrunkPort) (w : W)
      (addrs : List NodeAddress)
      → (node_addresses_of readers opts cloud client srv ports w).0 ≡ ok addrs
      → is_proper addrs ≡ true
  unfolding node_addresses_of
  lists_proper {W = W} cloud client ports w addrs h =
      let start = add_access readers opts srv (add_ports readers opts ports []) in
      by_entries start
        (add_access-is_proper (add_ports readers opts ports []) (add_ports-is_proper ports [] refl))
        (cloud.decode_addresses srv) h
    where
      list_of : List NodeAddress → List (String × List IpEntry) → List NodeAddress
      list_of start m =
          sorted_addresses readers opts
            (place_networks readers opts (sort_names (keys_of m)) m start)

      by_merged :
          (start : List NodeAddress)
          → is_proper start ≡ true
          → (r : Result (List (String × List IpEntry))) → (u : W)
          → (continue r (λ m. pure (list_of start m)) u).0 ≡ ok addrs
          → is_proper addrs ≡ true
      by_merged start p (err e) u k = absurd (ground (arith, k))
      by_merged start p (ok m) u k =
          ap is_proper (sym (ok-injective k))
          ∙ sorted-is_proper (place_networks readers opts (sort_names (keys_of m)) m start)
              (place_networks-is_proper (sort_names (keys_of m)) m start p)

      by_entries :
          (start : List NodeAddress)
          → is_proper start ≡ true
          → (d : Result (List (String × List IpEntry)))
          → (continue d
              (λ entries. merge_trunks readers opts cloud client ports entries >>= λ m.
                pure (list_of start m))
              w).0
            ≡ ok addrs
          → is_proper addrs ≡ true
      by_entries start p (err e) k = absurd (ground (arith, k))
      by_entries start p (ok entries) k =
          let (r, u) = merge_trunks readers opts cloud client ports entries w in
          by_merged start p r u k

  -- The addresses that are listed for a server, whatever its ports and networks are, stand once
  -- each with their type, and each is not hidden (no IPv6 address where IPv6 is disabled), or is
  -- the server's access address of IPv4 or its host name.
  pub node_addresses_of-is_proper :
      {W : Type 0} (cloud : Cloud W) (client : Client) (ports : List TrunkPort) (w : W)
      (addrs : List NodeAddress)
      → (node_addresses_of readers opts cloud client srv ports w).0 ≡ ok addrs
      → (is_distinct addrs ≡ true) × (all is_allowed addrs ≡ true)
  node_addresses_of-is_proper cloud client ports w addrs h =
      let proper = lists_proper cloud client ports w addrs h in
      (ground (arith, proper), ground (arith, proper))
