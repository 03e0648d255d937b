-- ===== src/Instances/AddressOrder.antt =====
-- buildAddressSortOrderList, getSortPriority and sortNodeAddresses of pkg/openstack/instances.go.
use cloud_provider_openstack.Routes.Api.{NodeAddress}
use cloud_provider_openstack.Prelude.Strings.{Text, trim_space, text_lt, split}
use cloud_provider_openstack.Prelude.Sorting.{stable_sort}
use cloud_provider_openstack.Prelude.{
  Bool, List, ◌∷◌, ◌&&◌, [], some, none, ℕ, String, suc, eqb, if◌then◌else◌, ltb, length,
}
use cloud_provider_openstack.Instances.Api.{Readers}

module _ {N : Type 0} (readers : Readers N) where
  unfoldable nets_of : List Text → List N
  nets_of [] = []
  nets_of (item ∷ items) =
      let rest = nets_of items in
      elim (readers.parse_net (trim_space item)) [ none ↦ rest | some cidr ↦ cidr ∷ rest ]

  unfoldable pub build_address_sort_order_list : Text → List N
  unfolding nets_of
  build_address_sort_order_list order = nets_of (split b',' order)

  -- the loop over the networks; `len(list) - i` is the length of what is left
  unfoldable pub priority_among : List N → List ℕ → ℕ
  priority_among [] ip = 0
  priority_among (cidr ∷ list) ip =
      let rest = priority_among list ip in
      if readers.net_contains cidr ip then suc (length list) else rest

  unfoldable pub get_sort_priority : List N → String → ℕ
  unfolding priority_among
  get_sort_priority list address = elim (readers.parse_ip_bytes address) [
    | none ↦ 0
    | some ip ↦ priority_among list ip
  ]

  -- `nil` has no bytes.
  abbrev pub ip_bytes : String → List ℕ
  ip_bytes address = elim (readers.parse_ip_bytes address) [ none ↦ [] | some ip ↦ ip ]

  unfoldable pub comes_first : List N → NodeAddress → NodeAddress → Bool
  unfolding get_sort_priority
  comes_first list left right =
      let priority_left = get_sort_priority list left.address in
      let priority_right = get_sort_priority list right.address in
      if ltb 0 priority_left && eqb priority_left priority_right
      then text_lt (ip_bytes left.address) (ip_bytes right.address)
      else ltb priority_right priority_left

  unfoldable pub sort_node_addresses : Text → List NodeAddress → List NodeAddress
  unfolding build_address_sort_order_list comes_first stable_sort
  sort_node_addresses order addresses =
      stable_sort (comes_first (build_address_sort_order_list order)) addresses
