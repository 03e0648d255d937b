-- ===== src/Routes/Addresses.antt =====
-- getNodeNameByAddr, getAddrByNodeName and getPortByIP of pkg/openstack/routes.go
use cloud_provider_openstack.Prelude.{
  String, List, [], ◌∷◌, Bool, true, false, not, Option, none, some, ◌==◌, any, if◌then◌else◌,
}
use cloud_provider_openstack.Go.{Exec, pure, fail, ◌>>=◌, not_found}
use cloud_provider_openstack.Routes.Api.{Node, NodeAddress, Neutron, IpParser, Port}

-- the inner loop: some address of the node is the one that is sought
abbrev pub has_address : String → Node → Bool
has_address addr node = any (λ (v : NodeAddress). v.address == addr) node.addresses

unfoldable pub get_node_name_by_addr : String → List Node → String × Bool
get_node_name_by_addr addr [] = (addr, false)
get_node_name_by_addr addr (node ∷ nodes) =
    if has_address addr node then (node.name, true) else get_node_name_by_addr addr nodes

-- `needIPv6` picks the IPv6 addresses, otherwise the others; `nil` of `ParseIP` is passed over.
abbrev pub family_fits : Bool → Option Bool → Bool
family_fits need none = false
family_fits true (some is_v6) = is_v6
family_fits false (some is_v6) = not is_v6

-- the inner loop, over the addresses of a node of that name
unfoldable pub internal_addr : IpParser → Bool → List NodeAddress → Option String
internal_addr ip need [] = none
internal_addr ip need (v ∷ vs) =
    let rest = internal_addr ip need vs in
    if v.kind == "InternalIP"
    then (if family_fits need (ip.parse_ip v.address) then some v.address else rest)
    else rest

abbrev pub or_else : Option String → String → String
or_else none d = d
or_else (some a) d = a

unfoldable pub get_addr_by_node_name : IpParser → String → Bool → List Node → String
unfolding internal_addr
get_addr_by_node_name ip name need [] = ""
get_addr_by_node_name ip name need (node ∷ nodes) =
    let rest = get_addr_by_node_name ip name need nodes in
    if node.name == name then or_else (internal_addr ip need node.addresses) rest else rest

-- `len(ports) != 1` goes on with the next network
abbrev pub single : {W : Type 0} → List Port → Exec W Port → Exec W Port
single (port ∷ []) next = pure port
single _ next = next

unfoldable pub get_port_by_ip : {W : Type 0} → Neutron W → String → List String → Exec W Port
get_port_by_ip net addr [] = fail not_found
get_port_by_ip net addr (network_id ∷ ids) =
    let next = get_port_by_ip net addr ids in
    net.ports_with_address addr network_id >>= λ ports. single ports next
