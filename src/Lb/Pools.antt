-- ===== src/Lb/Pools.antt =====
-- ensureOctaviaPool, buildPoolCreateOpt, canUseHTTPMonitor and buildBatchUpdateMemberOpts of
-- pkg/openstack/loadbalancer.go
use cloud_provider_openstack.Util.Basic.{insert}
use cloud_provider_openstack.Routes.Api.{Node, IpParser}
use cloud_provider_openstack.Prelude.Strings.{concat, decimal}
use cloud_provider_openstack.Prelude.{
  not, List, ◌∷◌, Bool, some, ◌==◌, [], ◌&&◌, ◌||◌, false, ℕ, String, Option, none, true, ltb,
  if◌then◌else◌, eqb,
}
use cloud_provider_openstack.Lb.Nodes.{node_address_for_lb}
use cloud_provider_openstack.Lb.Listeners.{only_if}
use cloud_provider_openstack.Lb.Features.{
  feature_http_monitors_on_udp, is_octavia_feature_supported,
}
use cloud_provider_openstack.Lb.Api.{
  MemberUpdate, PoolCreate, Lbaas, ServicePort, ServiceConfig, Service, Member,
}
use cloud_provider_openstack.Go.{ok, err, Result}

module _ (lbaas : Lbaas) where
  unfoldable pub can_use_http_monitor : ServicePort → Bool
  unfolding is_octavia_feature_supported
  can_use_http_monitor port =
      if lbaas.lb_provider == "ovn"
      then false
      else if port.protocol == "UDP"
      then is_octavia_feature_supported lbaas feature_http_monitors_on_udp
      else true

-- the protocol that ensureOctaviaPool compares a pool with
abbrev pub pool_protocol : String → ServiceConfig → String
pool_protocol listener_protocol conf =
    if conf.enable_proxy_protocol
    then "PROXY"
    else if (conf.keep_client_ip || not (conf.tls_container_ref == ""))
        && not (listener_protocol == "HTTP")
    then "HTTP"
    else listener_protocol

-- the protocol that buildPoolCreateOpt asks for
abbrev pub created_pool_protocol : String → ServiceConfig → String
created_pool_protocol listener_protocol conf =
    if conf.enable_proxy_protocol
    then "PROXY"
    else if (conf.keep_client_ip || not (conf.tls_container_ref == ""))
        && not (listener_protocol == "HTTP")
    then "HTTP"
    else listener_protocol

-- an affinity of neither name leaves the nil pointer
abbrev pub persistence_of : String → Option String
persistence_of affinity =
    if affinity == "None" then none else if affinity == "ClientIP" then some "SOURCE_IP" else none

unfoldable pub build_pool_create_opt : Lbaas → String → Service → ServiceConfig → PoolCreate
build_pool_create_opt lbaas listener_protocol service conf = record {
  listener_id = "";
  name = "";
  protocol = created_pool_protocol listener_protocol conf;
  lb_method = lbaas.lb_method;
  persistence = persistence_of service.session_affinity;
}

-- fmt.Sprintf("%s-%s-%d-%d", name, address, port, monitorPort)
unfoldable pub member_key : String → String → ℕ → ℕ → String
unfolding decimal
member_key name address port monitor_port = concat name (
    concat "-"
      (concat address (concat "-" (concat (decimal port) (concat "-" (decimal monitor_port))))))

abbrev pub key_of : Member → String
key_of m = member_key m.name m.address m.protocol_port m.monitor_port

module _ (ip : IpParser) (lbaas : Lbaas) (port : ServicePort) (conf : ServiceConfig) where
  -- The monitor port is set under more conditions than its number stands in the key.
  unfoldable pub member_for : Node → String → MemberUpdate
  unfolding can_use_http_monitor
  member_for node address = record {
    address = address;
    protocol_port = port.node_port;
    name = node.name;
    subnet_id = only_if (not (conf.lb_member_subnet_id == "")) conf.lb_member_subnet_id;
    monitor_port =
        only_if (ltb 0 conf.health_check_node_port && can_use_http_monitor lbaas port)
          conf.health_check_node_port;
  }

  abbrev pub new_key : Node → String → String
  new_key node address = member_key node.name address port.node_port conf.health_check_node_port

  -- Nodes without an address are passed over: it is the only error of `nodeAddressForLB`. The set
  -- of the names is the list of its members.
  abbrev pub add_member :
      Node → Result String → List MemberUpdate × List String → List MemberUpdate × List String
  add_member node (err e) rest = rest
  add_member node (ok address) (members, names) =
      if eqb port.node_port 0
      then (members, names)
      else (member_for node address ∷ members, insert (new_key node address) names)

  unfoldable pub build_batch_update_member_opts : List Node → List MemberUpdate × List String
  unfolding node_address_for_lb member_for
  build_batch_update_member_opts [] = ([], [])
  build_batch_update_member_opts (node ∷ nodes) =
      add_member node (node_address_for_lb ip node conf.preferred_ip_family)
        (build_batch_update_member_opts nodes)
