-- ===== src/Lb/PublicNetwork.antt =====
-- The rest of checkService of pkg/openstack/loadbalancer.go: the public network and subnet of an
-- external service, the flags, and the whole function.
use cloud_provider_openstack.Util.IpNet.{string_slice, IpNet, Networks}
use cloud_provider_openstack.Routes.Api.{IpParser, Node}
use cloud_provider_openstack.Prelude.Strings.{Text}
use cloud_provider_openstack.Prelude.Maps.{find_entry}
use cloud_provider_openstack.Prelude.Int.{pos, ℤ}
use cloud_provider_openstack.Prelude.{
  ◌==◌, ◌&&◌, not, false, String, some, List, Option, none, ◌||◌, if◌then◌else◌, eqb, length,
}
use cloud_provider_openstack.Lb.Listeners.{only_if}
use cloud_provider_openstack.Lb.Features.{
  feature_vip_acl, feature_flavors, is_octavia_feature_supported, feature_timeout,
  feature_availability_zones,
}
use cloud_provider_openstack.Lb.CheckUpdate.{
  annotation_proxy_enabled, annotation_x_forwarded_for, get_int_from_service_annotation,
  health_port,
}
use cloud_provider_openstack.Lb.CheckService.{
  or_empty, get_floating_network_id, spec_of, with_subnets, get_load_balancer_source_ranges,
  number_of, flag_of, is_configured, Lookups, text_of, check_container, service_start,
}
use cloud_provider_openstack.Lb.Api.{SubnetSpec, LbClass, Service, ServiceConfig, Lbaas}
use cloud_provider_openstack.Lb.Annotations.{
  get_bool_from_service_annotation, class_name, get_string_from_service_annotation,
}
use cloud_provider_openstack.Go.{pure, fail, reworded, ◌>>=◌, Exec, message}

module _ {W N : Type 0} (lookups : Lookups W) (nets : Networks N) (trim : String → String)
    (ip : IpParser) (lbaas : Lbaas) (service : Service) (nodes : List (Node × Text)) where
  abbrev pub own_text : String → String → String
  own_text = text_of lookups nets trim ip lbaas service nodes

  -- the network and the subnet of the class that the service names
  abbrev pub from_class : Option LbClass → Exec W (String × SubnetSpec)
  from_class none = fail (message "invalid loadbalancer class")
  from_class (some c) =
      pure (
        c.floating_network_id,
        spec_of c.floating_subnet_id c.floating_subnet c.floating_subnet_tags,
      )

  unfoldable pub class_network : String → Exec W (String × SubnetSpec)
  class_network name =
      if name == ""
      then pure ("", spec_of "" "" "")
      else from_class (find_entry name lbaas.lb_classes)

  -- the annotation or the configuration, or else an external network of Neutron
  unfoldable pub public_network : String → Exec W String
  unfolding get_string_from_service_annotation get_floating_network_id
  public_network of_class =
      let chosen =
        if of_class == ""
        then own_text "floating-network-id" lbaas.floating_network_id
        else of_class in
      if chosen == ""
      then (λ w. let (r, w') = get_floating_network_id lookups w in (or_empty lookups r, w'))
      else pure chosen

  unfoldable pub public_subnet : SubnetSpec → SubnetSpec
  unfolding get_string_from_service_annotation
  public_subnet of_class =
      let annotated =
        spec_of (own_text "floating-subnet-id" "") (own_text "floating-subnet" "")
          (own_text "floating-subnet-tags" "") in
      if is_configured of_class
      then of_class
      else if is_configured annotated
      then annotated
      else spec_of lbaas.floating_subnet_id lbaas.floating_subnet lbaas.floating_subnet_tags

  -- a subnet that is given by its id belongs to the network
  unfoldable pub check_public_subnet : String → SubnetSpec → Exec W Unit
  check_public_subnet network spec =
      if not (network == "") && not (spec.subnet_id == "")
      then (reworded (message "failed to find subnet") (lookups.subnet_get spec.subnet_id)
          >>= λ subnet.
              if subnet.network_id == network
              then pure tt
              else fail (message "floating IP subnet doesn't belong to the network"))
      else pure tt

  unfoldable pub with_public : ServiceConfig → Exec W ServiceConfig
  unfolding class_network public_network public_subnet check_public_subnet
      get_string_from_service_annotation
  with_public conf =
      let name = class_name lbaas service in
      if conf.internal
      then pure conf
      else class_network name >>= λ of_class. public_network of_class.0 >>= λ network.
          let spec = public_subnet of_class.1 in
          check_public_subnet network spec >>= λ _. pure (record conf {
            config_class_name = name;
            lb_public_network_id = network;
            lb_public_subnet_spec = only_if (is_configured spec) spec;
          })

  -- the ranges are kept where Octavia or the security groups can enforce them
  unfoldable pub with_ranges : ServiceConfig → Option (IpNet N) → Exec W ServiceConfig
  unfolding is_octavia_feature_supported string_slice
  with_ranges conf none = fail (message "failed to get source ranges")
  with_ranges conf (some ranges) =
      if is_octavia_feature_supported lbaas feature_vip_acl
        || lbaas.lb_provider == "ovn" && lbaas.manage_security_groups
      then pure (record conf { allowed_cidr = string_slice ranges })
      else pure conf

  abbrev pub own_number : String → ℤ → ℤ
  own_number = number_of lookups nets trim ip lbaas service nodes

  abbrev pub with_timeouts : ServiceConfig → ServiceConfig
  with_timeouts conf = record conf {
    timeout_client_data = own_number "timeout-client-data" (pos 50000);
    timeout_member_connect = own_number "timeout-member-connect" (pos 5000);
    timeout_member_data = own_number "timeout-member-data" (pos 50000);
    timeout_tcp_inspect = own_number "timeout-tcp-inspect" (pos 0);
  }

  -- flavor, zone and health monitor
  unfoldable pub with_monitor : ServiceConfig → ServiceConfig
  unfolding get_string_from_service_annotation get_bool_from_service_annotation
      get_int_from_service_annotation is_octavia_feature_supported
  with_monitor conf =
      let enabled =
        flag_of lookups nets trim ip lbaas service nodes "enable-health-monitor"
          lbaas.create_monitor in
      record conf {
        flavor_id =
            if is_octavia_feature_supported lbaas feature_flavors
            then own_text "flavor-id" lbaas.flavor_id
            else conf.flavor_id;
        availability_zone =
            if is_octavia_feature_supported lbaas feature_availability_zones
            then own_text "availability-zone" lbaas.availability_zone
            else conf.availability_zone;
        enable_monitor = enabled;
        health_check_node_port = health_port service enabled conf.health_check_node_port;
        health_monitor_delay = own_number "health-monitor-delay" lbaas.monitor_delay;
        health_monitor_timeout = own_number "health-monitor-timeout" lbaas.monitor_timeout;
        health_monitor_max_retries =
            own_number "health-monitor-max-retries" lbaas.monitor_max_retries;
      }

  unfoldable pub with_flags : ServiceConfig → Exec W ServiceConfig
  unfolding with_ranges get_bool_from_service_annotation is_octavia_feature_supported
      get_load_balancer_source_ranges with_monitor
  with_flags conf =
      let keep = get_bool_from_service_annotation service annotation_x_forwarded_for false in
      let proxy = get_bool_from_service_annotation service annotation_proxy_enabled false in
      let flagged = record conf { keep_client_ip = keep; enable_proxy_protocol = proxy } in
      if proxy && keep
      then fail (message "annotations cannot be used together")
      else with_ranges
          (if is_octavia_feature_supported lbaas feature_timeout
            then with_timeouts flagged
            else flagged)
          (get_load_balancer_source_ranges nets trim service conf.preferred_ip_family)
        >>= λ ranged. pure (with_monitor ranged)

  unfoldable pub check_service : ServiceConfig → Exec W ServiceConfig
  unfolding service_start check_container with_subnets with_public with_flags
  check_service conf =
      let started = service_start lookups nets trim ip lbaas service nodes conf in
      if eqb (length nodes) 0
      then fail (message "there are no available nodes for LoadBalancer service")
      else if eqb (length service.ports) 0
      then fail (message "no service ports provided")
      else check_container lookups nets trim ip lbaas service nodes started >>= λ _.
          with_subnets lookups nets trim ip lbaas service nodes started
          >>= with_public
          >>= with_flags
