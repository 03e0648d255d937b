-- ===== src/Lb/CreateBalancer.antt =====
-- createOctaviaLoadBalancer of pkg/openstack/loadbalancer.go
use cloud_provider_openstack.Routes.Api.{Node, IpParser}
use cloud_provider_openstack.Prelude.Strings.{concat, decimal}
use cloud_provider_openstack.Prelude.Maps.{find_entry}
use cloud_provider_openstack.Prelude.{
  ℕ, false, some, ◌==◌, true, none, not, suc, Option, List, zero, [], Bool, String, ◌∷◌,
  if◌then◌else◌,
}
use cloud_provider_openstack.Lb.Pools.{build_pool_create_opt, build_batch_update_member_opts}
use cloud_provider_openstack.Lb.Octavia.{Octavia}
use cloud_provider_openstack.Lb.Monitors.{build_monitor_create_opts}
use cloud_provider_openstack.Lb.Listeners.{build_listener_create_opt, only_if}
use cloud_provider_openstack.Lb.Deletion.{delete_load_balancer}
use cloud_provider_openstack.Lb.Balancers.{
  FullListener, Balancers, BalancerCreate, cut_text, Balancer,
}
use cloud_provider_openstack.Lb.Api.{ServiceConfig, Service, ServicePort, LbClass, Lbaas}
use cloud_provider_openstack.Lb.Annotations.{get_string_from_service_annotation}
use cloud_provider_openstack.Go.{
  Exec, err, ◌>>=◌, fail, Result, ok, message, panicked, failed, reworded, pure,
}

abbrev pub part_name : String → ℕ → String → String
part_name kind index name = cut_text 255 (concat kind (concat (decimal index) (concat "_" name)))

abbrev pub id_of_class : Option LbClass → (LbClass → String) → String
id_of_class none field = ""
id_of_class (some c) field = field c

-- where the load balancer has its address
unfoldable pub with_vip : Option LbClass → Service → ServiceConfig → BalancerCreate → BalancerCreate
unfolding get_string_from_service_annotation
with_vip lb_class service conf opts =
    let vip_port =
      get_string_from_service_annotation service "loadbalancer.openstack.org/port-id" "" in
    let its_subnet = id_of_class lb_class (λ c. c.subnet_id) in
    let its_network = id_of_class lb_class (λ c. c.network_id) in
    if not (vip_port == "") then record opts { vip_port_id = vip_port } else record opts {
      vip_subnet_id = if its_subnet == "" then conf.lb_subnet_id else its_subnet;
      vip_network_id = if its_network == "" then conf.lb_network_id else its_network;
    }

module _ (ip : IpParser) (lbaas : Lbaas) (service : Service) (nodes : List Node)
    (conf : ServiceConfig) (name : String) where
  unfoldable pub full_listener : ℕ → ServicePort → FullListener
  unfolding build_listener_create_opt build_batch_update_member_opts build_pool_create_opt
      build_monitor_create_opts cut_text decimal
  full_listener index port =
      let listener = record (build_listener_create_opt lbaas conf port) {
        name = part_name "listener_" index name;
      } in
      let monitor = record (build_monitor_create_opts lbaas conf port) {
        name = part_name "monitor_" port.port name;
      } in
      record {
        listener = listener;
        pool = record (build_pool_create_opt lbaas listener.protocol service conf) {
          name = part_name "pool_" index name;
        };
        members = (build_batch_update_member_opts ip lbaas port conf nodes).0;
        monitor = only_if conf.enable_monitor monitor;
      }

  unfoldable pub full_listeners : ℕ → List ServicePort → List FullListener
  unfolding full_listener
  full_listeners index [] = []
  full_listeners index (port ∷ ports) = full_listener index port ∷ full_listeners (suc index) ports

  unfoldable pub balancer_create_opts : String → BalancerCreate
  unfolding with_vip full_listeners
  balancer_create_opts cluster_name =
      with_vip (find_entry conf.config_class_name lbaas.lb_classes) service conf (record {
        name = name;
        description = concat "Kubernetes external service " (
            concat service.namespace
              (concat "/" (concat service.name (concat " from cluster " cluster_name))));
        provider = lbaas.lb_provider;
        tags = if conf.support_lb_tags then conf.lb_name ∷ [] else [];
        flavor_id = conf.flavor_id;
        availability_zone = conf.availability_zone;
        vip_port_id = "";
        vip_subnet_id = "";
        vip_network_id = "";
        vip_address = if conf.internal then service.load_balancer_ip else "";
        listeners =
            if lbaas.provider_requires_serial_api_calls then [] else full_listeners 0 service.ports;
      })

module _ {W : Type 0} (octavia : Octavia W) (steps : ℕ) (balancers : Balancers W) where
  -- what WaitActiveAndGetLoadBalancer has when it is done: the load balancer of the last look, which
  -- is nil after a look that failed, and whether there is an error
  unfoldable pub await_active : ℕ → Option Balancer → String → W → (Option Balancer × Bool) × W
  await_active zero last lb_id w = ((last, true), w)
  await_active (suc n) last lb_id w =
      let (r, w') = balancers.balancer_get lb_id w in
      let rest = λ (lb : Balancer). await_active n (some lb) lb_id w' in after r rest w'
    where
      after :
          Result Balancer
          → (Balancer → (Option Balancer × Bool) × W)
          → W
          → (Option Balancer × Bool) × W
      after (err e) rest w' = ((none, true), w')
      after (ok lb) rest w' =
          if lb.provisioning_status == "ACTIVE"
          then ((some lb, false), w')
          else if lb.provisioning_status == "ERROR"
          then ((some lb, true), w')
          else rest lb

  module _ (ip : IpParser) (lbaas : Lbaas) (service : Service) (nodes : List Node) where
    -- A load balancer that lands in ERROR is deleted. With an error and no load balancer its status is
    -- read from a nil pointer.
    unfoldable pub settle : ServiceConfig → Option Balancer × Bool → Exec W Balancer
    unfolding delete_load_balancer
    settle conf (none, failed) = fail panicked
    settle conf (some lb, false) = pure lb
    settle conf (some lb, true) =
        if lb.provisioning_status == "ERROR"
        then (reworded (message "load balancer is in ERROR state, error when removing it") (
              delete_load_balancer octavia steps balancers lb.id lbaas.cascade_delete service conf
                true)
            >>= λ _. fail (message "load balancer has gone into ERROR state"))
        else fail (message "timeout waiting for the loadbalancer ACTIVE")

    -- the load balancer, and the configuration with the subnet of its members
    unfoldable pub create_octavia_load_balancer :
        String → String → ServiceConfig → Exec W (Balancer × ServiceConfig)
    unfolding settle balancer_create_opts await_active delete_load_balancer
    create_octavia_load_balancer name cluster_name conf =
        reworded (message "error creating loadbalancer") (
          balancers.balancer_create
            (balancer_create_opts ip lbaas service nodes conf name cluster_name))
        >>= λ new_lb w.
            let with_member =
              if conf.lb_member_subnet_id == ""
              then record conf { lb_member_subnet_id = new_lb.vip_subnet_id }
              else conf in
            let (seen, w') = await_active steps none new_lb.id w in
            (settle with_member seen >>= λ lb. pure (lb, with_member)) w'
