-- ===== src/Lb/UpdateBalancer.antt =====
-- updateOctaviaLoadBalancer of pkg/openstack/loadbalancer.go
use cloud_provider_openstack.Routes.Api.{Node}
use cloud_provider_openstack.Prelude.Strings.{decimal, Text}
use cloud_provider_openstack.Prelude.{
  ◌==◌, ◌∷◌, not, Option, List, ℕ, map, some, suc, none, String, [], if◌then◌else◌,
}
use cloud_provider_openstack.Lb.SecurityGroup.{ensure_and_update_octavia_security_group}
use cloud_provider_openstack.Lb.Listeners.{find_listener, get_listener_protocol}
use cloud_provider_openstack.Lb.EnsurePool.{ensure_octavia_pool}
use cloud_provider_openstack.Lb.EnsureBalancer.{Parts}
use cloud_provider_openstack.Lb.CreateBalancer.{part_name}
use cloud_provider_openstack.Lb.CheckUpdate.{check_service_update}
use cloud_provider_openstack.Lb.Balancers.{
  cut_text, get_load_balancer_name, Balancer, get_loadbalancer_by_name,
}
use cloud_provider_openstack.Lb.Api.{Listener, Lbaas, ServicePort, ServiceConfig, Service}
use cloud_provider_openstack.Go.{◌>>=◌, pure, fail, message, Exec, reworded}

module _ {W N : Type 0} (p : Parts W N) (lbaas : Lbaas) (cluster_name legacy_name : String)
    (service : Service) (nodes : List (Node × Text)) where
  unfoldable pub find_for_update : ServiceConfig → Exec W Balancer
  unfolding get_loadbalancer_by_name get_load_balancer_name
  find_for_update conf =
      if not (conf.lb_id == "")
      then reworded (message "failed to get load balancer") (p.balancers.balancer_get conf.lb_id)
      else get_loadbalancer_by_name p.balancers (get_load_balancer_name cluster_name service)
          legacy_name

  unfoldable pub update_at :
      Balancer → ServiceConfig → ℕ → ServicePort → Option Listener → Exec W Unit
  unfolding ensure_octavia_pool cut_text decimal
  update_at lb conf index port none =
      fail (message "loadbalancer does not contain required listener")
  update_at lb conf index port (some listener) =
      ensure_octavia_pool p.octavia p.steps p.ip lbaas lb.id (part_name "pool_" index lb.name)
        listener service port (map (λ (n : Node × Text). n.0) nodes) conf
      >>= λ _. pure tt

  -- the pool of each port's listener; a port without a listener is an error
  unfoldable pub update_pools :
      Balancer → ServiceConfig → List Listener → ℕ → List ServicePort → Exec W Unit
  unfolding update_at find_listener get_listener_protocol ensure_octavia_pool cut_text decimal
  update_pools lb conf current index [] = pure tt
  update_pools lb conf current index (port ∷ ports) =
      update_at lb conf index port
        (find_listener current (get_listener_protocol port.protocol conf) port.port)
      >>= λ _. update_pools lb conf current (suc index) ports

  unfoldable pub update_octavia_load_balancer : ServiceConfig → Exec W Unit
  unfolding check_service_update find_for_update update_pools
      ensure_and_update_octavia_security_group
  update_octavia_load_balancer start =
      check_service_update p.lookups.attached_ports p.ip lbaas service nodes start >>= λ conf.
      find_for_update conf >>= λ lb.
      (if lb.provisioning_status == "ACTIVE"
        then pure tt
        else fail (message "load balancer is not ACTIVE"))
      >>= λ _. p.balancers.listeners_list lb.id >>= λ current.
          update_pools lb conf current 0 service.ports >>= λ _.
          (if lbaas.manage_security_groups
            then reworded (message "failed to update Security Group for loadbalancer service") (
                ensure_and_update_octavia_security_group p.groups p.ip p.lower lbaas cluster_name
                  service (map (λ (n : Node × Text). n.1) nodes) conf)
            else pure tt)
