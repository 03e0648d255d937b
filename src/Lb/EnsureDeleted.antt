-- ===== src/Lb/EnsureDeleted.antt =====
-- ensureLoadBalancerDeleted of pkg/openstack/loadbalancer.go
use cloud_provider_openstack.Prelude.Strings.{has_prefix, codes}
use cloud_provider_openstack.Prelude.{
  ℕ, some, [], none, String, ◌&&◌, Option, ◌==◌, Bool, ◌∷◌, not, List, false, if◌then◌else◌, any,
}
use cloud_provider_openstack.Lb.SecurityGroup.{Groups}
use cloud_provider_openstack.Lb.Octavia.{Octavia}
use cloud_provider_openstack.Lb.Deletion.{
  GroupPorts, ensure_security_group_deleted, delete_fip_if_created_by_provider,
  delete_load_balancer, all_but,
}
use cloud_provider_openstack.Lb.Balancers.{
  FloatingIp, is_service_tag, find_balancer, get_load_balancer_name, get_floating_ip_by_port_id,
  Balancers, Balancer, service_prefix, update_load_balancer_tags,
}
use cloud_provider_openstack.Lb.Api.{ServiceConfig, Lbaas, Service}
use cloud_provider_openstack.Lb.Annotations.{check_service_delete, get_bool_from_service_annotation}
use cloud_provider_openstack.Go.{
  err, pure, fail, message, not_found, reworded, ◌>>=◌, Result, Exec, ok,
}

-- shared by another service, or not made by the cloud provider: such a load balancer is kept
unfoldable pub needs_deletion : ServiceConfig → Balancer → Bool
needs_deletion conf lb =
    not
      (conf.support_lb_tags && any (λ tag. not (tag == conf.lb_name) && is_service_tag tag) lb.tags)
    && has_prefix (codes lb.name) (codes service_prefix)

abbrev pub has_own_tag : ServiceConfig → Balancer → Bool
has_own_tag conf lb = conf.support_lb_tags && any (λ tag. tag == conf.lb_name) lb.tags

-- an empty list would change nothing
abbrev pub at_least_one : List String → List String
at_least_one [] = "" ∷ []
at_least_one (t ∷ ts) = t ∷ ts

-- the configuration of a service that is to be deleted
unfoldable pub delete_config : Lbaas → Service → String → ServiceConfig → ServiceConfig
unfolding check_service_delete get_load_balancer_name
delete_config lbaas service cluster_name conf = record (check_service_delete lbaas service conf) {
  lb_name = get_load_balancer_name cluster_name service;
}

module _ {W : Type 0} (octavia : Octavia W) (steps : ℕ) (balancers : Balancers W)
    (groups : Groups W) (ports : GroupPorts W) (lbaas : Lbaas) (service : Service) where
  unfoldable pub delete_fip_if_any : Option FloatingIp → Exec W Unit
  unfolding delete_fip_if_created_by_provider
  delete_fip_if_any none = pure tt
  delete_fip_if_any (some fip) = delete_fip_if_created_by_provider balancers fip >>= λ _. pure tt

  unfoldable pub release_floating_ip : Balancer → Exec W Unit
  unfolding delete_fip_if_any get_bool_from_service_annotation get_floating_ip_by_port_id
  release_floating_ip lb =
      if get_bool_from_service_annotation service "loadbalancer.openstack.org/keep-floatingip" false
      then pure tt
      else if lb.vip_port_id == ""
      then pure tt
      else reworded (message "failed to get floating IP for loadbalancer VIP port")
          (get_floating_ip_by_port_id balancers lb.vip_port_id)
        >>= delete_fip_if_any

  unfoldable pub drop_tag : ServiceConfig → Balancer → Exec W Unit
  unfolding update_load_balancer_tags
  drop_tag conf lb =
      if has_own_tag conf lb
      then update_load_balancer_tags balancers octavia steps lb.id
          (at_least_one (all_but conf.lb_name lb.tags))
      else pure tt

  -- from the load balancer that is found on
  unfoldable pub delete_found : ServiceConfig → Balancer → Exec W Unit
  unfolding needs_deletion release_floating_ip delete_load_balancer drop_tag
      ensure_security_group_deleted
  delete_found conf lb =
      let needed = needs_deletion conf lb in
      if not (lb.provisioning_status == "ACTIVE") && not (lb.provisioning_status == "ERROR")
      then fail (message "load balancer is in immutable status")
      else (if needed then release_floating_ip lb else pure tt) >>= λ _.
          delete_load_balancer octavia steps balancers lb.id lbaas.cascade_delete service conf
            needed
          >>= λ _. (if needed then pure tt else drop_tag conf lb) >>= λ _.
              ensure_security_group_deleted groups ports service

  abbrev pub delete_if_found : ServiceConfig → Result Balancer → Exec W Unit
  delete_if_found conf (ok lb) = delete_found conf lb
  delete_if_found conf (err not_found) = pure tt
  delete_if_found conf (err e) = fail e

  unfoldable pub ensure_load_balancer_deleted : String → String → ServiceConfig → Exec W Unit
  unfolding delete_config find_balancer delete_found
  ensure_load_balancer_deleted cluster_name legacy_name start w =
      let conf = delete_config lbaas service cluster_name start in
      let (r, w') = find_balancer balancers conf.lb_id conf.lb_name legacy_name w in
      delete_if_found conf r w'
