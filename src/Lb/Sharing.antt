-- ===== src/Lb/Sharing.antt =====
-- Load balancers that several services use, of ensureOctaviaLoadBalancer and ensureFloatingIP of pkg/openstack/loadbalancer.go
use mathlib.Core.Path.{fun_ext}
use cloud_provider_openstack.Util.Basic.{contains}
use cloud_provider_openstack.Prelude.{
  some, none, ◌↔◌, ◌≤◌, inl, true, ◌⊎◌, inr, ap, refl, List, String, ◌+◌, false, Option, ◌≡◌,
  Bool-cases, eq_iff, arith,
}
use cloud_provider_openstack.Lb.FloatingIps.{ensure_floating_ip_from, ensure_floating_ip}
use cloud_provider_openstack.Lb.EnsureBalancer.{check_shared, shared_count}
use cloud_provider_openstack.Lb.Balancers.{
  FloatingIpCreate, FloatingIp, Balancer, Balancers, get_floating_ip_by_port_id,
}
use cloud_provider_openstack.Lb.Api.{SubnetSpec, Service, Lbaas, ServiceConfig}
use cloud_provider_openstack.Go.{reworded, message, Exec, ok, ◌>>=◌}

-- A service that is no owner may use a load balancer: Octavia has tags, the service is external, and
-- it has its tag there already or there is room for one more.
abbrev pub IsShareable : Lbaas → ServiceConfig → Balancer → Type 0
IsShareable lbaas conf lb =
    (conf.support_lb_tags ≡ true)
    × (conf.internal ≡ false)
    × ((contains lb.tags conf.lb_name ≡ true) ⊎ (shared_count lb.tags + 1 ≤ lbaas.max_shared_lb))

-- A service may use a load balancer that it names exactly if it owns it by its name, or may share it.
pub check_shared_iff :
    (lbaas : Lbaas) (conf : ServiceConfig) (lb : Balancer)
    → (check_shared lbaas conf lb ≡ ok tt) ↔ ((lb.name ≡ conf.lb_name) ⊎ IsShareable lbaas conf lb)
unfolding check_shared
check_shared_iff lbaas conf lb =
    let named = eq_iff lb.name conf.lb_name in
    (λ h. ground (arith, h, named), λ h. ground (arith, h, named))

module _ {W : Type 0} (balancers : Balancers W)
    (matching : SubnetSpec → String → Exec W (List String)) (cluster_name : String)
    (service : Service) (lb : Balancer) (conf : ServiceConfig) where
  -- A service that does not own the load balancer never makes, attaches or detaches a floating IP:
  -- ensureFloatingIP has the same outcome for it whatever these requests would do.
  pub ensure_floating_ip_shared :
      (create : FloatingIpCreate → Exec W FloatingIp)
      (update : String → Option String → Exec W FloatingIp)
      → ensure_floating_ip
          (record balancers { floating_ip_create = create; floating_ip_update = update })
          matching
          cluster_name
          service
          lb
          conf
          false
        ≡ ensure_floating_ip balancers matching cluster_name service lb conf false
  unfolding ensure_floating_ip get_floating_ip_by_port_id ensure_floating_ip_from
  ensure_floating_ip_shared create update =
      ap
        (λ (next : Option FloatingIp → Exec W String).
          reworded (message "failed when getting floating IP for port")
            (get_floating_ip_by_port_id balancers lb.vip_port_id)
          >>= next)
        (fun_ext from_same)
    where
      from_same :
          (found : Option FloatingIp)
          → ensure_floating_ip_from
              (record balancers { floating_ip_create = create; floating_ip_update = update })
              matching
              cluster_name
              service
              lb
              conf
              false
              found
            ≡ ensure_floating_ip_from balancers matching cluster_name service lb conf false found
      from_same none = elim (Bool-cases conf.internal) [ inl e ↦ rw e refl | inr e ↦ rw e refl ]
      from_same (some fip) = elim (Bool-cases conf.internal) [
        | inl e ↦ rw e refl
        | inr e ↦ rw e refl
      ]
