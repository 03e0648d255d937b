-- ===== src/Lb/Deletion.antt =====
-- Deletion of load balancers, listeners, floating IPs and security groups in
-- pkg/openstack/loadbalancer.go. The set of a port's groups is a list without repetitions, whose
-- order, sorted in the source, makes no difference.
use cloud_provider_openstack.Util.Basic.{contains, set_of}
use cloud_provider_openstack.Prelude.Strings.{codes}
use cloud_provider_openstack.Prelude.{
  Bool, ◌==◌, true, String, some, [], false, Option, ◌&&◌, ◌||◌, none, not, ◌∷◌, List, ℕ,
  if◌then◌else◌, eqb, length,
}
use cloud_provider_openstack.Lb.SecurityGroup.{Groups, get_security_group_name}
use cloud_provider_openstack.Lb.Octavia.{delete_pool, Octavia}
use cloud_provider_openstack.Lb.Monitors.{delete_health_monitor}
use cloud_provider_openstack.Lb.Listeners.{get_listener_protocol, find_listener}
use cloud_provider_openstack.Lb.EnsurePool.{current_pool}
use cloud_provider_openstack.Lb.Balancers.{
  delete_loadbalancer, delete_listener, FloatingIp, Balancers,
}
use cloud_provider_openstack.Lb.Api.{Service, Listener, ServiceConfig, ServicePort, Pool}
use cloud_provider_openstack.Instances.ProviderId.{contains_text}
use cloud_provider_openstack.Go.{
  Result, ◌>>=◌, pure, fail, Exec, err, message, ok, reworded, not_found,
}

-- neutronports.Port, as far as it is read
pub record TaggedPort : Type 0 where
  pub id : String
  pub security_groups : List String
  pub tags : List String

-- more requests to Neutron
pub record GroupPorts (W : Type 0) : Type 0 where
  pub ports_of_group : String → Exec W (List TaggedPort)
  pub port_tag_delete : String → String → Exec W Unit
  pub group_delete : String → Exec W Unit

abbrev pub all_but : String → List String → List String
all_but s [] = []
all_but s (x ∷ xs) = let rest = all_but s xs in if x == s then rest else x ∷ rest

module _ {W : Type 0} (groups : Groups W) (ports : GroupPorts W) where
  unfoldable pub disassociate_ports : String → List TaggedPort → Exec W Unit
  unfolding set_of contains
  disassociate_ports sg [] = pure tt
  disassociate_ports sg (port ∷ rest) =
      let others = disassociate_ports sg rest in
      reworded (message "failed to update security group for port")
        (groups.port_update port.id (all_but sg (set_of port.security_groups)))
      >>= λ _.
          (if contains port.tags sg
            then reworded (message "failed to remove tag to port")
                (ports.port_tag_delete port.id sg)
            else pure tt)
          >>= λ _. others

  unfoldable pub disassociate_security_group_for_lb : String → Exec W Unit
  unfolding disassociate_ports
  disassociate_security_group_for_lb sg = ports.ports_of_group sg >>= disassociate_ports sg

  -- a group that is not there is deleted
  abbrev pub unless_absent : Result String → (String → Exec W Unit) → Exec W Unit
  unless_absent (ok id) next = next id
  unless_absent (err not_found) next = pure tt
  unless_absent (err e) next = fail (message "error occurred finding security group")

  abbrev pub ignore_missing : Result Unit → Result Unit
  ignore_missing (err not_found) = ok tt
  ignore_missing r = r

  abbrev pub delete_group : String → Exec W Unit
  delete_group sg w = let (r, w') = ports.group_delete sg w in (ignore_missing r, w')

  unfoldable pub ensure_security_group_deleted : Service → Exec W Unit
  unfolding get_security_group_name disassociate_security_group_for_lb
  ensure_security_group_deleted service w =
      let (r, w') = groups.id_from_name (get_security_group_name service) w in
      unless_absent r
        (λ sg.
          reworded (message "failed to disassociate security group")
            (disassociate_security_group_for_lb sg)
          >>= λ _. delete_group sg)
        w'

module _ {W : Type 0} (balancers : Balancers W) where
  -- whether the floating IP was one of the cloud provider's, and is deleted
  unfoldable pub delete_fip_if_created_by_provider : FloatingIp → Exec W Bool
  unfolding contains_text
  delete_fip_if_created_by_provider fip =
      if not (
        contains_text (codes fip.description) (codes "Floating IP for Kubernetes external service"))
      then pure false
      else reworded (message "failed to delete floating IP for loadbalancer VIP port")
          (balancers.floating_ip_delete fip.id)
        >>= λ _. pure true

-- made by this service before or after load balancers could be shared
abbrev pub is_of_service : Bool → String → Listener → Bool
is_of_service is_lb_owner lb_name listener =
    is_lb_owner && eqb (length listener.tags) 0 || contains listener.tags lb_name

-- the listeners at the ports of the service that have its tag
unfoldable pub tagged_listeners : List ServicePort → ServiceConfig → List Listener → List Listener
unfolding find_listener get_listener_protocol contains
tagged_listeners [] conf current = []
tagged_listeners (port ∷ ports) conf current =
    let rest = tagged_listeners ports conf current in
    elim (find_listener current (get_listener_protocol port.protocol conf) port.port) [
      | none ↦ rest
      | some listener ↦ if contains listener.tags conf.lb_name then listener ∷ rest else rest
    ]

abbrev pub monitor_of : Option Pool → List String → List String
monitor_of none rest = rest
monitor_of (some pool) rest = if pool.monitor_id == "" then rest else pool.monitor_id ∷ rest

module _ {W : Type 0} (octavia : Octavia W) (steps : ℕ) (lb_id : String) where
  unfoldable pub delete_pool_if_any : Option Pool → Exec W Unit
  unfolding delete_pool
  delete_pool_if_any none = pure tt
  delete_pool_if_any (some pool) = delete_pool octavia steps pool.id lb_id

  unfoldable pub monitor_ids : List Listener → Exec W (List String)
  unfolding current_pool
  monitor_ids [] = pure []
  monitor_ids (listener ∷ others) =
      let rest = monitor_ids others in
      current_pool octavia steps lb_id listener.id >>= λ pool.
      rest >>= λ ids. pure (monitor_of pool ids)

  unfoldable pub delete_monitors : List String → Exec W Unit
  unfolding delete_health_monitor
  delete_monitors [] = pure tt
  delete_monitors (id ∷ ids) =
      let rest = delete_monitors ids in delete_health_monitor octavia steps lb_id id >>= λ _. rest

module _ {W : Type 0} (octavia : Octavia W) (steps : ℕ) (balancers : Balancers W)
    (lb_id : String) where
  -- a listener after its pool, with which go the members
  unfoldable pub drop_listener : Listener → Exec W Unit
  unfolding delete_pool_if_any current_pool delete_pool delete_listener
  drop_listener listener = current_pool octavia steps lb_id listener.id >>= λ pool.
      delete_pool_if_any octavia steps lb_id pool >>= λ _.
      delete_listener balancers octavia steps lb_id listener.id

  unfoldable pub delete_listeners : List Listener → Exec W Unit
  unfolding drop_listener
  delete_listeners [] = pure tt
  delete_listeners (listener ∷ others) =
      let rest = delete_listeners others in drop_listener listener >>= λ _. rest

  unfoldable pub delete_octavia_listeners : List Listener → Bool → String → Exec W Unit
  unfolding drop_listener contains
  delete_octavia_listeners [] is_lb_owner lb_name = pure tt
  delete_octavia_listeners (listener ∷ others) is_lb_owner lb_name =
      let rest = delete_octavia_listeners others is_lb_owner lb_name in
      if is_of_service is_lb_owner lb_name listener
      then (drop_listener listener >>= λ _. rest)
      else rest

  unfoldable pub delete_load_balancer : Bool → Service → ServiceConfig → Bool → Exec W Unit
  unfolding delete_loadbalancer delete_listeners tagged_listeners monitor_ids delete_monitors
  delete_load_balancer cascade service conf need_delete_lb =
      if need_delete_lb && cascade
      then delete_loadbalancer balancers octavia steps lb_id true
      else reworded (message "error getting listeners") (balancers.listeners_list lb_id)
        >>= λ found.
            let listeners =
              if need_delete_lb then found else tagged_listeners service.ports conf found in
            monitor_ids octavia steps lb_id listeners >>= λ ids.
            delete_monitors octavia steps lb_id ids >>= λ _. delete_listeners listeners >>= λ _.
            (if need_delete_lb
              then delete_loadbalancer balancers octavia steps lb_id false
              else pure tt)
