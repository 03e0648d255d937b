-- ===== src/Lb/EnsureBalancer.antt =====
-- ensureOctaviaLoadBalancer and updateOctaviaLoadBalancer of pkg/openstack/loadbalancer.go, with the
-- service patcher. A node comes with its provider id. The requests of the parts are parameters.
use cloud_provider_openstack.Util.IpNet.{Networks}
use cloud_provider_openstack.Util.Basic.{contains}
use cloud_provider_openstack.Routes.Api.{IpParser, Node}
use cloud_provider_openstack.Prelude.Strings.{Text, decimal}
use cloud_provider_openstack.Prelude.Maps.{put_header, find_entry}
use cloud_provider_openstack.Prelude.{
  ◌+◌, ◌++◌, String, map, ◌||◌, [], suc, Bool, true, ◌∷◌, Option, ◌&&◌, false, none, some, ◌==◌,
  not, List, ℕ, ltb, if◌then◌else◌,
}
use cloud_provider_openstack.Lb.SecurityGroup.{ensure_and_update_octavia_security_group, Groups}
use cloud_provider_openstack.Lb.PublicNetwork.{check_service}
use cloud_provider_openstack.Lb.Octavia.{Octavia}
use cloud_provider_openstack.Lb.Monitors.{ensure_octavia_health_monitor}
use cloud_provider_openstack.Lb.Listeners.{ensure_octavia_listener}
use cloud_provider_openstack.Lb.FloatingIps.{ensure_floating_ip}
use cloud_provider_openstack.Lb.EnsurePool.{ensure_octavia_pool}
use cloud_provider_openstack.Lb.Deletion.{
  delete_octavia_listeners, GroupPorts, ensure_security_group_deleted,
}
use cloud_provider_openstack.Lb.CreateBalancer.{part_name, create_octavia_load_balancer}
use cloud_provider_openstack.Lb.CheckService.{Lookups}
use cloud_provider_openstack.Lb.Balancers.{
  get_loadbalancer_by_name, Balancer, Balancers, update_load_balancer_tags, is_service_tag,
  cut_text, get_load_balancer_name,
}
use cloud_provider_openstack.Lb.Api.{
  ServicePort, ServiceConfig, SubnetSpec, Service, Listener, Lbaas,
}
use cloud_provider_openstack.Lb.Annotations.{
  Ingress, create_load_balancer_status, check_listener_ports,
}
use cloud_provider_openstack.Go.{
  message, err, reworded, pure, ◌>>=◌, fail, not_found, Exec, Result, ok, by_identity,
}

pub record Parts (W N : Type 0) : Type 0 where
  pub octavia : Octavia W
  pub balancers : Balancers W
  pub groups : Groups W
  pub group_ports : GroupPorts W
  pub lookups : Lookups W
  -- the subnets that match a specification in a network
  pub matching : SubnetSpec → String → Exec W (List String)
  -- the service with its new annotations
  pub patch_service : List (String × String) → Exec W Unit
  pub nets : Networks N
  pub ip : IpParser
  pub trim : String → String
  pub lower : String → String
  -- the steps of the wait for ACTIVE
  pub steps : ℕ

-- popListener
unfoldable pub pop_listener : List Listener → String → List Listener
pop_listener [] id = []
pop_listener (l ∷ ls) id = let rest = pop_listener ls id in if l.id == id then rest else l ∷ rest

-- the load balancer, the configuration, and whether the service owns it and it is new
pub record Found : Type 0 where
  pub lb : Balancer
  pub conf : ServiceConfig
  pub is_lb_owner : Bool
  pub is_new : Bool

-- the services that share a load balancer, by its tags
abbrev pub shared_count : List String → ℕ
shared_count [] = 0
shared_count (tag ∷ tags) =
    let rest = shared_count tags in if is_service_tag tag then suc rest else rest

-- whether the service may use a load balancer that it names
unfoldable pub check_shared : Lbaas → ServiceConfig → Balancer → Result Unit
unfolding contains
check_shared lbaas conf lb =
    let is_owner = lb.name == conf.lb_name in
    if is_owner
    then ok tt
    else if not conf.support_lb_tags
    then err (message "shared load balancer is only supported with the tag feature")
    else if not (contains lb.tags conf.lb_name)
        && ltb lbaas.max_shared_lb (shared_count lb.tags + 1)
    then err (message "load balancer already shared")
    else if conf.internal
    then err (message "internal Service cannot share a load balancer")
    else ok tt

module _ {W N : Type 0} (p : Parts W N) (lbaas : Lbaas) (cluster_name legacy_name : String)
    (service : Service) (nodes : List (Node × Text)) where
  abbrev pub bare_nodes : List Node
  bare_nodes = map (λ (n : Node × Text). n.0) nodes

  abbrev pub provider_ids : List Text
  provider_ids = map (λ (n : Node × Text). n.1) nodes

  unfoldable pub by_id : ServiceConfig → Exec W Found
  unfolding check_shared
  by_id conf =
      reworded (message "failed to get load balancer") (p.balancers.balancer_get conf.lb_id)
      >>= λ lb. (λ w. (check_shared lbaas conf lb, w)) >>= λ _.
          pure
            (record { lb = lb; conf = conf; is_lb_owner = lb.name == conf.lb_name; is_new = false })

  unfoldable pub found_or_new : ServiceConfig → Result Balancer → Exec W Found
  unfolding create_octavia_load_balancer
  found_or_new conf (ok lb) =
      pure (record { lb = lb; conf = conf; is_lb_owner = true; is_new = false })
  found_or_new conf (err not_found) =
      reworded (message "error creating loadbalancer") (
        create_octavia_load_balancer p.octavia p.steps p.balancers p.ip lbaas service bare_nodes
          conf.lb_name cluster_name conf)
      >>= λ new_one.
          pure (record { lb = new_one.0; conf = new_one.1; is_lb_owner = true; is_new = true })
  found_or_new conf (err e) = fail (message "error getting loadbalancer for Service")

  -- The error of the search by name is compared with ErrNotFound by identity.
  abbrev pub named_by_identity : Balancers W
  named_by_identity = record p.balancers {
    balancers_named = λ name. by_identity (p.balancers.balancers_named name);
  }

  unfoldable pub find_or_create : ServiceConfig → Exec W Found
  unfolding by_id get_loadbalancer_by_name found_or_new
  find_or_create conf = if not (conf.lb_id == "") then by_id conf else λ w.
      let (r, w') = get_loadbalancer_by_name named_by_identity conf.lb_name legacy_name w in
      found_or_new conf r w'

  -- One listener, pool and monitor for each port; the result is the listeners that are left.
  unfoldable pub ensure_ports :
      Found → List Listener → ℕ → List ServicePort → List Listener → Exec W (List Listener)
  unfolding ensure_octavia_listener ensure_octavia_pool ensure_octavia_health_monitor pop_listener
      cut_text decimal
  ensure_ports found current index [] remaining = pure remaining
  ensure_ports found current index (port ∷ ports) remaining =
      let conf = found.conf in
      ensure_octavia_listener p.octavia p.steps lbaas found.lb.id
        (part_name "listener_" index conf.lb_name) current port conf
      >>= λ listener.
          ensure_octavia_pool p.octavia p.steps p.ip lbaas found.lb.id
            (part_name "pool_" index conf.lb_name) listener service port bare_nodes conf
          >>= λ pool.
              ensure_octavia_health_monitor p.octavia p.steps found.lb.id lbaas conf port
                (part_name "monitor_" index conf.lb_name) pool
              >>= λ _.
                  ensure_ports found current (suc index) ports (pop_listener remaining listener.id)

  abbrev pub no_conflict : Option ℕ → Exec W Unit
  no_conflict none = pure tt
  no_conflict (some port) = fail (message "the listener port already exists")

  unfoldable pub populate : Found → List Listener → Exec W Unit
  unfolding check_listener_ports ensure_ports delete_octavia_listeners
  populate found current =
      if not found.is_new || lbaas.provider_requires_serial_api_calls
      then (no_conflict
            (check_listener_ports service.ports current found.is_lb_owner found.conf.lb_name)
          >>= λ _. ensure_ports found current 0 service.ports current >>= λ remaining.
              delete_octavia_listeners p.octavia p.steps p.balancers found.lb.id remaining
                found.is_lb_owner found.conf.lb_name)
      else pure tt

  -- from the load balancer to its address
  unfoldable pub after_found : Found → Exec W (Found × String)
  unfolding populate ensure_floating_ip
  after_found found =
      (if found.lb.provisioning_status == "ACTIVE"
        then pure tt
        else fail (message "load balancer is not ACTIVE"))
      >>= λ _. p.balancers.listeners_list found.lb.id >>= λ current. populate found current >>= λ _.
          ensure_floating_ip p.balancers p.matching cluster_name service found.lb found.conf
            found.is_lb_owner
          >>= λ address w. (ok (found, address), w)

  -- up to the address of the load balancer
  unfoldable pub prepare : ServiceConfig → Exec W (Found × String)
  unfolding check_service get_load_balancer_name find_or_create after_found
  prepare start =
      check_service p.lookups p.nets p.trim p.ip lbaas service nodes start >>= λ checked.
      find_or_create (record checked { lb_name = get_load_balancer_name cluster_name service })
      >>= after_found

  unfoldable pub ensure_own_tag : Found → Exec W Unit
  unfolding contains update_load_balancer_tags
  ensure_own_tag found =
      if found.conf.support_lb_tags && not (contains found.lb.tags found.conf.lb_name)
      then update_load_balancer_tags p.balancers p.octavia p.steps found.lb.id
          (found.lb.tags ++ found.conf.lb_name ∷ [])
      else pure tt

  unfoldable pub settle_groups : ServiceConfig → Exec W Unit
  unfolding ensure_and_update_octavia_security_group ensure_security_group_deleted
  settle_groups conf =
      if lbaas.manage_security_groups
      then reworded (message "failed when reconciling security groups for LB service") (
          ensure_and_update_octavia_security_group p.groups p.ip p.lower lbaas cluster_name service
            provider_ids conf)
      else ensure_security_group_deleted p.groups p.group_ports service

  -- With the groups there is a status even where there is an error.
  abbrev pub with_status : Ingress → Result Unit × W → (Option Ingress × Result Unit) × W
  with_status status (r, w) = ((some status, r), w)

  unfoldable pub after_tag : Found → String → Result Unit → W → (Option Ingress × Result Unit) × W
  unfolding settle_groups create_load_balancer_status
  after_tag found address (err e) w = ((none, err e), w)
  after_tag found address (ok _) w =
      with_status (create_load_balancer_status lbaas service found.conf address)
        (settle_groups found.conf w)

  unfoldable pub finish : Found → String → W → (Option Ingress × Result Unit) × W
  unfolding ensure_own_tag after_tag
  finish found address w = let (r, w') = ensure_own_tag found w in after_tag found address r w'

  abbrev pub new_annotations : Balancer → String → List (String × String)
  new_annotations lb address =
      put_header "loadbalancer.openstack.org/load-balancer-address" address
        (put_header "loadbalancer.openstack.org/load-balancer-id" lb.id service.annotations)

  -- Patch; of two errors the first one stands for both.
  abbrev pub first_error : Result Unit → Result Unit → Result Unit
  first_error (err e) r = err e
  first_error (ok _) r = r

  abbrev pub has_value : String → Option String → Bool
  has_value v none = false
  has_value v (some u) = u == v

  abbrev pub is_annotated : Balancer → String → Bool
  is_annotated lb address =
      has_value lb.id (find_entry "loadbalancer.openstack.org/load-balancer-id" service.annotations)
      && has_value address
          (find_entry "loadbalancer.openstack.org/load-balancer-address" service.annotations)

  unfoldable pub patch :
      Balancer → String → (Option Ingress × Result Unit) × W → (Option Ingress × Result Unit) × W
  unfolding put_header
  patch lb address ((status, r), w) =
      let (patched, w') = p.patch_service (new_annotations lb address) w in
      if is_annotated lb address then ((status, r), w) else ((status, first_error r patched), w')

  unfoldable pub finished : Result (Found × String) → W → (Option Ingress × Result Unit) × W
  unfolding finish patch
  finished (err e) w = ((none, err e), w)
  finished (ok (found, address)) w = patch found.lb address (finish found address w)

  unfoldable pub ensure_octavia_load_balancer :
      ServiceConfig → W → (Option Ingress × Result Unit) × W
  unfolding prepare finished
  ensure_octavia_load_balancer start w = let (r, w') = prepare start w in finished r w'
