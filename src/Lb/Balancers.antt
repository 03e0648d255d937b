-- ===== src/Lb/Balancers.antt =====
-- Load balancers as a whole in pkg/openstack/loadbalancer.go: their names, the search by name and
-- GetLoadBalancer, with the functions on them of pkg/util/openstack/loadbalancer.go and network.go.
-- Names are texts of characters of one byte.
use cloud_provider_openstack.Prelude.Strings.{codes, has_prefix, concat}
use cloud_provider_openstack.Prelude.{
  ◌∷◌, false, zero, ℕ, none, suc, not, ◌==◌, ◌&&◌, true, Option, Bool, [], String, List, some, eqb,
  if◌then◌else◌, length,
}
use cloud_provider_openstack.Lb.Octavia.{
  poll_active, unless_missing, Octavia, wait_active, MonitorCreate,
}
use cloud_provider_openstack.Lb.Api.{Listener, Service, MemberUpdate, PoolCreate, ListenerCreate}
use cloud_provider_openstack.Lb.Annotations.{get_string_from_service_annotation}
use cloud_provider_openstack.Go.{
  multiple_results, message, not_found, pure, err, Exec, ok, or_timeout, Result, reworded, fail,
  ◌>>=◌,
}

-- loadbalancers.LoadBalancer
pub record Balancer : Type 0 where
  pub id : String
  pub name : String
  pub provisioning_status : String
  pub vip_port_id : String
  pub vip_address : String
  pub vip_subnet_id : String
  pub tags : List String

-- listeners.CreateOpts with its default pool, the pool's members and the pool's monitor
pub record FullListener : Type 0 where
  pub listener : ListenerCreate
  pub pool : PoolCreate
  pub members : List MemberUpdate
  pub monitor : Option MonitorCreate

-- loadbalancers.CreateOpts
pub record BalancerCreate : Type 0 where
  pub name : String
  pub description : String
  pub provider : String
  pub tags : List String
  pub flavor_id : String
  pub availability_zone : String
  pub vip_port_id : String
  pub vip_subnet_id : String
  pub vip_network_id : String
  pub vip_address : String
  pub listeners : List FullListener

-- floatingips.FloatingIP
pub record FloatingIp : Type 0 where
  pub id : String
  pub address : String
  pub description : String
  pub port_id : String

-- floatingips.CreateOpts
pub record FloatingIpCreate : Type 0 where
  pub network_id : String
  pub subnet_id : String
  pub port_id : String
  pub address : String
  pub description : String

-- The requests to Octavia and Neutron, and wait.ExponentialBackoff of so many steps.
pub record Balancers (W : Type 0) : Type 0 where
  pub exponential_backoff : ℕ → Exec W Bool → Exec W Unit
  pub balancers_named : String → Exec W (List Balancer)
  pub balancer_create : BalancerCreate → Exec W Balancer
  pub balancer_get : String → Exec W Balancer
  pub balancer_delete : Bool → String → Exec W Unit
  pub balancer_tags : String → List String → Exec W Unit
  pub listeners_list : String → Exec W (List Listener)
  pub listener_delete : String → Exec W Unit
  pub floating_ips_of_port : String → Exec W (List FloatingIp)
  pub floating_ips_at : String → Exec W (List FloatingIp)
  pub floating_ip_create : FloatingIpCreate → Exec W FloatingIp
  -- with the port, or without one
  pub floating_ip_update : String → Option String → Exec W FloatingIp
  pub floating_ip_delete : String → Exec W Unit

abbrev pub service_prefix : String
service_prefix = "kube_service_"

abbrev pub is_service_tag : String → Bool
is_service_tag tag = has_prefix (codes tag) (codes service_prefix)

-- CutString255 on a text
unfoldable pub cut_text : ℕ → String → String
cut_text zero s = String.[]
cut_text (suc n) String.[] = String.[]
cut_text (suc n) (String.◌∷◌ c s) = String.◌∷◌ c (cut_text n s)

unfoldable pub get_load_balancer_name : String → Service → String
unfolding cut_text
get_load_balancer_name cluster_name service = cut_text 255 (
    concat service_prefix
      (concat cluster_name (concat "_" (concat service.namespace (concat "_" service.name)))))

-- the load balancers that are not deleted
unfoldable pub valid_balancers : List Balancer → List Balancer
valid_balancers [] = []
valid_balancers (lb ∷ lbs) =
    let rest = valid_balancers lbs in
    if not (lb.provisioning_status == "DELETED") && not (lb.provisioning_status == "PENDING_DELETE")
    then lb ∷ rest
    else rest

abbrev pub only_balancer : List Balancer → Result Balancer
only_balancer [] = err not_found
only_balancer (lb ∷ []) = ok lb
only_balancer (lb ∷ other ∷ more) = err multiple_results

module _ {W : Type 0} (balancers : Balancers W) where
  -- the list by the name, or if it is empty by the legacy name
  unfoldable pub by_name_or_legacy : String → String → Exec W (List Balancer)
  by_name_or_legacy name legacy_name = balancers.balancers_named name >>= λ found.
      if not (eqb (length found) 0)
      then pure found
      else if legacy_name == ""
      then fail not_found
      else balancers.balancers_named legacy_name

  unfoldable pub get_loadbalancer_by_name : String → String → Exec W Balancer
  unfolding by_name_or_legacy valid_balancers
  get_loadbalancer_by_name name legacy_name =
      by_name_or_legacy name legacy_name >>= λ found w. (only_balancer (valid_balancers found), w)

  abbrev pub first_ip : List FloatingIp → Option FloatingIp
  first_ip [] = none
  first_ip (ip ∷ ips) = some ip

  -- GetFloatingIPByPortID
  unfoldable pub get_floating_ip_by_port_id : String → Exec W (Option FloatingIp)
  get_floating_ip_by_port_id port_id =
      balancers.floating_ips_of_port port_id >>= λ ips. pure (first_ip ips)

  -- by the id of the annotation, or by name
  unfoldable pub find_balancer : String → String → String → Exec W Balancer
  unfolding get_loadbalancer_by_name
  find_balancer lb_id name legacy_name =
      if not (lb_id == "")
      then balancers.balancer_get lb_id
      else get_loadbalancer_by_name name legacy_name

  -- the address that is shown: a floating IP takes the place of the VIP, and without a port there is
  -- none
  unfoldable pub shown_address : Balancer → Exec W (Option String)
  unfolding get_floating_ip_by_port_id
  shown_address lb =
      if lb.vip_port_id == ""
      then pure none
      else reworded (message "failed when trying to get floating IP")
          (get_floating_ip_by_port_id lb.vip_port_id)
        >>= λ ip. pure (some (elim ip [ none ↦ lb.vip_address | some f ↦ f.address ]))

  -- The answer is `none` if there is no load balancer.
  unfoldable pub get_load_balancer : String → String → Service → Exec W (Option (Option String))
  unfolding find_balancer get_load_balancer_name get_string_from_service_annotation shown_address
  get_load_balancer cluster_name legacy_name service w =
      let lb_id =
        get_string_from_service_annotation service "loadbalancer.openstack.org/load-balancer-id"
          "" in
      let (r, w') =
        find_balancer lb_id (get_load_balancer_name cluster_name service) legacy_name w in
      after r w'
    where
      after : Result Balancer → Exec W (Option (Option String))
      after (ok lb) = shown_address lb >>= λ address. pure (some address)
      after (err not_found) = pure none
      after (err e) = fail e

module _ {W : Type 0} (balancers : Balancers W) (octavia : Octavia W) (steps : ℕ)
    (lb_id : String) where
  -- DeleteListener
  unfoldable pub delete_listener : String → Exec W Unit
  unfolding poll_active
  delete_listener listener_id w =
      let (r, w') = balancers.listener_delete listener_id w in
      unless_missing octavia steps r (wait_active octavia steps lb_id) w'

  -- UpdateLoadBalancerTags
  unfoldable pub update_load_balancer_tags : List String → Exec W Unit
  unfolding poll_active
  update_load_balancer_tags tags =
      balancers.balancer_tags lb_id tags >>= λ _. wait_active octavia steps lb_id

  abbrev pub is_gone : Result Balancer → Result Bool
  is_gone (ok lb) = ok false
  is_gone (err not_found) = ok true
  is_gone (err e) = err e

  abbrev pub sees_gone : Exec W Bool
  sees_gone w = let (r, w') = balancers.balancer_get lb_id w in (is_gone r, w')

  -- waitLoadbalancerDeleted
  unfoldable pub wait_loadbalancer_deleted : Exec W Unit
  wait_loadbalancer_deleted =
      or_timeout "loadbalancer failed to delete within the allotted time"
        (balancers.exponential_backoff 12 sees_gone)

  -- DeleteLoadbalancer
  unfoldable pub delete_loadbalancer : Bool → Exec W Unit
  unfolding wait_loadbalancer_deleted
  delete_loadbalancer cascade w =
      let (r, w') = balancers.balancer_delete cascade lb_id w in
      unless_missing octavia steps r wait_loadbalancer_deleted w'
