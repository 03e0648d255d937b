-- ===== src/Lb/Octavia.antt =====
-- The requests to Octavia, which are a parameter, and the functions around them of
-- pkg/util/openstack/loadbalancer.go. Each change waits until the load balancer is ACTIVE.
use cloud_provider_openstack.Prelude.Int.{ℤ}
use cloud_provider_openstack.Prelude.Strings.{Text}
use cloud_provider_openstack.Prelude.{◌==◌, zero, String, [], ℕ, suc, List, ◌∷◌, if◌then◌else◌}
use cloud_provider_openstack.Lb.Api.{
  ListenerCreate, MemberUpdate, Member, PoolCreate, Pool, Listener, ListenerUpdate,
}
use cloud_provider_openstack.Go.{
  Result, message, not_found, ◌>>=◌, Exec, multiple_results, pure, err, ok, fail,
}

-- pools.CreateMemberOpts, as far as they are set; the name is its characters.
pub record MemberCreate : Type 0 where
  pub name : Text
  pub address : String
  pub protocol_port : ℕ

-- monitors.Monitor, CreateOpts and UpdateOpts
pub record Monitor : Type 0 where
  pub id : String
  pub kind : String
  pub delay : ℤ
  pub timeout : ℤ
  pub max_retries : ℤ

pub record MonitorCreate : Type 0 where
  pub pool_id : String
  pub name : String
  pub kind : String
  pub delay : ℤ
  pub timeout : ℤ
  pub max_retries : ℤ
  pub url_path : String
  pub http_method : String
  pub expected_codes : String

pub record MonitorUpdate : Type 0 where
  pub delay : ℤ
  pub timeout : ℤ
  pub max_retries : ℤ

pub record Octavia (W : Type 0) : Type 0 where
  -- loadbalancers.Get: the provisioning status
  pub status_of : String → Exec W String
  pub listeners_create : ListenerCreate → Exec W Listener
  pub listeners_update : String → ListenerUpdate → Exec W Unit
  -- the pools of a load balancer, in the order of the pages
  pub pools_list : String → Exec W (List Pool)
  pub pools_create : PoolCreate → Exec W Pool
  pub pools_delete : String → Exec W Unit
  pub members_list : String → Exec W (List Member)
  pub members_update : String → List MemberUpdate → Exec W Unit
  pub member_create : String → MemberCreate → Exec W Unit
  pub member_delete : String → String → Exec W Unit
  pub monitor_get : String → Exec W Monitor
  pub monitor_create : MonitorCreate → Exec W Monitor
  pub monitor_update : String → MonitorUpdate → Exec W Unit
  pub monitor_delete : String → Exec W Unit

module _ {W : Type 0} (octavia : Octavia W) (steps : ℕ) where
  -- WaitActiveAndGetLoadBalancer, with the steps of its backoff; the load balancer that it returns
  -- is used by none of the callers here.
  unfoldable pub poll_active : ℕ → String → Exec W Unit
  poll_active zero lb_id = fail (message "timed out waiting for the condition")
  poll_active (suc n) lb_id = octavia.status_of lb_id >>= λ status.
      if status == "ACTIVE"
      then pure tt
      else if status == "ERROR"
      then fail (message "loadbalancer has gone into ERROR state")
      else poll_active n lb_id

  abbrev pub wait_active : String → Exec W Unit
  wait_active lb_id = poll_active steps lb_id

  -- CreateListener
  unfoldable pub create_listener : String → ListenerCreate → Exec W Listener
  unfolding poll_active
  create_listener lb_id opts =
      octavia.listeners_create opts >>= λ listener. wait_active lb_id >>= λ _. pure listener

  -- UpdateListener
  unfoldable pub update_listener : String → String → ListenerUpdate → Exec W Unit
  unfolding poll_active
  update_listener lb_id listener_id opts =
      octavia.listeners_update listener_id opts >>= λ _. wait_active lb_id

  -- CreatePool
  unfoldable pub create_pool : PoolCreate → String → Exec W Pool
  unfolding poll_active
  create_pool opts lb_id =
      octavia.pools_create opts >>= λ pool. wait_active lb_id >>= λ _. pure pool

  -- an error that is not "not found" is returned, the others are logged
  abbrev pub unless_missing : Result Unit → Exec W Unit → Exec W Unit
  unless_missing (err not_found) next = next
  unless_missing (err e) next = fail e
  unless_missing (ok _) next = next

  -- DeletePool
  unfoldable pub delete_pool : String → String → Exec W Unit
  unfolding poll_active
  delete_pool pool_id lb_id w =
      let (r, w') = octavia.pools_delete pool_id w in unless_missing r (wait_active lb_id) w'

  -- BatchUpdatePoolMembers
  unfoldable pub batch_update_pool_members : String → String → List MemberUpdate → Exec W Unit
  unfolding poll_active
  batch_update_pool_members lb_id pool_id members =
      octavia.members_update pool_id members >>= λ _. wait_active lb_id

  -- the pools that have the listener, as often as they have it
  unfoldable pub pools_of_listener : String → List Pool → List Pool
  pools_of_listener listener_id [] = []
  pools_of_listener listener_id (p ∷ ps) = repeated p.listeners (pools_of_listener listener_id ps)
    where
      repeated : List String → List Pool → List Pool
      repeated [] rest = rest
      repeated (id ∷ ids) rest =
          let more = repeated ids rest in if id == listener_id then p ∷ more else more

  -- GetPoolByListener; more than one is an error on the page that shows the second.
  abbrev pub only_pool : List Pool → Result Pool
  only_pool [] = err not_found
  only_pool (p ∷ []) = ok p
  only_pool (p ∷ q ∷ ps) = err multiple_results

  unfoldable pub get_pool_by_listener : String → String → Exec W Pool
  unfolding pools_of_listener
  get_pool_by_listener lb_id listener_id =
      octavia.pools_list lb_id >>= λ pools w. (only_pool (pools_of_listener listener_id pools), w)
