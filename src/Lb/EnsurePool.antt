-- ===== src/Lb/EnsurePool.antt =====
-- ensureOctaviaPool of pkg/openstack/loadbalancer.go
use cloud_provider_openstack.Util.Basic.{set_equal, set_of}
use cloud_provider_openstack.Routes.Api.{IpParser, Node}
use cloud_provider_openstack.Prelude.{
  List, ℕ, some, String, none, [], Option, ◌==◌, map, if◌then◌else◌, false, Bool, true,
}
use cloud_provider_openstack.Lb.Serial.{serially_reconcile_pool_members}
use cloud_provider_openstack.Lb.Pools.{
  build_pool_create_opt, pool_protocol, member_key, key_of, build_batch_update_member_opts,
}
use cloud_provider_openstack.Lb.Octavia.{
  Octavia, delete_pool, get_pool_by_listener, batch_update_pool_members, create_pool,
}
use cloud_provider_openstack.Lb.Api.{
  Listener, Pool, Lbaas, ServiceConfig, ServicePort, Service, Member, PoolCreate, MemberUpdate,
}
use cloud_provider_openstack.Go.{Result, Exec, err, pure, ok, not_found, ◌>>=◌, by_identity}

module _ {W : Type 0} (octavia : Octavia W) (steps : ℕ) where
  -- an error that is not ErrNotFound is returned; nil otherwise
  unfoldable pub current_pool : String → String → Exec W (Option Pool)
  unfolding get_pool_by_listener
  current_pool lb_id listener_id w =
      let requests = record octavia { pools_list = λ id. by_identity (octavia.pools_list id) } in
      let (r, w') = get_pool_by_listener requests steps lb_id listener_id w in (or_nil r, w')
    where
      or_nil : Result Pool → Result (Option Pool)
      or_nil (ok pool) = ok (some pool)
      or_nil (err not_found) = ok none
      or_nil (err e) = err e

module _ {W : Type 0} (octavia : Octavia W) (steps : ℕ) (ip : IpParser) (lbaas : Lbaas) where
  -- a pool with the wrong protocol is deleted
  unfoldable pub keep_or_delete : String → String → Option Pool → Exec W (Option Pool)
  unfolding delete_pool
  keep_or_delete lb_id protocol none = pure none
  keep_or_delete lb_id protocol (some pool) =
      if pool.protocol == protocol
      then pure (some pool)
      else delete_pool octavia steps pool.id lb_id >>= λ _. pure none

  unfoldable pub or_create_pool : String → PoolCreate → Option Pool → Exec W Pool
  unfolding create_pool
  or_create_pool lb_id opts none = create_pool octavia steps opts lb_id
  or_create_pool lb_id opts (some pool) = pure pool

  -- the members that Octavia has; an error is logged, and leaves none
  unfoldable pub current_keys : Pool → W → List String × W
  unfolding set_of member_key
  current_keys pool w = let (r, w') = octavia.members_list pool.id w in (keys_of r, w')
    where
      keys_of : Result (List Member) → List String
      keys_of (ok members) = set_of (map key_of members)
      keys_of (err e) = []

  abbrev pub update_unless : String → Pool → Bool → List MemberUpdate → Exec W Unit
  update_unless lb_id pool true members = pure tt
  update_unless lb_id pool false members =
      batch_update_pool_members octavia steps lb_id pool.id members

  unfoldable pub update_members :
      String → Pool → ServicePort → List Node → ServiceConfig → Exec W Unit
  unfolding current_keys build_batch_update_member_opts batch_update_pool_members set_equal
  update_members lb_id pool port nodes conf w =
      let (current, w') = current_keys pool w in
      let (members, names) = build_batch_update_member_opts ip lbaas port conf nodes in
      update_unless lb_id pool (set_equal current names) members w'

  unfoldable pub ensure_octavia_pool :
      String → String → Listener → Service → ServicePort → List Node → ServiceConfig → Exec W Pool
  unfolding current_pool keep_or_delete or_create_pool update_members build_pool_create_opt
      serially_reconcile_pool_members
  ensure_octavia_pool lb_id name listener service port nodes conf =
      let opts = record (build_pool_create_opt lbaas listener.protocol service conf) {
        listener_id = listener.id;
        name = name;
      } in
      current_pool octavia steps lb_id listener.id >>= λ found.
      keep_or_delete lb_id (pool_protocol listener.protocol conf) found >>= λ kept.
      or_create_pool lb_id opts kept >>= λ pool.
      (if lbaas.provider_requires_serial_api_calls
        then serially_reconcile_pool_members octavia steps pool port.node_port lb_id nodes
        else update_members lb_id pool port nodes conf)
      >>= λ _. pure pool
