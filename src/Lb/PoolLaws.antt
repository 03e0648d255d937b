-- ===== src/Lb/PoolLaws.antt =====
-- What `ensureOctaviaPool` promises: the protocol of the pool, and that members that are as wanted
-- are left alone.
use mathlib.Core.Path.{subst}
use cloud_provider_openstack.Util.Counting.{IsDistinct-set_of, IsDistinct, set_equal_iff}
use cloud_provider_openstack.Lb.Serial.{serially_reconcile_pool_members}
use cloud_provider_openstack.Lb.Nodes.{node_address_for_lb}
use cloud_provider_openstack.Lb.Listeners.{only_if}
use cloud_provider_openstack.Util.Basic.{set_of, set_equal}
use cloud_provider_openstack.Routes.Api.{Node, IpParser}
use cloud_provider_openstack.Prelude.{
  some, ℕ, ◌==◌, ◌∷◌, ◌≡◌, Bool, refl, inl, String, inr, ◌||◌, true, List, none, map, [], ltb,
  Bool-cases, eqb, sym, Option, ap, arith, ◌&&◌, if◌then◌else◌,
}
use cloud_provider_openstack.Lb.RulesLaws.{made}
use cloud_provider_openstack.Lb.Pools.{
  build_batch_update_member_opts, member_for, pool_protocol, key_of, new_key, can_use_http_monitor,
  build_pool_create_opt, add_member, member_key,
}
use cloud_provider_openstack.Lb.Octavia.{create_pool, Octavia, delete_pool, wait_active}
use cloud_provider_openstack.Lb.EnsurePool.{
  or_create_pool, current_keys, ensure_octavia_pool, update_members, keep_or_delete, update_unless,
  current_pool,
}
use cloud_provider_openstack.Lb.Api.{
  Pool, Service, MemberUpdate, ServiceConfig, PoolCreate, ServicePort, Lbaas, Member, Listener,
}
use cloud_provider_openstack.Go.{Result, ok, err, ◌>>=◌, pure, bind_rule}

abbrev pub or_zero : Option ℕ → ℕ
or_zero none = 0
or_zero (some p) = p

-- the member that Octavia stores for an option
abbrev pub stored : (MemberUpdate → String) → MemberUpdate → Member
stored new_id u = record {
  id = new_id u;
  name = u.name;
  address = u.address;
  protocol_port = u.protocol_port;
  monitor_port = or_zero u.monitor_port;
}

-- the monitor port of the members is the number that stands in their keys
abbrev pub monitors_agree : Lbaas → ServicePort → ServiceConfig → Bool
monitors_agree lbaas port conf =
    eqb conf.health_check_node_port 0 || can_use_http_monitor lbaas port

-- an error, or a pool with that protocol
abbrev pub pool_fits : String → Result Pool → Bool
pool_fits protocol (err e) = true
pool_fits protocol (ok pool) = pool.protocol == protocol

abbrev pub option_fits : String → Result (Option Pool) → Bool
option_fits protocol (ok (some pool)) = pool.protocol == protocol
option_fits protocol _ = true

module _ (ip : IpParser) (lbaas : Lbaas) (port : ServicePort) (conf : ServiceConfig)
    (new_id : MemberUpdate → String) where
  key_of-stored :
      (node : Node) (address : String)
      → monitors_agree lbaas port conf ≡ true
      → key_of (stored new_id (member_for ip lbaas port conf node address))
        ≡ new_key ip lbaas port conf node address
  unfolding member_for
  key_of-stored node address agree =
      let h = conf.health_check_node_port in
      let same : or_zero (only_if (ltb 0 h && can_use_http_monitor lbaas port) h) ≡ h =
        ground (arith, agree) in
      ap (member_key node.name address port.node_port) same

  add_member-names :
      (node : Node) (r : Result String) (rest : List MemberUpdate × List String)
      → monitors_agree lbaas port conf ≡ true
      → rest.1 ≡ set_of (map key_of (map (stored new_id) rest.0))
      → (add_member ip lbaas port conf node r rest).1
        ≡ set_of (map key_of (map (stored new_id) (add_member ip lbaas port conf node r rest).0))
  unfolding set_of
  add_member-names node (err e) rest agree h = h
  add_member-names node (ok address) rest agree h = elim (Bool-cases (eqb port.node_port 0)) [
    | inl no_port ↦ rw no_port h
    | inr a_port ↦ rw a_port (rw (key_of-stored node address agree, h) refl)
  ]

  -- the names are those of the members as they are stored
  build_batch_names :
      (nodes : List Node)
      → monitors_agree lbaas port conf ≡ true
      → (build_batch_update_member_opts ip lbaas port conf nodes).1
        ≡ set_of (
            map key_of
              (map (stored new_id) (build_batch_update_member_opts ip lbaas port conf nodes).0))
  unfolding build_batch_update_member_opts set_of
  build_batch_names [] agree = refl
  build_batch_names (node ∷ nodes) agree =
      add_member-names node (node_address_for_lb ip node conf.preferred_ip_family)
        (build_batch_update_member_opts ip lbaas port conf nodes) agree
        (build_batch_names nodes agree)

module _ {W : Type 0} (octavia : Octavia W) (steps : ℕ) (ip : IpParser) (lbaas : Lbaas) where
  -- Where the members that Octavia lists are those of the nodes, as they are stored, no request to
  -- update them is made. The health check's port has to be unset, or an HTTP monitor to be allowed.
  pub update_members-settled :
      (lb_id : String) (pool : Pool) (port : ServicePort) (nodes : List Node) (conf : ServiceConfig)
      (new_id : MemberUpdate → String) (w : W)
      → monitors_agree lbaas port conf ≡ true
      → (octavia.members_list pool.id w).0
        ≡ ok (map (stored new_id) (build_batch_update_member_opts ip lbaas port conf nodes).0)
      → update_members octavia steps ip lbaas lb_id pool port nodes conf w
        ≡ (ok tt, (octavia.members_list pool.id w).1)
  unfolding update_members current_keys
  update_members-settled lb_id pool port nodes conf new_id w agree listed =
      let opts = build_batch_update_member_opts ip lbaas port conf nodes in
      let current : (current_keys octavia steps ip lbaas pool w).0 ≡ opts.1 =
        rw listed (sym (build_batch_names ip lbaas port conf new_id nodes agree)) in
      let distinct : IsDistinct opts.1 =
        subst IsDistinct (sym (build_batch_names ip lbaas port conf new_id nodes agree))
          (IsDistinct-set_of (map key_of (map (stored new_id) opts.0))) in
      let same : set_equal (current_keys octavia steps ip lbaas pool w).0 opts.1 ≡ true =
        subst (λ keys. set_equal keys opts.1 ≡ true) (sym current)
          ((set_equal_iff opts.1 opts.1 distinct distinct).1 (λ z. refl)) in
      ap
        (λ equal.
          update_unless octavia steps ip lbaas lb_id pool equal opts.0
            (octavia.members_list pool.id w).1)
        same

  keep_or_delete_fits :
      (lb_id protocol : String) (found : Option Pool) (u : W)
      → option_fits protocol (keep_or_delete octavia steps ip lbaas lb_id protocol found u).0 ≡ true
  unfolding keep_or_delete
  keep_or_delete_fits lb_id protocol none u = refl
  keep_or_delete_fits lb_id protocol (some pool) u = elim (Bool-cases (pool.protocol == protocol)) [
    | inl right ↦ rw right right
    | inr wrong ↦ rw wrong (
        bind_rule (λ r. option_fits protocol r.0 ≡ true) (delete_pool octavia steps pool.id lb_id)
          (λ _. pure none) u (λ a e. refl) (λ e. refl))
  ]

  or_create_pool_fits :
      (lb_id : String) (opts : PoolCreate) (kept : Option Pool) (u : W)
      → ((made : PoolCreate) (v : W)
          → pool_fits made.protocol (octavia.pools_create made v).0 ≡ true)
      → option_fits opts.protocol (ok kept) ≡ true
      → pool_fits opts.protocol (or_create_pool octavia steps ip lbaas lb_id opts kept u).0 ≡ true
  unfolding or_create_pool create_pool
  or_create_pool_fits lb_id opts (some pool) u made fits = fits
  or_create_pool_fits lb_id opts none u made fits =
      let Q : Result Pool × W → Type 0 = λ r. pool_fits opts.protocol r.0 ≡ true in
      bind_rule Q (octavia.pools_create opts)
        (λ pool. wait_active octavia steps lb_id >>= λ _. pure pool) u
        (λ pool e.
          bind_rule Q (wait_active octavia steps lb_id) (λ _. pure pool) _
            (λ a h. subst (λ r. pool_fits opts.protocol r ≡ true) e (made opts u)) (λ x. refl))
        (λ x. refl)

  -- The pool that is returned has the protocol that the configuration asks for, whether it was
  -- there, was made, or was made anew because the one that was there had another protocol. Octavia
  -- is relied on to give a pool the protocol that was asked for.
  pub ensure_octavia_pool-protocol :
      (lb_id name : String) (listener : Listener) (service : Service) (port : ServicePort)
      (nodes : List Node) (conf : ServiceConfig) (w : W)
      → ((opts : PoolCreate) (u : W)
          → pool_fits opts.protocol (octavia.pools_create opts u).0 ≡ true)
      → pool_fits
          (pool_protocol listener.protocol conf)
          (ensure_octavia_pool octavia steps ip lbaas lb_id name listener service port nodes conf
            w).0
        ≡ true
  unfolding ensure_octavia_pool build_pool_create_opt
  ensure_octavia_pool-protocol lb_id name listener service port nodes conf w made =
      let protocol = pool_protocol listener.protocol conf in
      let Q : Result Pool × W → Type 0 = λ r. pool_fits protocol r.0 ≡ true in
      let opts = record (build_pool_create_opt lbaas listener.protocol service conf) {
        listener_id = listener.id;
        name = name;
      } in
      bind_rule Q (current_pool octavia steps lb_id listener.id) _ w
        (λ found _.
          bind_rule Q (keep_or_delete octavia steps ip lbaas lb_id protocol found) _ _
            (λ kept kept_is.
              bind_rule Q (or_create_pool octavia steps ip lbaas lb_id opts kept) _ _
                (λ pool pool_is.
                  bind_rule Q
                    (if lbaas.provider_requires_serial_api_calls
                      then serially_reconcile_pool_members octavia steps pool port.node_port lb_id
                          nodes
                      else update_members octavia steps ip lbaas lb_id pool port nodes conf)
                    _ _
                    (λ _ _.
                      subst (λ r. pool_fits protocol r ≡ true) pool_is
                        (or_create_pool_fits lb_id opts kept _ made (
                          subst (λ r. option_fits protocol r ≡ true) kept_is
                            (keep_or_delete_fits lb_id protocol found _))))
                    (λ x. refl))
                (λ x. refl))
            (λ x. refl))
        (λ x. refl)
