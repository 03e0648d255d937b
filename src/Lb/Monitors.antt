-- ===== src/Lb/Monitors.antt =====
-- ensureOctaviaHealthMonitor and buildMonitorCreateOpts of pkg/openstack/loadbalancer.go, with the
-- functions on health monitors of pkg/util/openstack/loadbalancer.go
use cloud_provider_openstack.Prelude.Int.{int_eq}
use cloud_provider_openstack.Prelude.{
  Bool, ◌&&◌, true, refl, not, ◌==◌, false, ℕ, String, ◌≡◌, ltb, if◌then◌else◌, sym, ◌∙◌, arith, ap,
}
use cloud_provider_openstack.Lb.Pools.{can_use_http_monitor}
use cloud_provider_openstack.Lb.Octavia.{
  poll_active, MonitorCreate, Monitor, MonitorUpdate, Octavia, unless_missing, wait_active,
}
use cloud_provider_openstack.Lb.Api.{ServicePort, Pool, Lbaas, ServiceConfig}
use cloud_provider_openstack.Go.{ok, pure, Exec, ◌>>=◌, err, is_ok, Error, Result}

unfoldable pub build_monitor_create_opts : Lbaas → ServiceConfig → ServicePort → MonitorCreate
unfolding can_use_http_monitor
build_monitor_create_opts lbaas conf port =
    let http = ltb 0 conf.health_check_node_port && can_use_http_monitor lbaas port in
    record {
      pool_id = "";
      name = "";
      kind =
          if http then "HTTP" else if port.protocol == "UDP" then "UDP-CONNECT" else port.protocol;
      delay = conf.health_monitor_delay;
      timeout = conf.health_monitor_timeout;
      max_retries = conf.health_monitor_max_retries;
      url_path = if http then "/healthz" else "";
      http_method = if http then "GET" else "";
      expected_codes = if http then "200" else "";
    }

-- the monitor has the configured delay, timeout and retries
abbrev pub is_tuned : ServiceConfig → Monitor → Bool
is_tuned conf m =
    int_eq conf.health_monitor_delay m.delay
    && int_eq conf.health_monitor_timeout m.timeout
    && int_eq conf.health_monitor_max_retries m.max_retries

module _ {W : Type 0} (octavia : Octavia W) (steps : ℕ) (lb_id : String) where
  -- DeleteHealthMonitor
  unfoldable pub delete_health_monitor : String → Exec W Unit
  unfolding poll_active
  delete_health_monitor monitor_id w =
      let (r, w') = octavia.monitor_delete monitor_id w in
      unless_missing octavia steps r (wait_active octavia steps lb_id) w'

  -- UpdateHealthMonitor
  unfoldable pub update_health_monitor : String → MonitorUpdate → Exec W Unit
  unfolding poll_active
  update_health_monitor monitor_id opts =
      octavia.monitor_update monitor_id opts >>= λ _. wait_active octavia steps lb_id

  -- CreateHealthMonitor
  unfoldable pub create_health_monitor : MonitorCreate → Exec W Monitor
  unfolding poll_active
  create_health_monitor opts = octavia.monitor_create opts >>= λ monitor.
      wait_active octavia steps lb_id >>= λ _. pure monitor

  module _ (lbaas : Lbaas) (conf : ServiceConfig) (port : ServicePort) where
    -- a monitor of another type is deleted; the result is the id that is left
    unfoldable pub delete_other_kind : String → Monitor → Exec W String
    unfolding delete_health_monitor build_monitor_create_opts
    delete_other_kind monitor_id monitor =
        if (build_monitor_create_opts lbaas conf port).kind == monitor.kind
        then pure monitor_id
        else delete_health_monitor monitor_id >>= λ _. pure ""

    abbrev pub wanted_tuning : MonitorUpdate
    wanted_tuning = record {
      delay = conf.health_monitor_delay;
      timeout = conf.health_monitor_timeout;
      max_retries = conf.health_monitor_max_retries;
    }

    -- the block for a pool that has a monitor
    unfoldable pub refresh_monitor : String → Exec W String
    unfolding delete_other_kind update_health_monitor
    refresh_monitor monitor_id = octavia.monitor_get monitor_id >>= λ monitor.
        delete_other_kind monitor_id monitor >>= λ left.
        if is_tuned conf monitor
        then pure left
        else update_health_monitor left wanted_tuning >>= λ _. pure left

    -- the ladder at the end
    unfoldable pub settle_monitor : String → String → String → Exec W Unit
    unfolding create_health_monitor delete_health_monitor build_monitor_create_opts
    settle_monitor name pool_id monitor_id =
        let opts = record (build_monitor_create_opts lbaas conf port) {
          pool_id = pool_id;
          name = name;
        } in
        if monitor_id == "" && conf.enable_monitor
        then (create_health_monitor opts >>= λ _. pure tt)
        else if not (monitor_id == "") && not conf.enable_monitor
        then delete_health_monitor monitor_id
        else pure tt

    unfoldable pub ensure_octavia_health_monitor : String → Pool → Exec W Unit
    unfolding refresh_monitor settle_monitor
    ensure_octavia_health_monitor name pool =
        (if pool.monitor_id == "" then pure "" else refresh_monitor pool.monitor_id)
        >>= settle_monitor name pool.id

    -- A monitor that is wanted, and has the type and the tuning that are asked for, is read and then
    -- left alone.
    pub ensure_octavia_health_monitor-settled :
        (name : String) (pool : Pool) (monitor : Monitor) (w : W)
        → conf.enable_monitor ≡ true
        → (pool.monitor_id == "") ≡ false
        → (octavia.monitor_get pool.monitor_id w).0 ≡ ok monitor
        → ((build_monitor_create_opts lbaas conf port).kind == monitor.kind) ≡ true
        → is_tuned conf monitor ≡ true
        → ensure_octavia_health_monitor name pool w
          ≡ (ok tt, (octavia.monitor_get pool.monitor_id w).1)
    unfolding ensure_octavia_health_monitor refresh_monitor delete_other_kind settle_monitor
    ensure_octavia_health_monitor-settled name pool monitor w enabled there got kind tuned =
        rw there (rw got (rw (kind, delete_other_kind) (rw tuned (rw there (rw enabled refl)))))

    -- the call with its one request behind the deletion
    lost_at :
        (name : String) (pool : Pool) (monitor : Monitor) (w : W) (e : Error)
        → let u = (octavia.monitor_get pool.monitor_id w).1 in
          let v = (delete_health_monitor pool.monitor_id u).1 in
          (pool.monitor_id == "") ≡ false
          → (octavia.monitor_get pool.monitor_id w).0 ≡ ok monitor
          → ((build_monitor_create_opts lbaas conf port).kind == monitor.kind) ≡ false
          → is_tuned conf monitor ≡ false
          → (delete_health_monitor pool.monitor_id u).0 ≡ ok tt
          → (octavia.monitor_update "" wanted_tuning v).0 ≡ err e
          → ensure_octavia_health_monitor name pool w
            ≡ (err e, (octavia.monitor_update "" wanted_tuning v).1)
    unfolding ensure_octavia_health_monitor refresh_monitor delete_other_kind update_health_monitor
    lost_at name pool monitor w e there got kind tuned deleted refused = rw there (
        rw got (
          rw (kind, delete_other_kind)
            (rw (deleted, delete_health_monitor) (rw tuned (rw refused refl)))))

module _ {W : Type 0} (octavia : Octavia W) (steps : ℕ) (lb_id : String) (lbaas : Lbaas)
    (conf : ServiceConfig) (port : ServicePort) where
  -- When the type and the tuning of a monitor both change, and Octavia deletes the monitor and refuses
  -- to update one of the empty id: the call fails, its last request is that update, which it sends
  -- behind the deletion, and it makes no monitor, as its outcome is the same whatever a request to
  -- make one would do.
  pub ensure_octavia_health_monitor-lost :
      (name : String) (pool : Pool) (monitor : Monitor) (w : W)
      → let u = (octavia.monitor_get pool.monitor_id w).1 in
        let deletion = delete_health_monitor octavia steps lb_id pool.monitor_id u in
        ((opts : MonitorUpdate) (v : W) → is_ok (octavia.monitor_update "" opts v).0 ≡ false)
        → (pool.monitor_id == "") ≡ false
        → (octavia.monitor_get pool.monitor_id w).0 ≡ ok monitor
        → ((build_monitor_create_opts lbaas conf port).kind == monitor.kind) ≡ false
        → is_tuned conf monitor ≡ false
        → deletion.0 ≡ ok tt
        → (is_ok (ensure_octavia_health_monitor octavia steps lb_id lbaas conf port name pool w).0
            ≡ false)
          × ((ensure_octavia_health_monitor octavia steps lb_id lbaas conf port name pool w).1
              ≡ (octavia.monitor_update ""
                  (wanted_tuning octavia steps lb_id lbaas conf port)
                  deletion.1).1)
          × ((create : MonitorCreate → Exec W Monitor)
              → ensure_octavia_health_monitor
                  (record octavia { monitor_create = create })
                  steps
                  lb_id
                  lbaas
                  conf
                  port
                  name
                  pool
                  w
                ≡ ensure_octavia_health_monitor octavia steps lb_id lbaas conf port name pool w)
  unfolding delete_health_monitor
  ensure_octavia_health_monitor-lost name pool monitor w refused there got kind tuned deleted =
      let u = (octavia.monitor_get pool.monitor_id w).1 in
      let v = (delete_health_monitor octavia steps lb_id pool.monitor_id u).1 in
      let tuning = wanted_tuning octavia steps lb_id lbaas conf port in
      let (e, failing) = is_error (octavia.monitor_update "" tuning v).0 (refused tuning v) in
      let here =
        lost_at octavia steps lb_id lbaas conf port name pool monitor w e there got kind tuned
          deleted failing in
      (
        ap (λ o. is_ok o.0) here,
        ap (λ o. o.1) here,
        λ create.
            lost_at (record octavia { monitor_create = create }) steps lb_id lbaas conf port name
              pool monitor w e there got kind tuned deleted failing
            ∙ sym here,
      )
    where
      is_error : {A : Type 0} (r : Result A) → is_ok r ≡ false → (e : Error) × (r ≡ err e)
      is_error (ok a) h = absurd (ground (arith, h))
      is_error (err e) h = (e, refl)
