-- ===== src/Lb/UsedBalancer.antt =====
-- The load balancer with which ensureOctaviaLoadBalancer of pkg/openstack/loadbalancer.go succeeds
use cloud_provider_openstack.Lb.Annotations.{Ingress}
use mathlib.Core.Path.{subst}
use cloud_provider_openstack.Lb.PublicNetwork.{check_service}
use cloud_provider_openstack.Lb.FloatingIps.{ensure_floating_ip}
use cloud_provider_openstack.Lb.CreateBalancer.{create_octavia_load_balancer}
use cloud_provider_openstack.Routes.Api.{Node}
use cloud_provider_openstack.Prelude.Strings.{Text}
use cloud_provider_openstack.Prelude.{
  String, inr, eq_iff, ◌==◌, ◌≡◌, true, inl, arith, List, refl, map, if◌then◌else◌, some, ap, false,
  ◌≢◌, Bool-cases, not,
}
use cloud_provider_openstack.Lb.Sharing.{check_shared_iff, IsShareable}
use cloud_provider_openstack.Lb.EnsureBalancer.{
  by_id, prepare, found_or_new, Found, check_shared, find_or_create, Parts, populate, after_found,
  ensure_octavia_load_balancer, finished, named_by_identity,
}
use cloud_provider_openstack.Lb.Balancers.{
  Balancer, get_load_balancer_name, get_loadbalancer_by_name,
}
use cloud_provider_openstack.Lb.Api.{Lbaas, Service, ServiceConfig}
use cloud_provider_openstack.Go.{
  reworded, message, Result, bind_rule, ok, Error, err, Exec, ok-injective, pure, fail, not_found,
  with_error-ok, if_rule,
}

module _ {W N : Type 0} (p : Parts W N) (lbaas : Lbaas) (cluster_name legacy_name : String)
    (service : Service) (nodes : List (Node × Text)) where
  abbrev pub create_for : ServiceConfig → Exec W (Balancer × ServiceConfig)
  create_for conf =
      create_octavia_load_balancer p.octavia p.steps p.balancers p.ip lbaas service
        (map (λ (n : Node × Text). n.0) nodes) conf.lb_name cluster_name conf

  abbrev pub look_up : ServiceConfig → Exec W Balancer
  look_up conf =
      get_loadbalancer_by_name (named_by_identity p lbaas cluster_name legacy_name service nodes)
        conf.lb_name legacy_name

  -- Where a load balancer comes from, and whether the service owns it. Without an id it is looked up
  -- by the service's name, or made where there is none of it; one of an id is read, and is owned if
  -- it has the service's name, or else may be shared.
  pub data Origin (conf : ServiceConfig) (w : W) : Found → Type 0 where
    by_name :
        (lb : Balancer)
        → conf.lb_id ≡ ""
        → (look_up conf w).0 ≡ ok lb
        → Origin conf w (record { lb = lb; conf = conf; is_lb_owner = true; is_new = false })
    made_new :
        (lb : Balancer) (filled : ServiceConfig)
        → conf.lb_id ≡ ""
        → (look_up conf w).0 ≡ err not_found
        → (create_for conf (look_up conf w).1).0 ≡ ok (lb, filled)
        → Origin conf w (record { lb = lb; conf = filled; is_lb_owner = true; is_new = true })
    own_id :
        (lb : Balancer)
        → conf.lb_id ≢ ""
        → (p.balancers.balancer_get conf.lb_id w).0 ≡ ok lb
        → lb.name ≡ conf.lb_name
        → Origin conf w (record { lb = lb; conf = conf; is_lb_owner = true; is_new = false })
    shared :
        (lb : Balancer)
        → conf.lb_id ≢ ""
        → (p.balancers.balancer_get conf.lb_id w).0 ≡ ok lb
        → lb.name ≢ conf.lb_name
        → IsShareable lbaas conf lb
        → Origin conf w (record { lb = lb; conf = conf; is_lb_owner = false; is_new = false })

  abbrev From : ServiceConfig → W → Result Found × W → Type 0
  From conf w o = (f : Found) → o.0 ≡ ok f → Origin conf w f

  refused-From : (conf : ServiceConfig) (w : W) (e : Error) (u : W) → From conf w (err e, u)
  refused-From conf w e u f h = absurd (ground (arith, h))

  from_result :
      (conf : ServiceConfig) (w : W) (f g : Found) → Origin conf w f → ok f ≡ ok g → Origin conf w g
  from_result conf w f g o h = subst (Origin conf w) (ok-injective h) o

  seen_of_reading :
      (conf : ServiceConfig) (w : W) (lb : Balancer)
      → conf.lb_id ≢ ""
      → (p.balancers.balancer_get conf.lb_id w).0 ≡ ok lb
      → check_shared lbaas conf lb ≡ ok tt
      → Origin conf w
          (record { lb = lb; conf = conf; is_lb_owner = lb.name == conf.lb_name; is_new = false })
  seen_of_reading conf w lb has_id there checked = elim (Bool-cases (lb.name == conf.lb_name)) [
    | inl same ↦ rw same (own_id lb has_id there ((eq_iff lb.name conf.lb_name).0 same))
    | inr other ↦
        let different : lb.name ≢ conf.lb_name =
          λ e. absurd (ground (arith, other, (eq_iff lb.name conf.lb_name).1 e)) in
        rw other (
          shared lb has_id there different (elim ((check_shared_iff lbaas conf lb).0 checked) [
            | inl e ↦ absurd (different e)
            | inr shareable ↦ shareable
          ]))
  ]

  by_id-From :
      (conf : ServiceConfig) (w : W)
      → conf.lb_id ≢ ""
      → From conf w (by_id p lbaas cluster_name legacy_name service nodes conf w)
  unfolding by_id
  by_id-From conf w has_id =
      let get = p.balancers.balancer_get conf.lb_id in
      let m = reworded (message "failed to get load balancer") get in
      bind_rule (From conf w) m _ w
        (λ lb there.
          bind_rule (From conf w) (λ w'. (check_shared lbaas conf lb, w')) _ (get w).1
            (λ t h f g.
              from_result conf w _ f
                (seen_of_reading conf w lb has_id
                  (with_error-ok (message "failed to get load balancer") (get w).0 lb there) h)
                g)
            (λ e. refused-From conf w e (get w).1))
        (λ e. refused-From conf w e (get w).1)

  found_or_new-From :
      (conf : ServiceConfig) (w : W) (r : Result Balancer)
      → conf.lb_id ≡ ""
      → (look_up conf w).0 ≡ r
      → From conf w
          (found_or_new p lbaas cluster_name legacy_name service nodes conf r (look_up conf w).1)
  unfolding found_or_new
  found_or_new-From conf w (ok lb) no_id there =
      λ f h. from_result conf w _ f (by_name lb no_id there) h
  found_or_new-From conf w (err e) no_id missing =
      let u = (look_up conf w).1 in
      let create = create_for conf in
      let m = reworded (message "error creating loadbalancer") create in
      elim e
          as (λ k.
            (look_up conf w).0 ≡ err k
            → From conf w
                (found_or_new p lbaas cluster_name legacy_name service nodes conf (err k) u)) [
                  | not_found ↦ λ gone.
                      bind_rule (From conf w) m _ u
                        (λ new_one h f g.
                          from_result conf w _ f
                            (made_new new_one.0 new_one.1 no_id gone (
                              with_error-ok (message "error creating loadbalancer") (create u).0
                                new_one h))
                            g)
                        (λ k. refused-From conf w k (create u).1)
                  | _ ↦ λ other.
                      refused-From conf w (message "error getting loadbalancer for Service") u
                ]
        missing

  find_or_create-From :
      (conf : ServiceConfig) (w : W)
      → From conf w (find_or_create p lbaas cluster_name legacy_name service nodes conf w)
  unfolding find_or_create
  find_or_create-From conf w =
      if_rule (From conf w) (not (conf.lb_id == "")) _ _ w
        (λ given.
          by_id-From conf w (λ e. absurd (ground (arith, given, (eq_iff conf.lb_id "").1 e))))
        (λ none_given.
          found_or_new-From conf w (look_up conf w).0
            ((eq_iff conf.lb_id "").0 (ground (arith, none_given))) refl)

  abbrev IsUsed : ServiceConfig → W → Found → Type 0
  IsUsed conf start f = (f.lb.provisioning_status ≡ "ACTIVE") × Origin conf start f

  abbrev Used : ServiceConfig → W → Result (Found × String) × W → Type 0
  Used conf start o = (f : Found) (a : String) → o.0 ≡ ok (f, a) → IsUsed conf start f

  refused-Used : (conf : ServiceConfig) (start : W) (e : Error) (u : W) → Used conf start (err e, u)
  refused-Used conf start e u f a h = absurd (ground (arith, h))

  from_found :
      (conf : ServiceConfig) (start : W) (found : Found) (w : W)
      → Origin conf start found
      → Used conf start (after_found p lbaas cluster_name legacy_name service nodes found w)
  unfolding after_found
  from_found conf start found w origin =
      let active : Exec W Unit =
        if found.lb.provisioning_status == "ACTIVE"
        then pure tt
        else fail (message "load balancer is not ACTIVE") in
      let list = p.balancers.listeners_list found.lb.id in
      let populated = populate p lbaas cluster_name legacy_name service nodes found in
      let address =
        ensure_floating_ip p.balancers p.matching cluster_name service found.lb found.conf
          found.is_lb_owner in
      bind_rule (Used conf start) active _ w
        (λ t h.
          let is_active : found.lb.provisioning_status ≡ "ACTIVE" =
            ground (arith, h, eq_iff found.lb.provisioning_status "ACTIVE") in
          bind_rule (Used conf start) list _ (active w).1
            (λ current g.
              bind_rule (Used conf start) (populated current) _ (list (active w).1).1
                (λ u k.
                  bind_rule (Used conf start) address _ (populated current (list (active w).1).1).1
                    (λ a j f b i.
                      subst (IsUsed conf start) (ap (λ (q : Found × String). q.0) (ok-injective i))
                        (is_active, origin))
                    (λ e.
                      refused-Used conf start e
                        (address (populated current (list (active w).1).1).1).1))
                (λ e. refused-Used conf start e (populated current (list (active w).1).1).1))
            (λ e. refused-Used conf start e (list (active w).1).1))
        (λ e. refused-Used conf start e (active w).1)

  abbrev pub check_first : ServiceConfig → Exec W ServiceConfig
  check_first start = check_service p.lookups p.nets p.trim p.ip lbaas service nodes start

  abbrev pub named_conf : ServiceConfig → ServiceConfig
  named_conf checked = record checked { lb_name = get_load_balancer_name cluster_name service }

  -- the load balancer was ACTIVE when it was found or made, from the configuration that is checked
  abbrev pub IsPrepared : ServiceConfig → W → Found → Type 0
  IsPrepared start w f =
      (checked : ServiceConfig) × ((check_first start w).0 ≡ ok checked)
      × (f.lb.provisioning_status ≡ "ACTIVE")
      × Origin (named_conf checked) (check_first start w).1 f

  prepare-IsPrepared :
      (start : ServiceConfig) (w : W) (f : Found) (a : String)
      → (prepare p lbaas cluster_name legacy_name service nodes start w).0 ≡ ok (f, a)
      → IsPrepared start w f
  unfolding prepare
  prepare-IsPrepared start w =
      let Q : Result (Found × String) × W → Type 0 =
        λ o. (f : Found) (a : String) → o.0 ≡ ok (f, a) → IsPrepared start w f in
      bind_rule Q (check_first start) _ w
        (λ checked h.
          let conf = named_conf checked in
          let find = find_or_create p lbaas cluster_name legacy_name service nodes conf in
          let w1 = (check_first start w).1 in
          bind_rule Q find _ w1
            (λ found g f a k.
              let used =
                from_found conf w1 found (find w1).1 (find_or_create-From conf w1 found g) f a k in
              (checked, h, used.0, used.1))
            (λ e f a k. absurd (ground (arith, k))))
        (λ e f a k. absurd (ground (arith, k)))

  status-from :
      (r : Result (Found × String)) (w : W) (s : Ingress)
      → (finished p lbaas cluster_name legacy_name service nodes r w).0.0 ≡ some s
      → (f : Found) × (a : String) × (r ≡ ok (f, a))
  unfolding finished
  status-from (err e) w s h = absurd (ground (arith, h))
  status-from (ok (f, a)) w s h = (f, a, refl)

  -- An EnsureLoadBalancer that has a status to report has a load balancer that was ACTIVE and that,
  -- with the configuration that is checked, it looked up by the service's name, or made where there is
  -- none of that name, or read by its id. The service owns the one of an id if it has the service's
  -- name, and else may share it, which takes tags, an external service, and its tag there already or
  -- room for one more service.
  pub ensure_octavia_load_balancer-IsPrepared :
      (start : ServiceConfig) (w : W) (s : Ingress)
      → (ensure_octavia_load_balancer p lbaas cluster_name legacy_name service nodes start w).0.0
        ≡ some s
      → (f : Found) × (a : String) × ((prepare p lbaas cluster_name legacy_name service nodes start
            w).0
          ≡ ok (f, a))
        × IsPrepared start w f
  unfolding ensure_octavia_load_balancer
  ensure_octavia_load_balancer-IsPrepared start w s h =
      let prepared = prepare p lbaas cluster_name legacy_name service nodes start w in
      let r = status-from prepared.0 prepared.1 s h in
      (r.0, r.1, r.2, prepare-IsPrepared start w r.0 r.1 r.2)
