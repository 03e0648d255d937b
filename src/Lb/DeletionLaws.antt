-- ===== src/Lb/DeletionLaws.antt =====
-- What the deletion of load balancers in pkg/openstack/loadbalancer.go never asks for. That a request
-- is not made is said so: the outcome is the same, whatever the request would do.
use mathlib.Core.Path.{fun_ext}
use cloud_provider_openstack.Lb.EnsurePool.{current_pool}
use cloud_provider_openstack.Prelude.{
  ap, [], String, false, ℕ, refl, Bool, List, ◌∷◌, ◌≡◌, true, ◌∙◌, if◌then◌else◌, All,
}
use cloud_provider_openstack.Lb.Octavia.{Octavia, unless_missing, wait_active}
use cloud_provider_openstack.Lb.Deletion.{
  delete_listeners, delete_octavia_listeners, is_of_service, delete_load_balancer, drop_listener,
  monitor_ids, tagged_listeners, delete_monitors, delete_pool_if_any,
}
use cloud_provider_openstack.Lb.Balancers.{delete_listener, Balancers}
use cloud_provider_openstack.Lb.Api.{Service, ServiceConfig, Listener}
use cloud_provider_openstack.Go.{◌>>=◌, Exec, pure, reworded, message}

module _ {W : Type 0} (octavia : Octavia W) (steps : ℕ) (balancers : Balancers W)
    (lb_id : String) where
  module _ (delete : Bool → String → Exec W Unit) (release : String → Exec W Unit) where
    -- another answer to the requests to delete load balancers and floating IPs
    abbrev pub with_deletes : Balancers W
    with_deletes = record balancers { balancer_delete = delete; floating_ip_delete = release }

    delete_listeners_same :
        (ls : List Listener)
        → delete_listeners octavia steps with_deletes lb_id ls
          ≡ delete_listeners octavia steps balancers lb_id ls
    unfolding delete_listeners drop_listener delete_listener
    delete_listeners_same [] = refl
    delete_listeners_same (l ∷ ls) =
        ap (λ rest. drop_listener octavia steps balancers lb_id l >>= λ _. rest)
          (delete_listeners_same ls)

    pub delete_load_balancer_kept :
        (cascade : Bool) (service : Service) (conf : ServiceConfig)
        → delete_load_balancer octavia steps with_deletes lb_id cascade service conf false
          ≡ delete_load_balancer octavia steps balancers lb_id cascade service conf false
    unfolding delete_load_balancer
    delete_load_balancer_kept cascade service conf =
        ap
          (λ (delete_all : List Listener → Exec W Unit).
            reworded (message "error getting listeners") (balancers.listeners_list lb_id)
            >>= λ found.
                let listeners = tagged_listeners service.ports conf found in
                monitor_ids octavia steps lb_id listeners >>= λ ids.
                delete_monitors octavia steps lb_id ids >>= λ _.
                delete_all listeners >>= λ _. pure tt)
          (fun_ext delete_listeners_same)

  drop_listener_same :
      (delete : String → Exec W Unit) (l : Listener)
      → delete l.id ≡ balancers.listener_delete l.id
      → drop_listener octavia steps (record balancers { listener_delete = delete }) lb_id l
        ≡ drop_listener octavia steps balancers lb_id l
  unfolding drop_listener delete_listener
  drop_listener_same delete l same =
      ap
        (λ (m : Exec W Unit). current_pool octavia steps lb_id l.id >>= λ pool.
          delete_pool_if_any octavia steps lb_id pool >>= λ _ w.
          let (r, w') = m w in unless_missing octavia steps r (wait_active octavia steps lb_id) w')
        same

  -- the loop's body and its rest
  branch_same :
      (b : Bool) (x y r s : Exec W Unit)
      → (b ≡ true → x ≡ y)
      → r ≡ s
      → (if b then (x >>= λ _. r) else r) ≡ (if b then (y >>= λ _. s) else s)
  branch_same true x y r s h e = ap (λ m. m >>= λ _. r) (h refl) ∙ ap (λ k. y >>= λ _. k) e
  branch_same false x y r s h e = e

  -- the request is the same for the listener, if it is of the service
  abbrev pub Agrees : (String → Exec W Unit) → Bool → String → Listener → Type 0
  Agrees delete is_lb_owner lb_name l =
      is_of_service is_lb_owner lb_name l ≡ true → delete l.id ≡ balancers.listener_delete l.id

  -- Of the listeners that are left, those that ensureOctaviaLoadBalancer asks Octavia to delete are of
  -- the service: the outcome is the same whatever the request to delete would do for the others. The
  -- listeners of a service have its tag, or they have no tag and the service owns the load balancer.
  pub delete_octavia_listeners_own :
      (delete : String → Exec W Unit) (is_lb_owner : Bool) (lb_name : String) (ls : List Listener)
      → All (Agrees delete is_lb_owner lb_name) ls
      → delete_octavia_listeners octavia steps
          (record balancers { listener_delete = delete })
          lb_id
          ls
          is_lb_owner
          lb_name
        ≡ delete_octavia_listeners octavia steps balancers lb_id ls is_lb_owner lb_name
  unfolding delete_octavia_listeners
  delete_octavia_listeners_own delete is_lb_owner lb_name [] h = refl
  delete_octavia_listeners_own delete is_lb_owner lb_name (l ∷ ls) h =
      branch_same (is_of_service is_lb_owner lb_name l) _ _ _ _
        (λ own. drop_listener_same delete l (h.0 own))
        (delete_octavia_listeners_own delete is_lb_owner lb_name ls h.1)
