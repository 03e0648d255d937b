-- ===== src/Lb/KeptBalancers.antt =====
-- ensureLoadBalancerDeleted of pkg/openstack/loadbalancer.go on load balancers that are kept
use cloud_provider_openstack.Prelude.Strings.{has_prefix, codes}
use cloud_provider_openstack.Prelude.{
  Bool, not, ◌≡◌, String, false, ℕ, ◌==◌, ap, ◌&&◌, if◌then◌else◌, refl, ◌∙◌, ◌⊎◌, ◌≢◌, [], ◌∷◌,
  inr, List, arith, true, eq_iff, inl, Some, any,
}
use cloud_provider_openstack.Lb.SecurityGroup.{Groups}
use cloud_provider_openstack.Lb.Octavia.{Octavia}
use cloud_provider_openstack.Lb.EnsureDeleted.{
  delete_config, drop_tag, delete_found, ensure_load_balancer_deleted, needs_deletion,
  delete_if_found,
}
use cloud_provider_openstack.Lb.DeletionLaws.{delete_load_balancer_kept, with_deletes}
use cloud_provider_openstack.Lb.Deletion.{GroupPorts, ensure_security_group_deleted}
use cloud_provider_openstack.Lb.Balancers.{
  get_loadbalancer_by_name, find_balancer, Balancer, update_load_balancer_tags, Balancers,
  by_name_or_legacy, is_service_tag,
}
use cloud_provider_openstack.Lb.Api.{Lbaas, Service, ServiceConfig}
use cloud_provider_openstack.Go.{message, pure, ◌>>=◌, fail, Exec, ok, Result}

-- Why a load balancer outlives a service: it is used by another service, or was not made by the
-- cloud provider.
abbrev pub IsInUse : ServiceConfig → Balancer → Type 0
IsInUse conf lb =
    (conf.support_lb_tags ≡ true)
    × Some (λ tag. (tag ≢ conf.lb_name) × (is_service_tag tag ≡ true)) lb.tags

in_use_any :
    (p : String → Bool) (name : String) (tags : List String)
    → Some (λ tag. (tag ≢ name) × (p tag ≡ true)) tags
    → any (λ tag. not (tag == name) && p tag) tags ≡ true
in_use_any p name [] h = absurd h
in_use_any p name (t ∷ tags) (inl (other, tagged)) = ground (arith, eq_iff t name, other, tagged)
in_use_any p name (t ∷ tags) (inr h) = ground (arith, in_use_any p name tags h)

all_false : (a b c : Bool) → (a ≡ true) × (b ≡ true) → (not (a && b) && c) ≡ false
all_false a b c h = ground (arith, h)

last_false : (a b : Bool) → b ≡ false → (a && b) ≡ false
last_false a b h = ground (arith, h)

needs_deletion-kept :
    (conf : ServiceConfig) (lb : Balancer)
    → IsInUse conf lb ⊎ (has_prefix (codes lb.name) (codes "kube_service_") ≡ false)
    → needs_deletion conf lb ≡ false
unfolding needs_deletion
needs_deletion-kept conf lb (inl (supported, others)) =
    all_false conf.support_lb_tags
      (any (λ tag. not (tag == conf.lb_name) && is_service_tag tag) lb.tags)
      (has_prefix (codes lb.name) (codes "kube_service_"))
      (supported, in_use_any is_service_tag conf.lb_name lb.tags others)
needs_deletion-kept conf lb (inr foreign) =
    last_false
      (not (
        conf.support_lb_tags
        && any (λ tag. not (tag == conf.lb_name) && is_service_tag tag) lb.tags))
      (has_prefix (codes lb.name) (codes "kube_service_")) foreign

module _ {W : Type 0} (octavia : Octavia W) (steps : ℕ) (balancers : Balancers W)
    (groups : Groups W) (ports : GroupPorts W) (lbaas : Lbaas) (service : Service) where
  module _ (delete : Bool → String → Exec W Unit) (release : String → Exec W Unit) where
    delete_found_kept :
        (conf : ServiceConfig) (lb : Balancer)
        → needs_deletion conf lb ≡ false
        → delete_found octavia steps
            (with_deletes octavia steps balancers lb.id delete release)
            groups
            ports
            lbaas
            service
            conf
            lb
          ≡ delete_found octavia steps balancers groups ports lbaas service conf lb
    unfolding delete_found drop_tag update_load_balancer_tags
    delete_found_kept conf lb kept = rw kept (
        ap
          (λ (m : Exec W Unit).
            if not (lb.provisioning_status == "ACTIVE") && not (lb.provisioning_status == "ERROR")
            then fail (message "load balancer is in immutable status")
            else pure tt >>= λ _. m >>= λ _.
                drop_tag octavia steps balancers groups ports lbaas service conf lb >>= λ _.
                ensure_security_group_deleted groups ports service)
          (delete_load_balancer_kept octavia steps balancers lb.id delete release
            lbaas.cascade_delete service conf))

    find_balancer_same :
        (lb_id id name legacy_name : String)
        → find_balancer
            (with_deletes octavia steps balancers lb_id delete release)
            id
            name
            legacy_name
          ≡ find_balancer balancers id name legacy_name
    unfolding find_balancer get_loadbalancer_by_name by_name_or_legacy
    find_balancer_same lb_id id name legacy_name = refl

    after_find :
        (conf : ServiceConfig) (lb : Balancer) (o : Result Balancer × W)
        → o.0 ≡ ok lb
        → needs_deletion conf lb ≡ false
        → delete_if_found octavia steps
            (with_deletes octavia steps balancers lb.id delete release)
            groups
            ports
            lbaas
            service
            conf
            o.0
            o.1
          ≡ delete_if_found octavia steps balancers groups ports lbaas service conf o.0 o.1
    after_find conf lb o found kept =
        rw found (ap (λ (m : Exec W Unit). m o.1) (delete_found_kept conf lb kept))

    -- Where Octavia has tags, a load balancer with the tag of another service is not deleted with the
    -- service, nor is its floating IP; the same holds, with or without tags, of a load balancer whose
    -- name the cloud provider does not give. Whatever the requests to delete them would do,
    -- ensureLoadBalancerDeleted has the same outcome.
    pub ensure_load_balancer_deleted_kept :
        (cluster_name legacy_name : String) (start : ServiceConfig) (w : W) (lb : Balancer)
        → let conf = delete_config lbaas service cluster_name start in
          (find_balancer balancers conf.lb_id conf.lb_name legacy_name w).0 ≡ ok lb
          → IsInUse conf lb ⊎ (has_prefix (codes lb.name) (codes "kube_service_") ≡ false)
          → ensure_load_balancer_deleted octavia steps
              (with_deletes octavia steps balancers lb.id delete release)
              groups
              ports
              lbaas
              service
              cluster_name
              legacy_name
              start
              w
            ≡ ensure_load_balancer_deleted octavia steps balancers groups ports lbaas service
                cluster_name legacy_name start w
    unfolding ensure_load_balancer_deleted
    ensure_load_balancer_deleted_kept cluster_name legacy_name start w lb found in_use =
        let conf = delete_config lbaas service cluster_name start in
        let kept = needs_deletion-kept conf lb in_use in
        let changed = with_deletes octavia steps balancers lb.id delete release in
        ap
          (λ (find : Exec W Balancer).
            delete_if_found octavia steps changed groups ports lbaas service conf (find w).0
              (find w).1)
          (find_balancer_same lb.id conf.lb_id conf.lb_name legacy_name)
        ∙ after_find conf lb (find_balancer balancers conf.lb_id conf.lb_name legacy_name w) found
            kept
