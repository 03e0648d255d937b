-- ===== src/Lb/BalancerTests.antt =====
-- The theorems on whole load balancers at concrete inputs.
use cloud_provider_openstack.Lb.UsedBalancer.{ensure_octavia_load_balancer-IsPrepared, IsPrepared}
use mathlib.Core.Bool.{false≢true}
use cloud_provider_openstack.Util.Basic.{contains}
use cloud_provider_openstack.Prelude.Maps.{find_entry}
use cloud_provider_openstack.Lb.KeptBalancers.{ensure_load_balancer_deleted_kept, IsInUse}
use cloud_provider_openstack.Lb.Features.{is_octavia_feature_supported, at_least}
use cloud_provider_openstack.Lb.EnsureDeleted.{ensure_load_balancer_deleted, delete_config}
use cloud_provider_openstack.Lb.DeletionLaws.{delete_octavia_listeners_own, Agrees, with_deletes}
use cloud_provider_openstack.Lb.Annotations.{
  get_string_from_service_annotation, check_service_delete,
}
use cloud_provider_openstack.Prelude.{
  refl, List, Option, ◌≡◌, ◌∷◌, [], true, String, false, ◌==◌, if◌then◌else◌, Bool, All, some, inl,
  arith, inr, eq_iff,
}
use cloud_provider_openstack.Lb.Sharing.{ensure_floating_ip_shared}
use cloud_provider_openstack.Lb.Samples.{
  test_conf, test_service, node_a, test_lbaas, test_octavia, test_listener,
}
use cloud_provider_openstack.Lb.FloatingIps.{ensure_floating_ip}
use cloud_provider_openstack.Lb.EnsureBalancer.{prepare, Found, ensure_octavia_load_balancer}
use cloud_provider_openstack.Lb.Deletion.{delete_octavia_listeners}
use cloud_provider_openstack.Lb.Balancers.{
  FloatingIpCreate, FloatingIp, find_balancer, get_load_balancer_name, cut_text,
}
use cloud_provider_openstack.Lb.BalancerSamples.{
  shared_balancer, own_name, test_balancers, test_parts, test_groups, test_group_ports,
  internal_service,
}
use cloud_provider_openstack.Lb.Api.{Listener, Pool, ServiceConfig, Service}
use cloud_provider_openstack.Go.{panicked, pure, ok, fail, Exec}

abbrev tagged_conf : ServiceConfig
tagged_conf = record test_conf { lb_name = own_name; support_lb_tags = true; internal = false }

abbrev no_create : FloatingIpCreate → Exec (List Pool) FloatingIp
no_create opts = fail panicked

abbrev no_update : String → Option String → Exec (List Pool) FloatingIp
no_update id port = fail panicked

ensure_floating_ip_shared_example :
    ensure_floating_ip
      (record test_balancers { floating_ip_create = no_create; floating_ip_update = no_update })
      test_parts.matching
      "k8s"
      test_service
      shared_balancer
      tagged_conf
      false
    ≡ ensure_floating_ip test_balancers test_parts.matching "k8s" test_service shared_balancer
        tagged_conf false
ensure_floating_ip_shared_example =
    ensure_floating_ip_shared test_balancers test_parts.matching "k8s" test_service shared_balancer
      tagged_conf no_create no_update

abbrev no_delete : String → Exec (List Pool) Unit
no_delete id = fail panicked

-- one listener of the service, and one of another
abbrev foreign_listener : Listener
foreign_listener = record test_listener {
  id = "listener-9";
  tags = "kube_service_k8s_default_api" ∷ [];
}

abbrev own_listener : Listener
own_listener = record test_listener { id = "listener-2"; tags = own_name ∷ [] }

abbrev own_only : String → Exec (List Pool) Unit
own_only id = if id == "listener-9" then fail panicked else pure tt

only_own :
    All
      (Agrees test_octavia 3 test_balancers "lb-1" own_only true own_name)
      (own_listener ∷ foreign_listener ∷ [])
unfolding contains
only_own = (λ h. refl, (λ h. absurd (false≢true h), tt))

delete_octavia_listeners_own_example :
    delete_octavia_listeners test_octavia 3
      (record test_balancers { listener_delete = own_only })
      "lb-1"
      (own_listener ∷ foreign_listener ∷ [])
      true
      own_name
    ≡ delete_octavia_listeners test_octavia 3 test_balancers "lb-1"
        (own_listener ∷ foreign_listener ∷ [])
        true
        own_name
delete_octavia_listeners_own_example =
    delete_octavia_listeners_own test_octavia 3 test_balancers "lb-1" own_only true own_name
      (own_listener ∷ foreign_listener ∷ []) only_own

abbrev no_balancer_delete : Bool → String → Exec (List Pool) Unit
no_balancer_delete cascade id = fail panicked

abbrev id_service : Service
id_service = record test_service {
  annotations = ("loadbalancer.openstack.org/load-balancer-id", "lb-1") ∷ [];
}

shared_found :
    (let conf = delete_config test_lbaas id_service "k8s" test_conf in
      find_balancer test_balancers conf.lb_id conf.lb_name "" []).0
    ≡ ok shared_balancer
unfolding delete_config find_balancer check_service_delete get_string_from_service_annotation
    find_entry
shared_found = refl

shared_is_kept : IsInUse (delete_config test_lbaas id_service "k8s" test_conf) shared_balancer
unfolding delete_config check_service_delete is_octavia_feature_supported at_least
    get_load_balancer_name cut_text
shared_is_kept = (
  refl,
  inr (
      inl (
        (λ h. absurd (
            ground
              (arith, (eq_iff "kube_service_k8s_default_api" "kube_service_k8s_default_web").1 h))),
        refl,
      )),
)

ensure_load_balancer_deleted_kept_example :
    ensure_load_balancer_deleted test_octavia 3
      (with_deletes test_octavia 3 test_balancers "lb-1" no_balancer_delete no_delete)
      test_groups
      test_group_ports
      test_lbaas
      id_service
      "k8s"
      ""
      test_conf
      []
    ≡ ensure_load_balancer_deleted test_octavia 3 test_balancers test_groups test_group_ports
        test_lbaas id_service "k8s" "" test_conf []
ensure_load_balancer_deleted_kept_example =
    ensure_load_balancer_deleted_kept test_octavia 3 test_balancers test_groups test_group_ports
      test_lbaas id_service no_balancer_delete no_delete "k8s" "" test_conf [] shared_balancer
      shared_found (inl shared_is_kept)

new_status :
    (ensure_octavia_load_balancer test_parts test_lbaas "k8s" "" internal_service
      ((node_a, []) ∷ [])
      test_conf
      []).0.0
    ≡ some (record { ip = "10.0.0.9"; hostname = "" })
unfolding ensure_octavia_load_balancer find_entry
new_status = refl

ensure_octavia_load_balancer-IsPrepared_example :
    (f : Found) × (a : String) × ((prepare test_parts test_lbaas "k8s" "" internal_service
        ((node_a, []) ∷ [])
        test_conf
        []).0
      ≡ ok (f, a))
    × IsPrepared test_parts test_lbaas "k8s" "" internal_service ((node_a, []) ∷ []) test_conf [] f
ensure_octavia_load_balancer-IsPrepared_example =
    ensure_octavia_load_balancer-IsPrepared test_parts test_lbaas "k8s" "" internal_service
      ((node_a, []) ∷ []) test_conf [] (record { ip = "10.0.0.9"; hostname = "" }) new_status
