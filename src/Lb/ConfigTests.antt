-- ===== src/Lb/ConfigTests.antt =====
-- The theorems on monitors, annotations and tags at concrete inputs.
use cloud_provider_openstack.Lb.Octavia.{Monitor, MonitorCreate}
use cloud_provider_openstack.Lb.CheckUpdate.{annotation_x_forwarded_for, atoi}
use cloud_provider_openstack.Lb.SubnetOfNode.{
  FixedIp, get_subnet_id_for_lb, get_subnet_id_for_lb-any_instance,
}
use cloud_provider_openstack.Instances.ProviderId.{scheme, contains_text}
use cloud_provider_openstack.Lb.Annotations.{
  get_string_from_service_annotation, get_subnet_id, annotation_class, annotation_member_subnet_id,
}
use cloud_provider_openstack.Prelude.Strings.{split, Text, trim_space, codes, text_eq}
use cloud_provider_openstack.Prelude.Int.{pos, negsuc}
use cloud_provider_openstack.Prelude.{
  ◌==◌, [], ◌≡◌, ap, List, none, refl, false, ◌∷◌, if◌then◌else◌, ◌++◌, some,
}
use cloud_provider_openstack.Lb.Tags.{tag_list}
use cloud_provider_openstack.Lb.Samples.{
  test_service, test_lbaas, web, test_monitor, test_conf, test_octavia, test_ip, node_a,
}
use cloud_provider_openstack.Lb.Pools.{can_use_http_monitor}
use cloud_provider_openstack.Lb.Monitors.{
  build_monitor_create_opts, ensure_octavia_health_monitor-lost, ensure_octavia_health_monitor,
  wanted_tuning, delete_health_monitor,
}
use cloud_provider_openstack.Prelude.Maps.{find_entry}
use cloud_provider_openstack.Lb.Api.{Lbaas, ServiceConfig, Pool, LbClass, ServicePort, Service}
use cloud_provider_openstack.Go.{ok, err, is_ok, pure, not_found, Exec}

abbrev monitored_pool : Pool
monitored_pool = record {
  id = "pool-1";
  protocol = "TCP";
  monitor_id = "monitor-1";
  listeners = "listener-1" ∷ [];
}

tcp_kind : (build_monitor_create_opts test_lbaas test_conf web).kind ≡ "TCP"
unfolding build_monitor_create_opts can_use_http_monitor
tcp_kind = refl

-- a service of UDP ports with another delay
abbrev dns : ServicePort
dns = record { protocol = "UDP"; port = 53; node_port = 30053 }

abbrev slower : ServiceConfig
slower = record test_conf { health_monitor_delay = pos 30 }

udp_kind : (build_monitor_create_opts test_lbaas slower dns).kind ≡ "UDP-CONNECT"
unfolding build_monitor_create_opts can_use_http_monitor
udp_kind = refl

monitor_deleted : (delete_health_monitor test_octavia 3 "lb" monitored_pool.monitor_id []).0 ≡ ok tt
unfolding delete_health_monitor
monitor_deleted = refl

ensure_octavia_health_monitor-lost_example :
    let deletion = delete_health_monitor test_octavia 3 "lb" monitored_pool.monitor_id [] in
    (is_ok
        (ensure_octavia_health_monitor test_octavia 3 "lb" test_lbaas slower dns "monitor_0"
          monitored_pool []).0
      ≡ false)
    × ((ensure_octavia_health_monitor test_octavia 3 "lb" test_lbaas slower dns "monitor_0"
          monitored_pool []).1
        ≡ (test_octavia.monitor_update ""
            (wanted_tuning test_octavia 3 "lb" test_lbaas slower dns)
            deletion.1).1)
    × ((create : MonitorCreate → Exec (List Pool) Monitor)
        → ensure_octavia_health_monitor
            (record test_octavia { monitor_create = create })
            3
            "lb"
            test_lbaas
            slower
            dns
            "monitor_0"
            monitored_pool
            []
          ≡ ensure_octavia_health_monitor test_octavia 3 "lb" test_lbaas slower dns "monitor_0"
              monitored_pool [])
ensure_octavia_health_monitor-lost_example =
    ensure_octavia_health_monitor-lost test_octavia 3 "lb" test_lbaas slower dns "monitor_0"
      monitored_pool test_monitor [] (λ opts u. refl) refl refl (ap (λ k. k == "TCP") udp_kind) refl
      monitor_deleted

abbrev gold : LbClass
gold = record {
  floating_network_id = "";
  floating_subnet_id = "";
  floating_subnet = "";
  floating_subnet_tags = "";
  network_id = "";
  subnet_id = "gold-subnet";
  member_subnet_id = "";
}

abbrev gold_lbaas : Lbaas
gold_lbaas = record test_lbaas { lb_classes = ("gold", gold) ∷ []; subnet_id = "default-subnet" }

abbrev gold_service : Service
gold_service = record test_service { annotations = (annotation_class, "gold") ∷ [] }

gold_subnet : get_subnet_id gold_lbaas gold_service ≡ ok "gold-subnet"
unfolding get_subnet_id get_string_from_service_annotation find_entry
gold_subnet = refl

-- "!&a, b"
abbrev not_both : Text
not_both = b'!' ∷ b'&' ∷ b'a' ∷ b',' ∷ b' ' ∷ b'b' ∷ []

abbrev only_a : List Text
only_a = (b'a' ∷ []) ∷ []

not_both_list : (tag_list not_both).list ≡ (b'a' ∷ []) ∷ (b'b' ∷ []) ∷ []
unfolding tag_list split trim_space
not_both_list = refl

-- the ports of the device "7f3a" alone
abbrev device_ports : Text → Exec (List Pool) (List (List FixedIp))
device_ports device = pure (
    if text_eq device (codes "7f3a")
    then (record { ip_address = "10.0.0.5"; subnet_id = "subnet-1" } ∷ []) ∷ []
    else [])

get_subnet_id_for_lb-any_instance_example :
    get_subnet_id_for_lb device_ports test_ip node_a
      (scheme ++ codes "east" ++ b'/' ∷ codes "7f3a")
      "IPv4"
      []
    ≡ get_subnet_id_for_lb device_ports test_ip node_a
        (scheme ++ codes "east" ++ b'/' ∷ codes "9b20")
        "IPv4"
        []
get_subnet_id_for_lb-any_instance_example =
    get_subnet_id_for_lb-any_instance device_ports test_ip node_a "IPv4" (codes "east") b'7' b'9'
      (codes "f3a") (codes "b20") [] refl refl refl

-- the ports of the instance are not found
not_asked_for :
    get_subnet_id_for_lb device_ports test_ip node_a
      (scheme ++ codes "east" ++ b'/' ∷ codes "7f3a")
      "IPv4"
      []
    ≡ (err not_found, [])
unfolding get_subnet_id_for_lb contains_text split text_eq
not_asked_for = refl

abbrev both_flags : Service
both_flags = record test_service {
  annotations =
      (annotation_x_forwarded_for, "true") ∷ (annotation_member_subnet_id, "members") ∷ [];
}

-- 65536 and -12 are read, "12s" is not
atoi_runs :
    (atoi (codes "65536") ≡ some (pos 65536))
    × (atoi (codes "-12") ≡ some (negsuc 11))
    × (atoi (codes "12s") ≡ none)
unfolding atoi
atoi_runs = (refl, refl, refl)
