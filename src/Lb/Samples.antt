-- ===== src/Lb/Samples.antt =====
-- A concrete service and its configuration, nodes, and an Octavia that holds a few pools.
use cloud_provider_openstack.Routes.Api.{Node, IpParser}
use cloud_provider_openstack.Prelude.Int.{pos, negsuc}
use cloud_provider_openstack.Prelude.{
  some, ◌==◌, [], List, none, true, false, ◌∷◌, if◌then◌else◌, Option, Bool, String,
}
use cloud_provider_openstack.Lb.Octavia.{Octavia, Monitor}
use cloud_provider_openstack.Lb.Api.{
  PoolCreate, Lbaas, ServiceConfig, Pool, ServicePort, Member, Listener, Service,
}
use cloud_provider_openstack.Go.{ok, pure, message, fail}

abbrev pub test_lbaas : Lbaas
test_lbaas = record {
  octavia_version = some (2, 13);
  subnet_id = "";
  member_subnet_id = "";
  network_id = "";
  floating_network_id = "public";
  floating_subnet_id = "";
  floating_subnet = "";
  floating_subnet_tags = "";
  lb_classes = [];
  lb_method = "ROUND_ROBIN";
  lb_provider = "amphora";
  create_monitor = true;
  monitor_delay = pos 5;
  monitor_timeout = pos 3;
  monitor_max_retries = pos 1;
  manage_security_groups = false;
  internal_lb = false;
  flavor_id = "";
  availability_zone = "";
  enable_ingress_hostname = false;
  ingress_hostname_suffix = "nip.io";
  container_store = "barbican";
  provider_requires_serial_api_calls = false;
  cascade_delete = true;
  max_shared_lb = 2;
  tls_container_ref = "";
  has_secret_client = false;
}

abbrev pub test_conf : ServiceConfig
test_conf = record {
  internal = false;
  conn_limit = negsuc 0;
  config_class_name = "";
  lb_network_id = "";
  lb_subnet_id = "private";
  lb_member_subnet_id = "private";
  lb_public_network_id = "public";
  lb_public_subnet_spec = none;
  keep_client_ip = true;
  enable_proxy_protocol = false;
  timeout_client_data = pos 50000;
  timeout_member_connect = pos 5000;
  timeout_member_data = pos 50000;
  timeout_tcp_inspect = pos 0;
  allowed_cidr = "10.0.0.0/8" ∷ [];
  enable_monitor = true;
  flavor_id = "";
  availability_zone = "";
  tls_container_ref = "";
  lb_id = "";
  lb_name = "kube_service_a";
  support_lb_tags = true;
  health_check_node_port = 0;
  health_monitor_delay = pos 5;
  health_monitor_timeout = pos 3;
  health_monitor_max_retries = pos 1;
  preferred_ip_family = "IPv4";
}

abbrev pub test_listener : Listener
test_listener = record {
  id = "listener-1";
  protocol = "HTTP";
  protocol_port = 80;
  tags = "kube_service_b" ∷ [];
  conn_limit = pos 100;
  insert_headers = [];
  default_tls_container_ref = "";
  timeout_client_data = pos 50000;
  timeout_member_connect = pos 1;
  timeout_member_data = pos 50000;
  timeout_tcp_inspect = pos 0;
  allowed_cidrs = [];
}

abbrev pub web : ServicePort
web = record { protocol = "TCP"; port = 80; node_port = 30080 }

abbrev pub test_service : Service
test_service = record {
  uid = "uid";
  namespace = "default";
  name = "web";
  annotations = [];
  ports = web ∷ [];
  ip_families = "IPv4" ∷ [];
  session_affinity = "ClientIP";
  external_traffic_policy = "Cluster";
  health_check_node_port = 0;
  source_ranges = [];
  load_balancer_ip = "";
}

abbrev family_of : String → Option Bool
family_of s = if s == "fd00::1" then some true else if s == "10.0.0.5" then some false else none

abbrev pub test_ip : IpParser
test_ip = record {
  parse_ip = family_of;
  cidr_is_v6 = λ s. false;
  sloppy_ip = family_of;
  is_ipv6_cidr_string = λ s. false;
}

abbrev pub node_a : Node
node_a = record {
  name = "node-a";
  addresses =
      record { kind = "InternalIP"; address = "fd00::1" }
      ∷ record { kind = "InternalIP"; address = "10.0.0.5" }
      ∷ [];
}

abbrev pub bare_node : Node
bare_node = record { name = "node-b"; addresses = [] }

abbrev pub test_pool : Pool
test_pool = record {
  id = "pool-1";
  protocol = "TCP";
  monitor_id = "";
  listeners = "listener-1" ∷ [];
}

abbrev pub test_member : Member
test_member = record {
  id = "member-1";
  name = "node-a";
  address = "10.0.0.5";
  protocol_port = 30080;
  monitor_port = 0;
}

abbrev pub created_pool : PoolCreate → Pool
created_pool opts = record {
  id = "pool-2";
  protocol = opts.protocol;
  monitor_id = "";
  listeners = opts.listener_id ∷ [];
}

abbrev pub test_monitor : Monitor
test_monitor = record {
  id = "monitor-1";
  kind = "TCP";
  delay = pos 5;
  timeout = pos 3;
  max_retries = pos 1;
}

-- the world is the list of the pools
abbrev pub test_octavia : Octavia (List Pool)
test_octavia = record {
  status_of = λ id. pure "ACTIVE";
  listeners_create = λ opts. pure test_listener;
  listeners_update = λ id opts. pure tt;
  pools_list = λ id w. (ok w, w);
  pools_create = λ opts w. (ok (created_pool opts), created_pool opts ∷ w);
  pools_delete = λ id w. (ok tt, []);
  members_list = λ id. pure (test_member ∷ []);
  members_update = λ id members. fail (message "not expected");
  member_create = λ id opts. pure tt;
  member_delete = λ id member. pure tt;
  monitor_get = λ id. pure test_monitor;
  monitor_create = λ opts. pure test_monitor;
  monitor_update = λ id opts. if id == "" then fail (message "resource not found") else pure tt;
  monitor_delete = λ id. pure tt;
}
