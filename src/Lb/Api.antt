-- ===== src/Lb/Api.antt =====
-- The data of pkg/openstack/loadbalancer.go: Kubernetes' services, Octavia's objects, and the
-- configuration of a service that the source works out first.
use cloud_provider_openstack.Prelude.Int.{ℤ}
use cloud_provider_openstack.Prelude.{Bool, List, Option, ℕ, String}

-- v1.ServicePort; a node port of 0 is none.
pub record ServicePort : Type 0 where
  pub protocol : String
  pub port : ℕ
  pub node_port : ℕ

-- v1.Service, as far as the source reads it
pub record Service : Type 0 where
  pub uid : String
  pub namespace : String
  pub name : String
  pub annotations : List (String × String)
  pub ports : List ServicePort
  pub ip_families : List String
  pub session_affinity : String
  pub external_traffic_policy : String
  pub health_check_node_port : ℕ
  pub source_ranges : List String
  pub load_balancer_ip : String

-- listeners.Listener of Octavia
pub record Listener : Type 0 where
  pub id : String
  pub protocol : String
  pub protocol_port : ℕ
  pub tags : List String
  pub conn_limit : ℤ
  pub insert_headers : List (String × String)
  pub default_tls_container_ref : String
  pub timeout_client_data : ℤ
  pub timeout_member_connect : ℤ
  pub timeout_member_data : ℤ
  pub timeout_tcp_inspect : ℤ
  pub allowed_cidrs : List String

-- listeners.CreateOpts; a pointer is an option.
pub record ListenerCreate : Type 0 where
  pub loadbalancer_id : String
  pub name : String
  pub protocol : String
  pub protocol_port : ℕ
  pub tags : List String
  pub conn_limit : Option ℤ
  pub insert_headers : List (String × String)
  pub default_tls_container_ref : String
  pub timeout_client_data : Option ℤ
  pub timeout_member_connect : Option ℤ
  pub timeout_member_data : Option ℤ
  pub timeout_tcp_inspect : Option ℤ
  pub allowed_cidrs : List String

-- listeners.UpdateOpts
pub record ListenerUpdate : Type 0 where
  pub tags : Option (List String)
  pub conn_limit : Option ℤ
  pub insert_headers : Option (List (String × String))
  pub default_tls_container_ref : Option String
  pub timeout_client_data : Option ℤ
  pub timeout_member_connect : Option ℤ
  pub timeout_member_data : Option ℤ
  pub timeout_tcp_inspect : Option ℤ
  pub allowed_cidrs : Option (List String)

-- pools.Pool, with the ids of its listeners
pub record Pool : Type 0 where
  pub id : String
  pub protocol : String
  pub monitor_id : String
  pub listeners : List String

-- pools.CreateOpts; the persistence is its type.
pub record PoolCreate : Type 0 where
  pub listener_id : String
  pub name : String
  pub protocol : String
  pub lb_method : String
  pub persistence : Option String

-- pools.Member
pub record Member : Type 0 where
  pub id : String
  pub name : String
  pub address : String
  pub protocol_port : ℕ
  pub monitor_port : ℕ

-- pools.BatchUpdateMemberOpts
pub record MemberUpdate : Type 0 where
  pub address : String
  pub protocol_port : ℕ
  pub name : String
  pub subnet_id : Option String
  pub monitor_port : Option ℕ

-- floatingSubnetSpec
pub record SubnetSpec : Type 0 where
  pub subnet_id : String
  pub subnet : String
  pub subnet_tags : String

-- serviceConfig
pub record ServiceConfig : Type 0 where
  pub internal : Bool
  pub conn_limit : ℤ
  pub config_class_name : String
  pub lb_network_id : String
  pub lb_subnet_id : String
  pub lb_member_subnet_id : String
  pub lb_public_network_id : String
  pub lb_public_subnet_spec : Option SubnetSpec
  pub keep_client_ip : Bool
  pub enable_proxy_protocol : Bool
  pub timeout_client_data : ℤ
  pub timeout_member_connect : ℤ
  pub timeout_member_data : ℤ
  pub timeout_tcp_inspect : ℤ
  pub allowed_cidr : List String
  pub enable_monitor : Bool
  pub flavor_id : String
  pub availability_zone : String
  pub tls_container_ref : String
  pub lb_id : String
  pub lb_name : String
  pub support_lb_tags : Bool
  pub health_check_node_port : ℕ
  pub health_monitor_delay : ℤ
  pub health_monitor_timeout : ℤ
  pub health_monitor_max_retries : ℤ
  pub preferred_ip_family : String

-- LBClass of pkg/openstack/openstack.go
pub record LbClass : Type 0 where
  pub floating_network_id : String
  pub floating_subnet_id : String
  pub floating_subnet : String
  pub floating_subnet_tags : String
  pub network_id : String
  pub subnet_id : String
  pub member_subnet_id : String

-- LoadBalancerOpts of pkg/openstack/openstack.go, and what Octavia says of its version: the last
-- version that it lists, `none` where the request fails.
pub record Lbaas : Type 0 where
  pub octavia_version : Option (ℕ × ℕ)
  pub subnet_id : String
  pub member_subnet_id : String
  pub network_id : String
  pub floating_network_id : String
  pub floating_subnet_id : String
  pub floating_subnet : String
  pub floating_subnet_tags : String
  pub lb_classes : List (String × LbClass)
  pub lb_method : String
  pub lb_provider : String
  pub create_monitor : Bool
  pub monitor_delay : ℤ
  pub monitor_timeout : ℤ
  pub monitor_max_retries : ℤ
  pub manage_security_groups : Bool
  pub internal_lb : Bool
  pub flavor_id : String
  pub availability_zone : String
  pub enable_ingress_hostname : Bool
  pub ingress_hostname_suffix : String
  pub container_store : String
  pub provider_requires_serial_api_calls : Bool
  pub cascade_delete : Bool
  pub max_shared_lb : ℕ
  pub tls_container_ref : String
  pub has_secret_client : Bool
