-- ===== src/Lb/BalancerSamples.antt =====
-- Load balancers and requests for the tests. The world is the list of the pools.
use cloud_provider_openstack.Util.IpNet.{Networks}
use cloud_provider_openstack.Prelude.{some, List, ◌∷◌, [], String}
use cloud_provider_openstack.Lb.SecurityGroup.{Groups}
use cloud_provider_openstack.Lb.Samples.{test_ip, test_service, test_octavia, test_listener}
use cloud_provider_openstack.Lb.EnsureBalancer.{Parts}
use cloud_provider_openstack.Lb.Deletion.{GroupPorts}
use cloud_provider_openstack.Lb.CheckService.{Lookups}
use cloud_provider_openstack.Lb.Balancers.{Balancers, FloatingIp, Balancer}
use cloud_provider_openstack.Lb.Api.{Service, Pool}
use cloud_provider_openstack.Go.{pure, not_found, poll, fail}

abbrev pub own_name : String
own_name = "kube_service_k8s_default_web"

-- made by the cloud provider, and used by another service too
abbrev pub shared_balancer : Balancer
shared_balancer = record {
  id = "lb-1";
  name = own_name;
  provisioning_status = "ACTIVE";
  vip_port_id = "port-1";
  vip_address = "10.0.0.9";
  vip_subnet_id = "subnet-1";
  tags = own_name ∷ "kube_service_k8s_default_api" ∷ [];
}

abbrev pub test_fip : FloatingIp
test_fip = record { id = "fip-1"; address = "1.2.3.4"; description = "mine"; port_id = "port-1" }

abbrev pub test_balancers : Balancers (List Pool)
test_balancers = record {
  exponential_backoff = poll;
  balancers_named = λ name. pure [];
  balancer_create = λ opts. pure shared_balancer;
  balancer_get = λ id. pure shared_balancer;
  balancer_delete = λ cascade id. pure tt;
  balancer_tags = λ id tags. pure tt;
  listeners_list = λ id. pure (test_listener ∷ []);
  listener_delete = λ id. pure tt;
  floating_ips_of_port = λ id. pure (test_fip ∷ []);
  floating_ips_at = λ ip. pure [];
  floating_ip_create = λ opts. pure test_fip;
  floating_ip_update = λ id port. pure test_fip;
  floating_ip_delete = λ id. pure tt;
}

abbrev pub test_groups : Groups (List Pool)
test_groups = record {
  id_from_name = λ name. fail not_found;
  group_create = λ name description. pure "sg-1";
  subnet_cidr = λ id. pure "10.0.0.0/24";
  rules_list = λ id. pure [];
  rule_create = λ opts. pure tt;
  rule_delete = λ id. pure tt;
  ports_of_device = λ id. pure [];
  port_update = λ id groups. pure tt;
}

abbrev pub test_group_ports : GroupPorts (List Pool)
test_group_ports = record {
  ports_of_group = λ id. pure [];
  port_tag_delete = λ id tag. pure tt;
  group_delete = λ id. pure tt;
}

abbrev pub test_lookups : Lookups (List Pool)
test_lookups = record {
  networks = pure [];
  subnets_of = λ id. pure [];
  subnet_get = λ id. fail not_found;
  container_get = λ id. pure tt;
  attached_ports = λ id. pure [];
}

abbrev pub test_nets : Networks String
test_nets = record { text = λ n. n; parse_cidr = λ s. some s }

abbrev pub test_parts : Parts (List Pool) String
test_parts = record {
  octavia = test_octavia;
  balancers = test_balancers;
  groups = test_groups;
  group_ports = test_group_ports;
  lookups = test_lookups;
  matching = λ spec network. pure [];
  patch_service = λ annotations. pure tt;
  nets = test_nets;
  ip = test_ip;
  trim = λ s. s;
  lower = λ s. s;
  steps = 3;
}

-- asks for an internal load balancer in a subnet
abbrev pub internal_service : Service
internal_service = record test_service {
  annotations =
      ("service.beta.kubernetes.io/openstack-internal-load-balancer", "true")
      ∷ ("loadbalancer.openstack.org/subnet-id", "subnet-1")
      ∷ [];
}
