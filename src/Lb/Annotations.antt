-- ===== src/Lb/Annotations.antt =====
-- The getters of service annotations and of the ids of subnets and networks, checkServiceDelete,
-- checkListenerPorts and createLoadBalancerStatus of pkg/openstack/loadbalancer.go. Logging aside,
-- a getter is the annotation's value or the default.
use cloud_provider_openstack.Util.Basic.{contains}
use cloud_provider_openstack.Prelude.Strings.{concat}
use cloud_provider_openstack.Prelude.{
  Bool, not, ◌==◌, String, some, List, none, ◌&&◌, ◌∷◌, ◌||◌, ℕ, true, Option, [], false, eqb,
  if◌then◌else◌, length,
}
use cloud_provider_openstack.Lb.Listeners.{find_listener}
use cloud_provider_openstack.Prelude.Maps.{find_entry}
use cloud_provider_openstack.Lb.Features.{feature_tags, is_octavia_feature_supported}
use cloud_provider_openstack.Lb.Api.{ServiceConfig, Service, LbClass, Listener, Lbaas, ServicePort}
use cloud_provider_openstack.Go.{message, ok, err, Result}

abbrev pub annotation : Service → String → Option String
annotation service key = find_entry key service.annotations

unfoldable pub get_string_from_service_annotation : Service → String → String → String
get_string_from_service_annotation service key default_setting = elim (annotation service key) [
  | none ↦ default_setting
  | some v ↦ v
]

unfoldable pub get_bool_from_service_annotation : Service → String → Bool → Bool
get_bool_from_service_annotation service key default_setting = elim (annotation service key) [
  | none ↦ default_setting
  | some v ↦ if v == "true" then true else if v == "false" then false else default_setting
]

abbrev pub annotation_class : String
annotation_class = "loadbalancer.openstack.org/class"

abbrev pub annotation_member_subnet_id : String
annotation_member_subnet_id = "loadbalancer.openstack.org/member-subnet-id"

abbrev pub annotation_subnet_id : String
annotation_subnet_id = "loadbalancer.openstack.org/subnet-id"

abbrev pub annotation_network_id : String
annotation_network_id = "loadbalancer.openstack.org/network-id"

module _ (lbaas : Lbaas) (service : Service) where
  abbrev pub class_name : String
  class_name = get_string_from_service_annotation service annotation_class ""

  -- The three getters are one ladder: the annotation, the class that the service names, and the
  -- configuration. A class that is named and does not exist is an error.
  unfoldable pub configured_id : String → (LbClass → String) → String → Result String
  unfolding get_string_from_service_annotation
  configured_id key of_class from_opts =
      let annotated = get_string_from_service_annotation service key "" in
      if not (annotated == "")
      then ok annotated
      else if class_name == ""
      then ok from_opts
      else elim (find_entry class_name lbaas.lb_classes) [
        | none ↦ err (message "invalid loadbalancer class")
        | some lb_class ↦ if of_class lb_class == "" then ok from_opts else ok (of_class lb_class)
      ]

  unfoldable pub get_member_subnet_id : Result String
  unfolding configured_id
  get_member_subnet_id =
      configured_id annotation_member_subnet_id (λ c. c.member_subnet_id) lbaas.member_subnet_id

  unfoldable pub get_subnet_id : Result String
  unfolding configured_id
  get_subnet_id = configured_id annotation_subnet_id (λ c. c.subnet_id) lbaas.subnet_id

  unfoldable pub get_network_id : Result String
  unfolding configured_id
  get_network_id = configured_id annotation_network_id (λ c. c.network_id) lbaas.network_id

  unfoldable pub check_service_delete : ServiceConfig → ServiceConfig
  unfolding get_string_from_service_annotation get_bool_from_service_annotation
      is_octavia_feature_supported
  check_service_delete conf = record conf {
    lb_id =
        get_string_from_service_annotation service "loadbalancer.openstack.org/load-balancer-id" "";
    support_lb_tags = is_octavia_feature_supported lbaas feature_tags;
    keep_client_ip =
        get_bool_from_service_annotation service "loadbalancer.openstack.org/x-forwarded-for" false;
    enable_proxy_protocol =
        get_bool_from_service_annotation service "loadbalancer.openstack.org/proxy-protocol" false;
    tls_container_ref =
        get_string_from_service_annotation service
          "loadbalancer.openstack.org/default-tls-container-ref" lbaas.tls_container_ref;
  }

-- v1.LoadBalancerIngress
pub record Ingress : Type 0 where
  pub ip : String
  pub hostname : String

unfoldable pub create_load_balancer_status : Lbaas → Service → ServiceConfig → String → Ingress
unfolding get_string_from_service_annotation
create_load_balancer_status lbaas service conf addr =
    let hostname =
      get_string_from_service_annotation service "loadbalancer.openstack.org/hostname" "" in
    if not (hostname == "")
    then record { ip = ""; hostname = hostname }
    else if conf.enable_proxy_protocol && lbaas.enable_ingress_hostname
    then record { ip = ""; hostname = concat addr (concat "." lbaas.ingress_hostname_suffix) }
    else record { ip = addr; hostname = "" }

-- the listener at a port of the service is one of its own
abbrev pub is_own : Bool → String → Listener → Bool
is_own is_lb_owner lb_name listener =
    contains listener.tags lb_name || (eqb (length listener.tags) 0 && is_lb_owner)

-- the result is the port in conflict, if there is one; the key has the port's own protocol
unfoldable pub check_listener_ports : List ServicePort → List Listener → Bool → String → Option ℕ
unfolding find_listener
check_listener_ports [] current is_lb_owner lb_name = none
check_listener_ports (p ∷ ports) current is_lb_owner lb_name =
    let rest = check_listener_ports ports current is_lb_owner lb_name in
    elim (find_listener current p.protocol p.port) [
      | none ↦ rest
      | some listener ↦ if is_own is_lb_owner lb_name listener then rest else some p.port
    ]
