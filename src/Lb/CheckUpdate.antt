-- ===== src/Lb/CheckUpdate.antt =====
-- getIntFromServiceAnnotation and checkServiceUpdate of pkg/openstack/loadbalancer.go. A node comes
-- with its provider id; the seconds of the durations are fields of `Lbaas`.
use cloud_provider_openstack.Routes.Api.{Node, IpParser}
use cloud_provider_openstack.Prelude.Strings.{Text, codes}
use cloud_provider_openstack.Prelude.Int.{negsuc, pos, ℤ}
use cloud_provider_openstack.Prelude.{
  ◌*◌, inr, ◌==◌, arith, ℕ, ◌^◌, not, some, ◌+◌, [], suc, true, false, String, ◌≡◌, none, ◌∷◌, Bool,
  refl, zero, Option, List, ◌-◌, inl, ◌&&◌, ltb, if◌then◌else◌, eqb, Bool-cases, leb, length,
}
use cloud_provider_openstack.Lb.SubnetOfNode.{FixedIp, get_subnet_id_for_lb}
use cloud_provider_openstack.Lb.Listeners.{only_if}
use cloud_provider_openstack.Prelude.Maps.{find_entry}
use cloud_provider_openstack.Lb.Features.{is_octavia_feature_supported, feature_tags}
use cloud_provider_openstack.Lb.Api.{Lbaas, Service, ServiceConfig}
use cloud_provider_openstack.Lb.Annotations.{
  get_string_from_service_annotation, class_name, get_member_subnet_id, annotation_subnet_id,
  annotation, get_bool_from_service_annotation,
}
use cloud_provider_openstack.Go.{◌>>=◌, fail, Result, ok, Exec, pure, message, err, bind_rule}

-- the digits after a number
unfoldable pub digits_value : Text → ℕ → Option ℕ
digits_value [] n = some n
digits_value (c ∷ s) n =
    let rest = digits_value s (n * 10 + (c - 48)) in if leb 48 c && leb c 57 then rest else none

abbrev pub digits : Text → Option ℕ
digits [] = none
digits (c ∷ s) = digits_value (c ∷ s) 0

abbrev pub negated : ℕ → ℤ
negated zero = pos 0
negated (suc n) = negsuc n

-- strconv.Atoi for an int of 64 bits
abbrev pub with_sign : Bool → Option ℕ → Option ℤ
with_sign minus none = none
with_sign true (some n) = only_if (leb n (2 ^ 63)) (negated n)
with_sign false (some n) = only_if (ltb n (2 ^ 63)) (pos n)

unfoldable pub atoi : Text → Option ℤ
unfolding digits_value
atoi [] = none
atoi (c ∷ s) =
    if eqb c b'-'
    then with_sign true (digits s)
    else if eqb c b'+'
    then with_sign false (digits s)
    else with_sign false (digits (c ∷ s))

unfoldable pub get_int_from_service_annotation : Service → String → ℤ → ℤ
unfolding atoi
get_int_from_service_annotation service key default_setting = elim (annotation service key) [
  | none ↦ default_setting
  | some v ↦ elim (atoi (codes v)) [ none ↦ default_setting | some n ↦ n ]
]

abbrev pub annotation_x_forwarded_for : String
annotation_x_forwarded_for = "loadbalancer.openstack.org/x-forwarded-for"

abbrev pub annotation_proxy_enabled : String
annotation_proxy_enabled = "loadbalancer.openstack.org/proxy-protocol"

abbrev pub family_or : List String → String → String
family_or [] family = family
family_or (f ∷ fs) family = f

-- the health check's port, where the monitor and the traffic policy ask for it
abbrev pub health_port : Service → Bool → ℕ → ℕ
health_port service enabled before =
    if enabled
      && (service.external_traffic_policy == "Local" && ltb 0 service.health_check_node_port)
    then service.health_check_node_port
    else before

-- an error, or a configuration that passes
abbrev pub passes : (ServiceConfig → Bool) → Result ServiceConfig → Bool
passes p (err e) = true
passes p (ok conf) = p conf

module _ {W : Type 0} (attached_ports : Text → Exec W (List (List FixedIp))) (ip : IpParser)
    (lbaas : Lbaas) (service : Service) (nodes : List (Node × Text)) where
  abbrev pub subnet_of_first : List (Node × Text) → String → String → Exec W String
  subnet_of_first [] family subnet = pure subnet
  subnet_of_first ((node, provider_id) ∷ others) family subnet =
      if subnet == ""
      then get_subnet_id_for_lb attached_ports ip node provider_id family
      else pure subnet

  -- the last branch for the members' subnet: the class of the service, or the first node
  unfoldable pub class_or_node_subnet : ServiceConfig → Exec W ServiceConfig
  unfolding get_string_from_service_annotation get_subnet_id_for_lb
  class_or_node_subnet conf =
      let name = class_name lbaas service in
      let named = record conf { config_class_name = name } in
      if name == ""
      then (subnet_of_first nodes conf.preferred_ip_family
            (get_string_from_service_annotation service annotation_subnet_id lbaas.subnet_id)
          >>= λ subnet. pure (record named { lb_member_subnet_id = subnet }))
      else elim (find_entry name lbaas.lb_classes) [
        | none ↦ fail (message "invalid loadbalancer class")
        | some c ↦
            if c.subnet_id == ""
            then pure named
            else pure (record named { lb_member_subnet_id = c.subnet_id })
      ]

  abbrev pub member_subnet_from : Result String → ServiceConfig → Exec W ServiceConfig
  member_subnet_from (err e) conf = fail e
  member_subnet_from (ok id) conf =
      if not (id == "")
      then pure (record conf { lb_member_subnet_id = id })
      else if not (lbaas.subnet_id == "")
      then pure (record conf { lb_member_subnet_id = lbaas.subnet_id })
      else class_or_node_subnet conf

  abbrev pub keeps_client : Bool
  keeps_client = get_bool_from_service_annotation service annotation_x_forwarded_for false

  abbrev pub uses_proxy : Bool
  uses_proxy = get_bool_from_service_annotation service annotation_proxy_enabled false

  -- the rest of the function, from the flags on
  unfoldable pub update_flags : ServiceConfig → Exec W ServiceConfig
  unfolding get_bool_from_service_annotation get_string_from_service_annotation
      get_int_from_service_annotation
  update_flags conf =
      let enabled =
        get_bool_from_service_annotation service "loadbalancer.openstack.org/enable-health-monitor"
          lbaas.create_monitor in
      if uses_proxy && keeps_client
      then fail (message "annotations cannot be used together")
      else pure (record conf {
        keep_client_ip = keeps_client;
        enable_proxy_protocol = uses_proxy;
        tls_container_ref =
            get_string_from_service_annotation service
              "loadbalancer.openstack.org/default-tls-container-ref" lbaas.tls_container_ref;
        enable_monitor = enabled;
        health_check_node_port = health_port service enabled conf.health_check_node_port;
        health_monitor_delay =
            get_int_from_service_annotation service
              "loadbalancer.openstack.org/health-monitor-delay" lbaas.monitor_delay;
        health_monitor_timeout =
            get_int_from_service_annotation service
              "loadbalancer.openstack.org/health-monitor-timeout" lbaas.monitor_timeout;
        health_monitor_max_retries =
            get_int_from_service_annotation service
              "loadbalancer.openstack.org/health-monitor-max-retries" lbaas.monitor_max_retries;
      })

  -- what is set before the members' subnet is looked for
  unfoldable pub update_start : ServiceConfig → ServiceConfig
  unfolding is_octavia_feature_supported get_string_from_service_annotation
  update_start conf = record conf {
    preferred_ip_family = family_or service.ip_families conf.preferred_ip_family;
    lb_id =
        get_string_from_service_annotation service "loadbalancer.openstack.org/load-balancer-id" "";
    support_lb_tags = is_octavia_feature_supported lbaas feature_tags;
  }

  unfoldable pub check_service_update : ServiceConfig → Exec W ServiceConfig
  unfolding update_start update_flags class_or_node_subnet get_member_subnet_id
  check_service_update conf =
      if eqb (length service.ports) 0
      then fail (message "no ports provided to openstack load balancer")
      else member_subnet_from (get_member_subnet_id lbaas service) (update_start conf)
        >>= update_flags

  update_flags_sound :
      (conf : ServiceConfig) (u : W)
      → passes (λ c. not (c.keep_client_ip && c.enable_proxy_protocol)) (update_flags conf u).0
        ≡ true
  unfolding update_flags
  update_flags_sound conf u = elim (Bool-cases (uses_proxy && keeps_client)) [
    | inl both ↦ rw both refl
    | inr apart ↦ rw apart (ground (arith, apart))
  ]

  -- A configuration that the check accepts never has both the client's address kept in a header and
  -- the PROXY protocol, so that the two cannot both decide the protocol of the pool.
  pub check_service_update-exclusive :
      (conf : ServiceConfig) (w : W)
      → passes
          (λ c. not (c.keep_client_ip && c.enable_proxy_protocol))
          (check_service_update conf w).0
        ≡ true
  unfolding check_service_update
  check_service_update-exclusive conf w =
      let Q : Result ServiceConfig × W → Type 0 =
        λ r. passes (λ c. not (c.keep_client_ip && c.enable_proxy_protocol)) r.0 ≡ true in
      elim (Bool-cases (eqb (length service.ports) 0)) [
        | inl none_given ↦ rw none_given refl
        | inr some_given ↦ rw some_given (
            bind_rule Q
              (member_subnet_from (get_member_subnet_id lbaas service) (update_start conf))
              update_flags w (λ c _. update_flags_sound c _) (λ e. refl))
      ]
