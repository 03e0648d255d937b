-- ===== src/Lb/FloatingIps.antt =====
-- createFloatingIP, updateFloatingIP and ensureFloatingIP of pkg/openstack/loadbalancer.go. The
-- subnets that match the specification in the public network are the argument `matching`.
use cloud_provider_openstack.Prelude.Strings.{concat}
use cloud_provider_openstack.Prelude.{
  true, some, [], none, String, ◌&&◌, Option, ◌==◌, Bool, ◌||◌, ◌∷◌, not, List, false,
  if◌then◌else◌,
}
use cloud_provider_openstack.Lb.Deletion.{delete_fip_if_created_by_provider}
use cloud_provider_openstack.Lb.Balancers.{
  FloatingIp, get_floating_ip_by_port_id, Balancers, Balancer, FloatingIpCreate,
}
use cloud_provider_openstack.Lb.Api.{ServiceConfig, SubnetSpec, Service}
use cloud_provider_openstack.Lb.Annotations.{get_bool_from_service_annotation}
use cloud_provider_openstack.Go.{
  err, pure, fail, message, not_found, reworded, ◌>>=◌, Result, Exec, ok,
}

-- MatcherConfigured and Configured of floatingSubnetSpec
abbrev pub matcher_configured : Option SubnetSpec → Bool
matcher_configured none = false
matcher_configured (some spec) =
    spec.subnet_id == "" && (not (spec.subnet == "") || not (spec.subnet_tags == ""))

abbrev pub subnet_id_of : Option SubnetSpec → String
subnet_id_of none = ""
subnet_id_of (some spec) = spec.subnet_id

module _ {W : Type 0} (balancers : Balancers W) where
  unfoldable pub create_floating_ip : FloatingIpCreate → Exec W FloatingIp
  create_floating_ip opts =
      reworded (message "error creating LB floatingip") (balancers.floating_ip_create opts)

  unfoldable pub update_floating_ip : FloatingIp → Option String → Exec W FloatingIp
  update_floating_ip fip port_id =
      reworded (message "error updating LB floatingip")
        (balancers.floating_ip_update fip.id port_id)

  abbrev pub or_next : Result FloatingIp → Exec W FloatingIp → Exec W FloatingIp
  or_next (ok fip) next = pure fip
  or_next (err e) next = next

  -- the first of the subnets in which a floating IP can be made
  unfoldable pub create_in_subnets : FloatingIpCreate → List String → Exec W FloatingIp
  unfolding create_floating_ip
  create_in_subnets opts [] w = fail (message "no free subnet matching found for network") w
  create_in_subnets opts (subnet_id ∷ subnets) w =
      let rest = create_in_subnets opts subnets in
      let (r, w') = create_floating_ip (record opts { subnet_id = subnet_id }) w in
      or_next r rest w'

  module _ (matching : SubnetSpec → String → Exec W (List String)) (cluster_name : String)
      (service : Service) (lb : Balancer) (conf : ServiceConfig) (is_lb_owner : Bool) where
    -- an internal service that owns the load balancer has no floating IP
    unfoldable pub detach_floating_ip : Option FloatingIp → Exec W Unit
    unfolding delete_fip_if_created_by_provider update_floating_ip get_bool_from_service_annotation
    detach_floating_ip none = pure tt
    detach_floating_ip (some fip) =
        let keep =
          get_bool_from_service_annotation service "loadbalancer.openstack.org/keep-floatingip"
            false in
        (if keep then pure false else delete_fip_if_created_by_provider balancers fip)
        >>= λ deleted. if deleted then pure tt else update_floating_ip fip none >>= λ _. pure tt

    unfoldable pub if_free : List FloatingIp → Exec W (Option FloatingIp)
    unfolding update_floating_ip
    if_free [] = pure none
    if_free (fip ∷ fips) =
        if fip.port_id == ""
        then (update_floating_ip fip (some lb.vip_port_id) >>= λ updated. pure (some updated))
        else fail (message "floating IP is not available")

    -- the second attempt: the address that the service asks for
    unfoldable pub floating_ip_at : Exec W (Option FloatingIp)
    unfolding if_free update_floating_ip
    floating_ip_at =
        if service.load_balancer_ip == ""
        then pure none
        else reworded (message "failed when trying to get existing floating IP")
            (balancers.floating_ips_at service.load_balancer_ip)
          >>= if_free

    abbrev pub floating_ip_opts : FloatingIpCreate
    floating_ip_opts = record {
      network_id = conf.lb_public_network_id;
      subnet_id = "";
      port_id = lb.vip_port_id;
      address = "";
      description = concat "Floating IP for Kubernetes external service " (
          concat service.namespace
            (concat "/" (concat service.name (concat " from cluster " cluster_name))));
    }

    abbrev pub create_matching : Option SubnetSpec → Exec W FloatingIp
    create_matching none = fail not_found
    create_matching (some spec) =
        matching spec conf.lb_public_network_id >>= create_in_subnets floating_ip_opts

    -- the third attempt: a new one, if there is a network for it
    unfoldable pub new_floating_ip : Exec W (Option FloatingIp)
    unfolding create_floating_ip create_in_subnets
    new_floating_ip =
        if conf.lb_public_network_id == ""
        then pure none
        else (if service.load_balancer_ip == "" && matcher_configured conf.lb_public_subnet_spec
            then create_matching conf.lb_public_subnet_spec
            else create_floating_ip (record floating_ip_opts {
              subnet_id = subnet_id_of conf.lb_public_subnet_spec;
              address = service.load_balancer_ip;
            }))
          >>= λ fip. pure (some fip)

    abbrev pub or_else : Option FloatingIp → Exec W (Option FloatingIp) → Exec W (Option FloatingIp)
    or_else none next = next
    or_else (some fip) next = pure (some fip)

    abbrev pub address_or_vip : Option FloatingIp → String
    address_or_vip none = lb.vip_address
    address_or_vip (some fip) = fip.address

    abbrev pub is_there : Option FloatingIp → Bool
    is_there none = false
    is_there (some fip) = true

    -- with the floating IP that the port has
    unfoldable pub ensure_floating_ip_from : Option FloatingIp → Exec W String
    unfolding detach_floating_ip floating_ip_at new_floating_ip
    ensure_floating_ip_from found =
        if conf.internal && is_lb_owner
        then (detach_floating_ip found >>= λ _. pure lb.vip_address)
        else if not (is_there found) && not is_lb_owner
        then fail (message "cannot attach a floating IP to a load balancer for a shared Service")
        else or_else found floating_ip_at >>= λ second.
            or_else second new_floating_ip >>= λ third. pure (address_or_vip third)

    unfoldable pub ensure_floating_ip : Exec W String
    unfolding get_floating_ip_by_port_id ensure_floating_ip_from
    ensure_floating_ip =
        reworded (message "failed when getting floating IP for port")
          (get_floating_ip_by_port_id balancers lb.vip_port_id)
        >>= ensure_floating_ip_from
