-- ===== src/Lb/CheckService.antt =====
-- checkService and GetLoadBalancerSourceRanges of pkg/openstack/loadbalancer.go, with
-- GetFloatingNetworkID of pkg/util/openstack/network.go. The networks and their parser are those of
-- Util.IpNet; `trim` is strings.TrimSpace.
use cloud_provider_openstack.Util.IpNet.{Networks, IpNet, parse_ip_nets}
use cloud_provider_openstack.Routes.Api.{Node, IpParser}
use cloud_provider_openstack.Prelude.Strings.{concat, Text}
use cloud_provider_openstack.Prelude.Maps.{get_header}
use cloud_provider_openstack.Prelude.Int.{negsuc, ℤ}
use cloud_provider_openstack.Prelude.{
  none, not, ◌&&◌, Option, some, true, ◌∷◌, false, List, ◌==◌, [], Bool, ℕ, ◌||◌, String,
  if◌then◌else◌, ltb, eqb, length,
}
use cloud_provider_openstack.Lb.SubnetOfNode.{FixedIp, get_subnet_id_for_lb}
use cloud_provider_openstack.Lb.FloatingIps.{matcher_configured}
use cloud_provider_openstack.Lb.Features.{feature_tags, is_octavia_feature_supported}
use cloud_provider_openstack.Lb.CheckUpdate.{get_int_from_service_annotation, family_or}
use cloud_provider_openstack.Lb.Api.{SubnetSpec, Lbaas, Service, ServiceConfig}
use cloud_provider_openstack.Lb.Annotations.{
  get_subnet_id, get_network_id, get_member_subnet_id, get_string_from_service_annotation,
  get_bool_from_service_annotation,
}
use cloud_provider_openstack.Go.{
  reworded, message, ◌>>=◌, Result, Exec, fail, err, pure, ok, Error, not_found,
}
use Prim.Native.Char.{code}

-- strings.Split(s, "c") on a text
unfoldable pub split_string : ℕ → String → List String
split_string c String.[] = "" ∷ []
split_string c (String.◌∷◌ x s) = put_first (split_string c s)
  where
    put_first : List String → List String
    put_first [] = []
    put_first (part ∷ parts) =
        if eqb (code x) c then "" ∷ part ∷ parts else String.◌∷◌ x part ∷ parts

abbrev pub last_of : List String → String
last_of [] = ""
last_of (s ∷ []) = s
last_of (s ∷ t ∷ ts) = last_of (t ∷ ts)

-- an external network of Neutron, with the ids of its subnets
pub record Network : Type 0 where
  pub id : String
  pub external : Bool
  pub subnets : List String

-- subnets.Subnet
pub record Subnet : Type 0 where
  pub id : String
  pub network_id : String
  pub ip_version : ℕ

-- the requests to Neutron and Barbican
pub record Lookups (W : Type 0) : Type 0 where
  pub networks : Exec W (List Network)
  pub subnets_of : String → Exec W (List Subnet)
  pub subnet_get : String → Exec W Subnet
  pub container_get : String → Exec W Unit
  -- the ports of a device
  pub attached_ports : Text → Exec W (List (List FixedIp))

-- GetLoadBalancerSourceRanges; `none` is an error.
module _ {N : Type 0} (nets : Networks N) (trim : String → String) where
  abbrev pub default_ranges : String → String
  default_ranges family = if family == "IPv6" then "::/0" else "0.0.0.0/0"

  unfoldable pub source_range_specs : Service → String → List String
  unfolding split_string
  source_range_specs service family =
      let val =
        trim (
          get_header "service.beta.kubernetes.io/load-balancer-source-ranges"
            service.annotations) in
      if ltb 0 (length service.source_ranges)
      then service.source_ranges
      else if val == ""
      then split_string 44 (default_ranges family)
      else split_string 44 val

  unfoldable pub get_load_balancer_source_ranges : Service → String → Option (IpNet N)
  unfolding source_range_specs parse_ip_nets
  get_load_balancer_source_ranges service family =
      parse_ip_nets nets trim (source_range_specs service family)

abbrev pub find_subnet : String → List Subnet → Option Subnet
find_subnet id [] = none
find_subnet id (s ∷ ss) = let rest = find_subnet id ss in if s.id == id then some s else rest

-- a subnet that is not listed, or has the version 4
unfoldable pub suits : List Subnet → List String → Bool
suits subnets [] = false
suits subnets (id ∷ ids) =
    let rest = suits subnets ids in
    elim (find_subnet id subnets) [ none ↦ true | some s ↦ eqb s.ip_version 4 || rest ]

module _ {W : Type 0} (lookups : Lookups W) where
  unfoldable pub first_floating_network : List Network → Exec W String
  unfolding suits
  first_floating_network [] = fail not_found
  first_floating_network (network ∷ others) =
      let rest = first_floating_network others in
      if network.external && ltb 0 (length network.subnets)
      then (lookups.subnets_of network.id >>= λ subnets.
          if suits subnets network.subnets then pure network.id else rest)
      else rest

  unfoldable pub get_floating_network_id : Exec W String
  unfolding first_floating_network
  get_floating_network_id = lookups.networks >>= first_floating_network

  -- an error is logged, and the id is then empty
  abbrev pub or_empty : Result String → Result String
  or_empty (ok id) = ok id
  or_empty (err e) = ok ""

abbrev pub is_configured : SubnetSpec → Bool
is_configured spec = not (spec.subnet_id == "") || matcher_configured (some spec)

-- the id alone, or what else describes the subnet
abbrev pub spec_of : String → String → String → SubnetSpec
spec_of id subnet tags = record {
  subnet_id = id;
  subnet = if id == "" then subnet else "";
  subnet_tags = if id == "" then tags else "";
}

module _ {W N : Type 0} (lookups : Lookups W) (nets : Networks N) (trim : String → String)
    (ip : IpParser) (lbaas : Lbaas) (service : Service) (nodes : List (Node × Text)) where
  abbrev pub text_of : String → String → String
  text_of key default_setting =
      get_string_from_service_annotation service (concat "loadbalancer.openstack.org/" key)
        default_setting

  abbrev pub flag_of : String → Bool → Bool
  flag_of key default_setting =
      get_bool_from_service_annotation service (concat "loadbalancer.openstack.org/" key)
        default_setting

  abbrev pub number_of : String → ℤ → ℤ
  number_of key default_setting =
      get_int_from_service_annotation service (concat "loadbalancer.openstack.org/" key)
        default_setting

  unfoldable pub service_start : ServiceConfig → ServiceConfig
  unfolding get_string_from_service_annotation get_bool_from_service_annotation
      is_octavia_feature_supported
  service_start conf =
      let family = family_or service.ip_families conf.preferred_ip_family in
      record conf {
        preferred_ip_family = family;
        lb_id = text_of "load-balancer-id" "";
        support_lb_tags = is_octavia_feature_supported lbaas feature_tags;
        internal =
            if lbaas.internal_lb
            then true
            else if family == "IPv6"
            then true
            else get_bool_from_service_annotation service
                "service.beta.kubernetes.io/openstack-internal-load-balancer" lbaas.internal_lb;
        tls_container_ref = text_of "default-tls-container-ref" lbaas.tls_container_ref;
      }

  unfoldable pub check_container : ServiceConfig → Exec W Unit
  unfolding split_string
  check_container conf =
      if conf.tls_container_ref == ""
      then pure tt
      else if not lbaas.has_secret_client
      then fail (message "openstack keymanager client is not initialized")
      else if lbaas.container_store == "barbican"
      then reworded (message "failed to get tls container")
          (lookups.container_get (last_of (split_string 47 conf.tls_container_ref)))
      else pure tt

  abbrev pub result_or : Error → Result String → Exec W String
  result_or e (ok s) = pure s
  result_or e (err _) = fail e

  unfoldable pub first_node_subnet : List (Node × Text) → String → Exec W String
  unfolding get_subnet_id_for_lb
  first_node_subnet [] family = fail not_found
  first_node_subnet ((node, provider_id) ∷ others) family =
      reworded (message "failed to get subnet to create load balancer")
        (get_subnet_id_for_lb lookups.attached_ports ip node provider_id family)

  -- the subnet of the load balancer and that of its members
  unfoldable pub subnets_from : ServiceConfig → String → String → Exec W (String × String)
  unfolding first_node_subnet get_subnet_id_for_lb
  subnets_from conf network subnet =
      if network == "" && subnet == ""
      then (first_node_subnet nodes conf.preferred_ip_family >>= λ id w. (ok (id, id), w))
      else pure (subnet, if lbaas.subnet_id == "" then subnet else lbaas.subnet_id)

  unfoldable pub with_subnets : ServiceConfig → Exec W ServiceConfig
  unfolding subnets_from get_network_id get_subnet_id get_member_subnet_id
      get_int_from_service_annotation
  with_subnets conf =
      result_or (message "failed to get network id") (get_network_id lbaas service) >>= λ network.
      result_or (message "failed to get subnet") (get_subnet_id lbaas service) >>= λ subnet.
      subnets_from conf network subnet >>= λ found.
      result_or (message "unable to get member-subnet-id") (get_member_subnet_id lbaas service)
      >>= λ member. pure (record conf {
        conn_limit = number_of "connection-limit" (negsuc 0);
        lb_network_id = network;
        lb_subnet_id = found.0;
        lb_member_subnet_id = if member == "" then found.1 else member;
      })
