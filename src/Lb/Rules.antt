-- ===== src/Lb/Rules.antt =====
-- compareSecurityGroupRuleAndCreateOpts, getRulesToCreateAndDelete and the wanted rules of
-- ensureAndUpdateOctaviaSecurityGroup, of pkg/openstack/loadbalancer.go
use cloud_provider_openstack.Lb.CheckUpdate.{health_port}
use cloud_provider_openstack.Prelude.Strings.{to_lower, codes, text_eq}
use cloud_provider_openstack.Prelude.{
  not, ◌++◌, List, ◌∷◌, ◌≢◌, Bool, ◌==◌, [], ◌&&◌, ℕ, String, ◌≡◌, if◌then◌else◌, eqb, any, Some,
  refl, ◌⊎◌, inr, arith, inl, Bool-cases, All-mono, All, All-append,
}
use cloud_provider_openstack.Lb.Api.{ServicePort}

-- rules.SecGroupRule of Neutron
pub record SecGroupRule : Type 0 where
  pub id : String
  pub direction : String
  pub protocol : String
  pub ether_type : String
  pub remote_ip_prefix : String
  pub port_range_min : ℕ
  pub port_range_max : ℕ

-- rules.CreateOpts
pub record RuleCreate : Type 0 where
  pub direction : String
  pub protocol : String
  pub ether_type : String
  pub sec_group_id : String
  pub remote_ip_prefix : String
  pub port_range_min : ℕ
  pub port_range_max : ℕ

-- strings.EqualFold, for the letters of ASCII
unfoldable pub equal_fold : String → String → Bool
unfolding text_eq to_lower
equal_fold a b = text_eq (to_lower (codes a)) (to_lower (codes b))

unfoldable pub compare_rule : SecGroupRule → RuleCreate → Bool
unfolding equal_fold
compare_rule rule opts =
    rule.direction == opts.direction
    && equal_fold rule.protocol opts.protocol
    && rule.ether_type == opts.ether_type
    && rule.remote_ip_prefix == opts.remote_ip_prefix
    && eqb rule.port_range_min opts.port_range_min
    && eqb rule.port_range_max opts.port_range_max

-- those in the first list for which the second has no partner: the two loops of the source
unfoldable pub rules_to_create : List RuleCreate → List SecGroupRule → List RuleCreate
unfolding compare_rule
rules_to_create [] existing = []
rules_to_create (wanted ∷ ws) existing =
    let rest = rules_to_create ws existing in
    if not (any (λ rule. compare_rule rule wanted) existing) then wanted ∷ rest else rest

unfoldable pub rules_to_delete : List RuleCreate → List SecGroupRule → List SecGroupRule
unfolding compare_rule
rules_to_delete wanted [] = []
rules_to_delete wanted (rule ∷ rs) =
    let rest = rules_to_delete wanted rs in
    if not (any (λ opts. compare_rule rule opts) wanted) then rule ∷ rest else rest

unfoldable pub get_rules_to_create_and_delete :
    List RuleCreate → List SecGroupRule → List RuleCreate × List SecGroupRule
unfolding rules_to_create rules_to_delete
get_rules_to_create_and_delete wanted existing =
    (rules_to_create wanted existing, rules_to_delete wanted existing)

module _ (ether_type sec_group_id : String) where
  abbrev pub ingress : String → String → ℕ → RuleCreate
  ingress protocol cidr port = record {
    direction = "ingress";
    protocol = protocol;
    ether_type = ether_type;
    sec_group_id = sec_group_id;
    remote_ip_prefix = cidr;
    port_range_min = port;
    port_range_max = port;
  }

  -- `lower` is `strings.ToLower` on the protocol's name.
  unfoldable pub port_rules : (String → String) → List String → ServicePort → List RuleCreate
  port_rules lower [] port = []
  port_rules lower (cidr ∷ cidrs) port =
      ingress (lower port.protocol) cidr port.node_port ∷ port_rules lower cidrs port

  unfoldable pub ports_rules : (String → String) → List String → List ServicePort → List RuleCreate
  unfolding port_rules
  ports_rules lower cidrs [] = []
  ports_rules lower cidrs (port ∷ ports) =
      let rest = ports_rules lower cidrs ports in
      if eqb port.node_port 0 then rest else port_rules lower cidrs port ++ rest

  unfoldable pub wanted_rules :
      (String → String) → String → List String → ℕ → List ServicePort → List RuleCreate
  unfolding ports_rules
  wanted_rules lower subnet_cidr cidrs health_check_node_port ports =
      let rest = ports_rules lower cidrs ports in
      if eqb health_check_node_port 0
      then rest
      else ingress "tcp" subnet_cidr health_check_node_port ∷ rest

  -- the two cases that open a port: the health check, and a node port for one of the ranges
  abbrev pub IsHealthRule : String → ℕ → RuleCreate → Type 0
  IsHealthRule subnet_cidr port rule = (port ≢ 0) × (rule ≡ ingress "tcp" subnet_cidr port)

  abbrev pub IsPortRule : (String → String) → List String → List ServicePort → RuleCreate → Type 0
  IsPortRule lower cidrs ports rule =
      Some
        (λ (port : ServicePort).
          (port.node_port ≢ 0)
          × Some (λ cidr. rule ≡ ingress (lower port.protocol) cidr port.node_port) cidrs)
        ports

  port_rules_sound :
      (lower : String → String) (cidrs : List String) (port : ServicePort)
      → All
          (λ rule. Some (λ cidr. rule ≡ ingress (lower port.protocol) cidr port.node_port) cidrs)
          (port_rules lower cidrs port)
  unfolding port_rules
  port_rules_sound lower [] port = tt
  port_rules_sound lower (cidr ∷ cidrs) port = (
    inl refl,
    All-mono _ _ (port_rules lower cidrs port) (λ rule h. inr h)
        (port_rules_sound lower cidrs port),
  )

  ports_rules_sound :
      (lower : String → String) (cidrs : List String) (ports : List ServicePort)
      → All (IsPortRule lower cidrs ports) (ports_rules lower cidrs ports)
  unfolding ports_rules
  ports_rules_sound lower cidrs [] = tt
  ports_rules_sound lower cidrs (port ∷ ports) =
      let later =
        All-mono (IsPortRule lower cidrs ports) (IsPortRule lower cidrs (port ∷ ports))
          (ports_rules lower cidrs ports) (λ rule h. inr h) (ports_rules_sound lower cidrs ports) in
      elim (Bool-cases (eqb port.node_port 0)) [
        | inl no_port ↦ rw no_port later
        | inr a_port ↦ rw a_port (
            All-append (IsPortRule lower cidrs (port ∷ ports)) (port_rules lower cidrs port)
              (ports_rules lower cidrs ports)
              (All-mono _ (IsPortRule lower cidrs (port ∷ ports)) (port_rules lower cidrs port)
                (λ rule h. inl (ground (arith, a_port), h)) (port_rules_sound lower cidrs port))
              later)
      ]

  -- Every rule that is wanted lets traffic in for the health check's port from the members' subnet,
  -- or for the node port of a port of the service, with that port's protocol, from one of the ranges;
  -- a port of 0 is opened by no rule.
  pub wanted_rules_sound :
      (lower : String → String) (subnet_cidr : String) (cidrs : List String) (health_port : ℕ)
      (ports : List ServicePort)
      → All
          (λ rule. IsHealthRule subnet_cidr health_port rule ⊎ IsPortRule lower cidrs ports rule)
          (wanted_rules lower subnet_cidr cidrs health_port ports)
  unfolding wanted_rules
  wanted_rules_sound lower subnet_cidr cidrs health_port ports =
      let others =
        All-mono (IsPortRule lower cidrs ports) _ (ports_rules lower cidrs ports) (λ rule h. inr h)
          (ports_rules_sound lower cidrs ports) in
      elim (Bool-cases (eqb health_port 0)) [
        | inl unset ↦ rw unset others
        | inr is_set_here ↦ rw is_set_here (inl (ground (arith, is_set_here), refl), others)
      ]
