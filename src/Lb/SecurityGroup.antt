-- ===== src/Lb/SecurityGroup.antt =====
-- getSecurityGroupName, ensureSecurityRule, applyNodeSecurityGroupIDForLB and
-- ensureAndUpdateOctaviaSecurityGroup of pkg/openstack/loadbalancer.go. A node is its provider id,
-- and the names are characters of one byte.
use cloud_provider_openstack.Util.Basic.{contains}
use cloud_provider_openstack.Routes.Api.{IpParser}
use cloud_provider_openstack.Prelude.Strings.{codes, concat, Text}
use cloud_provider_openstack.Prelude.{
  ◌++◌, ◌≡◌, [], none, List, String, ◌∷◌, some, refl, ◌==◌, if◌then◌else◌, eqb, ltb, take, length,
}
use cloud_provider_openstack.Lb.Rules.{
  RuleCreate, wanted_rules, SecGroupRule, get_rules_to_create_and_delete,
}
use cloud_provider_openstack.Lb.Api.{Lbaas, Service, ServiceConfig}
use cloud_provider_openstack.Instances.ProviderId.{instance_id_from_provider_id}
use cloud_provider_openstack.Go.{
  ok, pure, conflict, Result, not_found, message, err, Exec, ◌>>=◌, fail,
}

-- neutronports.Port, as far as it is read
pub record GroupPort : Type 0 where
  pub id : String
  pub security_groups : List String

-- the requests to Neutron
pub record Groups (W : Type 0) : Type 0 where
  -- secgroups.IDFromName
  pub id_from_name : Text → Exec W String
  -- groups.Create, with the name and the description: the id
  pub group_create : Text → String → Exec W String
  -- subnets.Get: the CIDR
  pub subnet_cidr : String → Exec W String
  pub rules_list : String → Exec W (List SecGroupRule)
  pub rule_create : RuleCreate → Exec W Unit
  pub rule_delete : String → Exec W Unit
  pub ports_of_device : Text → Exec W (List GroupPort)
  pub port_update : String → List String → Exec W Unit

unfoldable pub get_security_group_name : Service → Text
get_security_group_name service =
    let name = codes (
      concat "lb-sg-"
        (concat service.uid (concat "-" (concat service.namespace (concat "-" service.name))))) in
    if ltb 255 (length name) then take 255 name else name

module _ {W : Type 0} (groups : Groups W) where
  abbrev pub ignore_conflict : Result Unit → Exec W Unit
  ignore_conflict (err conflict) = pure tt
  ignore_conflict (err e) = fail e
  ignore_conflict (ok _) = pure tt

  unfoldable pub ensure_security_rule : RuleCreate → Exec W Unit
  ensure_security_rule opts w = let (r, w') = groups.rule_create opts w in ignore_conflict r w'

  unfoldable pub create_rules : List RuleCreate → Exec W Unit
  unfolding ensure_security_rule
  create_rules [] = pure tt
  create_rules (opts ∷ rest) = ensure_security_rule opts >>= λ _. create_rules rest

  -- A rule that is missing ends the whole function without an error.
  abbrev pub unless_gone : Result Unit → Exec W Unit → Exec W Unit
  unless_gone (err not_found) next = pure tt
  unless_gone (err e) next = fail e
  unless_gone (ok _) next = next

  -- `next` is what the function does after the loop
  unfoldable pub delete_rules : List SecGroupRule → Exec W Unit → Exec W Unit
  delete_rules [] next w = next w
  delete_rules (rule ∷ rules) next w =
      let (r, w') = groups.rule_delete rule.id w in unless_gone r (delete_rules rules next) w'

  -- the inner loop, over the ports of a node
  unfoldable pub add_group : String → List GroupPort → Exec W Unit
  unfolding contains
  add_group sg [] = pure tt
  add_group sg (port ∷ ports) =
      let rest = add_group sg ports in
      if contains port.security_groups sg
      then rest
      else groups.port_update port.id (port.security_groups ++ sg ∷ []) >>= λ _. rest

  unfoldable pub apply_node_security_group_id_for_lb : List Text → String → Exec W Unit
  unfolding instance_id_from_provider_id add_group
  apply_node_security_group_id_for_lb [] sg = pure tt
  apply_node_security_group_id_for_lb (provider_id ∷ nodes) sg =
      let rest = apply_node_security_group_id_for_lb nodes sg in
      elim (instance_id_from_provider_id provider_id) [
        | none ↦ fail (message "error getting server ID from the node")
        | some (server_id, region) ↦
            groups.ports_of_device server_id >>= λ ports. add_group sg ports >>= λ _. rest
      ]

  -- the id of the group of that name, empty where there is none
  unfoldable pub find_group : Text → Exec W String
  find_group name w = let (r, w') = groups.id_from_name name w in (or_none r, w')
    where
      or_none : Result String → Result String
      or_none (ok id) = ok id
      or_none (err not_found) = ok ""
      or_none (err e) = err e

  unfoldable pub find_or_create_group : Service → String → Exec W String
  unfolding find_group get_security_group_name
  find_or_create_group service cluster_name =
      let name = get_security_group_name service in
      find_group name >>= λ id.
      if id == ""
      then groups.group_create name (
          concat "Security Group for " (
            concat service.namespace (
              concat "/"
                (concat service.name (concat " Service LoadBalancer in cluster " cluster_name)))))
      else pure id

  unfoldable pub ensure_and_update_octavia_security_group :
      IpParser
      → (String → String)
      → Lbaas
      → String
      → Service
      → List Text
      → ServiceConfig
      → Exec W Unit
  unfolding find_or_create_group create_rules delete_rules apply_node_security_group_id_for_lb
      wanted_rules get_rules_to_create_and_delete
  ensure_and_update_octavia_security_group ip lower lbaas cluster_name service nodes conf =
      let update : String → String → List SecGroupRule → Exec W Unit = λ sg cidr existing.
        let ether_type = if ip.is_ipv6_cidr_string cidr then "IPv6" else "IPv4" in
        let cidrs = if lbaas.lb_provider == "ovn" then conf.allowed_cidr else cidr ∷ [] in
        let wanted =
          wanted_rules ether_type sg lower cidr cidrs service.health_check_node_port
            service.ports in
        let (to_create, to_delete) = get_rules_to_create_and_delete wanted existing in
        create_rules to_create >>= λ _.
        delete_rules to_delete (apply_node_security_group_id_for_lb nodes sg) in
      if eqb (length service.ports) 0
      then fail (message "no ports provided to openstack load balancer")
      else find_or_create_group service cluster_name >>= λ sg.
          groups.subnet_cidr conf.lb_member_subnet_id >>= λ cidr.
          groups.rules_list sg >>= λ existing. update sg cidr existing

  abbrev Stops :
      List SecGroupRule
      → SecGroupRule
      → List SecGroupRule
      → List SecGroupRule
      → Exec W Unit
      → Exec W Unit
      → W
      → Type 0
  Stops before rule rules others next after w =
      (delete_rules (before ++ rule ∷ rules) next w
        ≡ delete_rules (before ++ rule ∷ others) after w)
      × ((delete_rules (before ++ rule ∷ rules) next w).0 ≡ (delete_rules before (pure tt) w).0)

  -- one more rule in front
  not_passed_over :
      (before : List SecGroupRule) (rule : SecGroupRule) (rules others : List SecGroupRule)
      (next after : Exec W Unit) (r : Result Unit) (u : W)
      → Stops before rule rules others next after u
      → (unless_gone r (delete_rules (before ++ rule ∷ rules) next) u
          ≡ unless_gone r (delete_rules (before ++ rule ∷ others) after) u)
        × ((unless_gone r (delete_rules (before ++ rule ∷ rules) next) u).0
            ≡ (unless_gone r (delete_rules before (pure tt)) u).0)
  not_passed_over before rule rules others next after (ok x) u stops = stops
  not_passed_over before rule rules others next after (err e) u stops =
      elim e
        as (λ k.
          (unless_gone (err k) (delete_rules (before ++ rule ∷ rules) next) u
            ≡ unless_gone (err k) (delete_rules (before ++ rule ∷ others) after) u)
          × ((unless_gone (err k) (delete_rules (before ++ rule ∷ rules) next) u).0
              ≡ (unless_gone (err k) (delete_rules before (pure tt)) u).0)) [
                | not_found ↦ (refl, refl)
                | _ ↦ (refl, refl)
              ]

  -- A rule that Neutron does not have any more ends the function wherever it stands in the list: the
  -- rules behind it and what is to be done after the loop make no difference, and there is an error
  -- only if the rules in front of it give one.
  pub delete_rules-gone :
      (before : List SecGroupRule) (rule : SecGroupRule) (rules others : List SecGroupRule)
      (next after : Exec W Unit) (w : W)
      → ((u : W) → (groups.rule_delete rule.id u).0 ≡ err not_found)
      → (delete_rules (before ++ rule ∷ rules) next w
          ≡ delete_rules (before ++ rule ∷ others) after w)
        × ((delete_rules (before ++ rule ∷ rules) next w).0 ≡ (delete_rules before (pure tt) w).0)
  unfolding delete_rules
  delete_rules-gone [] rule rules others next after w gone = rw (gone w) (refl, refl)
  delete_rules-gone (first ∷ before) rule rules others next after w gone =
      let (r, u) = groups.rule_delete first.id w in
      not_passed_over before rule rules others next after r u
        (delete_rules-gone before rule rules others next after u gone)
