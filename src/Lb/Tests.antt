-- ===== src/Lb/Tests.antt =====
-- The theorems on listeners, pools and rules at concrete inputs.
use cloud_provider_openstack.Lb.Api.{Listener}
use cloud_provider_openstack.Lb.SecurityGroup.{Groups, delete_rules-gone, delete_rules}
use cloud_provider_openstack.Util.Basic.{contains}
use cloud_provider_openstack.Prelude.{
  some, ℕ, eq_refl, String, [], ◌≡◌, map, List, refl, true, false, ◌∷◌, ◌&&◌, ◌==◌, not,
  if◌then◌else◌, any, All,
}
use cloud_provider_openstack.Lb.Serial.{reconcile_nodes, reconcile_nodes-no_address}
use cloud_provider_openstack.Lb.Samples.{
  test_service, bare_node, test_lbaas, web, test_pool, test_listener, test_ip, test_conf,
  test_octavia, node_a,
}
use cloud_provider_openstack.Lb.RulesLaws.{get_rules-applied, apply_rules}
use cloud_provider_openstack.Lb.Rules.{
  ingress, RuleCreate, SecGroupRule, get_rules_to_create_and_delete, compare_rule,
}
use cloud_provider_openstack.Lb.Pools.{build_batch_update_member_opts}
use cloud_provider_openstack.Lb.PoolLaws.{
  pool_fits, update_members-settled, stored, ensure_octavia_pool-protocol,
}
use cloud_provider_openstack.Lb.Nodes.{node_address_for_lb}
use cloud_provider_openstack.Lb.Listeners.{
  is_changed, listener_update, get_listener_protocol, find_listener, build_listener_create_opt,
}
use cloud_provider_openstack.Lb.EnsurePool.{ensure_octavia_pool, update_members}
use cloud_provider_openstack.Lb.Convergence.{
  listener_update-applied, apply_update, listener_update-drops_tags,
}
use cloud_provider_openstack.Go.{ok, is_ok, message, fail, pure, not_found}

listener_update-applied_example :
    is_changed (
      listener_update test_lbaas test_conf
        (apply_update (listener_update test_lbaas test_conf test_listener) test_listener))
    ≡ false
listener_update-applied_example = listener_update-applied test_lbaas test_conf test_listener

-- the update at hand does change the listener
update_changes : is_changed (listener_update test_lbaas test_conf test_listener) ≡ true
unfolding listener_update contains
update_changes = refl

created_protocol :
    test_listener.protocol ≡ (build_listener_create_opt test_lbaas test_conf web).protocol
unfolding build_listener_create_opt
created_protocol = refl

created_port :
    test_listener.protocol_port ≡ (build_listener_create_opt test_lbaas test_conf web).protocol_port
unfolding build_listener_create_opt
created_port = refl

unnamed : contains test_listener.tags test_conf.lb_name ≡ false
unfolding contains
unnamed = refl

listener_update-drops_tags_example :
    contains
      (apply_update (listener_update test_lbaas test_conf test_listener) test_listener).tags
      "kube_service_b"
    ≡ (if test_conf.support_lb_tags && not (contains test_listener.tags test_conf.lb_name)
        then test_conf.lb_name == "kube_service_b"
        else contains test_listener.tags "kube_service_b")
listener_update-drops_tags_example =
    listener_update-drops_tags test_lbaas test_conf test_listener "kube_service_b"

node_address_for_lb_run : node_address_for_lb test_ip node_a "IPv4" ≡ ok "10.0.0.5"
unfolding node_address_for_lb
node_address_for_lb_run = refl

reconcile_nodes-no_address_example :
    is_ok (reconcile_nodes test_octavia 3 test_pool 30080 "lb" (node_a ∷ bare_node ∷ []) [] []).0
    ≡ false
reconcile_nodes-no_address_example =
    reconcile_nodes-no_address test_octavia 3 test_pool 30080 "lb" (node_a ∷ bare_node ∷ []) [] []
      refl

abbrev rule_of_port : String → ℕ → SecGroupRule
rule_of_port id port = record {
  id = id;
  direction = "ingress";
  protocol = "tcp";
  ether_type = "IPv4";
  remote_ip_prefix = "10.0.0.0/8";
  port_range_min = port;
  port_range_max = port;
}

abbrev wanted_now : List RuleCreate
wanted_now =
    ingress "IPv4" "group" "tcp" "10.0.0.0/8" 30080
    ∷ ingress "IPv4" "group" "tcp" "10.0.0.0/8" 30443
    ∷ []

abbrev existing_now : List SecGroupRule
existing_now = rule_of_port "rule-1" 30080 ∷ rule_of_port "rule-2" 30001 ∷ []

get_rules-applied_example :
    let applied =
      apply_rules
        (λ o. "rule-3")
        (get_rules_to_create_and_delete wanted_now existing_now)
        existing_now in
    All (λ o. any (λ r. compare_rule r o) applied ≡ true) wanted_now
    × All (λ r. any (λ o. compare_rule r o) wanted_now ≡ true) applied
    × (get_rules_to_create_and_delete wanted_now applied ≡ ([], []))
get_rules-applied_example = get_rules-applied (λ o. "rule-3") wanted_now existing_now refl

listed :
    (test_octavia.members_list test_pool.id []).0
    ≡ ok (
        map
          (stored (λ u. "member-1"))
          (build_batch_update_member_opts test_ip test_lbaas web test_conf
            (node_a ∷ bare_node ∷ [])).0)
unfolding build_batch_update_member_opts
listed = refl

update_members-settled_example :
    update_members test_octavia 3 test_ip test_lbaas "lb" test_pool web
      (node_a ∷ bare_node ∷ [])
      test_conf
      []
    ≡ (ok tt, [])
update_members-settled_example =
    update_members-settled test_octavia 3 test_ip test_lbaas "lb" test_pool web
      (node_a ∷ bare_node ∷ []) test_conf (λ u. "member-1") [] refl listed

ensure_octavia_pool-protocol_example :
    pool_fits "HTTP"
      (ensure_octavia_pool test_octavia 3 test_ip test_lbaas "lb" "pool_0" test_listener
        test_service web
        (node_a ∷ [])
        test_conf
        (test_pool ∷ [])).0
    ≡ true
ensure_octavia_pool-protocol_example =
    ensure_octavia_pool-protocol test_octavia 3 test_ip test_lbaas "lb" "pool_0" test_listener
      test_service web (node_a ∷ []) test_conf (test_pool ∷ []) (λ opts u. eq_refl opts.protocol)

-- a group with one rule, which is gone when it is to be deleted
abbrev test_groups : Groups (List SecGroupRule)
test_groups = record {
  id_from_name = λ name. pure "group";
  group_create = λ name description. pure "group";
  subnet_cidr = λ id. pure "10.0.0.0/24";
  rules_list = λ sg w. (ok w, w);
  rule_create = λ opts. pure tt;
  rule_delete = λ id. fail not_found;
  ports_of_device = λ server. pure [];
  port_update = λ id sgs. pure tt;
}

-- a group whose second rule is gone
abbrev missing_groups : Groups (List SecGroupRule)
missing_groups = record test_groups {
  rule_delete = λ id. if id == "rule-2" then fail not_found else pure tt;
}

delete_rules-gone_example :
    (delete_rules missing_groups existing_now (fail (message "not reached")) []
      ≡ delete_rules missing_groups
          (rule_of_port "rule-1" 30080 ∷ rule_of_port "rule-2" 30001 ∷ [])
          (pure tt)
          [])
    × ((delete_rules missing_groups existing_now (fail (message "not reached")) []).0
        ≡ (delete_rules missing_groups (rule_of_port "rule-1" 30080 ∷ []) (pure tt) []).0)
delete_rules-gone_example =
    delete_rules-gone missing_groups (rule_of_port "rule-1" 30080 ∷ [])
      (rule_of_port "rule-2" 30001) [] [] (fail (message "not reached")) (pure tt) [] (λ u. refl)

abbrev updated : Listener
updated = apply_update (listener_update test_lbaas test_conf test_listener) test_listener

updated_found :
    find_listener (updated ∷ []) (get_listener_protocol web.protocol test_conf) web.port
    ≡ some updated
unfolding find_listener get_listener_protocol
updated_found = refl
