-- ===== src/Lb/Convergence.antt =====
-- What an update of a listener does, against Octavia's documented update: a field that is given
-- replaces the listener's, and the others stay.
use cloud_provider_openstack.Lb.Octavia.{Octavia}
use cloud_provider_openstack.Go.{ok}
use cloud_provider_openstack.Prelude.Maps.{
  find_entry-delete_header, put_header, get_header, find_entry-put_header, delete_header,
  text_or_empty,
}
use cloud_provider_openstack.Util.Counting.{string_list_equal_iff}
use cloud_provider_openstack.Util.Basic.{contains, string_list_equal}
use cloud_provider_openstack.Prelude.Int.{int_eq_iff, ℤ, int_eq}
use cloud_provider_openstack.Prelude.{
  Option, true, String, Bool, ◌++◌, [], ◌≡◌, refl, none, ◌∷◌, arith, ◌==◌, some, List, false, not,
  ◌&&◌, inr, ◌||◌, inl, Bool-cases, eqb_iff, eq_refl, eq_iff, ◌∙◌, ap, ℕ, if◌then◌else◌,
}
use cloud_provider_openstack.Lb.Listeners.{
  listener_update, build_listener_create_opt, is_changed, find_listener, get_listener_protocol,
  is_set, only_if, selected_protocol, forwarded_for, ensure_octavia_listener,
}
use cloud_provider_openstack.Lb.Features.{
  feature_vip_acl, is_octavia_feature_supported, feature_timeout,
}
use cloud_provider_openstack.Lb.Api.{Lbaas, ServicePort, ServiceConfig, ListenerUpdate, Listener}

abbrev pub or_kept : {A : Type 0} → Option A → A → A
or_kept none a = a
or_kept (some b) a = b

abbrev pub apply_update : ListenerUpdate → Listener → Listener
apply_update u l = record l {
  tags = or_kept u.tags l.tags;
  conn_limit = or_kept u.conn_limit l.conn_limit;
  insert_headers = or_kept u.insert_headers l.insert_headers;
  default_tls_container_ref = or_kept u.default_tls_container_ref l.default_tls_container_ref;
  timeout_client_data = or_kept u.timeout_client_data l.timeout_client_data;
  timeout_member_connect = or_kept u.timeout_member_connect l.timeout_member_connect;
  timeout_member_data = or_kept u.timeout_member_data l.timeout_member_data;
  timeout_tcp_inspect = or_kept u.timeout_tcp_inspect l.timeout_tcp_inspect;
  allowed_cidrs = or_kept u.allowed_cidrs l.allowed_cidrs;
}

-- A field that is set to the wanted value where the test asks for it is not asked for again, if the
-- test does not ask for the wanted value itself.
settled :
    {A B : Type 0} (p : A → Bool) (wanted there : A) (again : B)
    → p wanted ≡ false
    → is_set (only_if (p (or_kept (only_if (p there) wanted) there)) again) ≡ false
settled p wanted there again fits = elim (Bool-cases (p there)) [
  | inl e ↦ rw e (rw fits refl)
  | inr e ↦ rw e (rw e refl)
]

neither : {a b : Bool} → a ≡ false → b ≡ false → (a || b) ≡ false
neither {a = a} {b = b} ha hb = ground (arith, ha, hb)

settled_int :
    (asked : Bool) (wanted there : ℤ)
    → is_set (
        only_if
          (asked
            && not (
                int_eq wanted
                  (or_kept (only_if (asked && not (int_eq wanted there)) wanted) there)))
          wanted)
      ≡ false
settled_int asked wanted there =
    settled (λ n. asked && not (int_eq wanted n)) wanted there wanted
      (ground (arith, int_eq_iff wanted wanted))

string_list_equal_self : (xs : List String) → string_list_equal xs xs ≡ true
string_list_equal_self xs = (string_list_equal_iff xs xs).1 (refl, λ z. refl)

module _ (lbaas : Lbaas) (conf : ServiceConfig) (l : Listener) where
  -- the headers after the update
  settled_headers :
      is_set
        (listener_update lbaas conf (apply_update (listener_update lbaas conf l) l)).insert_headers
      ≡ false
  unfolding listener_update
  settled_headers =
      let there = l.insert_headers in
      let with_it = put_header forwarded_for "true" there in
      let left = delete_header forwarded_for there in
      let found : get_header forwarded_for with_it ≡ "true" =
        ap text_or_empty (find_entry-put_header forwarded_for "true" there) in
      let gone : get_header forwarded_for left ≡ "" =
        ap text_or_empty (find_entry-delete_header forwarded_for there) in
      elim (Bool-cases conf.keep_client_ip) [
        | inl keep ↦ rw keep (
            settled (λ hs. not (get_header forwarded_for hs == "true")) with_it there _
              (rw found refl))
        | inr off ↦
            rw off
              (settled (λ hs. get_header forwarded_for hs == "true") left there _ (rw gone refl))
      ]

  -- One update is enough: on the listener as Octavia's documented update leaves it, in which the
  -- fields that are given replace the listener's, nothing is left to change.
  pub listener_update-applied :
      is_changed (listener_update lbaas conf (apply_update (listener_update lbaas conf l) l))
      ≡ false
  unfolding listener_update contains
  listener_update-applied =
      let asked = is_octavia_feature_supported lbaas feature_timeout in
      let acl = is_octavia_feature_supported lbaas feature_vip_acl in
      let tagged =
        settled (λ ts. conf.support_lb_tags && not (contains ts conf.lb_name)) (conf.lb_name ∷ [])
          l.tags (conf.lb_name ∷ []) (ground (arith, eq_refl conf.lb_name)) in
      let limited = settled_int true conf.conn_limit l.conn_limit in
      let sealed =
        settled (λ ref. not (conf.tls_container_ref == ref)) conf.tls_container_ref
          l.default_tls_container_ref conf.tls_container_ref
          (ground (arith, eq_refl conf.tls_container_ref)) in
      let allowed =
        settled (λ cidrs. acl && not (string_list_equal conf.allowed_cidr cidrs)) conf.allowed_cidr
          l.allowed_cidrs conf.allowed_cidr
          (ground (arith, string_list_equal_self conf.allowed_cidr)) in
      neither
        (neither
          (neither
            (neither
              (neither (neither (neither (neither tagged limited) settled_headers) sealed)
                (settled_int asked conf.timeout_client_data l.timeout_client_data))
              (settled_int asked conf.timeout_member_connect l.timeout_member_connect))
            (settled_int asked conf.timeout_member_data l.timeout_member_data))
          (settled_int asked conf.timeout_tcp_inspect l.timeout_tcp_inspect))
        allowed

  selected_protocol_eq :
      (protocol : String)
      → (protocol == "TERMINATED_HTTPS") ≡ false
      → selected_protocol lbaas conf protocol ≡ get_listener_protocol protocol conf
  unfolding get_listener_protocol
  selected_protocol_eq protocol other =
      ground (arith, eq_iff protocol "TERMINATED_HTTPS", eq_iff protocol "HTTP")

  -- For a port whose protocol is not TERMINATED_HTTPS itself, the created options have the protocol
  -- and the port under which the listener is looked up, so
  -- that a listener made from them is the one that the next call finds, whatever was there before.
  pub find_listener-created :
      (port : ServicePort) (current : List Listener)
      → (port.protocol == "TERMINATED_HTTPS") ≡ false
      → l.protocol ≡ (build_listener_create_opt lbaas conf port).protocol
      → l.protocol_port ≡ (build_listener_create_opt lbaas conf port).protocol_port
      → find_listener (current ++ l ∷ []) (get_listener_protocol port.protocol conf) port.port
        ≡ some l
  unfolding find_listener get_listener_protocol build_listener_create_opt
  find_listener-created port [] other same at =
      rw (same ∙ selected_protocol_eq port.protocol other, at)
        (rw
          (eq_refl (get_listener_protocol port.protocol conf), (eqb_iff port.port port.port).1 refl)
          refl)
  find_listener-created port (m ∷ ms) other same at =
      rw (find_listener-created port ms other same at) refl

  -- The tags of a listener after the update: where Octavia has tags and the listener lacks the load
  -- balancer's name, that name is its only tag, so that every other tag is gone; else its tags are as
  -- before.
  pub listener_update-drops_tags :
      (tag : String)
      → contains (apply_update (listener_update lbaas conf l) l).tags tag ≡ (
          if conf.support_lb_tags && not (contains l.tags conf.lb_name)
          then conf.lb_name == tag
          else contains l.tags tag)
  unfolding listener_update contains
  listener_update-drops_tags tag =
      elim (Bool-cases (conf.support_lb_tags && not (contains l.tags conf.lb_name))) [
        | inl asked ↦ rw asked (ground arith)
        | inr other ↦ rw other refl
      ]

module _ {W : Type 0} (octavia : Octavia W) (steps : ℕ) (lbaas : Lbaas) where
  unchanged :
      (lb_id name : String) (current : List Listener) (port : ServicePort) (conf : ServiceConfig)
      (m : Listener) (w : W)
      → find_listener current (get_listener_protocol port.protocol conf) port.port ≡ some m
      → is_changed (listener_update lbaas conf m) ≡ false
      → ensure_octavia_listener octavia steps lbaas lb_id name current port conf w ≡ (ok m, w)
  unfolding ensure_octavia_listener
  unchanged lb_id name current port conf m w found settled_now =
      rw (found, ensure_octavia_listener) (rw settled_now refl)

  -- Once a listener is updated, and is the one that is found at the service's port, the call returns
  -- it and makes no request.
  pub ensure_octavia_listener-settled :
      (lb_id name : String) (current : List Listener) (port : ServicePort) (conf : ServiceConfig)
      (l : Listener) (w : W)
      → find_listener current (get_listener_protocol port.protocol conf) port.port
        ≡ some (apply_update (listener_update lbaas conf l) l)
      → ensure_octavia_listener octavia steps lbaas lb_id name current port conf w
        ≡ (ok (apply_update (listener_update lbaas conf l) l), w)
  ensure_octavia_listener-settled lb_id name current port conf l w found =
      unchanged lb_id name current port conf (apply_update (listener_update lbaas conf l) l) w found
        (listener_update-applied lbaas conf l)
