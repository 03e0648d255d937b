-- ===== src/Lb/Listeners.antt =====
-- getListenerProtocol, popListener, buildListenerCreateOpt and ensureOctaviaListener of
-- pkg/openstack/loadbalancer.go
use cloud_provider_openstack.Lb.Octavia.{Octavia, update_listener, create_listener}
use cloud_provider_openstack.Go.{◌>>=◌, Exec, pure}
use cloud_provider_openstack.Util.Basic.{contains, string_list_equal}
use cloud_provider_openstack.Prelude.Int.{int_eq, ℤ}
use cloud_provider_openstack.Prelude.{
  true, Option, Bool, ◌||◌, some, ◌==◌, List, false, ◌&&◌, none, String, [], not, ◌∷◌,
  if◌then◌else◌, ℕ, eqb, ◌++◌,
}
use cloud_provider_openstack.Prelude.Maps.{put_header, delete_header, get_header}
use cloud_provider_openstack.Lb.Features.{
  feature_vip_acl, is_octavia_feature_supported, feature_timeout,
}
use cloud_provider_openstack.Lb.Api.{
  ServicePort, ListenerUpdate, ServiceConfig, ListenerCreate, Lbaas, Listener,
}

-- `svcConf` is not nil where the source calls this.
unfoldable pub get_listener_protocol : String → ServiceConfig → String
get_listener_protocol protocol conf =
    if not (conf.tls_container_ref == "")
    then "TERMINATED_HTTPS"
    else if conf.keep_client_ip
    then "HTTP"
    else protocol

unfoldable pub pop_listener : List Listener → String → List Listener
pop_listener [] id = []
pop_listener (l ∷ ls) id =
    let rest = pop_listener ls id in if not (l.id == id) then l ∷ rest else rest

abbrev pub forwarded_for : String
forwarded_for = "X-Forwarded-For"

abbrev pub only_if {ℓ} : {A : Type ℓ} → Bool → A → Option A
only_if true a = some a
only_if false a = none

-- copy(dst, src): as many elements as both have are overwritten, and the length of dst stays.
unfoldable pub copy_into : List String → List String → List String
copy_into [] src = []
copy_into (d ∷ dst) [] = d ∷ dst
copy_into (d ∷ dst) (s ∷ src) = s ∷ copy_into dst src

module _ (lbaas : Lbaas) (conf : ServiceConfig) where
  -- the protocol selection at the end of the options
  abbrev pub selected_protocol : String → String
  selected_protocol protocol =
      if not (conf.tls_container_ref == "") && not (protocol == "TERMINATED_HTTPS")
      then "TERMINATED_HTTPS"
      else if conf.keep_client_ip && not (protocol == "HTTP")
      then "HTTP"
      else protocol

  unfoldable pub build_listener_create_opt : ServicePort → ListenerCreate
  unfolding is_octavia_feature_supported
  build_listener_create_opt port =
      let timeouts = is_octavia_feature_supported lbaas feature_timeout in
      record {
        loadbalancer_id = "";
        name = "";
        protocol = selected_protocol port.protocol;
        protocol_port = port.port;
        tags = if conf.support_lb_tags then conf.lb_name ∷ [] else [];
        conn_limit = some conf.conn_limit;
        insert_headers = if conf.keep_client_ip then (forwarded_for, "true") ∷ [] else [];
        default_tls_container_ref = conf.tls_container_ref;
        timeout_client_data = only_if timeouts conf.timeout_client_data;
        timeout_member_connect = only_if timeouts conf.timeout_member_connect;
        timeout_member_data = only_if timeouts conf.timeout_member_data;
        timeout_tcp_inspect = only_if timeouts conf.timeout_tcp_inspect;
        allowed_cidrs =
            if is_octavia_feature_supported lbaas feature_vip_acl then conf.allowed_cidr else [];
      }

  -- the value where it is asked for and the listener has another one
  abbrev pub differing : Bool → ℤ → ℤ → Option ℤ
  differing asked wanted there = only_if (asked && not (int_eq wanted there)) wanted

  abbrev pub keeps_client_ip : Listener → Bool
  keeps_client_ip listener = get_header forwarded_for listener.insert_headers == "true"

  -- The fields that are set are those for which the source sets `listenerChanged`.
  unfoldable pub listener_update : Listener → ListenerUpdate
  unfolding is_octavia_feature_supported copy_into
  listener_update listener =
      let timeouts = is_octavia_feature_supported lbaas feature_timeout in
      let acl = is_octavia_feature_supported lbaas feature_vip_acl in
      record {
        tags =
            only_if (conf.support_lb_tags && not (contains listener.tags conf.lb_name))
              (copy_into [] listener.tags ++ conf.lb_name ∷ []);
        conn_limit = differing true conf.conn_limit listener.conn_limit;
        insert_headers =
            if conf.keep_client_ip
            then only_if (not (keeps_client_ip listener))
                (put_header forwarded_for "true" listener.insert_headers)
            else only_if (keeps_client_ip listener)
                (delete_header forwarded_for listener.insert_headers);
        default_tls_container_ref =
            only_if (not (conf.tls_container_ref == listener.default_tls_container_ref))
              conf.tls_container_ref;
        timeout_client_data =
            differing timeouts conf.timeout_client_data listener.timeout_client_data;
        timeout_member_connect =
            differing timeouts conf.timeout_member_connect listener.timeout_member_connect;
        timeout_member_data =
            differing timeouts conf.timeout_member_data listener.timeout_member_data;
        timeout_tcp_inspect =
            differing timeouts conf.timeout_tcp_inspect listener.timeout_tcp_inspect;
        allowed_cidrs =
            only_if (acl && not (string_list_equal conf.allowed_cidr listener.allowed_cidrs))
              conf.allowed_cidr;
      }

-- listenerChanged
abbrev pub is_set {ℓ} : {A : Type ℓ} → Option A → Bool
is_set none = false
is_set (some _) = true

abbrev pub is_changed : ListenerUpdate → Bool
is_changed u =
    is_set u.tags
    || is_set u.conn_limit
    || is_set u.insert_headers
    || is_set u.default_tls_container_ref
    || is_set u.timeout_client_data
    || is_set u.timeout_member_connect
    || is_set u.timeout_member_data
    || is_set u.timeout_tcp_inspect
    || is_set u.allowed_cidrs

-- The source's map has the protocol and the port as its key, and is filled from a list: a later
-- listener takes the place of an earlier one.
unfoldable pub find_listener : List Listener → String → ℕ → Option Listener
find_listener [] protocol port = none
find_listener (l ∷ ls) protocol port =
    let here = l.protocol == protocol && eqb l.protocol_port port in
    elim (find_listener ls protocol port) [ some later ↦ some later | none ↦ only_if here l ]

-- The headers are changed in the map that the listener has.
abbrev pub with_headers : Option (List (String × String)) → Listener → Listener
with_headers none listener = listener
with_headers (some headers) listener = record listener { insert_headers = headers }

module _ {W : Type 0} (octavia : Octavia W) (steps : ℕ) (lbaas : Lbaas) where
  unfoldable pub ensure_octavia_listener :
      String → String → List Listener → ServicePort → ServiceConfig → Exec W Listener
  unfolding build_listener_create_opt listener_update get_listener_protocol find_listener
  ensure_octavia_listener lb_id name current port conf =
      elim (find_listener current (get_listener_protocol port.protocol conf) port.port) [
        | none ↦
            create_listener octavia steps lb_id
              (record (build_listener_create_opt lbaas conf port) {
                loadbalancer_id = lb_id;
                name = name;
              })
        | some listener ↦
            let opts = listener_update lbaas conf listener in
            if is_changed opts
            then (update_listener octavia steps lb_id listener.id opts >>= λ _.
                pure (with_headers opts.insert_headers listener))
            else pure listener
      ]
