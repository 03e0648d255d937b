-- ===== src/Lb/AnnotationLaws.antt =====
-- What the check of the listeners' ports and the getters of ids promise.
use mathlib.Core.Option.{some-injective}
use mathlib.Core.Bool.{false≢true}
use cloud_provider_openstack.Prelude.{
  ap, true, ◌∷◌, String, List, ◌⊎◌, none, Bool, ◌&&◌, inl, some, inr, ◌∙◌, not, ◌==◌, ◌≡◌, eq_iff,
  arith, ◌↔◌, sym, Option, [], refl, if◌then◌else◌, Bool-cases, Option-cases, All,
}
use cloud_provider_openstack.Lb.Listeners.{is_set, find_listener}
use cloud_provider_openstack.Prelude.Maps.{find_entry}
use cloud_provider_openstack.Lb.Api.{Lbaas, ServicePort, Listener, LbClass, Service}
use cloud_provider_openstack.Lb.Annotations.{
  get_string_from_service_annotation, class_name, is_own, configured_id, check_listener_ports,
}
use cloud_provider_openstack.Go.{message, err, ok}

abbrev pub IsFree : List Listener → Bool → String → ServicePort → Type 0
IsFree current is_lb_owner lb_name p =
    (find_listener current p.protocol p.port ≡ none)
    ⊎ ((l : Listener) × (find_listener current p.protocol p.port ≡ some l)
        × (is_own is_lb_owner lb_name l ≡ true))

-- No conflict is reported exactly if at each port of the service there is no listener of that
-- protocol, or one that has the load balancer's name among its tags, or one without tags where the
-- service owns the load balancer.
pub check_listener_ports_iff :
    (ports : List ServicePort) (current : List Listener) (is_lb_owner : Bool) (lb_name : String)
    → (check_listener_ports ports current is_lb_owner lb_name ≡ none)
      ↔ All (IsFree current is_lb_owner lb_name) ports
unfolding check_listener_ports
check_listener_ports_iff [] current is_lb_owner lb_name = (λ h. tt, λ h. refl)
check_listener_ports_iff (p ∷ ports) current is_lb_owner lb_name =
    let later = check_listener_ports_iff ports current is_lb_owner lb_name in
    elim (Option-cases (find_listener current p.protocol p.port)) [
      | inl e ↦
          let step : check_listener_ports (p ∷ ports) current is_lb_owner lb_name
              ≡ check_listener_ports ports current is_lb_owner lb_name =
            rw (e, check_listener_ports) refl in
          (λ h. (inl e, later.0 (sym step ∙ h)), λ h. step ∙ later.1 h.1)
      | inr (l, e) ↦ elim (Bool-cases (is_own is_lb_owner lb_name l)) [
        | inl own ↦
            let step : check_listener_ports (p ∷ ports) current is_lb_owner lb_name
                ≡ check_listener_ports ports current is_lb_owner lb_name =
              rw (e, check_listener_ports) (rw own refl) in
            (λ h. (inr (l, e, own), later.0 (sym step ∙ h)), λ h. step ∙ later.1 h.1)
        | inr other ↦
            let step : check_listener_ports (p ∷ ports) current is_lb_owner lb_name ≡ some p.port =
              rw (e, check_listener_ports) (rw other refl) in
            (
              λ h. absurd (ground (arith, sym step ∙ h)),
              λ h. elim h.0 [
                | inl missing ↦ absurd (ground (arith, sym missing ∙ e))
                | inr (m, found, own) ↦
                    let same : l ≡ m = some-injective l m (sym e ∙ found) in
                    absurd (false≢true (sym other ∙ ap (is_own is_lb_owner lb_name) same ∙ own))
              ],
            )
      ]
    ]

-- the first text that is not empty, and the empty one where there is none
abbrev pub first_non_empty : List String → String
first_non_empty [] = ""
first_non_empty (x ∷ xs) = if x == "" then first_non_empty xs else x

abbrev pub class_id : Option LbClass → (LbClass → String) → String
class_id none of_class = ""
class_id (some c) of_class = of_class c

abbrev pub named_class : Lbaas → Service → Option LbClass
named_class lbaas service =
    if class_name lbaas service == ""
    then none
    else find_entry (class_name lbaas service) lbaas.lb_classes

last_text : (x : String) → (if x == "" then "" else x) ≡ x
last_text x = elim (Bool-cases (x == "")) [
  | inl e ↦ rw e (sym ((eq_iff x "").0 e))
  | inr e ↦ rw e refl
]

class_text :
    (x y : String)
    → (if x == "" then ok y else ok x) ≡ ok (if x == "" then (if y == "" then "" else y) else x)
class_text x y = elim (Bool-cases (x == "")) [
  | inl e ↦ rw e (ap ok (sym (last_text y)))
  | inr e ↦ rw e refl
]

ladder_eq :
    (annotated named from_opts : String) (of_class : LbClass → String) (found : Option LbClass)
    → (if not (annotated == "")
        then ok annotated
        else if named == ""
        then ok from_opts
        else elim found [
          | none ↦ err (message "invalid loadbalancer class")
          | some c ↦ if of_class c == "" then ok from_opts else ok (of_class c)
        ])
      ≡ (if annotated == ""
            && (not (named == "") && not (is_set (if named == "" then none else found)))
          then err (message "invalid loadbalancer class")
          else ok (
              first_non_empty (
                annotated
                ∷ class_id (if named == "" then none else found) of_class
                ∷ from_opts
                ∷ [])))
ladder_eq annotated named from_opts of_class none = elim (Bool-cases (annotated == "")) [
  | inr given ↦ rw given refl
  | inl absent ↦ elim (Bool-cases (named == "")) [
    | inl unnamed ↦ rw absent (rw unnamed (ap ok (sym (last_text from_opts))))
    | inr is_named ↦ rw absent (rw is_named refl)
  ]
]
ladder_eq annotated named from_opts of_class (some c) = elim (Bool-cases (annotated == "")) [
  | inr given ↦ rw given refl
  | inl absent ↦ elim (Bool-cases (named == "")) [
    | inl unnamed ↦ rw absent (rw unnamed (ap ok (sym (last_text from_opts))))
    | inr is_named ↦ rw absent (rw is_named (class_text (of_class c) from_opts))
  ]
]

-- The id is the first one that is given by the annotation, by the class that the service names, and
-- by the configuration, in this order. Only a service that has no such annotation and names a class
-- that does not exist gets an error.
pub configured_id_eq :
    (lbaas : Lbaas) (service : Service) (key : String) (of_class : LbClass → String)
    (from_opts : String)
    → configured_id lbaas service key of_class from_opts ≡ (
        if get_string_from_service_annotation service key "" == ""
          && (not (class_name lbaas service == "") && not (is_set (named_class lbaas service)))
        then err (message "invalid loadbalancer class")
        else ok (
            first_non_empty (
              get_string_from_service_annotation service key ""
              ∷ class_id (named_class lbaas service) of_class
              ∷ from_opts
              ∷ [])))
unfolding configured_id
configured_id_eq lbaas service key of_class from_opts =
    ladder_eq (get_string_from_service_annotation service key "") (class_name lbaas service)
      from_opts of_class (find_entry (class_name lbaas service) lbaas.lb_classes)
