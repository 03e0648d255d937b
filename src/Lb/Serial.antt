-- ===== src/Lb/Serial.antt =====
-- pkg/util/openstack/loadbalancer_serial.go: the members of a pool, one request at a time
use cloud_provider_openstack.Util.Basic.{cut_string_255}
use cloud_provider_openstack.Routes.Delete.{overwrite, shorten}
use cloud_provider_openstack.Routes.Api.{NodeAddress, Node}
use cloud_provider_openstack.Prelude.Strings.{codes, decimal, concat}
use cloud_provider_openstack.Prelude.{
  List, ℕ, Bool, some, String, suc, true, none, ◌&&◌, [], Option, false, ◌∷◌, ◌==◌, ◌≡◌, ltb, eqb,
  if◌then◌else◌, any, length, arith, inl, inr, refl, Bool-cases,
}
use cloud_provider_openstack.Lb.Octavia.{
  Octavia, poll_active, wait_active, MemberCreate, unless_missing,
}
use cloud_provider_openstack.Lb.Listeners.{only_if}
use cloud_provider_openstack.Lb.Api.{Pool, Member}
use cloud_provider_openstack.Go.{
  Result, Exec, err, pure, ok, panicked, fail, message, not_found, ◌>>=◌, fails_then, is_ok,
}

abbrev pub is_member : String → ℕ → Member → Bool
is_member addr port m = m.address == addr && eqb m.protocol_port port

abbrev pub member_exists : List Member → String → ℕ → Bool
member_exists members addr port = any (is_member addr port) members

-- The loop ranges over the members as they were, while the slice that it writes to gets shorter; a
-- write past its end panics, which is `none`.
unfoldable pub pop_from : String → ℕ → List Member → ℕ → List Member → Option (List Member)
pop_from addr port [] i members = some members
pop_from addr port (m ∷ ms) i members =
    elim (if is_member addr port m
      then only_if (ltb i (length members)) (shorten (overwrite members i))
      else some members) [ none ↦ none | some left ↦ pop_from addr port ms (suc i) left ]

unfoldable pub pop_member : List Member → String → ℕ → Option (List Member)
unfolding pop_from
pop_member members addr port = pop_from addr port members 0 members

unfoldable pub internal_or_first : List NodeAddress → String → String
internal_or_first [] first = first
internal_or_first (a ∷ addrs) first =
    let rest = internal_or_first addrs first in if a.kind == "InternalIP" then a.address else rest

unfoldable pub get_node_address_for_lb : List NodeAddress → Result String
unfolding internal_or_first
get_node_address_for_lb [] = err (message "no address found for host")
get_node_address_for_lb (a ∷ addrs) = ok (internal_or_first (a ∷ addrs) a.address)

abbrev pub or_panic : {W : Type 0} {A : Type 0} → Option A → Exec W A
or_panic none = fail panicked
or_panic (some a) = pure a

module _ {W : Type 0} (octavia : Octavia W) (steps : ℕ) (pool : Pool) (node_port : ℕ)
    (lb_id : String) where
  abbrev pub member_create_for : Node → String → MemberCreate
  member_create_for node addr = record {
    name = cut_string_255 (
        codes (
          concat "member_"
            (concat node.name (concat "_" (concat addr (concat "_" (decimal node_port)))))));
    address = addr;
    protocol_port = node_port;
  }

  -- one round for a node that has an address: the members that are left to be deleted
  unfoldable pub reconcile_node : Node → String → List Member → Exec W (List Member)
  unfolding pop_member poll_active cut_string_255 decimal
  reconcile_node node addr members =
      if member_exists members addr node_port
      then or_panic (pop_member members addr node_port)
      else octavia.member_create pool.id (member_create_for node addr) >>= λ _.
          wait_active octavia steps lb_id >>= λ _. pure members

  -- Of the errors of `getNodeAddressForLB` only ErrNotFound would be passed over.
  abbrev pub round_for :
      Node
      → Result String
      → List Member
      → (List Member → Exec W (List Member))
      → Exec W (List Member)
  round_for node (ok addr) members next = reconcile_node node addr members >>= next
  round_for node (err not_found) members next = next members
  round_for node (err e) members next = fail e

  unfoldable pub reconcile_nodes : List Node → List Member → Exec W (List Member)
  unfolding reconcile_node get_node_address_for_lb
  reconcile_nodes [] members = pure members
  reconcile_nodes (node ∷ nodes) members =
      round_for node (get_node_address_for_lb node.addresses) members (reconcile_nodes nodes)

  unfoldable pub delete_members : List Member → Exec W Unit
  unfolding poll_active
  delete_members [] w = (ok tt, w)
  delete_members (m ∷ ms) w =
      let (r, w') = octavia.member_delete pool.id m.id w in
      unless_missing octavia steps r (wait_active octavia steps lb_id >>= λ _. delete_members ms) w'

  -- a list that is not found is empty
  abbrev pub or_empty_list : Result (List Member) → (List Member → Exec W Unit) → Exec W Unit
  or_empty_list (ok members) next = next members
  or_empty_list (err not_found) next = next []
  or_empty_list (err e) next = fail e

  unfoldable pub serially_reconcile_pool_members : List Node → Exec W Unit
  unfolding reconcile_nodes delete_members
  serially_reconcile_pool_members nodes w =
      let (r, w') = octavia.members_list pool.id w in
      or_empty_list r (λ members. reconcile_nodes nodes members >>= delete_members) w'

no_address_for_lb :
    (addrs : List NodeAddress)
    → eqb (length addrs) 0 ≡ true
    → get_node_address_for_lb addrs ≡ err (message "no address found for host")
unfolding get_node_address_for_lb
no_address_for_lb [] h = refl
no_address_for_lb (a ∷ addrs) h = absurd (ground (arith, h))

module _ {W : Type 0} (octavia : Octavia W) (steps : ℕ) (pool : Pool) (node_port : ℕ)
    (lb_id : String) where
  fails-round_for :
      (node : Node) (r : Result String) (members : List Member)
      (next : List Member → Exec W (List Member)) (w : W)
      → ((left : List Member) (u : W) → is_ok (next left u).0 ≡ false)
      → is_ok (round_for octavia steps pool node_port lb_id node r members next w).0 ≡ false
  fails-round_for node (ok addr) members next w fails =
      fails_then (reconcile_node octavia steps pool node_port lb_id node addr members) next w fails
  fails-round_for node (err e) members next w fails = ground (arith, fails members w)

  -- One node without addresses is enough to make the reconciliation of the nodes fail, whatever the
  -- other nodes, the members and the answers of Octavia are.
  pub reconcile_nodes-no_address :
      (nodes : List Node) (members : List Member) (w : W)
      → any (λ (node : Node). eqb (length node.addresses) 0) nodes ≡ true
      → is_ok (reconcile_nodes octavia steps pool node_port lb_id nodes members w).0 ≡ false
  unfolding reconcile_nodes
  reconcile_nodes-no_address [] members w h = cc
  reconcile_nodes-no_address (node ∷ nodes) members w h =
      elim (Bool-cases (eqb (length node.addresses) 0)) [
        | inl none_here ↦ rw (no_address_for_lb node.addresses none_here) refl
        | inr some_here ↦
            let later : any (λ (n : Node). eqb (length n.addresses) 0) nodes ≡ true =
              ground (arith, h, some_here) in
            fails-round_for node (get_node_address_for_lb node.addresses) members
              (reconcile_nodes octavia steps pool node_port lb_id nodes) w
              (λ left u. reconcile_nodes-no_address nodes left u later)
      ]
