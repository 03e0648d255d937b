-- ===== src/Instances/NodeAddresses.antt =====
-- AddToNodeAddresses of pkg/openstack/instances.go
use cloud_provider_openstack.Routes.Api.{NodeAddress}
use cloud_provider_openstack.Prelude.{
  refl, ◌∷◌, ◌&&◌, not, List, [], Bool, inr, ◌≡◌, ◌==◌, ◌++◌, eq_iff, false, true, arith, inl, ◌||◌,
  Bool-cases, if◌then◌else◌, any-append, any, ◌∙◌, ap,
}

abbrev pub same_address : NodeAddress → NodeAddress → Bool
same_address existing add = existing.address == add.address && existing.kind == add.kind

-- the inner loop: the address exists
abbrev pub has_node_address : List NodeAddress → NodeAddress → Bool
has_node_address addresses add = any (λ existing. same_address existing add) addresses

unfoldable pub add_to_node_addresses : List NodeAddress → List NodeAddress → List NodeAddress
add_to_node_addresses addresses [] = addresses
add_to_node_addresses addresses (add ∷ adds) =
    add_to_node_addresses
      (if has_node_address addresses add then addresses else addresses ++ add ∷ []) adds

-- no address stands twice, with its type
abbrev pub is_distinct : List NodeAddress → Bool
is_distinct [] = true
is_distinct (a ∷ addresses) = not (has_node_address addresses a) && is_distinct addresses

pub same_address_sym : (a b : NodeAddress) → same_address a b ≡ same_address b a
same_address_sym a b = ground (
  arith,
  eq_iff a.address b.address,
  eq_iff b.address a.address,
  eq_iff a.kind b.kind,
  eq_iff b.kind a.kind,
)

pub is_distinct-append :
    (addresses : List NodeAddress) (add : NodeAddress)
    → is_distinct addresses ≡ true
    → has_node_address addresses add ≡ false
    → is_distinct (addresses ++ add ∷ []) ≡ true
is_distinct-append [] add d new = refl
is_distinct-append (a ∷ addresses) add d new = ground (
  arith,
  d,
  new,
  same_address_sym a add,
  any-append (λ existing. same_address existing a) addresses (add ∷ []),
  is_distinct-append addresses add,
)

same_address_trans :
    (x add a : NodeAddress) → same_address add a ≡ true → same_address x add ≡ same_address x a
same_address_trans x add a h =
    let p = (eq_iff add.address a.address).0 (ground (arith, h)) in
    let q = (eq_iff add.kind a.kind).0 (ground (arith, h)) in
    ap (λ z. x.address == z && x.kind == add.kind) p
    ∙ ap (λ z. x.address == a.address && x.kind == z) q

has_node_address_same :
    (addresses : List NodeAddress) (add a : NodeAddress)
    → same_address add a ≡ true
    → has_node_address addresses add ≡ has_node_address addresses a
has_node_address_same [] add a h = refl
has_node_address_same (x ∷ addresses) add a h =
    ground (arith, same_address_trans x add a h, has_node_address_same addresses add a h)

-- Adding to addresses that are distinct gives distinct addresses, in which exactly those are found
-- that were there before or were added.
pub add_to_node_addresses_sound :
    (addresses adds : List NodeAddress)
    → is_distinct addresses ≡ true
    → (is_distinct (add_to_node_addresses addresses adds) ≡ true)
      × ((a : NodeAddress)
          → has_node_address (add_to_node_addresses addresses adds) a
            ≡ (has_node_address addresses a || any (λ add. same_address add a) adds))
unfolding add_to_node_addresses
add_to_node_addresses_sound addresses [] d = (d, λ a. ground arith)
add_to_node_addresses_sound addresses (add ∷ adds) d =
    elim (Bool-cases (has_node_address addresses add)) [
      | inl old ↦
          let (d', found) = add_to_node_addresses_sound addresses adds d in
          rw old (d', λ a. ground (arith, old, found a, has_node_address_same addresses add a))
      | inr new ↦
          let (d', found) =
            add_to_node_addresses_sound (addresses ++ add ∷ []) adds
              (is_distinct-append addresses add d new) in
          rw new (
            d',
            λ a. ground (
              arith,
              found a,
              any-append (λ existing. same_address existing a) addresses (add ∷ []),
            ),
          )
    ]
