-- ===== src/Routes/Names.antt =====
-- From addresses to nodes and back.
use cloud_provider_openstack.Routes.Api.{NodeAddress, Node, IpParser}
use cloud_provider_openstack.Routes.Addresses.{
  internal_addr, get_node_name_by_addr, family_fits, has_address, get_addr_by_node_name,
}
use cloud_provider_openstack.Prelude.{
  true, [], ◌==◌, ◌≡◌, List, some, arith, ◌∷◌, inl, String, refl, ◌≢◌, Bool, inr, eq_iff,
  Bool-cases, any, Some, ◌∙◌, sym, ap, Option-cases,
}

module _ (ip : IpParser) where
  -- An address that is found for a node and family stands among the internal addresses of a node of
  -- that name, and is of the family.
  abbrev pub Fits : String → Bool → String → Node → Type 0
  Fits name need addr node =
      (node.name ≡ name)
      × Some
          (λ (v : NodeAddress).
            (v.kind ≡ "InternalIP")
            × (v.address ≡ addr)
            × (family_fits need (ip.parse_ip v.address) ≡ true))
          node.addresses

  internal_addr_sound :
      (need : Bool) (vs : List NodeAddress) (addr : String)
      → internal_addr ip need vs ≡ some addr
      → Some
          (λ (v : NodeAddress).
            (v.kind ≡ "InternalIP")
            × (v.address ≡ addr)
            × (family_fits need (ip.parse_ip v.address) ≡ true))
          vs
  unfolding internal_addr
  internal_addr_sound need [] addr h = cc
  internal_addr_sound need (v ∷ vs) addr h =
      ground (arith, eq_iff v.kind "InternalIP", internal_addr_sound need vs addr)

  -- The address that `CreateRoute` uses as next hop: unless it is empty, it is an internal address
  -- of the family that is asked for, of a node with the name.
  pub get_addr_by_node_name_sound :
      (name : String) (need : Bool) (nodes : List Node) (addr : String)
      → get_addr_by_node_name ip name need nodes ≡ addr
      → addr ≢ ""
      → Some (Fits name need addr) nodes
  unfolding get_addr_by_node_name
  get_addr_by_node_name_sound name need [] addr h given = absurd (given (sym h))
  get_addr_by_node_name_sound name need (node ∷ nodes) addr h given =
      elim (Bool-cases (node.name == name)) [
        | inl same ↦ elim (Option-cases (internal_addr ip need node.addresses)) [
          | inl nowhere ↦
              inr (get_addr_by_node_name_sound name need nodes addr (rw (same, nowhere) at h) given)
          | inr (a, there) ↦
              let e : a ≡ addr = rw (same, there) at h in
              inl (
                (eq_iff node.name name).0 same,
                internal_addr_sound need node.addresses addr (there ∙ ap some e),
              )
        ]
        | inr other ↦ inr (get_addr_by_node_name_sound name need nodes addr (rw other at h) given)
      ]

-- A name comes back exactly for an address that some node has; otherwise the address itself does.
pub get_node_name_by_addr_found :
    (addr : String) (nodes : List Node)
    → (get_node_name_by_addr addr nodes).1 ≡ any (has_address addr) nodes
unfolding get_node_name_by_addr
get_node_name_by_addr_found addr [] = refl
get_node_name_by_addr_found addr (node ∷ nodes) =
    ground (arith, get_node_name_by_addr_found addr nodes)
