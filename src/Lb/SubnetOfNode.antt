-- ===== src/Lb/SubnetOfNode.antt =====
-- getSubnetIDForLB of pkg/openstack/loadbalancer.go. `instanceIDFromProviderID` returns the id, the
-- region and an error, and the source takes the second of them for the id.
use cloud_provider_openstack.Routes.Api.{Node, IpParser}
use cloud_provider_openstack.Prelude.Strings.{Text}
use cloud_provider_openstack.Prelude.{
  sym, List, ap, ◌∷◌, ◌==◌, Option, none, some, refl, ◌++◌, String, ℕ, true, [], ◌≡◌, ◌∙◌,
  if◌then◌else◌,
}
use cloud_provider_openstack.Lb.Nodes.{node_address_for_lb}
use cloud_provider_openstack.Instances.ProviderId.{
  instance_id_from_provider_id-read, lacks_slash, scheme, instance_id_from_provider_id,
}
use cloud_provider_openstack.Go.{◌>>=◌, fail, Result, message, ok, not_found, err, Exec}

-- the fixed addresses of a port
pub record FixedIp : Type 0 where
  pub ip_address : String
  pub subnet_id : String

-- the subnet of the first fixed address that is this one, over the ports of the server in turn
unfoldable pub subnet_of_address : String → List (List FixedIp) → Option String
subnet_of_address addr [] = none
subnet_of_address addr (port ∷ ports) = first_fixed port (subnet_of_address addr ports)
  where
    first_fixed : List FixedIp → Option String → Option String
    first_fixed [] rest = rest
    first_fixed (f ∷ fs) rest =
        let later = first_fixed fs rest in if f.ip_address == addr then some f.subnet_id else later

abbrev pub found_or_missing : Option String → Result String
found_or_missing none = err not_found
found_or_missing (some subnet) = ok subnet

-- `attached_ports` is the list of the ports of a device, as Neutron answers it.
module _ {W : Type 0} (attached_ports : Text → Exec W (List (List FixedIp))) (ip : IpParser) where
  abbrev pub subnet_of_device : String → Option (Text × Text) → Exec W String
  subnet_of_device addr none = fail (message "can't determine instance ID from ProviderID")
  subnet_of_device addr (some (id, region)) =
      attached_ports region >>= λ ports w. (found_or_missing (subnet_of_address addr ports), w)

  abbrev pub subnet_at : Result String → Option (Text × Text) → Exec W String
  subnet_at (err e) parts = fail e
  subnet_at (ok addr) parts = subnet_of_device addr parts

  unfoldable pub get_subnet_id_for_lb : Node → Text → String → Exec W String
  unfolding node_address_for_lb instance_id_from_provider_id subnet_of_address
  get_subnet_id_for_lb node provider_id family =
      subnet_at (node_address_for_lb ip node family) (instance_id_from_provider_id provider_id)

  -- The instance of the node makes no difference to the subnet that is found: for provider ids
  -- "openstack://region/id" with the same region, which may be empty, the call makes the same
  -- request and has the same result, whatever the ids are.
  pub get_subnet_id_for_lb-any_instance :
      (node : Node) (family : String) (region : Text) (c d : ℕ) (id other : Text) (w : W)
      → lacks_slash region ≡ true
      → lacks_slash (c ∷ id) ≡ true
      → lacks_slash (d ∷ other) ≡ true
      → get_subnet_id_for_lb node (scheme ++ region ++ b'/' ∷ c ∷ id) family w
        ≡ get_subnet_id_for_lb node (scheme ++ region ++ b'/' ∷ d ∷ other) family w
  unfolding get_subnet_id_for_lb
  get_subnet_id_for_lb-any_instance node family region c d id other w hr hc hd =
      let address = node_address_for_lb ip node family in
      let first = instance_id_from_provider_id-read region c id hr hc in
      let second = instance_id_from_provider_id-read region d other hr hd in
      ap (λ parts. subnet_at address parts w) first.0
      ∙ same_region address
      ∙ sym (ap (λ parts. subnet_at address parts w) second.0)
    where
      same_region :
          (r : Result String)
          → subnet_at r (some (c ∷ id, region)) w ≡ subnet_at r (some (d ∷ other, region)) w
      same_region (ok addr) = refl
      same_region (err e) = refl
