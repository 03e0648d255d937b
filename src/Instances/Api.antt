-- ===== src/Instances/Api.antt =====
-- The data of pkg/openstack/instances.go and the requests that it makes. Nova and Neutron are the
-- parameter `Cloud`, whose requests name the client that they are made through; the readers of
-- addresses and labels are the parameter `Readers`.
use cloud_provider_openstack.Routes.Api.{NodeAddress}
use cloud_provider_openstack.Go.{Exec, Result}
use cloud_provider_openstack.Prelude.{String, List, Bool, Option, ℕ}
use cloud_provider_openstack.Prelude.Strings.{Text}

-- gophercloud.ServiceClient: of Nova or of Neutron
pub data Client : Type 0 where
  compute_client network_client : Client

-- servers.Server with its zone (ServerAttributesExt); a value of `flavor` that is no text is `none`.
pub record Server : Type 0 where
  pub id : Text
  pub status : String
  pub availability_zone : String
  pub access_ipv4 : String
  pub access_ipv6 : String
  pub metadata : List (String × String)
  pub flavor : List (String × Option String)

-- flavors.Flavor
pub record Flavor : Type 0 where
  pub id : String
  pub name : String

-- PortWithTrunkDetails: the addresses of its fixed IPs, and the ids of its subports
pub record TrunkPort : Type 0 where
  pub status : String
  pub fixed_ips : List String
  pub subports : List String

-- ports.Port as it is read for a subport
pub record SubPort : Type 0 where
  pub network_id : String
  pub fixed_ips : List String

-- `Address` of nodeAddresses
pub record IpEntry : Type 0 where
  pub ip_type : String
  pub addr : String

-- The requests. A list of servers is its pages: each the servers that are read out of it, or the
-- error that ends the list.
pub record Cloud (W : Type 0) : Type 0 where
  pub server_get : Client → Text → Exec W Server
  pub server_pages : Client → String → W → List (Result (List Server)) × W
  pub flavor_get : Client → String → Exec W Flavor
  pub ports_of : Client → Text → Exec W (List TrunkPort)
  pub port_get : Client → String → Exec W SubPort
  pub network_name : Client → String → Exec W String
  -- mapstructure.Decode of the server's addresses: the entries of each network. It is not nil.
  pub decode_addresses : Server → Result (List (String × List IpEntry))

-- `net.ParseIP`, with the sixteen bytes of an address; `net.ParseCIDR` without its address, and
-- `Contains`; `validation.IsValidLabelValue`; `regexp.QuoteMeta` between "^" and "$"
pub record Readers (N : Type 0) : Type 0 where
  pub parse_ip_bytes : String → Option (List ℕ)
  pub parse_net : Text → Option N
  pub net_contains : N → List ℕ → Bool
  pub is_label : String → Bool
  pub exactly : String → String

-- NetworkingOpts; the order of addresses is a text that is looked into.
pub record AddressOpts : Type 0 where
  pub ipv6_disabled : Bool
  pub public_networks : List String
  pub internal_networks : List String
  pub sort_order : Text

-- `Instances`
pub record InstancesConf : Type 0 where
  pub region : Text
  pub region_provider_id : Bool
  pub address_opts : AddressOpts

-- cloudprovider.InstanceMetadata
pub record Metadata : Type 0 where
  pub provider_id : Text
  pub instance_type : String
  pub node_addresses : List NodeAddress
