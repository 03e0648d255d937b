-- ===== src/Instances.antt =====
-- pkg/openstack/instances.go and instancesv2.go: the provider ids, the addresses and the states of nodes.
pub mod ProviderId
pub mod NodeAddresses
pub mod Api
pub mod Removing
pub mod AddressOrder
pub mod AddressList
pub mod Servers
pub mod V2
pub mod Local
pub mod OrderLaws
pub mod ListLaws
pub mod ServerLaws
pub mod V2Laws
mod Tests
