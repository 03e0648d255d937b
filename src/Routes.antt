-- ===== src/Routes.antt =====
-- pkg/openstack/routes.go: the routes of the cluster's router, and the allowed address pairs of
-- the nodes' ports. `Api` has the data and what Neutron offers, `Addresses` the searches through
-- the nodes, `Change` the requests with their unwinders, and `Create`, `Delete` and `List` the
-- methods of `Routes`; the other modules prove.
pub mod Api
pub mod Addresses
pub mod Change
pub mod Create
pub mod Delete
pub mod CreateEnsures
pub mod Laws
pub mod Ports
pub mod Slices
pub mod DeleteEffects
pub mod Deletion
pub mod Listing
pub mod Names
mod Tests
pub mod CreateRestores
