-- ===== src/Lb.antt =====
-- pkg/openstack/loadbalancer.go: the load balancer of a service in Octavia.
pub mod Api
pub mod Features
pub mod Listeners
pub mod Octavia
pub mod Convergence
pub mod Nodes
pub mod Pools
pub mod Rules
pub mod Serial
pub mod EnsurePool
pub mod RulesLaws
pub mod PoolLaws
pub mod SecurityGroup
pub mod SubnetOfNode
pub mod Monitors
pub mod Annotations
pub mod AnnotationLaws
pub mod Tags
pub mod CheckUpdate
mod Samples
pub mod Balancers
pub mod Deletion
pub mod EnsureDeleted
pub mod FloatingIps
pub mod CheckService
pub mod PublicNetwork
pub mod CreateBalancer
pub mod EnsureBalancer
pub mod UpdateBalancer
pub mod DeletionLaws
pub mod KeptBalancers
pub mod Sharing
pub mod UsedBalancer
mod BalancerSamples
mod BalancerTests
mod Tests
mod ConfigTests
