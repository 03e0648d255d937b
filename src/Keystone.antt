-- ===== src/Keystone.antt =====
-- pkg/identity/keystone: the policies of the webhook and the decision that they give. `Search`
-- has what the source uses of Go's `sort`, `Policy` the data, `Permission` the permission maps,
-- `Rules` the older rules with their match lists, `Authorize` the decision; `Namespaces` and `Sync`
-- the synchronisation of users with Kubernetes.
pub mod Search
pub mod Policy
pub mod Permission
pub mod Rules
pub mod Authorize
pub mod Order
pub mod Decisions
pub mod Matching
pub mod Namespaces
pub mod Sync
pub mod SyncLaws
mod SyncTests
mod Tests
