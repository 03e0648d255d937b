-- ===== src/Lib.antt =====
-- Models and theorems of the core logic of cloud-provider-openstack, the set of Kubernetes plugins
-- for OpenStack.
--
-- Parts and files:
-- - Go.antt: how Go's control flow is read. `Exec` is a call that may fail and changes the world of
--   the OpenStack services; `Body` is a function that defers `onFailure.call` (`caller` of
--   pkg/openstack/openstack.go), whose unwinders run last to first while it is armed.
-- - Routes (pkg/openstack/routes.go): `Routes.Api` has the data and the requests of Neutron as the
--   parameter `Neutron`; `create_route`, `delete_route` and `list_routes` are CreateRoute, DeleteRoute
--   and ListRoutes. A slice is the list of its elements; a write in place is made before the shared
--   list is read again, as the source does it. `Routes.Laws` states what is relied on of Neutron.
-- - Keystone (pkg/identity/keystone/authorizer.go, policy.go): `authorize` is Authorize, `match_all`
--   is match, `get_allowed` is getAllowed. Texts are lists of code points, a map is the list of its
--   entries, and the reading of a nil pointer is the result `none`.
-- - Kms (pkg/kms/encryption/aescbc/aescbc.go): `encrypt` and `decrypt`; the cipher is a parameter.
-- - Util (pkg/util/util.go, pkg/util/net/sets/ipnet.go): the small functions and the set of networks.
-- - Lb (pkg/openstack/loadbalancer.go, pkg/util/openstack/loadbalancer.go and
--   loadbalancer_serial.go): `Lb.Api` has the data and `Lb.Octavia` the requests as the parameter
--   `Octavia`; `ensure_octavia_listener` and `ensure_octavia_pool` are ensureOctaviaListener and
--   ensureOctaviaPool, `serially_reconcile_pool_members` is SeriallyReconcilePoolMembers,
--   `get_rules_to_create_and_delete` is getRulesToCreateAndDelete, `ensure_octavia_health_monitor` is
--   ensureOctaviaHealthMonitor, `ensure_and_update_octavia_security_group` is
--   ensureAndUpdateOctaviaSecurityGroup over the requests `Groups`; `Lb.Annotations` and `Lb.Tags` are
--   about annotations and tags. A wait for a load balancer has the steps of the source's backoff as
--   its bound, a number that the source reads from its environment.
--   Whole load balancers are in `Lb.Balancers` (names, searches, waits), `Lb.Deletion` and
--   `Lb.EnsureDeleted` (`ensure_load_balancer_deleted` is ensureLoadBalancerDeleted), `Lb.FloatingIps`
--   (`ensure_floating_ip`), `Lb.CheckService` and `Lb.PublicNetwork` (`check_service`),
--   `Lb.CreateBalancer`, `Lb.EnsureBalancer` (`ensure_octavia_load_balancer`) and `Lb.UpdateBalancer`
--   (`update_octavia_load_balancer`), over the requests of the record `Parts`. The legacy name of a
--   service, which a library makes, and the subnets that match a specification are parameters.
-- - Synchronisation (pkg/identity/keystone/sync.go): `Keystone.Namespaces` has the configuration
--   (`validate`, formatNamespaceName as `format_namespace_name`, `sync_roles`), `Keystone.Sync` the
--   Syncer (`sync_data`, `sync_project_data`, `sync_role_assignments_data`) over the requests of
--   Kubernetes, and `Keystone.SyncLaws` what is relied on of them.
-- - Instances (pkg/openstack/instances.go and instancesv2.go): `Instances.Api` has the data, and the
--   requests to Nova and Neutron as the parameter `Cloud`, each with the client that it is made
--   through; `Readers` is what net, the validation of labels and regexp.QuoteMeta answer.
--   `Instances.ProviderId` reads provider ids, `Instances.NodeAddresses` and `Instances.Removing` are
--   AddToNodeAddresses and RemoveFromNodeAddresses, `Instances.AddressOrder` is sortNodeAddresses,
--   `Instances.AddressList` nodeAddresses (`node_addresses_of`), `Instances.Servers` the methods of
--   Instances, `Instances.V2` those of InstancesV2, and `Instances.Local` the id of the own server.
--   sort.SliceStable and sort.Strings are the stable insertion sort of Prelude.Sorting.
-- - Cinder (pkg/csi/cinder/controllerserver.go, openstack/openstack_volumes.go and
--   openstack_snapshots.go): `Cinder.Api` has the data and the requests to Cinder and Nova as the
--   parameter `Cinder`, with wait.ExponentialBackoff; `Cinder.Requests` has the functions of the
--   package openstack, `Cinder.Volumes`, `Cinder.Attaching` and `Cinder.Snapshots` the methods of the
--   controller server. `Cinder.Store` states what is relied on of the volumes and what CreateVolume
--   promises; `poll` of Go.antt is what the wait documents. A wait has the source's steps, and its
--   pauses are left out.
-- - Prelude: the shared names, tests and lists over native numbers.
--
-- Numbers: sizes and ports are native numbers and are not negative. Loops are structural recursions
-- over the lists that the source ranges over, or over the steps of a backoff.
--
-- Not modelled: logging, metrics, locks (one call runs at a time), and the start of processes. Letters
-- beyond ASCII keep their case in `to_lower`. The list of components of the manifest names the parts
-- that are left out.
mod Prelude
pub mod Go
pub mod Routes
pub mod Keystone
pub mod Util
pub mod Kms
pub mod Lb
pub mod Instances
pub mod Cinder
