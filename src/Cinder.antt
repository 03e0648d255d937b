-- ===== src/Cinder.antt =====
-- pkg/csi/cinder: the CSI driver for Cinder's volumes. `Api` has the data and the requests to Cinder
-- and Nova, `Requests` the functions around them, `Volumes`, `Attaching` and `Snapshots` the methods of
-- the controller server.
pub mod Api
pub mod Requests
pub mod Volumes
pub mod Attaching
pub mod Snapshots
pub mod Store
pub mod GetOrCreate
pub mod Repeated
pub mod Along
pub mod AddsNone
pub mod Uniqueness
pub mod Waits
pub mod Reads
pub mod Publishing
pub mod Expanding
pub mod Samples
mod Tests
