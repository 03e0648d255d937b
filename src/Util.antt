-- ===== src/Util.antt =====
-- pkg/util/util.go and pkg/util/net/sets/ipnet.go: small functions that the rest of the program
-- calls, and the set of networks.
pub mod Basic
pub mod Counting
pub mod IpNet
pub mod NetLaws
mod Tests
