-- ===== src/Lb/Features.antt =====
-- IsOctaviaFeatureSupported of pkg/util/openstack/loadbalancer.go. A version is its major and minor
-- number; the answer of Octavia is a field of `Lbaas`.
use cloud_provider_openstack.Prelude.{
  true, Bool, ◌≡◌, ℕ, ◌||◌, some, ◌==◌, false, ◌&&◌, none, String, leb, ltb, if◌then◌else◌, eqb,
  arith,
}
use cloud_provider_openstack.Lb.Api.{Lbaas}

-- the constants from OctaviaFeatureTags on
pub data Feature : Type 0 where
  feature_tags feature_vip_acl feature_flavors feature_timeout : Feature
  feature_availability_zones feature_http_monitors_on_udp : Feature

-- currentVer.GreaterThanOrEqual(v2.x)
unfoldable pub at_least : ℕ × ℕ → ℕ × ℕ → Bool
at_least (major, minor) (m, n) = ltb m major || (eqb m major && leb n minor)

-- the version that has the feature
abbrev pub since : Feature → ℕ × ℕ
since feature_tags = (2, 5)
since feature_vip_acl = (2, 12)
since feature_flavors = (2, 6)
since feature_timeout = (2, 1)
since feature_availability_zones = (2, 14)
since feature_http_monitors_on_udp = (2, 16)

-- the provider "ovn" is asked for in every case but the tags'
abbrev pub lacks : Feature → String → Bool
lacks feature_tags provider = false
lacks _ provider = provider == "ovn"

unfoldable pub is_octavia_feature_supported : Lbaas → Feature → Bool
unfolding at_least
is_octavia_feature_supported lbaas feature = elim lbaas.octavia_version [
  | none ↦ false
  | some v ↦ if lacks feature lbaas.lb_provider then false else at_least v (since feature)
]

-- A feature that an Octavia has is there in every later version, with the same provider.
pub is_octavia_feature_supported_mono :
    (lbaas : Lbaas) (feature : Feature) (v w : ℕ × ℕ)
    → at_least w v ≡ true
    → is_octavia_feature_supported (record lbaas { octavia_version = some v }) feature ≡ true
    → is_octavia_feature_supported (record lbaas { octavia_version = some w }) feature ≡ true
unfolding is_octavia_feature_supported at_least
is_octavia_feature_supported_mono lbaas feature v w later h = ground arith
