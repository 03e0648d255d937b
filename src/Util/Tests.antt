-- ===== src/Util/Tests.antt =====
-- The theorems of the small functions at concrete inputs.
use cloud_provider_openstack.Util.NetLaws.{equal_iff}
use cloud_provider_openstack.Util.IpNet.{equal, IpNet, Networks, keys, has_key}
use cloud_provider_openstack.Util.Counting.{IsDistinct}
use cloud_provider_openstack.Util.Basic.{contains, round_up_size}
use cloud_provider_openstack.Prelude.{
  ◌==◌, refl, ◌≡◌, ◌↔◌, none, [], ◌∷◌, some, true, String, if◌then◌else◌,
}

round_up_run : round_up_size 1500 1024 ≡ 2
unfolding round_up_size
round_up_run = refl

-- A network is its own text here, and the empty text does not parse.
abbrev texts : Networks String
texts = record { text = λ s. s; parse_cidr = λ s. if s == "" then none else some s }

abbrev two_nets : IpNet String
two_nets = ("10.0.0.0/8", "10.0.0.0/8") ∷ ("::/0", "::/0") ∷ []

abbrev swapped_nets : IpNet String
swapped_nets = ("::/0", "::/0") ∷ ("10.0.0.0/8", "10.0.0.0/8") ∷ []

two-IsDistinct : IsDistinct (keys two_nets)
unfolding keys contains
two-IsDistinct = (refl, (refl, tt))

swapped-IsDistinct : IsDistinct (keys swapped_nets)
unfolding keys contains
swapped-IsDistinct = (refl, (refl, tt))

equal_iff_example :
    (equal two_nets swapped_nets ≡ true)
    ↔ ((k : String) → has_key two_nets k ≡ has_key swapped_nets k)
equal_iff_example = equal_iff two_nets swapped_nets two-IsDistinct swapped-IsDistinct
