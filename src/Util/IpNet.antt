-- ===== src/Util/IpNet.antt =====
-- The type IPNet of pkg/util/net/sets/ipnet.go: a map from the text of a network to the network.
-- Go's network type and its parser are parameters, and a map is the list of its entries.
use cloud_provider_openstack.Prelude.{
  some, true, Option, none, ◌==◌, ◌&&◌, List, false, String, ◌∷◌, Bool, [], eqb, if◌then◌else◌,
  length,
}

-- `net.IPNet` with `String()`, and `net.ParseCIDR` without its address.
pub record Networks (N : Type 0) : Type 0 where
  pub text : N → String
  pub parse_cidr : String → Option N

abbrev pub IpNet : Type 0 → Type 0
IpNet N = List (String × N)

module _ {N : Type 0} where
  unfoldable pub keys : IpNet N → List String
  keys [] = []
  keys ((k, n) ∷ s) = k ∷ keys s

  -- `s[k] = n`
  unfoldable pub put : String → N → IpNet N → IpNet N
  put k n [] = (k, n) ∷ []
  put k n ((j, m) ∷ s) = if j == k then (j, n) ∷ s else (j, m) ∷ put k n s

  -- `delete(s, k)`
  unfoldable pub remove : String → IpNet N → IpNet N
  remove k [] = []
  remove k ((j, m) ∷ s) = let rest = remove k s in if j == k then rest else (j, m) ∷ rest

  -- the second result of `s[k]`
  unfoldable pub has_key : IpNet N → String → Bool
  has_key [] k = false
  has_key ((j, m) ∷ s) k = if j == k then true else has_key s k

  unfoldable pub difference : IpNet N → IpNet N → IpNet N
  unfolding has_key
  difference [] s2 = []
  difference ((k, i) ∷ s) s2 =
      let rest = difference s s2 in if has_key s2 k then rest else (k, i) ∷ rest

  unfoldable pub string_slice : IpNet N → List String
  unfolding keys
  string_slice s = keys s

  unfoldable pub is_superset : IpNet N → IpNet N → Bool
  unfolding has_key
  is_superset s [] = true
  is_superset s ((k, i) ∷ s2) = if has_key s k then is_superset s s2 else false

  unfoldable pub equal : IpNet N → IpNet N → Bool
  unfolding is_superset
  equal s s2 = eqb (length s) (length s2) && is_superset s s2

module _ {N : Type 0} (w : Networks N) where
  unfoldable pub insert_all : List N → IpNet N → IpNet N
  unfolding put
  insert_all [] s = s
  insert_all (item ∷ items) s = insert_all items (put (w.text item) item s)

  unfoldable pub delete_all : List N → IpNet N → IpNet N
  unfolding remove
  delete_all [] s = s
  delete_all (item ∷ items) s = delete_all items (remove (w.text item) s)

  unfoldable pub has : IpNet N → N → Bool
  unfolding has_key
  has s item = has_key s (w.text item)

  unfoldable pub has_all : IpNet N → List N → Bool
  unfolding has
  has_all s [] = true
  has_all s (item ∷ items) = if has s item then has_all s items else false

  -- `trim` is `strings.TrimSpace`; a text that does not parse is an error.
  unfoldable pub parse_from : (String → String) → List String → IpNet N → Option (IpNet N)
  unfolding put
  parse_from trim [] s = some s
  parse_from trim (spec ∷ specs) s = elim (w.parse_cidr (trim spec)) [
    | none ↦ none
    | some n ↦ parse_from trim specs (put (w.text n) n s)
  ]

  unfoldable pub parse_ip_nets : (String → String) → List String → Option (IpNet N)
  unfolding parse_from
  parse_ip_nets trim specs = parse_from trim specs []
