-- ===== src/Instances/OrderLaws.antt =====
-- What sortNodeAddresses of pkg/openstack/instances.go does to the addresses of a node.
use mathlib.Core.Path.{subst, fun_ext}
use mathlib.Core.Option
use cloud_provider_openstack.Routes.Api.{NodeAddress}
use cloud_provider_openstack.Prelude.Strings.{text_lt, Text}
use cloud_provider_openstack.Prelude.Sorting.{
  filter, stable_sort-is_sorted_by, filter-stable_sort, is_sorted_by, stable_sort,
}
use cloud_provider_openstack.Prelude.{
  ◌≡◌, false, sym, ◌∙◌, ℕ, ◌∷◌, [], refl, eq_iff, List, arith, ◌&&◌, Bool, true, ltb, if◌then◌else◌,
  eqb, ◌-◌, none, ◌<◌, some, inr, Option, ◌||◌, inl, ap, suc, String, Bool-cases, length,
}
use cloud_provider_openstack.Instances.NodeAddresses.{same_address}
use cloud_provider_openstack.Instances.Api.{Readers}
use cloud_provider_openstack.Instances.AddressOrder.{
  comes_first, ip_bytes, build_address_sort_order_list, sort_node_addresses, get_sort_priority,
  priority_among,
}

lt_asym : (a b : Text) → text_lt a b ≡ true → text_lt b a ≡ false
unfolding text_lt
lt_asym a [] h = absurd (ground (arith, h))
lt_asym [] (y ∷ ys) h = refl
lt_asym (x ∷ xs) (y ∷ ys) h = ground (arith, h, lt_asym xs ys)

not_lt_trans : (a b c : Text) → text_lt b a ≡ false → text_lt c b ≡ false → text_lt c a ≡ false
unfolding text_lt
not_lt_trans [] b c h k = refl
not_lt_trans (x ∷ xs) [] c h k = absurd (ground (arith, h))
not_lt_trans (x ∷ xs) (y ∷ ys) [] h k = absurd (ground (arith, k))
not_lt_trans (x ∷ xs) (y ∷ ys) (z ∷ zs) h k = ground (arith, h, k, not_lt_trans xs ys zs)

lt_same : (a : Text) → text_lt a a ≡ false
unfolding text_lt
lt_same [] = refl
lt_same (x ∷ xs) = ground (arith, lt_same xs)

-- `comes_first` on priorities and bytes
abbrev key_first : ℕ → Text → ℕ → Text → Bool
key_first p a q b = if ltb 0 p && eqb p q then text_lt a b else ltb q p

key_asym : (p q : ℕ) (a b : Text) → key_first p a q b ≡ true → key_first q b p a ≡ false
key_asym p q a b h = ground (arith, h, lt_asym a b)

key_trans :
    (p q r : ℕ) (a b c : Text)
    → key_first q b p a ≡ false
    → key_first r c q b ≡ false
    → key_first r c p a ≡ false
key_trans p q r a b c h k = ground (arith, h, k, not_lt_trans a b c)

-- The order that is documented: addresses of an earlier network come first, those of the same network
-- by their bytes, and one that no network has never comes first. A network is its place in the list.
abbrev pub precedes : Option ℕ → Text → Option ℕ → Text → Bool
precedes none a q b = false
precedes (some i) a none b = true
precedes (some i) a (some j) b = ltb i j || (eqb i j && text_lt a b)

abbrev pub is_none : Option ℕ → Bool
is_none none = true
is_none (some i) = false

-- the priority of a place among so many networks
abbrev priority_of : ℕ → Option ℕ → ℕ
priority_of n none = 0
priority_of n (some i) = n - i

abbrev IsPlace : ℕ → Option ℕ → Type 0
IsPlace n none = Unit
IsPlace n (some i) = i < n

key_first-precedes :
    (n : ℕ) (p q : Option ℕ) (a b : Text)
    → IsPlace n p
    → IsPlace n q
    → key_first (priority_of n p) a (priority_of n q) b ≡ precedes p a q b
key_first-precedes n none none a b h k = ground arith
key_first-precedes n none (some j) a b h k = ground (arith, k)
key_first-precedes n (some i) none a b h k = ground (arith, h)
key_first-precedes n (some i) (some j) a b h k = ground (arith, h, k)

priority_of-none : (n : ℕ) (p : Option ℕ) → IsPlace n p → eqb (priority_of n p) 0 ≡ is_none p
priority_of-none n none h = refl
priority_of-none n (some i) h = ground (arith, h)

module _ {N : Type 0} (readers : Readers N) where
  -- the first network of the list that has the address
  abbrev pub first_net : List N → List ℕ → Option ℕ
  first_net [] ip = none
  first_net (cidr ∷ list) ip =
      let rest = Option.map suc (first_net list ip) in
      if readers.net_contains cidr ip then some 0 else rest

  abbrev pub net_of : List N → String → Option ℕ
  net_of list address = elim (readers.parse_ip_bytes address) [
    | none ↦ none
    | some ip ↦ first_net list ip
  ]

  pushed_back :
      (n : ℕ) (p : Option ℕ)
      → IsPlace n p
      → (priority_of (suc n) (Option.map suc p) ≡ priority_of n p)
        × IsPlace (suc n) (Option.map suc p)
  pushed_back n none h = (refl, tt)
  pushed_back n (some i) h = (omega (arith, h), omega (arith, h))

  priority_among-first_net :
      (list : List N) (ip : List ℕ)
      → (priority_among readers list ip ≡ priority_of (length list) (first_net list ip))
        × IsPlace (length list) (first_net list ip)
  unfolding priority_among
  priority_among-first_net [] ip = (refl, tt)
  priority_among-first_net (cidr ∷ list) ip =
      let (same, place) = priority_among-first_net list ip in
      let (shifted, later) = pushed_back (length list) (first_net list ip) place in
      elim (Bool-cases (readers.net_contains cidr ip)) [
        | inl here ↦ rw here (omega arith, omega arith)
        | inr elsewhere ↦ rw elsewhere (same ∙ sym shifted, later)
      ]

  get_sort_priority-net_of :
      (list : List N) (address : String)
      → (get_sort_priority readers list address ≡ priority_of (length list) (net_of list address))
        × IsPlace (length list) (net_of list address)
  unfolding get_sort_priority
  get_sort_priority-net_of list address =
      elim (readers.parse_ip_bytes address)
        as (λ o.
          (elim o [ none ↦ 0 | some ip ↦ priority_among readers list ip ]
            ≡ priority_of (length list) (elim o [ none ↦ none | some ip ↦ first_net list ip ]))
          × IsPlace (length list) (elim o [ none ↦ none | some ip ↦ first_net list ip ])) [
            | none ↦ (refl, tt)
            | some ip ↦ priority_among-first_net list ip
          ]

  abbrev pub precedes_in : List N → NodeAddress → NodeAddress → Bool
  precedes_in list x y =
      precedes (net_of list x.address) (ip_bytes readers x.address) (net_of list y.address)
        (ip_bytes readers y.address)

  comes_first-precedes :
      (list : List N) (x y : NodeAddress) → comes_first readers list x y ≡ precedes_in list x y
  unfolding comes_first
  comes_first-precedes list x y =
      let (px, hx) = get_sort_priority-net_of list x.address in
      let (py, hy) = get_sort_priority-net_of list y.address in
      rw (px, py)
        (key_first-precedes (length list) (net_of list x.address) (net_of list y.address)
          (ip_bytes readers x.address) (ip_bytes readers y.address) hx hy)

  -- The addresses are sorted as documented: none stands behind one that it has to precede, by the
  -- places of the first networks of the order that have them and then by their bytes; the addresses
  -- that no network has keep their order; and each address stands as often as before.
  pub sort_node_addresses-stable :
      (order : Text) (addresses : List NodeAddress)
      → let list = build_address_sort_order_list readers order in
        let sorted = sort_node_addresses readers order addresses in
        let unmatched : NodeAddress → Bool = λ a. is_none (net_of list a.address) in
        (is_sorted_by (precedes_in list) sorted ≡ true)
        × (filter unmatched sorted ≡ filter unmatched addresses)
        × ((a : NodeAddress) → filter (same_address a) sorted ≡ filter (same_address a) addresses)
  unfolding sort_node_addresses comes_first
  sort_node_addresses-stable order addresses =
      let list = build_address_sort_order_list readers order in
      let less = comes_first readers list in
      let p : NodeAddress → ℕ = λ a. get_sort_priority readers list a.address in
      let b : NodeAddress → Text = λ a. ip_bytes readers a.address in
      let documented : less ≡ precedes_in list =
        fun_ext (λ x. fun_ext (λ y. comes_first-precedes list x y)) in
      let kept =
        filter-stable_sort less (λ a. eqb (p a) 0) addresses (λ x y h k. ground (arith, h, k)) in
      let unmatched : (λ (a : NodeAddress). eqb (p a) 0)
          ≡ (λ (a : NodeAddress). is_none (net_of list a.address)) =
        fun_ext (λ a.
          let (same, place) = get_sort_priority-net_of list a.address in
          ap (λ n. eqb n 0) same ∙ priority_of-none (length list) (net_of list a.address) place) in
      let sorted = stable_sort less addresses in
      (
        ap (λ before. is_sorted_by before sorted) (sym documented)
            ∙ stable_sort-is_sorted_by less addresses (λ x y. key_asym (p x) (p y) (b x) (b y))
                (λ x y z. key_trans (p x) (p y) (p z) (b x) (b y) (b z)),
        subst (λ (keep : NodeAddress → Bool). filter keep sorted ≡ filter keep addresses) unmatched
            kept,
        λ a.
            filter-stable_sort less (same_address a) addresses (λ x y h k. same_key list a x y h k),
      )
    where
      same_key :
          (list : List N) (a x y : NodeAddress)
          → same_address a x ≡ true
          → same_address a y ≡ true
          → comes_first readers list x y ≡ false
      same_key list a x y h k =
          let same : y.address ≡ x.address =
            sym ((eq_iff a.address y.address).0 (ground (arith, k)))
            ∙ (eq_iff a.address x.address).0 (ground (arith, h)) in
          rw same (ground (arith, lt_same (ip_bytes readers x.address)))
