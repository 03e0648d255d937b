-- ===== src/Instances/Removing.antt =====
-- RemoveFromNodeAddresses of pkg/openstack/instances.go: the indexes are collected, and then the
-- elements at them are cut out one after the other.
use cloud_provider_openstack.Routes.Api.{NodeAddress}
use cloud_provider_openstack.Prelude.Sorting.{filter}
use cloud_provider_openstack.Prelude.{
  append-nil, sym, ◌==◌, refl, Bool, List, map, inl, zero, ◌∷◌, ◌&&◌, inr, [], ap, ◌≡◌, ◌||◌, not,
  ◌++◌, ℕ, suc, ◌∙◌, if◌then◌else◌, Bool-cases,
}

-- an address that `remove` names, of its type or, where that is empty, of any
abbrev pub is_removed : NodeAddress → NodeAddress → Bool
is_removed remove existing =
    existing.address == remove.address && (existing.kind == remove.kind || remove.kind == "")

-- The indexes from `i` on, the last one first.
unfoldable pub indexes_to_remove : NodeAddress → ℕ → List NodeAddress → List ℕ
indexes_to_remove remove i [] = []
indexes_to_remove remove i (existing ∷ addresses) =
    let rest = indexes_to_remove remove (suc i) addresses in
    if is_removed remove existing then rest ++ i ∷ [] else rest

unfoldable pub all_indexes : List NodeAddress → List NodeAddress → List ℕ
unfolding indexes_to_remove
all_indexes addresses [] = []
all_indexes addresses (remove ∷ removes) =
    indexes_to_remove remove 0 addresses ++ all_indexes addresses removes

-- An index that is out of range is passed over.
unfoldable pub cut_at : ℕ → List NodeAddress → List NodeAddress
cut_at i [] = []
cut_at zero (x ∷ xs) = xs
cut_at (suc i) (x ∷ xs) = x ∷ cut_at i xs

unfoldable pub cut_all : List ℕ → List NodeAddress → List NodeAddress
unfolding cut_at
cut_all [] xs = xs
cut_all (i ∷ is) xs = cut_all is (cut_at i xs)

unfoldable pub remove_from_node_addresses : List NodeAddress → List NodeAddress → List NodeAddress
unfolding all_indexes cut_all
remove_from_node_addresses addresses removes = cut_all (all_indexes addresses removes) addresses

cut_all-append :
    (is js : List ℕ) (xs : List NodeAddress) → cut_all (is ++ js) xs ≡ cut_all js (cut_all is xs)
unfolding cut_all
cut_all-append [] js xs = refl
cut_all-append (i ∷ is) js xs = cut_all-append is js (cut_at i xs)

cut_all-later :
    (is : List ℕ) (x : NodeAddress) (xs : List NodeAddress)
    → cut_all (map suc is) (x ∷ xs) ≡ x ∷ cut_all is xs
unfolding cut_all cut_at
cut_all-later [] x xs = refl
cut_all-later (i ∷ is) x xs = cut_all-later is x (cut_at i xs)

map-append_one : (is : List ℕ) (i : ℕ) → map suc (is ++ i ∷ []) ≡ map suc is ++ suc i ∷ []
map-append_one [] i = refl
map-append_one (j ∷ is) i = ap (λ xs. suc j ∷ xs) (map-append_one is i)

indexes_later :
    (remove : NodeAddress) (i : ℕ) (xs : List NodeAddress)
    → indexes_to_remove remove (suc i) xs ≡ map suc (indexes_to_remove remove i xs)
unfolding indexes_to_remove
indexes_later remove i [] = refl
indexes_later remove i (x ∷ xs) = elim (Bool-cases (is_removed remove x)) [
  | inl h ↦ rw h (
      ap (λ is. is ++ suc i ∷ []) (indexes_later remove (suc i) xs)
      ∙ sym (map-append_one (indexes_to_remove remove (suc i) xs) i))
  | inr h ↦ rw h (indexes_later remove (suc i) xs)
]

cut_indexes :
    (remove : NodeAddress) (xs : List NodeAddress)
    → cut_all (indexes_to_remove remove 0 xs) xs ≡ filter (λ x. not (is_removed remove x)) xs
unfolding indexes_to_remove cut_all cut_at
cut_indexes remove [] = refl
cut_indexes remove (x ∷ xs) =
    let later : cut_all (indexes_to_remove remove 1 xs) (x ∷ xs)
        ≡ x ∷ filter (λ y. not (is_removed remove y)) xs =
      ap (λ is. cut_all is (x ∷ xs)) (indexes_later remove 0 xs)
      ∙ cut_all-later (indexes_to_remove remove 0 xs) x xs
      ∙ ap (λ ys. x ∷ ys) (cut_indexes remove xs) in
    elim (Bool-cases (is_removed remove x)) [
      | inl h ↦
          rw h
            (cut_all-append (indexes_to_remove remove 1 xs) (0 ∷ []) (x ∷ xs) ∙ ap (cut_at 0) later)
      | inr h ↦ rw h later
    ]

-- To remove one address leaves exactly those that it does not name, in their order.
pub remove_from_node_addresses_one :
    (addresses : List NodeAddress) (remove : NodeAddress)
    → remove_from_node_addresses addresses (remove ∷ [])
      ≡ filter (λ x. not (is_removed remove x)) addresses
unfolding remove_from_node_addresses all_indexes
remove_from_node_addresses_one addresses remove =
    ap (λ is. cut_all is addresses) (append-nil (indexes_to_remove remove 0 addresses))
    ∙ cut_indexes remove addresses
