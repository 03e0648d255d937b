-- ===== src/Util/Basic.antt =====
-- CutString255, StringListEqual, Contains, RoundUpSize and GetAZFromTopology of pkg/util/util.go
use native.Mathlib.Nat.{div-add-mod', mod-lt}
use cloud_provider_openstack.Prelude.{
  refl, Option, arith, ◌<◌, false, ◌/◌, ℕ, ◌↔◌, true, ◌==◌, none, ◌≡◌, Bool, ◌%◌, not, String, ◌*◌,
  ◌∷◌, ◌++◌, [], ◌&&◌, List, some, ◌+◌, ◌≤◌, ltb, if◌then◌else◌, eqb, length, set, all, take, any,
  append-nil, ap, inl, inr, Bool-cases, length-take-le, take-append-drop, drop,
}

-- The bytes of a text, since `len` and slices count bytes.
unfoldable pub cut_string_255 : List ℕ → List ℕ
cut_string_255 original = if ltb 255 (length original) then take 255 original else original

unfoldable pub contains : List String → String → Bool
contains [] str = false
contains (item ∷ list) str = if item == str then true else contains list str

-- A set is the list of its members, each once: `s.Insert`.
unfoldable pub insert : String → List String → List String
unfolding contains
insert s set = if contains set s then set else s ∷ set

unfoldable pub set_of : List String → List String
unfolding insert
set_of [] = []
set_of (s ∷ list) = insert s (set_of list)

-- `s1.Equal(s2)`: as many members, and each of `s2` is in `s1`
unfoldable pub set_equal : List String → List String → Bool
unfolding contains
set_equal s1 s2 = eqb (length s1) (length s2) && all (contains s1) s2

unfoldable pub string_list_equal : List String → List String → Bool
unfolding set_of set_equal
string_list_equal list1 list2 =
    if eqb (length list1) 0 && eqb (length list2) 0
    then true
    else if not (eqb (length list1) (length list2))
    then false
    else set_equal (set_of list1) (set_of list2)

-- The sizes are not negative, and the unit is not zero, where a zero divides in the source.
unfoldable pub round_up_size : ℕ → ℕ → ℕ
round_up_size volume_size_bytes allocation_unit_bytes =
    let rounded_up = volume_size_bytes / allocation_unit_bytes in
    if ltb 0 (volume_size_bytes % allocation_unit_bytes) then rounded_up + 1 else rounded_up

-- A topology is its segments; the first one that has the key decides.
abbrev pub Segments : Type 0
Segments = List (String × String)

unfoldable pub segment : String → Segments → Option String
segment key [] = none
segment key ((k, v) ∷ m) = if k == key then some v else segment key m

unfoldable pub first_zone : String → List Segments → Option String
unfolding segment
first_zone key [] = none
first_zone key (t ∷ ts) =
    let rest = first_zone key ts in elim (segment key t) [ some zone ↦ some zone | none ↦ rest ]

abbrev pub or_text : Option String → String → String
or_text none d = d
or_text (some a) d = a

-- A miss leaves the empty text in `zone`.
unfoldable pub get_az_from_topology : String → List Segments → List Segments → String
unfolding first_zone
get_az_from_topology key preferred requisite =
    or_text (first_zone key preferred) (or_text (first_zone key requisite) "")

-- The cut text is a prefix of at most 255 bytes, and all of a text that is short enough.
pub cut_string_255-bounds :
    (s : List ℕ)
    → (length (cut_string_255 s) ≤ 255)
      × ((rest : List ℕ) × (cut_string_255 s ++ rest ≡ s))
      × ((length s ≤ 255) ↔ (cut_string_255 s ≡ s))
unfolding cut_string_255
cut_string_255-bounds s = elim (Bool-cases (ltb 255 (length s))) [
  | inl long ↦
      let short = length-take-le 255 s in
      rw long (
        short,
        (drop 255 s, take-append-drop 255 s),
        (
          (λ h. absurd (ground (arith, h, long))),
          (λ e. absurd (ground (arith, ap length e, short, long))),
        ),
      )
  | inr fits ↦
      let small : length s ≤ 255 = ground (arith, fits) in
      rw fits (small, ([], append-nil s), ((λ h. refl), (λ e. small)))
]

pub contains-any :
    (list : List String) (s : String) → contains list s ≡ any (λ item. item == s) list
unfolding contains
contains-any [] s = refl
contains-any (x ∷ list) s = ground (arith, contains-any list s)

-- The units that are allocated hold the volume, and one unit less would not.
pub round_up_size-least :
    (size unit : ℕ)
    → 0 < unit
    → (size ≤ round_up_size size unit * unit) × (round_up_size size unit * unit < size + unit)
unfolding round_up_size
round_up_size-least size unit h =
    let parts = div-add-mod' size unit in
    let below = mod-lt size h in
    elim (Bool-cases (ltb 0 (size % unit))) [
      | inl more ↦
          let some_left : 0 < size % unit = ground (arith, more) in
          let up : (size ≤ (size / unit + 1) * unit) × ((size / unit + 1) * unit < size + unit) =
            (omega arith, omega arith) in
          rw more up
      | inr exact ↦
          let none_left : size % unit ≡ 0 = ground (arith, exact) in
          let same : (size ≤ size / unit * unit) × (size / unit * unit < size + unit) =
            (omega arith, omega arith) in
          rw exact same
    ]
