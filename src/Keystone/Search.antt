-- ===== src/Keystone/Search.antt =====
-- findString of pkg/identity/keystone/authorizer.go: the list is sorted in place, and searched as a
-- sorted list. `sort.Strings` is an insertion sort here; a sorted list of texts is unique.
use cloud_provider_openstack.Prelude.Strings.{text_eq_iff, text_lt}
use cloud_provider_openstack.Prelude.{
  some, Option, ◌≡◌, true, false, Bool, arith, ◌||◌, refl, List, ℕ, [], none, suc, ◌∷◌,
  if◌then◌else◌, any, get_elem?, inr, ◌∙◌, inl, Bool-cases, All, sym,
}
use cloud_provider_openstack.Prelude.Strings.{Text, text_eq}

unfoldable pub insert_sorted : Text → List Text → List Text
insert_sorted a [] = a ∷ []
insert_sorted a (x ∷ xs) =
    let deeper = insert_sorted a xs in if text_lt x a then x ∷ deeper else a ∷ x ∷ xs

-- sort.Strings
unfoldable pub sort_strings : List Text → List Text
unfolding insert_sorted
sort_strings [] = []
sort_strings (x ∷ xs) = insert_sorted x (sort_strings xs)

-- sort.SearchStrings: the first index whose text is not below the one that is sought
unfoldable pub search_strings : List Text → Text → ℕ
search_strings [] a = 0
search_strings (x ∷ xs) a = let rest = suc (search_strings xs a) in if text_lt x a then rest else 0

abbrev pub found_at : Option Text → Text → Bool
found_at none a = false
found_at (some x) a = text_eq x a

unfoldable pub find_string : Text → List Text → Bool
unfolding sort_strings search_strings text_lt text_eq
find_string a list =
    let sorted = sort_strings list in found_at (get_elem? sorted (search_strings sorted a)) a

-- membership, by a walk through the list
abbrev pub member : Text → List Text → Bool
member a list = any (λ x. text_eq x a) list

text_lt-eq : (a b : Text) → text_eq a b ≡ true → text_lt a b ≡ false
unfolding text_lt text_eq
text_lt-eq [] [] h = refl
text_lt-eq [] (y ∷ ys) h = ground arith
text_lt-eq (x ∷ xs) [] h = refl
text_lt-eq (x ∷ xs) (y ∷ ys) h = ground (arith, text_lt-eq xs ys)

text_lt_trans : (a b c : Text) → text_lt a b ≡ true → text_lt b c ≡ true → text_lt a c ≡ true
unfolding text_lt
text_lt_trans a b [] h k = ground arith
text_lt_trans a [] (z ∷ zs) h k = ground arith
text_lt_trans [] (y ∷ ys) (z ∷ zs) h k = refl
text_lt_trans (x ∷ xs) (y ∷ ys) (z ∷ zs) h k = ground (arith, text_lt_trans xs ys zs)

-- Each text of the list is not above the ones after it.
abbrev IsSorted : List Text → Type 0
IsSorted [] = Unit
IsSorted (x ∷ xs) = All (λ y. text_lt y x ≡ false) xs × IsSorted xs

text_lt_total : (a b : Text) → text_lt a b ≡ false → text_lt b a ≡ false → a ≡ b
unfolding text_lt
text_lt_total [] [] h k = refl
text_lt_total [] (y ∷ ys) h k = ground arith
text_lt_total (x ∷ xs) [] h k = ground arith
text_lt_total (x ∷ xs) (y ∷ ys) h k = ground (arith, text_lt_total xs ys)

text_lt_asym : (a b : Text) → text_lt a b ≡ true → text_lt b a ≡ false
unfolding text_lt
text_lt_asym a [] h = ground arith
text_lt_asym [] (y ∷ ys) h = refl
text_lt_asym (x ∷ xs) (y ∷ ys) h = ground (arith, text_lt_asym xs ys)

-- not above, then not above
le_trans_text : (a b c : Text) → text_lt b a ≡ false → text_lt c b ≡ false → text_lt c a ≡ false
le_trans_text a b c h k = elim (Bool-cases (text_lt c a)) [
  | inr e ↦ e
  | inl below ↦ elim (Bool-cases (text_lt b c)) [
    | inl under ↦ cc (h, text_lt_trans b c a under below)
    | inr over ↦ cc (h, text_lt_total b c over k)
  ]
]

member-insert_sorted :
    (b a : Text) (xs : List Text) → member b (insert_sorted a xs) ≡ (text_eq a b || member b xs)
unfolding insert_sorted
member-insert_sorted b a [] = refl
member-insert_sorted b a (x ∷ xs) = ground (arith, member-insert_sorted b a xs)

member-sort_strings : (b : Text) (xs : List Text) → member b (sort_strings xs) ≡ member b xs
unfolding sort_strings
member-sort_strings b [] = refl
member-sort_strings b (x ∷ xs) =
    ground (arith, member-insert_sorted b x (sort_strings xs), member-sort_strings b xs)

-- Whatever is not above `a` and the list may stand in front after the insertion.
All-insert_sorted :
    (y a : Text) (xs : List Text)
    → text_lt a y ≡ false
    → All (λ z. text_lt z y ≡ false) xs
    → All (λ z. text_lt z y ≡ false) (insert_sorted a xs)
unfolding insert_sorted
All-insert_sorted y a [] h s = (h, tt)
All-insert_sorted y a (x ∷ xs) h s = elim (Bool-cases (text_lt x a)) [
  | inl below ↦ rw below (s.0, All-insert_sorted y a xs h s.1)
  | inr above ↦ rw above (h, s)
]

All-le_trans :
    (a x : Text) (xs : List Text)
    → text_lt x a ≡ false
    → All (λ z. text_lt z x ≡ false) xs
    → All (λ z. text_lt z a ≡ false) xs
All-le_trans a x [] h s = tt
All-le_trans a x (y ∷ ys) h s = (le_trans_text a x y h s.0, All-le_trans a x ys h s.1)

insert_sorted-IsSorted : (a : Text) (xs : List Text) → IsSorted xs → IsSorted (insert_sorted a xs)
unfolding insert_sorted
insert_sorted-IsSorted a [] s = (tt, tt)
insert_sorted-IsSorted a (x ∷ xs) s = elim (Bool-cases (text_lt x a)) [
  | inl below ↦
      rw below
        (All-insert_sorted x a xs (text_lt_asym x a below) s.0, insert_sorted-IsSorted a xs s.1)
  | inr above ↦ rw above ((above, All-le_trans a x xs above s.0), s)
]

sort_strings-IsSorted : (xs : List Text) → IsSorted (sort_strings xs)
unfolding sort_strings
sort_strings-IsSorted [] = tt
sort_strings-IsSorted (x ∷ xs) =
    insert_sorted-IsSorted x (sort_strings xs) (sort_strings-IsSorted xs)

-- Nothing in a list whose texts are all above `a` is `a`.
not_member_above :
    (a x : Text) (xs : List Text)
    → text_lt a x ≡ true
    → All (λ z. text_lt z x ≡ false) xs
    → member a xs ≡ false
not_member_above a x [] h s = refl
not_member_above a x (y ∷ ys) h s = elim (Bool-cases (text_eq y a)) [
  | inr other ↦ rw other (not_member_above a x ys h s.1)
  | inl same ↦ let e = (text_eq_iff y a).0 same in absurd (ground (arith, e, h, s.0))
]

search_strings_lem :
    (xs : List Text) (a : Text)
    → IsSorted xs
    → found_at (get_elem? xs (search_strings xs a)) a ≡ member a xs
unfolding search_strings
search_strings_lem [] a s = refl
search_strings_lem (x ∷ xs) a s = elim (Bool-cases (text_lt x a)) [
  | inl below ↦ rw below (ground (arith, search_strings_lem xs a s.1, text_lt-eq x a, below))
  | inr above ↦ elim (Bool-cases (text_eq x a)) [
    | inl same ↦ rw (above, same) refl
    | inr other ↦ elim (Bool-cases (text_lt a x)) [
      | inl under ↦ rw (above, other) (sym (not_member_above a x xs under s.0))
      | inr over ↦
          let e = (text_eq_iff x a).1 (text_lt_total x a above over) in
          absurd (ground (arith, e, other))
    ]
  ]
]

-- The binary search in the list that was sorted finds exactly the texts of the list.
pub find_string-eq-member : (a : Text) (list : List Text) → find_string a list ≡ member a list
unfolding find_string
find_string-eq-member a list =
    search_strings_lem (sort_strings list) a (sort_strings-IsSorted list)
    ∙ member-sort_strings a list
