-- ===== src/Util/Counting.antt =====
-- Sets as lists without repetition: two of one size, one inside the other, have the same members.
use mathlib.Core.Bool.{false≢true}
use cloud_provider_openstack.Util.Basic.{set_of, set_equal, contains, insert, string_list_equal}
use cloud_provider_openstack.Prelude.{
  arith, ◌↔◌, String, ◌∷◌, ◌≡◌, ap, ◌≢◌, ◌∙◌, inl, false, eq_refl, inr, suc, eq_iff, true, sym,
  List, refl, [], ◌==◌, Bool-cases, if◌then◌else◌, all, All, length, Bool, ◌≤◌,
}

abbrev pub IsSubset : List String → List String → Type 0
IsSubset xs ys = All (λ x. contains ys x ≡ true) xs

-- no text stands twice
abbrev pub IsDistinct : List String → Type 0
IsDistinct [] = Unit
IsDistinct (x ∷ xs) = (contains xs x ≡ false) × IsDistinct xs

-- the list without the first place of the text
drop_first : String → List String → List String
drop_first x [] = []
drop_first x (y ∷ ys) = let rest = drop_first x ys in if y == x then ys else y ∷ rest

length-drop_first :
    (x : String) (ys : List String)
    → contains ys x ≡ true
    → suc (length (drop_first x ys)) ≡ length ys
unfolding contains drop_first
length-drop_first x [] h = cc
length-drop_first x (y ∷ ys) h = ground (arith, length-drop_first x ys)

contains-drop_first :
    (x z : String) (ys : List String) → x ≢ z → contains (drop_first x ys) z ≡ contains ys z
unfolding contains drop_first
contains-drop_first x z [] d = refl
contains-drop_first x z (y ∷ ys) d =
    ground (arith, eq_iff y x, eq_iff y z, contains-drop_first x z ys d)

ne_of_contains :
    (x z : String) (xs : List String) → contains xs x ≡ false → contains xs z ≡ true → x ≢ z
ne_of_contains x z xs h k e = false≢true (sym h ∙ ap (contains xs) e ∙ k)

-- Members of a list that does not have `x` stay members when `x` is dropped.
IsSubset-drop_first :
    (x : String) (xs ys zs : List String)
    → contains zs x ≡ false
    → All (λ z. contains zs z ≡ true) xs
    → IsSubset xs ys
    → IsSubset xs (drop_first x ys)
IsSubset-drop_first x [] ys zs h a s = tt
IsSubset-drop_first x (z ∷ xs) ys zs h a s = (
  contains-drop_first x z ys (ne_of_contains x z zs h a.0) ∙ s.0,
  IsSubset-drop_first x xs ys zs h a.1 s.1,
)

contains_cons :
    (x z : String) (xs : List String) → contains xs z ≡ true → contains (x ∷ xs) z ≡ true
unfolding contains
contains_cons x z xs h = ground (arith, h)

IsSubset-cons : (x : String) (xs ys : List String) → IsSubset xs ys → IsSubset xs (x ∷ ys)
IsSubset-cons x [] ys s = tt
IsSubset-cons x (z ∷ xs) ys s = (contains_cons x z ys s.0, IsSubset-cons x xs ys s.1)

contains_self : (x : String) (xs : List String) → contains (x ∷ xs) x ≡ true
unfolding contains
contains_self x xs = ground (arith, eq_refl x)

pub IsSubset-refl : (xs : List String) → IsSubset xs xs
IsSubset-refl [] = tt
IsSubset-refl (x ∷ xs) = (contains_self x xs, IsSubset-cons x xs xs (IsSubset-refl xs))

pub contains-of_IsSubset :
    (xs ys : List String) (z : String)
    → IsSubset xs ys
    → contains xs z ≡ true
    → contains ys z ≡ true
unfolding contains
contains-of_IsSubset [] ys z s h = cc
contains-of_IsSubset (x ∷ xs) ys z s h =
    ground (arith, s.0, ap (contains ys), eq_iff x z, contains-of_IsSubset xs ys z s.1)

-- As many distinct members as the larger set has are all of it.
pub same_size :
    (xs ys : List String) (z : String)
    → IsDistinct xs
    → IsSubset xs ys
    → length xs ≡ length ys
    → contains ys z ≡ true
    → contains xs z ≡ true
unfolding contains
same_size [] [] z d s n h = h
same_size [] (y ∷ ys) z d s n h = absurd (omega arith)
same_size (x ∷ xs) ys z d s n h = elim (Bool-cases (x == z)) [
  | inl same ↦ rw same refl
  | inr other ↦
      let x≢z : x ≢ z = λ e. false≢true (sym other ∙ (eq_iff x z).1 e) in
      let fewer = length-drop_first x ys s.0 in
      rw other (
        same_size xs (drop_first x ys) z d.1
          (IsSubset-drop_first x xs ys xs d.0 (IsSubset-refl xs) s.1) (omega arith)
          (contains-drop_first x z ys x≢z ∙ h))
]

-- A set that is built by insertions is distinct, and has the members of the list.
pub IsDistinct-set_of : (list : List String) → IsDistinct (set_of list)
unfolding set_of insert
IsDistinct-set_of [] = tt
IsDistinct-set_of (x ∷ list) = elim (Bool-cases (contains (set_of list) x)) [
  | inl old ↦ rw old (IsDistinct-set_of list)
  | inr new ↦ rw new (new, IsDistinct-set_of list)
]

pub contains-set_of : (list : List String) (z : String) → contains (set_of list) z ≡ contains list z
unfolding set_of insert contains
contains-set_of [] z = refl
contains-set_of (x ∷ list) z =
    ground (arith, eq_iff x z, ap (contains list), contains-set_of list x, contains-set_of list z)

all-IsSubset : (xs ys : List String) → all (contains ys) xs ≡ true → IsSubset xs ys
all-IsSubset [] ys h = tt
all-IsSubset (x ∷ xs) ys h = ground (arith, all-IsSubset xs ys)

pub IsSubset-all : (xs ys : List String) → IsSubset xs ys → all (contains ys) xs ≡ true
IsSubset-all [] ys s = refl
IsSubset-all (x ∷ xs) ys s = ground (arith, s.0, IsSubset-all xs ys s.1)

IsSubset-of_contains :
    (xs ys : List String)
    → ((z : String) → contains xs z ≡ true → contains ys z ≡ true)
    → IsSubset xs ys
IsSubset-of_contains [] ys h = tt
IsSubset-of_contains (x ∷ xs) ys h =
    (h x (contains_self x xs), IsSubset-of_contains xs ys (λ z k. h z (contains_cons x z xs k)))

length-le_of_IsSubset :
    (xs ys : List String) → IsDistinct xs → IsSubset xs ys → length xs ≤ length ys
length-le_of_IsSubset [] ys d s = omega arith
length-le_of_IsSubset (x ∷ xs) ys d s =
    let fewer = length-drop_first x ys s.0 in
    let rest =
      length-le_of_IsSubset xs (drop_first x ys) d.1
        (IsSubset-drop_first x xs ys xs d.0 (IsSubset-refl xs) s.1) in
    omega arith

bool_ext : (a b : Bool) → (a ≡ true → b ≡ true) → (b ≡ true → a ≡ true) → a ≡ b
bool_ext true b f g = sym (f refl)
bool_ext false true f g = g refl
bool_ext false false f g = refl

-- `Equal` of two sets is equality of their members.
pub set_equal_iff :
    (s1 s2 : List String)
    → IsDistinct s1
    → IsDistinct s2
    → (set_equal s1 s2 ≡ true) ↔ ((z : String) → contains s1 z ≡ contains s2 z)
unfolding set_equal
set_equal_iff s1 s2 d1 d2 = (
  λ h z.
      let n : length s1 ≡ length s2 = ground (arith, h) in
      let inside : all (contains s1) s2 ≡ true = ground (arith, h) in
      let s = all-IsSubset s2 s1 inside in
      bool_ext (contains s1 z) (contains s2 z) (same_size s2 s1 z d2 s (sym n))
        (contains-of_IsSubset s2 s1 z s),
  λ h.
      let s = IsSubset-of_contains s2 s1 (λ z k. h z ∙ k) in
      let t = IsSubset-of_contains s1 s2 (λ z k. sym (h z) ∙ k) in
      let le = length-le_of_IsSubset s2 s1 d2 s in
      let ge = length-le_of_IsSubset s1 s2 d1 t in ground (arith, le, ge, IsSubset-all s2 s1 s),
)

sets_of_lists :
    (list1 list2 : List String)
    → (set_equal (set_of list1) (set_of list2) ≡ true)
      ↔ ((z : String) → contains list1 z ≡ contains list2 z)
sets_of_lists list1 list2 =
    let parts =
      set_equal_iff (set_of list1) (set_of list2) (IsDistinct-set_of list1)
        (IsDistinct-set_of list2) in
    (
      λ h z. sym (contains-set_of list1 z) ∙ parts.0 h z ∙ contains-set_of list2 z,
      λ h. parts.1 (λ z. contains-set_of list1 z ∙ h z ∙ sym (contains-set_of list2 z)),
    )

string_list_equal-true :
    (list1 list2 : List String)
    → string_list_equal list1 list2 ≡ true
    → (length list1 ≡ length list2) × ((z : String) → contains list1 z ≡ contains list2 z)
unfolding string_list_equal
string_list_equal-true [] [] h = (refl, λ z. refl)
string_list_equal-true [] (y ∷ ys) h = absurd (ground (arith, h))
string_list_equal-true (x ∷ xs) [] h = absurd (ground (arith, h))
string_list_equal-true (x ∷ xs) (y ∷ ys) h =
    let n : length (x ∷ xs) ≡ length (y ∷ ys) = ground (arith, h) in
    let sets : set_equal (set_of (x ∷ xs)) (set_of (y ∷ ys)) ≡ true = ground (arith, h) in
    (n, (sets_of_lists (x ∷ xs) (y ∷ ys)).0 sets)

string_list_equal_of :
    (list1 list2 : List String)
    → length list1 ≡ length list2
    → ((z : String) → contains list1 z ≡ contains list2 z)
    → string_list_equal list1 list2 ≡ true
unfolding string_list_equal
string_list_equal_of list1 list2 n h = ground (arith, n, (sets_of_lists list1 list2).1 h)

-- Two lists pass exactly if they are equally long and have the same members: how often a member
-- stands in each does not matter.
pub string_list_equal_iff :
    (list1 list2 : List String)
    → (string_list_equal list1 list2 ≡ true)
      ↔ ((length list1 ≡ length list2) × ((z : String) → contains list1 z ≡ contains list2 z))
string_list_equal_iff list1 list2 =
    (string_list_equal-true list1 list2, λ h. string_list_equal_of list1 list2 h.0 h.1)
