-- ===== src/Prelude/Strings.antt =====
-- What the source uses of Go's packages `strings` and `fmt`: over the code points of a text where
-- it looks into the text, and over texts where it only builds one. Letters and spaces beyond ASCII
-- are left as they are.
use mathlib.Core.List.{reverse}
use cloud_provider_openstack.Prelude.{
  ◌+◌, some, Option, ◌≡◌, true, false, Bool, ◌↔◌, map, arith, ◌++◌, ◌||◌, List, String, ℕ, [], none,
  suc, ◌&&◌, ◌∷◌, if◌then◌else◌, eqb, leb, ltb, zero, get_elem?, ◌/◌, ◌%◌,
}
use Prim.Native.Char.{code}
use Prim.Native.String.{◌++◌ as ◌⧺◌}
use mathlib.Core.Option

abbrev pub Text : Type 0
Text = List ℕ

-- a literal
abbrev pub codes : String → Text
codes String.[] = []
codes (String.◌∷◌ c s) = code c ∷ codes s

unfoldable pub text_eq : Text → Text → Bool
text_eq [] [] = true
text_eq [] (y ∷ ys) = false
text_eq (x ∷ xs) [] = false
text_eq (x ∷ xs) (y ∷ ys) = eqb x y && text_eq xs ys

pub text_eq_iff : (a b : Text) → (text_eq a b ≡ true) ↔ (a ≡ b)
unfolding text_eq
text_eq_iff [] [] = ground arith
text_eq_iff [] (y ∷ ys) = ground arith
text_eq_iff (x ∷ xs) [] = ground arith
text_eq_iff (x ∷ xs) (y ∷ ys) = ground (arith, text_eq_iff xs ys)

-- Go's `<` on strings, and bytes.Compare(a, b) < 0 on bytes
unfoldable pub text_lt : Text → Text → Bool
text_lt xs [] = false
text_lt [] (y ∷ ys) = true
text_lt (x ∷ xs) (y ∷ ys) = ltb x y || (eqb x y && text_lt xs ys)

-- strings.Index(s, "c") for one character; `none` is -1.
unfoldable pub index_of : ℕ → Text → Option ℕ
index_of c [] = none
index_of c (x ∷ s) = let rest = Option.map suc (index_of c s) in if eqb x c then some 0 else rest

abbrev pub is_at : Option ℕ → ℕ → Bool
is_at none i = false
is_at (some j) i = eqb j i

abbrev pub has_prefix : Text → Text → Bool
has_prefix s [] = true
has_prefix [] (y ∷ p) = false
has_prefix (x ∷ s) (y ∷ p) = eqb x y && has_prefix s p

abbrev pub ends_with_char : ℕ → Text → Bool
ends_with_char c [] = false
ends_with_char c (x ∷ []) = eqb x c
ends_with_char c (x ∷ y ∷ s) = ends_with_char c (y ∷ s)

-- strings.TrimRight(s, "c")
unfoldable pub trim_right : ℕ → Text → Text
trim_right c [] = []
trim_right c (x ∷ s) = drop_last (trim_right c s)
  where
    drop_last : Text → Text
    drop_last [] = if eqb x c then [] else x ∷ []
    drop_last (y ∷ rest) = x ∷ y ∷ rest

abbrev pub is_space : ℕ → Bool
is_space c = eqb c 32 || (leb 9 c && leb c 13)

unfoldable pub trim_left : Text → Text
trim_left [] = []
trim_left (x ∷ s) = let rest = trim_left s in if is_space x then rest else x ∷ s

-- strings.TrimSpace
unfoldable pub trim_space : Text → Text
unfolding trim_left
trim_space s = reverse (trim_left (reverse (trim_left s)))

abbrev pub lower_char : ℕ → ℕ
lower_char c = if leb 65 c && leb c 90 then c + 32 else c

unfoldable pub to_lower : Text → Text
to_lower = map lower_char

-- strings.Split(s, "c"); the result has at least one part.
unfoldable pub split : ℕ → Text → List Text
split c [] = [] ∷ []
split c (x ∷ s) = put (split c s)
  where
    put : List Text → List Text
    put [] = []
    put (part ∷ parts) = if eqb x c then [] ∷ part ∷ parts else (x ∷ part) ∷ parts

-- strings.Replace(s, "'", "\"", -1)
unfoldable pub double_quotes : Text → Text
double_quotes = map (λ c. if eqb c 39 then 34 else c)

-- strings.Join([]string{a, b}, "/")
abbrev pub join_slash : Text → Text → Text
join_slash a b = a ++ 47 ∷ b

-- `a + b`
abbrev pub concat : String → String → String
concat a b = a ⧺ b

abbrev digit : ℕ → String
digit n =
    elim (get_elem? {A = String} ("0" ∷ "1" ∷ "2" ∷ "3" ∷ "4" ∷ "5" ∷ "6" ∷ "7" ∷ "8" ∷ "9" ∷ [])
      n) [ none ↦ "" | some d ↦ d ]

-- The digits in front of a text; a number has at most as many digits as it counts, and one for 0.
unfoldable pub digits_before : ℕ → ℕ → String → String
digits_before zero n rest = rest
digits_before (suc fuel) n rest =
    let longer = digits_before fuel (n / 10) (concat (digit (n % 10)) rest) in
    if ltb n 10 then concat (digit n) rest else longer

-- fmt.Sprintf("%d", n)
unfoldable pub decimal : ℕ → String
unfolding digits_before
decimal n = digits_before (suc n) n ""
