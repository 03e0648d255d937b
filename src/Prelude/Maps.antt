-- ===== src/Prelude/Maps.antt =====
-- A Go map from texts to values: the entries in some order, the first of a key counting. The source
-- uses it for the headers of a listener, the annotations of a service, the classes of the options and
-- the parameters of a volume.
use cloud_provider_openstack.Prelude.{
  some, List, ◌≡◌, Option, eq_refl, none, ◌==◌, [], String, arith, ◌∷◌, refl, if◌then◌else◌,
}

module _ {A : Type 0} where
  unfoldable pub find_entry : String → List (String × A) → Option A
  find_entry k [] = none
  find_entry k ((j, v) ∷ m) = let rest = find_entry k m in if j == k then some v else rest

  -- delete(m, k)
  unfoldable pub delete_header : String → List (String × A) → List (String × A)
  delete_header k [] = []
  delete_header k ((j, v) ∷ m) =
      let rest = delete_header k m in if j == k then rest else (j, v) ∷ rest

  -- m[k] = v
  unfoldable pub put_header : String → A → List (String × A) → List (String × A)
  unfolding delete_header
  put_header k v m = (k, v) ∷ delete_header k m

  pub find_entry-delete_header :
      (k : String) (m : List (String × A)) → find_entry k (delete_header k m) ≡ none
  unfolding find_entry delete_header
  find_entry-delete_header k [] = refl
  find_entry-delete_header k ((j, v) ∷ m) = ground (arith, find_entry-delete_header k m)

  pub find_entry-put_header :
      (k : String) (v : A) (m : List (String × A)) → find_entry k (put_header k v m) ≡ some v
  unfolding find_entry put_header
  find_entry-put_header k v m = rw (eq_refl k) refl

abbrev pub text_or_empty : Option String → String
text_or_empty none = ""
text_or_empty (some v) = v

-- `m[k]`, empty where there is none
abbrev pub get_header : String → List (String × String) → String
get_header k m = text_or_empty (find_entry k m)
