-- ===== src/Prelude/Sorting.antt =====
-- sort.SliceStable and sort.Strings: a stable insertion sort by a test that says what comes first.
use cloud_provider_openstack.Prelude.{
  ◌≡◌, true, false, Bool, not, arith, ◌||◌, ◌&&◌, refl, List, [], ◌∷◌, ◌∙◌, if◌then◌else◌, any, all,
  ap, Bool-cases, inl, inr,
}
use cloud_provider_openstack.Prelude.Strings.{text_lt, codes}
use cloud_provider_openstack.Prelude.{String}

module _ {A : Type 0} where
  unfoldable pub insert_by : (A → A → Bool) → A → List A → List A
  insert_by less a [] = a ∷ []
  insert_by less a (x ∷ xs) =
      let deeper = insert_by less a xs in if less x a then x ∷ deeper else a ∷ x ∷ xs

  -- An element that comes before others in the list stays before those that are not less.
  unfoldable pub stable_sort : (A → A → Bool) → List A → List A
  unfolding insert_by
  stable_sort less [] = []
  stable_sort less (x ∷ xs) = insert_by less x (stable_sort less xs)

  abbrev pub filter : (A → Bool) → List A → List A
  filter p [] = []
  filter p (x ∷ xs) = let rest = filter p xs in if p x then x ∷ rest else rest

  pub any_inserted :
      (less : A → A → Bool) (q : A → Bool) (a : A) (ys : List A)
      → any q (insert_by less a ys) ≡ (q a || any q ys)
  unfolding insert_by
  any_inserted less q a [] = refl
  any_inserted less q a (y ∷ ys) = ground (arith, any_inserted less q a ys)

  pub any-stable_sort :
      (less : A → A → Bool) (q : A → Bool) (xs : List A) → any q (stable_sort less xs) ≡ any q xs
  unfolding stable_sort
  any-stable_sort less q [] = refl
  any-stable_sort less q (x ∷ xs) =
      any_inserted less q x (stable_sort less xs) ∙ ap (λ b. q x || b) (any-stable_sort less q xs)

  -- The elements that a test picks keep their order, if none of them is less than another, or than
  -- which none of them is less.
  pub filter-stable_sort :
      (less : A → A → Bool) (p : A → Bool) (xs : List A)
      → ((x y : A) → p x ≡ true → p y ≡ true → less x y ≡ false)
      → filter p (stable_sort less xs) ≡ filter p xs
  unfolding stable_sort insert_by
  filter-stable_sort less p [] h = refl
  filter-stable_sort less p (x ∷ xs) h =
      inserted x (stable_sort less xs)
      ∙ ap (λ ys. if p x then x ∷ ys else ys) (filter-stable_sort less p xs h)
    where
      inserted :
          (a : A) (ys : List A)
          → filter p (insert_by less a ys) ≡ (if p a then a ∷ filter p ys else filter p ys)
      inserted a [] = refl
      inserted a (y ∷ ys) = ground (arith, h y a, inserted a ys)

  -- No element is less than one in front of it.
  abbrev pub is_sorted_by : (A → A → Bool) → List A → Bool
  is_sorted_by less [] = true
  is_sorted_by less (x ∷ xs) = all (λ y. not (less y x)) xs && is_sorted_by less xs

  all_inserted :
      (less : A → A → Bool) (q : A → Bool) (a : A) (ys : List A)
      → all q (insert_by less a ys) ≡ (q a && all q ys)
  unfolding insert_by
  all_inserted less q a [] = refl
  all_inserted less q a (y ∷ ys) = ground (arith, all_inserted less q a ys)

  pub all-stable_sort :
      (less : A → A → Bool) (q : A → Bool) (xs : List A) → all q (stable_sort less xs) ≡ all q xs
  unfolding stable_sort
  all-stable_sort less q [] = refl
  all-stable_sort less q (x ∷ xs) =
      all_inserted less q x (stable_sort less xs) ∙ ap (λ b. q x && b) (all-stable_sort less q xs)

  pub all-filter : (p q : A → Bool) (xs : List A) → all q xs ≡ true → all q (filter p xs) ≡ true
  all-filter p q [] h = refl
  all-filter p q (x ∷ xs) h = ground (arith, h, all-filter p q xs)

  all_mono :
      (p q : A → Bool) (xs : List A)
      → ((x : A) → p x ≡ true → q x ≡ true)
      → all p xs ≡ true
      → all q xs ≡ true
  all_mono p q [] h k = refl
  all_mono p q (x ∷ xs) h k = ground (arith, k, h x, all_mono p q xs h)

  -- A test that never holds both ways, and whose failure passes on, sorts.
  pub stable_sort-is_sorted_by :
      (less : A → A → Bool) (xs : List A)
      → ((x y : A) → less x y ≡ true → less y x ≡ false)
      → ((x y z : A) → less y x ≡ false → less z y ≡ false → less z x ≡ false)
      → is_sorted_by less (stable_sort less xs) ≡ true
  unfolding stable_sort insert_by
  stable_sort-is_sorted_by less [] asym trans = refl
  stable_sort-is_sorted_by less (x ∷ xs) asym trans =
      inserted x (stable_sort less xs) (stable_sort-is_sorted_by less xs asym trans)
    where
      inserted :
          (a : A) (ys : List A)
          → is_sorted_by less ys ≡ true
          → is_sorted_by less (insert_by less a ys) ≡ true
      inserted a [] s = refl
      inserted a (y ∷ ys) s = elim (Bool-cases (less y a)) [
        | inl before ↦ rw before (
            ground (
              arith,
              s,
              asym y a before,
              all_inserted less (λ z. not (less z y)) a ys,
              inserted a ys,
            ))
        | inr after ↦
            let above : all (λ z. not (less z a)) ys ≡ true =
              all_mono (λ z. not (less z y)) (λ z. not (less z a)) ys
                (λ z k. ground (arith, trans a y z after, k)) (ground (arith, s)) in
            rw after (ground (arith, s, above, after))
      ]

-- sort.Strings
unfoldable pub sort_names : List String → List String
unfolding stable_sort
sort_names = stable_sort (λ a b. text_lt (codes a) (codes b))
