-- ===== src/Routes/Slices.antt =====
-- The deletion of an element by its last one: `xs[i] = xs[len(xs)-1]; xs = xs[:len(xs)-1]`.
use cloud_provider_openstack.Routes.Delete.{overwrite, shorten, find_index}
use cloud_provider_openstack.Prelude.{
  [], true, ◌++◌, none, false, ◌≡◌, ℕ, some, refl, zero, ap, ◌∷◌, suc, List, ◌-◌, arith, Bool,
  length-append, set, get_elem?, any, take, length, append-nil,
}
use mathlib.Core.Path.{subst}
use mathlib.Core.List.{Perm, perm_middle}
use mathlib.Core.List.Perm
use mathlib.Core.Option.{some-injective}

module _ {ℓ} {A : Type ℓ} where
  -- The element at the index that is found passes the test.
  pub find_index_sound :
      (p : A → Bool) (xs : List A) {i : ℕ}
      → find_index p xs ≡ some i
      → (x : A) × (get_elem? xs i ≡ some x) × (p x ≡ true)
  unfolding find_index
  find_index_sound p [] h = cc
  find_index_sound p (x ∷ xs) {i = zero} h = (x, refl, ground (arith, h))
  find_index_sound p (x ∷ xs) {i = suc i} h =
      let deeper : find_index p xs ≡ some i = ground (arith, h) in find_index_sound p xs deeper

  pub find_index-none : (p : A → Bool) (xs : List A) → find_index p xs ≡ none → any p xs ≡ false
  unfolding find_index
  find_index-none p [] h = refl
  find_index-none p (x ∷ xs) h = ground (arith, find_index-none p xs)

  -- Every list that has an element has a last one.
  pub last_of :
      (xs : List A) (i : ℕ) {x : A}
      → get_elem? xs i ≡ some x
      → (init : List A) × (last : A) × (xs ≡ init ++ last ∷ [])
  last_of [] i h = cc
  last_of (x ∷ []) i h = ([], x, refl)
  last_of (x ∷ y ∷ ys) i h = let (init, last, e) = last_of (y ∷ ys) 0 refl in (x ∷ init, last, rw e)

  get_elem?-last :
      (init : List A) (last : A) → get_elem? (init ++ last ∷ []) (length init) ≡ some last
  get_elem?-last [] last = refl
  get_elem?-last (x ∷ init) last = get_elem?-last init last

  take-init : (init : List A) (last : A) → take (length init) (init ++ last ∷ []) ≡ init
  take-init [] last = refl
  take-init (x ∷ init) last = rw (take-init init last)

  length-set : (xs : List A) (i : ℕ) (v : A) → length (set xs i v) ≡ length xs
  length-set [] i v = refl
  length-set (x ∷ xs) zero v = refl
  length-set (x ∷ xs) (suc i) v = ap suc (length-set xs i v)

  -- A write inside the list in front, or onto the last element.
  set-init :
      (init : List A) (last : A) (i : ℕ)
      → set (init ++ last ∷ []) i last ≡ set init i last ++ last ∷ []
  set-init [] last zero = refl
  set-init [] last (suc i) = refl
  set-init (x ∷ init) last zero = refl
  set-init (x ∷ init) last (suc i) = rw (set-init init last i)

  overwrite-init :
      (init : List A) (last : A) (i : ℕ)
      → overwrite (init ++ last ∷ []) i ≡ set init i last ++ last ∷ []
  unfolding overwrite
  overwrite-init init last i =
      let n : length (init ++ last ∷ []) - 1 ≡ length init =
        omega (arith, length-append init (last ∷ [])) in
      rw (n, overwrite) (rw (get_elem?-last init last) (set-init init last i))

  shorten-init : (init : List A) (last : A) → shorten (init ++ last ∷ []) ≡ init
  unfolding shorten
  shorten-init init last =
      let n : length (init ++ last ∷ []) - 1 ≡ length init =
        omega (arith, length-append init (last ∷ [])) in
      rw n (take-init init last)

  replaced-perm :
      (init : List A) (last : A) (i : ℕ) {x : A}
      → get_elem? (init ++ last ∷ []) i ≡ some x
      → Perm (init ++ last ∷ []) (x ∷ set init i last)
  replaced-perm [] last zero h =
      subst (λ z. Perm (last ∷ []) (z ∷ [])) (some-injective _ _ h) (Perm.refl (last ∷ []))
  replaced-perm [] last (suc i) h = cc
  replaced-perm (y ∷ init) last zero h =
      subst (λ z. Perm (y ∷ init ++ last ∷ []) (z ∷ last ∷ init)) (some-injective _ _ h)
        (Perm.cons y (
          subst (λ z. Perm (init ++ last ∷ []) (last ∷ z)) (append-nil init) (perm_middle init [])))
  replaced-perm (y ∷ init) last (suc i) {x = x} h =
      Perm.trans (Perm.cons y (replaced-perm init last i h)) (Perm.swap x y (set init i last))

  -- What is left, with the element that was deleted, is the list in another order.
  pub swap_remove-perm :
      (xs : List A) (i : ℕ) {x : A}
      → get_elem? xs i ≡ some x
      → Perm xs (x ∷ shorten (overwrite xs i))
  swap_remove-perm xs i {x = x} h =
      let (init, last, e) = last_of xs i h in
      rw (e, overwrite-init init last i, shorten-init (set init i last) last)
        (replaced-perm init last i (rw e at h))

  get_elem?-set_self :
      (xs : List A) (i : ℕ) {x : A} (v : A)
      → get_elem? xs i ≡ some x
      → get_elem? (set xs i v) i ≡ some v
  get_elem?-set_self [] i v h = cc
  get_elem?-set_self (y ∷ xs) zero v h = refl
  get_elem?-set_self (y ∷ xs) (suc i) v h = get_elem?-set_self xs i v h

  -- What stands at the index after the write is the last element.
  pub get_elem?-overwrite :
      (xs : List A) (i : ℕ) {x last : A}
      → get_elem? xs i ≡ some x
      → get_elem? xs (length xs - 1) ≡ some last
      → get_elem? (overwrite xs i) i ≡ some last
  unfolding overwrite
  get_elem?-overwrite xs i {last = last} at at_end =
      rw (at_end, overwrite) (get_elem?-set_self xs i last at)
