-- ===== src/Util/NetLaws.antt =====
-- The laws of the set of networks.
use mathlib.Core.Path.{subst}
use mathlib.Core.Option.{some-injective}
use mathlib.Core.Bool.{false≢true}
use cloud_provider_openstack.Util.IpNet.{
  Networks, put, difference, remove, keys, equal, IpNet, has_key, is_superset, parse_from,
  delete_all, insert_all, parse_ip_nets,
}
use cloud_provider_openstack.Util.Counting.{set_equal_iff, IsDistinct}
use cloud_provider_openstack.Util.Basic.{set_equal, contains}
use cloud_provider_openstack.Prelude.{
  some, ◌↔◌, true, eq_iff, refl, sym, suc, ◌∙◌, not, ap, ◌==◌, ◌&&◌, false, String, ◌∷◌, arith, ◌≡◌,
  [], if◌then◌else◌, length, all, ◌⊎◌, ◌||◌, List, inr, inl, Bool-cases, Option-cases, Some, any,
}

module _ {N : Type 0} where
  has_key-keys : (s : IpNet N) (k : String) → has_key s k ≡ contains (keys s) k
  unfolding has_key keys contains
  has_key-keys [] k = refl
  has_key-keys ((j, m) ∷ s) k = ground (arith, has_key-keys s k)

  has_key-put :
      (k j : String) (n : N) (s : IpNet N)
      → has_key (put k n s) j ≡ (if k == j then true else has_key s j)
  unfolding has_key put
  has_key-put k j n [] = refl
  has_key-put k j n ((i, m) ∷ s) =
      ground (arith, eq_iff i k, eq_iff i j, eq_iff k j, has_key-put k j n s)

  has_key-remove :
      (k j : String) (s : IpNet N)
      → has_key (remove k s) j ≡ (if k == j then false else has_key s j)
  unfolding has_key remove
  has_key-remove k j [] = ground arith
  has_key-remove k j ((i, m) ∷ s) =
      ground (arith, eq_iff i k, eq_iff i j, eq_iff k j, has_key-remove k j s)

  -- A network is in the difference exactly if it is in the first set and not in the second.
  pub has_key-difference :
      (s s2 : IpNet N) (k : String)
      → has_key (difference s s2) k ≡ (has_key s k && not (has_key s2 k))
  unfolding has_key difference
  has_key-difference [] s2 k = refl
  has_key-difference ((j, m) ∷ s) s2 k =
      ground (arith, eq_iff j k, ap (has_key s2), has_key-difference s s2 k)

  length-keys : (s : IpNet N) → length (keys s) ≡ length s
  unfolding keys
  length-keys [] = refl
  length-keys ((k, m) ∷ s) = ap suc (length-keys s)

  is_superset-all : (s s2 : IpNet N) → is_superset s s2 ≡ all (contains (keys s)) (keys s2)
  unfolding is_superset keys
  is_superset-all s [] = refl
  is_superset-all s ((k, m) ∷ s2) = ground (arith, has_key-keys s k, is_superset-all s s2)

  equal-keys : (s s2 : IpNet N) → equal s s2 ≡ set_equal (keys s) (keys s2)
  unfolding equal set_equal
  equal-keys s s2 = ground (arith, is_superset-all s s2, length-keys s, length-keys s2)

  -- Two maps, each of which has every key once, are equal exactly if they have the same networks.
  pub equal_iff :
      (s s2 : IpNet N)
      → IsDistinct (keys s)
      → IsDistinct (keys s2)
      → (equal s s2 ≡ true) ↔ ((k : String) → has_key s k ≡ has_key s2 k)
  equal_iff s s2 d d2 =
      let parts = set_equal_iff (keys s) (keys s2) d d2 in
      (
        λ h k. has_key-keys s k ∙ parts.0 (sym (equal-keys s s2) ∙ h) k ∙ sym (has_key-keys s2 k),
        λ h. equal-keys s s2 ∙ parts.1 (λ k. sym (has_key-keys s k) ∙ h k ∙ has_key-keys s2 k),
      )

  IsDistinct-put :
      (k : String) (n : N) (s : IpNet N) → IsDistinct (keys s) → IsDistinct (keys (put k n s))
  unfolding put keys contains
  IsDistinct-put k n [] d = (refl, tt)
  IsDistinct-put k n ((j, m) ∷ s) d = elim (Bool-cases (j == k)) [
    | inl same ↦ rw same d
    | inr other ↦
        let kept = has_key-put k j n s in
        let fresh = sym (has_key-keys s j) in
        rw other (
          sym (has_key-keys (put k n s) j)
              ∙ ground (arith, kept, has_key-keys s j, eq_iff k j, eq_iff j k, other, d.0),
          IsDistinct-put k n s d.1,
        )
  ]

  -- After an insertion a name is in the set exactly if it was there before or is the name of one of
  -- the inserted networks.
  pub has_key-insert_all :
      (w : Networks N) (items : List N) (s : IpNet N) (k : String)
      → has_key (insert_all w items s) k ≡ (has_key s k || any (λ n. w.text n == k) items)
  unfolding insert_all
  has_key-insert_all w [] s k = ground arith
  has_key-insert_all w (n ∷ items) s k =
      has_key-insert_all w items (put (w.text n) n s) k
      ∙ ground (arith, has_key-put (w.text n) k n s)

  -- After a deletion a name is in the set exactly if it was there before and is not the name of one
  -- of the deleted networks.
  pub has_key-delete_all :
      (w : Networks N) (items : List N) (s : IpNet N) (k : String)
      → has_key (delete_all w items s) k ≡ (has_key s k && not (any (λ n. w.text n == k) items))
  unfolding delete_all
  has_key-delete_all w [] s k = ground arith
  has_key-delete_all w (n ∷ items) s k =
      has_key-delete_all w items (remove (w.text n) s) k
      ∙ ground (arith, has_key-remove (w.text n) k s)

no_key : (N : Type 0) (k : String) → has_key {N = N} [] k ≡ true → ⊥
unfolding has_key
no_key N k h = false≢true h

module _ {N : Type 0} (w : Networks N) (trim : String → String) where
  -- the text parses to a network of this name
  abbrev pub Names : String → String → Type 0
  Names k spec = (n : N) × (w.parse_cidr (trim spec) ≡ some n) × (w.text n ≡ k)

  parse_from_sound :
      (specs : List String) (s r : IpNet N) (k : String)
      → parse_from w trim specs s ≡ some r
      → has_key r k ≡ true
      → (has_key s k ≡ true) ⊎ Some (Names k) specs
  unfolding parse_from
  parse_from_sound [] s r k h f = inl (ground (arith, h, f))
  parse_from_sound (spec ∷ specs) s r k h f = elim (Option-cases (w.parse_cidr (trim spec))) [
    | inl bad ↦ absurd (ground (arith, bad, h))
    | inr (n, good) ↦
        elim (parse_from_sound specs (put (w.text n) n s) r k (rw (good, parse_from) at h) f) [
          | inl there ↦ elim (Bool-cases (w.text n == k)) [
            | inl same ↦ inr (inl (n, good, (eq_iff (w.text n) k).0 same))
            | inr other ↦ inl (ground (arith, has_key-put (w.text n) k n s, other, there))
          ]
          | inr later ↦ inr (inr later)
        ]
  ]

  parse_from_complete :
      (specs : List String) (s r : IpNet N) (k : String)
      → parse_from w trim specs s ≡ some r
      → (has_key s k ≡ true) ⊎ Some (Names k) specs
      → has_key r k ≡ true
  unfolding parse_from
  parse_from_complete [] s r k h (inl f) = ground (arith, h, f)
  parse_from_complete [] s r k h (inr none_left) = absurd none_left
  parse_from_complete (spec ∷ specs) s r k h f = elim (Option-cases (w.parse_cidr (trim spec))) [
    | inl bad ↦ absurd (ground (arith, bad, h))
    | inr (n, good) ↦
        parse_from_complete specs (put (w.text n) n s) r k (rw (good, parse_from) at h)
          (carried n good f)
  ]
    where
      carried :
          (n : N)
          → w.parse_cidr (trim spec) ≡ some n
          → (has_key s k ≡ true) ⊎ Some (Names k) (spec ∷ specs)
          → (has_key (put (w.text n) n s) k ≡ true) ⊎ Some (Names k) specs
      carried n good (inl old) = inl (ground (arith, has_key-put (w.text n) k n s, old))
      carried n good (inr (inl (m, same, named))) =
          inl (ground (arith, has_key-put (w.text n) k n s, good, same, named, eq_iff (w.text n) k))
      carried n good (inr (inr later)) = inr later

  parse_from-IsDistinct :
      (specs : List String) (s r : IpNet N)
      → IsDistinct (keys s)
      → parse_from w trim specs s ≡ some r
      → IsDistinct (keys r)
  unfolding parse_from
  parse_from-IsDistinct [] s r d h = subst (λ m. IsDistinct (keys m)) (some-injective s r h) d
  parse_from-IsDistinct (spec ∷ specs) s r d h = elim (Option-cases (w.parse_cidr (trim spec))) [
    | inl bad ↦ absurd (ground (arith, bad, h))
    | inr (n, good) ↦
        parse_from-IsDistinct specs (put (w.text n) n s) r (IsDistinct-put (w.text n) n s d)
          (rw (good, parse_from) at h)
  ]

  -- The set that is parsed has each key once, and has exactly the networks that the texts name.
  pub parse_ip_nets-Names :
      (specs : List String) (r : IpNet N)
      → parse_ip_nets w trim specs ≡ some r
      → IsDistinct (keys r) × ((k : String) → (has_key r k ≡ true) ↔ Some (Names k) specs)
  unfolding parse_ip_nets
  parse_ip_nets-Names specs r h = (
    parse_from-IsDistinct specs [] r (unfold keys in tt) h,
    λ k. (
      λ f. by_start k (parse_from_sound specs [] r k h f),
      λ s. parse_from_complete specs [] r k h (inr s),
    ),
  )
    where
      by_start :
          (k : String) → (has_key {N = N} [] k ≡ true) ⊎ Some (Names k) specs → Some (Names k) specs
      by_start k (inl f) = absurd (no_key N k f)
      by_start k (inr s) = s
