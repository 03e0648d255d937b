-- ===== src/Keystone/Order.antt =====
-- Tests over a list do not depend on its order, so neither do the loops over a Go map, whose order
-- is not defined.
use mathlib.Core.Logic.{∥∥₁_elim}
use cloud_provider_openstack.Prelude.{
  sym, ◌∙◌, ap, inr, [], arith, Option, ◌∷◌, ◌≡◌, true, List, inl, refl, Bool, Bool-cases, any,
  Some,
}
use cloud_provider_openstack.Prelude.Strings.{split, text_eq_iff, trim_space, to_lower, Text}
use cloud_provider_openstack.Keystone.Policy.{TextMap, Attributes}
use cloud_provider_openstack.Keystone.Permission.{
  is_empty_text, resource_permission_allowed, star, definition_allows, entry_allows, with_parts,
}
use mathlib.Core.List.{Permᴰ, Perm}

module _ {ℓ} {A : Type ℓ} (p : A → Bool) where
  any-permᴰ : {xs ys : List A} → Permᴰ xs ys → any p xs ≡ any p ys
  any-permᴰ Permᴰ.nil = refl
  any-permᴰ (Permᴰ.cons e d) = ground (arith, any-permᴰ d, ap p e)
  any-permᴰ (Permᴰ.swap e f) = ground (arith, ap p e, ap p f)
  any-permᴰ (Permᴰ.trans d e) = any-permᴰ d ∙ any-permᴰ e

  pub any-perm : {xs ys : List A} → Perm xs ys → any p xs ≡ any p ys
  any-perm h = ∥∥₁_elim h (hlevel) any-permᴰ

module _ (json : Text → Option (List Text)) (attr : Attributes) where
  resource_permission-any :
      (spec : TextMap)
      → resource_permission_allowed json spec attr ≡ any (entry_allows json attr) spec
  unfolding resource_permission_allowed
  resource_permission-any [] = refl
  resource_permission-any (e ∷ spec) = ground (arith, resource_permission-any spec)

  -- Whether the resource permissions of a policy allow a request does not depend on the order in
  -- which Go's `range` goes through the map.
  pub resource_permission_allowed_perm :
      (spec spec' : TextMap)
      → Perm spec spec'
      → resource_permission_allowed json spec attr ≡ resource_permission_allowed json spec' attr
  resource_permission_allowed_perm spec spec' h =
      resource_permission-any spec
      ∙ any-perm (entry_allows json attr) h
      ∙ sym (resource_permission-any spec')

  -- What an entry that allows a request without a namespace has before the slash.
  abbrev pub StarBefore : List Text → Type 0
  StarBefore (ns ∷ res ∷ []) = to_lower (trim_space ns) ≡ star
  StarBefore _ = ⊥

  with_parts_star :
      (parts verbs : List Text)
      → is_empty_text attr.namespace ≡ true
      → with_parts json parts attr verbs ≡ true
      → StarBefore parts
  unfolding definition_allows
  with_parts_star [] verbs e h = cc
  with_parts_star (ns ∷ []) verbs e h = cc
  with_parts_star (ns ∷ res ∷ []) verbs e h =
      (text_eq_iff (to_lower (trim_space ns)) star).0 (ground (arith, e, h))
  with_parts_star (ns ∷ res ∷ x ∷ rest) verbs e h = cc

  -- A request without a namespace is allowed only by an entry whose key has "*" before its slash.
  pub no_namespace_needs_star :
      (spec : TextMap)
      → is_empty_text attr.namespace ≡ true
      → resource_permission_allowed json spec attr ≡ true
      → Some (λ (e : Text × List Text). StarBefore (split b'/' e.0)) spec
  unfolding resource_permission_allowed entry_allows
  no_namespace_needs_star [] e h = cc
  no_namespace_needs_star ((key, verbs) ∷ spec) e h =
      elim (Bool-cases (entry_allows json attr (key, verbs))) [
        | inl allows ↦ inl (with_parts_star (split b'/' key) verbs e allows)
        | inr other ↦ inr (no_namespace_needs_star spec e (rw other at h))
      ]
