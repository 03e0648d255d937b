-- ===== src/Keystone/Decisions.antt =====
-- When the authorizer allows.
use mathlib.Core.List.{Perm}
use cloud_provider_openstack.Prelude.{
  ◌&&◌, some, ◌≡◌, true, false, inl, Bool, none, refl, Option, [], inr, List, ◌∷◌, ◌≢◌, arith,
  if◌then◌else◌, Option-cases, any, All, Some,
}
use cloud_provider_openstack.Prelude.Strings.{Text, codes}
use cloud_provider_openstack.Keystone.Policy.{UserInfo, lookup_text, Attributes, Policy, TextMap}
use cloud_provider_openstack.Keystone.Order.{any-perm}
use cloud_provider_openstack.Keystone.Authorize.{
  authorize, or_empty, allow, applies, deny, authorize_loop, permits, has_any, user_projects,
}

module _ (json : Text → Option (List Text)) (a : Attributes) where
  -- The policy is for the user of the request, and permits the request.
  abbrev pub Grants : Policy → Type 0
  Grants p = (applies p a.user ≡ true) × (permits json p a ≡ some true)

  -- the test that goes with it
  grants : Policy → Bool
  grants p = applies p a.user && (elim (permits json p a) [ none ↦ false | some b ↦ b ])

  -- No policy of the list makes the source read a nil pointer.
  abbrev pub NoPanic : List Policy → Type 0
  NoPanic ps = All (λ p. permits json p a ≢ none) ps

  loop_allow : (ps : List Policy) → authorize_loop json ps a ≡ some allow → Some Grants ps
  unfolding authorize_loop
  loop_allow [] h = cc
  loop_allow (p ∷ ps) h = ground (arith, loop_allow ps)

  loop_total :
      (ps : List Policy) → NoPanic ps → Some Grants ps → authorize_loop json ps a ≡ some allow
  unfolding authorize_loop
  loop_total [] n s = absurd s
  loop_total (p ∷ ps) n (inl g) = ground (arith, g.0, g.1)
  loop_total (p ∷ ps) n (inr s) = ground (arith, n.0, loop_total ps n.1 s)

  loop-any :
      (ps : List Policy)
      → NoPanic ps
      → authorize_loop json ps a ≡ some (if any grants ps then allow else deny)
  unfolding authorize_loop grants
  loop-any [] n = refl
  loop-any (p ∷ ps) n = ground (arith, n.0, loop-any ps n.1)

  -- A request is allowed only if it carries authentication data and a policy of the list that is
  -- for its user permits it, whatever the other policies are.
  pub authorize_sound :
      (ps : List Policy) → authorize json ps a ≡ some allow → (a.user.extra ≢ none) × Some Grants ps
  unfolding authorize
  authorize_sound ps h = elim (Option-cases a.user.extra) [
    | inl nothing ↦ absurd (ground (arith, h, nothing))
    | inr (m, e) ↦ ((λ x. cc (e, x)), loop_allow ps (ground (arith, h, e)))
  ]

  -- Where no policy panics, a policy anywhere in the list that is for the user and permits the
  -- request is enough: no other policy takes the permission back.
  pub authorize_complete :
      (ps : List Policy)
      → a.user.extra ≢ none
      → NoPanic ps
      → Some Grants ps
      → authorize json ps a ≡ some allow
  unfolding authorize
  authorize_complete ps given n s = elim (Option-cases a.user.extra) [
    | inl nothing ↦ absurd (given nothing)
    | inr (m, e) ↦ ground (arith, e, loop_total ps n s)
  ]

  -- Where no policy panics, the order of the policies does not change the decision.
  pub authorize_perm :
      (ps qs : List Policy)
      → NoPanic ps
      → NoPanic qs
      → Perm ps qs
      → authorize json ps a ≡ authorize json qs a
  unfolding authorize
  authorize_perm ps qs n k p = elim (Option-cases a.user.extra) [
    | inl nothing ↦ ground (arith, nothing)
    | inr (m, e) ↦ ground (arith, e, loop-any ps n, loop-any qs k, any-perm grants p)
  ]

no_member : (items : List Text) → has_any [] items ≡ false
no_member [] = refl
no_member (x ∷ xs) = no_member xs

-- A policy with a "users" map that names no projects is for nobody.
pub applies-no_projects :
    (p : Policy) (m : TextMap) (user : UserInfo)
    → p.users ≡ some m
    → or_empty (lookup_text (codes "projects") m) ≡ []
    → applies p user ≡ false
unfolding applies
applies-no_projects p m user h e =
    rw (h, applies) (rw e (ground (arith, no_member (user_projects user))))
