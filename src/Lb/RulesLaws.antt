-- ===== src/Lb/RulesLaws.antt =====
-- The difference of the wanted and the existing rules of a security group, as it is applied: rules
-- are deleted by their ids, and a rule that is made has the fields that were asked for.
use mathlib.Core.Path.{subst}
use cloud_provider_openstack.Prelude.Strings.{codes, to_lower, text_eq_iff}
use cloud_provider_openstack.Prelude.{
  eq_iff, eq_refl, ◌&&◌, [], map, ◌++◌, inr, List, not, ◌∷◌, refl, false, inl, ◌==◌, arith, Bool,
  String, ◌≡◌, true, eqb_iff, if◌then◌else◌, Bool-cases, Some, any, All, ◌∙◌, sym, any-append, ap,
  All-append,
}
use cloud_provider_openstack.Lb.Rules.{
  get_rules_to_create_and_delete, equal_fold, compare_rule, RuleCreate, rules_to_create,
  rules_to_delete, SecGroupRule,
}

-- no two rules have the same id
abbrev pub distinct_ids : List SecGroupRule → Bool
distinct_ids [] = true
distinct_ids (r ∷ rs) = not (any (λ (s : SecGroupRule). s.id == r.id) rs) && distinct_ids rs

-- the rules that are left after those with the ids of the first list are deleted
unfoldable pub without : List SecGroupRule → List SecGroupRule → List SecGroupRule
without deleted [] = []
without deleted (r ∷ rs) =
    let rest = without deleted rs in
    if any (λ (d : SecGroupRule). d.id == r.id) deleted then rest else r ∷ rest

abbrev pub made : (RuleCreate → String) → RuleCreate → SecGroupRule
made new_id o = record {
  id = new_id o;
  direction = o.direction;
  protocol = o.protocol;
  ether_type = o.ether_type;
  remote_ip_prefix = o.remote_ip_prefix;
  port_range_min = o.port_range_min;
  port_range_max = o.port_range_max;
}

-- the group after the rules to create are made and those to delete are deleted
abbrev pub apply_rules :
    (RuleCreate → String)
    → List RuleCreate × List SecGroupRule
    → List SecGroupRule
    → List SecGroupRule
apply_rules new_id (to_create, to_delete) existing =
    without to_delete existing ++ map (made new_id) to_create

compare_rule-made :
    (new_id : RuleCreate → String) (o : RuleCreate) → compare_rule (made new_id o) o ≡ true
unfolding compare_rule equal_fold
compare_rule-made new_id o =
    let folded = (text_eq_iff (to_lower (codes o.protocol)) (to_lower (codes o.protocol))).1 refl in
    ground (
      arith,
      folded,
      eq_refl o.direction,
      eq_refl o.ether_type,
      eq_refl o.remote_ip_prefix,
      eqb_iff o.port_range_min o.port_range_min,
      eqb_iff o.port_range_max o.port_range_max,
    )

abbrev pub IsAmong : RuleCreate → List RuleCreate → Type 0
IsAmong o ws = Some (λ w. w ≡ o) ws

All-IsAmong :
    (Q : RuleCreate → Type 0) (ws : List RuleCreate)
    → ((o : RuleCreate) → IsAmong o ws → Q o)
    → All Q ws
All-IsAmong Q [] f = tt
All-IsAmong Q (w ∷ ws) f = (f w (inl refl), All-IsAmong Q ws (λ o h. f o (inr h)))

IsAmong-any :
    (p : RuleCreate → Bool) {o : RuleCreate} (ws : List RuleCreate)
    → IsAmong o ws
    → p o ≡ true
    → any p ws ≡ true
IsAmong-any p [] h e = absurd h
IsAmong-any p (w ∷ ws) (inl same) e = rw same (ground (arith, e))
IsAmong-any p (w ∷ ws) (inr h) e = ground (arith, IsAmong-any p ws h e)

module _ (wanted : List RuleCreate) where
  abbrev partnered : SecGroupRule → Bool
  partnered r = any (λ o. compare_rule r o) wanted

  kept : List SecGroupRule → List SecGroupRule
  kept [] = []
  kept (r ∷ rs) = let rest = kept rs in if partnered r then r ∷ rest else rest

  deleted-fresh :
      (k : String) (rs : List SecGroupRule)
      → any (λ (s : SecGroupRule). s.id == k) rs ≡ false
      → any (λ (s : SecGroupRule). s.id == k) (rules_to_delete wanted rs) ≡ false
  unfolding rules_to_delete
  deleted-fresh k [] h = refl
  deleted-fresh k (r ∷ rs) h = ground (arith, h, deleted-fresh k rs)

  without-fresh :
      (d : SecGroupRule) (ds rs : List SecGroupRule)
      → any (λ (s : SecGroupRule). s.id == d.id) rs ≡ false
      → without (d ∷ ds) rs ≡ without ds rs
  unfolding without
  without-fresh d ds [] h = refl
  without-fresh d ds (r ∷ rs) h =
      ground (arith, h, without-fresh d ds rs, eq_iff r.id d.id, eq_iff d.id r.id)

  -- with distinct ids exactly the rules without a partner go
  without-deleted :
      (rs : List SecGroupRule)
      → distinct_ids rs ≡ true
      → without (rules_to_delete wanted rs) rs ≡ kept rs
  unfolding without rules_to_delete kept
  without-deleted [] h = refl
  without-deleted (r ∷ rs) h =
      let fresh : any (λ (s : SecGroupRule). s.id == r.id) rs ≡ false = ground (arith, h) in
      let later = without-deleted rs (ground (arith, h)) in
      elim (Bool-cases (partnered r)) [
        | inl e ↦
            let same : rules_to_delete wanted (r ∷ rs) ≡ rules_to_delete wanted rs = rw e refl in
            ap (λ ds. without ds (r ∷ rs)) same
            ∙ rw (deleted-fresh r.id rs fresh, e) (ap (λ others. r ∷ others) later)
        | inr e ↦
            let more : rules_to_delete wanted (r ∷ rs) ≡ r ∷ rules_to_delete wanted rs =
              rw e refl in
            ap (λ ds. without ds (r ∷ rs)) more
            ∙ rw (eq_refl r.id, e) (without-fresh r (rules_to_delete wanted rs) rs fresh ∙ later)
      ]

  kept-partnered : (rs : List SecGroupRule) → All (λ r. partnered r ≡ true) (kept rs)
  unfolding kept
  kept-partnered [] = tt
  kept-partnered (r ∷ rs) = elim (Bool-cases (partnered r)) [
    | inl e ↦ rw e (e, kept-partnered rs)
    | inr e ↦ rw e (kept-partnered rs)
  ]

  kept-any :
      (o : RuleCreate) (rs : List SecGroupRule)
      → IsAmong o wanted
      → any (λ r. compare_rule r o) rs ≡ any (λ r. compare_rule r o) (kept rs)
  unfolding kept
  kept-any o [] h = refl
  kept-any o (r ∷ rs) h =
      ground (arith, kept-any o rs h, IsAmong-any (λ w. compare_rule r w) wanted h)

module _ (new_id : RuleCreate → String) (existing : List SecGroupRule) where
  created-any :
      (o : RuleCreate) (ws : List RuleCreate)
      → IsAmong o ws
      → any (λ r. compare_rule r o) existing ≡ false
      → any (λ r. compare_rule r o) (map (made new_id) (rules_to_create ws existing)) ≡ true
  unfolding rules_to_create
  created-any o [] h e = absurd h
  created-any o (w ∷ ws) (inl same) e =
      subst
        (λ z.
          any (λ r. compare_rule r o) (map (made new_id) (rules_to_create (z ∷ ws) existing))
          ≡ true)
        (sym same) (rw e (rw (compare_rule-made new_id o) refl))
  created-any o (w ∷ ws) (inr h) e =
      let later = created-any o ws h e in
      elim (Bool-cases (any (λ r. compare_rule r w) existing)) [
        | inl found ↦ rw found later
        | inr missing ↦ rw missing (ground (arith, later))
      ]

  created-partnered :
      (wanted ws : List RuleCreate)
      → All (λ o. IsAmong o wanted) ws
      → All
          (λ r. any (λ o. compare_rule r o) wanted ≡ true)
          (map (made new_id) (rules_to_create ws existing))
  unfolding rules_to_create
  created-partnered wanted [] h = tt
  created-partnered wanted (w ∷ ws) h = elim (Bool-cases (any (λ r. compare_rule r w) existing)) [
    | inl e ↦ rw e (created-partnered wanted ws h.1)
    | inr e ↦ rw e (
      IsAmong-any (λ o. compare_rule (made new_id w) o) wanted h.0 (compare_rule-made new_id w),
      created-partnered wanted ws h.1,
    )
  ]

no_creation :
    (ws : List RuleCreate) (rs : List SecGroupRule)
    → All (λ o. any (λ r. compare_rule r o) rs ≡ true) ws
    → rules_to_create ws rs ≡ []
unfolding rules_to_create
no_creation [] rs h = refl
no_creation (w ∷ ws) rs h = rw h.0 (no_creation ws rs h.1)

no_deletion :
    (ws : List RuleCreate) (rs : List SecGroupRule)
    → All (λ r. any (λ o. compare_rule r o) ws ≡ true) rs
    → rules_to_delete ws rs ≡ []
unfolding rules_to_delete
no_deletion ws [] h = refl
no_deletion ws (r ∷ rs) h = rw h.0 (no_deletion ws rs h.1)

-- Once the difference is applied, to a group whose rules have distinct ids, every wanted rule has a
-- rule of the group that is as it says, every rule of the group is as a wanted one says, and the
-- difference is empty.
pub get_rules-applied :
    (new_id : RuleCreate → String) (wanted : List RuleCreate) (existing : List SecGroupRule)
    → distinct_ids existing ≡ true
    → let applied = apply_rules new_id (get_rules_to_create_and_delete wanted existing) existing in
      All (λ o. any (λ r. compare_rule r o) applied ≡ true) wanted
      × All (λ r. any (λ o. compare_rule r o) wanted ≡ true) applied
      × (get_rules_to_create_and_delete wanted applied ≡ ([], []))
unfolding get_rules_to_create_and_delete
get_rules-applied new_id wanted existing d =
    let created = map (made new_id) (rules_to_create wanted existing) in
    let covers : (o : RuleCreate)
        → IsAmong o wanted
        → any (λ r. compare_rule r o) (kept wanted existing ++ created) ≡ true =
      λ o among.
        let both = any-append (λ r. compare_rule r o) (kept wanted existing) created in
        let same = kept-any wanted o existing among in
        elim (Bool-cases (any (λ r. compare_rule r o) existing)) [
          | inl there ↦ ground (arith, both, same, there)
          | inr missing ↦ ground (arith, both, created-any new_id existing o wanted among missing)
        ] in
    let fits =
      All-append (λ r. any (λ o. compare_rule r o) wanted ≡ true) (kept wanted existing) created
        (kept-partnered wanted existing)
        (created-partnered new_id existing wanted wanted
          (All-IsAmong (λ o. IsAmong o wanted) wanted (λ o h. h))) in
    let all_covered =
      All-IsAmong (λ o. any (λ r. compare_rule r o) (kept wanted existing ++ created) ≡ true) wanted
        covers in
    rw (without-deleted wanted existing d) (
      all_covered,
      fits,
      rw
          (
            no_creation wanted (kept wanted existing ++ created) all_covered,
            no_deletion wanted (kept wanted existing ++ created) fits,
          )
          refl,
    )
