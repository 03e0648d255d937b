-- ===== src/Keystone/Matching.antt =====
-- What a match list asks of a user.
use mathlib.Core.Path.{subst}
use cloud_provider_openstack.Prelude.{
  inr, none, [], arith, Option, ◌∷◌, ◌≡◌, true, List, inl, some, any, Some, sym, ◌⊎◌, ◌∙◌, false,
  Bool-cases, ◌↔◌, refl, All,
}
use cloud_provider_openstack.Prelude.Strings.{Text, text_eq_iff, text_eq}
use cloud_provider_openstack.Keystone.Search.{find_string, member, find_string-eq-member}
use cloud_provider_openstack.Keystone.Rules.{extra_found, type_matches, known_types, match_all}
use cloud_provider_openstack.Keystone.Policy.{
  type_project, project_name_key, UserInfo, PolicyMatch, type_user, roles_key, type_group,
  type_role, entry, project_id_key,
}
use cloud_provider_openstack.Keystone.Permission.{star}

-- A known type that is none of the first three is the fourth.
known_role :
    (kind : Text)
    → member kind known_types ≡ true
    → text_eq kind type_group ≡ false
    → text_eq kind type_user ≡ false
    → text_eq kind type_project ≡ false
    → text_eq kind type_role ≡ true
known_role kind h g u p = ground (
  arith,
  text_eq_iff kind type_group,
  text_eq_iff type_group kind,
  text_eq_iff kind type_user,
  text_eq_iff type_user kind,
  text_eq_iff kind type_project,
  text_eq_iff type_project kind,
  text_eq_iff kind type_role,
  text_eq_iff type_role kind,
)

module _ (user : UserInfo) where
  abbrev pub Among : Option (List Text) → List Text → Type 0
  Among none values = ⊥
  Among (some items) values = Some (λ item. member item values ≡ true) items

  -- One match: any value will do, or the user has one of the values under the match's type.
  pub data Satisfies (m : PolicyMatch) : Type 0 where
    any_value : member m.kind known_types ≡ true → member star m.values ≡ true → Satisfies m
    by_group : m.kind ≡ type_group → Some (λ g. member g m.values ≡ true) user.groups → Satisfies m
    by_name : m.kind ≡ type_user → member user.name m.values ≡ true → Satisfies m
    by_uid : m.kind ≡ type_user → member user.uid m.values ≡ true → Satisfies m
    by_project_id :
        m.kind ≡ type_project → Among (entry user.extra project_id_key) m.values → Satisfies m
    by_project_name :
        m.kind ≡ type_project → Among (entry user.extra project_name_key) m.values → Satisfies m
    by_role : m.kind ≡ type_role → Among (entry user.extra roles_key) m.values → Satisfies m

  any-Some :
      (items values : List Text)
      → any (λ item. find_string item values) items ≡ true
      → Some (λ item. member item values ≡ true) items
  any-Some [] values h = cc
  any-Some (x ∷ xs) values h = ground (arith, find_string-eq-member x values, any-Some xs values)

  Some-any :
      (items values : List Text)
      → Some (λ item. member item values ≡ true) items
      → any (λ item. find_string item values) items ≡ true
  Some-any [] values s = absurd s
  Some-any (x ∷ xs) values (inl h) = ground (arith, find_string-eq-member x values, h)
  Some-any (x ∷ xs) values (inr s) = ground (arith, Some-any xs values s)

  extra_Among :
      (o : Option (List Text)) (values : List Text) → extra_found o values ≡ true → Among o values
  extra_Among none values h = cc
  extra_Among (some items) values h = any-Some items values h

  Among-extra :
      (o : Option (List Text)) (values : List Text) → Among o values → extra_found o values ≡ true
  Among-extra none values s = absurd s
  Among-extra (some items) values s = Some-any items values s

  type_matches_sound :
      (m : PolicyMatch)
      → member m.kind known_types ≡ true
      → type_matches m user ≡ true
      → Satisfies m
  unfolding type_matches
  type_matches_sound m known h = elim (Bool-cases (text_eq m.kind type_group)) [
    | inl group ↦
        by_group ((text_eq_iff m.kind type_group).0 group)
          (any-Some user.groups m.values (rw group at h))
    | inr not_group ↦ elim (Bool-cases (text_eq m.kind type_user)) [
      | inl is_user ↦ elim (Bool-cases (find_string user.name m.values)) [
        | inl name ↦
            by_name ((text_eq_iff m.kind type_user).0 is_user)
              (sym (find_string-eq-member user.name m.values) ∙ name)
        | inr other ↦
            by_uid ((text_eq_iff m.kind type_user).0 is_user) (
              sym (find_string-eq-member user.uid m.values) ∙ (rw (not_group, is_user, other) at h))
      ]
      | inr not_user ↦ elim (Bool-cases (text_eq m.kind type_project)) [
        | inl project ↦ elim (Bool-cases (extra_found (entry user.extra project_id_key) m.values)) [
          | inl id ↦
              by_project_id ((text_eq_iff m.kind type_project).0 project)
                (extra_Among _ m.values id)
          | inr other ↦ by_project_name ((text_eq_iff m.kind type_project).0 project) (
              extra_Among (entry user.extra project_name_key) m.values
                (rw (not_group, not_user, project, other) at h))
        ]
        | inr not_project ↦
            let role = known_role m.kind known not_group not_user not_project in
            by_role ((text_eq_iff m.kind type_role).0 role) (
              extra_Among (entry user.extra roles_key) m.values
                (rw (not_group, not_user, not_project, role) at h))
      ]
    ]
  ]

  -- the two tests of the loop, at a type and values
  abbrev Passes : Text → List Text → Type 0
  Passes kind values =
      (member kind known_types ≡ true)
      × ((member star values ≡ true)
          ⊎ (type_matches (record { kind = kind; values = values }) user ≡ true))

  type_matches_complete : (m : PolicyMatch) → Satisfies m → Passes m.kind m.values
  unfolding type_matches text_eq
  type_matches_complete m (any_value k s) = (k, inl s)
  type_matches_complete m (by_group k s) =
      subst (λ t. Passes t m.values) (sym k) (refl, inr (Some-any user.groups m.values s))
  type_matches_complete m (by_name k s) =
      subst (λ t. Passes t m.values) (sym k)
        (refl, inr (ground (arith, find_string-eq-member user.name m.values, s)))
  type_matches_complete m (by_uid k s) =
      subst (λ t. Passes t m.values) (sym k)
        (refl, inr (ground (arith, find_string-eq-member user.uid m.values, s)))
  type_matches_complete m (by_project_id k s) =
      subst (λ t. Passes t m.values) (sym k)
        (refl, inr (ground (arith, Among-extra (entry user.extra project_id_key) m.values s)))
  type_matches_complete m (by_project_name k s) =
      subst (λ t. Passes t m.values) (sym k)
        (refl, inr (ground (arith, Among-extra (entry user.extra project_name_key) m.values s)))
  type_matches_complete m (by_role k s) =
      subst (λ t. Passes t m.values) (sym k)
        (refl, inr (Among-extra (entry user.extra roles_key) m.values s))

  sound : (ms : List PolicyMatch) → match_all ms user ≡ true → All Satisfies ms
  unfolding match_all
  sound [] h = tt
  sound (m ∷ ms) h = elim (Bool-cases (find_string m.kind known_types)) [
    | inr unknown ↦ absurd (ground (arith, unknown, h))
    | inl known ↦
        let is_known = sym (find_string-eq-member m.kind known_types) ∙ known in
        elim (Bool-cases (find_string star m.values)) [
          | inl anything ↦ (
            any_value is_known (sym (find_string-eq-member star m.values) ∙ anything),
            sound ms (rw (known, anything) at h),
          )
          | inr particular ↦ elim (Bool-cases (type_matches m user)) [
            | inl fits ↦
                (type_matches_sound m is_known fits, sound ms (rw (known, particular, fits) at h))
            | inr fails ↦ absurd (ground (arith, known, particular, fails, h))
          ]
        ]
  ]

  complete : (ms : List PolicyMatch) → All Satisfies ms → match_all ms user ≡ true
  unfolding match_all
  complete [] s = refl
  complete (m ∷ ms) s = ground (
    arith,
    type_matches_complete m s.0,
    complete ms s.1,
    find_string-eq-member m.kind known_types,
    find_string-eq-member star m.values,
  )

  -- A match list accepts a user exactly when each of its matches does: one whose type is known and
  -- whose values hold "*", or the user's name or uid, one of the groups, of the roles, or of the
  -- project names and ids, as the type says. A match of an unknown type accepts nobody.
  pub match_all_iff : (ms : List PolicyMatch) → (match_all ms user ≡ true) ↔ All Satisfies ms
  match_all_iff ms = (sound ms, complete ms)
