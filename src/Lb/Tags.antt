-- ===== src/Lb/Tags.antt =====
-- tagList, subnetTagMatcher and tweakListOpts of pkg/openstack/loadbalancer.go, over the code points
-- of the tags. A list that the source joins with commas for the query is left as a list.
use mathlib.Core.Path.{subst}
use cloud_provider_openstack.Prelude.Strings.{trim_space, split, text_eq, Text}
use cloud_provider_openstack.Prelude.{
  Bool, arith, not, List, ◌&&◌, ◌≡◌, ◌∷◌, map, ℕ, true, [], false, eqb, if◌then◌else◌, any, all,
  drop, sym, inl, refl, ◌∙◌, inr, Bool-cases,
}

-- the list, and the flags of the prefixes "!" and "&"
pub record TagList : Type 0 where
  pub list : List Text
  pub negated : Bool
  pub every : Bool

abbrev pub has_char : ℕ → Text → Bool
has_char c [] = false
has_char c (x ∷ s) = eqb x c

abbrev pub drop_if : Bool → Text → Text
drop_if b s = if b then drop 1 s else s

unfoldable pub tag_list : Text → TagList
unfolding split trim_space
tag_list tags =
    let negated = has_char b'!' tags in
    let rest = drop_if negated tags in
    let every = has_char b'&' rest in
    record {
      list = map trim_space (split b',' (drop_if every rest));
      negated = negated;
      every = every;
    }

-- some tag of the subnet is this one
abbrev pub has_tag : List Text → Text → Bool
has_tag subnet_tags tag = any (λ t. text_eq t tag) subnet_tags

abbrev pub xor : Bool → Bool → Bool
xor true b = not b
xor false b = b

-- the loop of the matcher, whose end is `not != all`
unfoldable pub match_tags : List Text → Bool → Bool → List Text → Bool
match_tags [] negated every subnet_tags = xor negated every
match_tags (tag ∷ tags) negated every subnet_tags =
    let rest = match_tags tags negated every subnet_tags in
    if has_tag subnet_tags tag
    then (if not every then not negated else rest)
    else if every
    then negated
    else rest

unfoldable pub subnet_tag_matcher : Text → List Text → Bool
unfolding match_tags
subnet_tag_matcher tags subnet_tags =
    let spec = tag_list tags in match_tags spec.list spec.negated spec.every subnet_tags

-- subnets.ListOpts, the part for tags
pub record ListOpts : Type 0 where
  pub tags : List Text
  pub tags_any : List Text
  pub not_tags : List Text
  pub not_tags_any : List Text

abbrev pub no_tags : ListOpts
no_tags = record { tags = []; tags_any = []; not_tags = []; not_tags_any = [] }

abbrev pub opts_of : TagList → ListOpts
opts_of spec =
    if spec.every
    then (if spec.negated
        then record no_tags { not_tags_any = spec.list }
        else record no_tags { tags = spec.list })
    else if spec.negated
    then record no_tags { not_tags = spec.list }
    else record no_tags { tags_any = spec.list }

unfoldable pub tweak_list_opts : Text → ListOpts
tweak_list_opts [] = no_tags
tweak_list_opts (c ∷ s) = opts_of (tag_list (c ∷ s))

-- what is asked of a subnet: all of the tags, or one of them
abbrev pub quantified : Bool → List Text → List Text → Bool
quantified every tags subnet_tags =
    if every then all (has_tag subnet_tags) tags else any (has_tag subnet_tags) tags

match_tags_eq :
    (tags : List Text) (negated every : Bool) (subnet_tags : List Text)
    → match_tags tags negated every subnet_tags ≡ xor negated (quantified every tags subnet_tags)
unfolding match_tags
match_tags_eq [] negated every subnet_tags = ground arith
match_tags_eq (tag ∷ tags) negated every subnet_tags =
    ground (arith, match_tags_eq tags negated every subnet_tags)

-- A subnet matches a tag specification if it has all of the tags, with the prefix "&", or one of
-- them, without it; the prefix "!" turns the answer round.
pub subnet_tag_matcher_eq :
    (tags : Text) (subnet_tags : List Text)
    → subnet_tag_matcher tags subnet_tags
      ≡ xor
          (tag_list tags).negated
          (quantified (tag_list tags).every (tag_list tags).list subnet_tags)
unfolding subnet_tag_matcher
subnet_tag_matcher_eq tags subnet_tags =
    let spec = tag_list tags in match_tags_eq spec.list spec.negated spec.every subnet_tags

-- Neutron's documented filters: `tags` and `not-tags` are about all of the tags, `tags-any` and
-- `not-tags-any` about one of them. A filter that is not given keeps every subnet.
abbrev pub unless_empty : List Text → Bool → Bool
unless_empty [] b = true
unless_empty (t ∷ ts) b = b

abbrev pub query_keeps : ListOpts → List Text → Bool
query_keeps opts subnet_tags =
    unless_empty opts.tags (quantified true opts.tags subnet_tags)
    && unless_empty opts.tags_any (quantified false opts.tags_any subnet_tags)
    && unless_empty opts.not_tags (not (quantified true opts.not_tags subnet_tags))
    && unless_empty opts.not_tags_any (not (quantified false opts.not_tags_any subnet_tags))

opts_of_parts :
    (negated every : Bool) (t : Text) (ts : List Text) (subnet_tags : List Text)
    → query_keeps (opts_of (record { list = t ∷ ts; negated = negated; every = every })) subnet_tags
      ≡ (if negated
          then not (quantified (not every) (t ∷ ts) subnet_tags)
          else quantified every (t ∷ ts) subnet_tags)
opts_of_parts true true t ts subnet_tags = ground arith
opts_of_parts true false t ts subnet_tags = ground arith
opts_of_parts false true t ts subnet_tags = ground arith
opts_of_parts false false t ts subnet_tags = ground arith

opts_of-query :
    (spec : TagList) {t : Text} {ts : List Text} (subnet_tags : List Text)
    → spec.list ≡ t ∷ ts
    → query_keeps (opts_of spec) subnet_tags ≡ (
        if spec.negated
        then not (quantified (not spec.every) spec.list subnet_tags)
        else quantified spec.every spec.list subnet_tags)
opts_of-query spec subnet_tags h =
    subst
      (λ l.
        query_keeps (opts_of (record { list = l; negated = spec.negated; every = spec.every }))
          subnet_tags
        ≡ (if spec.negated
            then not (quantified (not spec.every) l subnet_tags)
            else quantified spec.every l subnet_tags))
      (sym h) (opts_of_parts spec.negated spec.every _ _ subnet_tags)

-- For a specification that is not empty and gives at least one tag, the query keeps the subnets that
-- the matcher keeps if the specification is not negated. If it is negated the query asks the other
-- quantifier: "!&a,b" drops a subnet with one of the tags, and "!a,b" only one with all of them.
pub tweak_list_opts-query :
    (c : ℕ) (s : Text) {t : Text} {ts : List Text} (subnet_tags : List Text)
    → (tag_list (c ∷ s)).list ≡ t ∷ ts
    → query_keeps (tweak_list_opts (c ∷ s)) subnet_tags ≡ (
        if (tag_list (c ∷ s)).negated
        then not (quantified (not (tag_list (c ∷ s)).every) (tag_list (c ∷ s)).list subnet_tags)
        else subnet_tag_matcher (c ∷ s) subnet_tags)
unfolding tweak_list_opts
tweak_list_opts-query c s {t = t} {ts = ts} subnet_tags h =
    let spec = tag_list (c ∷ s) in
    let asked = opts_of-query spec subnet_tags h in
    let matched = subnet_tag_matcher_eq (c ∷ s) subnet_tags in
    elim (Bool-cases spec.negated) [
      | inl negated ↦ asked ∙ rw negated refl
      | inr plain ↦ asked ∙ rw plain (sym (matched ∙ rw plain refl))
    ]
