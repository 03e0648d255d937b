-- ===== src/Instances/ProviderId.antt =====
-- instanceIDFromProviderID of pkg/openstack/instances.go, over the code points of the id. The regular
-- expression `^openstack://([^/]*)/([^/]+)$` is read as its meaning: the prefix, and two parts around
-- the only slash behind it, the second of which is not empty.
use cloud_provider_openstack.Prelude.Strings.{Text, split, codes, has_prefix}
use cloud_provider_openstack.Prelude.{
  refl, Option, ◌∷◌, not, ℕ, List, [], Bool, ◌≡◌, ◌++◌, none, false, true, arith, ◌||◌, some,
  if◌then◌else◌, eqb, any, ◌∙◌, ap,
}

-- strings.Contains
unfoldable pub contains_text : Text → Text → Bool
contains_text [] p = has_prefix [] p
contains_text (x ∷ s) p = has_prefix (x ∷ s) p || contains_text s p

abbrev pub scheme : Text
scheme = codes "openstack://"

-- what follows the prefix
abbrev pub after_prefix : Text → Text → Option Text
after_prefix [] s = some s
after_prefix (y ∷ p) [] = none
after_prefix (y ∷ p) (x ∷ s) = if eqb x y then after_prefix p s else none

-- the instance's id and its region
abbrev pub two_parts : List Text → Option (Text × Text)
two_parts (region ∷ (c ∷ id) ∷ []) = some (c ∷ id, region)
two_parts _ = none

abbrev pub parts_of : Option Text → Option (Text × Text)
parts_of none = none
parts_of (some rest) = two_parts (split b'/' rest)

-- the scheme is put in front of an id that has none
abbrev pub with_scheme : Text → Text
with_scheme [] = []
with_scheme (c ∷ s) = if not (contains_text (c ∷ s) (codes "://")) then scheme ++ c ∷ s else c ∷ s

unfoldable pub instance_id_from_provider_id : Text → Option (Text × Text)
unfolding contains_text split
instance_id_from_provider_id provider_id = parts_of (after_prefix scheme (with_scheme provider_id))

abbrev pub lacks_slash : Text → Bool
lacks_slash s = not (any (λ c. eqb c b'/') s)

split_clean : (s : Text) → lacks_slash s ≡ true → split b'/' s ≡ s ∷ []
unfolding split
split_clean [] h = refl
split_clean (x ∷ s) h =
    let later = split_clean s (ground (arith, h)) in
    let other : eqb x b'/' ≡ false = ground (arith, h) in rw later (rw other refl)

split_once :
    (r s : Text)
    → lacks_slash r ≡ true
    → lacks_slash s ≡ true
    → split b'/' (r ++ b'/' ∷ s) ≡ r ∷ s ∷ []
unfolding split
split_once [] s hr hs = rw (split_clean s hs) refl
split_once (x ∷ r) s hr hs =
    let later = split_once r s (ground (arith, hr)) hs in
    let other : eqb x b'/' ≡ false = ground (arith, hr) in rw later (rw other refl)

no_scheme : (s : Text) → lacks_slash s ≡ true → contains_text s (codes "://") ≡ false
unfolding contains_text
no_scheme [] h = refl
no_scheme (x ∷ []) h = ground arith
no_scheme (x ∷ y ∷ s) h = ground (arith, h, no_scheme (y ∷ s))

no_scheme_once :
    (r : Text) (c : ℕ) (s : Text)
    → lacks_slash r ≡ true
    → lacks_slash (c ∷ s) ≡ true
    → contains_text (r ++ b'/' ∷ c ∷ s) (codes "://") ≡ false
unfolding contains_text
no_scheme_once [] c s hr hs = ground (arith, no_scheme (c ∷ s) hs)
no_scheme_once (x ∷ []) c s hr hs = ground (arith, hs, no_scheme (c ∷ s) hs)
no_scheme_once (x ∷ y ∷ r) c s hr hs = ground (arith, hr, no_scheme_once (y ∷ r) c s)

with_scheme-once :
    (r : Text) (c : ℕ) (s : Text)
    → lacks_slash r ≡ true
    → lacks_slash (c ∷ s) ≡ true
    → with_scheme (r ++ b'/' ∷ c ∷ s) ≡ scheme ++ r ++ b'/' ∷ c ∷ s
with_scheme-once [] c s hr hs = rw (no_scheme_once [] c s hr hs) refl
with_scheme-once (x ∷ r) c s hr hs = rw (no_scheme_once (x ∷ r) c s hr hs) refl

-- For an instance's id that is not empty and a region that may be, both without slashes,
-- "openstack://region/id" and "region/id" give the id and the region.
pub instance_id_from_provider_id-read :
    (region : Text) (c : ℕ) (id : Text)
    → lacks_slash region ≡ true
    → lacks_slash (c ∷ id) ≡ true
    → (instance_id_from_provider_id (scheme ++ region ++ b'/' ∷ c ∷ id) ≡ some (c ∷ id, region))
      × (instance_id_from_provider_id (region ++ b'/' ∷ c ∷ id) ≡ some (c ∷ id, region))
unfolding instance_id_from_provider_id contains_text
instance_id_from_provider_id-read region c id hr hi =
    let read : parts_of (after_prefix scheme (scheme ++ region ++ b'/' ∷ c ∷ id))
        ≡ some (c ∷ id, region) =
      rw (split_once region (c ∷ id) hr hi) refl in
    (read, ap (λ s. parts_of (after_prefix scheme s)) (with_scheme-once region c id hr hi) ∙ read)

-- An id that names only the instance, without a slash, is put behind the scheme, where the slash
-- between region and id is missing: it is refused.
pub instance_id_from_provider_id-bare :
    (c : ℕ) (id : Text) → lacks_slash (c ∷ id) ≡ true → instance_id_from_provider_id (c ∷ id) ≡ none
unfolding instance_id_from_provider_id
instance_id_from_provider_id-bare c id h =
    rw (no_scheme (c ∷ id) h) (rw (split_clean (c ∷ id) h) refl)
