-- ===== src/Cinder/Uniqueness.antt =====
-- The methods of the controller server of pkg/csi/cinder, one after the other.
use mathlib.Core.Path.{subst}
use cloud_provider_openstack.Prelude.{
  inl, ◌∙◌, String, arith, ℕ, Option, ◌≤◌, [], ap, false, List, ◌≡◌, eq_iff, inr, ◌==◌, Bool, sym,
  Bool-cases, length,
}
use cloud_provider_openstack.Cinder.Volumes.{
  delete_volume, CreateRequest, create_volume, CreateReply,
}
use cloud_provider_openstack.Cinder.Store.{
  Stores, clash, IsAdded, create_failed, invalid, ambiguous, GetOrCreate, named, found, created,
  unlisted, source_missing, source_failed,
}
use cloud_provider_openstack.Cinder.GetOrCreate.{create_volume-GetOrCreate}
use cloud_provider_openstack.Cinder.Attaching.{
  controller_publish_volume, controller_expand_volume, CapacityRange, controller_unpublish_volume,
}
use cloud_provider_openstack.Cinder.Api.{Cinder, Reply, Driver, Volume}
use cloud_provider_openstack.Cinder.AddsNone.{
  controller_expand_volume-AddsNone, controller_publish_volume-AddsNone, Others,
  delete_volume-AddsNone, AddsNone, controller_unpublish_volume-AddsNone,
}

abbrev pub IsUnique : List Volume → Type 0
IsUnique vs = (name : String) → length (named name vs) ≤ 1

-- A volume of a name that no volume has.
IsAdded-IsUnique :
    {name : String} {size : ℕ} {before after : List Volume} (v : Volume)
    → named name before ≡ []
    → IsAdded name size v before after
    → IsUnique before
    → IsUnique after
IsAdded-IsUnique {name} {before = before} v fresh a h other =
    rw a.0 (elim (Bool-cases (v.name == other)) [
      | inr e ↦ rw e (h other)
      | inl e ↦
          let gone : named other before ≡ [] =
            subst (λ n. named n before ≡ []) (sym a.1 ∙ (eq_iff v.name other).0 e) fresh in
          rw e (omega (arith, ap length gone))
    ])

GetOrCreate-IsUnique :
    {W : Type 0} {cinder : Cinder W} {driver : Driver} {volumes : W → List Volume}
    {req : CreateRequest} {w : W} {after : List Volume} {r : Reply CreateReply}
    → GetOrCreate cinder driver volumes req w r after
    → IsUnique (volumes w)
    → IsUnique after
GetOrCreate-IsUnique (found v l e s) h = h
GetOrCreate-IsUnique (created v l fresh s c a) h = IsAdded-IsUnique v fresh a h
GetOrCreate-IsUnique (invalid e) h = h
GetOrCreate-IsUnique (unlisted e v l) h = h
GetOrCreate-IsUnique (clash v l e s) h = h
GetOrCreate-IsUnique (ambiguous v u more l e) h = h
GetOrCreate-IsUnique (source_missing l e f) h = h
GetOrCreate-IsUnique (source_failed e l f o s) h = h
GetOrCreate-IsUnique (create_failed e l fresh s c (inl same)) h = rw same h
GetOrCreate-IsUnique (create_failed e l fresh s c (inr (v, a))) h = IsAdded-IsUnique v fresh a h

module _ {W : Type 0} (cinder : Cinder W) (driver : Driver) (volumes : W → List Volume) where
  -- A call of a method, whatever it answers; or a change from outside that adds no volume.
  pub data Step (w : W) : W → Type 0 where
    call_create : (req : CreateRequest) → Step w (create_volume cinder driver req w).1
    call_delete : (id : String) → Step w (delete_volume cinder driver id w).1
    call_publish :
        (instance_id id : String) (able : Bool)
        → Step w (controller_publish_volume cinder driver instance_id id able w).1
    call_unpublish :
        (instance_id id : String)
        → Step w (controller_unpublish_volume cinder driver instance_id id w).1
    call_expand :
        (id : String) (range : Option CapacityRange)
        → Step w (controller_expand_volume cinder driver id range w).1
    outside : {u : W} → AddsNone (volumes w) (volumes u) → Step w u

  pub data Reach (w : W) : W → Type 0 where
    at_start : Reach w w
    one_more : {u v : W} → Reach w u → Step u v → Reach w v

module _ {W : Type 0} {cinder : Cinder W} {volumes : W → List Volume} (l : Stores cinder volumes)
    (o : Others cinder volumes) (driver : Driver)
    (filters : driver.ignore_volume_microversion ≡ false) where
  AddsNone-IsUnique : (vs after : List Volume) → AddsNone vs after → IsUnique vs → IsUnique after
  AddsNone-IsUnique vs after a h name = omega (arith, a name, h name)

  Step-IsUnique :
      {u v : W} → Step cinder driver volumes u v → IsUnique (volumes u) → IsUnique (volumes v)
  Step-IsUnique {u} (call_create req) h =
      GetOrCreate-IsUnique (create_volume-GetOrCreate l driver req u filters) h
  Step-IsUnique {u} (call_delete id) h =
      AddsNone-IsUnique _ _ (delete_volume-AddsNone l o driver id u) h
  Step-IsUnique {u} (call_publish i id able) h =
      AddsNone-IsUnique _ _ (controller_publish_volume-AddsNone l o driver i id able u) h
  Step-IsUnique {u} (call_unpublish i id) h =
      AddsNone-IsUnique _ _ (controller_unpublish_volume-AddsNone l o driver i id u) h
  Step-IsUnique {u} (call_expand id range) h =
      AddsNone-IsUnique _ _ (controller_expand_volume-AddsNone l o driver id range u) h
  Step-IsUnique (outside a) h = AddsNone-IsUnique _ _ a h

  -- With a list that filters by name: from volumes of which no two have one name, no sequence of
  -- calls to create, delete, publish, unpublish and expand volumes, with failures of Cinder and with
  -- changes from outside that add no volume in between, leads to two volumes of one name.
  pub Reach-IsUnique :
      {u v : W} → Reach cinder driver volumes u v → IsUnique (volumes u) → IsUnique (volumes v)
  Reach-IsUnique at_start h = h
  Reach-IsUnique (one_more r s) h = Step-IsUnique s (Reach-IsUnique r h)
