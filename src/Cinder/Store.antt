-- ===== src/Cinder/Store.antt =====
-- What the client of Cinder relies on: the volumes that a world holds, and what the requests that
-- pkg/csi/cinder makes do to them.
use cloud_provider_openstack.Prelude.Maps.{get_header}
use cloud_provider_openstack.Cinder.Requests.{get_volumes_by_name, create_volume_request}
use cloud_provider_openstack.Prelude.{
  ◌==◌, ◌≢◌, [], ℕ, some, ◌≡◌, ◌∷◌, String, List, ◌⊎◌, false, true, if◌then◌else◌, none, Option,
}
use cloud_provider_openstack.Go.{ok, err, Error, not_found, Result}
use cloud_provider_openstack.Cinder.Volumes.{
  CreateReply, Source, size_of, get_create_volume_response, CreateRequest, volume_tags, cluster_key,
  availability_of, from_snapshot, pick, from_volume, snapshot_id_of, source_vol_id_of,
}
use cloud_provider_openstack.Cinder.Api.{
  code_internal, code_invalid_argument, Volume, reply, Reply, VolumeCreate, Cinder,
  code_already_exists, refused, code_not_found, Driver, Snapshot,
}

-- the volumes of that name
abbrev pub named : String → List Volume → List Volume
named name [] = []
named name (v ∷ vs) = let rest = named name vs in if v.name == name then v ∷ rest else rest

-- A volume of that name and size is new.
abbrev pub IsAdded : String → ℕ → Volume → List Volume → List Volume → Type 0
IsAdded name size v before after = (after ≡ v ∷ before) × (v.name ≡ name) × (v.size ≡ size)

abbrev pub MayAdd : String → ℕ → List Volume → List Volume → Type 0
MayAdd name size before after = (after ≡ before) ⊎ ((v : Volume) × IsAdded name size v before after)

-- The list by name, which filters from microversion 3.34 on, has the volumes of the name. A request
-- to create that answers has added the volume that it answers, and one that fails may have added it.
pub record Stores {W : Type 0} (cinder : Cinder W) (volumes : W → List Volume) : Type 0 where
  pub lists :
      (name : String) (w : W) (vs : List Volume)
      → (cinder.volumes_named true name w).0 ≡ ok vs
      → vs ≡ named name (volumes w)
  pub client_keeps : (w : W) → volumes (cinder.block_storage_client w).1 ≡ volumes w
  pub list_keeps :
      (name : String) (w : W) → volumes (cinder.volumes_named true name w).1 ≡ volumes w
  pub get_keeps : (id : String) (w : W) → volumes (cinder.volumes_get id w).1 ≡ volumes w
  pub snapshot_keeps : (id : String) (w : W) → volumes (cinder.snapshots_get id w).1 ≡ volumes w
  pub creates :
      (o : VolumeCreate) (w : W) (v : Volume)
      → (cinder.volumes_create o w).0 ≡ ok v
      → IsAdded o.name o.size v (volumes w) (volumes (cinder.volumes_create o w).1)
  pub create_fails :
      (o : VolumeCreate) (w : W) (e : Error)
      → (cinder.volumes_create o w).0 ≡ err e
      → MayAdd o.name o.size (volumes w) (volumes (cinder.volumes_create o w).1)

module _ {W : Type 0} (cinder : Cinder W) (driver : Driver) (volumes : W → List Volume)
    (req : CreateRequest) (w : W) where
  -- the list by name, which is the first request
  abbrev pub first_list : Result (List Volume) × W
  first_list = get_volumes_by_name cinder driver req.name w

  -- the request for the source, behind the list
  abbrev pub SourceFails : Option Source → Error → Type 0
  SourceFails none e = ⊥
  SourceFails (some (from_snapshot id)) e = (cinder.snapshots_get id first_list.1).0 ≡ err e
  SourceFails (some (from_volume id)) e = (cinder.volumes_get id first_list.1).0 ≡ err e

  abbrev pub IsSourceThere : Option Source → Type 0
  IsSourceThere none = Unit
  IsSourceThere (some (from_snapshot id)) =
      (s : Snapshot) × ((cinder.snapshots_get id first_list.1).0 ≡ ok s)
  IsSourceThere (some (from_volume id)) =
      (v : Volume) × ((cinder.volumes_get id first_list.1).0 ≡ ok v)

  abbrev pub source_world : Option Source → W
  source_world none = first_list.1
  source_world (some (from_snapshot id)) = (cinder.snapshots_get id first_list.1).1
  source_world (some (from_volume id)) = (cinder.volumes_get id first_list.1).1

  -- the request that creates, behind the one for the source
  abbrev pub creation : Result Volume × W
  creation =
      create_volume_request cinder driver req.name (size_of req) (get_header "type" req.parameters)
        (availability_of req) (snapshot_id_of req.source) (source_vol_id_of req.source)
        ((cluster_key, driver.cluster) ∷ pick volume_tags req.parameters) (source_world req.source)

  abbrev pub IsValid : Type 0
  IsValid = (req.name ≢ "") × (req.has_capabilities ≡ true)

  -- a valid request, whose list has the volumes of the name
  abbrev pub IsListed : Type 0
  IsListed = IsValid × (first_list.0 ≡ ok (named req.name (volumes w)))

  -- What CreateVolume promises: one volume for a name, which is looked up or made. Each refusal has
  -- its reason, and the code that belongs to it.
  pub data GetOrCreate : Reply CreateReply → List Volume → Type 0 where
    found :
        (v : Volume)
        → IsListed
        → named req.name (volumes w) ≡ v ∷ []
        → v.size ≡ size_of req
        → GetOrCreate
            (reply (get_create_volume_response v driver.ignore_volume_az req.topology))
            (volumes w)
    created :
        (v : Volume) {after : List Volume}
        → IsListed
        → named req.name (volumes w) ≡ []
        → IsSourceThere req.source
        → creation.0 ≡ ok v
        → IsAdded req.name (size_of req) v (volumes w) after
        → GetOrCreate
            (reply (get_create_volume_response v driver.ignore_volume_az req.topology))
            after
    invalid :
        (req.name ≡ "") ⊎ (req.has_capabilities ≡ false)
        → GetOrCreate (refused code_invalid_argument) (volumes w)
    unlisted :
        (e : Error)
        → IsValid
        → first_list.0 ≡ err e
        → GetOrCreate (refused code_internal) (volumes w)
    -- another size
    clash :
        (v : Volume)
        → IsListed
        → named req.name (volumes w) ≡ v ∷ []
        → v.size ≢ size_of req
        → GetOrCreate (refused code_already_exists) (volumes w)
    ambiguous :
        (v u : Volume) (more : List Volume)
        → IsListed
        → named req.name (volumes w) ≡ v ∷ u ∷ more
        → GetOrCreate (refused code_internal) (volumes w)
    source_missing :
        IsListed
        → named req.name (volumes w) ≡ []
        → SourceFails req.source not_found
        → GetOrCreate (refused code_not_found) (volumes w)
    source_failed :
        (e : Error)
        → IsListed
        → named req.name (volumes w) ≡ []
        → e ≢ not_found
        → SourceFails req.source e
        → GetOrCreate (refused code_internal) (volumes w)
    create_failed :
        (e : Error) {after : List Volume}
        → IsListed
        → named req.name (volumes w) ≡ []
        → IsSourceThere req.source
        → creation.0 ≡ err e
        → MayAdd req.name (size_of req) (volumes w) after
        → GetOrCreate (refused code_internal) after
