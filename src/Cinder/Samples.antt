-- ===== src/Cinder/Samples.antt =====
-- A Cinder that holds its volumes in a list, for the tests.
use cloud_provider_openstack.Prelude.{
  List, some, true, none, refl, arith, String, ◌∷◌, [], ◌==◌, false, if◌then◌else◌,
}
use cloud_provider_openstack.Go.{ok, poll, err, Result, pure, not_found}
use cloud_provider_openstack.Cinder.Volumes.{CreateRequest}
use cloud_provider_openstack.Cinder.Store.{named, Stores}
use cloud_provider_openstack.Cinder.Api.{Cinder, VolumeCreate, Snapshot, Volume, Driver}
use cloud_provider_openstack.Cinder.AddsNone.{Others, AddsNone}

abbrev pub test_driver : Driver
test_driver = record {
  cluster = "k8s";
  ignore_volume_az = false;
  ignore_volume_microversion = false;
  access_mode = 1;
}

abbrev pub find_volume : String → List Volume → Result Volume
find_volume id [] = err not_found
find_volume id (v ∷ vs) = let rest = find_volume id vs in if v.id == id then ok v else rest

abbrev pub remove_volume : String → List Volume → List Volume
remove_volume id [] = []
remove_volume id (v ∷ vs) = let rest = remove_volume id vs in if v.id == id then rest else v ∷ rest

-- the volume is changed in what is not its id and its name
abbrev pub change_volume : (Volume → Volume) → String → List Volume → List Volume
change_volume f id [] = []
change_volume f id (v ∷ vs) =
    let rest = change_volume f id vs in
    if v.id == id then record (f v) { id = v.id; name = v.name } ∷ rest else v ∷ rest

abbrev pub attached_to : String → Volume → Volume
attached_to server v = record v {
  status = "in-use";
  attachments = record { server_id = server; device = "/dev/vdb" } ∷ v.attachments;
}

abbrev pub detached : Volume → Volume
detached v = record v { status = "available"; attachments = [] }

abbrev pub made : VolumeCreate → Volume
made o = record {
  id = "vol-new";
  name = o.name;
  size = o.size;
  status = "available";
  availability_zone = o.availability_zone;
  snapshot_id = o.snapshot_id;
  source_vol_id = o.source_vol_id;
  multiattach = false;
  attachments = [];
}

abbrev pub test_snapshot : Snapshot
test_snapshot = record {
  id = "snap-1";
  name = "s";
  volume_id = "vol-1";
  size = 1;
  status = "available";
}

abbrev pub test_cinder : Cinder (List Volume)
test_cinder = record {
  exponential_backoff = poll;
  block_storage_client = pure tt;
  compute_client = pure tt;
  volumes_create = λ o w. (ok (made o), made o ∷ w);
  volumes_page = λ limit marker w. (ok (w, ""), w);
  volumes_named = λ new name w. (ok (named name w), w);
  volumes_get = λ id w. (find_volume id w, w);
  volumes_delete = λ id w. (ok tt, remove_volume id w);
  volumes_extend = λ new id size w. (ok tt, change_volume (λ v. record v { size = size }) id w);
  volume_attach = λ new server id w. (ok tt, change_volume (attached_to server) id w);
  volume_detach = λ server id w. (ok tt, change_volume detached id w);
  servers_get = λ id. pure tt;
  snapshots_create = λ o. pure test_snapshot;
  snapshots_page = λ f. pure (test_snapshot ∷ [], "");
  snapshots_get = λ id. pure test_snapshot;
  snapshots_delete = λ id. pure tt;
}

abbrev pub itself : List Volume → List Volume
itself vs = vs

pub test-Stores : Stores test_cinder itself
test-Stores = record {
  lists = λ name w vs h. ground (arith, h);
  client_keeps = λ w. refl;
  list_keeps = λ name w. refl;
  get_keeps = λ id w. refl;
  snapshot_keeps = λ id w. refl;
  creates = λ o w v h. ground (arith, h);
  create_fails = λ o w e h. absurd (ground (arith, h));
}

remove_volume-AddsNone : (id : String) (vs : List Volume) → AddsNone vs (remove_volume id vs)
remove_volume-AddsNone id [] name = omega arith
remove_volume-AddsNone id (v ∷ vs) name = ground (arith, remove_volume-AddsNone id vs name)

change_volume-AddsNone :
    (f : Volume → Volume) (id : String) (vs : List Volume) → AddsNone vs (change_volume f id vs)
change_volume-AddsNone f id [] name = omega arith
change_volume-AddsNone f id (v ∷ vs) name = ground (arith, change_volume-AddsNone f id vs name)

pub test-Others : Others test_cinder itself
test-Others = record {
  polls = λ n c w. refl;
  deletes = λ id w. remove_volume-AddsNone id w;
  extends = λ new id size w. change_volume-AddsNone (λ v. record v { size = size }) id w;
  attaches = λ new server id w. change_volume-AddsNone (attached_to server) id w;
  detaches = λ server id w. change_volume-AddsNone detached id w;
  compute_keeps = λ w. refl;
  server_keeps = λ id w. refl;
}

abbrev pub test_request : CreateRequest
test_request = record {
  name = "pvc-1";
  has_capabilities = true;
  required_bytes = some 1500000000;
  parameters = ("type", "ssd") ∷ ("csi.storage.k8s.io/pv/name", "pv") ∷ [];
  topology = none;
  source = none;
}

abbrev pub test_volume : Volume
test_volume = record {
  id = "vol-1";
  name = "pvc-2";
  size = 1;
  status = "available";
  availability_zone = "nova";
  snapshot_id = "";
  source_vol_id = "";
  multiattach = false;
  attachments = [];
}
