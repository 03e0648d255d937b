-- ===== src/Cinder/Volumes.antt =====
-- The methods of the controller server on volumes, of pkg/csi/cinder/controllerserver.go
use cloud_provider_openstack.Util.Basic.{get_az_from_topology, round_up_size, Segments}
use cloud_provider_openstack.Prelude.Maps.{get_header, find_entry}
use cloud_provider_openstack.Prelude.{
  ℕ, Option, not, Bool, List, ◌∷◌, ◌==◌, some, [], ◌*◌, String, none, if◌then◌else◌, eqb, all,
  length,
}
use cloud_provider_openstack.Go.{not_found, Error}
use cloud_provider_openstack.Cinder.Requests.{
  delete_volume_request, get_volumes_by_name, create_volume_request,
}
use cloud_provider_openstack.Cinder.Api.{
  Call, code_invalid_argument, missing_or_internal, code_already_exists, refuse, code_internal, ask,
  Cinder, Driver, answer, Volume, gib,
}

-- csi.VolumeContentSource
pub data Source : Type 0 where
  from_snapshot from_volume : String → Source

-- csi.TopologyRequirement
pub record Topology : Type 0 where
  pub preferred : List Segments
  pub requisite : List Segments

-- csi.CreateVolumeRequest; the required bytes are `none` without a capacity range.
pub record CreateRequest : Type 0 where
  pub name : String
  pub has_capabilities : Bool
  pub required_bytes : Option ℕ
  pub parameters : List (String × String)
  pub topology : Option Topology
  pub source : Option Source

-- csi.Volume, as CreateVolume answers it
pub record CreateReply : Type 0 where
  pub volume_id : String
  pub capacity_bytes : ℕ
  pub topology : List Segments
  pub source : Option Source

abbrev pub topology_key : String
topology_key = "topology.cinder.csi.openstack.org/zone"

-- a source volume takes the place of a snapshot
abbrev pub source_of : Volume → Option Source
source_of vol =
    if not (vol.source_vol_id == "")
    then some (from_volume vol.source_vol_id)
    else if not (vol.snapshot_id == "")
    then some (from_snapshot vol.snapshot_id)
    else none

abbrev pub preferred_of : Option Topology → List Segments
preferred_of none = []
preferred_of (some t) = t.preferred

unfoldable pub get_create_volume_response : Volume → Bool → Option Topology → CreateReply
get_create_volume_response vol ignore_volume_az topology = record {
  volume_id = vol.id;
  capacity_bytes = vol.size * gib;
  topology =
      if ignore_volume_az
      then preferred_of topology
      else ((topology_key, vol.availability_zone) ∷ []) ∷ [];
  source = source_of vol;
}

-- the default is 1 GiB
abbrev pub bytes_or_default : Option ℕ → ℕ
bytes_or_default none = gib
bytes_or_default (some bytes) = bytes

unfoldable pub size_of : CreateRequest → ℕ
unfolding round_up_size
size_of req = round_up_size (bytes_or_default req.required_bytes) gib

abbrev pub zone_from : Option Topology → String
zone_from none = ""
zone_from (some t) = get_az_from_topology topology_key t.preferred t.requisite

unfoldable pub availability_of : CreateRequest → String
unfolding get_az_from_topology
availability_of req =
    let given = get_header "availability" req.parameters in
    if given == "" then zone_from req.topology else given

-- the entries of those keys, in their order
unfoldable pub pick : List String → List (String × String) → List (String × String)
pick [] parameters = []
pick (k ∷ ks) parameters =
    let rest = pick ks parameters in
    elim (find_entry k parameters) [ none ↦ rest | some v ↦ (k, v) ∷ rest ]

abbrev pub volume_tags : List String
volume_tags =
    "csi.storage.k8s.io/pvc/name" ∷ "csi.storage.k8s.io/pvc/namespace"
    ∷ "csi.storage.k8s.io/pv/name" ∷ []

abbrev pub cluster_key : String
cluster_key = "cinder.csi.openstack.org/cluster"

abbrev pub snapshot_id_of : Option Source → String
snapshot_id_of (some (from_snapshot id)) = id
snapshot_id_of _ = ""

abbrev pub source_vol_id_of : Option Source → String
source_vol_id_of (some (from_volume id)) = id
source_vol_id_of _ = ""

-- what is not there is deleted or detached
abbrev pub done_if_missing : {W : Type 0} → Error → Call W Unit
done_if_missing not_found = answer tt
done_if_missing _ = refuse code_internal

module _ {W : Type 0} (cinder : Cinder W) (driver : Driver) where
  -- the source has to be there
  unfoldable pub check_source : Option Source → Call W CreateReply → Call W CreateReply
  check_source none next = next
  check_source (some (from_snapshot id)) next =
      ask (cinder.snapshots_get id) (λ e. refuse (missing_or_internal e)) (λ _. next)
  check_source (some (from_volume id)) next =
      ask (cinder.volumes_get id) (λ e. refuse (missing_or_internal e)) (λ _. next)

  unfoldable pub create_new : CreateRequest → Call W CreateReply
  unfolding check_source create_volume_request size_of availability_of pick
      get_create_volume_response
  create_new req = check_source req.source (
      ask
        (create_volume_request cinder driver req.name (size_of req)
          (get_header "type" req.parameters) (availability_of req) (snapshot_id_of req.source)
          (source_vol_id_of req.source)
          ((cluster_key, driver.cluster) ∷ pick volume_tags req.parameters))
        (λ e. refuse code_internal)
        (λ vol. answer (get_create_volume_response vol driver.ignore_volume_az req.topology)))

  -- what is there under the name decides
  unfoldable pub create_among : CreateRequest → List Volume → Call W CreateReply
  unfolding create_new
  create_among req [] = create_new req
  create_among req (vol ∷ []) =
      if not (eqb (size_of req) vol.size)
      then refuse code_already_exists
      else answer (get_create_volume_response vol driver.ignore_volume_az req.topology)
  create_among req (vol ∷ other ∷ more) = refuse code_internal

  unfoldable pub create_volume : CreateRequest → Call W CreateReply
  unfolding create_among get_volumes_by_name
  create_volume req =
      if req.name == ""
      then refuse code_invalid_argument
      else if not req.has_capabilities
      then refuse code_invalid_argument
      else ask (get_volumes_by_name cinder driver req.name) (λ e. refuse code_internal)
          (create_among req)

  unfoldable pub delete_volume : String → Call W Unit
  unfolding delete_volume_request
  delete_volume volume_id =
      if volume_id == ""
      then refuse code_invalid_argument
      else ask (delete_volume_request cinder driver volume_id) done_if_missing answer

  -- ValidateVolumeCapabilities: whether the modes are confirmed
  unfoldable pub validate_volume_capabilities : List ℕ → String → Call W Bool
  validate_volume_capabilities modes volume_id =
      if eqb (length modes) 0
      then refuse code_invalid_argument
      else if volume_id == ""
      then refuse code_invalid_argument
      else ask (cinder.volumes_get volume_id) (λ e. refuse (missing_or_internal e))
          (λ _. answer (all (λ m. eqb m driver.access_mode) modes))
