-- ===== src/Cinder/Requests.antt =====
-- pkg/csi/cinder/openstack/openstack_volumes.go and openstack_snapshots.go, with GetInstanceByID of
-- openstack_instances.go
use cloud_provider_openstack.Prelude.Int.{pos, negsuc, ℤ}
use cloud_provider_openstack.Prelude.Maps.{delete_header, find_entry}
use cloud_provider_openstack.Prelude.{
  ℕ, Option, not, true, Bool, List, ◌∷◌, ◌==◌, some, false, [], String, none, if◌then◌else◌, any,
  ◌&&◌, leb, ltb,
}
use cloud_provider_openstack.Go.{
  not_found, Exec, fail, ◌>>=◌, ok, message, err, pure, Result, or_timeout, reworded,
}
use cloud_provider_openstack.Cinder.Api.{Snapshot, Cinder, Driver, Attachment, Volume}

-- only the first attachment is looked at
abbrev pub is_used : List Attachment → Bool
is_used [] = false
is_used (a ∷ others) = not (a.server_id == "")

abbrev pub is_attached_to : String → List Attachment → Bool
is_attached_to instance_id attachments =
    any (λ (a : Attachment). a.server_id == instance_id) attachments

-- an error "not found" of the look is dropped, and the volume is then not attached
abbrev pub unless_missing_false : Result Bool → Result Bool
unless_missing_false (ok b) = ok b
unless_missing_false (err not_found) = ok false
unless_missing_false (err e) = err e

abbrev pub disk_attach_steps : ℕ
disk_attach_steps = 15

abbrev pub disk_detach_steps : ℕ
disk_detach_steps = 13

abbrev pub volume_error_states : List String
volume_error_states = "error" ∷ "error_extending" ∷ "error_deleting" ∷ []

abbrev pub operation_finish_steps : ℕ
operation_finish_steps = 10

-- where 256 is the default too
unfoldable pub get_max_vol_limit : ℤ → ℕ
get_max_vol_limit (pos n) = if ltb 0 n && leb n 256 then n else 256
get_max_vol_limit (negsuc n) = 256

unfoldable pub device_of : String → List Attachment → Option String
device_of instance_id [] = none
device_of instance_id (a ∷ others) =
    let rest = device_of instance_id others in
    if a.server_id == instance_id then some a.device else rest

-- strconv.ParseBool, with false for a text that does not parse
abbrev pub parse_bool : String → Bool
parse_bool s = any (λ t. s == t) ("1" ∷ "t" ∷ "T" ∷ "TRUE" ∷ "true" ∷ "True" ∷ [])

abbrev pub is_forced : Option String → Bool
is_forced none = false
is_forced (some item) = parse_bool item

abbrev pub snap_ready_steps : ℕ
snap_ready_steps = 10

module _ {W : Type 0} (cinder : Cinder W) (driver : Driver) where
  unfoldable pub create_volume_request :
      String → ℕ → String → String → String → String → List (String × String) → Exec W Volume
  create_volume_request name size vtype availability snapshot_id source_vol_id tags =
      cinder.volumes_create (record {
        name = name;
        size = size;
        volume_type = vtype;
        availability_zone = availability;
        description = "Created by OpenStack Cinder CSI driver";
        snapshot_id = snapshot_id;
        source_vol_id = source_vol_id;
        metadata = tags;
      })

  unfoldable pub get_volumes_by_name : String → Exec W (List Volume)
  get_volumes_by_name n = cinder.block_storage_client >>= λ _.
      cinder.volumes_named (not driver.ignore_volume_microversion) n

  unfoldable pub delete_volume_request : String → Exec W Unit
  delete_volume_request volume_id = cinder.volumes_get volume_id >>= λ volume.
      if is_used volume.attachments
      then fail (message "Cannot delete the volume, it's still attached to a node")
      else cinder.volumes_delete volume_id

  -- diskIsAttached
  unfoldable pub disk_is_attached : String → String → Exec W Bool
  disk_is_attached instance_id volume_id = cinder.volumes_get volume_id >>= λ volume.
      pure (is_attached_to instance_id volume.attachments)

  unfoldable pub attach_volume : String → String → Exec W String
  attach_volume instance_id volume_id = cinder.volumes_get volume_id >>= λ volume.
      if is_attached_to instance_id volume.attachments
      then pure volume.id
      else (if volume.multiattach then cinder.compute_client else pure tt) >>= λ _.
          reworded (message "failed to attach volume to compute")
            (cinder.volume_attach volume.multiattach instance_id volume.id)
          >>= λ _. pure volume.id

  abbrev pub sees_attached : String → String → Exec W Bool
  sees_attached instance_id volume_id w =
      let (r, w') = disk_is_attached instance_id volume_id w in (unless_missing_false r, w')

  unfoldable pub wait_disk_attached : String → String → Exec W Unit
  unfolding disk_is_attached
  wait_disk_attached instance_id volume_id =
      or_timeout "failed to be attached within the alloted time"
        (cinder.exponential_backoff disk_attach_steps (sees_attached instance_id volume_id))

  abbrev pub sees_detached : String → String → Exec W Bool
  sees_detached instance_id volume_id =
      disk_is_attached instance_id volume_id >>= λ attached. pure (not attached)

  unfoldable pub wait_disk_detached : String → String → Exec W Unit
  unfolding disk_is_attached
  wait_disk_detached instance_id volume_id =
      or_timeout "failed to detach within the alloted time"
        (cinder.exponential_backoff disk_detach_steps (sees_detached instance_id volume_id))

  unfoldable pub detach_volume : String → String → Exec W Unit
  detach_volume instance_id volume_id = cinder.volumes_get volume_id >>= λ volume.
      if volume.status == "available"
      then pure tt
      else if not (volume.status == "in-use")
      then fail (message "can not detach volume")
      else if is_attached_to instance_id volume.attachments
      then reworded (message "failed to detach volume from compute")
          (cinder.volume_detach instance_id volume.id)
      else pure tt

  -- the target first, then the states of error
  abbrev pub reaches : List String → Volume → Exec W Bool
  reaches target volume =
      if any (λ t. volume.status == t) target
      then pure true
      else if any (λ e. volume.status == e) volume_error_states
      then fail (message "Volume is in Error State")
      else pure false

  unfoldable pub wait_volume_target_status : String → List String → Exec W Unit
  wait_volume_target_status volume_id target = or_timeout "Timeout on waiting for volume status" (
      cinder.exponential_backoff operation_finish_steps
        (cinder.volumes_get volume_id >>= reaches target))

  abbrev pub or_not_attached : Option String → Exec W String
  or_not_attached none = fail (message "disk is not attached to compute")
  or_not_attached (some device) = pure device

  unfoldable pub get_attachment_disk_path : String → String → Exec W String
  unfolding device_of
  get_attachment_disk_path instance_id volume_id = cinder.volumes_get volume_id >>= λ volume.
      if not (volume.status == "in-use")
      then fail (message "can not get device path of volume")
      else or_not_attached (device_of instance_id volume.attachments)

  unfoldable pub expand_volume_request : String → String → ℕ → Exec W Unit
  expand_volume_request volume_id status new_size =
      if status == "in-use"
      then (if driver.ignore_volume_microversion
          then fail
              (message "volume online resize is not available with ignore-volume-microversion")
          else cinder.block_storage_client >>= λ _. cinder.volumes_extend true volume_id new_size)
      else if status == "available"
      then cinder.volumes_extend false volume_id new_size
      else fail (message "volume cannot be resized")

  -- the flag is taken out of the tags, and the rest of them is the metadata
  unfoldable pub create_snapshot_request :
      String → String → List (String × String) → Exec W Snapshot
  create_snapshot_request name volume_id tags = cinder.snapshots_create (record {
    volume_id = volume_id;
    name = name;
    description = "Created by OpenStack Cinder CSI driver";
    force = is_forced (find_entry "force-create" tags);
    metadata = delete_header "force-create" tags;
  })

  abbrev pub snapshot_is_ready : String → Exec W Bool
  snapshot_is_ready snapshot_id =
      cinder.snapshots_get snapshot_id >>= λ (snap : Snapshot). pure (snap.status == "available")

  unfoldable pub wait_snapshot_ready : String → Exec W Unit
  wait_snapshot_ready snapshot_id =
      or_timeout "Timeout, Snapshot is still not Ready"
        (cinder.exponential_backoff snap_ready_steps (snapshot_is_ready snapshot_id))
