-- ===== src/Cinder/Attaching.antt =====
-- The methods of the controller server that attach, list and expand volumes, of
-- pkg/csi/cinder/controllerserver.go
use cloud_provider_openstack.Util.Basic.{round_up_size}
use cloud_provider_openstack.Prelude.Int.{pos, negsuc, ℤ}
use cloud_provider_openstack.Prelude.{
  ℕ, Option, not, true, Bool, List, ◌∷◌, ◌==◌, map, ◌&&◌, some, false, [], ◌*◌, String, none, ltb,
  if◌then◌else◌, leb,
}
use cloud_provider_openstack.Go.{Error, bad_request}
use cloud_provider_openstack.Cinder.Volumes.{done_if_missing}
use cloud_provider_openstack.Cinder.Requests.{
  expand_volume_request, get_attachment_disk_path, detach_volume, wait_volume_target_status,
  wait_disk_attached, attach_volume, wait_disk_detached,
}
use cloud_provider_openstack.Cinder.Api.{
  Call, Code, code_invalid_argument, missing_or_internal, refuse, code_internal, code_out_of_range,
  ask, Cinder, Driver, Attachment, code_aborted, answer, Volume, gib,
}

-- csi.Volume with its published nodes
pub record Entry : Type 0 where
  pub volume_id : String
  pub capacity_bytes : ℕ
  pub published_node_ids : List String

abbrev pub entry_for : String → Volume → Entry
entry_for id v = record {
  volume_id = id;
  capacity_bytes = v.size * gib;
  published_node_ids = map (λ (a : Attachment). a.server_id) v.attachments;
}

-- csi.CapacityRange; a limit of 0 is none.
pub record CapacityRange : Type 0 where
  pub required_bytes : ℕ
  pub limit_bytes : ℕ

abbrev pub aborted_or_internal : Error → Code
aborted_or_internal bad_request = code_aborted
aborted_or_internal _ = code_internal

abbrev pub is_negative : ℤ → Bool
is_negative (pos n) = false
is_negative (negsuc n) = true

abbrev pub target_status : List String
target_status = "available" ∷ "in-use" ∷ []

module _ {W : Type 0} (cinder : Cinder W) (driver : Driver) where
  -- from the request on that attaches
  unfoldable pub publish_attached : String → String → Call W String
  unfolding attach_volume wait_disk_attached get_attachment_disk_path
  publish_attached instance_id volume_id =
      ask (attach_volume cinder driver instance_id volume_id) (λ e. refuse code_internal)
        λ _.
          ask (wait_disk_attached cinder driver instance_id volume_id) (λ e. refuse code_internal)
            λ _.
              ask (get_attachment_disk_path cinder driver instance_id volume_id)
                (λ e. refuse code_internal) answer

  -- the reply is the device's path
  unfoldable pub controller_publish_volume : String → String → Bool → Call W String
  unfolding publish_attached
  controller_publish_volume instance_id volume_id has_capability =
      if volume_id == ""
      then refuse code_invalid_argument
      else if instance_id == ""
      then refuse code_invalid_argument
      else if not has_capability
      then refuse code_invalid_argument
      else ask (cinder.volumes_get volume_id) (λ e. refuse (missing_or_internal e))
          λ _.
            ask (cinder.servers_get instance_id) (λ e. refuse (missing_or_internal e))
              λ _. publish_attached instance_id volume_id

  unfoldable pub controller_unpublish_volume : String → String → Call W Unit
  unfolding detach_volume wait_disk_detached
  controller_unpublish_volume instance_id volume_id =
      if volume_id == ""
      then refuse code_invalid_argument
      else ask (cinder.servers_get instance_id) done_if_missing λ _.
        ask (detach_volume cinder driver instance_id volume_id) done_if_missing
          λ _. ask (wait_disk_detached cinder driver instance_id volume_id) done_if_missing answer

  -- the entries, and the token of the next page
  unfoldable pub list_volumes : ℤ → String → Call W (List Entry × String)
  list_volumes max_entries starting_token =
      if is_negative max_entries
      then refuse code_invalid_argument
      else ask (cinder.volumes_page max_entries starting_token)
          (λ e. refuse (aborted_or_internal e))
          (λ page. answer (map (λ v. entry_for v.id v) page.0, page.1))

  unfoldable pub controller_get_volume : String → Call W Entry
  controller_get_volume volume_id =
      if volume_id == ""
      then refuse code_invalid_argument
      else ask (cinder.volumes_get volume_id) (λ e. refuse (missing_or_internal e))
          (λ v. answer (entry_for volume_id v))

  -- from the volume that is read on; the size is rounded up, the bytes are not
  unfoldable pub expand_from : String → ℕ → ℕ → Volume → Call W ℕ
  unfolding expand_volume_request wait_volume_target_status
  expand_from volume_id bytes size volume =
      if leb size volume.size
      then answer (volume.size * gib)
      else ask (expand_volume_request cinder driver volume_id volume.status size)
          (λ e. refuse code_internal)
          λ _.
            ask (wait_volume_target_status cinder driver volume_id target_status)
              (λ e. refuse code_internal) λ _. answer bytes

  -- the reply is the capacity in bytes
  unfoldable pub controller_expand_volume : String → Option CapacityRange → Call W ℕ
  unfolding expand_from round_up_size
  controller_expand_volume volume_id none = refuse code_invalid_argument
  controller_expand_volume volume_id (some range) =
      if volume_id == ""
      then refuse code_invalid_argument
      else if ltb 0 range.limit_bytes && ltb range.limit_bytes range.required_bytes
      then refuse code_out_of_range
      else ask (cinder.volumes_get volume_id) (λ e. refuse (missing_or_internal e))
          (expand_from volume_id range.required_bytes (round_up_size range.required_bytes gib))
