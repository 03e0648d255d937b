-- ===== src/Cinder/AddsNone.antt =====
-- The methods of the controller server other than CreateVolume make no volume.
use cloud_provider_openstack.Util.Basic.{round_up_size}
use cloud_provider_openstack.Prelude.{
  ◌==◌, ◌≤◌, ℕ, ◌≡◌, List, Bool, Option, arith, none, String, not, some, length, true, false, ◌&&◌,
  if◌then◌else◌, ltb, leb, any,
}
use cloud_provider_openstack.Go.{Exec, not_found, poll, Error, pure, message, ◌>>=◌, reworded}
use cloud_provider_openstack.Cinder.Volumes.{delete_volume, done_if_missing}
use cloud_provider_openstack.Cinder.Store.{Stores, named}
use cloud_provider_openstack.Cinder.Requests.{
  wait_disk_detached, is_used, disk_is_attached, delete_volume_request, detach_volume, device_of,
  or_not_attached, sees_attached, get_attachment_disk_path, disk_detach_steps, is_attached_to,
  wait_disk_attached, sees_detached, volume_error_states, operation_finish_steps, disk_attach_steps,
  expand_volume_request, wait_volume_target_status, attach_volume, reaches,
}
use cloud_provider_openstack.Cinder.Attaching.{
  publish_attached, controller_unpublish_volume, CapacityRange, controller_publish_volume,
  controller_expand_volume, target_status, expand_from,
}
use cloud_provider_openstack.Cinder.Api.{Volume, Driver, Cinder, gib}
use cloud_provider_openstack.Cinder.Along.{
  Along, Along-if, IsPreorder, Along-poll, Along-bind, Along-ask,
}

-- no name has more volumes than before
abbrev pub AddsNone : List Volume → List Volume → Type 0
AddsNone before after = (name : String) → length (named name after) ≤ length (named name before)

AddsNone-eq : {before after : List Volume} → after ≡ before → AddsNone before after
AddsNone-eq e name = rw e (omega arith)

-- The requests but the one to create a volume add none, and the wait asks its condition in turn.
pub record Others {W : Type 0} (cinder : Cinder W) (volumes : W → List Volume) : Type 0 where
  pub polls : (n : ℕ) (c : Exec W Bool) (w : W) → cinder.exponential_backoff n c w ≡ poll n c w
  pub deletes :
      (id : String) (w : W) → AddsNone (volumes w) (volumes (cinder.volumes_delete id w).1)
  pub extends :
      (new : Bool) (id : String) (size : ℕ) (w : W)
      → AddsNone (volumes w) (volumes (cinder.volumes_extend new id size w).1)
  pub attaches :
      (new : Bool) (server id : String) (w : W)
      → AddsNone (volumes w) (volumes (cinder.volume_attach new server id w).1)
  pub detaches :
      (server id : String) (w : W)
      → AddsNone (volumes w) (volumes (cinder.volume_detach server id w).1)
  pub compute_keeps : (w : W) → volumes (cinder.compute_client w).1 ≡ volumes w
  pub server_keeps : (id : String) (w : W) → volumes (cinder.servers_get id w).1 ≡ volumes w

module _ {W : Type 0} {cinder : Cinder W} {volumes : W → List Volume} (l : Stores cinder volumes)
    (o : Others cinder volumes) (driver : Driver) where
  abbrev Fewer : W → W → Type 0
  Fewer u v = AddsNone (volumes u) (volumes v)

  order : IsPreorder Fewer
  order = record {
    same = λ w name. omega arith;
    then_also = λ h k name. omega (arith, h name, k name);
  }

  abbrev Quiet : {A : Type 0} → (W → A × W) → Type 0
  Quiet m = Along Fewer m

  get-Quiet : (id : String) → Quiet (cinder.volumes_get id)
  get-Quiet id w = AddsNone-eq (l.get_keeps id w)

  server-Quiet : (id : String) → Quiet (cinder.servers_get id)
  server-Quiet id w = AddsNone-eq (o.server_keeps id w)

  wait-Quiet : (n : ℕ) (c : Exec W Bool) → Quiet c → Quiet (cinder.exponential_backoff n c)
  wait-Quiet n c h w = rw (o.polls n c w) (Along-poll order n c h w)

  missing-Quiet : (e : Error) → Quiet (done_if_missing e)
  missing-Quiet e = elim e as (λ k. Quiet (done_if_missing k)) [
    | not_found ↦ order.same
    | _ ↦ order.same
  ]

  pub delete_volume-AddsNone : (id : String) → Quiet (delete_volume cinder driver id)
  unfolding delete_volume delete_volume_request
  delete_volume-AddsNone id = Along-if order (id == "") _ _ order.same (
      Along-ask order (delete_volume_request cinder driver id) _ _
        (Along-bind order (cinder.volumes_get id) _ (get-Quiet id)
          (λ v. Along-if order (is_used v.attachments) _ _ order.same (o.deletes id)))
        missing-Quiet (λ _. order.same))

  attached-Quiet : (instance_id id : String) → Quiet (disk_is_attached cinder driver instance_id id)
  unfolding disk_is_attached
  attached-Quiet instance_id id =
      Along-bind order (cinder.volumes_get id) _ (get-Quiet id) (λ v. order.same)

  attach-Quiet : (instance_id id : String) → Quiet (attach_volume cinder driver instance_id id)
  unfolding attach_volume
  attach-Quiet instance_id id = Along-bind order (cinder.volumes_get id) _ (get-Quiet id) (λ v.
      Along-if order (is_attached_to instance_id v.attachments) _ _ order.same (
        Along-bind order (if v.multiattach then cinder.compute_client else pure tt) _
          (Along-if order v.multiattach cinder.compute_client (pure tt)
            (λ w. AddsNone-eq (o.compute_keeps w)) order.same)
          (λ _.
            Along-bind order
              (reworded (message "failed to attach volume to compute")
                (cinder.volume_attach v.multiattach instance_id v.id))
              _ (o.attaches v.multiattach instance_id v.id) (λ _. order.same))))

  path-Quiet :
      (instance_id id : String) → Quiet (get_attachment_disk_path cinder driver instance_id id)
  unfolding get_attachment_disk_path
  path-Quiet instance_id id = Along-bind order (cinder.volumes_get id) _ (get-Quiet id) (λ v.
      Along-if order (not (v.status == "in-use")) _ _ order.same
        (device-Quiet (device_of instance_id v.attachments)))
    where
      device-Quiet : (d : Option String) → Quiet (or_not_attached cinder driver d)
      device-Quiet none = order.same
      device-Quiet (some device) = order.same

  publish_attached-Quiet :
      (instance_id id : String) → Quiet (publish_attached cinder driver instance_id id)
  unfolding publish_attached wait_disk_attached
  publish_attached-Quiet instance_id id =
      Along-ask order (attach_volume cinder driver instance_id id) _ _ (attach-Quiet instance_id id)
        (λ e. order.same)
        (λ _.
          Along-ask order (wait_disk_attached cinder driver instance_id id) _ _
            (wait-Quiet disk_attach_steps (sees_attached cinder driver instance_id id)
              (attached-Quiet instance_id id))
            (λ e. order.same)
            (λ _.
              Along-ask order (get_attachment_disk_path cinder driver instance_id id) _ _
                (path-Quiet instance_id id) (λ e. order.same) (λ _. order.same)))

  pub controller_publish_volume-AddsNone :
      (instance_id id : String) (able : Bool)
      → Quiet (controller_publish_volume cinder driver instance_id id able)
  unfolding controller_publish_volume
  controller_publish_volume-AddsNone instance_id id able =
      Along-if order (id == "") _ _ order.same (
        Along-if order (instance_id == "") _ _ order.same (
          Along-if order (not able) _ _ order.same (
            Along-ask order (cinder.volumes_get id) _ _ (get-Quiet id) (λ e. order.same)
              (λ v.
                Along-ask order (cinder.servers_get instance_id) _ _ (server-Quiet instance_id)
                  (λ e. order.same) (λ _. publish_attached-Quiet instance_id id)))))

  pub controller_unpublish_volume-AddsNone :
      (instance_id id : String) → Quiet (controller_unpublish_volume cinder driver instance_id id)
  unfolding controller_unpublish_volume detach_volume wait_disk_detached
  controller_unpublish_volume-AddsNone instance_id id = Along-if order (id == "") _ _ order.same (
      Along-ask order (cinder.servers_get instance_id) _ _ (server-Quiet instance_id) missing-Quiet
        (λ _.
          Along-ask order (detach_volume cinder driver instance_id id) _ _
            (Along-bind order (cinder.volumes_get id) _ (get-Quiet id) (λ v.
              Along-if order (v.status == "available") _ _ order.same (
                Along-if order (not (v.status == "in-use")) _ _ order.same (
                  Along-if order (is_attached_to instance_id v.attachments) _ _
                    (o.detaches instance_id v.id) order.same))))
            missing-Quiet
            (λ _.
              Along-ask order (wait_disk_detached cinder driver instance_id id) _ _
                (wait-Quiet disk_detach_steps (sees_detached cinder driver instance_id id) (
                  Along-bind order (disk_is_attached cinder driver instance_id id) _
                    (attached-Quiet instance_id id) (λ _. order.same)))
                missing-Quiet (λ _. order.same))))

  reaches-Quiet : (target : List String) (v : Volume) → Quiet (reaches cinder driver target v)
  reaches-Quiet target v =
      Along-if order (any (λ t. v.status == t) target) _ _ order.same
        (Along-if order (any (λ e. v.status == e) volume_error_states) _ _ order.same order.same)

  expand_volume_request-Quiet :
      (id status : String) (size : ℕ) → Quiet (expand_volume_request cinder driver id status size)
  unfolding expand_volume_request
  expand_volume_request-Quiet id status size =
      Along-if order (status == "in-use") _ _
        (Along-if order driver.ignore_volume_microversion _ _ order.same (
          Along-bind order cinder.block_storage_client _ (λ w. AddsNone-eq (l.client_keeps w))
            (λ _. o.extends true id size)))
        (Along-if order (status == "available") _ _ (o.extends false id size) order.same)

  pub controller_expand_volume-AddsNone :
      (id : String) (range : Option CapacityRange)
      → Quiet (controller_expand_volume cinder driver id range)
  unfolding controller_expand_volume expand_from wait_volume_target_status
  controller_expand_volume-AddsNone id none = order.same
  controller_expand_volume-AddsNone id (some range) = Along-if order (id == "") _ _ order.same (
      Along-if order (ltb 0 range.limit_bytes && ltb range.limit_bytes range.required_bytes) _ _
        order.same
        (Along-ask order (cinder.volumes_get id) _ _ (get-Quiet id) (λ e. order.same)
          (λ v.
            Along-if order (leb (round_up_size range.required_bytes gib) v.size) _ _ order.same (
              Along-ask order
                (expand_volume_request cinder driver id v.status
                  (round_up_size range.required_bytes gib))
                _ _
                (expand_volume_request-Quiet id v.status (round_up_size range.required_bytes gib))
                (λ e. order.same)
                (λ _.
                  Along-ask order (wait_volume_target_status cinder driver id target_status) _ _
                    (wait-Quiet operation_finish_steps
                      (cinder.volumes_get id >>= reaches cinder driver target_status)
                      (Along-bind order (cinder.volumes_get id) _ (get-Quiet id)
                        (reaches-Quiet target_status)))
                    (λ e. order.same) (λ _. order.same))))))
